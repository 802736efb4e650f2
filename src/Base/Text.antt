-- ===== src/Base/Text.antt =====
-- Texts: template literals, `endsWith`, `includes` and the tests on optional texts.

use Prim.Native.String
use Prim.Native.Nat.{ℕ, zero, suc, ◌-◌, ◌/◌, ◌%◌}
use Prim.Native.String.{String}
use Prim.Native.Char.{Char}
use mathlib.Core.Bool.{Bool, true, false, ◌||◌}
use mathlib.Core.Option.{Option, none, some}
use mathlib.Core.List.{List, [], ◌∷◌}
use text.Mathlib.Text.{◌==◌, starts_with}
use tik_tok_tech_jam.Base.Tests.{ltb, if◌then◌else◌}

-- a template literal, as the list of its parts
abbrev pub template : List String → String
template [] = ""
template (s ∷ ss) = String.◌++◌ s (template ss)

-- `s.endsWith(t)`
abbrev pub ends_with : String → String → Bool
ends_with String.[] t = "" == t
ends_with (String.◌∷◌ c s) t = String.◌∷◌ c s == t || ends_with s t

-- `s.slice(1)` where the first character is in the basic plane
abbrev pub slice_one : String → String
slice_one String.[] = ""
slice_one (String.◌∷◌ c s) = s

-- `===` between optional texts
abbrev pub opt_eq : Option String → Option String → Bool
opt_eq none none = true
opt_eq (some a) (some b) = a == b
opt_eq _ _ = false

-- `xs.includes(x)`, or `has` of a set of texts
abbrev pub includes : List String → String → Bool
includes [] x = false
includes (y ∷ ys) x = x == y || includes ys x

-- `Set.prototype.add`: a text that is there already is not added again
abbrev pub add : String → List String → List String
add x s = if includes s x then s else x ∷ s

-- `s.includes(t)` of a text
abbrev pub contains : String → String → Bool
contains String.[] t = "" == t
contains (String.◌∷◌ c s) t = starts_with (String.◌∷◌ c s) t || contains s t

-- a decimal digit
abbrev digit : ℕ → String
digit zero = "0"
digit (suc zero) = "1"
digit (suc (suc zero)) = "2"
digit (suc (suc (suc zero))) = "3"
digit (suc (suc (suc (suc zero)))) = "4"
digit (suc (suc (suc (suc (suc zero))))) = "5"
digit (suc (suc (suc (suc (suc (suc zero)))))) = "6"
digit (suc (suc (suc (suc (suc (suc (suc zero))))))) = "7"
digit (suc (suc (suc (suc (suc (suc (suc (suc zero)))))))) = "8"
digit _ = "9"

decimal_digits : ℕ → ℕ → String
decimal_digits zero n = ""
decimal_digits (suc fuel) n =
    let front = decimal_digits fuel (n / 10) in
    if ltb n 10 then digit n else String.◌++◌ front (digit (n % 10))

-- a whole number in a template literal; it has fewer digits than its value and one
unfoldable pub decimal : ℕ → String
unfolding decimal_digits
decimal n = decimal_digits (suc n) n

-- the number of characters
abbrev pub text_length : String → ℕ
text_length String.[] = 0
text_length (String.◌∷◌ c s) = suc (text_length s)

-- a piece of a split text, with one more character in front of the first
abbrev pub cons_first : Char → List String → List String
cons_first c [] = String.◌∷◌ c "" ∷ []
cons_first c (p ∷ ps) = String.◌∷◌ c p ∷ ps

-- `text.split(separator)` of a separator that is not empty, with `skip` characters of one still to pass
unfoldable pub split_skip : ℕ → String → String → List String
split_skip skip separator String.[] = "" ∷ []
split_skip zero separator (String.◌∷◌ c s) = elim (starts_with (String.◌∷◌ c s) separator) [
  | true ↦ "" ∷ split_skip (text_length separator - 1) separator s
  | false ↦ cons_first c (split_skip zero separator s)
]
split_skip (suc skip) separator (String.◌∷◌ c s) = split_skip skip separator s

unfoldable pub split : String → String → List String
unfolding split_skip
split separator s = split_skip 0 separator s

-- `texts.join(separator)`
abbrev pub join : String → List String → String
join separator [] = ""
join separator (p ∷ []) = p
join separator (p ∷ q ∷ ps) = String.◌++◌ p (String.◌++◌ separator (join separator (q ∷ ps)))

-- JavaScript's white space and line ends
abbrev white_space : String
white_space =
    "\t\n\u{b}\u{c}\r \u{a0}\u{1680}\u{2000}\u{2001}\u{2002}\u{2003}\u{2004}\u{2005}\u{2006}\u{2007}\u{2008}\u{2009}\u{200a}\u{2028}\u{2029}\u{202f}\u{205f}\u{3000}\u{feff}"

abbrev pub is_white : Char → Bool
is_white c = contains white_space (String.◌∷◌ c "")

unfoldable pub trim_start : String → String
trim_start String.[] = ""
trim_start (String.◌∷◌ c s) = let rest = trim_start s in if is_white c then rest else String.◌∷◌ c s

trim_end : String → String
trim_end String.[] = ""
trim_end (String.◌∷◌ c s) =
    let rest = trim_end s in
    if rest == "" then (if is_white c then "" else String.◌∷◌ c "") else String.◌∷◌ c rest

unfoldable pub trim : String → String
unfolding trim_start trim_end
trim s = trim_start (trim_end s)

-- `s.slice(0, n)` where the characters are in the basic plane
abbrev pub take_text : ℕ → String → String
take_text zero s = ""
take_text (suc n) String.[] = ""
take_text (suc n) (String.◌∷◌ c s) = String.◌∷◌ c (take_text n s)
