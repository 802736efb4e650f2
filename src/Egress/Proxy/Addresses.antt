-- ===== src/Egress/Proxy/Addresses.antt =====
-- apps/server/src/egress-proxy.ts: `parseIPv4`, `parseIPv6`, `isPrivateIPv4` and `isPrivateAddress`. The shifts
-- and masks of the code are written with sums, products and quotients.
use tik_tok_tech_jam.Base.{
  ℕ, zero, suc, ◌+◌, ◌-◌, ◌*◌, ◌/◌, ◌%◌, String, ◌==◌, Bool, true, false, not, ◌&&◌, ◌||◌, Option,
  none, some, List, [], ◌∷◌, ◌++◌, all, length, take, ltb, leb, nat_eq, split, contains,
  text_length, if◌then◌else◌,
}
use Prim.Native.Char.{Char}

-- the place of a character in a text, counted from `n`
abbrev pub place_in : ℕ → String → String → Option ℕ
place_in n String.[] c = none
place_in n (String.◌∷◌ d s) c =
    let rest = place_in (suc n) s c in if String.◌∷◌ d "" == c then some n else rest

-- a digit of a base up to sixteen; no other character becomes one by `toLowerCase`
abbrev pub below : ℕ → Option ℕ → Option ℕ
below base none = none
below base (some d) = if ltb d base then some d else none

abbrev pub either_digit : Option ℕ → Option ℕ → Option ℕ
either_digit none o = o
either_digit (some d) o = some d

unfoldable pub digit_of : ℕ → Char → Option ℕ
digit_of base c = below base (
    either_digit (place_in 0 "0123456789abcdef" (String.◌∷◌ c ""))
      (place_in 0 "0123456789ABCDEF" (String.◌∷◌ c "")))

abbrev pub shifted : ℕ → ℕ → Option ℕ → Option ℕ
shifted base n none = none
shifted base n (some d) = some (n * base + d)

abbrev pub number_from : ℕ → Option ℕ → String → Option ℕ
number_from base none s = none
number_from base (some n) String.[] = some n
number_from base (some n) (String.◌∷◌ c s) = number_from base (shifted base n (digit_of base c)) s

-- a text of one to `most` digits
unfoldable pub number_of : ℕ → ℕ → String → Option ℕ
number_of base most s =
    if s == "" || ltb most (text_length s) then none else number_from base (some 0) s

abbrev pub octet_of : Option ℕ → Option ℕ
octet_of none = none
octet_of (some n) = if leb n 255 then some n else none

abbrev pub cons_if : {A : Type 0} → Option A → Option (List A) → Option (List A)
cons_if (some x) (some xs) = some (x ∷ xs)
cons_if _ _ = none

abbrev pub octets_of : List String → Option (List ℕ)
octets_of [] = some []
octets_of (part ∷ parts) = cons_if (octet_of (number_of 10 3 part)) (octets_of parts)

unfoldable pub parse_ipv4 : String → Option (List ℕ)
parse_ipv4 address =
    let parts = split "." address in if nat_eq (length parts) 4 then octets_of parts else none

-- the two words of four octets
abbrev pub words_of : Option (List ℕ) → Option (List ℕ)
words_of (some (a ∷ b ∷ c ∷ d ∷ [])) = some ((a * 256 + b) ∷ (c * 256 + d) ∷ [])
words_of _ = none

abbrev pub append_if : Option (List ℕ) → Option (List ℕ) → Option (List ℕ)
append_if (some xs) (some ys) = some (xs ++ ys)
append_if _ _ = none

abbrev pub is_last : List String → Bool
is_last [] = true
is_last (p ∷ ps) = false

abbrev pub parse_parts : List String → Option (List ℕ)
parse_parts [] = some []
parse_parts (part ∷ parts) =
    let rest = parse_parts parts in
    if contains part "."
    then (if is_last parts then words_of (parse_ipv4 part) else none)
    else cons_if (number_of 16 4 part) rest

unfoldable pub parse_section : String → Option (List ℕ)
parse_section section = if section == "" then some [] else parse_parts (split ":" section)

abbrev pub zeros : ℕ → List ℕ
zeros zero = []
zeros (suc n) = 0 ∷ zeros n

-- `left`, as many zeros as are missing, and `right`
abbrev pub filled : Option (List ℕ) → Option (List ℕ) → Option (List ℕ)
filled (some left) (some right) =
    if ltb (length left + length right) 8
    then some (left ++ zeros (8 - (length left + length right)) ++ right)
    else none
filled _ _ = none

abbrev pub exactly_eight : Option (List ℕ) → Option (List ℕ)
exactly_eight none = none
exactly_eight (some words) = if nat_eq (length words) 8 then some words else none

abbrev pub parse_sections : List String → Option (List ℕ)
parse_sections (s ∷ []) = exactly_eight (parse_section s)
parse_sections (s ∷ t ∷ []) = filled (parse_section s) (parse_section t)
parse_sections _ = none

unfoldable pub parse_ipv6 : String → Option (List ℕ)
parse_ipv6 address = parse_sections (split "::" address)

unfoldable pub is_private_octets : ℕ → ℕ → Bool
is_private_octets a b =
    (nat_eq a 127 || nat_eq a 0 || nat_eq a 10)
    || (nat_eq a 100 && leb 64 b && leb b 127)
    || (nat_eq a 169 && nat_eq b 254)
    || (nat_eq a 172 && leb 16 b && leb b 31)
    || (nat_eq a 192 && nat_eq b 168)
    || leb 224 a

-- `const [a = 0, b = 0] = parts`
abbrev pub is_private_ipv4 : List ℕ → Bool
is_private_ipv4 [] = is_private_octets 0 0
is_private_ipv4 (a ∷ []) = is_private_octets a 0
is_private_ipv4 (a ∷ b ∷ rest) = is_private_octets a b

abbrev pub word_at : ℕ → List ℕ → ℕ
word_at n [] = 0
word_at zero (w ∷ ws) = w
word_at (suc n) (w ∷ ws) = word_at n ws

abbrev pub is_mapped : List ℕ → Bool
is_mapped words = all (λ w. nat_eq w 0) (take 5 words) && nat_eq (word_at 5 words) 65535

abbrev pub is_compatible : List ℕ → Bool
is_compatible words =
    all (λ w. nat_eq w 0) (take 6 words)
    && (not (nat_eq (word_at 6 words) 0)
        || (not (nat_eq (word_at 7 words) 0) && not (nat_eq (word_at 7 words) 1)))

-- the four octets of the last two words
abbrev pub embedded : List ℕ → List ℕ
embedded words =
    (word_at 6 words / 256)
    ∷ (word_at 6 words % 256)
    ∷ (word_at 7 words / 256)
    ∷ (word_at 7 words % 256)
    ∷ []

unfoldable pub is_private_words : List ℕ → Bool
is_private_words words =
    if is_mapped words || is_compatible words
    then is_private_ipv4 (embedded words)
    else ((all (λ w. nat_eq w 0) (take 7 words) && nat_eq (word_at 7 words) 1)
        || all (λ w. nat_eq w 0) words
        || nat_eq (word_at 0 words / 64 * 64) 65152
        || nat_eq (word_at 0 words / 512 * 512) 64512
        || nat_eq (word_at 0 words / 256 * 256) 65280)

abbrev pub holds_of : (List ℕ → Bool) → Option (List ℕ) → Bool
holds_of p none = false
holds_of p (some xs) = p xs

-- `is_ip` is node's `isIP`.
unfoldable pub is_private_address : (String → ℕ) → String → Bool
is_private_address is_ip address =
    if nat_eq (is_ip address) 4
    then holds_of is_private_ipv4 (parse_ipv4 address)
    else (if nat_eq (is_ip address) 6
        then holds_of is_private_words (parse_ipv6 address)
        else false)
