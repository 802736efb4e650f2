-- ===== src/Egress/Proxy/Octets.antt =====
-- The bounds of the numbers that a parsed address has.
use tik_tok_tech_jam.Base.{
  ℕ, zero, suc, ◌+◌, ◌-◌, ◌*◌, ◌≤◌, ◌<◌, String, ◌==◌, ◌≡◌, refl, ap, subst, Bool, true, false,
  ◌||◌, inl, inr, Option, none, some, List, [], ◌∷◌, ◌++◌, length, length-append, ltb, leb, nat_eq,
  split, contains, text_length, arith, Bool-cases, All, if◌then◌else◌,
}
use Prim.Native.Char.{Char}
use tik_tok_tech_jam.Egress.Proxy.Addresses.{
  number_of, number_from, shifted, below, digit_of, octet_of, octets_of, cons_if, append_if,
  parse_ipv4, words_of, is_last, parse_parts, parse_section, zeros, filled, exactly_eight,
  parse_sections, parse_ipv6,
}

-- what holds of a value, if there is one
abbrev pub IfSome : {A : Type 0} → (A → Type 0) → Option A → Type 0
IfSome P none = Unit
IfSome P (some a) = P a

abbrev pub Below : ℕ → List ℕ → Type 0
Below n xs = All (λ x. x < n) xs

module _ (n : ℕ) where
  Below-append : (xs ys : List ℕ) → Below n xs → Below n ys → Below n (xs ++ ys)
  Below-append [] ys h k = k
  Below-append (x ∷ xs) ys h k = (h.0, Below-append xs ys h.1 k)

  Below-zeros : (m : ℕ) → 0 < n → Below n (zeros m)
  Below-zeros zero h = tt
  Below-zeros (suc m) h = (h, Below-zeros m h)

length-zeros : (m : ℕ) → length (zeros m) ≡ m
length-zeros zero = refl
length-zeros (suc m) = ap suc (length-zeros m)

below-IfSome : (base : ℕ) (o : Option ℕ) → IfSome (λ d. d < base) (below base o)
below-IfSome base none = tt
below-IfSome base (some d) = elim (Bool-cases (ltb d base)) [
  | inl e ↦ rw e (ground arith)
  | inr e ↦ rw e tt
]

digit_of-IfSome : (base : ℕ) (c : Char) → IfSome (λ d. d < base) (digit_of base c)
unfolding digit_of
digit_of-IfSome base c = below-IfSome base _

-- more than any text of `k` hexadecimal digits says after `n`
abbrev cap : ℕ → ℕ → ℕ
cap zero n = suc n
cap (suc k) n = cap k (n * 16 + 15)

cap_mono : (k m n : ℕ) → m ≤ n → cap k m ≤ cap k n
cap_mono zero m n h = omega arith
cap_mono (suc k) m n h = cap_mono k (m * 16 + 15) (n * 16 + 15) (omega arith)

cap-above : (k n : ℕ) → n < cap k n
cap-above zero n = omega arith
cap-above (suc k) n = omega (arith, cap-above k (n * 16 + 15))

IfSome-le : (m n : ℕ) (o : Option ℕ) → m ≤ n → IfSome (λ x. x < m) o → IfSome (λ x. x < n) o
IfSome-le m n none h k = tt
IfSome-le m n (some x) h k = omega arith

number_from-IfSome :
    (k n : ℕ) (s : String)
    → text_length s ≤ k
    → IfSome (λ m. m < cap k n) (number_from 16 (some n) s)
number_from-IfSome zero n String.[] h = omega arith
number_from-IfSome (suc k) n String.[] h = cap-above (suc k) n
number_from-IfSome zero n (String.◌∷◌ c s) h = absurd (let z : ⊥ = omega arith in z)
number_from-IfSome (suc k) n (String.◌∷◌ c s) h =
    step (digit_of 16 c) (digit_of-IfSome 16 c)
      (λ d. number_from-IfSome k (n * 16 + d) s (omega arith))
  where
    step :
        (o : Option ℕ)
        → IfSome (λ d. d < 16) o
        → ((d : ℕ) → IfSome (λ m. m < cap k (n * 16 + d)) (number_from 16 (some (n * 16 + d)) s))
        → IfSome (λ m. m < cap k (n * 16 + 15)) (number_from 16 (shifted 16 n o) s)
    step none h f = tt
    step (some d) h f =
        IfSome-le (cap k (n * 16 + d)) (cap k (n * 16 + 15)) (number_from 16 (some (n * 16 + d)) s)
          (cap_mono k (n * 16 + d) (n * 16 + 15) (omega arith)) (f d)

number_of-IfSome : (s : String) → IfSome (λ m. m < 65536) (number_of 16 4 s)
unfolding number_of
number_of-IfSome s = elim (Bool-cases (s == "" || ltb 4 (text_length s))) [
  | inl e ↦ rw e tt
  | inr e ↦ rw e (number_from-IfSome 4 0 s (ground arith))
]

octet_of-IfSome : (o : Option ℕ) → IfSome (λ n. n < 256) (octet_of o)
octet_of-IfSome none = tt
octet_of-IfSome (some n) = elim (Bool-cases (leb n 255)) [
  | inl e ↦ rw e (ground arith)
  | inr e ↦ rw e tt
]

-- so many numbers, all below a bound
abbrev pub Counted : ℕ → ℕ → List ℕ → Type 0
Counted bound n xs = Below bound xs × (length xs ≡ n)

cons_if-IfSome :
    (bound n : ℕ) (o : Option ℕ) (os : Option (List ℕ))
    → IfSome (λ x. x < bound) o
    → IfSome (Counted bound n) os
    → IfSome (Counted bound (suc n)) (cons_if o os)
cons_if-IfSome bound n none os h k = tt
cons_if-IfSome bound n (some x) none h k = tt
cons_if-IfSome bound n (some x) (some xs) h k = ((h, k.0), ap suc k.1)

octets_of-IfSome : (parts : List String) → IfSome (Counted 256 (length parts)) (octets_of parts)
octets_of-IfSome [] = (tt, refl)
octets_of-IfSome (p ∷ ps) =
    cons_if-IfSome 256 (length ps) (octet_of (number_of 10 3 p)) (octets_of ps)
      (octet_of-IfSome (number_of 10 3 p)) (octets_of-IfSome ps)

-- An address of IPv4 that parses has four octets, each below 256.
pub parse_ipv4-IfSome : (s : String) → IfSome (Counted 256 4) (parse_ipv4 s)
unfolding parse_ipv4
parse_ipv4-IfSome s = elim (Bool-cases (nat_eq (length (split "." s)) 4)) [
  | inl e ↦ rw e (
      let q : length (split "." s) ≡ 4 = ground arith in
      subst (λ n. IfSome (Counted 256 n) (octets_of (split "." s))) q
        (octets_of-IfSome (split "." s)))
  | inr e ↦ rw e tt
]

words_of-IfSome :
    (o : Option (List ℕ)) → IfSome (Counted 256 4) o → IfSome (Below 65536) (words_of o)
words_of-IfSome none h = tt
words_of-IfSome (some (a ∷ b ∷ c ∷ d ∷ [])) h = (omega (arith, h.0), (omega (arith, h.0), tt))
words_of-IfSome _ h = tt

append-IfSome :
    (o q : Option (List ℕ))
    → IfSome (Below 65536) o
    → IfSome (Below 65536) q
    → IfSome (Below 65536) (append_if o q)
append-IfSome none q h k = tt
append-IfSome (some xs) none h k = tt
append-IfSome (some xs) (some ys) h k = Below-append 65536 xs ys h k

cons-IfSome :
    (o : Option ℕ) (os : Option (List ℕ))
    → IfSome (λ x. x < 65536) o
    → IfSome (Below 65536) os
    → IfSome (Below 65536) (cons_if o os)
cons-IfSome none os h k = tt
cons-IfSome (some x) none h k = tt
cons-IfSome (some x) (some xs) h k = (h, k)

last-IfSome :
    (b : Bool) (o : Option (List ℕ))
    → IfSome (Below 65536) o
    → IfSome (Below 65536) (if b then o else none)
last-IfSome true o h = h
last-IfSome false o h = tt

parse_parts-IfSome : (parts : List String) → IfSome (Below 65536) (parse_parts parts)
parse_parts-IfSome [] = tt
parse_parts-IfSome (p ∷ ps) = elim (Bool-cases (contains p ".")) [
  | inl e ↦ rw e (
      last-IfSome (is_last ps) (words_of (parse_ipv4 p))
        (words_of-IfSome (parse_ipv4 p) (parse_ipv4-IfSome p)))
  | inr e ↦
      rw e (
        cons-IfSome (number_of 16 4 p) (parse_parts ps) (number_of-IfSome p)
          (parse_parts-IfSome ps))
]

parse_section-IfSome : (s : String) → IfSome (Below 65536) (parse_section s)
unfolding parse_section
parse_section-IfSome s = elim (Bool-cases (s == "")) [
  | inl e ↦ rw e tt
  | inr e ↦ rw e (parse_parts-IfSome (split ":" s))
]

filled-IfSome :
    (o q : Option (List ℕ))
    → IfSome (Below 65536) o
    → IfSome (Below 65536) q
    → IfSome (Counted 65536 8) (filled o q)
filled-IfSome none q h k = tt
filled-IfSome (some xs) none h k = tt
filled-IfSome (some xs) (some ys) h k = elim (Bool-cases (ltb (length xs + length ys) 8)) [
  | inr e ↦ rw e tt
  | inl e ↦
      let m = 8 - (length xs + length ys) in
      rw e (
        Below-append 65536 (xs ++ zeros m) ys
            (Below-append 65536 xs (zeros m) h (Below-zeros 65536 m (omega arith))) k,
        ground
            (arith, length-append (xs ++ zeros m) ys, length-append xs (zeros m), length-zeros m),
      )
]

eight-IfSome :
    (o : Option (List ℕ)) → IfSome (Below 65536) o → IfSome (Counted 65536 8) (exactly_eight o)
eight-IfSome none h = tt
eight-IfSome (some xs) h = elim (Bool-cases (nat_eq (length xs) 8)) [
  | inl e ↦ rw e (h, ground arith)
  | inr e ↦ rw e tt
]

sections-IfSome : (ss : List String) → IfSome (Counted 65536 8) (parse_sections ss)
sections-IfSome [] = tt
sections-IfSome (s ∷ []) = eight-IfSome (parse_section s) (parse_section-IfSome s)
sections-IfSome (s ∷ t ∷ []) =
    filled-IfSome (parse_section s) (parse_section t) (parse_section-IfSome s)
      (parse_section-IfSome t)
sections-IfSome (s ∷ t ∷ u ∷ ss) = tt

-- A text that parses as an address of IPv4 gives four octets below 256, and one that parses as an address of
-- IPv6 gives eight words below 65536.
pub parse-Counted :
    (s : String) → IfSome (Counted 256 4) (parse_ipv4 s) × IfSome (Counted 65536 8) (parse_ipv6 s)
unfolding parse_ipv6
parse-Counted s = (parse_ipv4-IfSome s, sections-IfSome (split "::" s))
