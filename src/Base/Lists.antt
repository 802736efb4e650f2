-- ===== src/Base/Lists.antt =====
-- JavaScript's array methods over lists, and membership and counting as the proofs use them.
use Prim.Native.Nat.{ℕ, zero, suc, ◌+◌, ◌≤◌}
use mathlib.Core.Path.{◌≡◌, refl, ap}
use mathlib.Core.Logic.{◌⊎◌, inl, inr}
use mathlib.Core.Bool.{Bool, true, false, ◌&&◌, ◌||◌}
use mathlib.Core.Option.{Option, none, some}
use mathlib.Core.List.{List, [], ◌∷◌, ◌++◌, map}
use native.Mathlib.Omega.{arith}
use tik_tok_tech_jam.Base.Tests.{if◌then◌else◌, Bool-cases}

module _ {ℓ} {A : Type ℓ} where
  abbrev pub length : List A → ℕ
  length [] = 0
  length (x ∷ xs) = suc (length xs)

  abbrev pub take : ℕ → List A → List A
  take zero xs = []
  take (suc n) [] = []
  take (suc n) (x ∷ xs) = x ∷ take n xs

  abbrev pub filter : (A → Bool) → List A → List A
  filter p [] = []
  filter p (x ∷ xs) = if p x then x ∷ filter p xs else filter p xs

  abbrev pub find : (A → Bool) → List A → Option A
  find p [] = none
  find p (x ∷ xs) = if p x then some x else find p xs

  -- `some` of an array
  abbrev pub any : (A → Bool) → List A → Bool
  any p [] = false
  any p (x ∷ xs) = p x || any p xs

  -- `every` of an array
  abbrev pub all : (A → Bool) → List A → Bool
  all p [] = true
  all p (x ∷ xs) = p x && all p xs

-- Membership, with the place left open. (`⊥` stands in `Type 0`, and so do the program's types.)
abbrev pub In : {A : Type 0} → A → List A → Type 0
In a [] = ⊥
In a (x ∷ xs) = (a ≡ x) ⊎ In a xs

module _ {A : Type 0} (P : A → Type 0) where
  abbrev pub All : List A → Type 0
  All [] = Unit
  All (x ∷ xs) = P x × All xs

  pub All-at : (xs : List A) → All xs → (a : A) → In a xs → P a
  All-at [] h a m = absurd m
  All-at (x ∷ xs) h a (inl e) = rw e h.0
  All-at (x ∷ xs) h a (inr m) = All-at xs h.1 a m

  pub All-of : (xs : List A) → ((a : A) → In a xs → P a) → All xs
  All-of [] f = tt
  All-of (x ∷ xs) f = (f x (inl refl), All-of xs (λ a m. f a (inr m)))

module _ {A : Type 0} where
  pub find_sound :
      (p : A → Bool) (xs : List A) (a : A) → find p xs ≡ some a → (p a ≡ true) × In a xs
  find_sound p [] a h = cc
  find_sound p (x ∷ xs) a h = elim (Bool-cases (p x)) [
    | inl e ↦ let s : x ≡ a = ground arith in (rw (← s) e, inl (cc))
    | inr e ↦ let r = find_sound p xs a (ground arith) in (r.0, inr r.1)
  ]

  pub find-none : (p : A → Bool) (xs : List A) (a : A) → find p xs ≡ none → In a xs → p a ≡ false
  find-none p [] a h m = absurd m
  find-none p (x ∷ xs) a h (inl e) = rw e (ground arith)
  find-none p (x ∷ xs) a h (inr m) = find-none p xs a (ground arith) m

  pub filter_sound :
      (p : A → Bool) (xs : List A) (a : A) → In a (filter p xs) → (p a ≡ true) × In a xs
  filter_sound p [] a m = absurd m
  filter_sound p (x ∷ xs) a m = elim (Bool-cases (p x)) [
    | inl e ↦ elim (let k : In a (x ∷ filter p xs) = rw e at m in k) [
      | inl s ↦ (rw s e, inl s)
      | inr n ↦ let r = filter_sound p xs a n in (r.0, inr r.1)
    ]
    | inr e ↦ let r = filter_sound p xs a (rw e at m) in (r.0, inr r.1)
  ]

  pub filter_complete :
      (p : A → Bool) (xs : List A) (a : A) → In a xs → p a ≡ true → In a (filter p xs)
  filter_complete p [] a m h = absurd m
  filter_complete p (x ∷ xs) a (inl e) h = let k : p x ≡ true = rw (← e) h in rw k (inl e)
  filter_complete p (x ∷ xs) a (inr m) h = elim (Bool-cases (p x)) [
    | inl e ↦ rw e (inr (filter_complete p xs a m h))
    | inr e ↦ rw e (filter_complete p xs a m h)
  ]

  pub any-intro : (p : A → Bool) (xs : List A) (a : A) → In a xs → p a ≡ true → any p xs ≡ true
  any-intro p [] a m h = absurd m
  any-intro p (x ∷ xs) a (inl e) h = let k : p x ≡ true = rw (← e) h in ground arith
  any-intro p (x ∷ xs) a (inr m) h = ground (arith, any-intro p xs a m h)

  pub any-elim : (p : A → Bool) (xs : List A) → any p xs ≡ true → (a : A) × In a xs × (p a ≡ true)
  any-elim p [] h = cc
  any-elim p (x ∷ xs) h = elim (Bool-cases (p x)) [
    | inl e ↦ (x, inl refl, e)
    | inr e ↦ let r = any-elim p xs (ground arith) in (r.0, inr r.1, r.2)
  ]

  pub all-at : (p : A → Bool) (xs : List A) (a : A) → all p xs ≡ true → In a xs → p a ≡ true
  all-at p [] a h m = absurd m
  all-at p (x ∷ xs) a h (inl e) = rw e (ground arith)
  all-at p (x ∷ xs) a h (inr m) = all-at p xs a (ground arith) m

  pub all-of : (p : A → Bool) (xs : List A) → ((a : A) → In a xs → p a ≡ true) → all p xs ≡ true
  all-of p [] f = refl
  all-of p (x ∷ xs) f = ground (arith, f x (inl refl), all-of p xs (λ a m. f a (inr m)))

  pub length-filter-le : (p : A → Bool) (xs : List A) → length (filter p xs) ≤ length xs
  length-filter-le p [] = omega arith
  length-filter-le p (x ∷ xs) = ground (arith, length-filter-le p xs)

  pub length-append : (xs ys : List A) → length (xs ++ ys) ≡ length xs + length ys
  length-append [] ys = omega arith
  length-append (x ∷ xs) ys = omega (arith, length-append xs ys)

  pub length-take-le : (n : ℕ) (xs : List A) → length (take n xs) ≤ n
  length-take-le zero xs = omega arith
  length-take-le (suc n) [] = omega arith
  length-take-le (suc n) (x ∷ xs) = omega (arith, length-take-le n xs)

  pub In-take : (n : ℕ) (xs : List A) (a : A) → In a (take n xs) → In a xs
  In-take zero xs a m = absurd m
  In-take (suc n) [] a m = absurd m
  In-take (suc n) (x ∷ xs) a (inl e) = inl e
  In-take (suc n) (x ∷ xs) a (inr m) = inr (In-take n xs a m)

  pub In-append : (xs ys : List A) (a : A) → In a (xs ++ ys) → In a xs ⊎ In a ys
  In-append [] ys a m = inr m
  In-append (x ∷ xs) ys a (inl e) = inl (inl e)
  In-append (x ∷ xs) ys a (inr m) = elim (In-append xs ys a m) [
    | inl k ↦ inl (inr k)
    | inr k ↦ inr k
  ]

  pub In-append_left : (xs ys : List A) (a : A) → In a xs → In a (xs ++ ys)
  In-append_left [] ys a m = absurd m
  In-append_left (x ∷ xs) ys a (inl e) = inl e
  In-append_left (x ∷ xs) ys a (inr m) = inr (In-append_left xs ys a m)

  pub In-append_right : (xs ys : List A) (a : A) → In a ys → In a (xs ++ ys)
  In-append_right [] ys a m = m
  In-append_right (x ∷ xs) ys a m = inr (In-append_right xs ys a m)

-- two lists of one length, related place by place
abbrev pub Pointwise : {A B : Type 0} → (A → B → Type 0) → List A → List B → Type 0
Pointwise R [] [] = Unit
Pointwise R (x ∷ xs) (y ∷ ys) = R x y × Pointwise R xs ys
Pointwise R _ _ = ⊥

module _ {A B : Type 0} where
  pub Pointwise-map :
      (R : A → B → Type 0) (f : A → B) (xs : List A)
      → ((x : A) → In x xs → R x (f x))
      → Pointwise R xs (map f xs)
  Pointwise-map R f [] h = tt
  Pointwise-map R f (x ∷ xs) h = (h x (inl refl), Pointwise-map R f xs (λ y m. h y (inr m)))

  pub In-map : (f : A → B) (xs : List A) (a : A) → In a xs → In (f a) (map f xs)
  In-map f [] a m = absurd m
  In-map f (x ∷ xs) a (inl e) = inl (ap f e)
  In-map f (x ∷ xs) a (inr m) = inr (In-map f xs a m)

  pub In-map_inv :
      (f : A → B) (xs : List A) (b : B) → In b (map f xs) → (a : A) × In a xs × (b ≡ f a)
  In-map_inv f [] b m = absurd m
  In-map_inv f (x ∷ xs) b (inl e) = (x, inl refl, e)
  In-map_inv f (x ∷ xs) b (inr m) = let (a, k, e) = In-map_inv f xs b m in (a, inr k, e)
