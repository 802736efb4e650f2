-- ===== src/Service/Lookups.antt =====
-- A change in place and the lookups that follow it.
use tik_tok_tech_jam.Base.{
  ◌≡◌, refl, Bool, true, ◌⊎◌, inl, inr, none, some, List, [], ◌∷◌, find, arith, Bool-cases, In,
}
use tik_tok_tech_jam.Service.{update_first}

module _ {A : Type 0} (p : A → Bool) (f : A → A) where
  pub find-update_first :
      (xs : List A) (a : A)
      → p (f a) ≡ true
      → find p xs ≡ some a
      → find p (update_first p f xs) ≡ some (f a)
  unfolding update_first
  find-update_first [] a k h = cc
  find-update_first (x ∷ xs) a k h = elim (Bool-cases (p x)) [
    | inl e ↦ let s : x ≡ a = ground arith in rw e (rw s (rw k refl))
    | inr e ↦ rw e (rw e (find-update_first xs a k (ground arith)))
  ]

  pub find-update_first-none :
      (xs : List A) → find p xs ≡ none → find p (update_first p f xs) ≡ none
  unfolding update_first
  find-update_first-none [] h = refl
  find-update_first-none (x ∷ xs) h = elim (Bool-cases (p x)) [
    | inl e ↦ let q : some x ≡ none = ground arith in cc
    | inr e ↦ rw e (rw e (find-update_first-none xs (ground arith)))
  ]

  -- an element after the change is one from before, or the change of one that passes the test
  pub In-update_first :
      (xs : List A) (a : A)
      → In a (update_first p f xs)
      → In a xs ⊎ ((b : A) × In b xs × (p b ≡ true) × (a ≡ f b))
  unfolding update_first
  In-update_first [] a m = absurd m
  In-update_first (x ∷ xs) a m = elim (Bool-cases (p x)) [
    | inl e ↦ elim (let k : In a (f x ∷ xs) = rw e at m in k) [
      | inl s ↦ inr (x, inl refl, e, s)
      | inr n ↦ inl (inr n)
    ]
    | inr e ↦ elim (let k : In a (x ∷ update_first p f xs) = rw e at m in k) [
      | inl s ↦ inl (inl s)
      | inr n ↦ elim (In-update_first xs a n) [
        | inl o ↦ inl (inr o)
        | inr (b, o, q, s) ↦ inr (b, inr o, q, s)
      ]
    ]
  ]
