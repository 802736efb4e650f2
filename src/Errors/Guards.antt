-- ===== src/Errors/Guards.antt =====
-- How a chain of guards comes out, see `Errors`.
use tik_tok_tech_jam.Base.{◌≡◌, refl, Bool, true, false, ◌⊎◌, inl, inr}
use tik_tok_tech_jam.Errors.{Failure, Result, ok, err, ◌>>=◌, ◌>>◌, reject_if}

pub data IsErr {A : Type 0} : Result A → Type 0 where
  failed : (e : Failure) → IsErr (err e)

pub IsErr-ok : {A : Type 0} (a : A) → IsErr (ok a) → ⊥
IsErr-ok {A} a h = go (ok a) h refl
  where
    go : (r : Result A) → IsErr r → r ≡ ok a → ⊥
    go (err e) (failed _) q = cc
    go (ok _) h q = elim h [ ]

pub guard-ok :
    {A : Type 0} (b : Bool) (e : Failure) (k : Result A) (a : A)
    → (reject_if b e >> k) ≡ ok a
    → (b ≡ false) × (k ≡ ok a)
guard-ok true e k a h = cc
guard-ok false e k a h = (refl, h)

pub guard-IsErr :
    {A : Type 0} (b : Bool) (e : Failure) (k : Result A) → IsErr k → IsErr (reject_if b e >> k)
guard-IsErr true e k h = failed e
guard-IsErr false e k h = h

pub bind-ok :
    {A B : Type 0} (r : Result A) (f : A → Result B) (b : B)
    → (r >>= f) ≡ ok b
    → (a : A) × (r ≡ ok a) × (f a ≡ ok b)
bind-ok (err e) f b h = cc
bind-ok (ok a) f b h = (a, refl, h)

pub bind-IsErr :
    {A B : Type 0} (r : Result A) (f : A → Result B) → ((a : A) → IsErr (f a)) → IsErr (r >>= f)
bind-IsErr (err e) f h = failed e
bind-IsErr (ok a) f h = h a

pub bind-IsErr_left : {A B : Type 0} (r : Result A) (f : A → Result B) → IsErr r → IsErr (r >>= f)
bind-IsErr_left (err e) f h = failed e
bind-IsErr_left (ok a) f h = absurd (IsErr-ok a h)

pub IsErr_of_not_ok : {A : Type 0} (r : Result A) → ((a : A) → r ≡ ok a → ⊥) → IsErr r
IsErr_of_not_ok (err e) h = failed e
IsErr_of_not_ok (ok a) h = absurd (h a refl)

-- what holds of the outcome, if there is one
abbrev pub Holds : {A : Type 0} → (A → Type 0) → Result A → Type 0
Holds P (err e) = Unit
Holds P (ok a) = P a

pub bind-Holds :
    {A B : Type 0} (P : B → Type 0) (r : Result A) (f : A → Result B)
    → ((a : A) → r ≡ ok a → Holds P (f a))
    → Holds P (r >>= f)
bind-Holds P (err e) f h = tt
bind-Holds P (ok a) f h = h a refl

pub guard-Holds :
    {B : Type 0} (P : B → Type 0) (b : Bool) (e : Failure) (k : Result B)
    → (b ≡ false → Holds P k)
    → Holds P (reject_if b e >> k)
guard-Holds P true e k h = tt
guard-Holds P false e k h = h refl

-- the outcome, or another value
abbrev pub ok_or : {A : Type 0} → A → Result A → A
ok_or d (err e) = d
ok_or d (ok a) = a

pub Result-cases :
    {A : Type 0} (r : Result A) → ((e : Failure) × (r ≡ err e)) ⊎ ((a : A) × (r ≡ ok a))
Result-cases (err e) = inl (e, refl)
Result-cases (ok a) = inr (a, refl)
