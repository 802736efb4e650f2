-- ===== src/Authority/Order.antt =====
-- `isNarrowerThan` is a preorder, so a chain of delegations never widens authority.

use text.Mathlib.TextEquality.{starts_with_iff}
use text.Mathlib.TextLemmas.{nil-append, cons-append}
use tik_tok_tech_jam.Base.{
  String, ◌==◌, ◌≡◌, refl, ◌↔◌, sym, ◌∙◌, ap, subst, inl, inr, true, false, Option, arith, eq_iff,
  eq_refl, ends_with, slice_one, Bool-cases,
}
use text.Mathlib.Text.{starts_with}
use tik_tok_tech_jam.Types.{Instant, GrantScope, resource_read, resource_write, network_egress}
use tik_tok_tech_jam.Authority.{
  GrantShape, scope_is_narrower, target_covers, expiry_within, is_narrower_than,
}

pub scope_is_narrower_trans :
    (a b c : GrantScope)
    → scope_is_narrower a b ≡ true
    → scope_is_narrower b c ≡ true
    → scope_is_narrower a c ≡ true
unfolding scope_is_narrower
scope_is_narrower_trans resource_read resource_read c h k = k
scope_is_narrower_trans resource_read resource_write c h k = ground arith
scope_is_narrower_trans resource_write resource_write c h k = k
scope_is_narrower_trans network_egress network_egress c h k = k
scope_is_narrower_trans a b c h k = cc

pub expiry_within_trans :
    (a b c : Option Instant)
    → expiry_within b a ≡ true
    → expiry_within c b ≡ true
    → expiry_within c a ≡ true
unfolding expiry_within
expiry_within_trans a b c h k = ground arith

pub ends_with_refl : (s : String) → ends_with s s ≡ true
ends_with_refl String.[] = refl
ends_with_refl (String.◌∷◌ c s) = ground (arith, eq_refl (String.◌∷◌ c s))

-- a suffix of a suffix is a suffix
pub ends_with_trans :
    (s t u : String) → ends_with s t ≡ true → ends_with t u ≡ true → ends_with s u ≡ true
ends_with_trans String.[] t u h k = subst (λ v. ends_with v u ≡ true) (sym ((eq_iff "" t).0 h)) k
ends_with_trans (String.◌∷◌ c s) t u h k = elim (Bool-cases (String.◌∷◌ c s == t)) [
  | inl e ↦ subst (λ v. ends_with v u ≡ true) (sym ((eq_iff (String.◌∷◌ c s) t).0 e)) k
  | inr e ↦ ground (arith, ends_with_trans s t u (ground arith) k)
]

-- the text after the star of a "*." target
abbrev starred : String → String
starred s = String.◌∷◌ "*" (String.◌∷◌ "." s)

starts_with_star : (a : String) → starts_with a "*." ≡ true → (s : String) × (a ≡ starred s)
starts_with_star a h =
    let (s, e) = (starts_with_iff a "*.").0 h in
    (
      s,
      sym e
          ∙ cons-append "*" "." s
          ∙ ap (String.◌∷◌ "*") (cons-append "." "" s ∙ ap (String.◌∷◌ ".") (nil-append s)),
    )

-- a text that begins with a star is no suffix that begins with a dot
ends_with_dot :
    (b s : String)
    → ends_with (String.◌∷◌ "*" b) (String.◌∷◌ "." s) ≡ true
    → ends_with b (String.◌∷◌ "." s) ≡ true
ends_with_dot b s h = elim (Bool-cases (String.◌∷◌ "*" b == String.◌∷◌ "." s)) [
  | inl e ↦ cc ((eq_iff (String.◌∷◌ "*" b) (String.◌∷◌ "." s)).0 e)
  | inr e ↦ ground arith
]

-- What a target covers, said without the tests: itself; everything, if it is the lone star; and
-- what ends in the rest of it, if it begins with a star and a dot.
pub data Covers (a b : String) : Type 0 where
  same : a ≡ b → Covers a b
  everything : a ≡ "*" → Covers a b
  below : (s : String) → a ≡ starred s → ends_with b (String.◌∷◌ "." s) ≡ true → Covers a b

target_covers_sound : (a b : String) → target_covers a b ≡ true → Covers a b
unfolding target_covers
target_covers_sound a b h = elim (Bool-cases (a == b)) [
  | inl e ↦ same ((eq_iff a b).0 e)
  | inr d ↦ elim (Bool-cases (a == "*")) [
    | inl e ↦ everything ((eq_iff a "*").0 e)
    | inr f ↦ elim (Bool-cases (starts_with a "*.")) [
      | inl e ↦
          let (s, p) = starts_with_star a e in
          below s p (
            let q : ends_with b (slice_one a) ≡ true = ground arith in
            subst (λ v. ends_with b (slice_one v) ≡ true) p q)
      | inr g ↦ cc (let q : false ≡ true = ground arith in q)
    ]
  ]
]

target_covers_complete : (a b : String) → Covers a b → target_covers a b ≡ true
unfolding target_covers
target_covers_complete a b (same e) = ground (arith, (eq_iff a b).1 e)
target_covers_complete a b (everything e) = ground (arith, (eq_iff a "*").1 e)
target_covers_complete a b (below s e h) =
    subst (λ v. target_covers v b ≡ true) (sym e) (starred_covers s b h)
  where
    starred_covers :
        (s b : String) → ends_with b (String.◌∷◌ "." s) ≡ true → target_covers (starred s) b ≡ true
    starred_covers s b h = ground (
      arith,
      (starts_with_iff (starred s) "*.").1 (
        s,
        cons-append "*" "." s
            ∙ ap (String.◌∷◌ "*") (cons-append "." "" s ∙ ap (String.◌∷◌ ".") (nil-append s)),
      ),
    )

-- The test decides the relation.
pub target_covers_iff : (a b : String) → (target_covers a b ≡ true) ↔ Covers a b
target_covers_iff a b = (target_covers_sound a b, target_covers_complete a b)

-- the star is no target below a domain
not-below-star : (s : String) → ¬ (ends_with "*" (String.◌∷◌ "." s) ≡ true)
not-below-star s h = cc ((eq_iff "" (String.◌∷◌ "." s)).0 (ends_with_dot "" s h))

Covers-trans : (a b c : String) → Covers a b → Covers b c → Covers a c
Covers-trans a b c (same e) k = subst (λ v. Covers v c) (sym e) k
Covers-trans a b c (everything e) k = everything e
Covers-trans a b c (below s e h) (same f) =
    below s e (subst (λ v. ends_with v (String.◌∷◌ "." s) ≡ true) f h)
Covers-trans a b c (below s e h) (everything f) =
    absurd (not-below-star s (subst (λ v. ends_with v (String.◌∷◌ "." s) ≡ true) f h))
Covers-trans a b c (below s e h) (below t f k) = below s e (
    ends_with_trans c (String.◌∷◌ "." t) (String.◌∷◌ "." s) k
      (ends_with_dot (String.◌∷◌ "." t) s (subst (λ v. ends_with v (String.◌∷◌ "." s) ≡ true) f h)))

pub target_covers_trans :
    (a b c : String)
    → target_covers a b ≡ true
    → target_covers b c ≡ true
    → target_covers a c ≡ true
target_covers_trans a b c h k =
    target_covers_complete a c
      (Covers-trans a b c (target_covers_sound a b h) (target_covers_sound b c k))

scope_refl : (a : GrantScope) → scope_is_narrower a a ≡ true
unfolding scope_is_narrower
scope_refl resource_read = refl
scope_refl resource_write = refl
scope_refl network_egress = refl

expiry_refl : (a : Option Instant) → expiry_within a a ≡ true
unfolding expiry_within
expiry_refl a = ground arith

-- Narrowing is reflexive: a grant may be passed on as it is.
pub is_narrower_than_refl : (s : GrantShape) → is_narrower_than s s ≡ true
unfolding is_narrower_than
is_narrower_than_refl s = ground (
  arith,
  scope_refl s.scope,
  target_covers_complete s.target s.target (same refl),
  expiry_refl s.expires_at,
)

-- Narrowing composes: along a chain of delegations no step widens what the chain began with, on
-- any of scope, target and lifetime.
pub is_narrower_than_trans :
    (a b c : GrantShape)
    → is_narrower_than a b ≡ true
    → is_narrower_than b c ≡ true
    → is_narrower_than a c ≡ true
unfolding is_narrower_than
is_narrower_than_trans a b c h k = ground (
  arith,
  scope_is_narrower_trans a.scope b.scope c.scope,
  target_covers_trans c.target b.target a.target,
  expiry_within_trans a.expires_at b.expires_at c.expires_at,
)
