-- ===== src/Policies/Chain/Total.antt =====
-- The walk up a chain of grants ends, cycles included: each step visits one more stored grant.
use tik_tok_tech_jam.Base.{
  ℕ, zero, suc, ◌<◌, String, ◌==◌, ◌≡◌, inl, inr, Bool, true, false, Option, some, List, [], ◌∷◌,
  arith, length, In, find_sound, includes, Bool-cases, Option-cases,
}
use tik_tok_tech_jam.Types.{Instant, Grant}
use tik_tok_tech_jam.Authority.{shape, is_narrower_than}
use tik_tok_tech_jam.Policies.Visited.{unvisited, unvisited-le-length, unvisited-cons-lt}
use tik_tok_tech_jam.Policies.Chain.{find_grant, is_spent, follow, chain_live, chain_fuel}

abbrev pub Answers : Option Bool → Type 0
Answers r = (b : Bool) × (r ≡ some b)

follow-Answers : (g p : Grant) (rest : Option Bool) → Answers rest → Answers (follow g p rest)
unfolding follow
follow-Answers g p rest (b, e) = elim (Bool-cases (p.principal_id == g.granted_by)) [
  | inl a ↦ elim (Bool-cases (is_narrower_than (shape g) (shape p))) [
    | inl n ↦ (b, ground arith)
    | inr n ↦ (false, ground arith)
  ]
  | inr a ↦ (false, ground arith)
]

-- one call answers if the call for the stored parent does
module _ (gs : List Grant) (now : Instant) where
  step-Answers :
      (fuel : ℕ) (g : Grant) (v : List String)
      → ((p : Grant)
          → In p gs
          → includes v g.id ≡ false
          → Answers (chain_live fuel p gs now (g.id ∷ v)))
      → Answers (chain_live (suc fuel) g gs now v)
  unfolding chain_live
  step-Answers fuel g v next = elim (Bool-cases (includes v g.id)) [
    | inl seen ↦ (false, ground arith)
    | inr new ↦ elim (Bool-cases (is_spent g now)) [
      | inl s ↦ (false, ground arith)
      | inr s ↦ elim (Option-cases g.parent_grant_id) [
        | inl r ↦ (true, ground arith)
        | inr (id, r) ↦ elim (Option-cases (find_grant id gs)) [
          | inl q ↦ (false, ground arith)
          | inr (p, q) ↦
              let up = next p (find_sound (λ c. c.id == id) gs p q).1 new in
              let (b, e) = follow-Answers g p (chain_live fuel p gs now (g.id ∷ v)) up in
              (b, ground arith)
        ]
      ]
    ]
  ]

  stored-Answers :
      (fuel : ℕ) (g : Grant) (v : List String)
      → In g gs
      → unvisited v gs < fuel
      → Answers (chain_live fuel g gs now v)
  stored-Answers zero g v m h = absurd (omega arith)
  stored-Answers (suc fuel) g v m h =
      step-Answers fuel g v λ p k new.
        stored-Answers fuel p (g.id ∷ v) k (omega (arith, unvisited-cons-lt g v gs m new))

  -- With the fuel given, the walk answers for every grant and every list of stored grants.
  pub chain_live_total : (g : Grant) → Answers (chain_live (chain_fuel gs) g gs now [])
  chain_live_total g = step-Answers (suc (length gs)) g [] λ p k new.
      stored-Answers (suc (length gs)) p (g.id ∷ []) k
        (omega (arith, unvisited-le-length (g.id ∷ []) gs))
