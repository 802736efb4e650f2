-- ===== src/Policies/Budget/Bounds.antt =====
-- A run is within its budget exactly when it passes.
use tik_tok_tech_jam.Base.{
  ℕ, ◌≤◌, String, ◌≡◌, refl, ◌↔◌, Option, none, some, List, [], ◌∷◌, ◌++◌, arith, ltb, inl, inr,
  Bool-cases,
}
use tik_tok_tech_jam.Types.{RunUsage}
use tik_tok_tech_jam.Errors.{ok}
use tik_tok_tech_jam.Policies.Budget.{
  Limits, input_of, output_of, total_tokens, exceeding, exceeding_total, tripped, violations,
  reject_run_if_budget_exceeded,
}

-- a number is within a limit, if there is one
abbrev pub Within : Option ℕ → ℕ → Type 0
Within none n = Unit
Within (some limit) n = n ≤ limit

-- a run whose usage is not known has no total
abbrev pub WithinTotal : Option ℕ → Option ℕ → Type 0
WithinTotal limit none = Unit
WithinTotal limit (some total) = Within limit total

exceeding-Within :
    (what after : String) (limit : Option ℕ) (n : ℕ)
    → exceeding what after limit n ≡ []
    → Within limit n
exceeding-Within what after none n h = tt
exceeding-Within what after (some limit) n h = elim (Bool-cases (ltb limit n)) [
  | inl t ↦ cc (let k : _ ∷ [] ≡ [] = rw t at h in k)
  | inr f ↦ ground arith
]

Within-exceeding :
    (what after : String) (limit : Option ℕ) (n : ℕ)
    → Within limit n
    → exceeding what after limit n ≡ []
Within-exceeding what after none n w = refl
Within-exceeding what after (some limit) n w = ground (arith, w)

exceeding_total-WithinTotal :
    (limit total : Option ℕ) → exceeding_total limit total ≡ [] → WithinTotal limit total
exceeding_total-WithinTotal limit none h = tt
exceeding_total-WithinTotal limit (some total) h = exceeding-Within "total tokens" "" limit total h

WithinTotal-exceeding_total :
    (limit total : Option ℕ) → WithinTotal limit total → exceeding_total limit total ≡ []
WithinTotal-exceeding_total limit none w = refl
WithinTotal-exceeding_total limit (some total) w = Within-exceeding "total tokens" "" limit total w

append-nil : (xs ys : List String) → xs ++ ys ≡ [] → (xs ≡ []) × (ys ≡ [])
append-nil [] ys h = (refl, h)
append-nil (x ∷ xs) ys h = cc

all_nil :
    (as_ bs cs ds : List String)
    → as_ ++ bs ++ cs ++ ds ≡ []
    → (as_ ≡ []) × (bs ≡ []) × (cs ≡ []) × (ds ≡ [])
all_nil as_ bs cs ds h =
    let (r, d) = append-nil (as_ ++ bs ++ cs) ds h in
    let (q, c) = append-nil (as_ ++ bs) cs r in let (a, b) = append-nil as_ bs q in (a, b, c, d)

tripped-nil : (vs : List String) → tripped vs ≡ ok tt → vs ≡ []
tripped-nil [] h = refl
tripped-nil (v ∷ vs) h = cc

-- Every configured limit holds.
pub record IsWithin (limits : Limits) (usage : Option RunUsage) (elapsed_ms : ℕ) : Type 0 where
  pub input : Within limits.run_budget_max_input_tokens (input_of usage)
  pub output : Within limits.run_budget_max_output_tokens (output_of usage)
  pub total : WithinTotal limits.run_budget_max_total_tokens (total_tokens usage)
  pub duration : Within limits.run_budget_max_duration_ms elapsed_ms

-- A run passes the budget check exactly when its input, its output, their total and its duration are within
-- every limit that is configured.
pub budget_iff :
    (limits : Limits) (usage : Option RunUsage) (elapsed_ms : ℕ)
    → (reject_run_if_budget_exceeded limits usage elapsed_ms ≡ ok tt)
      ↔ IsWithin limits usage elapsed_ms
unfolding reject_run_if_budget_exceeded
budget_iff limits usage elapsed_ms = (
  λ h.
      let (a, b, c, d) =
        all_nil (exceeding "input tokens" "" limits.run_budget_max_input_tokens (input_of usage))
          (exceeding "output tokens" "" limits.run_budget_max_output_tokens (output_of usage))
          (exceeding_total limits.run_budget_max_total_tokens (total_tokens usage))
          (exceeding "duration" " ms" limits.run_budget_max_duration_ms elapsed_ms)
          (tripped-nil (violations limits usage elapsed_ms) h) in
      record {
        input =
            exceeding-Within "input tokens" "" limits.run_budget_max_input_tokens (input_of usage)
              a;
        output =
            exceeding-Within "output tokens" "" limits.run_budget_max_output_tokens
              (output_of usage) b;
        total =
            exceeding_total-WithinTotal limits.run_budget_max_total_tokens (total_tokens usage) c;
        duration = exceeding-Within "duration" " ms" limits.run_budget_max_duration_ms elapsed_ms d;
      },
  λ w.
      rw
        (
          Within-exceeding "input tokens" "" limits.run_budget_max_input_tokens (input_of usage)
              w.input,
          Within-exceeding "output tokens" "" limits.run_budget_max_output_tokens (output_of usage)
              w.output,
          WithinTotal-exceeding_total limits.run_budget_max_total_tokens (total_tokens usage)
              w.total,
          Within-exceeding "duration" " ms" limits.run_budget_max_duration_ms elapsed_ms w.duration,
        )
        refl,
)
