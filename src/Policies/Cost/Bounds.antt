-- ===== src/Policies/Cost/Bounds.antt =====
-- What a run that stays within its budget can cost.
use tik_tok_tech_jam.Base.{
  ℕ, ◌+◌, ◌-◌, ◌*◌, ◌≤◌, ◌≡◌, subst, String, Bool, true, false, ◌&&◌, inl, inr, Option, none, some,
  arith, nat_eq, get_or, Bool-cases,
}
use tik_tok_tech_jam.Types.{RunUsage}
use tik_tok_tech_jam.Errors.{ok}
use tik_tok_tech_jam.Policies.Budget.{Limits, reject_run_if_budget_exceeded}
use tik_tok_tech_jam.Policies.Budget.Bounds.{Within, budget_iff}
use tik_tok_tech_jam.Policies.Cost.{
  cost_of, rounded, estimate_run_cost_usd, cost_for, min, is_high_tier,
}

-- a cost in ten thousandths of a millionth, for tokens within a limit
cost_of-le :
    (high : Bool) (input cached output limit : ℕ)
    → cached ≤ input
    → input + output ≤ limit
    → cost_of high (input - cached) cached output ≤ 150000 * limit
cost_of-le true input cached output limit h k = omega arith
cost_of-le false input cached output limit h k = omega arith

rounded-le : (n limit : ℕ) → n ≤ 150000 * limit → rounded n ≤ 15 * limit
rounded-le n limit h = omega arith

-- at most a number, if there is one
abbrev pub AtMost : ℕ → Option ℕ → Type 0
AtMost limit none = Unit
AtMost limit (some cost) = cost ≤ limit

cost_for-AtMost :
    (high : Bool) (input cached output limit : ℕ)
    → cached ≤ input
    → input + output ≤ limit
    → AtMost (15 * limit) (cost_for high input cached output)
cost_for-AtMost high input cached output limit h k =
    elim (Bool-cases (nat_eq input 0 && nat_eq output 0)) [
      | inl e ↦ rw e tt
      | inr e ↦ rw e (
          rounded-le (cost_of high (input - cached) cached output) limit
            (cost_of-le high input cached output limit h k))
    ]

min-le : (a b : ℕ) → min a b ≤ b
min-le a b = ground arith

-- A run that passes its budget with a limit on all tokens is estimated at no more than fifteen millionths of a
-- dollar for each token of that limit, whatever the model is.
pub estimate-AtMost :
    (limits : Limits) (usage : RunUsage) (elapsed_ms limit : ℕ) (model : String)
    → limits.run_budget_max_total_tokens ≡ some limit
    → reject_run_if_budget_exceeded limits (some usage) elapsed_ms ≡ ok tt
    → AtMost (15 * limit) (estimate_run_cost_usd (some usage) model)
unfolding estimate_run_cost_usd
estimate-AtMost limits usage elapsed_ms limit model h k =
    let input = get_or usage.input_tokens 0 in
    let output = get_or usage.output_tokens 0 in
    let within = (budget_iff limits (some usage) elapsed_ms).0 k in
    cost_for-AtMost (is_high_tier model) input (min (get_or usage.cached_input_tokens 0) input)
      output limit (min-le (get_or usage.cached_input_tokens 0) input)
      (subst (λ l. Within l (input + output)) h within.total)
