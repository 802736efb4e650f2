-- ===== src/Policies/Budget.antt =====
-- apps/server/src/run-policies.ts: the canary in a run's output, and the budget of a run.
pub mod Bounds
use tik_tok_tech_jam.Base.{
  ℕ, ◌+◌, String, ◌==◌, Bool, true, false, not, ◌&&◌, Option, none, some, List, [], ◌∷◌, ◌++◌, ltb,
  get_or, contains, decimal, template, if◌then◌else◌,
}
use tik_tok_tech_jam.Types.{RunUsage}
use tik_tok_tech_jam.Errors.{canary, budget, policy_violation, Result, ok, err}

-- the limits of the configuration; `none` is no limit
pub record Limits : Type 0 where
  pub run_budget_max_input_tokens : Option ℕ
  pub run_budget_max_output_tokens : Option ℕ
  pub run_budget_max_total_tokens : Option ℕ
  pub run_budget_max_duration_ms : Option ℕ

unfoldable pub reject_output_if_canary_present : String → String → Result (Unit {0})
reject_output_if_canary_present guardrail_canary_token output =
    if not (guardrail_canary_token == "") && contains output guardrail_canary_token
    then err (
        policy_violation canary 409
          "Run output echoed the canary token outside the workspace boundary.")
    else ok tt

abbrev pub input_of : Option RunUsage → ℕ
input_of none = 0
input_of (some usage) = get_or usage.input_tokens 0

abbrev pub output_of : Option RunUsage → ℕ
output_of none = 0
output_of (some usage) = get_or usage.output_tokens 0

abbrev pub total_tokens : Option RunUsage → Option ℕ
total_tokens none = none
total_tokens (some usage) = some (get_or usage.input_tokens 0 + get_or usage.output_tokens 0)

-- one `if` with its `push`: `what`, the limit and `after`
abbrev pub exceeding : String → String → Option ℕ → ℕ → List String
exceeding what after none n = []
exceeding what after (some limit) n =
    if ltb limit n then template (what ∷ " exceeded " ∷ decimal limit ∷ after ∷ []) ∷ [] else []

abbrev pub exceeding_total : Option ℕ → Option ℕ → List String
exceeding_total limit none = []
exceeding_total limit (some total) = exceeding "total tokens" "" limit total

-- `join(", ")`
abbrev pub joined : List String → String
joined [] = ""
joined (v ∷ []) = v
joined (v ∷ w ∷ vs) = template (v ∷ ", " ∷ joined (w ∷ vs) ∷ [])

abbrev pub tripped : List String → Result (Unit {0})
tripped [] = ok tt
tripped (v ∷ vs) = err (
    policy_violation budget 429
      (template ("Run budget circuit breaker tripped: " ∷ joined (v ∷ vs) ∷ [])))

abbrev pub violations : Limits → Option RunUsage → ℕ → List String
violations limits usage elapsed_ms =
    exceeding "input tokens" "" limits.run_budget_max_input_tokens (input_of usage)
    ++ exceeding "output tokens" "" limits.run_budget_max_output_tokens (output_of usage)
    ++ exceeding_total limits.run_budget_max_total_tokens (total_tokens usage)
    ++ exceeding "duration" " ms" limits.run_budget_max_duration_ms elapsed_ms

unfoldable pub reject_run_if_budget_exceeded : Limits → Option RunUsage → ℕ → Result (Unit {0})
reject_run_if_budget_exceeded limits usage elapsed_ms = tripped (violations limits usage elapsed_ms)
