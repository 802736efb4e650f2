-- ===== src/Policies/Cost.antt =====
-- apps/server/src/run-policies.ts: `estimateRunCostUsd`, in ten thousandths of a millionth of a dollar, in which
-- the rates of the code are whole numbers, and rounded to millionths as the code does (up to the rounding of
-- its floating-point numbers).
pub mod Bounds
use tik_tok_tech_jam.Base.{
  ℕ, ◌+◌, ◌-◌, ◌*◌, ◌/◌, ◌≤◌, ◌≡◌, refl, String, Bool, true, false, not, ◌&&◌, ◌||◌, Option, none,
  some, arith, leb, nat_eq, get_or, contains, if◌then◌else◌,
}
use tik_tok_tech_jam.Types.{RunUsage}
use tik_tok_tech_jam.Errors.{Result, ok}
use tik_tok_tech_jam.Policies.Budget.{Limits, reject_run_if_budget_exceeded}

abbrev pub is_high_tier : String → Bool
is_high_tier model =
    contains model "opus"
    || (contains model "gpt-4o" && not (contains model "mini"))
    || contains model "claude-3-5-sonnet"

abbrev pub min : ℕ → ℕ → ℕ
min a b = if leb a b then a else b

abbrev pub cost_of : Bool → ℕ → ℕ → ℕ → ℕ
cost_of high uncached cached output =
    uncached * (if high then 30000 else 1500)
    + cached * (if high then 7500 else 375)
    + output * (if high then 150000 else 6000)

-- `toFixed(6)`
abbrev pub rounded : ℕ → ℕ
rounded n = (n + 5000) / 10000

abbrev pub cost_for : Bool → ℕ → ℕ → ℕ → Option ℕ
cost_for high input cached output =
    if nat_eq input 0 && nat_eq output 0
    then none
    else some (rounded (cost_of high (input - cached) cached output))

unfoldable pub estimate_run_cost_usd : Option RunUsage → String → Option ℕ
estimate_run_cost_usd none model = none
estimate_run_cost_usd (some usage) model =
    let input = get_or usage.input_tokens 0 in
    cost_for (is_high_tier model) input (min (get_or usage.cached_input_tokens 0) input)
      (get_or usage.output_tokens 0)
