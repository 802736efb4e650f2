-- ===== src/Examples/Authorities.antt =====
-- Runs of the theorems on chains of grants and on decisions.
use tik_tok_tech_jam.Base.{◌≡◌, ◌≢◌, refl, ◌↔◌, true, false, none, some, [], ◌∷◌}
use tik_tok_tech_jam.Types.{agent, network_egress, resource_read, Grant, RunUsage}
use tik_tok_tech_jam.Authority.{
  GrantShape, GrantRequest, is_narrower_than, authorize_grant_request, target_covers,
  scope_is_narrower, expiry_within,
}
use tik_tok_tech_jam.Authority.Order.{is_narrower_than_trans}
use tik_tok_tech_jam.Authority.Requests.{Covering, allowed_agent-Covering}
use tik_tok_tech_jam.Policies.Chain.{is_grant_chain_live, chain_live, chain_fuel, is_spent}
use tik_tok_tech_jam.Policies.Chain.Total.{Answers, chain_live_total}
use tik_tok_tech_jam.Policies.Chain.Live.{
  Live, itself, above, is_grant_chain_live_iff, spent-Ancestor_ends,
}
use tik_tok_tech_jam.Policies.Access.{evaluate_egress, evaluate_resource_access, active_grant}
use tik_tok_tech_jam.Policies.Access.Laws.{
  Authorizes, Refusal, egress_allowed_iff, egress-Refusal_rule, resource_allowed_iff,
}
use tik_tok_tech_jam.Errors.{ok}
use tik_tok_tech_jam.Policies.Budget.{Limits, reject_run_if_budget_exceeded}
use tik_tok_tech_jam.Policies.Budget.Bounds.{IsWithin, budget_iff}
use tik_tok_tech_jam.Examples.{given, passed_on, all_grants, list_a}

is_grant_chain_live_iff_example :
    (is_grant_chain_live passed_on all_grants 100 ≡ true) ↔ Live all_grants 100 passed_on
is_grant_chain_live_iff_example = is_grant_chain_live_iff all_grants 100 passed_on refl

abbrev revoked : Grant
revoked = record given { revoked_at = some 60 }

revoked_spent : is_spent revoked 100 ≡ true
unfolding is_spent
revoked_spent = refl

spent-Ancestor_ends_example : is_grant_chain_live passed_on (revoked ∷ passed_on ∷ []) 100 ≡ false
spent-Ancestor_ends_example =
    spent-Ancestor_ends (revoked ∷ passed_on ∷ []) 100 revoked passed_on
      (above passed_on revoked (record { id = "g1"; recorded = refl; stored = refl }) itself)
      revoked_spent

chain_live_total_example : Answers (chain_live (chain_fuel all_grants) passed_on all_grants 100 [])
chain_live_total_example = chain_live_total all_grants 100 passed_on

egress_allowed_iff_example :
    ((evaluate_egress "agent-1" "api.test" all_grants 100).allowed ≡ true) ↔ (
      (g : Grant) × Authorizes all_grants "agent-1" network_egress "api.test" 100 g
      × ((evaluate_egress "agent-1" "api.test" all_grants 100).grant_id ≡ some g.id))
egress_allowed_iff_example = egress_allowed_iff "agent-1" "api.test" all_grants 100

unknown_refused : (evaluate_egress "agent-1" "evil.test" all_grants 100).allowed ≡ false
unfolding evaluate_egress active_grant
unknown_refused = refl

egress-Refusal_rule_example :
    Refusal "agent-1" "evil.test" all_grants 100
      (evaluate_egress "agent-1" "evil.test" all_grants 100).rule_id
egress-Refusal_rule_example =
    egress-Refusal_rule "agent-1" "evil.test" all_grants 100 unknown_refused

resource_allowed_iff_example :
    ((evaluate_resource_access "agent-1" "user-a" list_a all_grants 100).allowed ≡ true) ↔ (
      (list_a.owner_id ≡ "user-a")
      × ((g : Grant) × Authorizes all_grants "agent-1" resource_read "res-a" 100 g
          × ((evaluate_resource_access "agent-1" "user-a" list_a all_grants 100).grant_id
              ≡ some g.id)))
resource_allowed_iff_example = resource_allowed_iff "agent-1" "user-a" list_a all_grants 100

abbrev wide : GrantShape
wide = record { scope = network_egress; target = "*"; expires_at = none }

abbrev below_test : GrantShape
below_test = record { scope = network_egress; target = "*.test"; expires_at = some 500 }

abbrev one_host : GrantShape
one_host = record { scope = network_egress; target = "api.test"; expires_at = some 400 }

one_host_narrower : is_narrower_than one_host below_test ≡ true
unfolding is_narrower_than scope_is_narrower target_covers expiry_within
one_host_narrower = refl

below_test_narrower : is_narrower_than below_test wide ≡ true
unfolding is_narrower_than scope_is_narrower target_covers expiry_within
below_test_narrower = refl

is_narrower_than_trans_example : is_narrower_than one_host wide ≡ true
is_narrower_than_trans_example =
    is_narrower_than_trans one_host below_test wide one_host_narrower below_test_narrower

-- the first agent asks for the second
abbrev asked : GrantRequest
asked = record {
  actor_kind = agent;
  actor_principal_id = "agent-1";
  requested = one_host;
  beneficiary_principal_id = "agent-2";
  held_by_requester = given ∷ [];
}

asked_allowed : (authorize_grant_request asked).allowed ≡ true
unfolding authorize_grant_request is_narrower_than scope_is_narrower target_covers expiry_within
asked_allowed = refl

allowed_agent-Covering_example :
    (asked.beneficiary_principal_id ≢ asked.actor_principal_id)
    × Covering asked (authorize_grant_request asked).parent_grant_id
allowed_agent-Covering_example = allowed_agent-Covering asked refl asked_allowed

abbrev limits : Limits
limits = record {
  run_budget_max_input_tokens = some 1000;
  run_budget_max_output_tokens = none;
  run_budget_max_total_tokens = some 1200;
  run_budget_max_duration_ms = some 60000;
}

abbrev usage : RunUsage
usage = record {
  input_tokens = some 900;
  cached_input_tokens = none;
  output_tokens = some 400;
  cost_micro_usd = none;
}

budget_iff_example :
    (reject_run_if_budget_exceeded limits (some usage) 500 ≡ ok tt)
    ↔ IsWithin limits (some usage) 500
budget_iff_example = budget_iff limits (some usage) 500
