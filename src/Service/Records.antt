-- ===== src/Service/Records.antt =====
-- apps/server/src/agent-service.ts: `recordPolicyDecision`, `recordGrantEvent`, `recordEgressBlocked` and
-- `hasLiveExecution`. The JSON texts are arguments.
use tik_tok_tech_jam.Base.{
  String, Bool, false, ◌||◌, Option, none, some, [], ◌∷◌, includes, template, if◌then◌else◌,
}
use tik_tok_tech_jam.Types.{
  Instant, Grant, scope_text, PolicyDecision, RunEvent, info, warning, error, policy_decision,
  grant_created, grant_revoked, egress_blocked,
}
use tik_tok_tech_jam.Errors.{Result, ok}
use tik_tok_tech_jam.Store.{Persist}
use tik_tok_tech_jam.Service.{ServiceState, event, append_run_event, mutate_in}

abbrev recorded : Persist → RunEvent → ServiceState → Result (Unit {0}) × ServiceState
recorded persist e s = mutate_in persist (λ x db. ok (tt, append_run_event e db)) s

unfoldable pub record_policy_decision :
    (PolicyDecision → String)
    → Persist
    → String
    → String
    → String
    → PolicyDecision
    → Instant
    → ServiceState
    → Result (Unit {0}) × ServiceState
record_policy_decision json persist event_id run_id agent_id decision now s =
    recorded persist
      (event event_id run_id agent_id policy_decision (if decision.allowed then info else warning)
        decision.rule_id (json decision) now)
      s

-- `"grant.revoked"` is `true`
unfoldable pub record_grant_event :
    (Grant → String)
    → Persist
    → String
    → String
    → String
    → Bool
    → Grant
    → Instant
    → ServiceState
    → Result (Unit {0}) × ServiceState
record_grant_event json persist event_id run_id agent_id revoked grant now s =
    recorded persist
      (event event_id run_id agent_id (if revoked then grant_revoked else grant_created)
        (if revoked then warning else info)
        (template (
          (if revoked then "Revoked " else "Granted ")
          ∷ scope_text grant.scope
          ∷ " on "
          ∷ grant.target
          ∷ []))
        (json grant) now)
      s

-- `json` is the text of the host, the strikes and the decision together.
unfoldable pub record_egress_blocked :
    Persist
    → String
    → String
    → String
    → String
    → String
    → Instant
    → ServiceState
    → Result (Unit {0}) × ServiceState
record_egress_blocked persist event_id run_id agent_id host json now s =
    recorded persist
      (event event_id run_id agent_id egress_blocked error
        (template ("Blocked outbound connection to " ∷ host ∷ [])) json now)
      s

abbrev answers_running : Option Bool → Bool
answers_running none = false
answers_running (some b) = b

-- `running` is what the runner's `isRunning` answers, if it has one.
unfoldable pub has_live_execution : Option Bool → String → ServiceState → Bool
has_live_execution running agent_id s =
    includes s.active_executions agent_id || answers_running running
