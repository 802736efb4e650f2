-- ===== src/Service/Cancel.antt =====
-- apps/server/src/agent-service.ts: `denyPendingApprovals` and `cancelExecution`.
use tik_tok_tech_jam.Base.{
  String, ◌==◌, Bool, true, false, not, ◌&&◌, some, List, [], ◌∷◌, ◌++◌, map, filter, if◌then◌else◌,
  add, includes,
}
use tik_tok_tech_jam.Types.{
  Instant, ApprovalRequest, ApprovalStatus, pending, denied, ApprovalActor, ApprovalResult,
  execution_cancelled, Database, RunEvent, step_approval_denied, error,
}
use tik_tok_tech_jam.Errors.{Result, ok, err}
use tik_tok_tech_jam.Store.{Persist}
use tik_tok_tech_jam.Service.{
  AppConfig, ServiceState, system_cancel_actor, redact, event, mutate_in, without_id,
}

abbrev pub is_pending : ApprovalStatus → Bool
is_pending pending = true
is_pending _ = false

-- the fields that a resolution sets
abbrev pub resolved :
    ApprovalStatus → ApprovalResult → ApprovalActor → Instant → ApprovalRequest → ApprovalRequest
resolved decision result who now a = record a {
  status = decision;
  resolved_at = some now;
  resolved_by_principal_id = some who.principal_id;
  resolved_by_display_name = some who.display_name;
  evidence = record a.evidence {
    decision = some decision;
    result = result;
    resolved_by = some who;
  };
}

-- the event of a denial by the system; its id is drawn for the approval
abbrev pub denial_event :
    AppConfig → (String → String) → String → Instant → ApprovalRequest → RunEvent
denial_event config event_id title now a =
    event (event_id a.id) a.run_id a.agent_id step_approval_denied error title
      (redact config (config.evidence_json a.evidence)) now

abbrev pub awaited_by : String → ApprovalRequest → Bool
awaited_by agent_id a = a.agent_id == agent_id && is_pending a.status

abbrev pub denied_by : ApprovalActor → Instant → ApprovalRequest → ApprovalRequest
denied_by who now a = resolved denied execution_cancelled who now a

-- the loop of the mutation: each pending approval of the agent is denied, with an event
abbrev pub deny_each :
    AppConfig
    → (String → String)
    → String
    → ApprovalActor
    → Instant
    → List ApprovalRequest
    → List ApprovalRequest × List RunEvent
deny_each config event_id agent_id who now [] = ([], [])
deny_each config event_id agent_id who now (a ∷ as_) =
    let (approvals, events) = deny_each config event_id agent_id who now as_ in
    if awaited_by agent_id a
    then (
      denied_by who now a ∷ approvals,
      denial_event config event_id "Pending action cancelled" now (denied_by who now a) ∷ events,
    )
    else (a ∷ approvals, events)

unfoldable pub deny_mutation :
    AppConfig
    → (String → String)
    → String
    → ApprovalActor
    → Instant
    → ServiceState
    → Database
    → Result (Unit {0} × Database)
deny_mutation config event_id agent_id who now s db =
    let (approvals, events) = deny_each config event_id agent_id who now db.approvals in
    ok (tt, record db { approvals = approvals; run_events = db.run_events ++ events })

-- the loop over the registered approvals: those of the agent are dropped and answered with a refusal
unfoldable pub release_pending : String → ServiceState → ServiceState
release_pending agent_id s = record s {
  pending_approvals = filter (λ a. not (a.agent_id == agent_id)) s.pending_approvals;
  answers =
      map (λ a. (a.id, false)) (filter (λ a. a.agent_id == agent_id) s.pending_approvals)
      ++ s.answers;
}

abbrev pub released : String → Result (Unit {0}) → ServiceState → Result (Unit {0}) × ServiceState
released agent_id (err e) s = (err e, s)
released agent_id (ok u) s = (ok u, release_pending agent_id s)

unfoldable pub deny_pending_approvals :
    AppConfig
    → Persist
    → (String → String)
    → String
    → ApprovalActor
    → Instant
    → ServiceState
    → Result (Unit {0}) × ServiceState
deny_pending_approvals config persist event_id agent_id who now s =
    let (r, after) = mutate_in persist (deny_mutation config event_id agent_id who now) s in
    released agent_id r after

-- What `cancelExecution` meets outside: the disk, what `runner.cancel` gives, how the execution ends that it
-- waits for, and what the rest of the server does while it waits for the runner, and for the execution.
pub record Cancellation : Type 0 where
  pub persist : Persist
  pub runner_cancel : Result Bool
  pub execution : Result (Unit {0})
  pub cancelling : ServiceState → ServiceState
  pub executing : ServiceState → ServiceState
  pub event_id : String → String

abbrev pub is_executing : String → ServiceState → Bool
is_executing agent_id s = includes s.active_executions agent_id

-- an awaited execution throws first, then the runner's own failure is thrown
abbrev pub cancel_outcome : Bool → Result (Unit {0}) → Result Bool → Result (Unit {0})
cancel_outcome true (err e) cancel = err e
cancel_outcome _ _ (err e) = err e
cancel_outcome _ _ (ok b) = ok tt

-- what follows the denial
abbrev pub awaited :
    Cancellation → String → Result (Unit {0}) → ServiceState → Result (Unit {0}) × ServiceState
awaited c agent_id (err e) s = (err e, s)
awaited c agent_id (ok u) s =
    let t = c.cancelling s in
    (
      cancel_outcome (is_executing agent_id t) c.execution c.runner_cancel,
      if is_executing agent_id t then c.executing t else t,
    )

-- the `finally`
abbrev pub request_over : String → ServiceState → ServiceState
request_over agent_id s = record s {
  cancellation_requests = without_id agent_id s.cancellation_requests;
}

unfoldable pub cancel_execution :
    AppConfig → Cancellation → String → Instant → ServiceState → Result (Unit {0}) × ServiceState
cancel_execution config c agent_id now s =
    let (d, s1) =
      deny_pending_approvals config c.persist c.event_id agent_id system_cancel_actor now
        (record s { cancellation_requests = add agent_id s.cancellation_requests }) in
    let (r, s2) = awaited c agent_id d s1 in (r, request_over agent_id s2)
