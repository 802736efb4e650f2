-- ===== src/Service/Approvals.antt =====
-- apps/server/src/agent-service.ts: `resolveApproval`. The promise that a request waits on is its entry in
-- `answers`. Timers and abort listeners, which it takes off, only call it again.
use tik_tok_tech_jam.Base.{
  String, ◌==◌, Bool, true, false, not, ◌&&◌, Option, none, some, List, [], ◌∷◌, filter, find, any,
  if◌then◌else◌, includes, template,
}
use tik_tok_tech_jam.Types.{
  Instant, Agent, AgentStatus, ready, busy, waiting_approval, AgentRun, RunStatus, queued, running,
  ApprovalRequest, ApprovalStatus, pending, approved, denied, ApprovalActor, ApprovalResult,
  execution_authorized, execution_cancelled, execution_failed, execution_blocked, Database,
  RunEvent, step_approval_granted, step_approval_denied, success, error,
}
use tik_tok_tech_jam.Errors.{http, thrown, Result, ok, err, ◌>>=◌, ◌>>◌, reject_if}
use tik_tok_tech_jam.Store.{Persist}
use tik_tok_tech_jam.Service.{
  AppConfig, ServiceState, system_cancel_actor, system_pause_failure_actor, redact, event, found,
  append_run_event, update_first, mutate_in,
}
use tik_tok_tech_jam.Service.Cancel.{is_pending, resolved}
use tik_tok_tech_jam.Service.Agents.{put_agent}

abbrev pub status_text : ApprovalStatus → String
status_text pending = "pending"
status_text approved = "approved"
status_text denied = "denied"

abbrev pub is_active_run : RunStatus → Bool
is_active_run queued = true
is_active_run running = true
is_active_run _ = false

abbrev pub is_running : RunStatus → Bool
is_running running = true
is_running _ = false

abbrev pub of_approval : String → ApprovalRequest → Bool
of_approval id a = a.id == id

abbrev pub approval_in : String → List ApprovalRequest → Option ApprovalRequest
approval_in id approvals = find (of_approval id) approvals

-- `"approved"` is `true`
abbrev pub decided : Bool → ApprovalStatus
decided true = approved
decided false = denied

abbrev pub result_of : Bool → ApprovalActor → ApprovalResult
result_of true who = execution_authorized
result_of false who =
    if who.principal_id == system_cancel_actor.principal_id
    then execution_cancelled
    else (if who.principal_id == system_pause_failure_actor.principal_id
        then execution_failed
        else execution_blocked)

abbrev pub registered_for : Option ApprovalRequest → ApprovalRequest → Bool
registered_for none a = false
registered_for (some p) a = p.run_id == a.run_id && p.agent_id == a.agent_id

abbrev pub run_active : Option AgentRun → ApprovalRequest → Bool
run_active none a = false
run_active (some run) a = run.agent_id == a.agent_id && is_active_run run.status

abbrev pub run_in : String → List AgentRun → Option AgentRun
run_in run_id runs = find (λ r. r.id == run_id) runs

-- the guard on the registration, the run and the cancellation
abbrev pub attached :
    Option ApprovalRequest → Bool → ServiceState → Database → ApprovalRequest → Bool
attached registered approve s db a =
    registered_for registered a
    && run_active (run_in a.run_id db.runs) a
    && not (approve && includes s.cancellation_requests a.agent_id)

abbrev pub run_status_of : Option AgentRun → Bool
run_status_of none = false
run_status_of (some run) = is_running run.status

-- the agent's status once the approval is resolved
abbrev pub after_waiting : Bool → Bool → AgentStatus → AgentStatus
after_waiting others_pending runs waiting_approval =
    if others_pending then waiting_approval else (if runs then busy else ready)
after_waiting others_pending runs status = status

abbrev pub no_longer_waiting : Bool → Bool → Instant → Agent → Agent
no_longer_waiting others_pending runs now a = elim a.status [
  | waiting_approval ↦ record a {
    status = after_waiting others_pending runs waiting_approval;
    updated_at = now;
  }
  | _ ↦ a
]

abbrev pub others_wait : ApprovalRequest → List ApprovalRequest → Bool
others_wait a approvals =
    any (λ x. not (x.id == a.id) && x.agent_id == a.agent_id && is_pending x.status) approvals

abbrev pub resolution : Bool → ApprovalActor → Instant → ApprovalRequest → ApprovalRequest
resolution approve who now a = resolved (decided approve) (result_of approve who) who now a

abbrev pub resolution_event : AppConfig → String → Bool → Instant → ApprovalRequest → RunEvent
resolution_event config event_id approve now a =
    event event_id a.run_id a.agent_id
      (if approve then step_approval_granted else step_approval_denied)
      (if approve then success else error)
      (if approve then "Operator approved action" else "Operator denied action")
      (redact config (config.evidence_json a.evidence)) now

-- the changes that the mutation makes once its guards hold
unfoldable pub settled :
    AppConfig → String → Bool → ApprovalActor → Instant → ApprovalRequest → Database → Database
settled config event_id approve who now a db =
    append_run_event (resolution_event config event_id approve now (resolution approve who now a)) (
      put_agent a.agent_id
        (no_longer_waiting (others_wait a db.approvals) (run_status_of (run_in a.run_id db.runs))
          now)
        (record db {
          approvals = update_first (of_approval a.id) (resolution approve who now) db.approvals;
        }))

-- `registered` is the registration that was read before the mutation was queued.
unfoldable pub resolve_mutation :
    AppConfig
    → Option ApprovalRequest
    → String
    → String
    → Bool
    → ApprovalActor
    → Instant
    → ServiceState
    → Database
    → Result (ApprovalRequest × Database)
resolve_mutation config registered event_id id approve who now s db =
    found "Approval request not found" (approval_in id db.approvals) >>= λ a.
    reject_if (not (is_pending a.status))
      (http 409 (template ("Approval request is already " ∷ status_text a.status ∷ [])))
    >> (reject_if (not (attached registered approve s db a))
          (http 409 "Approval request is no longer attached to an active Run")
        >> ok (resolution approve who now a, settled config event_id approve who now a db))

abbrev pub deregister : String → ServiceState → ServiceState
deregister id s = record s {
  pending_approvals = filter (λ a. not (a.id == id)) s.pending_approvals;
}

-- A promise is resolved once: the first answer counts.
abbrev pub is_answered : String → List (String × Bool) → Bool
is_answered id answers = any (λ x. x.0 == id) answers

abbrev pub answer : String → Bool → ServiceState → ServiceState
answer id approve s =
    if is_answered id s.answers then s else record s { answers = (id, approve) ∷ s.answers }

-- what follows the mutation
unfoldable pub answered :
    Option ApprovalRequest
    → String
    → Bool
    → Result ApprovalRequest
    → ServiceState
    → Result ApprovalRequest × ServiceState
answered registered id approve (err e) s = (err e, s)
answered none id approve (ok a) s =
    (err (thrown "Active approval registration disappeared during resolution"), s)
answered (some p) id approve (ok a) s = (ok a, answer id approve (deregister id s))

unfoldable pub resolve_approval :
    AppConfig
    → Persist
    → (ServiceState → ServiceState)
    → String
    → String
    → Bool
    → ApprovalActor
    → Instant
    → ServiceState
    → Result ApprovalRequest × ServiceState
resolve_approval config persist others event_id id approve who now s =
    let registered = approval_in id s.pending_approvals in
    let (r, after) =
      mutate_in persist (resolve_mutation config registered event_id id approve who now)
        (others s) in
    answered registered id approve r after

-- `clearPending` of a held request: an approval that is still registered is answered with a refusal
unfoldable pub clear_pending : String → ServiceState → ServiceState
clear_pending id s = elim (approval_in id s.pending_approvals) [
  | none ↦ s
  | some p ↦ answer id false (deregister id s)
]

-- A timer or an abort of a held request: a denial, and `clearPending` if that throws.
abbrev pub caught : String → Result ApprovalRequest × ServiceState → ServiceState
caught id (err e, s) = clear_pending id s
caught id (ok a, s) = s

unfoldable pub deny_held :
    AppConfig
    → Persist
    → (ServiceState → ServiceState)
    → String
    → String
    → ApprovalActor
    → Instant
    → ServiceState
    → ServiceState
deny_held config persist others event_id id who now s =
    caught id (resolve_approval config persist others event_id id false who now s)
