-- ===== src/Service/History.antt =====
-- apps/server/src/agent-service.ts: what the handlers of the service do between two awaits, as one step each, and
-- any sequence of such steps. A handler that fails leaves its later steps out, so every run of handlers side by
-- side is such a sequence; a sequence may also do more.
use tik_tok_tech_jam.Base.{false, String, Bool, Option, List, [], ◌∷◌, includes, add}
use tik_tok_tech_jam.Types.{
  Instant, Agent, AgentStatus, AgentSession, Principal, AgentRun, RunUsage, RunEvent,
  ApprovalRequest, ApprovalActor,
}
use tik_tok_tech_jam.Errors.{Failure, Result, ok, err}
use tik_tok_tech_jam.Store.{Persist}
use tik_tok_tech_jam.Terminator.{World, Outside, begin_termination, end_termination, freeze_agent}
use tik_tok_tech_jam.Service.{
  AppConfig, ServiceState, append_run_event, mutate_in, prompt_violation,
}
use tik_tok_tech_jam.Service.Cancel.{deny_pending_approvals, request_over}
use tik_tok_tech_jam.Service.Agents.{UpdateAgentInput, create_mutation, update_mutation}
use tik_tok_tech_jam.Service.Lifecycle.{
  enter_lifecycle, leave_lifecycle, delete_mutation, status_mutation, finish_start,
  quarantine_mutation,
}
use tik_tok_tech_jam.Service.Sessions.{create_session_mutation, select_session_mutation}
use tik_tok_tech_jam.Service.Approvals.{resolve_mutation, answered, clear_pending}
use tik_tok_tech_jam.Service.Requests.{hold_mutation, register}
use tik_tok_tech_jam.Service.Messages.{Draw, admit_mutation, launched}
use tik_tok_tech_jam.Service.Runs.{
  RunnerResult, start_mutation, complete_mutation, failure_mutation,
}
use tik_tok_tech_jam.Service.Steps.{StepOutside}
use tik_tok_tech_jam.Service.Gate.{publish_mutation}
use tik_tok_tech_jam.Service.Resume.{resumed_mutation}
use tik_tok_tech_jam.Service.Execution.{execution_over}

-- the part of the state that a termination sees; the runner's own word is not part of the service's state
abbrev pub world_of : ServiceState → World
world_of s = record {
  db = s.db;
  executing = λ id. includes s.active_executions id;
  running = λ id. false;
  termination_barriers = s.termination_barriers;
  terminations_in_progress = s.terminations_in_progress;
}

abbrev pub with_world : ServiceState → World → ServiceState
with_world s w = record s {
  db = w.db;
  termination_barriers = w.termination_barriers;
  terminations_in_progress = w.terminations_in_progress;
}

-- a step that fails changes nothing
abbrev pub begun : ServiceState → Result World → ServiceState
begun s (err e) = s
begun s (ok w) = with_world s w

pub data Step : Type 0 where
  create : Agent → AgentSession → Principal → Step
  update : String → UpdateAgentInput → Instant → Step
  create_session : AgentSession → Step
  select_session : AgentSession → Instant → Step
  enter leave request_cancel cancel_over finish_execution clear begin end : String → Step
  deny : (String → String) → String → ApprovalActor → Instant → Step
  delete : String → Step
  set_status : String → AgentStatus → Instant → Step
  finish_starting : String → Result Agent → Step
  quarantine : String → String → Instant → Step
  registering : ApprovalRequest → Step
  hold : String → ApprovalRequest → Bool → Step
  publish : StepOutside → Agent → ApprovalRequest → Step
  resolve : Option ApprovalRequest → String → String → Bool → ApprovalActor → Instant → Step
  resumed : String → Step
  admit : Draw → String → String → Option ApprovalActor → Step
  start_run : String → AgentRun → Instant → Step
  complete : String → String → String → AgentRun → RunnerResult → Option RunUsage → Instant → Step
  fail : String → String → AgentRun → Failure → Instant → Step
  note : RunEvent → Step
  freeze : Outside → String → Step

-- Each step meets its own disk.
unfoldable pub perform : AppConfig → Persist → Step → ServiceState → ServiceState
perform config persist (create a session principal) s =
    (mutate_in persist (create_mutation a session principal) s).1
perform config persist (update id input now) s =
    (mutate_in persist (update_mutation id input now) s).1
perform config persist (create_session session) s =
    (mutate_in persist (create_session_mutation session) s).1
perform config persist (select_session session now) s =
    (mutate_in persist (select_session_mutation session now) s).1
perform config persist (enter id) s = enter_lifecycle id s
perform config persist (leave id) s = leave_lifecycle id s
perform config persist (request_cancel id) s = record s {
  cancellation_requests = add id s.cancellation_requests;
}
perform config persist (cancel_over id) s = request_over id s
perform config persist (finish_execution id) s = execution_over id s
perform config persist (clear id) s = clear_pending id s
perform config persist (begin id) s = begun s (begin_termination id (world_of s))
perform config persist (end id) s = with_world s (end_termination id (world_of s))
perform config persist (deny event_id id who now) s =
    (deny_pending_approvals config persist event_id id who now s).1
perform config persist (delete id) s = (mutate_in persist (delete_mutation id) s).1
perform config persist (set_status id status now) s =
    (mutate_in persist (status_mutation id status now) s).1
perform config persist (finish_starting id r) s = (finish_start id r s).1
perform config persist (quarantine id reason now) s =
    (mutate_in persist (quarantine_mutation id reason now) s).1
perform config persist (registering a) s = register a s
perform config persist (hold event_id a aborted) s =
    (mutate_in persist (hold_mutation event_id a aborted) s).1
perform config persist (publish out a request) s =
    (mutate_in persist (publish_mutation config out a request) s).1
perform config persist (resolve registered event_id id approve who now) s =
    let (r, t) =
      mutate_in persist (resolve_mutation config registered event_id id approve who now) s in
    (answered registered id approve r t).1
perform config persist (resumed id) s = (mutate_in persist (resumed_mutation id) s).1
perform config persist (admit draw id prompt human) s =
    (launched (prompt_violation config prompt) id
      (mutate_in persist (admit_mutation config draw id prompt human) s)).1
perform config persist (start_run event_id run now) s =
    (mutate_in persist (start_mutation event_id run now) s).1
perform config persist (complete message_id event_id id run result usage now) s =
    (mutate_in persist (complete_mutation config message_id event_id id run result usage now) s).1
perform config persist (fail event_id id run e now) s =
    (mutate_in persist (failure_mutation config event_id id run e now) s).1
perform config persist (note e) s = (mutate_in persist (λ x db. ok (e, append_run_event e db)) s).1
perform config persist (freeze out id) s = with_world s (freeze_agent out id (world_of s)).1

unfoldable pub history : AppConfig → List (Persist × Step) → ServiceState → ServiceState
history config [] s = s
history config ((persist, x) ∷ xs) s = history config xs (perform config persist x s)
