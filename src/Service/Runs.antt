-- ===== src/Service/Runs.antt =====
-- apps/server/src/agent-service.ts: `executeRun` without its steps: the start of a run and its two ends.
use tik_tok_tech_jam.Base.{
  String, ◌==◌, Bool, true, false, ◌||◌, Option, none, some, [], ◌∷◌, ◌++◌, map, find,
  if◌then◌else◌, template, take_text, opt_eq,
}
use tik_tok_tech_jam.Types.{
  Instant, Agent, AgentStatus, stopped, ready, error, AgentRun, running, completed, cancelled,
  failed, RunUsage, AgentSession, Message, assistant, ApprovalRequest, approved,
  execution_cancelled, execution_failed, Database, RunEventType, RunEventSeverity, run_started,
  run_completed, run_cancelled, run_blocked, run_failed, info, success, warning,
}
use tik_tok_tech_jam.Errors.{
  RunPolicyKind, approval, Failure, http, policy_violation, authority_denied, thrown, Result, ok,
  err,
}
use tik_tok_tech_jam.Errors as Errors
use tik_tok_tech_jam.Service.{
  AppConfig, ServiceState, preview_length, redact, event, append_run_event, update_first,
}
use tik_tok_tech_jam.Service.Agents.{of_id, put_agent}
use tik_tok_tech_jam.Service.Approvals.{run_in}

pub record RunnerResult : Type 0 where
  pub output : String
  pub thread_id : Option String
  pub usage : Option RunUsage

abbrev pub of_run : String → AgentRun → Bool
of_run id r = r.id == id

abbrev pub put_run : String → (AgentRun → AgentRun) → Database → Database
put_run id f db = record db { runs = update_first (of_run id) f db.runs }

abbrev pub started : Instant → AgentRun → AgentRun
started now r = record r { status = running; started_at = some now }

unfoldable pub start_mutation :
    String → AgentRun → Instant → ServiceState → Database → Result (Unit {0} × Database)
start_mutation event_id run now s db = ok (
  tt,
  append_run_event
      (event event_id run.id run.agent_id run_started info "Run started"
        "Codex execution began inside the Agent workspace." now)
      (put_run run.id (started now) db),
)

abbrev pub run_finished : AppConfig → RunnerResult → Option RunUsage → Instant → AgentRun → AgentRun
run_finished config result usage now r = record r {
  status = completed;
  output = some (redact config result.output);
  usage = usage;
  completed_at = some now;
}

abbrev pub agent_finished : RunnerResult → Instant → Agent → Agent
agent_finished result now a = record a {
  status = ready;
  codex_thread_id = result.thread_id;
  last_error = none;
  updated_at = now;
}

abbrev pub session_finished : RunnerResult → Instant → AgentSession → AgentSession
session_finished result now x = record x { codex_thread_id = result.thread_id; updated_at = now }

abbrev pub reply : AppConfig → String → RunnerResult → AgentRun → Agent → Instant → Message
reply config message_id result run a now = record {
  id = message_id;
  agent_id = a.id;
  session_id = run.session_id;
  run_id = run.id;
  role = assistant;
  content = redact config result.output;
  created_at = now;
}

-- the changes of a run that is stored, of an agent that is stored
abbrev pub completed_with :
    AppConfig
    → String
    → String
    → AgentRun
    → RunnerResult
    → Option RunUsage
    → Instant
    → Option AgentRun
    → Option Agent
    → Database
    → Database
completed_with config message_id event_id run result usage now (some stored) (some a) db =
    put_agent a.id (agent_finished result now) (
      append_run_event
        (event event_id run.id a.id run_completed success "Run completed"
          (redact config
            (template ("Output preview: " ∷ take_text preview_length result.output ∷ [])))
          now)
        (record (put_run run.id (run_finished config result usage now) db) {
          messages = db.messages ++ reply config message_id result run a now ∷ [];
          sessions =
              update_first (λ x. opt_eq (some x.id) run.session_id) (session_finished result now)
                db.sessions;
        }))
completed_with config message_id event_id run result usage now _ _ db = db

unfoldable pub complete_mutation :
    AppConfig
    → String
    → String
    → String
    → AgentRun
    → RunnerResult
    → Option RunUsage
    → Instant
    → ServiceState
    → Database
    → Result (Unit {0} × Database)
complete_mutation config message_id event_id agent_id run result usage now s db = ok (
  tt,
  completed_with config message_id event_id run result usage now (run_in run.id db.runs)
      (find (of_id agent_id) db.agents) db,
)

-- `error.message`
abbrev pub message_of : Failure → String
message_of (http code m) = m
message_of (policy_violation kind code m) = m
message_of Errors.run_cancelled = "Run cancelled"
message_of (authority_denied d) = d.reason
message_of (thrown m) = m

abbrev pub is_cancelled : Failure → Bool
is_cancelled Errors.run_cancelled = true
is_cancelled _ = false

abbrev pub is_violation : Failure → Bool
is_violation (policy_violation kind code m) = true
is_violation _ = false

abbrev pub is_denial : Failure → Bool
is_denial (policy_violation approval code m) = true
is_denial _ = false

abbrev pub run_ended : AppConfig → Failure → Instant → AgentRun → AgentRun
run_ended config e now r = record r {
  status = if is_cancelled e then cancelled else failed;
  error = some (redact config (message_of e));
  completed_at = some now;
}

abbrev pub end_status : Failure → AgentStatus → AgentStatus
end_status e stopped = stopped
end_status e _ =
    if is_cancelled e || is_denial e then ready else (if is_violation e then stopped else error)

abbrev pub agent_ended : AppConfig → Failure → Instant → Agent → Agent
agent_ended config e now a = record a {
  status = end_status e a.status;
  last_error = if is_cancelled e then none else some (redact config (message_of e));
  updated_at = now;
}

-- an approval of the run that was granted
abbrev pub approval_ended : String → Failure → ApprovalRequest → ApprovalRequest
approval_ended run_id e a = elim a.status [
  | approved ↦
      if a.run_id == run_id
      then record a {
        evidence = record a.evidence {
          result = if is_cancelled e then execution_cancelled else execution_failed;
        };
      }
      else a
  | _ ↦ a
]

abbrev end_type : Failure → RunEventType
end_type e =
    if is_cancelled e then run_cancelled else (if is_violation e then run_blocked else run_failed)

abbrev end_title : Failure → String
end_title e =
    if is_cancelled e
    then "Run cancelled"
    else (if is_denial e
        then "Run blocked by human operator denial"
        else (if is_violation e then "Run blocked by guardrail" else "Run failed"))

abbrev end_severity : Failure → RunEventSeverity
end_severity e = if is_cancelled e || is_violation e then warning else RunEventSeverity.error

-- what the failure leaves
unfoldable pub failed_with :
    AppConfig → String → String → AgentRun → Failure → Instant → Database → Database
failed_with config event_id agent_id run e now db =
    append_run_event
      (event event_id run.id run.agent_id (end_type e) (end_severity e) (end_title e)
        (redact config (message_of e)) now)
      (put_agent agent_id (agent_ended config e now)
        (record (put_run run.id (run_ended config e now) db) {
          approvals = map (approval_ended run.id e) db.approvals;
        }))

unfoldable pub failure_mutation :
    AppConfig
    → String
    → String
    → AgentRun
    → Failure
    → Instant
    → ServiceState
    → Database
    → Result (Unit {0} × Database)
failure_mutation config event_id agent_id run e now s db =
    ok (tt, failed_with config event_id agent_id run e now db)
