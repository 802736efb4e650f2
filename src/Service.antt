-- ===== src/Service.antt =====
-- apps/server/src/agent-service.ts: the state of the service, its texts and its way to the database.
-- A handler runs in one piece between two awaits. What the rest of the server does while a handler waits is an
-- argument `others` of it, any change of the state. Ids and instants that the code draws are arguments.
pub mod Lookups
pub mod Cancel
pub mod Agents
pub mod Lifecycle
pub mod Sessions
pub mod Queries
pub mod Approvals
pub mod Requests
pub mod Messages
pub mod Runs
pub mod Steps
pub mod Gate
pub mod Resume
pub mod Recollection
pub mod Execution
pub mod Startup
pub mod Records
pub mod AtRest
pub mod Ended
pub mod Withheld
pub mod Answered
pub mod Deleted
pub mod Secrets
pub mod Refines
pub mod History
pub mod Admission
pub mod Barrier
pub mod Admits
pub mod Decisions
pub mod Final
use tik_tok_tech_jam.Base.{
  ℕ, ◌==◌, String, Bool, true, false, not, ◌&&◌, ◌||◌, Option, none, some, List, [], ◌∷◌, ◌++◌,
  filter, find, ltb, includes, add, starts_with, contains, split, join, text_length, if◌then◌else◌,
  is_none, is_some,
}
use tik_tok_tech_jam.Types.{
  Instant, AgentStatus, busy, waiting_approval, Agent, RunEvent, RunEventType, RunEventSeverity,
  ApprovalRequest, ApprovalActor, ApprovalEvidence, Database,
}
use tik_tok_tech_jam.Errors.{Failure, http, Result, ok, err}
use tik_tok_tech_jam.Store.{Persist, mutate}

-- What of the configuration the service reads, and node's `JSON.stringify` of an approval's evidence.
pub record AppConfig : Type 0 where
  pub guardrail_canary_token : String
  pub model_provider : String
  pub model_api_key : String
  pub model_runtime_api_key : String
  pub model_name : String
  pub evidence_json : ApprovalEvidence → String

-- The maps and sets of the service. A registered approval is kept under its own id, `answers` holds what the
-- registered promises were resolved with, the newest first.
pub record ServiceState : Type 0 where
  pub db : Database
  pub active_executions : List String
  pub cancellation_requests : List String
  pub termination_barriers : List String
  pub terminations_in_progress : List String
  pub lifecycle_mutations : List String
  pub pending_approvals : List ApprovalRequest
  pub answers : List (String × Bool)

abbrev pub preview_length : ℕ
preview_length = 180

abbrev pub actor : String → String → ApprovalActor
actor id name = record { principal_id = id; display_name = name }

abbrev pub system_restart_actor : ApprovalActor
system_restart_actor = actor "system:server-restart" "System (Server restarted)"

abbrev pub system_timeout_actor : ApprovalActor
system_timeout_actor = actor "system:approval-timeout" "System (Approval timed out)"

abbrev pub system_cancel_actor : ApprovalActor
system_cancel_actor = actor "system:run-cancelled" "System (Run cancelled)"

abbrev pub system_pause_failure_actor : ApprovalActor
system_pause_failure_actor = actor "system:pause-failed" "System (Runner failed to pause)"

abbrev pub system_request_disconnected_actor : ApprovalActor
system_request_disconnected_actor =
    actor "system:requester-disconnected" "System (Requester disconnected)"

abbrev pub has_active_lifecycle : AgentStatus → Bool
has_active_lifecycle busy = true
has_active_lifecycle waiting_approval = true
has_active_lifecycle _ = false

abbrev pub is_model_configured : AppConfig → Bool
is_model_configured config =
    ltb 0 (text_length config.model_api_key)
    && not (starts_with config.model_api_key "replace-")
    && ltb 0 (text_length config.model_name)
    && not (contains config.model_name "replace-")

-- one turn of the loop over the secrets
abbrev pub without : String → String → String
without output secret = if secret == "" then output else join "[redacted]" (split secret output)

unfoldable pub redact : AppConfig → String → String
redact config value =
    if value == ""
    then value
    else without (without (without value config.guardrail_canary_token) config.model_api_key)
        config.model_runtime_api_key

unfoldable pub prompt_violation : AppConfig → String → Option String
prompt_violation config prompt =
    if config.guardrail_canary_token == ""
    then none
    else (if not (contains prompt config.guardrail_canary_token)
        then none
        else some "Prompt contains the configured canary token and was blocked before execution.")

-- `delete` of a set
abbrev pub without_id : String → List String → List String
without_id id s = filter (λ x. not (x == id)) s

-- an event that the code makes, with its id
abbrev pub event :
    String
    → String
    → String
    → RunEventType
    → RunEventSeverity
    → String
    → String
    → Instant
    → RunEvent
event id run_id agent_id event_type severity title detail now = record {
  id = id;
  run_id = run_id;
  agent_id = agent_id;
  event_type = event_type;
  severity = severity;
  title = title;
  detail = detail;
  created_at = now;
}

unfoldable pub append_run_event : RunEvent → Database → Database
append_run_event e db = record db { run_events = db.run_events ++ e ∷ [] }

-- the change in place of the first element that passes a test
unfoldable pub update_first : {A : Type 0} → (A → Bool) → (A → A) → List A → List A
update_first p f [] = []
update_first p f (x ∷ xs) = let rest = update_first p f xs in if p x then f x ∷ xs else x ∷ rest

-- `store.mutate` with a callback that reads the service's sets, as one step: what others do to those sets while it
-- is written to disk is taken to come before it, or after the handler. `Store.Queue` has it step by step.
unfoldable pub mutate_in :
    {A : Type 0}
    → Persist
    → (ServiceState → Database → Result (A × Database))
    → ServiceState
    → Result A × ServiceState
mutate_in persist mutation s =
    let (r, db) = mutate persist (mutation s) s.db in (r, record s { db = db })

-- what a lookup that throws gives
abbrev pub found : {A : Type 0} → String → Option A → Result A
found what none = err (http 404 what)
found what (some a) = ok a

abbrev pub get_agent : String → Database → Result Agent
get_agent id db = found "Agent not found" (find (λ a. a.id == id) db.agents)
