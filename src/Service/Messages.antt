-- ===== src/Service/Messages.antt =====
-- apps/server/src/agent-service.ts: `sendMessage`: the admission of a prompt as a queued run.
use tik_tok_tech_jam.Base.{
  String, ◌==◌, Bool, true, false, not, ◌||◌, Option, none, some, [], ◌∷◌, ◌++◌, find,
  if◌then◌else◌, includes, add, template, take_text,
}
use tik_tok_tech_jam.Types.{
  Instant, Agent, AgentStatus, stopped, ready, busy, AgentRun, queued, failed, Message, user,
  ApprovalActor, Principal, Database, run_created, run_blocked, info, warning,
}
use tik_tok_tech_jam.Errors.{
  Failure, http, policy_violation, canary, Result, ok, err, ◌>>=◌, ◌>>◌, reject_if,
}
use tik_tok_tech_jam.Store.{Persist}
use tik_tok_tech_jam.Service.{
  AppConfig, ServiceState, actor, has_active_lifecycle, is_model_configured, redact,
  prompt_violation, event, append_run_event, mutate_in, get_agent, preview_length,
}
use tik_tok_tech_jam.Service.Agents.{put_agent}

abbrev pub is_stopped : AgentStatus → Bool
is_stopped stopped = true
is_stopped _ = false

-- what the code draws: the ids of the run, the message and the event, and the instant
pub record Draw : Type 0 where
  pub run_id : String
  pub message_id : String
  pub event_id : String
  pub now : Instant

abbrev owner_name : Option Principal → String → String
owner_name none id = id
owner_name (some p) id = p.name

-- the human who is named, else the owner of the agent
abbrev pub initiator : Option ApprovalActor → Agent → Database → ApprovalActor
initiator (some who) a db = who
initiator none a db =
    actor a.owner_id (owner_name (find (λ p. p.id == a.owner_id) db.principals) a.owner_id)

abbrev pub new_run :
    AppConfig → Draw → String → String → Option ApprovalActor → Agent → Database → AgentRun
new_run config draw agent_id prompt human a db = record {
  id = draw.run_id;
  agent_id = agent_id;
  session_id = a.active_session_id;
  initiated_by_principal_id = (initiator human a db).principal_id;
  initiated_by_display_name = (initiator human a db).display_name;
  status = queued;
  prompt = redact config prompt;
  output = none;
  error = none;
  usage = none;
  started_at = none;
  completed_at = none;
  created_at = draw.now;
}

abbrev pub new_message : AppConfig → Draw → String → String → Agent → Message
new_message config draw agent_id prompt a = record {
  id = draw.message_id;
  agent_id = agent_id;
  session_id = a.active_session_id;
  run_id = draw.run_id;
  role = user;
  content = redact config prompt;
  created_at = draw.now;
}

abbrev pub blocked_run : String → AgentRun → AgentRun
blocked_run violation run = record run {
  status = failed;
  error = some violation;
  completed_at = some run.created_at;
}

-- the guards of the admission, in their order; the code has the last one twice
unfoldable pub admissible : String → ServiceState → Database → Result Agent
admissible agent_id s db = get_agent agent_id db >>= λ a.
    reject_if (is_stopped a.status || a.authority_blocked)
      (http 409 "Start the Agent before sending a message")
    >> (reject_if (includes s.lifecycle_mutations agent_id)
          (http 409 "An Agent lifecycle change is in progress")
        >> (reject_if (has_active_lifecycle a.status)
              (http 409 "This Agent already has an active run")
            >> (reject_if (includes s.termination_barriers agent_id)
                  (http 409 "This Agent is being terminated")
                >> ok a)))

abbrev pub set_agent_status : AgentStatus → Option String → Instant → Agent → Agent
set_agent_status status last_error now a = record a {
  status = status;
  last_error = last_error;
  updated_at = now;
}

-- the two ways the mutation ends: with the violation of a blocked prompt, or without one
abbrev pub admitted :
    AppConfig
    → Draw
    → String
    → String
    → Option String
    → Agent
    → AgentRun
    → Message
    → Database
    → Database
admitted config draw agent_id prompt (some violation) a run message db =
    put_agent agent_id (set_agent_status ready (some violation) draw.now) (
      append_run_event
        (event draw.event_id draw.run_id agent_id run_blocked warning
          "Prompt blocked by canary guardrail"
          (redact config (
            template (
              "The prompt matched the configured canary token and was stopped before execution. Preview: "
              ∷ take_text preview_length prompt
              ∷ [])))
          draw.now)
        (record db { runs = db.runs ++ blocked_run violation run ∷ [] }))
admitted config draw agent_id prompt none a run message db =
    put_agent agent_id (set_agent_status busy none draw.now) (
      append_run_event
        (event draw.event_id draw.run_id agent_id run_created info "Run queued"
          (redact config
            (template ("Queued prompt preview: " ∷ take_text preview_length prompt ∷ [])))
          draw.now)
        (record db { runs = db.runs ++ run ∷ []; messages = db.messages ++ message ∷ [] }))

-- The agent as it was, the run and the message, and the database.
unfoldable pub admit_mutation :
    AppConfig
    → Draw
    → String
    → String
    → Option ApprovalActor
    → ServiceState
    → Database
    → Result ((Agent × AgentRun × Message) × Database)
admit_mutation config draw agent_id prompt human s db = admissible agent_id s db >>= λ a.
    let run = new_run config draw agent_id prompt human a db in
    let message = new_message config draw agent_id prompt a in
    ok (
      (a, run, message),
      admitted config draw agent_id prompt (prompt_violation config prompt) a run message db,
    )

abbrev pub unconfigured : AppConfig → Failure
unconfigured config =
    http 503 (
      template ("The selected " ∷ config.model_provider ∷ " model provider is not configured" ∷ []))

-- A blocked prompt is thrown, any other starts its execution.
unfoldable pub launched :
    Option String
    → String
    → Result (Agent × AgentRun × Message) × ServiceState
    → Result (AgentRun × Message) × ServiceState
launched violation agent_id (err e, s) = (err e, s)
launched (some violation) agent_id (ok (a, run, message), s) =
    (err (policy_violation canary 400 violation), s)
launched none agent_id (ok (a, run, message), s) =
    (ok (run, message), record s { active_executions = add agent_id s.active_executions })

-- The execution that is launched runs on beside the handler, see `Service.Runs`.
unfoldable pub send_message :
    AppConfig
    → Persist
    → (ServiceState → ServiceState)
    → Draw
    → String
    → String
    → Option ApprovalActor
    → ServiceState
    → Result (AgentRun × Message) × ServiceState
send_message config persist others draw agent_id prompt human s =
    if not (is_model_configured config)
    then (err (unconfigured config), s)
    else (launched (prompt_violation config prompt) agent_id
        (mutate_in persist (admit_mutation config draw agent_id prompt human) (others s)))
