-- ===== src/Service/Steps.antt =====
-- apps/server/src/agent-service.ts: what `onStep` of `executeRun` is given, how a step ends, and the events that
-- the steps leave. `runner.cancel`, whose failure is swallowed here, changes nothing of the service.
use tik_tok_tech_jam.Base.{
  String, ◌==◌, Bool, true, false, not, ◌&&◌, ◌||◌, Option, none, some, [], ◌∷◌, if◌then◌else◌,
  includes, template, contains,
}
use tik_tok_tech_jam.Types.{
  Instant, Agent, AgentRun, ActionType, command, tool_call, file_change, Database, RunEventType,
  step_command, step_tool_call, step_file_change, step_message, step_risk_observed, info, warning,
}
use tik_tok_tech_jam.Errors.{canary, Failure, policy_violation, Result, ok, err}
use tik_tok_tech_jam.Store.{Persist}
use tik_tok_tech_jam.Policies.Risk.{
  StepType, StepPhase, RunnerStepEvent, ActionRiskAssessment, RiskPatterns, ResourcePatterns,
}
use tik_tok_tech_jam.Terminator.{PauseResult}
use tik_tok_tech_jam.Service.{AppConfig, ServiceState, redact, event, append_run_event, mutate_in}

-- What a step meets outside: the patterns, what the runner answers (`none` where it has no such operation), the
-- disk, and what the rest of the server does while the runner pauses or resumes.
pub record StepOutside : Type 0 where
  pub risks : RiskPatterns
  pub resources : ResourcePatterns
  pub pause : Option (Result PauseResult)
  pub resume : Option (Result Bool)
  pub persist : Persist
  pub persist_last : Persist
  pub pausing : ServiceState → ServiceState
  pub resuming : ServiceState → ServiceState
  pub approval_id : String
  pub event_id : String
  pub last_event_id : String
  pub now : Instant

-- A step is over, waits for the approval with an id, or failed with what it throws. Over or not, it may leave
-- the violation that the run is to throw in the end.
pub data StepEnd : Type 0 where
  over : Option Failure → StepEnd
  waits : String → StepEnd
  throws : Failure → Option Failure → StepEnd

abbrev pub is_cancelling : Agent → ServiceState → Bool
is_cancelling a s = includes s.cancellation_requests a.id

abbrev pub trips_canary : AppConfig → RunnerStepEvent → Bool
trips_canary config step =
    not (config.guardrail_canary_token == "")
    && (contains step.detail config.guardrail_canary_token
        || contains step.raw_payload config.guardrail_canary_token)

abbrev pub exfiltration : Failure
exfiltration =
    policy_violation canary 409
      "Tool call or shell execution attempted to exfiltrate the canary token outside the workspace boundary."

abbrev pub stepped : StepType → RunEventType
stepped StepType.command = step_command
stepped StepType.tool_call = step_tool_call
stepped StepType.file_change = step_file_change
stepped StepType.message = step_message

abbrev pub action_of : StepType → ActionType
action_of StepType.command = command
action_of StepType.tool_call = tool_call
action_of StepType.file_change = file_change
action_of StepType.message = tool_call

abbrev pub append :
    String
    → AgentRun
    → Agent
    → RunEventType
    → String
    → String
    → Instant
    → Database
    → Result (Unit {0} × Database)
append id run a kind title detail now db =
    ok (tt, append_run_event (event id run.id a.id kind info title detail now) db)

abbrev pub recorded_end : Result (Unit {0}) → StepEnd
recorded_end (ok u) = over none
recorded_end (err e) = throws e none

-- the event of the step itself, with which every step that goes on ends
unfoldable pub record_step :
    AppConfig
    → StepOutside
    → AgentRun
    → Agent
    → RunnerStepEvent
    → ServiceState
    → StepEnd × ServiceState
record_step config out run a step s =
    let (r, t) =
      mutate_in out.persist_last
        (λ x db.
          append out.last_event_id run a (stepped step.step_type) step.title
            (redact config step.detail) out.now db)
        s in
    (recorded_end r, t)

abbrev pub recorded_then :
    AppConfig
    → StepOutside
    → AgentRun
    → Agent
    → RunnerStepEvent
    → Result (Unit {0}) × ServiceState
    → StepEnd × ServiceState
recorded_then config out run a step (err e, s) = (throws e none, s)
recorded_then config out run a step (ok u, s) = record_step config out run a step s

abbrev pub is_before : Option StepPhase → Bool
is_before (some StepPhase.before) = true
is_before _ = false

abbrev pub is_after : Option StepPhase → Bool
is_after (some StepPhase.after) = true
is_after _ = false

abbrev observed_title : Bool → String → String
observed_title after rule = template (
    (if after
      then "Risk observed after execution ("
      else "Risk observed without a pre-execution guarantee (")
    ∷ rule
    ∷ ")"
    ∷ [])

abbrev observed_detail : Bool → String → String
observed_detail after reason = template (
    (if after
      then "Telemetry only; this Runtime event arrived after execution. "
      else "Telemetry only; this Runtime event did not assert a trusted before phase. ")
    ∷ reason
    ∷ [])

unfoldable pub observe :
    StepOutside
    → AgentRun
    → Agent
    → ActionRiskAssessment
    → Bool
    → ServiceState
    → Result (Unit {0}) × ServiceState
observe out run a risk after s =
    mutate_in out.persist
      (λ x db. ok (
        tt,
        append_run_event
            (event out.event_id run.id a.id step_risk_observed warning
              (observed_title after risk.rule_id) (observed_detail after risk.reason) out.now)
            db,
      ))
      s
