-- ===== src/Service/Gate.antt =====
-- apps/server/src/agent-service.ts: the first part of `onStep`, up to the wait for an operator.
use tik_tok_tech_jam.Base.{
  String, Bool, true, false, not, Option, none, some, [], ◌∷◌, if◌then◌else◌, template,
}
use tik_tok_tech_jam.Types.{Agent, AgentRun, ApprovalRequest, pending, Database, step_auto_approved}
use tik_tok_tech_jam.Errors.{
  runtime_control, Failure, policy_violation, run_cancelled, Result, ok, err, ◌>>◌, reject_if,
}
use tik_tok_tech_jam.Policies.Risk.{
  StepType, RunnerStepEvent, ActionRiskAssessment, evaluate_action_risk, action_resource,
}
use tik_tok_tech_jam.Terminator.{PauseResult, paused, idle, failed}
use tik_tok_tech_jam.Service.{AppConfig, ServiceState, actor, redact, mutate_in}
use tik_tok_tech_jam.Service.Approvals.{clear_pending}
use tik_tok_tech_jam.Service.Requests.{published, register}
use tik_tok_tech_jam.Service.Steps.{
  StepOutside, StepEnd, is_cancelling, trips_canary, exfiltration, action_of, append, record_step,
  recorded_then, is_before, is_after, observe, over, waits, throws,
}

abbrev pub gate_approval :
    StepOutside → AgentRun → Agent → RunnerStepEvent → ActionRiskAssessment → ApprovalRequest
gate_approval out run a step risk = record {
  id = out.approval_id;
  run_id = run.id;
  agent_id = a.id;
  action_type = action_of step.step_type;
  action_detail = step.detail;
  rule_id = risk.rule_id;
  reason = risk.reason;
  risk_level = risk.risk_level;
  status = pending;
  created_at = out.now;
  resolved_at = none;
  resolved_by_principal_id = none;
  resolved_by_display_name = none;
  evidence = record {
    initiating_human = actor run.initiated_by_principal_id run.initiated_by_display_name;
    executing_agent = actor a.principal_id a.name;
    action_type = action_of step.step_type;
    action_detail = step.detail;
    resource = action_resource out.resources step.detail risk.rule_id;
    decision = none;
    result = pending;
    resolved_by = none;
  };
}

abbrev pub control : String → String → Failure
control text rule = policy_violation runtime_control 409 (template (text ∷ rule ∷ ")." ∷ []))

-- the violation is thrown, and kept
abbrev pub violates : Failure → StepEnd
violates e = throws e (some e)

unfoldable pub publish_mutation :
    AppConfig
    → StepOutside
    → Agent
    → ApprovalRequest
    → ServiceState
    → Database
    → Result (Unit {0} × Database)
publish_mutation config out a request s db =
    reject_if (is_cancelling a s) run_cancelled
    >> ok (
      tt,
      published out.event_id a.id request
          (template ("High-Risk Action Intercepted (" ∷ request.rule_id ∷ ")" ∷ []))
          (template (
            "Human approval required: "
            ∷ redact config request.action_detail
            ∷ ". Policy: "
            ∷ request.reason
            ∷ []))
          out.now db,
    )

abbrev pub unpublished : Failure → String → StepEnd
unpublished run_cancelled rule = throws run_cancelled none
unpublished _ rule =
    violates
      (control "Approval gate persistence failed after pausing; execution was cancelled (" rule)

abbrev pub publishing : ApprovalRequest → Result (Unit {0}) × ServiceState → StepEnd × ServiceState
publishing request (ok u, s) = (waits request.id, s)
publishing request (err e, s) = (unpublished e request.rule_id, clear_pending request.id s)

-- the approval is registered, then published
unfoldable pub hold_step :
    AppConfig → StepOutside → Agent → ApprovalRequest → ServiceState → StepEnd × ServiceState
hold_step config out a request s =
    publishing request
      (mutate_in out.persist (publish_mutation config out a request) (register request s))

abbrev pause_text : PauseResult → String
pause_text paused = "paused"
pause_text idle = "idle"
pause_text failed = "failed"

-- a runner that throws has failed to pause, and so has one that a cancellation overtakes
abbrev pub pause_result : Bool → Result PauseResult → PauseResult
pause_result true r = failed
pause_result false (err e) = failed
pause_result false (ok r) = r

abbrev pub held_if :
    AppConfig
    → StepOutside
    → Agent
    → ApprovalRequest
    → PauseResult
    → ServiceState
    → StepEnd × ServiceState
held_if config out a request paused s = hold_step config out a request s
held_if config out a request r s = (
  violates (
      policy_violation runtime_control 409 (
        template (
          "Runtime pause failed ("
          ∷ pause_text r
          ∷ "); high-risk action was cancelled before approval ("
          ∷ request.rule_id
          ∷ ")."
          ∷ []))),
  s,
)

unfoldable pub gate_step :
    AppConfig
    → StepOutside
    → Agent
    → ApprovalRequest
    → Option (Result PauseResult)
    → ServiceState
    → StepEnd × ServiceState
gate_step config out a request none s = (
  violates (
      control "Runtime does not support pausing; high-risk action was cancelled before approval ("
        request.rule_id),
  s,
)
gate_step config out a request (some r) s =
    let after = out.pausing s in
    if is_cancelling a after
    then (throws run_cancelled none, after)
    else held_if config out a request (pause_result (is_cancelling a s) r) after

abbrev auto_approves : StepType → Bool
auto_approves StepType.command = true
auto_approves StepType.tool_call = true
auto_approves _ = false

unfoldable pub pass_step :
    AppConfig
    → StepOutside
    → AgentRun
    → Agent
    → RunnerStepEvent
    → ActionRiskAssessment
    → ServiceState
    → StepEnd × ServiceState
pass_step config out run a step risk s =
    if auto_approves step.step_type
    then recorded_then config out run a step (
        mutate_in out.persist
          (λ x db.
            append out.event_id run a step_auto_approved
              (template ("Action Auto-Approved (" ∷ risk.rule_id ∷ ")" ∷ []))
              (template ("Safe execution policy auto-approved: " ∷ redact config step.detail ∷ []))
              out.now db)
          s)
    else record_step config out run a step s

abbrev pub assessed :
    AppConfig
    → StepOutside
    → AgentRun
    → Agent
    → RunnerStepEvent
    → ActionRiskAssessment
    → ServiceState
    → StepEnd × ServiceState
assessed config out run a step risk s =
    if not risk.requires_approval
    then pass_step config out run a step risk s
    else (if is_before step.phase
        then gate_step config out a (gate_approval out run a step risk) out.pause s
        else recorded_then config out run a step (observe out run a risk (is_after step.phase) s))

-- `onStep` up to the wait for a decision
unfoldable pub on_step :
    AppConfig
    → StepOutside
    → AgentRun
    → Agent
    → RunnerStepEvent
    → ServiceState
    → StepEnd × ServiceState
on_step config out run a step s =
    if is_cancelling a s
    then (throws run_cancelled none, s)
    else (if trips_canary config step
        then (over (some exfiltration), s)
        else assessed config out run a step (evaluate_action_risk out.risks step) s)
