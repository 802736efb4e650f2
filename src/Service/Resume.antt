-- ===== src/Service/Resume.antt =====
-- apps/server/src/agent-service.ts: `onStep` once the operator has decided.
use tik_tok_tech_jam.Base.{
  String, Bool, false, not, Option, none, some, [], ◌∷◌, if◌then◌else◌, template,
}
use tik_tok_tech_jam.Types.{Agent, AgentRun, ApprovalRequest, approved, execution_resumed, Database}
use tik_tok_tech_jam.Errors.{approval, policy_violation, run_cancelled, Result, ok, err}
use tik_tok_tech_jam.Policies.Risk.{RunnerStepEvent}
use tik_tok_tech_jam.Service.{AppConfig, ServiceState, update_first, mutate_in}
use tik_tok_tech_jam.Service.Approvals.{of_approval}
use tik_tok_tech_jam.Service.Steps.{StepOutside, StepEnd, throws, is_cancelling, recorded_then}
use tik_tok_tech_jam.Service.Gate.{violates, control}

abbrev pub resumed_as : ApprovalRequest → ApprovalRequest
resumed_as a = elim a.status [
  | approved ↦ record a { evidence = record a.evidence { result = execution_resumed } }
  | _ ↦ a
]

unfoldable pub resumed_mutation : String → ServiceState → Database → Result (Unit {0} × Database)
resumed_mutation id s db =
    ok (tt, record db { approvals = update_first (of_approval id) resumed_as db.approvals })

-- what `resume` gives, and the text where it gives nothing
abbrev pub resumption : Option (Result Bool) → Bool × String
resumption none = (false, "Runtime does not support resuming after approval")
resumption (some (err e)) = (false, "Runtime resume failed after approval")
resumption (some (ok b)) = (b, "Runtime resume failed after approval")

-- `onStep` once the decision is there
unfoldable pub decided_step :
    AppConfig
    → StepOutside
    → AgentRun
    → Agent
    → RunnerStepEvent
    → String
    → Bool
    → ServiceState
    → StepEnd × ServiceState
decided_step config out run a step rule approve s =
    if is_cancelling a s
    then (throws run_cancelled none, s)
    else (if not approve
        then (
          violates (
              policy_violation approval 403 (
                template
                  ("Action blocked by operator denial (" ∷ rule ∷ "): " ∷ step.detail ∷ []))),
          s,
        )
        else (let after = out.resuming s in
            let (resumed, text) = resumption out.resume in
            if is_cancelling a after
            then (throws run_cancelled none, after)
            else (if not resumed
                then (
                  violates (control (template (text ∷ "; execution was cancelled (" ∷ [])) rule),
                  after,
                )
                else recorded_then config out run a step
                    (mutate_in out.persist (resumed_mutation out.approval_id) after))))
