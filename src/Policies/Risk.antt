-- ===== src/Policies/Risk.antt =====
-- apps/server/src/run-policies.ts and agent-service.ts: `evaluateActionRisk` and `actionResource`. What the
-- regular expressions find in a text is the engine's, one field for each.
use tik_tok_tech_jam.Base.{
  String, ◌==◌, Bool, true, false, not, ◌&&◌, ◌||◌, Option, none, some, [], ◌∷◌, if◌then◌else◌,
  template, get_or, starts_with,
}
use tik_tok_tech_jam.Types.{ActionRiskLevel, low, medium, high, critical}

pub data StepType : Type 0 where
  command tool_call file_change message : StepType

pub data StepPhase : Type 0 where
  before after : StepPhase

-- `raw_payload` is the JSON text of the payload, of `""` where there is none.
pub record RunnerStepEvent : Type 0 where
  pub step_type : StepType
  pub title : String
  pub detail : String
  pub phase : Option StepPhase
  pub raw_payload : String

pub record ActionRiskAssessment : Type 0 where
  pub risk_level : ActionRiskLevel
  pub requires_approval : Bool
  pub rule_id : String
  pub reason : String

pub record RiskPatterns : Type 0 where
  pub recursive_removal : String → Bool
  pub disk_or_mode : String → Bool
  pub credentials : String → Bool
  pub network_tool : String → Bool
  pub url : String → Bool
  pub publishing : String → Bool
  pub privilege : String → Bool

abbrev risk : ActionRiskLevel → Bool → String → String → ActionRiskAssessment
risk level approval rule reason = record {
  risk_level = level;
  requires_approval = approval;
  rule_id = rule;
  reason = reason;
}

abbrev pub assess : RiskPatterns → String → ActionRiskAssessment
assess p text =
    if p.recursive_removal text || p.disk_or_mode text
    then risk critical true "SEC-DESTRUCTIVE-001"
        "Destructive filesystem operation detected that could cause permanent data loss."
    else (if p.credentials text
        then risk high true "SEC-CREDENTIALS-002"
            "Access to protected credentials or private keys detected."
        else (if p.network_tool text || p.url text
            then risk high true "SEC-EGRESS-003"
                "Outbound network connection or data transfer tool detected outside local perimeter."
            else (if p.publishing text
                then risk medium true "SEC-SUPPLY-004"
                    "Package registry publishing action detected targeting remote repositories."
                else (if p.privilege text
                    then risk critical true "SEC-PRIVILEGE-005"
                        "Privilege escalation attempt detected targeting elevated system permissions."
                    else risk low false "ALLOW-STANDARD-000"
                        "Standard workspace execution automatically approved under active policy."))))

unfoldable pub evaluate_action_risk : RiskPatterns → RunnerStepEvent → ActionRiskAssessment
evaluate_action_risk p step =
    assess p (template (step.title ∷ " " ∷ step.detail ∷ " " ∷ step.raw_payload ∷ []))

-- `trim_url` takes the closing punctuation off an address.
pub record ResourcePatterns : Type 0 where
  pub url : String → Option String
  pub trim_url : String → String
  pub absolute_path : String → Option String
  pub credential_file : String → Option String
  pub destination : String → Option String
  pub published_package : String → Option String

abbrev package_or : Option String → String
package_or none = "unknown package registry resource"
package_or (some target) =
    if not (target == "") && not (starts_with target "-")
    then target
    else "unknown package registry resource"

abbrev by_rule : ResourcePatterns → String → String → String
by_rule p detail rule_id =
    if rule_id == "SEC-CREDENTIALS-002"
    then get_or (p.credential_file detail) "unknown credential resource"
    else (if rule_id == "SEC-EGRESS-003"
        then get_or (p.destination detail) "unknown network destination"
        else (if rule_id == "SEC-SUPPLY-004"
            then package_or (p.published_package detail)
            else (if rule_id == "SEC-PRIVILEGE-005"
                then "host privilege boundary"
                else "unknown resource")))

abbrev by_path : ResourcePatterns → Option String → String → String → String
by_path p none detail rule_id = by_rule p detail rule_id
by_path p (some path) detail rule_id = path

abbrev by_url : ResourcePatterns → Option String → String → String → String
by_url p none detail rule_id = by_path p (p.absolute_path detail) detail rule_id
by_url p (some url) detail rule_id = p.trim_url url

unfoldable pub action_resource : ResourcePatterns → String → String → String
action_resource p detail rule_id = by_url p (p.url detail) detail rule_id
