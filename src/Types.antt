-- ===== src/Types.antt =====
-- apps/server/src/types.ts: the records of the stored database.
-- An instant is a number of milliseconds: the source compares ISO texts of one fixed width, in which
-- the order of the texts is the order of the instants. A property that may be absent or null is an
-- `Option`, since the code reads every such property through `?? null`, `??` or a truth test.
use tik_tok_tech_jam.Base.{ℕ, String, Bool, true, false, Option, List}

abbrev pub Instant : Type 0
Instant = ℕ

pub data AgentStatus : Type 0 where
  ready busy waiting_approval stopped error : AgentStatus

pub data RunStatus : Type 0 where
  queued running completed failed cancelled : RunStatus

pub data MessageRole : Type 0 where
  user assistant : MessageRole

pub record AgentSession : Type 0 where
  pub id : String
  pub agent_id : String
  pub title : String
  pub codex_thread_id : Option String
  pub created_at : Instant
  pub updated_at : Instant

pub record Agent : Type 0 where
  pub id : String
  pub name : String
  pub description : String
  pub instructions : String
  pub owner_id : String
  pub principal_id : String
  pub status : AgentStatus
  pub workspace_path : String
  pub codex_thread_id : Option String
  pub active_session_id : Option String
  pub last_error : Option String
  pub authority_blocked : Bool
  pub created_at : Instant
  pub updated_at : Instant

pub record Message : Type 0 where
  pub id : String
  pub agent_id : String
  pub session_id : Option String
  pub run_id : String
  pub role : MessageRole
  pub content : String
  pub created_at : Instant

-- The cost is kept in millionths of a dollar, to which the code rounds it.
pub record RunUsage : Type 0 where
  pub input_tokens : Option ℕ
  pub cached_input_tokens : Option ℕ
  pub output_tokens : Option ℕ
  pub cost_micro_usd : Option ℕ

pub data PrincipalKind : Type 0 where
  human agent : PrincipalKind

pub record Principal : Type 0 where
  pub id : String
  pub kind : PrincipalKind
  pub name : String
  pub created_at : Instant

pub data GrantScope : Type 0 where
  resource_read resource_write network_egress : GrantScope

-- `===` between scopes
abbrev pub scope_eq : GrantScope → GrantScope → Bool
scope_eq resource_read resource_read = true
scope_eq resource_write resource_write = true
scope_eq network_egress network_egress = true
scope_eq _ _ = false

abbrev pub scope_text : GrantScope → String
scope_text resource_read = "resource:read"
scope_text resource_write = "resource:write"
scope_text network_egress = "network:egress"

pub record Grant : Type 0 where
  pub id : String
  pub principal_id : String
  pub granted_by : String
  pub scope : GrantScope
  pub target : String
  pub expires_at : Option Instant
  pub revoked_at : Option Instant
  pub revoked_by : Option String
  pub created_at : Instant
  pub parent_grant_id : Option String

pub data MemorySourceType : Type 0 where
  operator agent_output tool_result web_content : MemorySourceType

pub data MemoryTrust : Type 0 where
  trusted untrusted : MemoryTrust

pub record Provenance : Type 0 where
  pub run_id : Option String
  pub source_type : MemorySourceType
  pub source_detail : String

pub record MemoryEntry : Type 0 where
  pub id : String
  pub agent_id : String
  pub content : String
  pub provenance : Provenance
  pub trust : MemoryTrust
  pub created_at : Instant
  pub expires_at : Option Instant
  pub quarantined_at : Option Instant
  pub quarantined_by : Option String

pub record MockResource : Type 0 where
  pub id : String
  pub owner_id : String
  pub name : String
  pub content : String

pub record PolicyDecision : Type 0 where
  pub allowed : Bool
  pub rule_id : String
  pub reason : String
  pub principal_id : Option String
  pub grant_id : Option String

pub data RunEventSeverity : Type 0 where
  info success warning error : RunEventSeverity

pub data RunEventType : Type 0 where
  run_created run_started run_completed run_failed run_blocked run_cancelled : RunEventType
  step_command step_tool_call step_file_change step_message step_auto_approved : RunEventType
  step_risk_observed step_approval_requested step_approval_granted : RunEventType
  step_approval_denied policy_decision grant_created grant_revoked grant_expired : RunEventType
  egress_blocked memory_recalled memory_quarantined agent_terminated : RunEventType

pub data ApprovalStatus : Type 0 where
  pending approved denied : ApprovalStatus

pub data ActionRiskLevel : Type 0 where
  low medium high critical : ActionRiskLevel

pub data ActionType : Type 0 where
  command tool_call file_change : ActionType

pub data ApprovalResult : Type 0 where
  pending execution_authorized execution_resumed execution_blocked : ApprovalResult
  execution_cancelled execution_failed unknown : ApprovalResult

pub record ApprovalActor : Type 0 where
  pub principal_id : String
  pub display_name : String

pub record ApprovalEvidence : Type 0 where
  pub initiating_human : ApprovalActor
  pub executing_agent : ApprovalActor
  pub action_type : ActionType
  pub action_detail : String
  pub resource : String
  pub decision : Option ApprovalStatus
  pub result : ApprovalResult
  pub resolved_by : Option ApprovalActor

pub record ApprovalRequest : Type 0 where
  pub id : String
  pub run_id : String
  pub agent_id : String
  pub action_type : ActionType
  pub action_detail : String
  pub rule_id : String
  pub reason : String
  pub risk_level : ActionRiskLevel
  pub status : ApprovalStatus
  pub created_at : Instant
  pub resolved_at : Option Instant
  pub resolved_by_principal_id : Option String
  pub resolved_by_display_name : Option String
  pub evidence : ApprovalEvidence

pub record AgentRun : Type 0 where
  pub id : String
  pub agent_id : String
  pub session_id : Option String
  pub initiated_by_principal_id : String
  pub initiated_by_display_name : String
  pub status : RunStatus
  pub prompt : String
  pub output : Option String
  pub error : Option String
  pub usage : Option RunUsage
  pub started_at : Option Instant
  pub completed_at : Option Instant
  pub created_at : Instant

pub record RunEvent : Type 0 where
  pub id : String
  pub run_id : String
  pub agent_id : String
  pub event_type : RunEventType
  pub severity : RunEventSeverity
  pub title : String
  pub detail : String
  pub created_at : Instant

pub record Database : Type 0 where
  pub agents : List Agent
  pub sessions : List AgentSession
  pub messages : List Message
  pub runs : List AgentRun
  pub run_events : List RunEvent
  pub approvals : List ApprovalRequest
  pub principals : List Principal
  pub grants : List Grant
  pub resources : List MockResource
  pub memories : List MemoryEntry
