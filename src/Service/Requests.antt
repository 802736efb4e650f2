-- ===== src/Service/Requests.antt =====
-- apps/server/src/agent-service.ts: `requestEgressApproval`, up to the wait for its promise.
use tik_tok_tech_jam.Base.{
  ℕ, String, ◌==◌, Bool, true, false, ◌&&◌, ◌||◌, Option, none, some, List, [], ◌∷◌, ◌++◌, find,
  if◌then◌else◌, includes, template, decimal,
}
use tik_tok_tech_jam.Types.{
  Instant, Agent, waiting_approval, AgentRun, ApprovalRequest, pending, high, tool_call, Database,
  step_approval_requested, warning,
}
use tik_tok_tech_jam.Errors.{Failure, http, Result, ok, err, ◌>>=◌, ◌>>◌, reject_if}
use tik_tok_tech_jam.Store.{Persist}
use tik_tok_tech_jam.Service.{
  AppConfig, ServiceState, actor, system_request_disconnected_actor, event, append_run_event,
  mutate_in,
}
use tik_tok_tech_jam.Service.Agents.{of_id, put_agent}
use tik_tok_tech_jam.Service.Approvals.{is_running, clear_pending, deny_held}

pub record EgressApprovalInput : Type 0 where
  pub host : String
  pub port : ℕ
  pub method : String

abbrev inactive : Failure
inactive = http 409 "Egress approval requires an active Agent run"

abbrev pub own_run : String → String → List AgentRun → Option AgentRun
own_run run_id agent_id runs = find (λ r. r.id == run_id && r.agent_id == agent_id) runs

-- the agent and its running run
abbrev pub active_run : Option Agent → Option AgentRun → Result (Agent × AgentRun)
active_run (some a) (some run) = if is_running run.status then ok (a, run) else err inactive
active_run _ _ = err inactive

abbrev pub running_agent : String → String → Database → Result (Agent × AgentRun)
running_agent run_id agent_id db =
    active_run (find (of_id agent_id) db.agents) (own_run run_id agent_id db.runs)

abbrev action_detail : EgressApprovalInput → String
action_detail input = template (input.method ∷ " " ∷ input.host ∷ ":" ∷ decimal input.port ∷ [])

abbrev pub egress_approval :
    String → EgressApprovalInput → Instant → Agent → AgentRun → ApprovalRequest
egress_approval id input now a run = record {
  id = id;
  run_id = run.id;
  agent_id = a.id;
  action_type = tool_call;
  action_detail = action_detail input;
  rule_id = "HITL-EGRESS-025";
  reason = "Outbound request is held at the enforced proxy boundary pending operator approval.";
  risk_level = high;
  status = pending;
  created_at = now;
  resolved_at = none;
  resolved_by_principal_id = none;
  resolved_by_display_name = none;
  evidence = record {
    initiating_human = actor run.initiated_by_principal_id run.initiated_by_display_name;
    executing_agent = actor a.principal_id a.name;
    action_type = tool_call;
    action_detail = action_detail input;
    resource = template (input.host ∷ ":" ∷ decimal input.port ∷ []);
    decision = none;
    result = pending;
    resolved_by = none;
  };
}

abbrev pub waiting_now : Instant → Agent → Agent
waiting_now now a = record a { status = waiting_approval; updated_at = now }

-- the approval is published, and the agent waits
abbrev pub published :
    String → String → ApprovalRequest → String → String → Instant → Database → Database
published event_id agent_id a title detail now db =
    append_run_event
      (event event_id a.run_id agent_id step_approval_requested warning title detail now)
      (put_agent agent_id (waiting_now now) (record db { approvals = db.approvals ++ a ∷ [] }))

unfoldable pub hold_mutation :
    String → ApprovalRequest → Bool → ServiceState → Database → Result (Unit {0} × Database)
hold_mutation event_id a aborted s db = running_agent a.run_id a.agent_id db >>= λ x.
    reject_if (includes s.cancellation_requests a.agent_id || aborted) inactive
    >> ok (
      tt,
      published event_id a.agent_id a "Outbound request held before connection"
          (template (
            "Human approval required for " ∷ a.action_detail
            ∷ "; no upstream connection has been opened." ∷ []))
          a.created_at db,
    )

unfoldable pub register : ApprovalRequest → ServiceState → ServiceState
register a s = record s { pending_approvals = a ∷ s.pending_approvals }

-- How a request comes out of its own handler: it waits for the promise, or the handler throws.
abbrev pub held_or_thrown :
    String → Bool → Result (Unit {0}) × ServiceState → Result String × ServiceState
held_or_thrown id aborted (ok u, s) = (ok id, s)
held_or_thrown id aborted (err e, s) = (if aborted then ok id else err e, clear_pending id s)

abbrev pub registered_request :
    AppConfig
    → Persist
    → (ServiceState → ServiceState)
    → String
    → Bool
    → Bool
    → ApprovalRequest
    → ServiceState
    → Result String × ServiceState
registered_request config persist others event_id true gone a s = (
  ok a.id,
  deny_held config persist others event_id a.id system_request_disconnected_actor a.created_at s,
)
registered_request config persist others event_id false gone a s =
    held_or_thrown a.id gone (mutate_in persist (hold_mutation event_id a gone) (others s))

-- The promise to wait for, by the approval's id. `aborted` and `gone` say whether the request's connection is
-- closed at the start, and when the mutation runs.
unfoldable pub request_egress_approval :
    AppConfig
    → Persist
    → (ServiceState → ServiceState)
    → String
    → String
    → String
    → String
    → EgressApprovalInput
    → Bool
    → Bool
    → Instant
    → ServiceState
    → Result String × ServiceState
request_egress_approval config persist others event_id id run_id agent_id input aborted gone now s =
    elim (running_agent run_id agent_id s.db) [
      | err e ↦ (err e, s)
      | ok (a, run) ↦
          let request = record (egress_approval id input now a run) {
            run_id = run_id;
            agent_id = agent_id;
          } in
          registered_request config persist others event_id aborted gone request
            (register request s)
    ]
