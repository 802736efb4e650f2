-- ===== src/Service/Queries.antt =====
-- apps/server/src/agent-service.ts: the lists and records that the routes ask for.
use tik_tok_tech_jam.Base.{
  String, ◌==◌, Bool, true, false, ◌&&◌, ◌||◌, Option, none, some, List, [], ◌∷◌, filter, find, leb,
  if◌then◌else◌, opt_eq,
}
use tik_tok_tech_jam.Types.{
  Agent, AgentSession, Message, AgentRun, RunEvent, ApprovalRequest, ApprovalStatus, pending,
  approved, denied, Database,
}
use tik_tok_tech_jam.Errors.{Result, ok, ◌>>=◌}
use tik_tok_tech_jam.Service.{get_agent, found}

-- JavaScript's stable sort, by insertion: `before x y` says that `y` must not come in front of `x`.
module _ {A : Type 0} (before : A → A → Bool) where
  unfoldable pub insert : A → List A → List A
  insert x [] = x ∷ []
  insert x (y ∷ ys) = let rest = insert x ys in if before x y then x ∷ y ∷ ys else y ∷ rest

  unfoldable pub sort : List A → List A
  unfolding insert
  sort [] = []
  sort (x ∷ xs) = insert x (sort xs)

unfoldable pub list_agents : Database → List Agent
list_agents db = sort (λ x y. leb y.updated_at x.updated_at) db.agents

unfoldable pub list_sessions : String → Database → Result (List AgentSession)
list_sessions agent_id db = get_agent agent_id db >>= λ a.
    ok (
      sort (λ x y. leb y.created_at x.created_at)
        (filter (λ x. x.agent_id == agent_id) db.sessions))

-- `if (sessionId)`: an empty id is none
abbrev in_session : Option String → Option String → Bool
in_session none own = true
in_session (some session_id) own = session_id == "" || opt_eq own (some session_id)

unfoldable pub get_messages : String → Option String → Database → Result (List Message)
get_messages agent_id session_id db = get_agent agent_id db >>= λ a. ok (
    sort (λ x y. leb x.created_at y.created_at)
      (filter (λ m. m.agent_id == agent_id && in_session session_id m.session_id) db.messages))

unfoldable pub get_run : String → Database → Result AgentRun
get_run run_id db = found "Run not found" (find (λ r. r.id == run_id) db.runs)

unfoldable pub get_agent_events : String → Database → Result (List RunEvent)
get_agent_events agent_id db = get_agent agent_id db >>= λ a. ok (
    sort (λ x y. leb x.created_at y.created_at)
      (filter (λ e. e.agent_id == agent_id) db.run_events))

unfoldable pub get_run_events : String → Database → List RunEvent
get_run_events run_id db =
    sort (λ x y. leb x.created_at y.created_at) (filter (λ e. e.run_id == run_id) db.run_events)

unfoldable pub get_runs : String → Option String → Database → Result (List AgentRun)
get_runs agent_id session_id db = get_agent agent_id db >>= λ a. ok (
    sort (λ x y. leb y.created_at x.created_at)
      (filter (λ r. r.agent_id == agent_id && in_session session_id r.session_id) db.runs))

abbrev status_eq : ApprovalStatus → ApprovalStatus → Bool
status_eq pending pending = true
status_eq approved approved = true
status_eq denied denied = true
status_eq _ _ = false

abbrev asked_agent : Option String → String → Bool
asked_agent none own = true
asked_agent (some agent_id) own = agent_id == "" || own == agent_id

abbrev asked_status : Option ApprovalStatus → ApprovalStatus → Bool
asked_status none own = true
asked_status (some status) own = status_eq own status

unfoldable pub list_approvals :
    Option String → Option ApprovalStatus → Database → List ApprovalRequest
list_approvals agent_id status db =
    sort (λ x y. leb y.created_at x.created_at)
      (filter (λ a. asked_agent agent_id a.agent_id && asked_status status a.status) db.approvals)

unfoldable pub get_approval : String → Database → Result ApprovalRequest
get_approval id db = found "Approval request not found" (find (λ a. a.id == id) db.approvals)
