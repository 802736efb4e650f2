-- ===== src/Service/Agents.antt =====
-- apps/server/src/agent-service.ts: making and changing an agent, and the change of a stored agent.
use tik_tok_tech_jam.Base.{
  String, ◌==◌, Bool, false, ◌||◌, Option, none, some, [], ◌∷◌, ◌++◌, includes, template, trim,
  get_or,
}
use tik_tok_tech_jam.Types.{Instant, Agent, AgentSession, ready, Principal, Database, agent}
use tik_tok_tech_jam.Errors.{Failure, http, Result, ok, err, ◌>>=◌, ◌>>◌, reject_if}
use tik_tok_tech_jam.Store.{Persist}
use tik_tok_tech_jam.Service.{
  ServiceState, has_active_lifecycle, mutate_in, update_first, get_agent,
}

pub record CreateAgentInput : Type 0 where
  pub name : String
  pub description : Option String
  pub instructions : Option String

pub record UpdateAgentInput : Type 0 where
  pub name : Option String
  pub description : Option String
  pub instructions : Option String

-- `input.x?.trim()`
abbrev pub trimmed : Option String → Option String
trimmed none = none
trimmed (some s) = some (trim s)

abbrev pub of_id : String → Agent → Bool
of_id id a = a.id == id

abbrev pub put_agent : String → (Agent → Agent) → Database → Database
put_agent id f db = record db { agents = update_first (of_id id) f db.agents }

-- The changed agent is answered, and stored in place.
abbrev pub changed : String → (Agent → Agent) → Agent → Database → Result (Agent × Database)
changed id f a db = ok (f a, put_agent id f db)

abbrev pub new_agent : CreateAgentInput → String → String → String → String → Instant → Agent
new_agent input owner id session_id workspace_path now = record {
  id = id;
  name = trim input.name;
  description = get_or (trimmed input.description) "";
  instructions = get_or (trimmed input.instructions) "";
  owner_id = owner;
  principal_id = template ("agent-" ∷ id ∷ []);
  status = ready;
  workspace_path = workspace_path;
  codex_thread_id = none;
  active_session_id = some session_id;
  last_error = none;
  authority_blocked = false;
  created_at = now;
  updated_at = now;
}

abbrev pub new_session : String → String → String → Instant → AgentSession
new_session id agent_id title now = record {
  id = id;
  agent_id = agent_id;
  title = title;
  codex_thread_id = none;
  created_at = now;
  updated_at = now;
}

unfoldable pub create_mutation :
    Agent → AgentSession → Principal → ServiceState → Database → Result (Unit {0} × Database)
create_mutation a session principal s db = ok (
  tt,
  record db {
    agents = db.agents ++ a ∷ [];
    sessions = db.sessions ++ session ∷ [];
    principals = db.principals ++ principal ∷ [];
  },
)

abbrev pub made : Agent → Result (Unit {0}) × ServiceState → Result Agent × ServiceState
made a (ok u, s) = (ok a, s)
made a (err e, s) = (err e, s)

-- `workspace` is the outcome of making the agent's directory.
unfoldable pub create_agent :
    Persist
    → Result (Unit {0})
    → (String → String)
    → CreateAgentInput
    → String
    → String
    → String
    → Instant
    → ServiceState
    → Result Agent × ServiceState
create_agent persist (err e) workspace_path input owner id session_id now s = (err e, s)
create_agent persist (ok u) workspace_path input owner id session_id now s =
    let a = new_agent input owner id session_id (workspace_path id) now in
    made a (
      mutate_in persist
        (create_mutation a (new_session session_id id "Chat 1" now)
          (record { id = a.principal_id; kind = agent; name = trim input.name; created_at = now }))
        s)

abbrev editing : Failure
editing = http 409 "Stop the active run before editing this Agent"

abbrev pub edited : UpdateAgentInput → Instant → Agent → Agent
edited input now a = record a {
  name = get_or (trimmed input.name) a.name;
  description = get_or (trimmed input.description) a.description;
  instructions = get_or (trimmed input.instructions) a.instructions;
  last_error = none;
  updated_at = now;
}

unfoldable pub update_mutation :
    String → UpdateAgentInput → Instant → ServiceState → Database → Result (Agent × Database)
update_mutation id input now s db = get_agent id db >>= λ a.
    reject_if (has_active_lifecycle a.status || includes s.lifecycle_mutations id) editing
    >> changed id (edited input now) a db

-- The instructions file that is written afterwards is the disk's: `instructions` is what that gives.
unfoldable pub update_agent :
    Persist
    → Result (Unit {0})
    → (ServiceState → ServiceState)
    → String
    → UpdateAgentInput
    → Instant
    → ServiceState
    → Result Agent × ServiceState
update_agent persist instructions others id input now s =
    elim (get_agent id s.db >>= λ a. reject_if (has_active_lifecycle a.status) editing) [
      | err e ↦ (err e, s)
      | ok u ↦
          let (r, after) = mutate_in persist (update_mutation id input now) (others s) in
          (r >>= (λ a. instructions >> ok a), after)
    ]
