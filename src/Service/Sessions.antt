-- ===== src/Service/Sessions.antt =====
-- apps/server/src/agent-service.ts: the chat sessions of an agent.
use tik_tok_tech_jam.Base.{
  ℕ, suc, String, ◌==◌, ◌&&◌, ◌||◌, Option, none, some, [], ◌∷◌, ◌++◌, filter, find, length,
  if◌then◌else◌, includes, template, decimal, trim,
}
use tik_tok_tech_jam.Types.{Instant, Agent, AgentSession, Database}
use tik_tok_tech_jam.Errors.{Failure, http, Result, ok, err, ◌>>=◌, ◌>>◌, reject_if}
use tik_tok_tech_jam.Store.{Persist}
use tik_tok_tech_jam.Service.{ServiceState, has_active_lifecycle, mutate_in, get_agent, found}
use tik_tok_tech_jam.Service.Agents.{changed, new_session}

abbrev creating : Failure
creating = http 409 "Wait for the active run to finish before creating a new chat session"

abbrev switching : Failure
switching = http 409 "Wait for the active run to finish before switching chat sessions"

-- `title?.trim() || "Chat n"`
abbrev pub session_title : Option String → ℕ → String
session_title none n = template ("Chat " ∷ decimal (suc n) ∷ [])
session_title (some title) n =
    if trim title == "" then template ("Chat " ∷ decimal (suc n) ∷ []) else trim title

-- The thread of the new active session: a new one has none, a selected one its own.
abbrev pub on_session : String → Option String → Instant → Agent → Agent
on_session session_id thread_id now a = record a {
  active_session_id = some session_id;
  codex_thread_id = thread_id;
  updated_at = now;
}

-- the guard that both mutations share
abbrev pub free_agent : Failure → String → ServiceState → Database → Result Agent
free_agent refusal agent_id s db = get_agent agent_id db >>= λ a.
    reject_if (has_active_lifecycle a.status || includes s.lifecycle_mutations agent_id) refusal
    >> ok a

unfoldable pub create_session_mutation :
    AgentSession → ServiceState → Database → Result (Agent × Database)
create_session_mutation session s db = free_agent creating session.agent_id s db >>= λ a.
    changed session.agent_id (on_session session.id none session.created_at) a
      (record db { sessions = db.sessions ++ session ∷ [] })

abbrev with_session :
    AgentSession → Result Agent × ServiceState → Result (AgentSession × Agent) × ServiceState
with_session session (err e, s) = (err e, s)
with_session session (ok a, s) = (ok (session, a), s)

unfoldable pub create_session :
    Persist
    → (ServiceState → ServiceState)
    → String
    → Option String
    → String
    → Instant
    → ServiceState
    → Result (AgentSession × Agent) × ServiceState
create_session persist others agent_id title id now s =
    elim (get_agent agent_id s.db >>= λ a. reject_if (has_active_lifecycle a.status) creating) [
      | err e ↦ (err e, s)
      | ok u ↦
          let count = length (filter (λ x. x.agent_id == agent_id) s.db.sessions) in
          let session = new_session id agent_id (session_title title count) now in
          with_session session (mutate_in persist (create_session_mutation session) (others s))
    ]

unfoldable pub select_session_mutation :
    AgentSession → Instant → ServiceState → Database → Result (Agent × Database)
select_session_mutation session now s db = free_agent switching session.agent_id s db >>= λ a.
    changed session.agent_id (on_session session.id session.codex_thread_id now) a db

unfoldable pub select_session :
    Persist
    → (ServiceState → ServiceState)
    → String
    → String
    → Instant
    → ServiceState
    → Result Agent × ServiceState
select_session persist others agent_id session_id now s =
    elim (get_agent agent_id s.db >>= λ a.
    reject_if (has_active_lifecycle a.status) switching
    >> found "Session not found"
        (find (λ x. x.id == session_id && x.agent_id == agent_id) s.db.sessions)) [
          | err e ↦ (err e, s)
          | ok session ↦ mutate_in persist (select_session_mutation session now) (others s)
        ]
