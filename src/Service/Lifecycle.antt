-- ===== src/Service/Lifecycle.antt =====
-- apps/server/src/agent-service.ts: starting, stopping, quarantining and deleting an agent.
use tik_tok_tech_jam.Base.{
  String, ◌==◌, Bool, true, false, not, ◌&&◌, ◌||◌, none, some, filter, if◌then◌else◌, add,
  includes,
}
use tik_tok_tech_jam.Types.{Instant, Agent, AgentStatus, ready, stopped, Database}
use tik_tok_tech_jam.Errors.{Failure, http, Result, ok, err, ◌>>=◌, ◌>>◌, reject_if}
use tik_tok_tech_jam.Store.{Persist}
use tik_tok_tech_jam.Service.{
  AppConfig, ServiceState, has_active_lifecycle, mutate_in, without_id, get_agent,
}
use tik_tok_tech_jam.Service.Cancel.{Cancellation, cancel_execution}
use tik_tok_tech_jam.Service.Agents.{put_agent, changed}

abbrev pub lifecycle_busy : Failure
lifecycle_busy = http 409 "Another lifecycle change is already in progress"

abbrev pub enter_lifecycle : String → ServiceState → ServiceState
enter_lifecycle id s = record s { lifecycle_mutations = add id s.lifecycle_mutations }

abbrev pub leave_lifecycle : String → ServiceState → ServiceState
leave_lifecycle id s = record s { lifecycle_mutations = without_id id s.lifecycle_mutations }

unfoldable pub delete_mutation : String → ServiceState → Database → Result (Unit {0} × Database)
delete_mutation id s db = ok (
  tt,
  record db {
    agents = filter (λ a. not (a.id == id)) db.agents;
    sessions = filter (λ x. not (x.agent_id == id)) db.sessions;
    messages = filter (λ m. not (m.agent_id == id)) db.messages;
    runs = filter (λ r. not (r.agent_id == id)) db.runs;
    run_events = filter (λ e. not (e.agent_id == id)) db.run_events;
    approvals = filter (λ a. not (a.agent_id == id)) db.approvals;
  },
)

-- what follows a cancellation that did not fail
abbrev pub then_do :
    {A : Type 0}
    → (ServiceState → Result A × ServiceState)
    → Result (Unit {0}) × ServiceState
    → Result A × ServiceState
then_do f (err e, s) = (err e, s)
then_do f (ok u, s) = f s

abbrev pub archived_at : String → Result (Unit {0}) × ServiceState → Result String × ServiceState
archived_at path (err e, s) = (err e, s)
archived_at path (ok u, s) = (ok path, s)

abbrev pub drop_agent :
    Persist
    → Result String
    → (ServiceState → ServiceState)
    → String
    → ServiceState
    → Result String × ServiceState
drop_agent persist (err e) others id s = (err e, others s)
drop_agent persist (ok path) others id s =
    archived_at path (mutate_in persist (delete_mutation id) (others s))

-- the `try` and the `finally` of a lifecycle change
abbrev pub in_lifecycle :
    {A : Type 0}
    → String
    → (ServiceState → Result A × ServiceState)
    → ServiceState
    → Result A × ServiceState
in_lifecycle id f s = let (r, after) = f (enter_lifecycle id s) in (r, leave_lifecycle id after)

-- the guard of a change of the lifecycle, and what it lets through
abbrev pub lifecycle_free : String → ServiceState → Result (Unit {0})
lifecycle_free id s =
    get_agent id s.db >>= λ a. reject_if (includes s.lifecycle_mutations id) lifecycle_busy

abbrev pub guarded_by :
    {A : Type 0}
    → Result (Unit {0})
    → (ServiceState → Result A × ServiceState)
    → ServiceState
    → Result A × ServiceState
guarded_by (err e) f s = (err e, s)
guarded_by (ok u) f s = f s

-- `archive` is the outcome of moving the workspace away.
unfoldable pub delete_agent :
    AppConfig
    → Persist
    → Cancellation
    → Result String
    → (ServiceState → ServiceState)
    → String
    → Instant
    → ServiceState
    → Result String × ServiceState
delete_agent config persist c archive others id now s =
    guarded_by (lifecycle_free id s)
      (in_lifecycle id λ t.
        then_do (λ v. drop_agent persist archive others id v) (cancel_execution config c id now t))
      s

abbrev pub is_ready : AgentStatus → Bool
is_ready ready = true
is_ready _ = false

abbrev terminating : Failure
terminating = http 409 "This Agent is being terminated"

abbrev pub with_status : AgentStatus → Instant → Agent → Agent
with_status status now a = record a {
  status = status;
  last_error = if is_ready status then none else a.last_error;
  authority_blocked = if is_ready status then false else a.authority_blocked;
  updated_at = now;
}

unfoldable pub status_mutation :
    String → AgentStatus → Instant → ServiceState → Database → Result (Agent × Database)
status_mutation id status now s db = get_agent id db >>= λ a.
    reject_if (is_ready status && includes s.terminations_in_progress id) terminating
    >> (reject_if
          (is_ready status && (has_active_lifecycle a.status || includes s.lifecycle_mutations id))
          (http 409 "Stop the active run before starting this Agent")
        >> changed id (with_status status now) a db)

unfoldable pub set_status :
    Persist → String → AgentStatus → Instant → ServiceState → Result Agent × ServiceState
set_status persist id status now s = mutate_in persist (status_mutation id status now) s

-- what follows the change of the status: the barrier falls unless a termination began in between
unfoldable pub finish_start : String → Result Agent → ServiceState → Result Agent × ServiceState
finish_start id (err e) s = (err e, s)
finish_start id (ok a) s =
    if includes s.terminations_in_progress id
    then (err terminating, s)
    else (ok a, record s { termination_barriers = without_id id s.termination_barriers })

-- `onAgentStarted`, which forgets the strikes of the authorizer, is left to its own part.
unfoldable pub start_agent :
    Persist
    → (ServiceState → ServiceState)
    → (ServiceState → ServiceState)
    → String
    → Instant
    → ServiceState
    → Result Agent × ServiceState
start_agent persist before after id now s =
    if includes s.terminations_in_progress id
    then (err terminating, s)
    else (let (r, t) = set_status persist id ready now (before s) in finish_start id r (after t))

unfoldable pub stop_agent :
    AppConfig
    → Persist
    → Cancellation
    → String
    → Instant
    → ServiceState
    → Result Agent × ServiceState
stop_agent config persist c id now s =
    guarded_by (lifecycle_free id s)
      (in_lifecycle id λ t.
        then_do (λ v. set_status persist id stopped now v) (cancel_execution config c id now t))
      s

abbrev pub quarantined : String → Instant → Agent → Agent
quarantined reason now a = record a { status = stopped; last_error = some reason; updated_at = now }

unfoldable pub quarantine_mutation :
    String → String → Instant → ServiceState → Database → Result (Unit {0} × Database)
quarantine_mutation id reason now s db = ok (tt, put_agent id (quarantined reason now) db)

abbrev pub quarantine_body :
    AppConfig
    → Persist
    → Cancellation
    → String
    → String
    → Instant
    → ServiceState
    → Result (Unit {0}) × ServiceState
quarantine_body config persist c id reason now s =
    then_do (λ v. mutate_in persist (quarantine_mutation id reason now) v)
      (cancel_execution config c id now s)

-- A quarantine inside a change of the lifecycle leaves the mark to that change.
unfoldable pub quarantine_agent :
    AppConfig
    → Persist
    → Cancellation
    → String
    → String
    → Instant
    → ServiceState
    → Result (Unit {0}) × ServiceState
quarantine_agent config persist c id reason now s =
    if includes s.lifecycle_mutations id
    then quarantine_body config persist c id reason now s
    else in_lifecycle id (λ t. quarantine_body config persist c id reason now t) s
