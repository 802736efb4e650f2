-- ===== src/Terminator.antt =====
-- apps/server/src/terminator.ts, with what it calls of apps/server/src/agent-service.ts. What the runner,
-- the engine and the disk answer is given in advance; other work of the server runs where the terminator
-- waits, as any change of the world. A caught failure is its text.
pub mod Steps
pub mod Verify
pub mod Run
pub mod Listed
pub mod Clear
pub mod Contained
pub mod Issued
use tik_tok_tech_jam.Base.{
  ℕ, suc, ◌==◌, ◌≡◌, String, Bool, true, false, not, ◌&&◌, ◌||◌, Option, none, some, List, [], ◌∷◌,
  ◌++◌, map, all, filter, find, length, ltb, leb, nat_eq, decimal, includes, add, template,
  if◌then◌else◌, is_none, is_some,
}
use tik_tok_tech_jam.Types.{Instant, AgentStatus, stopped, Agent, Grant, MemoryEntry, Database}
use tik_tok_tech_jam.Errors.{Failure, http, thrown, Result, ok, err}
use tik_tok_tech_jam.Store.{Persist, mutate}

-- The service's state that a termination reads or changes: the database, the agents in the map of executions,
-- those that run by the runner's word (`isRunning`), and the two sets of `beginTermination`.
pub record World : Type 0 where
  pub db : Database
  pub executing : String → Bool
  pub running : String → Bool
  pub termination_barriers : List String
  pub terminations_in_progress : List String

pub data PauseResult : Type 0 where
  paused idle failed : PauseResult

pub data FreezeResult : Type 0 where
  was_paused was_idle was_blocked has_failed unsupported : FreezeResult

pub record Probe : Type 0 where
  pub blocked : Bool
  pub conclusive : Bool
  pub detail : String

-- What the outside answers; `none` where the runner or the server has no such part.
pub record Outside : Type 0 where
  pub pause : Option (Result PauseResult)
  pub drain : Option (Result (Option ℕ))
  pub cancel : Result (Unit {0})
  pub confirm_stopped : Result (Option Bool)
  pub probe : Option (Result Probe)
  pub persist_revoke : Persist
  pub persist_kill : Persist
  pub persist_receipt : Persist
  pub iso : Instant → String

abbrev pub agent_in : String → Database → Option Agent
agent_in agent_id db = find (λ a. a.id == agent_id) db.agents

unfoldable pub begin_termination : String → World → Result World
begin_termination agent_id w =
    if includes w.terminations_in_progress agent_id
    then err (http 409 "This Agent is already being terminated")
    else ok (record w {
      terminations_in_progress = add agent_id w.terminations_in_progress;
      termination_barriers = add agent_id w.termination_barriers;
    })

unfoldable pub end_termination : String → World → World
end_termination agent_id w = record w {
  terminations_in_progress = filter (λ id. not (id == agent_id)) w.terminations_in_progress;
}

abbrev freeze_result : PauseResult → FreezeResult
freeze_result paused = was_paused
freeze_result failed = has_failed
freeze_result idle = was_blocked

unfoldable pub freeze_live : Option (Result PauseResult) → Result FreezeResult
freeze_live none = ok unsupported
freeze_live (some (err e)) = err e
freeze_live (some (ok r)) = ok (freeze_result r)

unfoldable pub freeze_agent : Outside → String → World → Result FreezeResult × World
unfolding freeze_live
freeze_agent out agent_id w =
    if is_none (agent_in agent_id w.db) then (err (http 404 "Agent not found"), w) else (
      if w.executing agent_id then freeze_live out.pause else ok was_idle,
      record w { termination_barriers = add agent_id w.termination_barriers },
    )

-- the change of the first agent with the id
unfoldable pub update_agent : String → (Agent → Agent) → List Agent → List Agent
update_agent agent_id f [] = []
update_agent agent_id f (a ∷ as_) =
    let rest = update_agent agent_id f as_ in if a.id == agent_id then f a ∷ as_ else a ∷ rest

abbrev stop : String → Instant → Agent → Agent
stop reason now a = record a { status = stopped; last_error = some reason; updated_at = now }

abbrev pub stop_step : String → String → Instant → Database → Result (Unit {0} × Database)
stop_step agent_id reason now db =
    ok (tt, record db { agents = update_agent agent_id (stop reason now) db.agents })

unfoldable pub quarantined_world :
    Outside → Result (Unit {0}) → String → String → Instant → World → Result (Unit {0}) × World
unfolding update_agent
quarantined_world out (err e) agent_id reason now w = (err e, w)
quarantined_world out (ok u) agent_id reason now w =
    let (r, db) = mutate out.persist_kill (stop_step agent_id reason now) w.db in
    (r, record w { db = db })

-- `cancel` is the outcome of `cancelExecution`, whose changes of the world are part of the other work before
-- this step. The lifecycle mark, which is taken off again, is left out.
unfoldable pub quarantine_agent :
    Outside → String → String → Instant → World → Result (Unit {0}) × World
quarantine_agent out agent_id reason now w = quarantined_world out out.cancel agent_id reason now w
