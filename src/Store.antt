-- ===== src/Store.antt =====
-- apps/server/src/store.ts: the queued mutations of the store and the latest run of an agent.
-- A snapshot is the database itself, since values are not shared.
pub mod Laws
pub mod Queue
use tik_tok_tech_jam.Base.{String, ◌==◌, Option, none, some, List, [], ◌∷◌, ltb, if◌then◌else◌}
use tik_tok_tech_jam.Types.{Instant, human, Principal, MockResource, AgentRun, Database}
use tik_tok_tech_jam.Errors.{Failure, Result, ok, err}

-- 2026-08-30T00:00:00.000Z
abbrev seeded_at : Instant
seeded_at = 1788048000000

abbrev pub seed_humans : List Principal
seed_humans =
    record { id = "user-a"; kind = human; name = "User A"; created_at = seeded_at }
    ∷ record { id = "user-b"; kind = human; name = "User B"; created_at = seeded_at }
    ∷ []

abbrev pub seed_resources : List MockResource
seed_resources =
    record {
      id = "res-a";
      owner_id = "user-a";
      name = "User A customer list";
      content = "alpha,beta,gamma";
    }
    ∷ record {
      id = "res-b";
      owner_id = "user-b";
      name = "User B payroll";
      content = "confidential-b";
    }
    ∷ []

abbrev pub empty_database : Database
empty_database = record {
  agents = [];
  sessions = [];
  messages = [];
  runs = [];
  run_events = [];
  approvals = [];
  principals = seed_humans;
  grants = [];
  resources = seed_resources;
  memories = [];
}

-- the run kept by one turn of the loop
abbrev newer : Option AgentRun → AgentRun → Option AgentRun
newer none run = some run
newer (some latest) run = if ltb latest.created_at run.created_at then some run else some latest

abbrev latest_from : String → Option AgentRun → List AgentRun → Option AgentRun
latest_from agent_id latest [] = latest
latest_from agent_id latest (run ∷ runs) =
    latest_from agent_id (if run.agent_id == agent_id then newer latest run else latest) runs

unfoldable pub latest_run_for : List AgentRun → String → Option AgentRun
latest_run_for runs agent_id = latest_from agent_id none runs

-- what `persist` throws, given what the file system does with the written database
abbrev pub Persist : Type 0
Persist = Database → Option Failure

-- One queued mutation: it works on a copy, and the copy replaces the data only once it is on disk.
unfoldable pub mutate :
    {A : Type 0} → Persist → (Database → Result (A × Database)) → Database → Result A × Database
mutate persist mutation db = elim (mutation db) [
  | err e ↦ (err e, db)
  | ok (a, next) ↦ elim (persist next) [ some e ↦ (err e, db) | none ↦ (ok a, next) ]
]
