-- ===== src/Service/Recollection.antt =====
-- apps/server/src/agent-service.ts: what a run meets outside, with `recordMemoryRecalled` and `captureMemories`.
use tik_tok_tech_jam.Base.{
  ℕ, String, ◌==◌, Bool, true, false, not, ◌||◌, Option, none, some, List, [], ◌∷◌, filter, length,
  ltb, if◌then◌else◌, template, take_text, decimal, split, trim,
}
use tik_tok_tech_jam.Types.{
  Instant, Agent, AgentRun, MemoryEntry, untrusted, trusted, agent_output, Database,
  memory_recalled, warning, info,
}
use tik_tok_tech_jam.Errors.{Failure, Result, ok, err}
use tik_tok_tech_jam.Store.{Persist}
use tik_tok_tech_jam.Policies.Budget.{Limits}
use tik_tok_tech_jam.Memory.{RecallResult, RememberInput}
use tik_tok_tech_jam.Memory.Remember.{remember}
use tik_tok_tech_jam.Service.{ServiceState, event, append_run_event, mutate_in}
use tik_tok_tech_jam.Service.Runs.{RunnerResult}

pub record RunnerRequest : Type 0 where
  pub agent_id : String
  pub session_id : Option String
  pub workspace_path : String
  pub prompt : String
  pub thread_id : Option String
  pub egress_proxy_url : Option String

-- What a run meets outside. `egress` is the proxy's address once its network stands, `none` without enforcement.
-- `runner` gives `none` for a request that it never answers. What the rest of the server does while the run waits is
-- in the functions on the state: for the memories that are recalled and captured, and before its last writes.
-- `memory` says whether there is a memory service; `found_memory` is what the pattern of a line finds.
pub record RunOutside : Type 0 where
  pub persist_start : Persist
  pub persist_recalled : Persist
  pub persist_memory : Persist
  pub persist_completed : Persist
  pub persist_failed : Persist
  pub preparing : ServiceState → ServiceState
  pub running : ServiceState → ServiceState
  pub egress : Option (Result String)
  pub memory : Bool
  pub found_memory : String → Option String
  pub byte_length : String → ℕ
  pub cut : ℕ → String → String
  pub recalled_json : RecallResult → String
  pub runner : RunnerRequest → Option (Result RunnerResult)
  pub recording : ServiceState → ServiceState
  pub capturing : ServiceState → ServiceState
  pub concluding : ServiceState → ServiceState
  pub failing : ServiceState → ServiceState
  pub violation : Option Failure
  pub limits : Limits
  pub elapsed_ms : ℕ
  pub event_id : String
  pub message_id : String
  pub memory_id : String → String
  pub now : Instant

abbrev is_untrusted : MemoryEntry → Bool
is_untrusted entry = elim entry.trust [ trusted ↦ false | untrusted ↦ true ]

unfoldable pub record_memory_recalled :
    RunOutside → AgentRun → Agent → RecallResult → ServiceState → Result (Unit {0}) × ServiceState
record_memory_recalled out run a recalled s =
    mutate_in out.persist_recalled
      (λ x db. ok (
        tt,
        append_run_event
            (event out.event_id run.id a.id memory_recalled
              (if ltb 0 (length (filter is_untrusted recalled.entries)) then warning else info)
              (template (
                "Recalled "
                ∷ decimal (length recalled.entries)
                ∷ " memory/memories ("
                ∷ decimal recalled.bytes_injected
                ∷ " bytes)"
                ∷ []))
              (out.recalled_json recalled) out.now)
            db,
      ))
      s

abbrev memory_of : AgentRun → Agent → String → RememberInput
memory_of run a content = record {
  agent_id = a.id;
  content = trim content;
  source_type = agent_output;
  source_detail = template ("run " ∷ take_text 8 run.id ∷ []);
  run_id = some run.id;
  ttl_minutes = none;
}

abbrev done : {A : Type 0} → Result A × Database → ServiceState → Result (Unit {0}) × ServiceState
done (err e, db) s = (err e, record s { db = db })
done (ok a, db) s = (ok tt, record s { db = db })

abbrev capture_line :
    RunOutside → AgentRun → Agent → Option String → ServiceState → Result (Unit {0}) × ServiceState
capture_line out run a none s = (ok tt, s)
capture_line out run a (some content) s =
    let (r, after) =
      done
        (remember out.byte_length out.cut out.persist_memory (memory_of run a content)
          (out.memory_id content) out.now s.db)
        s in
    (r, out.capturing after)

abbrev pub and_then :
    (ServiceState → Result (Unit {0}) × ServiceState)
    → Result (Unit {0}) × ServiceState
    → Result (Unit {0}) × ServiceState
and_then k (err e, s) = (err e, s)
and_then k (ok u, s) = k s

capture_lines :
    RunOutside → AgentRun → Agent → List String → ServiceState → Result (Unit {0}) × ServiceState
capture_lines out run a [] s = (ok tt, s)
capture_lines out run a (line ∷ lines) s =
    and_then (λ t. capture_lines out run a lines t)
      (capture_line out run a (out.found_memory line) s)

unfoldable pub capture_memories :
    RunOutside → AgentRun → Agent → String → ServiceState → Result (Unit {0}) × ServiceState
unfolding capture_lines
capture_memories out run a output s =
    if not out.memory || output == ""
    then (ok tt, s)
    else capture_lines out run a (split "\n" output) s
