-- ===== src/Memory/Quarantine.antt =====
-- apps/server/src/memory.ts: `quarantine` and `quarantineAllFor`.
pub mod Stamps
use Prim.Native.String.{slice}
use tik_tok_tech_jam.Base.{
  ℕ, suc, ◌+◌, ◌*◌, ◌==◌, ◌≡◌, String, Bool, true, false, not, ◌&&◌, ◌||◌, Option, none, some, List,
  [], ◌∷◌, ◌++◌, map, find, filter, take, length, ltb, leb, nat_eq, decimal, template,
  if◌then◌else◌, is_none, is_some, opt_eq,
}
use tik_tok_tech_jam.Types.{
  Instant, MemorySourceType, operator, agent_output, tool_result, web_content, MemoryTrust, trusted,
  untrusted, Provenance, MemoryEntry, PolicyDecision, Database,
}
use tik_tok_tech_jam.Errors.{Failure, Result, ok, err}
use tik_tok_tech_jam.Store.{latest_run_for, Persist, mutate}
use tik_tok_tech_jam.Memory.{
  memory_max_per_run, memory_max_content_bytes, memory_recall_limit, Note, RecallResult,
  RememberInput, trust_for, source_text, trust_text, label, expiry_of, note_of, note, of_agent,
  from_run, unquarantined, has_passed,
}

abbrev pub stamp : Instant → String → MemoryEntry → MemoryEntry
stamp now by entry = record entry { quarantined_at = some now; quarantined_by = some by }

abbrev pub stamp_new : Instant → String → MemoryEntry → MemoryEntry
stamp_new now by entry = if unquarantined entry then stamp now by entry else entry

-- `find` by id, and the change of the entry found in its place
unfoldable pub quarantine_in :
    String → String → Instant → List MemoryEntry → Option MemoryEntry × List MemoryEntry
quarantine_in id by now [] = (none, [])
quarantine_in id by now (e ∷ es) =
    let rest = quarantine_in id by now es in
    if e.id == id
    then (some (stamp_new now by e), stamp_new now by e ∷ es)
    else (rest.0, e ∷ rest.1)

abbrev pub quarantined_note : String → String → Option MemoryEntry → Database → List Note
quarantined_note id by none db = []
quarantined_note id by (some entry) db =
    note db entry.agent_id (
      note_of false "MEM-QUARANTINE-042" (
        template (
          "Memory "
          ∷ slice id 0 8
          ∷ " quarantined by "
          ∷ by
          ∷ "; it will not be recalled again."
          ∷ [])))
    ∷ []

abbrev pub quarantine_step :
    String → String → Instant → Database → Result (Option MemoryEntry × Database)
quarantine_step id by now db =
    let (found, memories) = quarantine_in id by now db.memories in
    ok (found, record db { memories = memories })

unfoldable pub quarantine :
    Persist
    → String
    → String
    → Instant
    → Database
    → Result (Option MemoryEntry × List Note) × Database
quarantine persist id by now db =
    let (stamped, after) = mutate persist (quarantine_step id by now) db in
    (
      elim stamped [ err e ↦ err e | ok entry ↦ ok (entry, quarantined_note id by entry after) ],
      after,
    )

abbrev pub is_open_for : String → MemoryEntry → Bool
is_open_for agent_id entry = of_agent agent_id entry && unquarantined entry

-- the loop over all memories, shared by `quarantineAllFor` and by the terminator
unfoldable pub close_all :
    String → String → Instant → List MemoryEntry → List String × List MemoryEntry
close_all agent_id by now memories = (
  map (λ e. e.id) (filter (is_open_for agent_id) memories),
  map (λ e. if is_open_for agent_id e then stamp now by e else e) memories,
)

abbrev pub close_step : String → String → Instant → Database → Result (List String × Database)
close_step agent_id by now db =
    let (ids, memories) = close_all agent_id by now db.memories in
    ok (ids, record db { memories = memories })

unfoldable pub quarantine_all_for :
    Persist → String → String → Instant → Database → Result (List String) × Database
quarantine_all_for persist agent_id by now = mutate persist (close_step agent_id by now)
