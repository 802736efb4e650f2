-- ===== src/Memory/Remember.antt =====
-- apps/server/src/memory.ts: `truncate` and `remember`.

use tik_tok_tech_jam.Base.{
  ℕ, suc, String, Bool, true, false, Option, none, some, List, [], ◌∷◌, ◌++◌, filter, length, leb,
  decimal, template, if◌then◌else◌,
}
use tik_tok_tech_jam.Types.{Instant, MemoryEntry, Database}
use tik_tok_tech_jam.Errors.{Result, ok, err}
use tik_tok_tech_jam.Store.{Persist, mutate}
use tik_tok_tech_jam.Memory.{
  memory_max_per_run, memory_max_content_bytes, Note, RememberInput, trust_for, source_text,
  trust_text, expiry_of, note_of, note, from_run,
}

abbrev pub at_cap : Option String → List MemoryEntry → Bool
at_cap none memories = false
at_cap (some run_id) memories = leb memory_max_per_run (length (filter (from_run run_id) memories))

-- the mutation of `remember`
unfoldable pub admit : MemoryEntry → Database → Result (Option MemoryEntry × Database)
admit entry db =
    if at_cap entry.provenance.run_id db.memories
    then ok (none, db)
    else ok (some entry, record db { memories = db.memories ++ entry ∷ [] })

cap_reason : String
cap_reason = template (
    "Refused a "
    ∷ decimal (suc memory_max_per_run)
    ∷ "th memory from one run; a single run cannot flood the store."
    ∷ [])

recorded_reason : MemoryEntry → String
unfolding source_text trust_text
recorded_reason entry = template (
    "Recorded a "
    ∷ trust_text entry.trust
    ∷ " memory from "
    ∷ source_text entry.provenance.source_type
    ∷ " ("
    ∷ entry.provenance.source_detail
    ∷ ")."
    ∷ [])

remembered : String → Option MemoryEntry → Database → Note
unfolding cap_reason recorded_reason note
remembered agent_id none db = note db agent_id (note_of false "MEM-PROVENANCE-040" cap_reason)
remembered agent_id (some entry) db =
    note db agent_id (note_of true "MEM-PROVENANCE-040" (recorded_reason entry))

-- A buffer's length and its cut to whole characters are node's.
module _ (byte_length : String → ℕ) (cut : ℕ → String → String) where
  unfoldable pub truncate : String → String
  truncate content =
      if leb (byte_length content) memory_max_content_bytes
      then content
      else template (cut memory_max_content_bytes content ∷ "…[truncated]" ∷ [])

  unfoldable pub new_entry : RememberInput → String → Instant → MemoryEntry
  unfolding truncate trust_for
  new_entry input id now = record {
    id = id;
    agent_id = input.agent_id;
    content = truncate input.content;
    provenance = record {
      run_id = input.run_id;
      source_type = input.source_type;
      source_detail = input.source_detail;
    };
    trust = trust_for input.source_type;
    created_at = now;
    expires_at = expiry_of input.ttl_minutes now;
    quarantined_at = none;
    quarantined_by = none;
  }

  -- The entry, or `none` past the cap; and the note.
  unfoldable pub remember :
      Persist
      → RememberInput
      → String
      → Instant
      → Database
      → Result (Option MemoryEntry × Note) × Database
  unfolding new_entry remembered
  remember persist input id now db =
      let (stored, after) = mutate persist (admit (new_entry input id now)) db in
      (
        elim stored [
          | err e ↦ err e
          | ok entry ↦ ok (entry, remembered input.agent_id entry after)
        ],
        after,
      )
