-- ===== src/Memory.antt =====
-- apps/server/src/memory.ts: memory with provenance. Each operation is its queued mutation, the failure of
-- `persist` included, and returns the decision it hands to `recordDecision`, when one is given, as a note
-- on the run that the decision is recorded under. A recording that throws is not modelled.
pub mod Remember
pub mod Recall
pub mod Quarantine
pub mod Caps
use Prim.Native.String.{slice}
use tik_tok_tech_jam.Base.{
  ℕ, suc, ◌+◌, ◌*◌, ◌==◌, ◌≡◌, String, Bool, true, false, not, ◌&&◌, ◌||◌, Option, none, some, List,
  [], ◌∷◌, ◌++◌, map, find, filter, take, length, ltb, leb, nat_eq, decimal, template,
  if◌then◌else◌, is_none, is_some, opt_eq,
}
use tik_tok_tech_jam.Types.{
  Instant, MemorySourceType, operator, agent_output, tool_result, web_content, MemoryTrust, trusted,
  untrusted, Provenance, MemoryEntry, PolicyDecision, Database,
}
use tik_tok_tech_jam.Errors.{Failure, Result, ok, err}
use tik_tok_tech_jam.Store.{latest_run_for, Persist, mutate}

abbrev pub memory_max_per_run : ℕ
memory_max_per_run = 5

abbrev pub memory_max_content_bytes : ℕ
memory_max_content_bytes = 1000

abbrev pub memory_recall_limit : ℕ
memory_recall_limit = 10

-- a decision for the timeline: the run, the agent and the decision
pub record Note : Type 0 where
  pub run_id : String
  pub agent_id : String
  pub decision : PolicyDecision

pub record RecallResult : Type 0 where
  pub entries : List MemoryEntry
  pub prompt_block : String
  pub bytes_injected : ℕ

pub record RememberInput : Type 0 where
  pub agent_id : String
  pub content : String
  pub source_type : MemorySourceType
  pub source_detail : String
  pub run_id : Option String
  pub ttl_minutes : Option ℕ

unfoldable pub trust_for : MemorySourceType → MemoryTrust
trust_for operator = trusted
trust_for _ = untrusted

unfoldable pub source_text : MemorySourceType → String
source_text operator = "operator"
source_text agent_output = "agent-output"
source_text tool_result = "tool-result"
source_text web_content = "web-content"

unfoldable pub trust_text : MemoryTrust → String
trust_text trusted = "trusted"
trust_text untrusted = "untrusted"

unfoldable pub label : MemoryEntry → String
unfolding source_text trust_text
label entry = template (
    "[memory "
    ∷ slice entry.id 0 8
    ∷ " | source: "
    ∷ source_text entry.provenance.source_type
    ∷ " | trust: "
    ∷ trust_text entry.trust
    ∷ "]"
    ∷ [])

-- a ttl of 0 is none: the source tests it as a truth value
abbrev pub expiry_of : Option ℕ → Instant → Option Instant
expiry_of none now = none
expiry_of (some minutes) now = if nat_eq minutes 0 then none else some (now + minutes * 60000)

abbrev pub note_of : Bool → String → String → PolicyDecision
note_of allowed rule_id reason = record {
  allowed = allowed;
  rule_id = rule_id;
  reason = reason;
  principal_id = none;
  grant_id = none;
}

-- `record`: the note goes under the agent's latest run
unfoldable pub note : Database → String → PolicyDecision → Note
note db agent_id decision = record {
  run_id = elim (latest_run_for db.runs agent_id) [
    | none ↦ template ("memory-" ∷ agent_id ∷ [])
    | some run ↦ run.id
  ];
  agent_id = agent_id;
  decision = decision;
}

abbrev pub of_agent : String → MemoryEntry → Bool
of_agent agent_id entry = entry.agent_id == agent_id

abbrev pub from_run : String → MemoryEntry → Bool
from_run run_id entry = opt_eq entry.provenance.run_id (some run_id)

abbrev pub unquarantined : MemoryEntry → Bool
unquarantined entry = is_none entry.quarantined_at

abbrev pub has_passed : Option Instant → Instant → Bool
has_passed none now = false
has_passed (some at) now = leb at now
