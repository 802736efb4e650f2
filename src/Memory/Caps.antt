-- ===== src/Memory/Caps.antt =====
-- What holds of the stored memories, whatever operations of the service run in whatever order.
use tik_tok_tech_jam.Base.{
  ℕ, ◌+◌, ◌≤◌, ◌==◌, ◌≡◌, ◌↔◌, refl, subst, ap, inl, inr, String, true, false, Option, none, some,
  List, [], ◌∷◌, ◌++◌, filter, length, arith, eq_iff, opt_eq, if◌then◌else◌, Bool-cases, All,
  Pointwise, Pointwise-map,
}
use tik_tok_tech_jam.Types.{
  Instant, MemoryEntry, MemorySourceType, operator, agent_output, tool_result, web_content, trusted,
  Database,
}
use tik_tok_tech_jam.Errors.{ok}
use tik_tok_tech_jam.Store.{Persist}
use tik_tok_tech_jam.Store.Laws.{mutate-keeps}
use tik_tok_tech_jam.Memory.{memory_max_per_run, RememberInput, trust_for, from_run}
use tik_tok_tech_jam.Memory.Remember.{new_entry, at_cap, admit, remember}
use tik_tok_tech_jam.Memory.Quarantine.{
  stamp, stamp_new, quarantine_in, quarantine_step, quarantine, is_open_for, close_all,
  quarantine_all_for,
}

unfoldable pub from_count : String → List MemoryEntry → ℕ
from_count run_id memories = length (filter (from_run run_id) memories)

abbrev pub IsLabelled : MemoryEntry → Type 0
IsLabelled e = (e.trust ≡ trusted) ↔ (e.provenance.source_type ≡ operator)

trust_for_iff : (s : MemorySourceType) → (trust_for s ≡ trusted) ↔ (s ≡ operator)
unfolding trust_for
trust_for_iff operator = (λ h. refl, λ h. refl)
trust_for_iff agent_output = (λ h. cc, λ h. cc)
trust_for_iff tool_result = (λ h. cc, λ h. cc)
trust_for_iff web_content = (λ h. cc, λ h. cc)

-- No run has stored more memories than the cap, and a memory is trusted exactly when an operator wrote it.
pub record IsSound (memories : List MemoryEntry) : Type 0 where
  pub capped : (run_id : String) → from_count run_id memories ≤ memory_max_per_run
  pub labelled : All IsLabelled memories

from_count-snoc :
    (run_id : String) (es : List MemoryEntry) (e : MemoryEntry)
    → from_count run_id (es ++ e ∷ []) ≡ from_count run_id es + (if from_run run_id e then 1 else 0)
unfolding from_count
from_count-snoc run_id [] e = ground arith
from_count-snoc run_id (x ∷ es) e = ground (arith, from_count-snoc run_id es e)

IsLabelled-snoc :
    (es : List MemoryEntry) (e : MemoryEntry)
    → All IsLabelled es
    → IsLabelled e
    → All IsLabelled (es ++ e ∷ [])
IsLabelled-snoc [] e h k = (k, tt)
IsLabelled-snoc (x ∷ es) e h k = (h.0, IsLabelled-snoc es e h.1 k)

from_run-other :
    (o : Option String) (run_id : String) (es : List MemoryEntry)
    → at_cap o es ≡ false
    → opt_eq o (some run_id) ≡ true
    → from_count run_id es ≤ 4
unfolding from_count
from_run-other none run_id es h e = cc
from_run-other (some r) run_id es h e = rw (← (eq_iff r run_id).0 e) (ground arith)

snoc-IsSound :
    (es : List MemoryEntry) (e : MemoryEntry)
    → IsSound es
    → at_cap e.provenance.run_id es ≡ false
    → IsLabelled e
    → IsSound (es ++ e ∷ [])
snoc-IsSound es e w h k = record {
  capped = λ run_id. rw (from_count-snoc run_id es e) (elim (Bool-cases (from_run run_id e)) [
    | inl t ↦ rw t (omega (arith, from_run-other e.provenance.run_id run_id es h t))
    | inr f ↦ rw f (omega (arith, w.capped run_id))
  ]);
  labelled = IsLabelled-snoc es e w.labelled k;
}

-- one memory before and after a change that keeps its origin and its trust
record SameOrigin (e d : MemoryEntry) : Type 0 where
  origin : d.provenance ≡ e.provenance
  trust : d.trust ≡ e.trust

changed-IsSound : (es ds : List MemoryEntry) → Pointwise SameOrigin es ds → IsSound es → IsSound ds
unfolding from_count
changed-IsSound es ds k w = record {
  capped = λ r. rw (counts es ds k r) (w.capped r);
  labelled = labels es ds k w.labelled;
}
  where
    counts :
        (es ds : List MemoryEntry)
        → Pointwise SameOrigin es ds
        → (r : String) → length (filter (from_run r) ds) ≡ length (filter (from_run r) es)
    counts [] [] k r = refl
    counts [] (d ∷ ds) k r = absurd k
    counts (e ∷ es) [] k r = absurd k
    counts (e ∷ es) (d ∷ ds) k r =
        let o : from_run r d ≡ from_run r e = ap (λ p. opt_eq p.run_id (some r)) k.0.origin in
        rw o (ground (arith, counts es ds k.1 r))

    labels :
        (es ds : List MemoryEntry)
        → Pointwise SameOrigin es ds
        → All IsLabelled es
        → All IsLabelled ds
    labels [] [] k h = tt
    labels [] (d ∷ ds) k h = absurd k
    labels (e ∷ es) [] k h = absurd k
    labels (e ∷ es) (d ∷ ds) k h = (rw (k.0.trust, k.0.origin) h.0, labels es ds k.1 h.1)

same : (e : MemoryEntry) → SameOrigin e e
same e = record { origin = refl; trust = refl }

all_same : (es : List MemoryEntry) → Pointwise SameOrigin es es
all_same [] = tt
all_same (e ∷ es) = (same e, all_same es)

stamp_new-same : (now : Instant) (by : String) (e : MemoryEntry) → SameOrigin e (stamp_new now by e)
stamp_new-same now by e = record { origin = ground arith; trust = ground arith }

quarantine_in-same :
    (id by : String) (now : Instant) (es : List MemoryEntry)
    → Pointwise SameOrigin es (quarantine_in id by now es).1
unfolding quarantine_in
quarantine_in-same id by now [] = tt
quarantine_in-same id by now (e ∷ es) = elim (Bool-cases (e.id == id)) [
  | inl t ↦ rw t (stamp_new-same now by e, all_same es)
  | inr f ↦ rw f (same e, quarantine_in-same id by now es)
]

pub close_all-IsSound :
    (agent_id by : String) (now : Instant) (es : List MemoryEntry)
    → IsSound es
    → IsSound (close_all agent_id by now es).1
unfolding close_all
close_all-IsSound agent_id by now es = changed-IsSound es _ (
    Pointwise-map SameOrigin (λ e. if is_open_for agent_id e then stamp now by e else e) es
      (λ e m. record { origin = ground arith; trust = ground arith }))

module _ (byte_length : String → ℕ) (cut : ℕ → String → String) (persist : Persist) where
  -- one operation of the service on the store
  pub data MemoryStep : Database → Database → Type 0 where
    remembers :
        (input : RememberInput) (id : String) (now : Instant) (db : Database)
        → MemoryStep db (remember byte_length cut persist input id now db).1
    quarantines :
        (id by : String) (now : Instant) (db : Database)
        → MemoryStep db (quarantine persist id by now db).1
    closes :
        (agent_id by : String) (now : Instant) (db : Database)
        → MemoryStep db (quarantine_all_for persist agent_id by now db).1

  pub data MemorySteps : Database → Database → Type 0 where
    done : (db : Database) → MemorySteps db db
    after : (a b c : Database) → MemorySteps a b → MemoryStep b c → MemorySteps a c

  SoundDb : Database → Type 0
  SoundDb db = IsSound db.memories

  admitted-IsSound :
      (e : MemoryEntry) (db : Database) (a : Option MemoryEntry) (next : Database)
      → IsLabelled e
      → IsSound db.memories
      → admit e db ≡ ok (a, next)
      → IsSound next.memories
  unfolding admit SoundDb
  admitted-IsSound e db a next k w h = elim (Bool-cases (at_cap e.provenance.run_id db.memories)) [
    | inl t ↦ let q : db ≡ next = ground arith in subst SoundDb q w
    | inr f ↦
        let q : record db { memories = db.memories ++ e ∷ [] } ≡ next = ground arith in
        subst SoundDb q (snoc-IsSound db.memories e w f k)
  ]

  step-IsSound : (a b : Database) → MemoryStep a b → IsSound a.memories → IsSound b.memories
  unfolding SoundDb remember quarantine quarantine_all_for new_entry
  step-IsSound _ _ (remembers input id now db) w =
      mutate-keeps SoundDb persist (admit (new_entry byte_length cut input id now)) db w
        (λ a next h.
          admitted-IsSound (new_entry byte_length cut input id now) db a next
            (trust_for_iff input.source_type) w h)
  step-IsSound _ _ (quarantines id by now db) w =
      mutate-keeps SoundDb persist (quarantine_step id by now) db w (λ a next h.
        let q : record db { memories = (quarantine_in id by now db.memories).1 } ≡ next =
          ground arith in
        subst SoundDb q
          (changed-IsSound db.memories _ (quarantine_in-same id by now db.memories) w))
  step-IsSound _ _ (closes agent_id by now db) w = mutate-keeps SoundDb persist _ db w (λ a next h.
      let q : record db { memories = (close_all agent_id by now db.memories).1 } ≡ next =
        ground arith in
      subst SoundDb q (close_all-IsSound agent_id by now db.memories w))

  -- Whatever operations of the memory service run from a store whose memories are sound, in whatever order
  -- and with whatever failures of the disk: no run has more than five memories in the store, and every
  -- memory is trusted exactly when its source is an operator.
  pub MemorySteps-IsSound :
      (a b : Database) → MemorySteps a b → IsSound a.memories → IsSound b.memories
  MemorySteps-IsSound _ _ (done a) w = w
  MemorySteps-IsSound _ _ (after a b c r s) w = step-IsSound b c s (MemorySteps-IsSound a b r w)
