-- ===== src/Examples/Memories.antt =====
-- Runs of the theorems on memories.
use tik_tok_tech_jam.Base.{
  ℕ, ◌≤◌, String, ◌≡◌, ◌≢◌, refl, ap, ◌==◌, inl, none, some, [], ◌∷◌, In, length, arith, filter,
}
use tik_tok_tech_jam.Types.{MemoryEntry, web_content, Database}
use tik_tok_tech_jam.Errors.{ok}
use tik_tok_tech_jam.Memory.{RememberInput, Note, from_run, trust_for}
use tik_tok_tech_jam.Memory.Remember.{remember}
use tik_tok_tech_jam.Memory.Recall.{recall}
use tik_tok_tech_jam.Memory.Recall.Newest.{IsRecallable, recall-IsRecallable}
use tik_tok_tech_jam.Memory.Caps.{from_count, IsSound, remembers, done, after, MemorySteps-IsSound}
use tik_tok_tech_jam.Memory.Quarantine.{quarantine, quarantine_all_for}
use tik_tok_tech_jam.Memory.Quarantine.Stamps.{quarantine_all_for-closes}
use tik_tok_tech_jam.Examples.{written, mine, theirs, sample}

-- stand-ins for node's buffers
abbrev one_byte : String → ℕ
one_byte s = 1

abbrev whole : ℕ → String → String
whole n s = s

abbrev page : RememberInput
page = record {
  agent_id = "a1";
  content = "the page says hello";
  source_type = web_content;
  source_detail = "page";
  run_id = some "r1";
  ttl_minutes = none;
}

sample-IsSound : IsSound sample.memories
unfolding from_count trust_for
sample-IsSound = record {
  capped = λ r. few r;
  labelled = ((λ h. cc, λ h. cc), ((λ h. cc, λ h. cc), tt));
}
  where
    few : (r : String) → length (filter (from_run r) (mine ∷ theirs ∷ [])) ≤ 5
    few r = ground arith

MemorySteps-IsSound_example :
    IsSound (remember one_byte whole written page "m3" 70 sample).1.memories
MemorySteps-IsSound_example =
    MemorySteps-IsSound one_byte whole written sample
      (remember one_byte whole written page "m3" 70 sample).1
      (after sample sample (remember one_byte whole written page "m3" 70 sample).1 (done sample)
        (remembers page "m3" 70 sample))
      sample-IsSound

mine_recalled : In mine (recall one_byte "a1" 80 sample).0.entries
unfolding recall
mine_recalled = inl refl

recall-IsRecallable_example :
    (length (recall one_byte "a1" 80 sample).0.entries ≤ 10)
    × IsRecallable sample.memories "a1" 80 mine
recall-IsRecallable_example = recall-IsRecallable one_byte "a1" 80 sample mine mine_recalled

abbrev mine_pulled : MemoryEntry
mine_pulled = record mine { quarantined_at = some 90; quarantined_by = some "user-a" }

abbrev pulled : Database
pulled = record sample { memories = mine_pulled ∷ theirs ∷ [] }

mine_closed : quarantine_all_for written "a1" "user-a" 90 sample ≡ (ok ("m1" ∷ []), pulled)
unfolding quarantine_all_for tik_tok_tech_jam.Store.mutate
    tik_tok_tech_jam.Memory.Quarantine.close_all
mine_closed = refl

others_agent : theirs.agent_id ≢ "a1"
others_agent e = cc (ap (λ s. s == "a1") e)

quarantine_all_for-closes_example :
    ((recall one_byte "a1" 99 pulled).0.entries ≡ [])
    × ((other : MemoryEntry)
        → other.agent_id ≢ "a1"
        → In other sample.memories
        → In other pulled.memories)
quarantine_all_for-closes_example =
    quarantine_all_for-closes written "a1" "user-a" 90 sample ("m1" ∷ []) pulled mine_closed
      one_byte 99
