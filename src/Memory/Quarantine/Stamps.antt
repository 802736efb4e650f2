-- ===== src/Memory/Quarantine/Stamps.antt =====
-- The first stamp of a quarantine stands, and closing an agent's memory closes all of it.
use tik_tok_tech_jam.Base.{
  ℕ, ◌==◌, ◌≡◌, ◌≢◌, refl, sym, subst, ap, ◌∙◌, inl, inr, String, true, false, Option, List, [],
  ◌∷◌, arith, eq_iff, eq_refl, if◌then◌else◌, Bool-cases, In, In-map, In-map_inv,
}
use tik_tok_tech_jam.Types.{Instant, MemoryEntry, Database}
use tik_tok_tech_jam.Errors.{ok, err}
use tik_tok_tech_jam.Store.{Persist, mutate}
use tik_tok_tech_jam.Store.Laws.{mutate_atomic}
use tik_tok_tech_jam.Memory.{Note}
use tik_tok_tech_jam.Memory.Recall.{recall}
use tik_tok_tech_jam.Memory.Recall.Newest.{recall-IsRecallable}
use tik_tok_tech_jam.Memory.Quarantine.{
  stamp, stamp_new, quarantine_in, quarantine_step, quarantine, is_open_for, close_all, close_step,
  quarantine_all_for,
}

stamp_new-again :
    (n1 n2 : Instant) (b1 b2 : String) (e : MemoryEntry)
    → stamp_new n2 b2 (stamp_new n1 b1 e) ≡ stamp_new n1 b1 e
stamp_new-again n1 n2 b1 b2 e = ground arith

quarantine_in-again :
    (id b1 b2 : String) (n1 n2 : Instant) (es : List MemoryEntry)
    → (quarantine_in id b2 n2 (quarantine_in id b1 n1 es).1).1 ≡ (quarantine_in id b1 n1 es).1
unfolding quarantine_in
quarantine_in-again id b1 b2 n1 n2 [] = refl
quarantine_in-again id b1 b2 n1 n2 (e ∷ es) = elim (Bool-cases (e.id == id)) [
  | inl t ↦
      let k : ((stamp_new n1 b1 e).id == id) ≡ true = ground arith in
      rw t (rw k (ap (λ x. x ∷ es) (stamp_new-again n1 n2 b1 b2 e)))
  | inr f ↦ rw f (rw f (ap (λ xs. e ∷ xs) (quarantine_in-again id b1 b2 n1 n2 es)))
]

quarantine-stored :
    (persist : Persist) (id by : String) (now : Instant) (db : Database)
    (r : Option MemoryEntry × List Note) (after : Database)
    → quarantine persist id by now db ≡ (ok r, after)
    → after ≡ record db { memories = (quarantine_in id by now db.memories).1 }
unfolding quarantine mutate
quarantine-stored persist id by now db r after h =
    elim (mutate_atomic persist (quarantine_step id by now) db) [
      | inl (e, f, k) ↦ cc (let z = ap (λ x. x.0) h in let y : err e ≡ ok r = rw f at z in y)
      | inr (a, next, f, p, k) ↦
          let q : record db { memories = (quarantine_in id by now db.memories).1 } ≡ next =
            ground arith in
          sym (ap (λ x. x.1) h) ∙ (ap (λ x. x.1) k ∙ sym q)
    ]

-- The operator's first quarantine of a memory stands: a second call changes nothing in the store, whoever
-- makes it and whenever, and whether or not it reaches the disk.
pub quarantine-again :
    (persist : Persist) (id b1 b2 : String) (n1 n2 : Instant) (db : Database)
    (r : Option MemoryEntry × List Note) (after : Database)
    → quarantine persist id b1 n1 db ≡ (ok r, after)
    → (quarantine persist id b2 n2 after).1 ≡ after
unfolding quarantine
quarantine-again persist id b1 b2 n1 n2 db r after h =
    let s = quarantine-stored persist id b1 n1 db r after h in
    elim (mutate_atomic persist (quarantine_step id b2 n2) after) [
      | inl (e, f, k) ↦ k
      | inr (a, next, f, p, k) ↦
          let q : record after { memories = (quarantine_in id b2 n2 after.memories).1 } ≡ next =
            ground arith in
          ap (λ x. x.1) k ∙ (sym q ∙ again s)
    ]
  where
    again :
        after ≡ record db { memories = (quarantine_in id b1 n1 db.memories).1 }
        → record after { memories = (quarantine_in id b2 n2 after.memories).1 } ≡ after
    again s =
        subst (λ d. record d { memories = (quarantine_in id b2 n2 d.memories).1 } ≡ d) (sym s)
          (ap (λ m. record db { memories = m }) (quarantine_in-again id b1 b2 n1 n2 db.memories))

quarantine_all_for-stored :
    (persist : Persist) (agent_id by : String) (now : Instant) (db : Database) (ids : List String)
    (after : Database)
    → quarantine_all_for persist agent_id by now db ≡ (ok ids, after)
    → record db { memories = (close_all agent_id by now db.memories).1 } ≡ after
unfolding quarantine_all_for
quarantine_all_for-stored persist agent_id by now db ids after h =
    elim (mutate_atomic persist (close_step agent_id by now) db) [
      | inl (e, f, k) ↦ cc (sym f ∙ ap (λ x. x.0) h)
      | inr (a, next, f, p, k) ↦
          let q : record db { memories = (close_all agent_id by now db.memories).1 } ≡ next =
            ground arith in
          q ∙ (sym (ap (λ x. x.1) k) ∙ ap (λ x. x.1) h)
    ]

close_all-open :
    (agent_id by : String) (now : Instant) (es : List MemoryEntry) (e : MemoryEntry)
    → In e (close_all agent_id by now es).1
    → is_open_for agent_id e ≡ false
unfolding close_all
close_all-open agent_id by now es e m =
    let (d, i, q) = In-map_inv (λ e. if is_open_for agent_id e then stamp now by e else e) es e m in
    rw q (ground arith)

close_all-others :
    (agent_id by : String) (now : Instant) (es : List MemoryEntry) (e : MemoryEntry)
    → e.agent_id ≢ agent_id
    → In e es
    → In e (close_all agent_id by now es).1
unfolding close_all
close_all-others agent_id by now es e h m =
    let q : (if is_open_for agent_id e then stamp now by e else e) ≡ e =
      ground (arith, eq_iff e.agent_id agent_id, h) in
    subst (λ d. In d (close_all agent_id by now es).1) q
      (In-map (λ e. if is_open_for agent_id e then stamp now by e else e) es e m)

nothing-In : (es : List MemoryEntry) → ((e : MemoryEntry) → In e es → ⊥) → es ≡ []
nothing-In [] h = refl
nothing-In (e ∷ es) h = absurd (h e (inl refl))

close_all-empties :
    (byte_length : String → ℕ) (later : Instant) (agent_id by : String) (now : Instant)
    (db : Database)
    → (recall byte_length agent_id later
        (record db { memories = (close_all agent_id by now db.memories).1 })).0.entries
      ≡ []
close_all-empties bl later agent_id by now db = nothing-In _ λ e m.
    let w =
      (recall-IsRecallable bl agent_id later
        (record db { memories = (close_all agent_id by now db.memories).1 }) e m).1 in
    cc (
      let f = close_all-open agent_id by now db.memories e w.stored in
      let t : is_open_for agent_id e ≡ true =
        rw (w.unstamped, w.owned) (ground (arith, eq_refl agent_id)) in
      sym t ∙ f)

-- Once an agent's memories are closed, a recall for it from the store that this leaves returns nothing, at any
-- time, and every memory of another agent is stored as before.
pub quarantine_all_for-closes :
    (persist : Persist) (agent_id by : String) (now : Instant) (db : Database) (ids : List String)
    (after : Database)
    → quarantine_all_for persist agent_id by now db ≡ (ok ids, after)
    → (byte_length : String → ℕ) (later : Instant)
    → ((recall byte_length agent_id later after).0.entries ≡ [])
      × ((other : MemoryEntry)
          → other.agent_id ≢ agent_id
          → In other db.memories
          → In other after.memories)
quarantine_all_for-closes persist agent_id by now db ids after h bl later =
    let q = quarantine_all_for-stored persist agent_id by now db ids after h in
    (
      subst (λ (d : Database). (recall bl agent_id later d).0.entries ≡ []) q
          (close_all-empties bl later agent_id by now db),
      λ other n m.
          subst (λ (d : Database). In other d.memories) q
            (close_all-others agent_id by now db.memories other n m),
    )
