-- ===== src/Memory/Recall/Newest.antt =====
-- Which memories `recall` returns.
use tik_tok_tech_jam.Base.{
  ℕ, suc, zero, ◌≤◌, ◌≡◌, refl, ◌⊎◌, inl, inr, String, true, false, Option, none, some, List, [],
  ◌∷◌, filter, take, length, In, All, arith, eq_iff, ltb, is_none, filter_sound, filter_complete,
  In-take, length-take-le, Bool-cases,
}
use tik_tok_tech_jam.Types.{Instant, MemoryEntry, Database}
use tik_tok_tech_jam.Memory.{of_agent, has_passed}
use tik_tok_tech_jam.Memory.Recall.{place, newest_first, is_live, live_for, result_of, recall}

-- A stored memory of the agent, neither quarantined nor past its expiry.
pub record IsRecallable (memories : List MemoryEntry) (agent_id : String) (now : Instant)
    (e : MemoryEntry) : Type 0 where
  pub stored : In e memories
  pub owned : e.agent_id ≡ agent_id
  pub unstamped : e.quarantined_at ≡ none
  pub fresh : has_passed e.expires_at now ≡ false

is_none-eq : (o : Option Instant) → is_none o ≡ true → o ≡ none
is_none-eq none h = refl
is_none-eq (some a) h = cc

place-In : (e a : MemoryEntry) (es : List MemoryEntry) → In a (place e es) → (a ≡ e) ⊎ In a es
place-In e a [] m = m
place-In e a (x ∷ es) m = elim (Bool-cases (ltb e.created_at x.created_at)) [
  | inl t ↦ elim (let k : In a (x ∷ place e es) = rw t at m in k) [
    | inl q ↦ inr (inl q)
    | inr n ↦ elim (place-In e a es n) [ inl q ↦ inl q | inr q ↦ inr (inr q) ]
  ]
  | inr f ↦ let k : In a (e ∷ x ∷ es) = rw f at m in k
]

place_complete : (e a : MemoryEntry) (es : List MemoryEntry) → (a ≡ e) ⊎ In a es → In a (place e es)
place_complete e a [] m = m
place_complete e a (x ∷ es) m = elim (Bool-cases (ltb e.created_at x.created_at)) [
  | inr f ↦ rw f m
  | inl t ↦ rw t (elim m [
    | inl q ↦ inr (place_complete e a es (inl q))
    | inr (inl q) ↦ inl q
    | inr (inr q) ↦ inr (place_complete e a es (inr q))
  ])
]

-- each entry is no older than those after it
IsNewestFirst : List MemoryEntry → Type 0
IsNewestFirst [] = Unit
IsNewestFirst (e ∷ es) =
    ((x : MemoryEntry) → In x es → x.created_at ≤ e.created_at) × IsNewestFirst es

place-IsNewestFirst :
    (e : MemoryEntry) (es : List MemoryEntry) → IsNewestFirst es → IsNewestFirst (place e es)
unfolding IsNewestFirst
place-IsNewestFirst e [] h = (λ x m. absurd m, tt)
place-IsNewestFirst e (x ∷ es) h = elim (Bool-cases (ltb e.created_at x.created_at)) [
  | inl t ↦ rw t (
    λ a m. elim (place-In e a es m) [ inl q ↦ rw q (ground arith) | inr n ↦ h.0 a n ],
    place-IsNewestFirst e es h.1,
  )
  | inr f ↦
      rw f (λ a m. elim m [ inl q ↦ rw q (ground arith) | inr n ↦ ground (arith, h.0 a n) ], h)
]

newest_first-In :
    (es acc : List MemoryEntry) (a : MemoryEntry) → In a (newest_first acc es) → In a acc ⊎ In a es
unfolding newest_first
newest_first-In [] acc a m = inl m
newest_first-In (e ∷ es) acc a m = elim (newest_first-In es (place e acc) a m) [
  | inl k ↦ elim (place-In e a acc k) [ inl q ↦ inr (inl q) | inr q ↦ inl q ]
  | inr k ↦ inr (inr k)
]

newest_first_complete :
    (es acc : List MemoryEntry) (a : MemoryEntry) → In a acc ⊎ In a es → In a (newest_first acc es)
unfolding newest_first
newest_first_complete [] acc a (inl m) = m
newest_first_complete [] acc a (inr m) = absurd m
newest_first_complete (e ∷ es) acc a (inl m) =
    newest_first_complete es (place e acc) a (inl (place_complete e a acc (inr m)))
newest_first_complete (e ∷ es) acc a (inr (inl q)) =
    newest_first_complete es (place e acc) a (inl (place_complete e a acc (inl q)))
newest_first_complete (e ∷ es) acc a (inr (inr m)) =
    newest_first_complete es (place e acc) a (inr m)

newest_first-IsNewestFirst :
    (es acc : List MemoryEntry) → IsNewestFirst acc → IsNewestFirst (newest_first acc es)
unfolding newest_first
newest_first-IsNewestFirst [] acc h = h
newest_first-IsNewestFirst (e ∷ es) acc h =
    newest_first-IsNewestFirst es (place e acc) (place-IsNewestFirst e acc h)

-- What `take` leaves out is no newer than what it keeps, and then it keeps as many as it may.
take-top :
    (n : ℕ) (es : List MemoryEntry) (a : MemoryEntry)
    → IsNewestFirst es
    → In a es
    → In a (take n es)
      ⊎ ((length (take n es) ≡ n) × All (λ x. a.created_at ≤ x.created_at) (take n es))
unfolding IsNewestFirst
take-top zero es a h m = inr (refl, tt)
take-top (suc n) [] a h m = absurd m
take-top (suc n) (e ∷ es) a h (inl q) = inl (inl q)
take-top (suc n) (e ∷ es) a h (inr m) = elim (take-top n es a h.1 m) [
  | inl k ↦ inl (inr k)
  | inr (l, f) ↦ inr (rw l refl, (h.0 a m, f))
]

result_of-entries :
    (byte_length : String → ℕ) (live : List MemoryEntry)
    → (result_of byte_length live).entries ≡ live
unfolding result_of
result_of-entries byte_length [] = refl
result_of-entries byte_length (e ∷ es) = refl

module _ (byte_length : String → ℕ) (agent_id : String) (now : Instant) (db : Database) where
  entries-live : (recall byte_length agent_id now db).0.entries ≡ live_for agent_id now db.memories
  unfolding recall
  entries-live = result_of-entries byte_length (live_for agent_id now db.memories)

  recall_bounds :
      (length (recall byte_length agent_id now db).0.entries ≤ 10)
      × ((e : MemoryEntry)
          → In e (recall byte_length agent_id now db).0.entries
          → IsRecallable db.memories agent_id now e)
  recall_bounds = rw entries-live (
      unfold live_for in
      (
        length-take-le 10
            (newest_first [] (filter (is_live now) (filter (of_agent agent_id) db.memories))),
        λ e m.
            elim (newest_first-In (filter (is_live now) (filter (of_agent agent_id) db.memories)) []
              e (In-take 10 _ e m)) [
                | inl k ↦ absurd k
                | inr k ↦
                    let (l, j) =
                      filter_sound (is_live now) (filter (of_agent agent_id) db.memories) e k in
                    let (o, i) = filter_sound (of_agent agent_id) db.memories e j in
                    record {
                      stored = i;
                      owned = (eq_iff e.agent_id agent_id).0 o;
                      unstamped = is_none-eq e.quarantined_at (ground arith);
                      fresh = ground arith;
                    }
              ],
      ))

  -- A recall returns at most ten entries, and each is a stored memory of that agent that is neither
  -- quarantined nor expired.
  pub recall-IsRecallable :
      (e : MemoryEntry)
      → In e (recall byte_length agent_id now db).0.entries
      → (length (recall byte_length agent_id now db).0.entries ≤ 10)
        × IsRecallable db.memories agent_id now e
  recall-IsRecallable e m = (recall_bounds.0, recall_bounds.1 e m)

  -- A memory that may be recalled and is not gives way to ten entries that are all at least as new.
  pub recall-newest :
      (e : MemoryEntry)
      → IsRecallable db.memories agent_id now e
      → In e (recall byte_length agent_id now db).0.entries
        ⊎ ((length (recall byte_length agent_id now db).0.entries ≡ 10)
            × All (λ x. e.created_at ≤ x.created_at) (recall byte_length agent_id now db).0.entries)
  unfolding IsNewestFirst
  recall-newest e w =
      let live : is_live now e ≡ true = rw w.unstamped (ground (arith, w.fresh)) in
      let own : of_agent agent_id e ≡ true = (eq_iff e.agent_id agent_id).1 w.owned in
      let mine = filter (of_agent agent_id) db.memories in
      rw entries-live (
        unfold live_for in
        take-top 10 (newest_first [] (filter (is_live now) mine)) e
          (newest_first-IsNewestFirst (filter (is_live now) mine) [] tt)
          (newest_first_complete (filter (is_live now) mine) [] e (
            inr (
              filter_complete (is_live now) mine e
                (filter_complete (of_agent agent_id) db.memories e w.stored own) live))))
