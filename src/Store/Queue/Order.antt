-- ===== src/Store/Queue/Order.antt =====
-- The store, seen from outside: whole mutations in the order of the queue.
use tik_tok_tech_jam.Base.{
  ℕ, suc, ◌<◌, ◌≡◌, refl, sym, ap, subst, ◌∙◌, inl, inr, Option, none, some, List, [], ◌∷◌, ◌++◌,
  arith,
}
use tik_tok_tech_jam.Types.{Database}
use tik_tok_tech_jam.Errors.{Failure, Result, ok, err}
use tik_tok_tech_jam.Store.Laws.{mutate_atomic, mutate-ok}
use tik_tok_tech_jam.Store.Queue.{
  Queued, Running, JsonStore, opened, snapshot, put_at, structured_clone, call_at, called, begin,
  installed, finish, advanced, Step, enqueue, advance, perform, performs, outcome, replay, enqueued,
  as_result,
}

replay-snoc :
    (qs : List Queued) (q : Queued) (db : Database)
    → replay (qs ++ q ∷ []) db ≡ outcome q (replay qs db)
unfolding replay
replay-snoc [] q db = refl
replay-snoc (x ∷ qs) q db = replay-snoc qs q (outcome x db)

append_assoc : {A : Type 0} (xs ys zs : List A) → (xs ++ ys) ++ zs ≡ xs ++ (ys ++ zs)
append_assoc [] ys zs = refl
append_assoc (x ∷ xs) ys zs = ap (λ r. x ∷ r) (append_assoc xs ys zs)

append_nil : {A : Type 0} (xs : List A) → xs ++ [] ≡ xs
append_nil [] = refl
append_nil (x ∷ xs) = ap (λ r. x ∷ r) (append_nil xs)

-- the mutation that runs, as a list
abbrev pub in_hand : Option Running → List Queued
in_hand none = []
in_hand (some r) = r.operation ∷ []

-- The running mutation has changed a copy of the data at a place of its own, and did not throw.
abbrev Apart : JsonStore → Option Running → Type 0
Apart s none = Unit
Apart s (some r) =
    (r.next < s.fresh) × (r.operation.mutation (s.heap s.data_at) ≡ (none, s.heap r.next))

module _ (db : Database) where
  record IsOrdered (s : JsonStore) : Type 0 where
    data_lt : s.data_at < s.fresh
    replayed : s.heap s.data_at ≡ replay s.finished db
    apart : Apart s s.running

  -- the callback as the whole mutation has it
  abbrev whole : Queued → Database → Result (Unit {0} × Database)
  whole q d = as_result (q.mutation d)

  outcome-throws :
      (q : Queued) (d half : Database) (e : Failure)
      → q.mutation d ≡ (some e, half)
      → outcome q d ≡ d
  outcome-throws q d half e h = elim (mutate_atomic q.persist (whole q) d) [
    | inl (f, p, k) ↦ k
    | inr (a, next, f, p, k) ↦ cc (
        let z : ◌≡◌ {A = Result (Unit {0} × Database)} (err e) (ok (a, next)) =
          sym (ap as_result h) ∙ f in
        z)
  ]

  outcome-refused :
      (q : Queued) (d next : Database) (e : Failure)
      → q.mutation d ≡ (none, next)
      → q.persist next ≡ some e
      → outcome q d ≡ d
  outcome-refused q d next e h k = elim (mutate_atomic q.persist (whole q) d) [
    | inl (f, p, z) ↦ z
    | inr (a, other, f, p, z) ↦
        let same : ok (tt, next) ≡ ok (a, other) = sym (ap as_result h) ∙ f in cc (same, p, k)
  ]

  outcome-taken :
      (q : Queued) (d next : Database)
      → q.mutation d ≡ (none, next)
      → q.persist next ≡ none
      → outcome q d ≡ next
  outcome-taken q d next h k =
      ap (λ x. x.1) (mutate-ok q.persist (whole q) d tt next (ap as_result h) k)

  over_replays :
      (qs : List Queued) (q : Queued) (d next : Database)
      → d ≡ replay qs db
      → outcome q d ≡ next
      → next ≡ replay (qs ++ q ∷ []) db
  over_replays qs q d next h k = sym k ∙ (ap (outcome q) h ∙ sym (replay-snoc qs q db))

  kept_at :
      (i j : ℕ) (a b : Database) (heap : ℕ → Database)
      → j < i
      → put_at i a (put_at i b heap) j ≡ heap j
  kept_at i j a b heap h = ground arith

  copied_at : (i : ℕ) (a : Database) (heap : ℕ → Database) → put_at i a heap i ≡ a
  copied_at i a heap = ground arith

  module _ (q : Queued) (queue : List Queued) (s : JsonStore) where
    -- the store once the callback has left a database in the copy
    abbrev copied : Database → JsonStore
    copied d = record s {
      heap = put_at s.fresh d (put_at s.fresh (s.heap s.data_at) s.heap);
      fresh = suc s.fresh;
      queue = queue;
    }

    begun-IsOrdered :
        (x : Option Failure × Database)
        → q.mutation (s.heap s.data_at) ≡ x
        → IsOrdered s
        → IsOrdered (called q s.fresh (x.0, copied x.1))
    begun-IsOrdered (some e, d) h w =
        let k = kept_at s.fresh s.data_at d (s.heap s.data_at) s.heap w.data_lt in
        record {
          data_lt = omega (arith, w.data_lt);
          replayed =
              k
              ∙ over_replays s.finished q (s.heap s.data_at) (s.heap s.data_at) w.replayed
                  (outcome-throws q (s.heap s.data_at) d e h);
          apart = tt;
        }
    begun-IsOrdered (none, d) h w =
        let k = kept_at s.fresh s.data_at d (s.heap s.data_at) s.heap w.data_lt in
        record {
          data_lt = omega (arith, w.data_lt);
          replayed = k ∙ w.replayed;
          apart = (
            omega arith,
            ap q.mutation k
                ∙ (h
                    ∙ ap (λ z. (none, z))
                        (sym (copied_at s.fresh d (put_at s.fresh (s.heap s.data_at) s.heap)))),
          );
        }

    begin-IsOrdered : IsOrdered s → IsOrdered (begin q queue s)
    unfolding begin structured_clone call_at
    begin-IsOrdered w =
        subst (λ d. IsOrdered (called q s.fresh ((q.mutation d).0, copied (q.mutation d).1)))
          (sym (copied_at s.fresh (s.heap s.data_at) s.heap))
          (begun-IsOrdered (q.mutation (s.heap s.data_at)) refl w)

  installed-IsOrdered :
      (r : Running) (s : JsonStore) (o : Option Failure)
      → r.operation.persist (s.heap r.next) ≡ o
      → Apart s (some r)
      → IsOrdered s
      → IsOrdered (installed r o s)
  installed-IsOrdered r s (some e) h a w = record {
    data_lt = w.data_lt;
    replayed =
        over_replays s.finished r.operation (s.heap s.data_at) (s.heap s.data_at) w.replayed
          (outcome-refused r.operation (s.heap s.data_at) (s.heap r.next) e a.1 h);
    apart = tt;
  }
  installed-IsOrdered r s none h a w = record {
    data_lt = a.0;
    replayed =
        over_replays s.finished r.operation (s.heap s.data_at) (s.heap r.next) w.replayed
          (outcome-taken r.operation (s.heap s.data_at) (s.heap r.next) a.1 h);
    apart = tt;
  }

  advanced-IsOrdered :
      (o : Option Running) (queue : List Queued) (s : JsonStore)
      → Apart s o
      → IsOrdered s
      → IsOrdered (advanced o queue s)
  unfolding finish
  advanced-IsOrdered (some r) queue s a w =
      installed-IsOrdered r s (r.operation.persist (s.heap r.next)) refl a w
  advanced-IsOrdered none [] s a w = w
  advanced-IsOrdered none (q ∷ queue) s a w = begin-IsOrdered q queue s w

  performs-IsOrdered : (xs : List Step) (s : JsonStore) → IsOrdered s → IsOrdered (performs xs s)
  unfolding performs perform
  performs-IsOrdered [] s w = w
  performs-IsOrdered (enqueue q ∷ xs) s w =
      performs-IsOrdered xs _
        (record { data_lt = w.data_lt; replayed = w.replayed; apart = kept s.running w.apart })
    where
      kept : (o : Option Running) → Apart s o → Apart (record s { queue = s.queue ++ q ∷ [] }) o
      kept none a = tt
      kept (some r) a = a
  performs-IsOrdered (advance ∷ xs) s w =
      performs-IsOrdered xs _ (advanced-IsOrdered s.running s.queue s w.apart w)

-- the mutations that are over, run and wait, in this order
abbrev pub known : JsonStore → List Queued
known s = s.finished ++ (in_hand s.running ++ s.queue)

installed-known :
    (r : Running) (s : JsonStore) (o : Option Failure)
    → known (installed r o s) ≡ s.finished ++ (r.operation ∷ s.queue)
installed-known r s (some e) = append_assoc s.finished (r.operation ∷ []) s.queue
installed-known r s none = append_assoc s.finished (r.operation ∷ []) s.queue

called-known :
    (q : Queued) (i : ℕ) (o : Option Failure) (s : JsonStore)
    → known (called q i (o, s)) ≡ s.finished ++ (q ∷ s.queue)
called-known q i (some e) s = append_assoc s.finished (q ∷ []) s.queue
called-known q i none s = refl

advanced-known :
    (o : Option Running) (queue : List Queued) (s : JsonStore)
    → s.running ≡ o
    → s.queue ≡ queue
    → known (advanced o queue s) ≡ s.finished ++ (in_hand o ++ queue)
unfolding finish begin structured_clone call_at
advanced-known (some r) queue s h k =
    installed-known r s (r.operation.persist (s.heap r.next))
    ∙ ap (λ qs. s.finished ++ (r.operation ∷ qs)) k
advanced-known none [] s h k =
    ap (λ o. s.finished ++ (in_hand o ++ s.queue)) h ∙ ap (λ qs. s.finished ++ qs) k
advanced-known none (q ∷ queue) s h k = called-known q s.fresh _ _

performs-known : (xs : List Step) (s : JsonStore) → known (performs xs s) ≡ known s ++ enqueued xs
unfolding performs perform enqueued
performs-known [] s = sym (append_nil (known s))
performs-known (enqueue q ∷ xs) s =
    performs-known xs (record s { queue = s.queue ++ q ∷ [] })
    ∙ (ap (λ qs. qs ++ enqueued xs)
          (ap (λ qs. s.finished ++ qs) (sym (append_assoc (in_hand s.running) s.queue (q ∷ [])))
            ∙ sym (append_assoc s.finished (in_hand s.running ++ s.queue) (q ∷ [])))
        ∙ append_assoc (known s) (q ∷ []) (enqueued xs))
performs-known (advance ∷ xs) s =
    performs-known xs (advanced s.running s.queue s)
    ∙ ap (λ qs. qs ++ enqueued xs) (advanced-known s.running s.queue s refl refl)

-- Whatever mutations are queued, whatever they throw when they are half done, whatever the disk refuses, and
-- whenever the queue moves on: a snapshot is at every moment what the mutations that are over make of the first
-- database, each as a whole and one after the other; and those that are over, the one that runs and those that
-- wait are all that were queued, in their order.
pub performs-replay :
    (xs : List Step) (db : Database)
    → (snapshot (performs xs (opened db)) ≡ replay (performs xs (opened db)).finished db)
      × (known (performs xs (opened db)) ≡ enqueued xs)
unfolding snapshot replay
performs-replay xs db = (
  (performs-IsOrdered db xs (opened db)
      (record { data_lt = omega arith; replayed = refl; apart = tt })).replayed,
  performs-known xs (opened db),
)
