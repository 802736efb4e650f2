-- ===== src/Store/Queue.antt =====
-- apps/server/src/store.ts: `mutate` step by step: its queue, the copy that a mutation changes in place, and the
-- wait for the disk before that copy replaces the data.
pub mod Order
use tik_tok_tech_jam.Base.{ℕ, suc, Option, none, some, List, [], ◌∷◌, ◌++◌, nat_eq, if◌then◌else◌}
use tik_tok_tech_jam.Types.{Database}
use tik_tok_tech_jam.Errors.{Failure, Result, ok, err}
use tik_tok_tech_jam.Store.{Persist, mutate}

-- A mutation that waits: its callback changes the database that it is given and may throw when that is half done.
-- `persist` is what the disk does then.
pub record Queued : Type 0 where
  pub mutation : Database → Option Failure × Database
  pub persist : Persist

-- A mutation whose callback is over, and where its copy is.
pub record Running : Type 0 where
  pub operation : Queued
  pub next : ℕ

-- `heap` holds the databases by their place, `fresh` is the next free place, `data` is the place of the data.
-- `finished` are the mutations that are over, the oldest first.
pub record JsonStore : Type 0 where
  pub heap : ℕ → Database
  pub fresh : ℕ
  pub data_at : ℕ
  pub queue : List Queued
  pub running : Option Running
  pub finished : List Queued

abbrev pub opened : Database → JsonStore
opened db = record {
  heap = λ i. db;
  fresh = 1;
  data_at = 0;
  queue = [];
  running = none;
  finished = [];
}

unfoldable pub snapshot : JsonStore → Database
snapshot s = s.heap s.data_at

abbrev pub put_at : ℕ → Database → (ℕ → Database) → ℕ → Database
put_at i db heap j = if nat_eq j i then db else heap j

-- `structuredClone`: a copy at a new place
unfoldable pub structured_clone : ℕ → JsonStore → ℕ × JsonStore
structured_clone i s =
    (s.fresh, record s { heap = put_at s.fresh (s.heap i) s.heap; fresh = suc s.fresh })

-- the callback on the database at a place, and what it throws
unfoldable pub call_at : Queued → ℕ → JsonStore → Option Failure × JsonStore
call_at q i s =
    let (thrown, db) = q.mutation (s.heap i) in (thrown, record s { heap = put_at i db s.heap })

abbrev pub over : Queued → JsonStore → JsonStore
over q s = record s { running = none; finished = s.finished ++ q ∷ [] }

abbrev pub called : Queued → ℕ → Option Failure × JsonStore → JsonStore
called q i (some e, s) = over q s
called q i (none, s) = record s { running = some (record { operation = q; next = i }) }

-- the queued function up to its wait for the disk
unfoldable pub begin : Queued → List Queued → JsonStore → JsonStore
begin q queue s =
    let (i, t) = structured_clone s.data_at (record s { queue = queue }) in
    called q i (call_at q i t)

abbrev pub installed : Running → Option Failure → JsonStore → JsonStore
installed r (some e) s = over r.operation s
installed r none s = over r.operation (record s { data_at = r.next })

-- the rest of it, once the disk has answered
unfoldable pub finish : Running → JsonStore → JsonStore
finish r s = installed r (r.operation.persist (s.heap r.next)) s

-- The queue moves on: the running mutation ends, or else the first that waits begins.
abbrev pub advanced : Option Running → List Queued → JsonStore → JsonStore
advanced (some r) queue s = finish r s
advanced none [] s = s
advanced none (q ∷ queue) s = begin q queue s

pub data Step : Type 0 where
  enqueue : Queued → Step
  advance : Step

unfoldable pub perform : Step → JsonStore → JsonStore
perform (enqueue q) s = record s { queue = s.queue ++ q ∷ [] }
perform advance s = advanced s.running s.queue s

unfoldable pub performs : List Step → JsonStore → JsonStore
performs [] s = s
performs (x ∷ xs) s = performs xs (perform x s)

-- The specification: the mutations one after the other, each as a whole.
abbrev pub as_result : Option Failure × Database → Result (Unit {0} × Database)
as_result (some e, db) = err e
as_result (none, db) = ok (tt, db)

abbrev pub outcome : Queued → Database → Database
outcome q db = (mutate q.persist (λ d. as_result (q.mutation d)) db).1

unfoldable pub replay : List Queued → Database → Database
replay [] db = db
replay (q ∷ qs) db = replay qs (outcome q db)

unfoldable pub enqueued : List Step → List Queued
enqueued [] = []
enqueued (enqueue q ∷ xs) = q ∷ enqueued xs
enqueued (advance ∷ xs) = enqueued xs
