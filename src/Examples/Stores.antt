-- ===== src/Examples/Stores.antt =====
-- A run of the theorem on the store: a mutation that throws half done, and one that the disk takes.
use tik_tok_tech_jam.Base.{◌≡◌, none, some, List, [], ◌∷◌}
use tik_tok_tech_jam.Errors.{Failure}
use tik_tok_tech_jam.Store.Queue.{
  Queued, Step, enqueue, advance, opened, snapshot, performs, replay, enqueued,
}
use tik_tok_tech_jam.Store.Queue.Order.{known, performs-replay}
use tik_tok_tech_jam.Examples.{written, sample}

abbrev breaking : Queued
breaking = record {
  mutation = λ db. (some (Failure.thrown "no grant"), record db { grants = [] });
  persist = written;
}

abbrev clearing : Queued
clearing = record { mutation = λ db. (none, record db { memories = [] }); persist = written }

abbrev steps : List Step
steps = enqueue breaking ∷ enqueue clearing ∷ advance ∷ advance ∷ advance ∷ []

performs-replay_example :
    (snapshot (performs steps (opened sample))
      ≡ replay (performs steps (opened sample)).finished sample)
    × (known (performs steps (opened sample)) ≡ enqueued steps)
performs-replay_example = performs-replay steps sample
