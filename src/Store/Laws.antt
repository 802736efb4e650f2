-- ===== src/Store/Laws.antt =====
-- A mutation is all or nothing, and `latestRunFor` finds a newest run.
use tik_tok_tech_jam.Base.{
  String, ◌==◌, ◌≡◌, refl, sym, subst, ap, ◌≢◌, ◌≤◌, ◌⊎◌, inl, inr, Bool, true, false, Option, none,
  some, List, [], ◌∷◌, arith, eq_iff, ltb, In, Bool-cases, Option-cases, if◌then◌else◌,
}
use tik_tok_tech_jam.Types.{AgentRun, Database}
use tik_tok_tech_jam.Errors.{Failure, Result, ok, err}
use tik_tok_tech_jam.Errors.Guards.{IsErr, failed, IsErr-ok, Holds}
use tik_tok_tech_jam.Store.{Persist, mutate, newer, latest_from, latest_run_for}

-- A mutation that fails, in its own code or on the way to the disk, leaves the data as it was; one
-- that succeeds installs exactly what its code made, and that was written.
pub mutate_atomic :
    {A : Type 0} (persist : Persist) (f : Database → Result (A × Database)) (db : Database)
    → ((e : Failure) × ((mutate persist f db).0 ≡ err e) × ((mutate persist f db).1 ≡ db))
      ⊎ ((a : A) × (next : Database) × (f db ≡ ok (a, next))
          × (persist next ≡ none)
          × (mutate persist f db ≡ (ok a, next)))
unfolding mutate
mutate_atomic {A} persist f db = go (f db) refl
  where
    go :
        (r : Result (A × Database))
        → f db ≡ r
        → ((e : Failure) × ((mutate persist f db).0 ≡ err e) × ((mutate persist f db).1 ≡ db))
          ⊎ ((a : A) × (next : Database) × (f db ≡ ok (a, next))
              × (persist next ≡ none)
              × (mutate persist f db ≡ (ok a, next)))
    go (err e) p = inl (e, rw (p, mutate), rw (p, mutate))
    go (ok (a, next)) p = elim (Option-cases (persist next)) [
      | inl q ↦ inr (a, next, p, q, rw (p, mutate) (rw (q, mutate)))
      | inr (e, q) ↦ inl (e, rw (p, mutate) (rw (q, mutate)), rw (p, mutate) (rw (q, mutate)))
    ]

module _ (agent_id : String) where
  abbrev of_agent : AgentRun → Bool
  of_agent run = run.agent_id == agent_id

  abbrev next : Option AgentRun → AgentRun → Option AgentRun
  next acc run = if of_agent run then newer acc run else acc

  latest_from-none :
      (runs : List AgentRun) (acc : Option AgentRun)
      → latest_from agent_id acc runs ≡ none
      → (acc ≡ none) × ((r : AgentRun) → In r runs → of_agent r ≡ false)
  latest_from-none [] acc h = (h, λ r m. absurd m)
  latest_from-none (run ∷ runs) acc h =
      let (a, b) = latest_from-none runs (next acc run) h in (ground arith, here (ground arith) b)
    where
      here :
          of_agent run ≡ false
          → ((r : AgentRun) → In r runs → of_agent r ≡ false)
          → (r : AgentRun) → In r (run ∷ runs)
          → of_agent r ≡ false
      here e b r (inl s) = subst (λ x. of_agent x ≡ false) (sym s) e
      here e b r (inr m) = b r m

  latest_from-bound :
      (runs : List AgentRun) (acc : Option AgentRun) (l : AgentRun)
      → latest_from agent_id acc runs ≡ some l
      → ((a : AgentRun) → acc ≡ some a → a.created_at ≤ l.created_at)
        × ((r : AgentRun) → In r runs → of_agent r ≡ true → r.created_at ≤ l.created_at)
  latest_from-bound [] acc l h = (λ a e. ground arith, λ r m. absurd m)
  latest_from-bound (run ∷ runs) acc l h =
      let (a, b) = latest_from-bound runs (next acc run) l h in (λ x e. from_acc a x e, here a b)
    where
      from_acc :
          ((a : AgentRun) → next acc run ≡ some a → a.created_at ≤ l.created_at)
          → (x : AgentRun) → acc ≡ some x
          → x.created_at ≤ l.created_at
      from_acc a x e = ground (arith, a x, a run, e)

      of_run :
          ((a : AgentRun) → next acc run ≡ some a → a.created_at ≤ l.created_at)
          → of_agent run ≡ true
          → run.created_at ≤ l.created_at
      of_run a e = elim (Option-cases acc) [
        | inl n ↦ ground (arith, a run, e, n)
        | inr (x, n) ↦ ground (arith, a run, a x, e, n)
      ]

      here :
          ((a : AgentRun) → next acc run ≡ some a → a.created_at ≤ l.created_at)
          → ((r : AgentRun) → In r runs → of_agent r ≡ true → r.created_at ≤ l.created_at)
          → (r : AgentRun) → In r (run ∷ runs)
          → of_agent r ≡ true
          → r.created_at ≤ l.created_at
      here a b r (inl s) e = rw s (of_run a (rw s at e))
      here a b r (inr m) e = b r m e

  latest_from-source :
      (runs : List AgentRun) (acc : Option AgentRun) (l : AgentRun)
      → latest_from agent_id acc runs ≡ some l
      → (acc ≡ some l) ⊎ (In l runs × (of_agent l ≡ true))
  latest_from-source [] acc l h = inl h
  latest_from-source (run ∷ runs) acc l h = elim (latest_from-source runs (next acc run) l h) [
    | inr (m, e) ↦ inr (inr m, e)
    | inl e ↦ elim (Bool-cases (of_agent run)) [
      | inr f ↦ inl (ground arith)
      | inl t ↦ elim (Option-cases acc) [
        | inl n ↦ let s : l ≡ run = ground arith in inr (inl s, rw s t)
        | inr (x, n) ↦ elim (Bool-cases (ltb x.created_at run.created_at)) [
          | inl c ↦ let s : l ≡ run = ground arith in inr (inl s, rw s t)
          | inr c ↦ inl (ground arith)
        ]
      ]
    ]
  ]

  -- A newest run among the runs of the agent, or none if it has no run.
  pub data Newest (runs : List AgentRun) : Option AgentRun → Type 0 where
    never_run : ((r : AgentRun) → In r runs → r.agent_id ≢ agent_id) → Newest runs none
    newest :
        (l : AgentRun)
        → In l runs
        → l.agent_id ≡ agent_id
        → ((r : AgentRun) → In r runs → r.agent_id ≡ agent_id → r.created_at ≤ l.created_at)
        → Newest runs (some l)

  -- `latestRunFor` answers with a newest run of the agent, and with null only if it has none.
  pub latest_run_for-Newest : (runs : List AgentRun) → Newest runs (latest_run_for runs agent_id)
  unfolding latest_run_for
  latest_run_for-Newest runs = elim (Option-cases (latest_from agent_id none runs)) [
    | inl e ↦ subst (Newest runs) (sym e) (
        never_run
          λ r m q. cc ((latest_from-none runs none e).1 r m, (eq_iff r.agent_id agent_id).1 q))
    | inr (l, e) ↦ subst (Newest runs) (sym e) (found l e (latest_from-source runs none l e))
  ]
    where
      found :
          (l : AgentRun)
          → latest_from agent_id none runs ≡ some l
          → (none ≡ some l) ⊎ (In l runs × (of_agent l ≡ true))
          → Newest runs (some l)
      found l e (inl n) = cc n
      found l e (inr (m, t)) =
          newest l m ((eq_iff l.agent_id agent_id).0 t)
            λ r k q. (latest_from-bound runs none l e).1 r k ((eq_iff r.agent_id agent_id).1 q)

pub mutate-keeps :
    {A : Type 0} (P : Database → Type 0) (persist : Persist) (f : Database → Result (A × Database))
    (db : Database)
    → P db
    → ((a : A) (next : Database) → f db ≡ ok (a, next) → P next)
    → P (mutate persist f db).1
mutate-keeps P persist f db w h = elim (mutate_atomic persist f db) [
  | inl (e, r, k) ↦ subst P (sym k) w
  | inr (a, next, e, q, r) ↦ subst P (sym (ap (λ x. x.1) r)) (h a next e)
]

-- A mutation whose own code fails fails.
pub mutate-IsErr :
    {A : Type 0} (persist : Persist) (f : Database → Result (A × Database)) (db : Database)
    → IsErr (f db)
    → IsErr (mutate persist f db).0
unfolding mutate
mutate-IsErr {A} persist f db h = go (f db) refl h
  where
    go : (r : Result (A × Database)) → f db ≡ r → IsErr r → IsErr (mutate persist f db).0
    go (err e) q h = rw (q, mutate) (failed e)
    go (ok x) q h = absurd (IsErr-ok x h)

pub mutate-Holds :
    {A : Type 0} (P : Database → Type 0) (persist : Persist) (f : Database → Result (A × Database))
    (db : Database)
    → P db
    → Holds (λ x. P x.1) (f db)
    → P (mutate persist f db).1
mutate-Holds P persist f db w h =
    mutate-keeps P persist f db w (λ a next e. subst (Holds (λ x. P x.1)) e h)

pub mutate-ok :
    {A : Type 0} (persist : Persist) (f : Database → Result (A × Database)) (db : Database) (a : A)
    (db' : Database)
    → f db ≡ ok (a, db')
    → persist db' ≡ none
    → mutate persist f db ≡ (ok a, db')
unfolding mutate
mutate-ok persist f db a db' h k = rw (h, mutate) (rw (k, mutate) refl)

-- the disk takes every write
abbrev pub Takes : Persist → Type 0
Takes persist = (db : Database) → persist db ≡ none
