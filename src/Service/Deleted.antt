-- ===== src/Service/Deleted.antt =====
-- What is left of a deleted agent.
use tik_tok_tech_jam.Base.{
  String, ◌==◌, ◌≡◌, ◌≢◌, refl, ap, subst, not, inl, inr, List, filter, filter_sound, In, eq_iff,
}
use tik_tok_tech_jam.Types.{
  Instant, Agent, AgentSession, Message, AgentRun, RunEvent, ApprovalRequest, Database,
}
use tik_tok_tech_jam.Errors.{Result, ok, err}
use tik_tok_tech_jam.Errors.Guards.{ok_or}
use tik_tok_tech_jam.Store.{Persist}
use tik_tok_tech_jam.Store.Laws.{mutate_atomic}
use tik_tok_tech_jam.Service.{AppConfig, ServiceState, mutate_in}
use tik_tok_tech_jam.Service.Cancel.{Cancellation, cancel_execution}
use tik_tok_tech_jam.Service.Lifecycle.{
  delete_agent, delete_mutation, drop_agent, archived_at, then_do, guarded_by, lifecycle_free,
  enter_lifecycle, leave_lifecycle,
}

-- no record of the agent, of any of the six kinds
pub record Gone (id : String) (db : Database) : Type 0 where
  pub no_agent : (x : Agent) → In x db.agents → x.id ≢ id
  pub no_session : (x : AgentSession) → In x db.sessions → x.agent_id ≢ id
  pub no_message : (x : Message) → In x db.messages → x.agent_id ≢ id
  pub no_run : (x : AgentRun) → In x db.runs → x.agent_id ≢ id
  pub no_event : (x : RunEvent) → In x db.run_events → x.agent_id ≢ id
  pub no_approval : (x : ApprovalRequest) → In x db.approvals → x.agent_id ≢ id

filter-gone :
    {A : Type 0} (key : A → String) (id : String) (xs : List A) (x : A)
    → In x (filter (λ y. not (key y == id)) xs)
    → key x ≢ id
filter-gone key id xs x m e =
    cc ((filter_sound (λ y. not (key y == id)) xs x m).0, (eq_iff (key x) id).1 e)

delete_mutation-Gone :
    (id : String) (s : ServiceState) (db next : Database)
    → delete_mutation id s db ≡ ok (tt, next)
    → Gone id next
unfolding delete_mutation
delete_mutation-Gone id s db next h =
    subst (Gone id) (ap (λ (x : Result (Unit {0} × Database)). (ok_or (tt, db) x).1) h) (record {
      no_agent = filter-gone (λ x. x.id) id db.agents;
      no_session = filter-gone (λ x. x.agent_id) id db.sessions;
      no_message = filter-gone (λ x. x.agent_id) id db.messages;
      no_run = filter-gone (λ x. x.agent_id) id db.runs;
      no_event = filter-gone (λ x. x.agent_id) id db.run_events;
      no_approval = filter-gone (λ x. x.agent_id) id db.approvals;
    })

-- the outcome of a deletion, if it succeeded
abbrev GoneIf : String → Result String → Result String → ServiceState → Type 0
GoneIf id archive (err e) s = Unit
GoneIf id archive (ok path) s = (archive ≡ ok path) × Gone id s.db

module _ (persist : Persist) (others : ServiceState → ServiceState) (id : String) where
  archived-Gone :
      (path : String) (s : ServiceState)
      → GoneIf id
          (ok path)
          (archived_at path (mutate_in persist (delete_mutation id) s)).0
          (archived_at path (mutate_in persist (delete_mutation id) s)).1
  unfolding mutate_in
  archived-Gone path s = elim (mutate_atomic persist (delete_mutation id s) s.db) [
    | inl (e, p, q) ↦ rw (p) tt
    | inr (u, next, p, q, t) ↦ rw t (refl, delete_mutation-Gone id s s.db next p)
  ]

  drop_agent-Gone :
      (archive : Result String) (s : ServiceState)
      → GoneIf id archive
          (drop_agent persist archive others id s).0
          (drop_agent persist archive others id s).1
  drop_agent-Gone (err e) s = tt
  drop_agent-Gone (ok path) s = archived-Gone path (others s)

  dropped-Gone :
      (archive : Result String) (x : Result (Unit {0}) × ServiceState)
      → GoneIf id archive
          (then_do (λ v. drop_agent persist archive others id v) x).0
          (then_do (λ v. drop_agent persist archive others id v) x).1
  dropped-Gone archive (err e, s) = tt
  dropped-Gone archive (ok u, s) = drop_agent-Gone archive s

guarded-Gone :
    (id : String) (archive : Result String) (f : ServiceState → Result String × ServiceState)
    (r : Result (Unit {0})) (s : ServiceState)
    → GoneIf id archive (f s).0 (f s).1
    → GoneIf id archive (guarded_by r f s).0 (guarded_by r f s).1
guarded-Gone id archive f (err e) s h = tt
guarded-Gone id archive f (ok u) s h = h

left-Gone :
    (id : String) (archive r : Result String) (s : ServiceState)
    → GoneIf id archive r s
    → GoneIf id archive r (leave_lifecycle id s)
left-Gone id archive (err e) s h = tt
left-Gone id archive (ok path) s h = h

-- A deletion that succeeds answers with the place of the archived workspace, and leaves no agent with the id and no
-- session, message, run, event or approval of one,
-- whatever the rest of the server did meanwhile.
pub delete_agent-Gone :
    (config : AppConfig) (persist : Persist) (c : Cancellation) (archive : Result String)
    (others : ServiceState → ServiceState) (id : String) (now : Instant) (s : ServiceState)
    (path : String)
    → (delete_agent config persist c archive others id now s).0 ≡ ok path
    → (archive ≡ ok path) × Gone id (delete_agent config persist c archive others id now s).1.db
unfolding delete_agent
delete_agent-Gone config persist c archive others id now s path h =
    let x = delete_agent config persist c archive others id now s in
    let y = cancel_execution config c id now (enter_lifecycle id s) in
    let z = then_do (λ v. drop_agent persist archive others id v) y in
    let k : GoneIf id archive x.0 x.1 =
      guarded-Gone id archive _ (lifecycle_free id s) s
        (left-Gone id archive z.0 z.1 (dropped-Gone persist others id archive y)) in
    subst (λ r. GoneIf id archive r x.1) h k
