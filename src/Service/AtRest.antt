-- ===== src/Service/AtRest.antt =====
-- A restart leaves nothing unfinished.
use tik_tok_tech_jam.Base.{
  String, ◌≡◌, refl, subst, ap, sym, false, inl, inr, List, [], ◌∷◌, map, arith, In, In-map, ◌⊎◌,
  In-map_inv,
}
use tik_tok_tech_jam.Types.{Instant, Agent, AgentRun, ApprovalRequest, Database}
use tik_tok_tech_jam.Errors.{Failure, Result, ok, err}
use tik_tok_tech_jam.Errors.Guards.{Result-cases}
use tik_tok_tech_jam.Store.{Persist, mutate}
use tik_tok_tech_jam.Store.Laws.{mutate-ok, Takes}
use tik_tok_tech_jam.Service.{AppConfig, ServiceState, has_active_lifecycle, mutate_in}
use tik_tok_tech_jam.Service.Cancel.{is_pending}
use tik_tok_tech_jam.Service.Approvals.{is_active_run}
use tik_tok_tech_jam.Service.Startup.{
  run_restarted, agent_restarted, approval_restarted, approvals_restarted, cancelled_run_ids,
  restart_mutation, restarted, initialize, Boot, booted, loaded, reconciled,
}

pub record AtRest (db : Database) : Type 0 where
  pub runs_over : (r : AgentRun) → In r db.runs → is_active_run r.status ≡ false
  pub agents_free : (a : Agent) → In a db.agents → has_active_lifecycle a.status ≡ false
  pub approvals_decided : (a : ApprovalRequest) → In a db.approvals → is_pending a.status ≡ false

run_restarted_over :
    (now : Instant) (r : AgentRun) → is_active_run (run_restarted now r).status ≡ false
run_restarted_over now r = ground arith

agent_restarted_free :
    (now : Instant) (a : Agent) → has_active_lifecycle (agent_restarted now a).status ≡ false
agent_restarted_free now a = ground arith

module _ (config : AppConfig) (event_id : String → String) (ids : List String) (now : Instant) where
  approval_restarted_decided :
      (a : ApprovalRequest)
      → is_pending (approval_restarted config event_id ids now a).0.status ≡ false
  approval_restarted_decided a = ground arith

  approvals_restarted_decided :
      (xs : List ApprovalRequest) (a : ApprovalRequest)
      → In a (approvals_restarted config event_id ids now xs).0
      → is_pending a.status ≡ false
  approvals_restarted_decided [] a m = absurd m
  approvals_restarted_decided (x ∷ xs) a (inl e) = rw e (approval_restarted_decided x)
  approvals_restarted_decided (x ∷ xs) a (inr m) = approvals_restarted_decided xs a m

restarted-AtRest :
    (config : AppConfig) (event_id : String → String) (now : Instant) (db : Database)
    → AtRest (restarted config event_id now db)
restarted-AtRest config event_id now db = record {
  runs_over = λ r m.
      let (x, o, e) = In-map_inv (run_restarted now) db.runs r m in rw e (run_restarted_over now x);
  agents_free = λ a m.
      let (x, o, e) = In-map_inv (agent_restarted now) db.agents a m in
      rw e (agent_restarted_free now x);
  approvals_decided =
      approvals_restarted_decided config event_id (cancelled_run_ids db.runs) now db.approvals;
}

over-kept :
    (now : Instant) (r : AgentRun) (runs : List AgentRun)
    → In r runs
    → is_active_run r.status ≡ false
    → In r (map (run_restarted now) runs)
over-kept now r runs m h =
    let e : run_restarted now r ≡ r = ground arith in
    subst (λ x. In x (map (run_restarted now) runs)) e (In-map (run_restarted now) runs r m)

restarts :
    (config : AppConfig) (persist : Persist) (event_id : String → String) (now : Instant)
    (s : ServiceState)
    → Takes persist
    → mutate persist (restart_mutation config event_id now s) s.db
      ≡ (ok tt, restarted config event_id now s.db)
unfolding restart_mutation
restarts config persist event_id now s k =
    mutate-ok persist (restart_mutation config event_id now s) s.db tt
      (restarted config event_id now s.db) refl (k (restarted config event_id now s.db))

module _ (config : AppConfig) (boot : Boot) (persist : Persist) (event_id : String → String)
    (now : Instant) (s : ServiceState) where
  -- The steps before the restart of the work all succeed, or one of them fails.
  booted-cases :
      ((db : Database) × (booted boot ≡ ok tt) × (boot.load ≡ ok db) × (loaded boot s.db ≡ db))
      ⊎ ((e : Failure) × (booted boot ≡ err e))
  booted-cases = elim (Result-cases (reconciled boot.reconcile)) [
    | inl (e, h) ↦ inr (e, rw h refl)
    | inr (u, h) ↦ elim (Result-cases boot.load) [
      | inl (e, k) ↦ inr (e, rw h (rw k refl))
      | inr (db, k) ↦ elim (Result-cases boot.workspaces) [
        | inl (e, w) ↦ inr (e, rw h (rw k w))
        | inr (v, w) ↦ inl (db, rw h (rw k w), k, rw (h, loaded) (rw (k, loaded) refl))
      ]
    ]
  ]

  -- the work is put to rest, in the database that the store has loaded
  abbrev pub Rested : Result (Unit {0}) × ServiceState → Type 0
  Rested x =
      (x.0 ≡ ok tt)
      × AtRest x.1.db
      × ((db : Database) × (boot.load ≡ ok db)
          × ((r : AgentRun) → In r db.runs → is_active_run r.status ≡ false → In r x.1.db.runs))

  -- When the disk takes the write, a restart fails exactly with what the runner, the loading of the store or the
  -- workspaces fail with before it; or else it succeeds, and then no stored run is queued or running, no agent
  -- is busy or waiting, no approval is pending, and every run that was over in the loaded database is stored
  -- as it was.
  pub initialize-AtRest :
      Takes persist
      → ((e : Failure) × (booted boot ≡ err e)
          × ((initialize config boot persist event_id now s).0 ≡ err e))
        ⊎ ((booted boot ≡ ok tt) × Rested (initialize config boot persist event_id now s))
  unfolding initialize mutate_in
  initialize-AtRest k = elim booted-cases [
    | inr (e, h) ↦ inl (e, h, rw h refl)
    | inl (db, h, l, q) ↦
        let e = restarts config persist event_id now (record s { db = loaded boot s.db }) k in
        inr (
          h,
          rw h (
            ap (λ x. x.0) e,
            subst (λ x. AtRest x.1) (sym e)
                (restarted-AtRest config event_id now (loaded boot s.db)),
            (
              db,
              l,
              λ r m o.
                  subst (λ x. In r x.1.runs) (sym e)
                    (over-kept now r (loaded boot s.db).runs (subst (λ d. In r d.runs) (sym q) m)
                      o),
            ),
          ),
        )
  ]
