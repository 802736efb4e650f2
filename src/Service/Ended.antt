-- ===== src/Service/Ended.antt =====
-- How an execution leaves its run and its agent.
use tik_tok_tech_jam.Base.{
  if◌then◌else◌, true, Bool, includes, ◌||◌, List, [], ◌∷◌, String, String, ◌≡◌, refl, sym, ap,
  subst, ◌∙◌, Bool, true, false, inl, inr, Option, none, some, List, find, find_sound, arith,
  eq_iff, Option-cases,
}
use tik_tok_tech_jam.Types.{
  MemoryEntry, Instant, Agent, AgentStatus, ready, busy, waiting_approval, stopped, error, AgentRun,
  RunUsage, Database,
}
use tik_tok_tech_jam.Errors.{Failure, Result, ok, err}
use tik_tok_tech_jam.Store.{mutate}
use tik_tok_tech_jam.Store.Laws.{mutate-ok, mutate_atomic, Takes}
use tik_tok_tech_jam.Service.{
  AppConfig, ServiceState, has_active_lifecycle, mutate_in, append_run_event, update_first,
}
use tik_tok_tech_jam.Memory.{RecallResult}
use tik_tok_tech_jam.Memory.Recall.{recall}
use tik_tok_tech_jam.Service.Lookups.{find-update_first, find-update_first-none}
use tik_tok_tech_jam.Service.Agents.{of_id}
use tik_tok_tech_jam.Service.Approvals.{is_active_run, run_in}
use tik_tok_tech_jam.Service.Runs.{
  RunnerResult, of_run, run_ended, agent_ended, end_status, failure_mutation, failed_with,
  complete_mutation, completed_with, start_mutation, run_finished, agent_finished,
}
use tik_tok_tech_jam.Service.Recollection.{RunOutside, RunnerRequest}
use tik_tok_tech_jam.Service.Execution.{
  answered_run, run_recalling, proxied, concluded, begun_run, run_with, guarded, proxy_address,
  request_for, ran, attempt, conclude, fail_run, or_fail, execute_run,
}

-- The run with the id is over and the agent with the id is free, if both are stored.
abbrev pub Over : String → String → Database → Type 0
Over run_id agent_id db =
    (r : AgentRun) (a : Agent)
    → run_in run_id db.runs ≡ some r
    → find (of_id agent_id) db.agents ≡ some a
    → (is_active_run r.status ≡ false) × (has_active_lifecycle a.status ≡ false)

-- a change in place, seen by the next lookup
after_update :
    {A : Type 0} (p : A → Bool) (f : A → A) (xs : List A) (b : A)
    → ((x : A) → p x ≡ true → p (f x) ≡ true)
    → find p (update_first p f xs) ≡ some b
    → (x : A) × (find p xs ≡ some x) × (b ≡ f x)
after_update p f xs b k h = elim (Option-cases (find p xs)) [
  | inl e ↦ cc (find-update_first-none p f xs e, h)
  | inr (x, e) ↦
      let i = find-update_first p f xs x (k x (find_sound p xs x e).0) e in (x, e, cc (i, h))
]

end_status_free : (e : Failure) (s : AgentStatus) → has_active_lifecycle (end_status e s) ≡ false
end_status_free e stopped = refl
end_status_free e ready = ground arith
end_status_free e busy = ground arith
end_status_free e waiting_approval = ground arith
end_status_free e error = ground arith

module _ (config : AppConfig) (now : Instant) where
  failed_run_over :
      (e : Failure) (r : AgentRun) → is_active_run (run_ended config e now r).status ≡ false
  failed_run_over e r = ground arith

  failed_with-Over :
      (event_id agent_id : String) (run : AgentRun) (e : Failure) (db : Database)
      → Over run.id agent_id (failed_with config event_id agent_id run e now db)
  unfolding failed_with append_run_event
  failed_with-Over event_id agent_id run e db r a i j =
      let (x, o, p) =
        after_update (of_run run.id) (run_ended config e now) db.runs r (λ y k. k) i in
      let (y, q, t) =
        after_update (of_id agent_id) (agent_ended config e now) db.agents a (λ z k. k) j in
      (rw p (failed_run_over e x), rw t (end_status_free e y.status))

  completed_with-Over :
      (message_id event_id agent_id : String) (run : AgentRun) (result : RunnerResult)
      (usage : Option RunUsage) (db : Database) (o : Option AgentRun) (v : Option Agent)
      → run_in run.id db.runs ≡ o
      → find (of_id agent_id) db.agents ≡ v
      → Over run.id agent_id (completed_with config message_id event_id run result usage now o v db)
  unfolding append_run_event
  completed_with-Over m event_id agent_id run result usage db (some x) (some y) p q r a i j =
      let (u, k, t) =
        after_update (of_run run.id) (run_finished config result usage now) db.runs r (λ z w. w)
          i in
      let e : y.id ≡ agent_id =
        (eq_iff y.id agent_id).0 (find_sound (of_id agent_id) db.agents y q).0 in
      let l =
        subst
          (λ z.
            find (of_id agent_id) (update_first (of_id z) (agent_finished result now) db.agents)
            ≡ some a)
          e j in
      let (v, n, w) =
        after_update (of_id agent_id) (agent_finished result now) db.agents a (λ z k. k) l in
      (rw t refl, rw w refl)
  completed_with-Over m event_id agent_id run result usage db (some x) none p q r a i j = cc (q, j)
  completed_with-Over m event_id agent_id run result usage db none v p q r a i j = cc (p, i)

failure-eq :
    (config : AppConfig) (event_id agent_id : String) (run : AgentRun) (e : Failure) (now : Instant)
    (s : ServiceState) (db : Database)
    → failure_mutation config event_id agent_id run e now s db
      ≡ ok (tt, failed_with config event_id agent_id run e now db)
unfolding failure_mutation
failure-eq config event_id agent_id run e now s db = refl

complete-eq :
    (config : AppConfig) (message_id event_id agent_id : String) (run : AgentRun)
    (result : RunnerResult) (usage : Option RunUsage) (now : Instant) (s : ServiceState)
    (db : Database)
    → complete_mutation config message_id event_id agent_id run result usage now s db
      ≡ ok (
        tt,
        completed_with config message_id event_id run result usage now
            (run_in run.id db.runs)
            (find (of_id agent_id) db.agents)
            db,
      )
unfolding complete_mutation
complete-eq config message_id event_id agent_id run result usage now s db = refl

start-eq :
    (event_id : String) (run : AgentRun) (now : Instant) (s : ServiceState) (db : Database)
    → (x : Database) × (start_mutation event_id run now s db ≡ ok (tt, x))
unfolding start_mutation
start-eq event_id run now s db = (_, refl)

module _ (config : AppConfig) (out : RunOutside) (run : AgentRun) (a : Agent)
    (takes : Takes out.persist_failed) where
  -- the execution came to its end, and left the run over
  abbrev Concluded : Result (Unit {0}) × ServiceState → Type 0
  Concluded x = (x.0 ≡ ok tt) × Over run.id a.id x.1.db

  fail_run-Concluded : (e : Failure) (s : ServiceState) → Concluded (fail_run config out run a e s)
  unfolding fail_run mutate_in
  fail_run-Concluded e s0 =
      let s = out.failing s0 in
      let db = failed_with config out.event_id a.id run e out.now s.db in
      let h : mutate out.persist_failed (failure_mutation config out.event_id a.id run e out.now s)
            s.db
          ≡ (ok tt, db) =
        mutate-ok out.persist_failed (failure_mutation config out.event_id a.id run e out.now s)
          s.db tt db (failure-eq config out.event_id a.id run e out.now s s.db) (takes db) in
      (
        ap (λ x. x.0) h,
        subst (λ x. Over run.id a.id x.1) (sym h)
            (failed_with-Over config out.now out.event_id a.id run e s.db),
      )

  or_fail-Concluded :
      (x : Result (Unit {0}) × ServiceState)
      → (x.0 ≡ ok tt → Over run.id a.id x.1.db)
      → Concluded (or_fail config out run a x)
  or_fail-Concluded (err e, s) h = fail_run-Concluded e s
  or_fail-Concluded (ok u, s) h = (refl, h refl)

  abbrev finishing :
      RunnerResult → Option RunUsage → ServiceState → Database → Result (Unit {0} × Database)
  finishing result usage =
      complete_mutation config out.message_id out.event_id a.id run result usage out.now

  completes :
      (result : RunnerResult) (usage : Option RunUsage) (s : ServiceState)
      → (mutate_in out.persist_completed (finishing result usage) s).0 ≡ ok tt
      → Over run.id a.id (mutate_in out.persist_completed (finishing result usage) s).1.db
  unfolding mutate_in
  completes result usage s h =
      elim (mutate_atomic out.persist_completed (finishing result usage s) s.db) [
        | inl (e, p, q) ↦ cc (p, h)
        | inr (u, next, p, q, t) ↦
            let l : next
                ≡ completed_with config out.message_id out.event_id run result usage out.now
                    (run_in run.id s.db.runs) (find (of_id a.id) s.db.agents) s.db =
              cc (
                complete-eq config out.message_id out.event_id a.id run result usage out.now s s.db,
                p,
              ) in
            subst (λ x. Over run.id a.id x) (sym l ∙ sym (ap (λ x. x.1) t))
              (completed_with-Over config out.now out.message_id out.event_id a.id run result usage
                s.db (run_in run.id s.db.runs) (find (of_id a.id) s.db.agents) refl refl)
      ]

  conclude-Concluded :
      (x : Result (RunnerResult × Option RunUsage) × ServiceState)
      → Concluded (conclude config out run a x)
  unfolding conclude mutate_in
  conclude-Concluded (err e, s) = fail_run-Concluded e s
  conclude-Concluded (ok (result, usage), s) =
      or_fail-Concluded
        (mutate_in out.persist_completed (finishing result usage) (out.concluding s))
        (completes result usage (out.concluding s))

  module _
      (answers : (q : RunnerRequest) → (r : Result RunnerResult) × (out.runner q ≡ some r)) where
    -- the attempt comes to an outcome
    abbrev Comes : Option (Result (RunnerResult × Option RunUsage) × ServiceState) → Type 0
    Comes o = (x : Result (RunnerResult × Option RunUsage) × ServiceState) × (o ≡ some x)

    either-Comes :
        (b : Bool) {o q : Option (Result (RunnerResult × Option RunUsage) × ServiceState)}
        → Comes o
        → Comes q
        → Comes (if b then o else q)
    either-Comes true h k = h
    either-Comes false h k = k

    run_with-Comes :
        (prompt : String) (thread_id url : Option String) (x : Result (Unit {0}) × ServiceState)
        → Comes (run_with config out run a prompt thread_id url x)
    run_with-Comes prompt thread_id url (err e, s) = (_, refl)
    run_with-Comes prompt thread_id url (ok u, s) =
        let (r, q) = answers (request_for run a prompt thread_id url) in
        (ran config out run a r (out.running s), ap (answered_run config out run a s) q)

    run_recalling-Comes :
        (recalled : RecallResult) (thread_id url : Option String) (s : ServiceState)
        (es : List MemoryEntry)
        → Comes (run_recalling config out run a recalled thread_id url s es)
    run_recalling-Comes recalled thread_id url s [] =
        run_with-Comes run.prompt thread_id url (ok tt, s)
    run_recalling-Comes recalled thread_id url s (e ∷ es) = run_with-Comes _ thread_id url _

    guarded-Comes :
        (thread_id url : Option String) (s : ServiceState)
        → Comes (guarded config out run a thread_id url s)
    unfolding guarded
    guarded-Comes thread_id url s =
        either-Comes (includes s.termination_barriers a.id || includes s.cancellation_requests a.id)
          (_, refl)
          (either-Comes out.memory
            (run_recalling-Comes (recall out.byte_length a.id out.now s.db).0 thread_id url s _)
            (run_with-Comes run.prompt thread_id url (ok tt, s)))

    proxied-Comes :
        (s : ServiceState) (r : Result (Option String)) → Comes (proxied config out run a s r)
    proxied-Comes s (err e) = (_, refl)
    proxied-Comes s (ok url) = guarded-Comes _ url (out.preparing s)

    attempt-Comes : (s : ServiceState) → Comes (attempt config out run a s)
    unfolding attempt
    attempt-Comes s =
        either-Comes (includes s.cancellation_requests a.id) (_, refl)
          (proxied-Comes s (proxy_address out.egress))

    -- When the runner answers every request and the disk takes the start and the failure of a run, the execution
    -- ends without an error of its own, whatever the answer is and whatever the memories, the proxy and the rest
    -- of the server do. Then the run, if it and its agent are stored, is over, and the agent is neither busy nor
    -- waiting.
    pub execute_run-Over :
        (s : ServiceState)
        → Takes out.persist_start
        → (x : Result (Unit {0}) × ServiceState) × (execute_run config out run a s ≡ some x)
          × (x.0 ≡ ok tt)
          × Over run.id a.id x.1.db
    unfolding execute_run mutate_in
    execute_run-Over s k =
        let (db, e) = start-eq out.event_id run out.now s s.db in
        let h =
          mutate-ok out.persist_start (start_mutation out.event_id run out.now s) s.db tt db e
            (k db) in
        let (y, q) = attempt-Comes (record s { db = db }) in
        (
          conclude config out run a y,
          ap (λ x. begun_run config out run a (x.0, record s { db = x.1 })) h
              ∙ ap (concluded config out run a) q,
          (conclude-Concluded y).0,
          (conclude-Concluded y).1,
        )
