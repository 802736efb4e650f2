-- ===== src/Service/Final.antt =====
-- Every step of the service keeps the decisions that were made.
use tik_tok_tech_jam.Base.{
  String, ◌≡◌, ◌≢◌, ap, ◌∙◌, Bool, false, ◌&&◌, ◌||◌, inl, inr, Option, none, some, List, [], ◌∷◌,
  includes, find, arith, Bool-cases, Option-cases, All, is_none,
}
use tik_tok_tech_jam.Types.{
  Instant, RunUsage, Agent, AgentRun, Message, Database, ApprovalRequest, ApprovalStatus, pending,
}
use tik_tok_tech_jam.Errors.{Failure, Result, ok, err}
use tik_tok_tech_jam.Errors.Guards.{Holds, bind-Holds, guard-Holds}
use tik_tok_tech_jam.Store.{Persist}
use tik_tok_tech_jam.Store.Laws.{mutate-Holds}
use tik_tok_tech_jam.Terminator.{
  Outside, begin_termination, end_termination, freeze_agent, agent_in,
}
use tik_tok_tech_jam.Service.{
  AppConfig, ServiceState, mutate_in, append_run_event, prompt_violation, get_agent,
  has_active_lifecycle,
}
use tik_tok_tech_jam.Service.Cancel.{
  deny_mutation, released, release_pending, deny_pending_approvals,
}
use tik_tok_tech_jam.Service.Agents.{create_mutation, update_mutation, of_id}
use tik_tok_tech_jam.Service.Lifecycle.{
  delete_mutation, status_mutation, quarantine_mutation, finish_start, is_ready,
}
use tik_tok_tech_jam.Service.Sessions.{create_session_mutation, select_session_mutation, free_agent}
use tik_tok_tech_jam.Service.Approvals.{
  resolve_mutation, answered, answer, deregister, is_answered, approval_in, clear_pending, run_in,
}
use tik_tok_tech_jam.Service.Requests.{hold_mutation, register, running_agent}
use tik_tok_tech_jam.Service.Messages.{
  Draw, admissible, admit_mutation, admitted, launched, new_run, new_message,
}
use tik_tok_tech_jam.Service.Runs.{
  RunnerResult, start_mutation, complete_mutation, completed_with, failed_with, failure_mutation,
  approval_ended,
}
use tik_tok_tech_jam.Service.Steps.{is_cancelling}
use tik_tok_tech_jam.Service.Gate.{publish_mutation}
use tik_tok_tech_jam.Service.Resume.{resumed_as, resumed_mutation}
use tik_tok_tech_jam.Service.Execution.{execution_over}
use tik_tok_tech_jam.Service.History.{
  world_of, with_world, begun, Step, end, begin, create, update, create_session, select_session,
  enter, leave, request_cancel, cancel_over, finish_execution, clear, deny, delete, set_status,
  finish_starting, quarantine, registering, hold, publish, resolve, resumed, admit, start_run,
  complete, fail, note, freeze, perform, history,
}
use tik_tok_tech_jam.Service.Decisions.{
  Decided, Decided-append, Decided-map, Decided-update, Decided-filter, Decided-deny,
  Decided-resolve,
}

-- the approval that a step adds, if it adds one
abbrev pub added_id : Step → Option String
added_id (hold event_id a aborted) = some a.id
added_id (publish out a request) = some request.id
added_id _ = none

module _ (status : ApprovalStatus) (id : String) (n : status ≢ pending) where
  abbrev Kept : Database → Type 0
  Kept db = Decided status id db.approvals

  abbrev KeptBy : {A : Type 0} → Result (A × Database) → Type 0
  KeptBy r = Holds (λ x. Kept x.1) r

  approval_ended_id :
      (x : String) (e : Failure) (a : ApprovalRequest) → (approval_ended x e a).id ≡ a.id
  approval_ended_id x e a = ground arith

  approval_ended_status :
      (x : String) (e : Failure) (a : ApprovalRequest) → (approval_ended x e a).status ≡ a.status
  approval_ended_status x e a = ground arith

  resumed_id : (a : ApprovalRequest) → (resumed_as a).id ≡ a.id
  resumed_id a = ground arith

  resumed_status : (a : ApprovalRequest) → (resumed_as a).status ≡ a.status
  resumed_status a = ground arith

  -- a mutation that keeps them, on its way through the disk
  written :
      {A : Type 0} (persist : Persist) (m : ServiceState → Database → Result (A × Database))
      (s : ServiceState)
      → Kept s.db
      → KeptBy (m s s.db)
      → Kept (mutate_in persist m s).1.db
  unfolding mutate_in
  written persist m s h k = mutate-Holds Kept persist (m s) s.db h k

  resumed-Kept : (x : String) (s : ServiceState) → Kept s.db → KeptBy (resumed_mutation x s s.db)
  unfolding resumed_mutation
  resumed-Kept x s h =
      Decided-update status id n _ resumed_as s.db.approvals resumed_id
        (λ a m q e d. resumed_status a ∙ d) h

  admitted-Kept :
      (config : AppConfig) (draw : Draw) (x prompt : String) (v : Option String) (a : Agent)
      (run : AgentRun) (message : Message) (db : Database)
      → Kept db
      → Kept (admitted config draw x prompt v a run message db)
  unfolding append_run_event
  admitted-Kept config draw x prompt none a run message db h = h
  admitted-Kept config draw x prompt (some v) a run message db h = h

  completed-Kept :
      (config : AppConfig) (m e : String) (run : AgentRun) (result : RunnerResult)
      (usage : Option RunUsage) (now : Instant) (r : Option AgentRun) (a : Option Agent)
      (db : Database)
      → Kept db
      → Kept (completed_with config m e run result usage now r a db)
  unfolding append_run_event
  completed-Kept config m e run result usage now (some r) (some a) db h = h
  completed-Kept config m e run result usage now (some r) none db h = h
  completed-Kept config m e run result usage now none a db h = h

  released-Kept :
      (x : String) (r : Result (Unit {0})) (s : ServiceState)
      → Kept s.db
      → Kept (released x r s).1.db
  unfolding release_pending
  released-Kept x (err e) s h = h
  released-Kept x (ok u) s h = h

  answer-Kept : (x : String) (b : Bool) (s : ServiceState) → Kept s.db → Kept (answer x b s).db
  answer-Kept x b s h = elim (Bool-cases (is_answered x s.answers)) [
    | inl e ↦ rw e h
    | inr e ↦ rw e h
  ]

  answered-Kept :
      (p : Option ApprovalRequest) (x : String) (b : Bool) (r : Result ApprovalRequest)
      (s : ServiceState)
      → Kept s.db
      → Kept (answered p x b r s).1.db
  unfolding answered
  answered-Kept p x b (err e) s h = h
  answered-Kept none x b (ok a) s h = h
  answered-Kept (some p) x b (ok a) s h = answer-Kept x b (deregister x s) h

  clear-Kept : (x : String) (s : ServiceState) → Kept s.db → Kept (clear_pending x s).db
  unfolding clear_pending
  clear-Kept x s h = elim (Option-cases (approval_in x s.pending_approvals)) [
    | inl e ↦ rw (e, clear_pending) h
    | inr (a, e) ↦ rw (e, clear_pending) (answer-Kept x false (deregister x s) h)
  ]

  launched-Kept :
      (v : Option String) (x : String) (r : Result (Agent × AgentRun × Message)) (s : ServiceState)
      → Kept s.db
      → Kept (launched v x (r, s)).1.db
  unfolding launched
  launched-Kept v x (err e) s h = h
  launched-Kept (some v) x (ok a) s h = h
  launched-Kept none x (ok a) s h = h

  finish_start-Kept :
      (x : String) (r : Result Agent) (s : ServiceState)
      → Kept s.db
      → Kept (finish_start x r s).1.db
  unfolding finish_start
  finish_start-Kept x (err e) s h = h
  finish_start-Kept x (ok a) s h = elim (Bool-cases (includes s.terminations_in_progress x)) [
    | inl e ↦ rw e h
    | inr e ↦ rw e h
  ]

  begin-Kept :
      (x : String) (s : ServiceState)
      → Kept s.db
      → Kept (begun s (begin_termination x (world_of s))).db
  unfolding begin_termination
  begin-Kept x s h = elim (Bool-cases (includes s.terminations_in_progress x)) [
    | inl e ↦ rw e h
    | inr e ↦ rw e h
  ]

  freeze-Kept :
      (out : Outside) (x : String) (s : ServiceState)
      → Kept s.db
      → Kept (with_world s (freeze_agent out x (world_of s)).1).db
  unfolding freeze_agent
  freeze-Kept out x s h = elim (Bool-cases (is_none (agent_in x s.db))) [
    | inl e ↦ rw e h
    | inr e ↦ rw e h
  ]

  perform-Decided :
      (config : AppConfig) (persist : Persist) (x : Step) (s : ServiceState)
      → added_id x ≢ some id
      → Kept s.db
      → Kept (perform config persist x s).db
  unfolding perform append_run_event register execution_over end_termination deny_pending_approvals
      create_mutation update_mutation create_session_mutation select_session_mutation deny_mutation
      delete_mutation status_mutation quarantine_mutation hold_mutation publish_mutation
      admit_mutation start_mutation complete_mutation failure_mutation failed_with
  perform-Decided config persist (create a session principal) s k h =
      written persist (create_mutation a session principal) s h h
  perform-Decided config persist (update x input now) s k h =
      written persist (update_mutation x input now) s h (
        bind-Holds _ (get_agent x s.db) _ λ a e.
          guard-Holds _ (has_active_lifecycle a.status || includes s.lifecycle_mutations x) _ _
            λ g. h)
  perform-Decided config persist (create_session session) s k h =
      written persist (create_session_mutation session) s h
        (bind-Holds _ (free_agent _ session.agent_id s s.db) _ λ a e. h)
  perform-Decided config persist (select_session session now) s k h =
      written persist (select_session_mutation session now) s h
        (bind-Holds _ (free_agent _ session.agent_id s s.db) _ λ a e. h)
  perform-Decided config persist (enter x) s k h = h
  perform-Decided config persist (leave x) s k h = h
  perform-Decided config persist (request_cancel x) s k h = h
  perform-Decided config persist (cancel_over x) s k h = h
  perform-Decided config persist (finish_execution x) s k h = h
  perform-Decided config persist (clear x) s k h = clear-Kept x s h
  perform-Decided config persist (begin x) s k h = begin-Kept x s h
  perform-Decided config persist (end x) s k h = h
  perform-Decided config persist (deny event_id x who now) s k h =
      released-Kept x (mutate_in persist (deny_mutation config event_id x who now) s).0
        (mutate_in persist (deny_mutation config event_id x who now) s).1
        (written persist (deny_mutation config event_id x who now) s h
          (Decided-deny status id n config event_id x who now s.db.approvals h))
  perform-Decided config persist (delete x) s k h =
      written persist (delete_mutation x) s h (Decided-filter status id n _ s.db.approvals h)
  perform-Decided config persist (set_status x new now) s k h =
      written persist (status_mutation x new now) s h (
        bind-Holds _ (get_agent x s.db) _ λ a e.
          guard-Holds _ (is_ready new && includes s.terminations_in_progress x) _ _ λ f.
            guard-Holds _
              (is_ready new && (has_active_lifecycle a.status || includes s.lifecycle_mutations x))
              _ _ λ g. h)
  perform-Decided config persist (finish_starting x r) s k h = finish_start-Kept x r s h
  perform-Decided config persist (quarantine x reason now) s k h =
      written persist (quarantine_mutation x reason now) s h h
  perform-Decided config persist (registering a) s k h = h
  perform-Decided config persist (hold event_id a aborted) s k h =
      written persist (hold_mutation event_id a aborted) s h (
        bind-Holds _ (running_agent a.run_id a.agent_id s.db) _ λ x e.
          guard-Holds _ (includes s.cancellation_requests a.agent_id || aborted) _ _
            λ g. Decided-append status id n s.db.approvals a (λ q. k (ap some q)) h)
  perform-Decided config persist (publish out a request) s k h =
      written persist (publish_mutation config out a request) s h (
        guard-Holds _ (is_cancelling a s) _ _
          λ g. Decided-append status id n s.db.approvals request (λ q. k (ap some q)) h)
  perform-Decided config persist (resolve p event_id x b who now) s k h =
      answered-Kept p x b (mutate_in persist (resolve_mutation config p event_id x b who now) s).0
        (mutate_in persist (resolve_mutation config p event_id x b who now) s).1
        (written persist (resolve_mutation config p event_id x b who now) s h
          (Decided-resolve status id n config p event_id x b who now s s.db h))
  perform-Decided config persist (resumed x) s k h =
      written persist (resumed_mutation x) s h (resumed-Kept x s h)
  perform-Decided config persist (admit draw x prompt human) s k h =
      launched-Kept (prompt_violation config prompt) x
        (mutate_in persist (admit_mutation config draw x prompt human) s).0
        (mutate_in persist (admit_mutation config draw x prompt human) s).1
        (written persist (admit_mutation config draw x prompt human) s h (
          bind-Holds _ (admissible x s s.db) _ λ a e.
            admitted-Kept config draw x prompt (prompt_violation config prompt) a
              (new_run config draw x prompt human a s.db) (new_message config draw x prompt a) s.db
              h))
  perform-Decided config persist (start_run event_id run now) s k h =
      written persist (start_mutation event_id run now) s h h
  perform-Decided config persist (complete m e x run result usage now) s k h =
      written persist (complete_mutation config m e x run result usage now) s h (
        completed-Kept config m e run result usage now (run_in run.id s.db.runs)
          (find (of_id x) s.db.agents) s.db h)
  perform-Decided config persist (fail e x run failure now) s k h =
      written persist (failure_mutation config e x run failure now) s h (
        Decided-map status id n (approval_ended run.id failure) s.db.approvals
          (approval_ended_id run.id failure) (approval_ended_status run.id failure) h)
  perform-Decided config persist (note e) s k h =
      written persist (λ x db. ok (e, append_run_event e db)) s h h
  perform-Decided config persist (freeze out x) s k h = freeze-Kept out x s h

  -- no step of a sequence adds an approval with the id
  abbrev pub Unadded : List (Persist × Step) → Type 0
  Unadded xs = All (λ x. added_id x.1 ≢ some id) xs

  -- Once every stored approval with an id is approved, or every one is denied, this stays so in every sequence of
  -- steps of the service that does not add an approval with that id.
  pub history-Decided :
      (config : AppConfig) (xs : List (Persist × Step)) (s : ServiceState)
      → Unadded xs
      → Decided status id s.db.approvals
      → Decided status id (history config xs s).db.approvals
  unfolding history
  history-Decided config [] s k h = h
  history-Decided config ((persist, x) ∷ xs) s k h =
      history-Decided config xs (perform config persist x s) k.1
        (perform-Decided config persist x s k.0 h)
