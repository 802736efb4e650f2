-- ===== src/Service/Barrier.antt =====
-- A termination keeps messages out, whatever else the service does meanwhile.
use tik_tok_tech_jam.Base.{
  String, ◌==◌, ◌≡◌, ◌≢◌, refl, sym, Bool, true, false, inl, inr, Option, none, some, List, [], ◌∷◌,
  includes, add, arith, eq_iff, eq_refl, ◌∙◌, ap, is_none, Option-cases, Bool-cases, All,
}
use tik_tok_tech_jam.Types.{Agent, ApprovalActor, ApprovalRequest, AgentRun, Message}
use tik_tok_tech_jam.Errors.{http, Result, ok, err}
use tik_tok_tech_jam.Errors.Guards.{IsErr, failed, IsErr-ok, IsErr_of_not_ok, bind-IsErr_left}
use tik_tok_tech_jam.Store.Laws.{mutate-IsErr}
use tik_tok_tech_jam.Service.Admission.{admissible_sound}
use tik_tok_tech_jam.Store.{Persist, mutate}
use tik_tok_tech_jam.Terminator.{
  World, Outside, begin_termination, end_termination, freeze_agent, agent_in,
}
use tik_tok_tech_jam.Service.{
  AppConfig, ServiceState, mutate_in, without_id, prompt_violation, is_model_configured,
}
use tik_tok_tech_jam.Service.Cancel.{
  deny_mutation, deny_pending_approvals, released, release_pending,
}
use tik_tok_tech_jam.Service.Lifecycle.{finish_start}
use tik_tok_tech_jam.Service.Approvals.{
  resolve_mutation, answered, answer, deregister, approval_in, clear_pending, is_answered,
}
use tik_tok_tech_jam.Service.Requests.{register}
use tik_tok_tech_jam.Service.Messages.{
  admissible, admit_mutation, launched, Draw, send_message, unconfigured,
}
use tik_tok_tech_jam.Service.Execution.{execution_over}
use tik_tok_tech_jam.Service.History.{
  world_of, with_world, begun, Step, end, begin, create, update, create_session, select_session,
  enter, leave, request_cancel, cancel_over, finish_execution, clear, deny, delete, set_status,
  finish_starting, quarantine, registering, hold, publish, resolve, resumed, admit, start_run,
  complete, fail, note, freeze, perform, history,
}

pub includes-add_self : (x : String) (s : List String) → includes (add x s) x ≡ true
includes-add_self x s = ground (arith, eq_refl x)

includes-add_keeps :
    (x y : String) (s : List String) → includes s y ≡ true → includes (add x s) y ≡ true
includes-add_keeps x y s h = ground arith

includes-without_id :
    (x y : String) (s : List String)
    → x ≢ y
    → includes s y ≡ true
    → includes (without_id x s) y ≡ true
includes-without_id x y [] n h = cc
includes-without_id x y (z ∷ s) n h = elim (Bool-cases (z == x)) [
  | inl e ↦
      let k : z ≡ x = (eq_iff z x).0 e in
      let d : (y == z) ≡ false = elim (Bool-cases (y == z)) [
        | inl t ↦ absurd (n (sym k ∙ sym ((eq_iff y z).0 t)))
        | inr f ↦ f
      ] in
      rw e (includes-without_id x y s n (ground arith))
  | inr e ↦ rw e (ground (arith, includes-without_id x y s n))
]

-- the agent is being terminated, and its barrier is up
abbrev pub Terminating : String → ServiceState → Type 0
Terminating id s =
    (includes s.termination_barriers id ≡ true) × (includes s.terminations_in_progress id ≡ true)

begin-Terminating :
    (x id : String) (s : ServiceState)
    → Terminating id s
    → Terminating id (begun s (begin_termination x (world_of s)))
unfolding begin_termination
begin-Terminating x id s h = elim (Bool-cases (includes s.terminations_in_progress x)) [
  | inl e ↦ rw e h
  | inr e ↦ rw e (includes-add_keeps x id s.termination_barriers h.0, ground (arith, h.1))
]

freeze-Terminating :
    (out : Outside) (x id : String) (s : ServiceState)
    → Terminating id s
    → Terminating id (with_world s (freeze_agent out x (world_of s)).1)
unfolding freeze_agent
freeze-Terminating out x id s h = elim (Bool-cases (is_none (agent_in x s.db))) [
  | inl e ↦ rw e h
  | inr e ↦ rw e (includes-add_keeps x id s.termination_barriers h.0, h.1)
]

finish_start-Terminating :
    (x id : String) (r : Result Agent) (s : ServiceState)
    → Terminating id s
    → Terminating id (finish_start x r s).1
unfolding finish_start
finish_start-Terminating x id (err e) s h = h
finish_start-Terminating x id (ok a) s h =
    elim (Bool-cases (includes s.terminations_in_progress x)) [
      | inl e ↦ rw e h
      | inr e ↦ rw e (
        includes-without_id x id s.termination_barriers
            (λ k. cc (let q : includes s.terminations_in_progress x ≡ true = rw k h.1 in q, e)) h.0,
        h.1,
      )
    ]

released-Terminating :
    (x id : String) (r : Result (Unit {0})) (s : ServiceState)
    → Terminating id s
    → Terminating id (released x r s).1
unfolding release_pending
released-Terminating x id (err e) s h = h
released-Terminating x id (ok u) s h = h

answer-Terminating :
    (x id : String) (b : Bool) (s : ServiceState) → Terminating id s → Terminating id (answer x b s)
answer-Terminating x id b s h = elim (Bool-cases (is_answered x s.answers)) [
  | inl e ↦ rw e h
  | inr e ↦ rw e h
]

answered-Terminating :
    (p : Option ApprovalRequest) (x id : String) (b : Bool) (r : Result ApprovalRequest)
    (s : ServiceState)
    → Terminating id s
    → Terminating id (answered p x b r s).1
unfolding answered
answered-Terminating p x id b (err e) s h = h
answered-Terminating none x id b (ok a) s h = h
answered-Terminating (some p) x id b (ok a) s h = answer-Terminating x id b (deregister x s) h

clear-Terminating :
    (x id : String) (s : ServiceState) → Terminating id s → Terminating id (clear_pending x s)
unfolding clear_pending
clear-Terminating x id s h = elim (Option-cases (approval_in x s.pending_approvals)) [
  | inl e ↦ rw (e, clear_pending) h
  | inr (a, e) ↦ rw (e, clear_pending) (answer-Terminating x id false (deregister x s) h)
]

launched-Terminating :
    (v : Option String) (x id : String) (r : Result (Agent × AgentRun × Message)) (s : ServiceState)
    → Terminating id s
    → Terminating id (launched v x (r, s)).1
unfolding launched
launched-Terminating v x id (err e) s h = h
launched-Terminating (some v) x id (ok a) s h = h
launched-Terminating none x id (ok a) s h = h

-- every step but the end of the termination
perform-Terminating :
    (config : AppConfig) (persist : Persist) (x : Step) (id : String) (s : ServiceState)
    → x ≢ end id
    → Terminating id s
    → Terminating id (perform config persist x s)
unfolding perform mutate_in execution_over register end_termination deny_pending_approvals
perform-Terminating config persist (create a session principal) id s n h = h
perform-Terminating config persist (update x input now) id s n h = h
perform-Terminating config persist (create_session session) id s n h = h
perform-Terminating config persist (select_session session now) id s n h = h
perform-Terminating config persist (enter x) id s n h = h
perform-Terminating config persist (leave x) id s n h = h
perform-Terminating config persist (request_cancel x) id s n h = h
perform-Terminating config persist (cancel_over x) id s n h = h
perform-Terminating config persist (finish_execution x) id s n h = h
perform-Terminating config persist (clear x) id s n h = clear-Terminating x id s h
perform-Terminating config persist (begin x) id s n h = begin-Terminating x id s h
perform-Terminating config persist (end x) id s n h =
    (h.0, (includes-without_id x id s.terminations_in_progress (λ e. n (ap end e)) h.1))
perform-Terminating config persist (deny event_id x who now) id s n h =
    released-Terminating x id (mutate persist (deny_mutation config event_id x who now s) s.db).0
      (mutate_in persist (deny_mutation config event_id x who now) s).1 h
perform-Terminating config persist (delete x) id s n h = h
perform-Terminating config persist (set_status x status now) id s n h = h
perform-Terminating config persist (finish_starting x r) id s n h =
    finish_start-Terminating x id r s h
perform-Terminating config persist (quarantine x reason now) id s n h = h
perform-Terminating config persist (registering a) id s n h = h
perform-Terminating config persist (hold event_id a aborted) id s n h = h
perform-Terminating config persist (publish out a request) id s n h = h
perform-Terminating config persist (resolve p event_id x b who now) id s n h =
    answered-Terminating p x id b
      (mutate persist (resolve_mutation config p event_id x b who now s) s.db).0
      (mutate_in persist (resolve_mutation config p event_id x b who now) s).1 h
perform-Terminating config persist (resumed x) id s n h = h
perform-Terminating config persist (admit draw x prompt human) id s n h =
    launched-Terminating (prompt_violation config prompt) x id
      (mutate persist (admit_mutation config draw x prompt human s) s.db).0
      (mutate_in persist (admit_mutation config draw x prompt human) s).1 h
perform-Terminating config persist (start_run event_id run now) id s n h = h
perform-Terminating config persist (complete m e x run result usage now) id s n h = h
perform-Terminating config persist (fail e x run failure now) id s n h = h
perform-Terminating config persist (note e) id s n h = h
perform-Terminating config persist (freeze out x) id s n h = freeze-Terminating out x id s h

-- no step of a sequence ends the termination
abbrev pub Endless : String → List (Persist × Step) → Type 0
Endless id xs = All (λ x. x.1 ≢ end id) xs

pub history-Terminating :
    (config : AppConfig) (xs : List (Persist × Step)) (id : String) (s : ServiceState)
    → Endless id xs
    → Terminating id s
    → Terminating id (history config xs s)
unfolding history
history-Terminating config [] id s n h = h
history-Terminating config ((persist, x) ∷ xs) id s n h =
    history-Terminating config xs id (perform config persist x s) n.1
      (perform-Terminating config persist x id s n.0 h)

launched-IsErr :
    (v : Option String) (id : String) (r : Result (Agent × AgentRun × Message)) (s : ServiceState)
    → IsErr r
    → IsErr (launched v id (r, s)).0
unfolding launched
launched-IsErr v id (err e) s h = failed e
launched-IsErr v id (ok a) s h = absurd (IsErr-ok a h)

abbrev pub during :
    AppConfig → List (Persist × Step) → List (Persist × Step) → String → ServiceState → ServiceState
during config before after id s =
    let t = history config before s in
    history config after (begun t (begin_termination id (world_of t)))

begun-Terminating :
    (id : String) (s : ServiceState) (w : World)
    → begin_termination id (world_of s) ≡ ok w
    → Terminating id (begun s (begin_termination id (world_of s)))
unfolding begin_termination
begun-Terminating id s w h = elim (Bool-cases (includes s.terminations_in_progress id)) [
  | inl e ↦ cc (
    let q : begin_termination id (world_of s)
            ≡ err (http 409 "This Agent is already being terminated") =
          rw e refl in
        q,
    h,
  )
  | inr e ↦ rw e (includes-add_self id s.termination_barriers, ground (arith, eq_refl id))
]

refused :
    (config : AppConfig) (persist : Persist) (draw : Draw) (id prompt : String)
    (human : Option ApprovalActor) (s : ServiceState)
    → Terminating id s
    → IsErr (mutate_in persist (admit_mutation config draw id prompt human) s).0
unfolding mutate_in admit_mutation
refused config persist draw id prompt human s h =
    mutate-IsErr persist (admit_mutation config draw id prompt human s) s.db (
      bind-IsErr_left (admissible id s s.db) _ (
        IsErr_of_not_ok (admissible id s s.db)
          λ a q. cc ((admissible_sound id s s.db a q).no_barrier, h.0)))

-- A message whose admission waits while a termination of its agent begins is refused, whatever the service does
-- before and after that, as long as that termination is not over.
pub send_message-refused :
    (config : AppConfig) (persist : Persist) (draw : Draw) (id prompt : String)
    (human : Option ApprovalActor) (before after : List (Persist × Step)) (s : ServiceState)
    (w : World)
    → begin_termination id (world_of (history config before s)) ≡ ok w
    → Endless id after
    → IsErr (send_message config persist (during config before after id) draw id prompt human s).0
unfolding send_message
send_message-refused config persist draw id prompt human before after s w h n =
    let t = history config before s in
    let u = during config before after id s in
    let k : Terminating id u =
      history-Terminating config after id (begun t (begin_termination id (world_of t))) n
        (begun-Terminating id t w h) in
    elim (Bool-cases (is_model_configured config)) [
      | inl e ↦ rw e (
          launched-IsErr (prompt_violation config prompt) id
            (mutate_in persist (admit_mutation config draw id prompt human) u).0
            (mutate_in persist (admit_mutation config draw id prompt human) u).1
            (refused config persist draw id prompt human u k))
      | inr e ↦ rw e (failed (unconfigured config))
    ]
