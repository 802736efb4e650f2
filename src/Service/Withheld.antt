-- ===== src/Service/Withheld.antt =====
-- A step that needs an approval does not go on without one.
use tik_tok_tech_jam.Base.{
  String, ◌≡◌, refl, sym, ap, subst, ◌∙◌, Bool, true, false, inl, inr, Option, none, some, [], ◌∷◌,
  ◌++◌, In, In-append_right, Bool-cases,
}
use tik_tok_tech_jam.Types.{Agent, AgentRun, ApprovalRequest, Database}
use tik_tok_tech_jam.Errors.{Failure, run_cancelled, Result, ok, err}
use tik_tok_tech_jam.Errors.Guards.{guard-ok, ok_or}
use tik_tok_tech_jam.Store.Laws.{mutate_atomic}
use tik_tok_tech_jam.Policies.Risk.{RunnerStepEvent, before, evaluate_action_risk}
use tik_tok_tech_jam.Terminator.{PauseResult, paused, idle, failed}
use tik_tok_tech_jam.Service.{AppConfig, ServiceState, mutate_in, append_run_event}
use tik_tok_tech_jam.Service.Cancel.{is_pending}
use tik_tok_tech_jam.Service.Requests.{register}
use tik_tok_tech_jam.Service.Steps.{
  StepOutside, StepEnd, over, waits, throws, is_before, is_cancelling, trips_canary, record_step,
  recorded_then, recorded_end,
}
use tik_tok_tech_jam.Service.Gate.{
  on_step, gate_step, gate_approval, held_if, hold_step, publish_mutation, pause_result,
  unpublished,
}
use tik_tok_tech_jam.Service.Resume.{decided_step, resumption}

-- the approval is stored and registered, and it is pending
abbrev pub Awaited : String → ServiceState → Type 0
Awaited id s =
    (a : ApprovalRequest) × (a.id ≡ id)
    × (is_pending a.status ≡ true)
    × In a s.db.approvals
    × In a s.pending_approvals

-- The step failed, or waits: then the runner is paused. It did not return.
abbrev pub Withheld : StepOutside → StepEnd × ServiceState → Type 0
Withheld out (throws e v, s) = Unit
Withheld out (over v, s) = ⊥
Withheld out (waits id, s) = (out.pause ≡ some (ok paused)) × Awaited id s

module _ (config : AppConfig) (out : StepOutside) (a : Agent) where
  unpublished-Withheld :
      (e : Failure) (rule : String) (s : ServiceState) → Withheld out (unpublished e rule, s)
  unpublished-Withheld run_cancelled rule s = tt
  unpublished-Withheld (Failure.http n m) rule s = tt
  unpublished-Withheld (Failure.policy_violation k n m) rule s = tt
  unpublished-Withheld (Failure.authority_denied d) rule s = tt
  unpublished-Withheld (Failure.thrown m) rule s = tt

  publish-In :
      (request : ApprovalRequest) (s : ServiceState) (db next : Database)
      → publish_mutation config out a request s db ≡ ok (tt, next)
      → In request next.approvals
  unfolding publish_mutation append_run_event
  publish-In request s db next f =
      let (g, h) = guard-ok (is_cancelling a s) run_cancelled _ (tt, next) f in
      let k : db.approvals ++ request ∷ [] ≡ next.approvals =
        ap (λ (x : Result (Unit {0} × Database)). (ok_or (tt, db) x).1.approvals) h in
      subst (In request) k (In-append_right db.approvals (request ∷ []) request (inl refl))

  hold_step-Withheld :
      (request : ApprovalRequest) (s : ServiceState)
      → out.pause ≡ some (ok paused)
      → is_pending request.status ≡ true
      → Withheld out (hold_step config out a request s)
  unfolding hold_step mutate_in register
  hold_step-Withheld request s p q =
      elim (mutate_atomic out.persist (publish_mutation config out a request t) s.db) [
        | inl (e, r, k) ↦ rw r (unpublished-Withheld e request.rule_id _)
        | inr (u, next, f, w, r) ↦
            rw r (p, (request, refl, q, publish-In request t s.db next f, inl refl))
      ]
    where
      t : ServiceState
      t = register request s

  held_if-Withheld :
      (request : ApprovalRequest) (r : PauseResult) (s : ServiceState)
      → (r ≡ paused → out.pause ≡ some (ok paused))
      → is_pending request.status ≡ true
      → Withheld out (held_if config out a request r s)
  held_if-Withheld request paused s p q = hold_step-Withheld request s (p refl) q
  held_if-Withheld request idle s p q = tt
  held_if-Withheld request failed s p q = tt

  paused-inv : (b : Bool) (r : Result PauseResult) → pause_result b r ≡ paused → r ≡ ok paused
  paused-inv true r h = cc
  paused-inv false (err e) h = cc
  paused-inv false (ok r) h = ap ok h

  gate_step-Withheld :
      (request : ApprovalRequest) (o : Option (Result PauseResult)) (s : ServiceState)
      → o ≡ out.pause
      → is_pending request.status ≡ true
      → Withheld out (gate_step config out a request o s)
  unfolding gate_step
  gate_step-Withheld request none s p q = tt
  gate_step-Withheld request (some r) s p q = elim (Bool-cases (is_cancelling a (out.pausing s))) [
    | inl e ↦ rw e tt
    | inr e ↦ rw e (
        held_if-Withheld request (pause_result (is_cancelling a s) r) (out.pausing s)
          (λ h. sym p ∙ ap some (paused-inv (is_cancelling a s) r h)) q)
  ]

on_step-Withheld :
    (config : AppConfig) (out : StepOutside) (run : AgentRun) (a : Agent) (step : RunnerStepEvent)
    (s : ServiceState)
    → (evaluate_action_risk out.risks step).requires_approval ≡ true
    → step.phase ≡ some before
    → trips_canary config step ≡ false
    → Withheld out (on_step config out run a step s)
unfolding on_step
on_step-Withheld config out run a step s r p t =
    let before_step : is_before step.phase ≡ true = ap is_before p in
    elim (Bool-cases (is_cancelling a s)) [
      | inl e ↦ rw e tt
      | inr e ↦
          rw (e, t, r, before_step)
            (gate_step-Withheld config out a
              (gate_approval out run a step (evaluate_action_risk out.risks step)) out.pause s refl
              refl)
    ]

-- A step that is over was approved, and the runner resumed.
abbrev pub Resumed : StepOutside → Bool → StepEnd → Type 0
Resumed out approve (over v) = (approve ≡ true) × (out.resume ≡ some (ok true))
Resumed out approve (waits id) = ⊥
Resumed out approve (throws e v) = Unit

resumed-inv : (o : Option (Result Bool)) → ((resumption o).0 ≡ false → ⊥) → o ≡ some (ok true)
resumed-inv none h = absurd (h refl)
resumed-inv (some (err e)) h = absurd (h refl)
resumed-inv (some (ok true)) h = refl
resumed-inv (some (ok false)) h = absurd (h refl)

recorded_end-Resumed :
    (out : StepOutside) (approve : Bool) (r : Result (Unit {0}))
    → approve ≡ true
    → out.resume ≡ some (ok true)
    → Resumed out approve (recorded_end r)
recorded_end-Resumed out approve (ok u) h k = (h, k)
recorded_end-Resumed out approve (err e) h k = tt

recorded-Resumed :
    (config : AppConfig) (out : StepOutside) (run : AgentRun) (a : Agent) (step : RunnerStepEvent)
    (approve : Bool) (x : Result (Unit {0}) × ServiceState)
    → approve ≡ true
    → out.resume ≡ some (ok true)
    → Resumed out approve (recorded_then config out run a step x).0
unfolding record_step
recorded-Resumed config out run a step approve (err e, s) h k = tt
recorded-Resumed config out run a step approve (ok u, s) h k =
    recorded_end-Resumed out approve _ h k

decided_step-Resumed :
    (config : AppConfig) (out : StepOutside) (run : AgentRun) (a : Agent) (step : RunnerStepEvent)
    (rule : String) (approve : Bool) (s : ServiceState)
    → Resumed out approve (decided_step config out run a step rule approve s).0
unfolding decided_step
decided_step-Resumed config out run a step rule approve s = elim (Bool-cases (is_cancelling a s)) [
  | inl e ↦ rw e tt
  | inr e ↦ elim (Bool-cases approve) [
    | inr d ↦ rw (e, d) tt
    | inl d ↦ elim (Bool-cases (is_cancelling a (out.resuming s))) [
      | inl c ↦ rw (e, d, c) tt
      | inr c ↦ elim (Bool-cases (resumption out.resume).0) [
        | inr f ↦ rw (e, d, c, f) tt
        | inl f ↦
            let k : out.resume ≡ some (ok true) = resumed-inv out.resume (λ n. cc (f, n)) in
            rw (e, d, c, f) (recorded-Resumed config out run a step true _ refl k)
      ]
    ]
  ]
]

-- A step that needs an approval, is reported before its effect and does not contain the canary never returns by
-- itself: it throws, or it waits with the runner paused and its approval stored, registered and pending. Once
-- decided it never waits again, and it returns only if the decision was to approve it and the runner resumed.
pub step-Withheld :
    (config : AppConfig) (out : StepOutside) (run : AgentRun) (a : Agent) (step : RunnerStepEvent)
    (rule : String) (approve : Bool) (s t : ServiceState)
    → (evaluate_action_risk out.risks step).requires_approval ≡ true
    → step.phase ≡ some before
    → trips_canary config step ≡ false
    → Withheld out (on_step config out run a step s)
      × Resumed out approve (decided_step config out run a step rule approve t).0
step-Withheld config out run a step rule approve s t h k n = (
  on_step-Withheld config out run a step s h k n,
  decided_step-Resumed config out run a step rule approve t,
)
