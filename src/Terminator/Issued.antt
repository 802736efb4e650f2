-- ===== src/Terminator/Issued.antt =====
-- Every receipt that a termination issues is well formed, so that it verifies.
use tik_tok_tech_jam.Base.{◌≡◌, refl, subst, inl, inr, String, false, arith, Bool-cases, is_none}
use tik_tok_tech_jam.Types.{Instant}
use tik_tok_tech_jam.Errors.{Result, ok, err}
use tik_tok_tech_jam.Store.Laws.{mutate-keeps}
use tik_tok_tech_jam.Termination.{freeze, kill, verify, TerminationStep, ReceiptKeyPair}
use tik_tok_tech_jam.Termination.Genuine.{Distinct, IsWellFormed}
use tik_tok_tech_jam.Terminator.{
  World, Outside, agent_in, freeze_agent, quarantine_agent, quarantined_world, stop_step,
  FreezeResult,
}
use tik_tok_tech_jam.Terminator.Steps.{freeze_step, freeze_reply, kill_step, kill_reply}
use tik_tok_tech_jam.Terminator.Verify.{
  verify_reply, verify_outcome, verify_containment, gather, probed,
}
use tik_tok_tech_jam.Terminator.Run.{
  Moment, before_revoke, before_kill, before_verify, Stages, stages, frozen_stages, fallback_stages,
  body_of,
}
use tik_tok_tech_jam.Terminator.Listed.{ids_of, HasIds, revoke_and_block-IsListed}

module _ (out : Outside) where
  freeze_reply-step : (at : String) (r : Result FreezeResult) → (freeze_reply at r).step ≡ freeze
  freeze_reply-step at (ok r) = refl
  freeze_reply-step at (err e) = refl

  freeze_step-step :
      (agent_id : String) (now : Instant) (w : World)
      → (freeze_step out agent_id now w).0.step ≡ freeze
  unfolding freeze_step
  freeze_step-step agent_id now w = freeze_reply-step (out.iso now) (freeze_agent out agent_id w).0

  freeze_step-HasIds :
      (agent_id : String) (now : Instant) (w : World)
      → HasIds w
      → HasIds (freeze_step out agent_id now w).1
  unfolding freeze_step freeze_agent
  freeze_step-HasIds agent_id now w d = elim (Bool-cases (is_none (agent_in agent_id w.db))) [
    | inl t ↦ rw t d
    | inr f ↦ rw f d
  ]

  kill_reply-step : (at : String) (r : Result (Unit {0})) → (kill_reply at r).step ≡ kill
  kill_reply-step at (ok r) = refl
  kill_reply-step at (err e) = refl

  kill_step-step :
      (agent_id reason : String) (now : Instant) (w : World)
      → (kill_step out agent_id reason now w).0.step ≡ kill
  unfolding kill_step
  kill_step-step agent_id reason now w =
      kill_reply-step (out.iso now) (quarantine_agent out agent_id reason now w).0

  cancelled-HasIds :
      (c : Result (Unit {0})) (agent_id reason : String) (now : Instant) (w : World)
      → HasIds w
      → HasIds (quarantined_world out c agent_id reason now w).1
  unfolding quarantined_world
  cancelled-HasIds (err e) agent_id reason now w d = d
  cancelled-HasIds (ok u) agent_id reason now w d =
      mutate-keeps (λ db. Distinct (ids_of db.memories)) out.persist_kill
        (stop_step agent_id reason now) w.db d
        (λ a next h.
          let q : w.db.memories ≡ next.memories = ground arith in
          subst (λ m. Distinct (ids_of m)) q d)

  kill_step-HasIds :
      (agent_id reason : String) (now : Instant) (w : World)
      → HasIds w
      → HasIds (kill_step out agent_id reason now w).1
  unfolding kill_step quarantine_agent
  kill_step-HasIds agent_id reason now w d = cancelled-HasIds out.cancel agent_id reason now w d

  verify_outcome-step :
      (at : String) (e : _) (c : _) (p : _) → (verify_outcome at e c p).step ≡ verify
  unfolding verify_reply
  verify_outcome-step at e (err f) p = refl
  verify_outcome-step at e (ok c) (err f) = refl
  verify_outcome-step at e (ok c) (ok p) = refl

  verify_containment-step :
      (agent_id principal_id : String) (now : Instant) (w : World)
      → (verify_containment out agent_id principal_id now w).step ≡ verify
  unfolding verify_containment
  verify_containment-step agent_id principal_id now w =
      verify_outcome-step (out.iso now) (gather agent_id principal_id now w) out.confirm_stopped
        (probed out.probe)

module _ (out : Outside) (others : Moment → World → World) (clock : Moment → Instant)
    (keys : ReceiptKeyPair) (agent_id principal_id reason : String) where
  Formed : Stages → Type 0
  Formed s = IsWellFormed (body_of out others clock agent_id principal_id reason keys s)

  frozen-Formed :
      (f : TerminationStep) (w : World)
      → f.step ≡ freeze
      → HasIds (others before_revoke w)
      → Formed (frozen_stages out others clock agent_id principal_id reason f w)
  unfolding Formed body_of
  frozen-Formed f w q d =
      let l =
        revoke_and_block-IsListed out agent_id principal_id (clock before_revoke)
          (others before_revoke w) d in
      record {
        first = _;
        second = _;
        third = _;
        last = _;
        steps_are = refl;
        froze = q;
        between = inl (l.named, kill_step-step out agent_id reason (clock before_kill) _);
        verified = verify_containment-step out agent_id principal_id (clock before_verify) _;
        grants = l.grants;
        memories = l.memories;
        claim = refl;
      }

  fallback-Formed :
      (f : TerminationStep) (w : World)
      → f.step ≡ freeze
      → f.ok ≡ false
      → HasIds (
          others before_revoke
            (kill_step out agent_id reason (clock before_kill) (others before_kill w)).1)
      → Formed (fallback_stages out others clock agent_id principal_id reason f w)
  unfolding Formed body_of
  fallback-Formed f w q n d =
      let l = revoke_and_block-IsListed out agent_id principal_id (clock before_revoke) _ d in
      record {
        first = _;
        second = _;
        third = _;
        last = _;
        steps_are = refl;
        froze = q;
        between = inr (n, kill_step-step out agent_id reason (clock before_kill) _, l.named);
        verified = verify_containment-step out agent_id principal_id (clock before_verify) _;
        grants = l.grants;
        memories = l.memories;
        claim = refl;
      }

  -- If no two stored memories share an id, and other work of the server keeps it so, then the receipt of a
  -- termination is well formed, whatever fails: its four steps stand in one of the two orders, the fallback only
  -- after a freeze that failed, no id is listed twice, and it claims containment exactly when all steps succeeded.
  pub stages-IsWellFormed :
      (now : Instant) (w : World)
      → ((m : Moment) (v : World) → HasIds v → HasIds (others m v))
      → HasIds w
      → IsWellFormed (
          body_of out others clock agent_id principal_id reason keys
            (stages out others clock agent_id principal_id reason now w))
  unfolding stages Formed
  stages-IsWellFormed now w keep d =
      let q = freeze_step-step out agent_id now w in
      let e = freeze_step-HasIds out agent_id now w d in
      elim (Bool-cases (freeze_step out agent_id now w).0.ok) [
        | inl t ↦
            rw t (frozen-Formed (freeze_step out agent_id now w).0 _ q (keep before_revoke _ e))
        | inr f ↦ rw f (
            fallback-Formed (freeze_step out agent_id now w).0 _ q f (
              keep before_revoke _ (
                kill_step-HasIds out agent_id reason (clock before_kill) _ (keep before_kill _ e))))
      ]
