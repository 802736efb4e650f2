-- ===== src/Terminator/Contained.antt =====
-- What a receipt that claims containment says of the world that was verified, and when a termination ends.
use tik_tok_tech_jam.Base.{
  ◌==◌, ◌≡◌, refl, sym, subst, ap, ◌∙◌, String, Bool, true, false, not, Option, none, some, List,
  [], ◌∷◌, all, filter, arith, eq_iff, if◌then◌else◌, includes,
}
use tik_tok_tech_jam.Types.{Instant, Agent}
use tik_tok_tech_jam.Errors.{Result, ok, err}
use tik_tok_tech_jam.Termination.{ReceiptKeyPair, Json}
use tik_tok_tech_jam.Termination.Receipts.{Crypto}
use tik_tok_tech_jam.Terminator.{World, Outside, agent_in, begin_termination, end_termination}
use tik_tok_tech_jam.Terminator.Steps.{freeze_step}
use tik_tok_tech_jam.Terminator.Verify.{gather, verify_containment, probed}
use tik_tok_tech_jam.Terminator.Run.{
  Moment, before_verify, Receipt, Stages, stages, frozen_stages, fallback_stages, body_of, settle,
  record_and_end, terminate_known, terminate_begun, terminate_found, terminate,
}
use tik_tok_tech_jam.Terminator.Clear.{IsContained, verify_outcome-IsClear, clear-IsContained}

if-both : {A : Type 0} (P : A → Type 0) (c : Bool) (x y : A) → P x → P y → P (if c then x else y)
if-both P true x y p q = p
if-both P false x y p q = q

module _ (out : Outside) (others : Moment → World → World) (clock : Moment → Instant) where
  verify-IsContained :
      (agent_id principal_id : String) (w : World)
      → (verify_containment out agent_id principal_id (clock before_verify) w).ok ≡ true
      → IsContained agent_id principal_id (clock before_verify) w
  unfolding verify_containment
  verify-IsContained agent_id principal_id w h =
      clear-IsContained agent_id principal_id (clock before_verify) w (
        verify_outcome-IsClear (out.iso (clock before_verify))
          (gather agent_id principal_id (clock before_verify) w) out.confirm_stopped
          (probed out.probe) h)

  -- a claim of containment is borne out by the world that was verified
  Vouched : String → String → Stages → Type 0
  Vouched agent_id principal_id s =
      all (λ step. step.ok) s.steps ≡ true
      → IsContained agent_id principal_id (clock before_verify) s.verified

  stages-Vouched :
      (agent_id principal_id reason : String) (now : Instant) (w : World)
      → Vouched agent_id principal_id (stages out others clock agent_id principal_id reason now w)
  unfolding stages Vouched
  stages-Vouched agent_id principal_id reason now w =
      if-both (Vouched agent_id principal_id) (freeze_step out agent_id now w).0.ok
        (frozen_stages out others clock agent_id principal_id reason
          (freeze_step out agent_id now w).0 (freeze_step out agent_id now w).1)
        (fallback_stages out others clock agent_id principal_id reason
          (freeze_step out agent_id now w).0 (freeze_step out agent_id now w).1)
        (λ h. verify-IsContained agent_id principal_id _ (ground arith))
        (λ h. verify-IsContained agent_id principal_id _ (ground arith))

  module _ (crypto : Crypto) (keys : ReceiptKeyPair) (stringify : Json → String)
      (event_id : String) where
    not_in_progress :
        (agent_id : String) (ids : List String)
        → includes (filter (λ id. not (id == agent_id)) ids) agent_id ≡ false
    not_in_progress agent_id [] = refl
    not_in_progress agent_id (x ∷ xs) =
        ground (arith, not_in_progress agent_id xs, eq_iff x agent_id, eq_iff agent_id x)

    settle-receipt :
        (agent_id : String) (r receipt : Receipt) (q : Result (Unit {0})) (w after : World)
        → settle out others clock crypto keys stringify event_id agent_id r q w
          ≡ (ok receipt, after)
        → (r ≡ receipt) × (includes after.terminations_in_progress agent_id ≡ false)
    unfolding end_termination
    settle-receipt agent_id r receipt (err e) w after h = cc (ap (λ x. x.0) h)
    settle-receipt agent_id r receipt (ok u) w after h = (
      let q = ap (λ x. x.0) h in cc q,
      subst (λ x. includes x.terminations_in_progress agent_id ≡ false) (ap (λ x. x.1) h)
          (not_in_progress agent_id w.terminations_in_progress),
    )

    -- What a returned receipt says: it is for the agent's principal, the termination is over, and if it claims
    -- containment then the world that was verified bears it out.
    record Ends (agent_id reason : String) (now : Instant) (w : World) (receipt : Receipt)
        (after : World) : Type 0 where
      found : Agent
      is_found : agent_in agent_id w.db ≡ some found
      begun : World
      is_begun : begin_termination agent_id w ≡ ok begun
      names : receipt.body.agent_principal_id ≡ found.principal_id
      over : includes after.terminations_in_progress agent_id ≡ false
      contained :
          receipt.body.contained ≡ true
          → IsContained agent_id found.principal_id
              (clock before_verify)
              (stages out others clock agent_id found.principal_id reason now begun).verified

    known-Ends :
        (agent_id reason : String) (now : Instant) (w : World) (a : Agent) (begun after : World)
        (receipt : Receipt)
        → agent_in agent_id w.db ≡ some a
        → begin_termination agent_id w ≡ ok begun
        → terminate_known out others clock crypto keys stringify event_id agent_id a.principal_id
            reason now begun
          ≡ (ok receipt, after)
        → Ends agent_id reason now w receipt after
    unfolding terminate_known record_and_end body_of Vouched
    known-Ends agent_id reason now w a begun after receipt f g h =
        let (e, d) = settle-receipt agent_id _ receipt _ _ after h in
        record {
          found = a;
          is_found = f;
          begun = begun;
          is_begun = g;
          names = ap (λ r. r.body.agent_principal_id) (sym e);
          over = d;
          contained = λ c.
              stages-Vouched agent_id a.principal_id reason now begun
                (ap (λ r. r.body.contained) e ∙ c);
        }

    begun-Ends :
        (agent_id reason : String) (now : Instant) (w : World) (a : Agent) (r : Result World)
        (after : World) (receipt : Receipt)
        → agent_in agent_id w.db ≡ some a
        → begin_termination agent_id w ≡ r
        → terminate_begun out others clock crypto keys stringify event_id agent_id a.principal_id
            reason now r w
          ≡ (ok receipt, after)
        → Ends agent_id reason now w receipt after
    begun-Ends agent_id reason now w a (err e) after receipt f g h = cc (ap (λ x. x.0) h)
    begun-Ends agent_id reason now w a (ok begun) after receipt f g h =
        known-Ends agent_id reason now w a begun after receipt f g h

    found-Ends :
        (agent_id reason : String) (now : Instant) (w : World) (o : Option Agent) (after : World)
        (receipt : Receipt)
        → agent_in agent_id w.db ≡ o
        → terminate_found out others clock crypto keys stringify event_id o agent_id reason now w
          ≡ (ok receipt, after)
        → Ends agent_id reason now w receipt after
    found-Ends agent_id reason now w none after receipt f h = cc (ap (λ x. x.0) h)
    found-Ends agent_id reason now w (some a) after receipt f h =
        begun-Ends agent_id reason now w a (begin_termination agent_id w) after receipt f refl h

    Ends-of :
        (agent_id reason : String) (now : Instant) (w after : World) (receipt : Receipt)
        → terminate out others clock crypto keys stringify event_id agent_id reason now w
          ≡ (ok receipt, after)
        → Ends agent_id reason now w receipt after
    unfolding terminate
    Ends-of agent_id reason now w after receipt h =
        found-Ends agent_id reason now w (agent_in agent_id w.db) after receipt refl h

    -- A termination that returns a receipt which claims containment is over, the receipt names the principal of
    -- the stored agent, and in the world that the last step verified the agent does not run, is stopped and
    -- blocked, its principal holds no grant that is neither revoked nor expired, and none of its memories is
    -- open. What other work of the server did meanwhile is arbitrary.
    pub terminate-IsContained :
        (agent_id reason : String) (now : Instant) (w after : World) (receipt : Receipt)
        → terminate out others clock crypto keys stringify event_id agent_id reason now w
          ≡ (ok receipt, after)
        → receipt.body.contained ≡ true
        → (a : Agent) × (begun : World) × (agent_in agent_id w.db ≡ some a)
          × (begin_termination agent_id w ≡ ok begun)
          × (receipt.body.agent_principal_id ≡ a.principal_id)
          × (includes after.terminations_in_progress agent_id ≡ false)
          × IsContained agent_id a.principal_id
              (clock before_verify)
              (stages out others clock agent_id a.principal_id reason now begun).verified
    terminate-IsContained agent_id reason now w after receipt h c =
        let e = Ends-of agent_id reason now w after receipt h in
        (e.found, e.begun, e.is_found, e.is_begun, e.names, e.over, e.contained c)
