-- ===== src/Terminator/Run.antt =====
-- apps/server/src/terminator.ts: `terminate`, with `recordTermination` of agent-service.ts.
use tik_tok_tech_jam.Base.{
  String, Option, none, some, List, [], ◌∷◌, ◌++◌, all, if◌then◌else◌, template,
}
use tik_tok_tech_jam.Types.{Instant, Agent, Database, RunEvent, agent_terminated, success, error}
use tik_tok_tech_jam.Errors.{http, Result, ok, err}
use tik_tok_tech_jam.Store.{mutate}
use tik_tok_tech_jam.Termination.{TerminationStep, UnsignedReceipt, ReceiptKeyPair, Json}
use tik_tok_tech_jam.Terminator.{World, Outside, agent_in, begin_termination, end_termination}
use tik_tok_tech_jam.Identity.Grants.{run_anchor}
use tik_tok_tech_jam.Termination.Receipts.{signed_json, Crypto, sign_receipt}
use tik_tok_tech_jam.Terminator.Steps.{Revocation, freeze_step, revoke_and_block, kill_step}
use tik_tok_tech_jam.Terminator.Verify.{verify_containment}

-- a moment at which `terminate` waits and other work may run before it goes on
pub data Moment : Type 0 where
  before_revoke before_kill before_verify before_record : Moment

pub record Receipt : Type 0 where
  pub body : UnsignedReceipt
  pub signature : String

-- Everything but the record of the receipt: the steps in the order they ran, what was revoked, the world that
-- was verified, and the instant of that.
pub record Stages : Type 0 where
  pub steps : List TerminationStep
  pub revoked : List String
  pub quarantined : List String
  pub verified : World

module _ (out : Outside) (others : Moment → World → World) (clock : Moment → Instant) where
  abbrev verified_stages :
      String
      → String
      → TerminationStep
      → TerminationStep
      → Revocation
      → TerminationStep
      → World
      → Stages
  verified_stages agent_id principal_id first second r third w = record {
    steps =
        first
        ∷ second
        ∷ third
        ∷ verify_containment out agent_id principal_id (clock before_verify) w
        ∷ [];
    revoked = r.revoked;
    quarantined = r.quarantined;
    verified = w;
  }

  abbrev pub frozen_stages : String → String → String → TerminationStep → World → Stages
  frozen_stages agent_id principal_id reason frozen w =
      let (r, w1) =
        revoke_and_block out agent_id principal_id (clock before_revoke) (others before_revoke w) in
      let (k, w2) = kill_step out agent_id reason (clock before_kill) (others before_kill w1) in
      verified_stages agent_id principal_id frozen r.step r k (others before_verify w2)

  abbrev pub fallback_stages : String → String → String → TerminationStep → World → Stages
  fallback_stages agent_id principal_id reason frozen w =
      let (k, w1) = kill_step out agent_id reason (clock before_kill) (others before_kill w) in
      let (r, w2) =
        revoke_and_block out agent_id principal_id (clock before_revoke)
          (others before_revoke w1) in
      verified_stages agent_id principal_id frozen k r r.step (others before_verify w2)

  unfoldable pub stages : String → String → String → Instant → World → Stages
  stages agent_id principal_id reason now w =
      let (f, after) = freeze_step out agent_id now w in
      if f.ok
      then frozen_stages agent_id principal_id reason f after
      else fallback_stages agent_id principal_id reason f after

  unfoldable pub body_of : String → String → String → ReceiptKeyPair → Stages → UnsignedReceipt
  body_of agent_id principal_id reason keys s = record {
    key_id = keys.key_id;
    agent_id = agent_id;
    agent_principal_id = principal_id;
    reason = reason;
    issued_at = out.iso (clock before_record);
    steps = s.steps;
    grants_revoked = s.revoked;
    memories_quarantined = s.quarantined;
    contained = all (λ step. step.ok) s.steps;
  }

  -- Without the event of `recordTermination` on disk, the termination stays in progress. The text of the receipt
  -- is node's `JSON.stringify`; `event_id` is drawn by the code.
  module _ (crypto : Crypto) (keys : ReceiptKeyPair) (stringify : Json → String)
      (event_id : String) where
    -- the appended event
    unfoldable pub termination_event : Receipt → Database → RunEvent
    termination_event receipt db = record {
      id = event_id;
      run_id =
          run_anchor db.runs receipt.body.agent_id
            (template ("termination-" ∷ receipt.body.agent_id ∷ []));
      agent_id = receipt.body.agent_id;
      event_type = agent_terminated;
      severity = if receipt.body.contained then success else error;
      title =
          if receipt.body.contained
          then "Agent terminated and containment verified"
          else "Agent termination incomplete";
      detail = stringify (signed_json receipt.body receipt.signature);
      created_at = clock before_record;
    }

    abbrev pub append_event : Receipt → Database → Result (Unit {0} × Database)
    append_event receipt db =
        ok (tt, record db { run_events = db.run_events ++ termination_event receipt db ∷ [] })

    abbrev pub settle : String → Receipt → Result (Unit {0}) → World → Result Receipt × World
    settle agent_id receipt (err e) after = (err e, after)
    settle agent_id receipt (ok u) after = (ok receipt, end_termination agent_id after)

    unfoldable pub record_and_end : String → Receipt → World → Result Receipt × World
    record_and_end agent_id receipt w =
        let (r, db) = mutate out.persist_receipt (append_event receipt) w.db in
        settle agent_id receipt r (record w { db = db })

    unfoldable pub terminate_known :
        String → String → String → Instant → World → Result Receipt × World
    terminate_known agent_id principal_id reason now w =
        let s = stages agent_id principal_id reason now w in
        let body = body_of agent_id principal_id reason keys s in
        record_and_end agent_id
          (record { body = body; signature = sign_receipt crypto body keys.private_key_pem })
          (others before_record s.verified)

    abbrev pub terminate_begun :
        String → String → String → Instant → Result World → World → Result Receipt × World
    terminate_begun agent_id principal_id reason now (err e) w = (err e, w)
    terminate_begun agent_id principal_id reason now (ok begun) w =
        terminate_known agent_id principal_id reason now begun

    abbrev pub terminate_found :
        Option Agent → String → String → Instant → World → Result Receipt × World
    terminate_found none agent_id reason now w = (err (http 404 "Agent not found"), w)
    terminate_found (some agent) agent_id reason now w =
        terminate_begun agent_id agent.principal_id reason now (begin_termination agent_id w) w

    unfoldable pub terminate : String → String → Instant → World → Result Receipt × World
    terminate agent_id reason now w = terminate_found (agent_in agent_id w.db) agent_id reason now w
