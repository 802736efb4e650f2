-- ===== src/Examples/Terminations.antt =====
-- Runs of the theorems on terminations and receipts.
use tik_tok_tech_jam.Base.{◌≡◌, refl, ◌==◌, eq_refl, true, false, none, some, [], includes, String}
use tik_tok_tech_jam.Types.{Instant, Agent}
use tik_tok_tech_jam.Errors.{Result, ok, err}
use tik_tok_tech_jam.Termination.{UnsignedReceipt, ReceiptKeyPair, Json}
use tik_tok_tech_jam.Termination.Receipts.{
  Crypto, receipt_key_id, sign_receipt, signed_json, verify_receipt,
}
use tik_tok_tech_jam.Termination.Genuine.{IsWellFormed, Matches, verify_receipt-sign_receipt}
use tik_tok_tech_jam.Terminator.{
  World, Outside, agent_in, begin_termination, freeze_agent, quarantine_agent, quarantined_world,
  end_termination, freeze_live, update_agent,
}
use tik_tok_tech_jam.Terminator.Run.{
  Moment, before_verify, Receipt, Stages, stages, body_of, terminate, terminate_known,
  record_and_end,
}
use tik_tok_tech_jam.Terminator.Clear.{IsContained}
use tik_tok_tech_jam.Terminator.Contained.{terminate-IsContained}
use tik_tok_tech_jam.Terminator.Listed.{HasIds}
use tik_tok_tech_jam.Terminator.Issued.{stages-IsWellFormed}
use tik_tok_tech_jam.Store.{mutate}
use tik_tok_tech_jam.Terminator.Steps.{
  freeze_step, revoke_and_block, revoke_all, revoke_found, kill_step, revoke_roots, describe,
}
use tik_tok_tech_jam.Terminator.Verify.{verify_containment, gather, verify_reply}
use tik_tok_tech_jam.Base.Text.{decimal}
use tik_tok_tech_jam.Identity.Cascade.{cascade_grant_revocation, closure, joins, spread, sweep}
use tik_tok_tech_jam.Memory.Quarantine.{close_all}
use tik_tok_tech_jam.Examples.{written, sample}

-- stand-ins for node's functions: a signature is the message
abbrev crypto : Crypto
crypto = record {
  digest = λ s. s;
  sign = λ message key. message;
  verify = λ message key signature. message == signature;
  quote = λ s. s;
}

abbrev keys : ReceiptKeyPair
keys = record { private_key_pem = "private"; public_key_pem = "public"; key_id = "public" }

keys-Matches : Matches crypto keys
unfolding receipt_key_id
keys-Matches = record { accepts = λ message. eq_refl message; identified = refl }

abbrev outside : Outside
outside = record {
  pause = none;
  drain = none;
  cancel = ok tt;
  confirm_stopped = ok none;
  probe = none;
  persist_revoke = written;
  persist_kill = written;
  persist_receipt = written;
  iso = λ t. "2026-08-30";
}

abbrev undisturbed : Moment → World → World
undisturbed m w = w

abbrev at_once : Moment → Instant
at_once m = 100

abbrev quiet : World
quiet = record {
  db = sample;
  executing = λ a. false;
  running = λ a. false;
  termination_barriers = [];
  terminations_in_progress = [];
}

sample-HasIds : HasIds quiet
sample-HasIds = (refl, (refl, tt))

stages-IsWellFormed_example : IsWellFormed (
    body_of outside undisturbed at_once "a1" "agent-1" "drill" keys
      (stages outside undisturbed at_once "a1" "agent-1" "drill" 100 quiet))
stages-IsWellFormed_example =
    stages-IsWellFormed outside undisturbed at_once keys "a1" "agent-1" "drill" 100 quiet
      (λ m v d. d) sample-HasIds

abbrev body : UnsignedReceipt
body =
    body_of outside undisturbed at_once "a1" "agent-1" "drill" keys
      (stages outside undisturbed at_once "a1" "agent-1" "drill" 100 quiet)

body_key : body.key_id ≡ keys.key_id
unfolding body_of
body_key = refl

body-IsWellFormed : IsWellFormed body
body-IsWellFormed =
    stages-IsWellFormed outside undisturbed at_once keys "a1" "agent-1" "drill" 100 quiet
      (λ m v d. d) sample-HasIds

verify_receipt-sign_receipt_example :
    (verify_receipt crypto (signed_json body (sign_receipt crypto body "private")) "public").valid
    ≡ true
verify_receipt-sign_receipt_example =
    verify_receipt-sign_receipt crypto keys keys-Matches body body_key body-IsWellFormed

abbrev as_text : Json → String
as_text v = "{}"

abbrev outcome : Result Receipt × World
outcome = terminate outside undisturbed at_once crypto keys as_text "e1" "a1" "drill" 100 quiet

abbrev receipt_in : Result Receipt → Receipt
receipt_in (ok r) = r
receipt_in (err e) = record { body = body; signature = "" }

terminated : outcome ≡ (ok (receipt_in outcome.0), outcome.1)
unfolding terminate begin_termination tik_tok_tech_jam.Terminator.Run.terminate_known
    tik_tok_tech_jam.Terminator.Run.record_and_end tik_tok_tech_jam.Store.mutate
terminated = refl

claimed : (receipt_in outcome.0).body.contained ≡ true
unfolding terminate terminate_known record_and_end mutate freeze_step freeze_agent revoke_and_block
    revoke_all revoke_found kill_step quarantine_agent quarantined_world verify_containment gather
    revoke_roots decimal cascade_grant_revocation closure joins spread sweep close_all describe
    verify_reply end_termination freeze_live update_agent begin_termination body_of stages
    sign_receipt
claimed = refl

terminate-IsContained_example :
    (a : Agent) × (begun : World) × (agent_in "a1" sample ≡ some a)
    × (begin_termination "a1" quiet ≡ ok begun)
    × ((receipt_in outcome.0).body.agent_principal_id ≡ a.principal_id)
    × (includes outcome.1.terminations_in_progress "a1" ≡ false)
    × IsContained "a1" a.principal_id 100
        (stages outside undisturbed at_once "a1" a.principal_id "drill" 100 begun).verified
terminate-IsContained_example =
    terminate-IsContained outside undisturbed at_once crypto keys as_text "e1" "a1" "drill" 100
      quiet outcome.1 (receipt_in outcome.0) terminated claimed
