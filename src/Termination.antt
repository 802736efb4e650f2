-- ===== src/Termination.antt =====
-- apps/server/src/termination.ts: receipts, their canonical text, and their check. A receipt to check is any
-- JSON value (`undefined` is none; a number is a natural one). The signature scheme, the digest and the
-- quoting of a text are node's, given as parameters.
pub mod Canonical
pub mod Structure
pub mod Receipts
pub mod Genuine
use Prim.Native.String
use Prim.Native.Nat.{Ordering}
use Prim.Native.String.{slice}
use tik_tok_tech_jam.Base.{
  ℕ, suc, ◌==◌, String, Bool, true, false, not, ◌&&◌, ◌||◌, Option, none, some, List, [], ◌∷◌, ◌++◌,
  map, all, nat_eq, decimal, includes, template, length, if◌then◌else◌,
}

pub data TerminationStepName : Type 0 where
  freeze revoke kill verify : TerminationStepName

-- a moment's ISO text
pub record TerminationStep : Type 0 where
  pub step : TerminationStepName
  pub ok : Bool
  pub detail : String
  pub at : String

pub record UnsignedReceipt : Type 0 where
  pub key_id : String
  pub agent_id : String
  pub agent_principal_id : String
  pub reason : String
  pub issued_at : String
  pub steps : List TerminationStep
  pub grants_revoked : List String
  pub memories_quarantined : List String
  pub contained : Bool

pub record ReceiptKeyPair : Type 0 where
  pub private_key_pem : String
  pub public_key_pem : String
  pub key_id : String

mutual
  pub data Json : Type 0 where
    null : Json
    boolean : Bool → Json
    number : ℕ → Json
    string : String → Json
    array : Items → Json
    object : Fields → Json

  pub data Items : Type 0 where
    end : Items
    item : Json → Items → Items

  pub data Fields : Type 0 where
    no_more : Fields
    field : String → Json → Fields → Fields

abbrev pub step_text : TerminationStepName → String
step_text freeze = "freeze"
step_text revoke = "revoke"
step_text kill = "kill"
step_text verify = "verify"

abbrev pub texts : List String → Items
texts [] = end
texts (s ∷ ss) = item (string s) (texts ss)

abbrev pub step_json : TerminationStep → Json
step_json s = object (
    field "step" (string (step_text s.step)) (
      field "ok" (boolean s.ok)
        (field "detail" (string s.detail) (field "at" (string s.at) no_more))))

abbrev pub steps_json : List TerminationStep → Items
steps_json [] = end
steps_json (s ∷ ss) = item (step_json s) (steps_json ss)

-- the receipt's fields in the order they are written, then `rest`
abbrev pub receipt_fields : UnsignedReceipt → Fields → Fields
receipt_fields r rest = field "version" (number 2) (
    field "keyId" (string r.key_id) (
      field "agentId" (string r.agent_id) (
        field "agentPrincipalId" (string r.agent_principal_id) (
          field "reason" (string r.reason) (
            field "issuedAt" (string r.issued_at) (
              field "steps" (array (steps_json r.steps)) (
                field "grantsRevoked" (array (texts r.grants_revoked)) (
                  field "memoriesQuarantined" (array (texts r.memories_quarantined))
                    (field "contained" (boolean r.contained) rest)))))))))

-- `value[key]`
abbrev pub get : String → Fields → Option Json
get key no_more = none
get key (field k v rest) = if k == key then some v else get key rest
