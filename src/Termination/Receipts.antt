-- ===== src/Termination/Receipts.antt =====
-- apps/server/src/termination.ts: the key's id, `signReceipt` and `verifyReceipt`.

use Prim.Native.String.{slice}
use tik_tok_tech_jam.Base.{◌==◌, String, Bool, true, false, not, Option, some, if◌then◌else◌}
use tik_tok_tech_jam.Termination.{
  Json, boolean, string, object, Fields, no_more, field, get, UnsignedReceipt, receipt_fields,
}
use tik_tok_tech_jam.Termination.Canonical.{canonicalize}
use tik_tok_tech_jam.Termination.Structure.{validate_receipt_structure}

-- What node gives: the digest in hexadecimal, the signature of a text by a private key and its check by a
-- public one, and `JSON.stringify` of a text.
pub record Crypto : Type 0 where
  pub digest : String → String
  pub sign : String → String → String
  pub verify : String → String → String → Bool
  pub quote : String → String

pub record Verdict : Type 0 where
  pub valid : Bool
  pub reason : String

unfoldable pub receipt_key_id : Crypto → String → String
receipt_key_id crypto public_key_pem = slice (crypto.digest public_key_pem) 0 16

-- the properties of an object but one
abbrev pub without : String → Fields → Fields
without key no_more = no_more
without key (field k v rest) =
    let others = without key rest in if k == key then others else field k v others

unfoldable pub sign_receipt : Crypto → UnsignedReceipt → String → String
sign_receipt crypto receipt private_key =
    crypto.sign (canonicalize crypto.quote (object (receipt_fields receipt no_more))) private_key

-- the receipt with its signature, as JSON
abbrev pub signed_json : UnsignedReceipt → String → Json
signed_json body signature =
    object (receipt_fields body (field "signature" (string signature) no_more))

abbrev text_of : Option Json → String
text_of (some (string s)) = s
text_of _ = ""

abbrev flag_of : Option Json → Bool
flag_of (some (boolean b)) = b
flag_of _ = false

abbrev refused : String → Verdict
refused reason = record { valid = false; reason = reason }

unfoldable pub verify_fields : Crypto → Fields → String → Verdict
unfolding receipt_key_id
verify_fields crypto f public_key =
    if not (text_of (get "keyId" f) == receipt_key_id crypto public_key)
    then refused "Receipt key ID does not match the trusted public key."
    else if not (
        crypto.verify (canonicalize crypto.quote (object (without "signature" f))) public_key
          (text_of (get "signature" f)))
    then refused "Signature does not match the receipt contents."
    else record {
      valid = true;
      reason =
          if flag_of (get "contained" f)
          then "Signature and required termination evidence are valid."
          else "Signature is valid; the receipt records that containment was not achieved.";
    }

abbrev fields_of : Json → Fields
fields_of (object f) = f
fields_of _ = no_more

unfoldable pub verify_receipt : Crypto → Json → String → Verdict
verify_receipt crypto receipt public_key =
    if validate_receipt_structure receipt
    then verify_fields crypto (fields_of receipt) public_key
    else refused "Receipt structure or step sequence is invalid."
