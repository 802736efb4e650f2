-- ===== src/Termination/Structure.antt =====
-- apps/server/src/termination.ts: `validateReceiptStructure`.

use tik_tok_tech_jam.Base.{
  ◌==◌, String, Bool, true, false, not, ◌&&◌, ◌||◌, Option, none, some, List, [], ◌∷◌, nat_eq,
  includes, if◌then◌else◌,
}
use tik_tok_tech_jam.Termination.{
  Json, boolean, number, string, array, object, Items, end, item, get,
}

-- tests of the form `typeof value[key] === …`
abbrev is_string : Option Json → Bool
is_string (some (string s)) = true
is_string _ = false

abbrev is_boolean : Option Json → Bool
is_boolean (some (boolean b)) = true
is_boolean _ = false

abbrev is_true : Option Json → Bool
is_true (some (boolean b)) = b
is_true _ = false

abbrev is_version_2 : Option Json → Bool
is_version_2 (some (number n)) = nat_eq n 2
is_version_2 _ = false

-- an array of texts, no text twice
abbrev pub distinct_texts : Items → List String → Bool
distinct_texts end seen = true
distinct_texts (item (string s) rest) seen = not (includes seen s) && distinct_texts rest (s ∷ seen)
distinct_texts (item _ rest) seen = false

abbrev is_id_list : Option Json → Bool
is_id_list (some (array items)) = distinct_texts items []
is_id_list _ = false

abbrev items_of : Option Json → Option Items
items_of (some (array items)) = some items
items_of _ = none

abbrev step_is : String → Json → Bool
step_is name (object fields) = elim (get "step" fields) [ some (string s) ↦ s == name | _ ↦ false ]
step_is name _ = false

abbrev is_step : Json → Bool
is_step (object f) =
    is_string (get "step" f)
    && is_boolean (get "ok" f)
    && is_string (get "detail" f)
    && is_string (get "at" f)
is_step _ = false

abbrev step_ok : Json → Bool
step_ok (object f) = is_true (get "ok" f)
step_ok _ = false

abbrev steps_agree : Json → Json → Json → Json → Bool → Bool
steps_agree a b c d contained =
    let success =
      step_is "freeze" a && step_is "revoke" b && step_is "kill" c && step_is "verify" d in
    let fallback =
      step_is "freeze" a && step_is "kill" b && step_is "revoke" c && step_is "verify" d in
    let every = step_ok a && step_ok b && step_ok c && step_ok d in
    (success || fallback)
    && (is_step a && is_step b && is_step c && is_step d)
    && (not (fallback && (step_ok a || contained)))
    && (if contained then every else not every)

-- four steps
abbrev steps_valid : Option Items → Bool → Bool
steps_valid (some (item a (item b (item c (item d end))))) contained = steps_agree a b c d contained
steps_valid _ contained = false

unfoldable pub validate_receipt_structure : Json → Bool
validate_receipt_structure (object f) =
    is_version_2 (get "version" f)
    && is_string (get "keyId" f)
    && is_string (get "agentId" f)
    && is_string (get "agentPrincipalId" f)
    && is_string (get "reason" f)
    && is_string (get "issuedAt" f)
    && is_boolean (get "contained" f)
    && is_string (get "signature" f)
    && is_id_list (get "grantsRevoked" f)
    && is_id_list (get "memoriesQuarantined" f)
    && steps_valid (items_of (get "steps" f)) (is_true (get "contained" f))
validate_receipt_structure _ = false
