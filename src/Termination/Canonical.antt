-- ===== src/Termination/Canonical.antt =====
-- apps/server/src/termination.ts: `canonicalize`. Keys are compared by code point.
use Prim.Native.String
use Prim.Native.Nat.{Ordering}
use Prim.Native.String.{slice}
use tik_tok_tech_jam.Base.{String, true, false, List, [], ◌∷◌, decimal, template}
use tik_tok_tech_jam.Termination.{
  Json, null, boolean, number, string, array, object, Items, end, item, Fields, no_more, field,
}

abbrev put_sorted : String → String → List (String × String) → List (String × String)
put_sorted key text [] = (key, text) ∷ []
put_sorted key text ((k, t) ∷ rest) = elim (String.compare key k) [
  | Ordering.gt ↦ (k, t) ∷ put_sorted key text rest
  | _ ↦ (key, text) ∷ (k, t) ∷ rest
]

-- `join(",")` of the entries
abbrev joined : (String → String) → List (String × String) → String
joined quote [] = ""
joined quote ((k, t) ∷ []) = template (quote k ∷ ":" ∷ t ∷ [])
joined quote ((k, t) ∷ e ∷ rest) = template (quote k ∷ ":" ∷ t ∷ "," ∷ joined quote (e ∷ rest) ∷ [])

mutual
  pub canonicalize : (String → String) → Json → String
  canonicalize quote null = "null"
  canonicalize quote (boolean true) = "true"
  canonicalize quote (boolean false) = "false"
  canonicalize quote (number n) = decimal n
  canonicalize quote (string s) = quote s
  canonicalize quote (array items) = template ("[" ∷ canonicalize_items quote items ∷ "]" ∷ [])
  canonicalize quote (object fields) =
      template ("{" ∷ joined quote (canonicalize_fields quote fields) ∷ "}" ∷ [])

  canonicalize_items : (String → String) → Items → String
  canonicalize_items quote end = ""
  canonicalize_items quote (item v end) = canonicalize quote v
  canonicalize_items quote (item v (item w rest)) =
      template (canonicalize quote v ∷ "," ∷ canonicalize_items quote (item w rest) ∷ [])

  canonicalize_fields : (String → String) → Fields → List (String × String)
  canonicalize_fields quote no_more = []
  canonicalize_fields quote (field k v rest) =
      put_sorted k (canonicalize quote v) (canonicalize_fields quote rest)
