-- ===== src/Egress/Proxy/Headers.antt =====
-- apps/server/src/egress-proxy.ts: `parseAuthority`, `principalFromProxyAuth`, `resolveTarget`, `decide`, and the
-- headers of a forwarded request. Node's `isIP`, `Number`, its decoders and its resolver are parameters.
use tik_tok_tech_jam.Base.{
  nat_eq, ℕ, String, ◌==◌, Bool, true, false, not, ◌&&◌, ◌||◌, Option, none, some, List, [], ◌∷◌,
  ◌++◌, filter, includes, trim, trim_start, is_white, take_text, starts_with, get_or, ltb,
  if◌then◌else◌, template,
}
use tik_tok_tech_jam.Errors.{Failure, Result, ok, err}
use tik_tok_tech_jam.Service.Runs.{message_of}
use tik_tok_tech_jam.Egress.Proxy.Addresses.{digit_of, is_private_address}

pub record EgressVerdict : Type 0 where
  pub allowed : Bool
  pub rule_id : String
  pub reason : String
  pub allow_private : Bool

-- a whole number
pub data ℤ : Type 0 where
  pos negsuc : ℕ → ℤ

abbrev pub int_eq : ℤ → ℤ → Bool
int_eq (pos m) (pos n) = nat_eq m n
int_eq (negsuc m) (negsuc n) = nat_eq m n
int_eq _ _ = false

-- What the proxy calls. `whole_number` is `Number` where it gives a whole number.
pub record Node : Type 0 where
  pub is_ip : String → ℕ
  pub whole_number : String → Option ℤ
  pub base64_text : String → String
  pub decode_uri : String → Result String
  pub dns_lookup : String → Result String
  pub lower : String → String

-- the text before and after the last place of a character, given as a text
abbrev pub split_last : String → String → Option (String × String)
split_last mark String.[] = none
split_last mark (String.◌∷◌ c s) = elim (split_last mark s) [
  | some (front, back) ↦ some (String.◌∷◌ c front, back)
  | none ↦ if String.◌∷◌ c "" == mark then some ("", s) else none
]

-- the same at the first place
abbrev pub split_first : String → String → Option (String × String)
split_first mark String.[] = none
split_first mark (String.◌∷◌ c s) =
    let rest = split_first mark s in
    if String.◌∷◌ c "" == mark
    then some ("", s)
    else elim rest [ some (front, back) ↦ some (String.◌∷◌ c front, back) | none ↦ none ]

abbrev pub all_digits : String → Bool
all_digits String.[] = true
all_digits (String.◌∷◌ c s) =
    let rest = all_digits s in elim (digit_of 10 c) [ none ↦ false | some d ↦ rest ]

pub record Authority : Type 0 where
  pub host : String
  pub port : ℤ

module _ (node : Node) (default_port : ℤ) where
  -- `[host]` or `[host]:digits`, with the bracket taken off and the closing one the last
  abbrev pub bracketed_parts : Option (String × String) → Option Authority
  bracketed_parts none = none
  bracketed_parts (some (host, after)) =
      if host == ""
      then none
      else (if after == ""
          then some (record { host = host; port = default_port })
          else (elim (split_first ":" after) [
            | some (String.[], digits) ↦
                if digits == "" || not (all_digits digits)
                then none
                else some
                    (record { host = host; port = get_or (node.whole_number digits) default_port })
            | _ ↦ none
          ]))

  abbrev pub bracketed : String → Option Authority
  bracketed String.[] = none
  bracketed (String.◌∷◌ c s) =
      if String.◌∷◌ c "" == "[" then bracketed_parts (split_last "]" s) else none

  abbrev pub with_port : String → String → Option ℤ → Authority
  with_port trimmed host none = record { host = trimmed; port = default_port }
  with_port trimmed host (some port) = record { host = host; port = port }

  abbrev pub plain : String → Option (String × String) → Authority
  plain trimmed none = record { host = trimmed; port = default_port }
  plain trimmed (some (host, port)) = with_port trimmed host (node.whole_number port)

  abbrev either_form : String → Option Authority → Authority
  either_form trimmed none = plain trimmed (split_last ":" trimmed)
  either_form trimmed (some a) = a

  unfoldable pub parse_authority : String → Authority
  parse_authority authority = either_form (trim authority) (bracketed (trim authority))

pub record Caller : Type 0 where
  pub principal_id : String
  pub secret : String

abbrev starts_white : String → Bool
starts_white String.[] = false
starts_white (String.◌∷◌ c s) = is_white c

-- what follows `Basic` and its blanks
abbrev drop_text : ℕ → String → String
drop_text Prim.Native.Nat.zero s = s
drop_text (Prim.Native.Nat.suc n) String.[] = ""
drop_text (Prim.Native.Nat.suc n) (String.◌∷◌ c s) = drop_text n s

abbrev credentials : (String → String) → String → Option String
credentials lower header =
    if lower (take_text 5 header) == "basic"
      && starts_white (drop_text 5 header)
      && not (trim_start (drop_text 5 header) == "")
    then some (trim_start (drop_text 5 header))
    else none

abbrev pub named : Node → String → String → Result (Option Caller)
named node username secret = if username == "" then ok none else elim (node.decode_uri username) [
  | err e ↦ err e
  | ok id ↦ ok (some (record { principal_id = id; secret = secret }))
]

abbrev pub caller_of : Node → String → Option (String × String) → Result (Option Caller)
caller_of node decoded none = named node decoded ""
caller_of node decoded (some (username, secret)) = named node username secret

abbrev from_credentials : Node → Option String → Result (Option Caller)
from_credentials node none = ok none
from_credentials node (some text) =
    caller_of node (node.base64_text text) (split_first ":" (node.base64_text text))

-- A user name that is no encoded text throws.
unfoldable pub principal_from_proxy_auth : Node → Option String → Result (Option Caller)
principal_from_proxy_auth node none = ok none
principal_from_proxy_auth node (some header) =
    from_credentials node (credentials node.lower (trim header))

abbrev pub public_or_none : Node → String → Option String
public_or_none node address = if is_private_address node.is_ip address then none else some address

abbrev pub looked_up : Node → Result String → Option String
looked_up node (err e) = none
looked_up node (ok address) = public_or_none node address

-- `isIP` is 0 for a name
abbrev pub is_literal : Node → String → Bool
is_literal node host = ltb 0 (node.is_ip host)

unfoldable pub resolve_target : Node → Bool → Bool → String → Option String
resolve_target node allow_private_addresses permit_private host =
    if allow_private_addresses || permit_private
    then some host
    else (if is_literal node host
        then public_or_none node host
        else looked_up node (node.dns_lookup host))

abbrev pub unauthenticated : EgressVerdict
unauthenticated = record {
  allowed = false;
  rule_id = "NET-EGRESS-NOAUTH-022";
  reason = "No agent principal presented; default-deny.";
  allow_private = false;
}

abbrev pub unavailable : Failure → EgressVerdict
unavailable e = record {
  allowed = false;
  rule_id = "NET-EGRESS-020";
  reason = template ("Egress authorizer unavailable, failing closed: " ∷ message_of e ∷ []);
  allow_private = false;
}

abbrev pub private_address_verdict : String → EgressVerdict
private_address_verdict host = record {
  allowed = false;
  rule_id = "NET-EGRESS-PRIVATE-024";
  reason = template (host ∷ " resolves to a private or loopback address." ∷ []);
  allow_private = false;
}

abbrev pub answered_by : Result EgressVerdict → EgressVerdict
answered_by (ok verdict) = verdict
answered_by (err e) = unavailable e

-- what the authorizer is asked; its signal is left out
pub record EgressInput : Type 0 where
  pub agent_principal_id : String
  pub host : String
  pub port : ℤ
  pub method : String
  pub secret : String

abbrev pub input_of : Caller → String → ℤ → String → EgressInput
input_of c host port method = record {
  agent_principal_id = c.principal_id;
  host = host;
  port = port;
  method = method;
  secret = c.secret;
}

-- `authorize` gives what the authorizer answers.
unfoldable pub decide :
    Option Caller → String → ℤ → String → (EgressInput → Result EgressVerdict) → EgressVerdict
decide none host port method authorize = unauthenticated
decide (some c) host port method authorize = answered_by (authorize (input_of c host port method))

abbrev pub hop_by_hop : List String
hop_by_hop =
    "proxy-authorization" ∷ "proxy-connection" ∷ "connection" ∷ "keep-alive" ∷ "te" ∷ "trailer"
    ∷ "transfer-encoding" ∷ "upgrade" ∷ []

abbrev pub put_header : String × String → List (String × String) → List (String × String)
put_header h headers = filter (λ x. not (x.0 == h.0)) headers ++ h ∷ []

abbrev pub put_headers : List (String × String) → List (String × String) → List (String × String)
put_headers [] headers = headers
put_headers (h ∷ hs) headers = put_headers hs (put_header h headers)

-- The caller's own attestations go, the proxy's come, then the headers of the hop go, and the host is set.
unfoldable pub forwarded_headers :
    (String → String)
    → List (String × String)
    → String
    → List (String × String)
    → List (String × String)
forwarded_headers lower attested host headers =
    put_header ("host", host)
      (filter (λ h. not (includes hop_by_hop h.0))
        (put_headers attested
          (filter (λ h. not (starts_with (lower h.0) "x-agent-attested")) headers)))
