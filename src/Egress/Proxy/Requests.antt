-- ===== src/Egress/Proxy/Requests.antt =====
-- apps/server/src/egress-proxy.ts: a CONNECT and a plain request, from the caller to the upstream. Between two
-- awaits the other connections do a list of events.
use tik_tok_tech_jam.Base.{
  ℕ, String, ◌==◌, Bool, true, false, not, ◌&&◌, ◌||◌, Option, none, some, List, [], ◌∷◌, includes,
  if◌then◌else◌,
}
use tik_tok_tech_jam.Egress.Proxy.Headers.{
  ℤ, pos, int_eq, EgressInput, EgressVerdict, Node, Authority, Caller, parse_authority,
  resolve_target, decide, private_address_verdict,
}
use tik_tok_tech_jam.Errors.{Result}
use tik_tok_tech_jam.Egress.Proxy.Connections.{
  ProxyState, Event, generation_is_current, track, forget, happenings, close_principal_connections,
}

-- How a connection ends: refused with a status and a verdict, dropped, or through to an address.
pub data Outcome : Type 0 where
  refused : ℕ → EgressVerdict → Outcome
  dropped : Outcome
  through : String → Outcome

pub record ProxyOptions : Type 0 where
  pub control_plane : Option Authority
  pub control_token : Option String
  pub allow_private_addresses : Bool

-- What a connection meets: the authorizer, whether the client is gone after it, and the events of the others while
-- the proxy waits for the authorizer, for the resolver and for the upstream.
pub record Meeting : Type 0 where
  pub authorize : EgressInput → Result EgressVerdict
  pub aborted : Bool
  pub deciding : List Event
  pub resolving : List Event
  pub connecting : List Event

abbrev pub tunnel_verdict : EgressVerdict
tunnel_verdict = record {
  allowed = false;
  rule_id = "NET-EGRESS-TUNNEL-025";
  reason =
      "The control plane cannot be reached through a tunnel; use a proxied request so it can be attributed to this agent.";
  allow_private = false;
}

abbrev pub revoked_verdict : EgressVerdict
revoked_verdict = record {
  allowed = false;
  rule_id = "AUTHZ-REVOKED-013";
  reason = "Authority changed while this connection was being authorized.";
  allow_private = false;
}

abbrev pub generation_of : Option Caller → ProxyState → ℕ
generation_of none s = 0
generation_of (some c) s = s.generation c.principal_id

abbrev is_gone : List String → ProxyState → Bool
is_gone [] s = false
is_gone (x ∷ xs) s = includes s.destroyed x || is_gone xs s

-- a caller whose connections were drained meanwhile, or who is gone
abbrev pub is_stale : Option Caller → ℕ → List String → ProxyState → Bool
is_stale none g sockets s = false
is_stale (some c) g sockets s = not (generation_is_current c.principal_id g s) || is_gone sockets s

abbrev pub tracked : Option Caller → List String → ProxyState → ProxyState
tracked none cs s = s
tracked (some c) cs s = track c.principal_id cs s

abbrev pub is_control_plane : Option Authority → Authority → Bool
is_control_plane none a = false
is_control_plane (some p) a = a.host == p.host && int_eq a.port p.port

-- the callback of the connection to the upstream
unfoldable pub connected :
    Option Caller → ℕ → String → String → String → List Event → ProxyState → Outcome × ProxyState
connected caller g client upstream address events s =
    let t = happenings events s in
    if is_stale caller g (client ∷ []) t
    then (dropped, forget client (forget upstream t))
    else (through address, tracked caller (client ∷ upstream ∷ []) t)

abbrev pub resolved_to :
    Meeting
    → Option Caller
    → ℕ
    → String
    → String
    → String
    → Option String
    → ProxyState
    → Outcome × ProxyState
resolved_to m caller g client upstream host none s = (refused 403 (private_address_verdict host), s)
resolved_to m caller g client upstream host (some address) s =
    connected caller g client upstream address m.connecting s

abbrev pub connect_resolved :
    Node
    → ProxyOptions
    → Meeting
    → Option Caller
    → ℕ
    → String
    → String
    → String
    → EgressVerdict
    → ProxyState
    → Outcome × ProxyState
connect_resolved node options m caller g client upstream host verdict s =
    let t = happenings m.resolving s in
    if is_stale caller g (client ∷ []) t
    then (dropped, forget client t)
    else resolved_to m caller g client upstream host
        (resolve_target node options.allow_private_addresses verdict.allow_private host) t

abbrev pub connect_decided :
    Node
    → ProxyOptions
    → Meeting
    → Option Caller
    → ℕ
    → String
    → String
    → String
    → EgressVerdict
    → ProxyState
    → Outcome × ProxyState
connect_decided node options m caller g client upstream host verdict s =
    let t = happenings m.deciding s in
    if m.aborted
    then (dropped, t)
    else (if is_stale caller g (client ∷ []) t
        then (dropped, forget client t)
        else (if not verdict.allowed
            then (refused 403 verdict, t)
            else connect_resolved node options m caller g client upstream host verdict t))

-- the handler of CONNECT, for a caller that was read from its header
unfoldable pub on_connect :
    Node
    → ProxyOptions
    → Meeting
    → Option Caller
    → String
    → String
    → String
    → ProxyState
    → Outcome × ProxyState
on_connect node options m caller client upstream url s =
    let a = parse_authority node (pos 443) url in
    if is_control_plane options.control_plane a
    then (refused 403 tunnel_verdict, s)
    else connect_decided node options m caller (generation_of caller s) client upstream a.host
        (decide caller a.host a.port "CONNECT" m.authorize) (tracked caller (client ∷ []) s)

abbrev pub request_resolved :
    Option Caller → String → String → String → Option String → ProxyState → Outcome × ProxyState
request_resolved caller response upstream host none s =
    (refused 403 (private_address_verdict host), s)
request_resolved caller response upstream host (some address) s =
    (through address, tracked caller (upstream ∷ response ∷ []) s)

abbrev denial_status : EgressVerdict → ℕ
denial_status verdict = if verdict.rule_id == "NET-EGRESS-NOAUTH-022" then 407 else 403

abbrev pub request_decided :
    Node
    → ProxyOptions
    → Meeting
    → Option Caller
    → ℕ
    → String
    → String
    → String
    → String
    → EgressVerdict
    → ProxyState
    → Outcome × ProxyState
request_decided node options m caller g request response upstream host verdict s =
    let t = happenings m.deciding s in
    if m.aborted
    then (dropped, t)
    else (if is_stale caller g (request ∷ response ∷ []) t
        then ((if includes t.destroyed response then dropped else refused 403 revoked_verdict), t)
        else (if not verdict.allowed
            then (refused (denial_status verdict) verdict, t)
            else (let u = happenings m.resolving t in
                if is_stale caller g (request ∷ response ∷ []) u
                then (dropped, forget response u)
                else request_resolved caller response upstream host
                    (resolve_target node options.allow_private_addresses verdict.allow_private host)
                    u)))

-- the handler of a plain request, for the host of its target
unfoldable pub on_request :
    Node
    → ProxyOptions
    → Meeting
    → Option Caller
    → String
    → String
    → String
    → String
    → ℤ
    → String
    → ProxyState
    → Outcome × ProxyState
on_request node options m caller request response upstream host port method s =
    request_decided node options m caller (generation_of caller s) request response upstream host
      (decide caller host port method m.authorize) (tracked caller (request ∷ response ∷ []) s)

abbrev drain_if : Bool → String → ProxyState → Option ℕ × ProxyState
drain_if true principal_id s =
    let (n, t) = close_principal_connections principal_id s in (some n, t)
drain_if false principal_id s = (none, s)

abbrev pub token_matches : Option String → String → Bool
token_matches none presented = false
token_matches (some token) presented = not (token == "") && presented == token

-- The control request: the number of closed connections, or `none` for the answer 404.
unfoldable pub on_drain : ProxyOptions → String → String → ProxyState → Option ℕ × ProxyState
on_drain options presented principal_id s =
    drain_if (token_matches options.control_token presented) principal_id s
