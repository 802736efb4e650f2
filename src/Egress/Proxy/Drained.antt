-- ===== src/Egress/Proxy/Drained.antt =====
-- What gets through the proxy, and what does not once its principal is drained.
use tik_tok_tech_jam.Base.{
  ℕ, ◌≤◌, ◌<◌, ◌≡◌, refl, ◌∙◌, String, true, false, inl, inr, Option, none, some, List, [], ◌∷◌,
  ◌++◌, In, In-append, includes, arith, eq_refl, Bool-cases,
}
use tik_tok_tech_jam.Egress.Proxy.Headers.{
  ℤ, pos, EgressVerdict, Node, Caller, parse_authority, decide,
}
use tik_tok_tech_jam.Egress.Proxy.Connections.{
  ProxyState, Event, tracks, closes, drains, happen, happenings, track, track_one, forget,
  close_principal_connections,
}
use tik_tok_tech_jam.Egress.Proxy.Requests.{
  Outcome, refused, dropped, through, ProxyOptions, Meeting, is_stale, tracked, connected,
  resolved_to, connect_resolved, connect_decided, on_connect, request_decided, on_request,
  is_control_plane,
}

track_one-generation : (p c : String) (s : ProxyState) → (track_one p c s).generation ≡ s.generation
track_one-generation p c s = ground arith

track-generation :
    (p : String) (cs : List String) (s : ProxyState) → (track p cs s).generation ≡ s.generation
unfolding track
track-generation p [] s = refl
track-generation p (c ∷ cs) s = track-generation p cs (track_one p c s) ∙ track_one-generation p c s

tracked-generation :
    (o : Option Caller) (cs : List String) (s : ProxyState)
    → (tracked o cs s).generation ≡ s.generation
tracked-generation none cs s = refl
tracked-generation (some c) cs s = track-generation c.principal_id cs s

module _ (p : String) where
  happen_mono : (e : Event) (s : ProxyState) → s.generation p ≤ (happen e s).generation p
  unfolding forget close_principal_connections
  happen_mono (tracks q cs) s = rw (track-generation q cs s) (omega arith)
  happen_mono (closes c) s = omega arith
  happen_mono (drains q) s = ground arith

  happenings_mono :
      (es : List Event) (s : ProxyState) → s.generation p ≤ (happenings es s).generation p
  unfolding happenings
  happenings_mono [] s = omega arith
  happenings_mono (e ∷ es) s = omega (arith, happen_mono e s, happenings_mono es (happen e s))

  drains-lt : (s : ProxyState) → s.generation p < (happen (drains p) s).generation p
  unfolding close_principal_connections
  drains-lt s = ground (arith, eq_refl p)

  happenings-lt :
      (es : List Event) (s : ProxyState)
      → In (drains p) es
      → s.generation p < (happenings es s).generation p
  unfolding happenings
  happenings-lt [] s m = absurd m
  happenings-lt (e ∷ es) s (inl q) =
      rw (← q) (omega (arith, drains-lt s, happenings_mono es (happen (drains p) s)))
  happenings-lt (e ∷ es) s (inr m) = omega (arith, happen_mono e s, happenings-lt es (happen e s) m)

stale :
    (c : Caller) (g : ℕ) (sockets : List String) (s : ProxyState)
    → g < s.generation c.principal_id
    → is_stale (some c) g sockets s ≡ true
stale c g sockets s h = ground arith

-- nothing got through
abbrev pub Blocked : Outcome × ProxyState → Type 0
Blocked (refused n v, s) = Unit
Blocked (dropped, s) = Unit
Blocked (through address, s) = ⊥

module _ (node : Node) (options : ProxyOptions) (m : Meeting) (c : Caller) (g : ℕ) where
  abbrev p : String
  p = c.principal_id

  -- a caller who is not stale was not drained so far
  later :
      (sockets : List String) (es rest : List Event) (s : ProxyState)
      → g ≤ s.generation p
      → is_stale (some c) g sockets (happenings es s) ≡ false
      → In (drains p) (es ++ rest)
      → In (drains p) rest
  later sockets es rest s k e i = elim (In-append es rest (drains p) i) [
    | inr a ↦ a
    | inl a ↦
        absurd
          (cc (stale c g sockets (happenings es s) (omega (arith, k, happenings-lt p es s a)), e))
  ]

  connected-Blocked :
      (client upstream address : String) (events : List Event) (s : ProxyState)
      → g < (happenings events s).generation p
      → Blocked (connected (some c) g client upstream address events s)
  unfolding connected
  connected-Blocked client upstream address events s h =
      rw (stale c g (client ∷ []) (happenings events s) h) tt

  resolved_to-Blocked :
      (client upstream host : String) (o : Option String) (s : ProxyState)
      → g < (happenings m.connecting s).generation p
      → Blocked (resolved_to m (some c) g client upstream host o s)
  resolved_to-Blocked client upstream host none s h = tt
  resolved_to-Blocked client upstream host (some address) s h =
      connected-Blocked client upstream address m.connecting s h

  connect_resolved-Blocked :
      (client upstream host : String) (verdict : EgressVerdict) (s : ProxyState)
      → g ≤ s.generation p
      → In (drains p) (m.resolving ++ m.connecting)
      → Blocked (connect_resolved node options m (some c) g client upstream host verdict s)
  connect_resolved-Blocked client upstream host verdict s k i =
      let t = happenings m.resolving s in
      elim (Bool-cases (is_stale (some c) g (client ∷ []) t)) [
        | inl e ↦ rw e tt
        | inr e ↦ rw e (
            resolved_to-Blocked client upstream host _ t (
              omega (
                arith,
                happenings_mono p m.resolving s,
                happenings-lt p m.connecting t
                    (later (client ∷ []) m.resolving m.connecting s k e i),
              )))
      ]

  connect_decided-Blocked :
      (client upstream host : String) (verdict : EgressVerdict) (s : ProxyState)
      → g ≤ s.generation p
      → In (drains p) (m.deciding ++ (m.resolving ++ m.connecting))
      → Blocked (connect_decided node options m (some c) g client upstream host verdict s)
  connect_decided-Blocked client upstream host verdict s k i =
      let t = happenings m.deciding s in
      elim (Bool-cases m.aborted) [
        | inl e ↦ rw e tt
        | inr e ↦ elim (Bool-cases (is_stale (some c) g (client ∷ []) t)) [
          | inl f ↦ rw (e, f) tt
          | inr f ↦ elim (Bool-cases verdict.allowed) [
            | inr d ↦ rw (e, f, d) tt
            | inl d ↦
                rw (e, f, d)
                  (connect_resolved-Blocked client upstream host verdict t
                    (omega (arith, happenings_mono p m.deciding s))
                    (later (client ∷ []) m.deciding (m.resolving ++ m.connecting) s k f i))
          ]
        ]
      ]

  request_decided-Blocked :
      (request response upstream host : String) (verdict : EgressVerdict) (s : ProxyState)
      → g ≤ s.generation p
      → In (drains p) (m.deciding ++ m.resolving)
      → Blocked (request_decided node options m (some c) g request response upstream host verdict s)
  request_decided-Blocked request response upstream host verdict s k i =
      let t = happenings m.deciding s in
      let u = happenings m.resolving t in
      let sockets : List String = request ∷ response ∷ [] in
      elim (Bool-cases m.aborted) [
        | inl e ↦ rw e tt
        | inr e ↦ elim (Bool-cases (is_stale (some c) g sockets t)) [
          | inl f ↦ elim (Bool-cases (includes t.destroyed response)) [
            | inl d ↦ rw (e, f, d) tt
            | inr d ↦ rw (e, f, d) tt
          ]
          | inr f ↦ elim (Bool-cases verdict.allowed) [
            | inr d ↦ rw (e, f, d) tt
            | inl d ↦
                let n = stale c g sockets u (
                  omega (
                    arith,
                    happenings_mono p m.deciding s,
                    happenings-lt p m.resolving t (later sockets m.deciding m.resolving s k f i),
                  )) in
                rw (e, f, d, n) tt
          ]
        ]
      ]

on_connect-Blocked :
    (node : Node) (options : ProxyOptions) (m : Meeting) (c : Caller) (client upstream url : String)
    (s : ProxyState)
    → In (drains c.principal_id) (m.deciding ++ (m.resolving ++ m.connecting))
    → Blocked (on_connect node options m (some c) client upstream url s)
unfolding on_connect
on_connect-Blocked node options m c client upstream url s i =
    let a = parse_authority node (pos 443) url in
    let e = tracked-generation (some c) (client ∷ []) s in
    elim (Bool-cases (is_control_plane options.control_plane a)) [
      | inl d ↦ rw d tt
      | inr d ↦ rw d (
          connect_decided-Blocked node options m c (s.generation c.principal_id) client upstream
            a.host (decide (some c) a.host a.port "CONNECT" m.authorize)
            (tracked (some c) (client ∷ []) s) (rw e (omega arith)) i)
    ]

on_request-Blocked :
    (node : Node) (options : ProxyOptions) (m : Meeting) (c : Caller)
    (request response upstream host : String) (port : ℤ) (method : String) (s : ProxyState)
    → In (drains c.principal_id) (m.deciding ++ m.resolving)
    → Blocked (on_request node options m (some c) request response upstream host port method s)
unfolding on_request
on_request-Blocked node options m c request response upstream host port method s i =
    let e = tracked-generation (some c) (request ∷ response ∷ []) s in
    request_decided-Blocked node options m c (s.generation c.principal_id) request response upstream
      host (decide (some c) host port method m.authorize)
      (tracked (some c) (request ∷ response ∷ []) s) (rw e (omega arith)) i

-- A caller whose connections are drained while a CONNECT of it waits for the authorizer, the resolver or the
-- upstream gets no tunnel; and if they are drained while a plain request of it waits for the authorizer or the
-- resolver, the request is not forwarded.
pub drained-Blocked :
    (node : Node) (options : ProxyOptions) (m n : Meeting) (c : Caller)
    (client upstream url request response host : String) (port : ℤ) (method : String)
    (s t : ProxyState)
    → In (drains c.principal_id) (m.deciding ++ (m.resolving ++ m.connecting))
    → In (drains c.principal_id) (n.deciding ++ n.resolving)
    → Blocked (on_connect node options m (some c) client upstream url s)
      × Blocked (on_request node options n (some c) request response upstream host port method t)
drained-Blocked node options m n c client upstream url request response host port method s t i j = (
  on_connect-Blocked node options m c client upstream url s i,
  on_request-Blocked node options n c request response upstream host port method t j,
)
