-- ===== src/Egress/Proxy/Passed.antt =====
-- What is true of a connection that gets through the proxy.
use tik_tok_tech_jam.Base.{
  get_or, ◌∙◌, Bool, ap, ℕ, ◌≡◌, refl, String, true, false, ◌||◌, ◌⊎◌, inl, inr, Option, none, some,
  List, [], ◌∷◌, includes, arith, Bool-cases,
}
use tik_tok_tech_jam.Errors.{Result, ok, err}
use tik_tok_tech_jam.Errors.Guards.{Result-cases}
use tik_tok_tech_jam.Egress.Proxy.Addresses.{is_private_address}
use tik_tok_tech_jam.Egress.Proxy.Public.{OutOfRanges, is_private_address-OutOfRanges}
use tik_tok_tech_jam.Egress.Proxy.Headers.{
  ℤ, pos, EgressInput, input_of, EgressVerdict, Node, Caller, parse_authority, resolve_target,
  decide, is_literal, public_or_none, looked_up,
}
use tik_tok_tech_jam.Egress.Proxy.Connections.{ProxyState, Event, happenings}
use tik_tok_tech_jam.Egress.Proxy.Requests.{
  Outcome, refused, dropped, through, ProxyOptions, Meeting, is_stale, tracked, generation_of,
  connected, resolved_to, connect_resolved, connect_decided, on_connect, is_control_plane,
  request_resolved, request_decided, on_request,
}

-- a property of the address, if there is one
abbrev pub IfThrough : (String → Type 0) → Outcome × ProxyState → Type 0
IfThrough P (refused n v, s) = Unit
IfThrough P (dropped, s) = Unit
IfThrough P (through address, s) = P address

also-IfThrough :
    (P : String → Type 0) (Q : Type 0)
    → Q
    → (x : Outcome × ProxyState) → IfThrough P x
    → IfThrough (λ a. P a × Q) x
also-IfThrough P Q q (refused n v, s) h = tt
also-IfThrough P Q q (dropped, s) h = tt
also-IfThrough P Q q (through a, s) h = (h, q)

module _ (node : Node) (options : ProxyOptions) where
  -- The address passes the test for private addresses, unless the options or the verdict permit that.
  abbrev pub Permitted : EgressVerdict → String → Type 0
  Permitted v address =
      ((options.allow_private_addresses || v.allow_private) ≡ true)
      ⊎ ((is_private_address node.is_ip address ≡ false) × OutOfRanges node.is_ip address)

  -- The authorizer was asked about the caller, the host, the port and the method, and allowed it with the verdict.
  abbrev pub Allowed :
      Option Caller
      → String
      → ℤ
      → String
      → (EgressInput → Result EgressVerdict)
      → EgressVerdict
      → Type 0
  Allowed o host port method authorize v =
      (c : Caller) × (o ≡ some c)
      × (authorize (input_of c host port method) ≡ ok v)
      × (v.allowed ≡ true)

  -- The address is the host itself, or what the resolver gives for it.
  abbrev pub Of : String → String → Type 0
  Of host a = (host ≡ a) ⊎ (node.dns_lookup host ≡ ok a)

  public-same : (host a : String) → public_or_none node host ≡ some a → host ≡ a
  public-same host a h = ground arith

  looked_up-Of :
      (host : String) (r : Result String) (a : String)
      → node.dns_lookup host ≡ r
      → looked_up node r ≡ some a
      → Of host a
  looked_up-Of host (err e) a q h = cc h
  looked_up-Of host (ok b) a q h = inr (q ∙ ap ok (public-same b a h))

  resolve_target-Of :
      (permit : Bool) (host a : String)
      → resolve_target node options.allow_private_addresses permit host ≡ some a
      → Of host a
  unfolding resolve_target
  resolve_target-Of permit host a h =
      elim (Bool-cases (options.allow_private_addresses || permit)) [
        | inl e ↦ inl (ap (λ o. get_or o host) (rw e at h))
        | inr e ↦ elim (Bool-cases (is_literal node host)) [
          | inl f ↦ inl (public-same host a (rw (e, f) at h))
          | inr f ↦ looked_up-Of host (node.dns_lookup host) a refl (rw (e, f) at h)
        ]
      ]

  public-Permitted :
      (v : EgressVerdict) (host a : String) → public_or_none node host ≡ some a → Permitted v a
  public-Permitted v host a h = elim (Bool-cases (is_private_address node.is_ip host)) [
    | inl e ↦ cc (let k : public_or_none node host ≡ none = rw e refl in k, h)
    | inr e ↦
        let k : host ≡ a = ground arith in
        let f : is_private_address node.is_ip a ≡ false = rw (← k) e in
        inr (f, is_private_address-OutOfRanges node.is_ip a f)
  ]

  looked_up-Permitted :
      (v : EgressVerdict) (r : Result String) (a : String)
      → looked_up node r ≡ some a
      → Permitted v a
  looked_up-Permitted v (err e) a h = cc
  looked_up-Permitted v (ok b) a h = public-Permitted v b a h

  resolve_target-Permitted :
      (v : EgressVerdict) (host a : String)
      → resolve_target node options.allow_private_addresses v.allow_private host ≡ some a
      → Permitted v a
  unfolding resolve_target
  resolve_target-Permitted v host a h =
      elim (Bool-cases (options.allow_private_addresses || v.allow_private)) [
        | inl e ↦ inl e
        | inr e ↦ elim (Bool-cases (is_literal node host)) [
          | inl f ↦ public-Permitted v host a (rw (e, f) at h)
          | inr f ↦ looked_up-Permitted v (node.dns_lookup host) a (rw (e, f) at h)
        ]
      ]

  module _ (m : Meeting) (caller : Option Caller) (host : String) (port : ℤ) (method : String) where
    abbrev v : EgressVerdict
    v = decide caller host port method m.authorize

    decide-Allowed : v.allowed ≡ true → Allowed caller host port method m.authorize v
    unfolding decide
    decide-Allowed h = go caller h
      where
        go :
            (o : Option Caller)
            → (decide o host port method m.authorize).allowed ≡ true
            → Allowed o host port method m.authorize (decide o host port method m.authorize)
        go none h = cc
        go (some c) h = elim (Result-cases (m.authorize (input_of c host port method))) [
          | inl (e, q) ↦ cc (
            let k : (decide (some c) host port method m.authorize).allowed ≡ false = rw q refl in k,
            h,
          )
          | inr (v, q) ↦ (c, refl, rw q refl, h)
        ]

    -- the caller is known and was allowed for the host, and the address is the host's and permitted
    abbrev pub Passed : String → Type 0
    Passed address =
        Allowed caller host port method m.authorize v × Of host address × Permitted v address

    connected-Passed :
        (g : ℕ) (client upstream address : String) (events : List Event) (s : ProxyState)
        → Passed address
        → IfThrough Passed (connected caller g client upstream address events s)
    unfolding connected
    connected-Passed g client upstream address events s h =
        elim (Bool-cases (is_stale caller g (client ∷ []) (happenings events s))) [
          | inl e ↦ rw e tt
          | inr e ↦ rw e h
        ]

    resolved_to-Passed :
        (g : ℕ) (client upstream : String) (o : Option String) (s : ProxyState)
        → ((a : String) → o ≡ some a → Passed a)
        → IfThrough Passed (resolved_to m caller g client upstream host o s)
    resolved_to-Passed g client upstream none s h = tt
    resolved_to-Passed g client upstream (some a) s h =
        connected-Passed g client upstream a m.connecting s (h a refl)

    allowed-Passed :
        (a : String)
        → v.allowed ≡ true
        → resolve_target node options.allow_private_addresses v.allow_private host ≡ some a
        → Passed a
    allowed-Passed a h k = (
      decide-Allowed h,
      resolve_target-Of v.allow_private host a k,
      resolve_target-Permitted v host a k,
    )

    connect_resolved-Passed :
        (g : ℕ) (client upstream : String) (s : ProxyState)
        → v.allowed ≡ true
        → IfThrough Passed (connect_resolved node options m caller g client upstream host v s)
    connect_resolved-Passed g client upstream s h =
        elim (Bool-cases (is_stale caller g (client ∷ []) (happenings m.resolving s))) [
          | inl e ↦ rw e tt
          | inr e ↦ rw e (
              resolved_to-Passed g client upstream _ (happenings m.resolving s)
                (λ a k. allowed-Passed a h k))
        ]

    connect_decided-Passed :
        (g : ℕ) (client upstream : String) (s : ProxyState)
        → IfThrough Passed (connect_decided node options m caller g client upstream host v s)
    connect_decided-Passed g client upstream s = elim (Bool-cases m.aborted) [
      | inl e ↦ rw e tt
      | inr e ↦ elim (Bool-cases (is_stale caller g (client ∷ []) (happenings m.deciding s))) [
        | inl f ↦ rw (e, f) tt
        | inr f ↦ elim (Bool-cases v.allowed) [
          | inr d ↦ rw (e, f, d) tt
          | inl d ↦
              rw (e, f, d) (connect_resolved-Passed g client upstream (happenings m.deciding s) d)
        ]
      ]
    ]

    request_resolved-Passed :
        (response upstream : String) (o : Option String) (s : ProxyState)
        → ((a : String) → o ≡ some a → Passed a)
        → IfThrough Passed (request_resolved caller response upstream host o s)
    request_resolved-Passed response upstream none s h = tt
    request_resolved-Passed response upstream (some a) s h = h a refl

    request_decided-Passed :
        (g : ℕ) (request response upstream : String) (s : ProxyState)
        → IfThrough Passed
            (request_decided node options m caller g request response upstream host v s)
    request_decided-Passed g request response upstream s =
        let sockets : List String = request ∷ response ∷ [] in
        let t = happenings m.deciding s in
        let u = happenings m.resolving t in
        elim (Bool-cases m.aborted) [
          | inl e ↦ rw e tt
          | inr e ↦ elim (Bool-cases (is_stale caller g sockets t)) [
            | inl f ↦ elim (Bool-cases (includes t.destroyed response)) [
              | inl d ↦ rw (e, f, d) tt
              | inr d ↦ rw (e, f, d) tt
            ]
            | inr f ↦ elim (Bool-cases v.allowed) [
              | inr d ↦ rw (e, f, d) tt
              | inl d ↦ elim (Bool-cases (is_stale caller g sockets u)) [
                | inl n ↦ rw (e, f, d, n) tt
                | inr n ↦
                    rw (e, f, d, n)
                      (request_resolved-Passed response upstream _ u (λ a k. allowed-Passed a d k))
              ]
            ]
          ]
        ]

  -- A tunnel that opens is for no host and port that are written as those of the control plane. A tunnel that opens
  -- or a request that is forwarded has a known caller, whom the authorizer allowed for exactly that host, port and
  -- method, and goes to the host itself or to what the resolver gave for it, which, unless private
  -- addresses are permitted, the test for them does not report, and which is in none of the refused ranges if it
  -- is an address of IPv4 that parses.
  pub through-Passed :
      (m : Meeting) (caller : Option Caller) (client upstream url request response host : String)
      (port : ℤ) (method : String) (s t : ProxyState)
      → IfThrough
          (λ a.
            Passed m caller
              (parse_authority node (pos 443) url).host
              (parse_authority node (pos 443) url).port
              "CONNECT"
              a
            × (is_control_plane options.control_plane (parse_authority node (pos 443) url) ≡ false))
          (on_connect node options m caller client upstream url s)
        × IfThrough
            (Passed m caller host port method)
            (on_request node options m caller request response upstream host port method t)
  unfolding on_connect on_request
  through-Passed m caller client upstream url request response host port method s t =
      let b = parse_authority node (pos 443) url in
      (
        elim (Bool-cases (is_control_plane options.control_plane b)) [
          | inl d ↦ rw d tt
          | inr d ↦ rw d (
              also-IfThrough (Passed m caller b.host b.port "CONNECT") (false ≡ false) refl
                (connect_decided node options m caller (generation_of caller s) client upstream
                  b.host (decide caller b.host b.port "CONNECT" m.authorize)
                  (tracked caller (client ∷ []) s))
                (connect_decided-Passed m caller b.host b.port "CONNECT" (generation_of caller s)
                  client upstream (tracked caller (client ∷ []) s)))
        ],
        request_decided-Passed m caller host port method (generation_of caller t) request response
            upstream (tracked caller (request ∷ response ∷ []) t),
      )
