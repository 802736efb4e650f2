-- ===== src/Egress/Authorizer/Verdicts.antt =====
-- What entitles a request to the verdict "allowed".
use tik_tok_tech_jam.Base.{
  String, ◌==◌, ◌≡◌, ◌⊎◌, inl, inr, true, false, none, some, arith, eq_iff, Bool-cases,
  Option-cases, Option,
}
use Prim.Native.String.{slice}
use tik_tok_tech_jam.Types.{Instant, network_egress, Database}
use tik_tok_tech_jam.Errors.{ok}
use tik_tok_tech_jam.Policies.Access.Laws.{Authorizes, egress_allowed_iff}
use tik_tok_tech_jam.Identity.Grants.{agent_of}
use tik_tok_tech_jam.Egress.Authorizer.{
  id_of, EgressRequest, EgressAuthorizerOptions, AuthorizerState, Answer, answered,
  is_platform_endpoint, finish_for, finish, secret_matches,
}
use tik_tok_tech_jam.Egress.Authorizer.Authorize.{
  flood, impersonation, initial_decision, hold, decide, egress_proxy_secret, begin,
}

-- The request carries the secret of the principal it names, or no server key is configured.
pub data Credential (hmac : String → String → String) (r : EgressRequest)
    : Option String → Type 0 where
  unchecked : Credential hmac r none
  presented :
      (key : String)
      → r.secret ≡ some (slice (hmac key r.agent_principal_id) 0 32)
      → Credential hmac r (some key)

module _ (options : EgressAuthorizerOptions) where
  initial-entitled :
      (r : EgressRequest) (now : Instant) (db : Database)
      → (initial_decision options r now db).allowed ≡ true
      → (is_platform_endpoint options.standing_allow_hosts r ≡ true)
        ⊎ ((g : _) × Authorizes db.grants r.agent_principal_id network_egress r.host now g)
  unfolding initial_decision
  initial-entitled r now db h =
      elim (Bool-cases (is_platform_endpoint options.standing_allow_hosts r)) [
        | inl p ↦ inl p
        | inr p ↦
            let (g, w, e) =
              (egress_allowed_iff r.agent_principal_id r.host db.grants now).0 (ground arith) in
            inr (g, w)
      ]

  decide-allowed :
      (agent_id : Option String) (r : EgressRequest) (now : Instant) (db : Database)
      (s : AuthorizerState) (a : Answer)
      → decide options agent_id r now db s ≡ answered a
      → a.verdict.allowed ≡ true
      → (initial_decision options r now db).allowed ≡ true
  unfolding decide finish finish_for hold flood
  decide-allowed none r now db s a e h = ground arith
  decide-allowed (some i) r now db s a e h = ground arith

secret_matches-some :
    (expected : String) (presented : Option String)
    → secret_matches expected presented ≡ true
    → presented ≡ some expected
unfolding secret_matches
secret_matches-some e none h = cc
secret_matches-some e (some p) h = cc (let q : (e == p) ≡ true = ground arith in (eq_iff e p).0 q)

module _ (options : EgressAuthorizerOptions) (hmac : String → String → String) where
  pub past_gate :
      (r : EgressRequest) (now : Instant) (db : Database) (s : AuthorizerState) (a : Answer)
      → begin options hmac r now db s ≡ ok (answered a)
      → (a ≡ impersonation options (id_of (agent_of r.agent_principal_id db)) s)
        ⊎ (Credential hmac r options.server_key
            × (decide options (id_of (agent_of r.agent_principal_id db)) r now db s ≡ answered a))
  unfolding begin egress_proxy_secret
  past_gate r now db s a e = elim (Option-cases options.server_key) [
    | inl n ↦ inr (rw n unchecked, ground arith)
    | inr (key, k) ↦
        elim (Bool-cases (secret_matches (slice (hmac key r.agent_principal_id) 0 32) r.secret)) [
          | inl m ↦ inr (
            rw k (
                presented key
                  (secret_matches-some (slice (hmac key r.agent_principal_id) 0 32) r.secret m)),
            ground arith,
          )
          | inr m ↦ inl (ground arith)
        ]
  ]

  -- A request that is allowed without asking an operator carries the secret of the principal it names,
  -- when a server key is configured, and is for a platform endpoint, or its principal holds a stored
  -- egress grant for exactly that host whose chain is live.
  pub begin-entitled :
      (r : EgressRequest) (now : Instant) (db : Database) (s : AuthorizerState) (a : Answer)
      → begin options hmac r now db s ≡ ok (answered a)
      → a.verdict.allowed ≡ true
      → Credential hmac r options.server_key
        × ((is_platform_endpoint options.standing_allow_hosts r ≡ true)
            ⊎ ((g : _) × Authorizes db.grants r.agent_principal_id network_egress r.host now g))
  unfolding impersonation
  begin-entitled r now db s a e h = elim (past_gate r now db s a e) [
    | inl v ↦ cc (let q : true ≡ false = ground arith in q)
    | inr (c, d) ↦ (
      c,
      initial-entitled options r now db
          (decide-allowed options (id_of (agent_of r.agent_principal_id db)) r now db s a d h),
    )
  ]
