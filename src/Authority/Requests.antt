-- ===== src/Authority/Requests.antt =====
-- What `authorizeGrantRequest` allows and refuses.
use tik_tok_tech_jam.Base.{
  inl, inr, String, ◌≡◌, ◌≢◌, ◌↔◌, Bool, true, false, Option, some, arith, eq_iff, find, In,
  Option-cases, find_sound, find-none,
}
use tik_tok_tech_jam.Types.{agent, Grant}
use tik_tok_tech_jam.Authority.{GrantRequest, shape, is_narrower_than, authorize_grant_request}

-- A held grant that the requested one is narrower than.
pub record Covering (input : GrantRequest) (parent : Option String) : Type 0 where
  pub grant : Grant
  pub held : In grant input.held_by_requester
  pub narrower : is_narrower_than input.requested (shape grant) ≡ true
  pub recorded : parent ≡ some grant.id

abbrev covers : GrantRequest → Grant → Bool
covers input g = is_narrower_than input.requested (shape g)

-- An agent's request that is allowed is for another principal, is narrower than a grant that the
-- agent holds, and records that grant as the parent.
pub allowed_agent-Covering :
    (input : GrantRequest)
    → input.actor_kind ≡ agent
    → (authorize_grant_request input).allowed ≡ true
    → (input.beneficiary_principal_id ≢ input.actor_principal_id)
      × Covering input (authorize_grant_request input).parent_grant_id
unfolding authorize_grant_request
allowed_agent-Covering input k h =
    elim (Option-cases (find (covers input) input.held_by_requester)) [
      | inl e ↦ cc (let q : false ≡ true = ground (arith) in q)
      | inr (g, e) ↦
          let (n, m) = find_sound (covers input) input.held_by_requester g e in
          (
            λ p. cc (
                let q : false ≡ true =
                  ground
                    (arith, (eq_iff input.beneficiary_principal_id input.actor_principal_id).1 p) in
                q),
            record { grant = g; held = m; narrower = n; recorded = ground arith },
          )
    ]

-- An agent's request for another principal is refused exactly when no grant that it holds covers it.
pub refused_agent_iff :
    (input : GrantRequest)
    → input.actor_kind ≡ agent
    → input.beneficiary_principal_id ≢ input.actor_principal_id
    → ((authorize_grant_request input).allowed ≡ false) ↔ (
        (g : Grant)
        → In g input.held_by_requester
        → is_narrower_than input.requested (shape g) ≡ false)
unfolding authorize_grant_request
refused_agent_iff input k d = (
  λ h g m.
      find-none (covers input) input.held_by_requester g
        (ground (arith, eq_iff input.beneficiary_principal_id input.actor_principal_id)) m,
  λ f. elim (Option-cases (find (covers input) input.held_by_requester)) [
    | inl e ↦ ground (arith, eq_iff input.beneficiary_principal_id input.actor_principal_id)
    | inr (g, e) ↦
        let (n, m) = find_sound (covers input) input.held_by_requester g e in cc (n, f g m)
  ],
)
