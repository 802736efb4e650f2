-- ===== src/Policies/Access.antt =====
-- The authorization evaluators of run-policies.ts: `activeGrant`, `evaluateResourceAccess` and
-- `evaluateEgress`.
pub mod Laws
use tik_tok_tech_jam.Base.{
  String, ◌==◌, Bool, true, false, ◌&&◌, Option, none, some, List, [], ◌∷◌, filter, find, all,
  is_some, template, if◌then◌else◌,
}
use tik_tok_tech_jam.Types.{
  Instant, GrantScope, resource_read, network_egress, scope_eq, Grant, MockResource, PolicyDecision,
}
use tik_tok_tech_jam.Policies.Chain.{is_grant_chain_live}

pub record ActiveGrant : Type 0 where
  pub grant : Option Grant
  pub rule_id : String

abbrev pub matches : String → GrantScope → String → Grant → Bool
matches principal_id scope target g =
    g.principal_id == principal_id && scope_eq g.scope scope && g.target == target

abbrev pub no_grant_rule : GrantScope → String
no_grant_rule scope = if scope_eq scope network_egress then "NET-EGRESS-020" else "AUTHZ-GRANT-011"

-- every matching grant is spent: revoked, or else expired
spent_rule : List Grant → String
spent_rule matching =
    if all (λ g. is_some g.revoked_at) matching then "AUTHZ-REVOKED-013" else "AUTHZ-EXPIRED-012"

choose_live : GrantScope → List Grant → List Grant → Instant → ActiveGrant
unfolding spent_rule
choose_live scope [] grants now = record { grant = none; rule_id = no_grant_rule scope }
choose_live scope (m ∷ ms) grants now =
    elim (find (λ g. is_grant_chain_live g grants now) (m ∷ ms)) [
      | some live ↦ record { grant = some live; rule_id = no_grant_rule scope }
      | none ↦ record { grant = none; rule_id = spent_rule (m ∷ ms) }
    ]

unfoldable pub active_grant : List Grant → String → GrantScope → String → Instant → ActiveGrant
unfolding choose_live
active_grant grants principal_id scope target now =
    choose_live scope (filter (matches principal_id scope target) grants) grants now

resource_decision : String → String → ActiveGrant → PolicyDecision
resource_decision agent_principal_id resource_id active = elim active.grant [
  | some grant ↦ record {
    allowed = true;
    rule_id = "AUTHZ-GRANT-011";
    reason =
        template
          ("Active grant " ∷ grant.id ∷ " authorizes resource:read on " ∷ resource_id ∷ "." ∷ []);
    principal_id = some agent_principal_id;
    grant_id = some grant.id;
  }
  | none ↦ record {
    allowed = false;
    rule_id = active.rule_id;
    reason = template ("No active resource:read grant for " ∷ resource_id ∷ "." ∷ []);
    principal_id = some agent_principal_id;
    grant_id = none;
  }
]

unfoldable pub evaluate_resource_access :
    String → String → MockResource → List Grant → Instant → PolicyDecision
unfolding resource_decision
evaluate_resource_access agent_principal_id agent_owner_id resource grants now =
    if resource.owner_id == agent_owner_id
    then resource_decision agent_principal_id resource.id
        (active_grant grants agent_principal_id resource_read resource.id now)
    else record {
      allowed = false;
      rule_id = "AUTHZ-OWNER-010";
      reason = template (
          "Agent owned by " ∷ agent_owner_id ∷ " may never access " ∷ resource.owner_id
          ∷ "'s resource." ∷ []);
      principal_id = some agent_principal_id;
      grant_id = none;
    }

-- the reason of a refusal keeps how a grant stopped applying
egress_refusal : String → String → String
egress_refusal rule_id host =
    if rule_id == "AUTHZ-REVOKED-013"
    then template ("Egress grant for " ∷ host ∷ " was revoked." ∷ [])
    else if rule_id == "AUTHZ-EXPIRED-012"
    then template ("Egress grant for " ∷ host ∷ " has expired." ∷ [])
    else template ("Default-deny egress: no active network:egress grant for " ∷ host ∷ "." ∷ [])

egress_decision : String → String → ActiveGrant → PolicyDecision
unfolding egress_refusal
egress_decision agent_principal_id host active = elim active.grant [
  | some grant ↦ record {
    allowed = true;
    rule_id = "NET-EGRESS-020";
    reason = template ("Active grant " ∷ grant.id ∷ " authorizes egress to " ∷ host ∷ "." ∷ []);
    principal_id = some agent_principal_id;
    grant_id = some grant.id;
  }
  | none ↦ record {
    allowed = false;
    rule_id = active.rule_id;
    reason = egress_refusal active.rule_id host;
    principal_id = some agent_principal_id;
    grant_id = none;
  }
]

unfoldable pub evaluate_egress : String → String → List Grant → Instant → PolicyDecision
unfolding egress_decision
evaluate_egress agent_principal_id host grants now =
    egress_decision agent_principal_id host
      (active_grant grants agent_principal_id network_egress host now)
