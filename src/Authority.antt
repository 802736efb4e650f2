-- ===== src/Authority.antt =====
-- apps/server/src/authority.ts: when one grant confers no more than another, and who may ask for one.
pub mod Order
pub mod Requests
use tik_tok_tech_jam.Base.{
  ℕ, String, ◌==◌, Bool, true, false, ◌&&◌, ◌||◌, Option, none, some, List, [], ◌∷◌, ltb, leb,
  nat_eq, find, if◌then◌else◌, ends_with, slice_one, template,
}
use text.Mathlib.Text.{starts_with}
use tik_tok_tech_jam.Types.{
  Instant, PrincipalKind, human, agent, GrantScope, resource_read, resource_write, network_egress,
  scope_text, Grant,
}

pub record AuthorityDecision : Type 0 where
  pub allowed : Bool
  pub rule_id : String
  pub reason : String
  pub parent_grant_id : Option String

pub record GrantShape : Type 0 where
  pub scope : GrantScope
  pub target : String
  pub expires_at : Option Instant

abbrev pub shape : Grant → GrantShape
shape g = record { scope = g.scope; target = g.target; expires_at = g.expires_at }

abbrev pub scope_family : GrantScope → String
scope_family resource_read = "resource"
scope_family resource_write = "resource"
scope_family network_egress = "network"

abbrev pub scope_strength : GrantScope → ℕ
scope_strength resource_read = 1
scope_strength resource_write = 2
scope_strength network_egress = 1

unfoldable pub scope_is_narrower : GrantScope → GrantScope → Bool
scope_is_narrower child parent =
    if scope_family child == scope_family parent
    then leb (scope_strength child) (scope_strength parent)
    else false

unfoldable pub target_covers : String → String → Bool
target_covers parent_target child_target =
    if parent_target == child_target
    then true
    else if parent_target == "*"
    then true
    else if starts_with parent_target "*."
    then ends_with child_target (slice_one parent_target)
    else false

unfoldable pub expiry_within : Option Instant → Option Instant → Bool
expiry_within none child = true
expiry_within (some p) none = false
expiry_within (some p) (some c) = leb c p

unfoldable pub is_narrower_than : GrantShape → GrantShape → Bool
is_narrower_than child parent =
    if scope_is_narrower child.scope parent.scope
    then if target_covers parent.target child.target
      then expiry_within parent.expires_at child.expires_at
      else false
    else false

pub record GrantRequest : Type 0 where
  pub actor_kind : PrincipalKind
  pub actor_principal_id : String
  pub requested : GrantShape
  pub beneficiary_principal_id : String
  pub held_by_requester : List Grant

-- the last two returns: refused without a covering grant, allowed as carved from one
decide_covering : GrantRequest → Option Grant → AuthorityDecision
decide_covering input none = record {
  allowed = false;
  rule_id = "AUTHORITY-NARROWING-032";
  reason = template (
      "No grant held by "
      ∷ input.actor_principal_id
      ∷ " covers "
      ∷ scope_text input.requested.scope
      ∷ " on "
      ∷ input.requested.target
      ∷ "."
      ∷ []);
  parent_grant_id = none;
}
decide_covering input (some covering) = record {
  allowed = true;
  rule_id = "AUTHORITY-NARROWING-032";
  reason =
      template ("Narrower than grant " ∷ covering.id ∷ ", which the requester already holds." ∷ []);
  parent_grant_id = some covering.id;
}

self_escalation : GrantRequest → AuthorityDecision
self_escalation input = record {
  allowed = false;
  rule_id = "AUTHORITY-SELF-ESCALATION-031";
  reason = template (
      "An agent cannot grant itself "
      ∷ scope_text input.requested.scope
      ∷ " on "
      ∷ input.requested.target
      ∷ "; authority only flows downhill from a human."
      ∷ []);
  parent_grant_id = none;
}

authorize_agent : GrantRequest → AuthorityDecision
unfolding decide_covering self_escalation
authorize_agent input =
    if input.beneficiary_principal_id == input.actor_principal_id
    then self_escalation input
    else decide_covering input
        (find (λ grant. is_narrower_than input.requested (shape grant)) input.held_by_requester)

authorize_by_kind : PrincipalKind → GrantRequest → AuthorityDecision
unfolding authorize_agent
authorize_by_kind human input = record {
  allowed = true;
  rule_id = "AUTHORITY-HUMAN-030";
  reason = "Authority originates with a human principal.";
  parent_grant_id = none;
}
authorize_by_kind agent input = authorize_agent input

unfoldable pub authorize_grant_request : GrantRequest → AuthorityDecision
unfolding authorize_by_kind
authorize_grant_request input = authorize_by_kind input.actor_kind input
