-- ===== src/Examples/Grants.antt =====
-- Runs of the theorems on the grants' operations.
use tik_tok_tech_jam.Base.{
  suc, String, ◌≡◌, refl, ap, ◌==◌, ◌↔◌, true, false, none, some, List, [], ◌∷◌, ◌++◌, length,
  Pointwise, includes, contains, All-at,
}
use tik_tok_tech_jam.Types.{human, Principal, network_egress, Grant}
use tik_tok_tech_jam.Authority.{shape, is_narrower_than, authorize_grant_request}
use tik_tok_tech_jam.Errors.{ok}
use tik_tok_tech_jam.Policies.Chain.{is_grant_chain_live, find_grant}
use tik_tok_tech_jam.Policies.Chain.Live.{IsStored, Ancestor, itself, above}
use tik_tok_tech_jam.Identity.Cascade.{spread, closure, unrevoked, cascade_grant_revocation}
use tik_tok_tech_jam.Identity.Cascade.Closure.{Descends, closure_iff}
use tik_tok_tech_jam.Identity.Cascade.Stamps.{Stamp, cascade_stamps}
use tik_tok_tech_jam.Identity.Lineage.{HasLineage, by_human, delegated, IsLineage}
use tik_tok_tech_jam.Identity.Grants.{NewGrant, create_grant, revoke_grant}
use tik_tok_tech_jam.Identity.Grants.Create.{create_grant-IsLineage, created_grant_live}
use tik_tok_tech_jam.Identity.Grants.Revoke.{revoke_grant-IsLineage, revoked_chain_ends}
use tik_tok_tech_jam.Examples.{written, given, passed_on, all_grants, sample}

closure_iff_example :
    ((s : List String) × (spread unrevoked (suc (length all_grants)) all_grants ("g1" ∷ [])
        ≡ some s))
    × ((includes (closure unrevoked all_grants "g1") "g2" ≡ true)
        ↔ Descends unrevoked all_grants "g1" "g2")
closure_iff_example = closure_iff unrevoked all_grants "g1" "g2"

cascade_stamps_example :
    Pointwise (Stamp all_grants "g1" 70) all_grants (cascade_grant_revocation all_grants "g1" 70).0
cascade_stamps_example = cascade_stamps all_grants "g1" 70

passed_on_narrower : is_narrower_than (shape passed_on) (shape given) ≡ true
unfolding is_narrower_than tik_tok_tech_jam.Authority.scope_is_narrower
    tik_tok_tech_jam.Authority.target_covers tik_tok_tech_jam.Authority.expiry_within
passed_on_narrower = refl

abbrev user_a : Principal
user_a = record { id = "user-a"; kind = human; name = "User A"; created_at = 1788048000000 }

sample-IsLineage : IsLineage sample.principals sample.grants
sample-IsLineage = record {
  stored = All-at (IsStored all_grants) all_grants (refl, (refl, (refl, tt)));
  lineage = All-at (HasLineage sample.principals all_grants) all_grants (
    by_human user_a refl refl refl,
    (
      delegated given (record { id = "g1"; recorded = refl; stored = refl }) refl passed_on_narrower
          (λ e. cc (ap (λ s. s == "agent-1") e)),
      (by_human user_a refl refl refl, tt),
    ),
  );
}

-- the first agent passes its grant on once more
abbrev further : NewGrant
further = record {
  principal_id = "agent-2";
  granted_by = "agent-1";
  scope = network_egress;
  target = "api.test";
  ttl_minutes = some 5;
}

create_grant-IsLineage_example :
    let d = (create_grant written further "g9" 80 sample).database in
    IsLineage d.principals d.grants
create_grant-IsLineage_example =
    create_grant-IsLineage written further "g9" 80 sample refl sample-IsLineage

abbrev stored_further : Grant
stored_further = record {
  id = "g9";
  principal_id = "agent-2";
  granted_by = "agent-1";
  scope = network_egress;
  target = "api.test";
  expires_at = some 300080;
  revoked_at = none;
  revoked_by = none;
  created_at = 80;
  parent_grant_id = some "g1";
}

further_created : (create_grant written further "g9" 80 sample).result ≡ ok stored_further
unfolding create_grant tik_tok_tech_jam.Store.mutate tik_tok_tech_jam.Identity.Grants.issue
    authorize_grant_request is_grant_chain_live is_narrower_than
    tik_tok_tech_jam.Authority.scope_is_narrower tik_tok_tech_jam.Authority.target_covers
    tik_tok_tech_jam.Authority.expiry_within
further_created = refl

created_grant_live_example :
    ((create_grant written further "g9" 80 sample).database
      ≡ record sample { grants = all_grants ++ stored_further ∷ [] })
    × (contains "api.test" "*" ≡ false)
    × (is_grant_chain_live stored_further
          (create_grant written further "g9" 80 sample).database.grants
          80
        ≡ true)
created_grant_live_example =
    created_grant_live written further "g9" 80 sample refl sample-IsLineage stored_further
      further_created

revoke_grant-IsLineage_example :
    let d = (revoke_grant written "g1" "user-a" 90 sample).database in
    IsLineage d.principals d.grants
revoke_grant-IsLineage_example =
    revoke_grant-IsLineage written "g1" "user-a" 90 sample sample-IsLineage

abbrev given_revoked : Grant
given_revoked = record given { revoked_at = some 90; revoked_by = some "user-a" }

abbrev passed_on_revoked : Grant
passed_on_revoked = record passed_on { revoked_at = some 90; revoked_by = some "user-a" }

given_withdrawn : (revoke_grant written "g1" "user-a" 90 sample).result ≡ ok given_revoked
unfolding revoke_grant tik_tok_tech_jam.Store.mutate tik_tok_tech_jam.Identity.Grants.withdraw
given_withdrawn = refl

given_found :
    find_grant "g1" (revoke_grant written "g1" "user-a" 90 sample).database.grants
    ≡ some given_revoked
unfolding revoke_grant tik_tok_tech_jam.Store.mutate tik_tok_tech_jam.Identity.Grants.withdraw
given_found = refl

below_given :
    Ancestor
      (revoke_grant written "g1" "user-a" 90 sample).database.grants
      given_revoked
      passed_on_revoked
unfolding revoke_grant tik_tok_tech_jam.Store.mutate tik_tok_tech_jam.Identity.Grants.withdraw
below_given =
    above passed_on_revoked given_revoked (record { id = "g1"; recorded = refl; stored = refl })
      itself

revoked_chain_ends_example :
    is_grant_chain_live passed_on_revoked
      (revoke_grant written "g1" "user-a" 90 sample).database.grants
      95
    ≡ false
revoked_chain_ends_example =
    revoked_chain_ends written "g1" "user-a" 90 sample given_revoked given_withdrawn given_revoked
      passed_on_revoked given_found below_given 95
