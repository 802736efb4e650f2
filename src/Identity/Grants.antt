-- ===== src/Identity/Grants.antt =====
-- The methods of `IdentityService` in identity.ts that change or read grants. The ids and times that
-- the code draws are arguments. The calls of `recordDecision` and `recordGrantLifecycle`, which
-- write trace events, are returned as a list of notes beside the new database.
pub mod Issue
pub mod Create
pub mod Revoke
use tik_tok_tech_jam.Base.{
  ℕ, ◌+◌, ◌*◌, String, ◌==◌, Bool, true, false, not, ◌&&◌, ◌||◌, Option, none, some, List, [], ◌∷◌,
  ◌++◌, map, filter, find, any, nat_eq, get_or, includes, contains, template, if◌then◌else◌,
}
use tik_tok_tech_jam.Types.{
  Instant, GrantScope, PrincipalKind, human, agent, Principal, Grant, Agent, AgentRun, MockResource,
  PolicyDecision, RunEventType, grant_created, grant_revoked, Database,
}
use tik_tok_tech_jam.Errors.{
  Failure, http, policy_violation, authority_denied, authz, Result, ok, err, ◌>>=◌, ◌>>◌, reject_if,
}
use tik_tok_tech_jam.Store.{Persist, mutate, latest_run_for}
use tik_tok_tech_jam.Authority.{AuthorityDecision, GrantRequest, authorize_grant_request}
use tik_tok_tech_jam.Policies.Chain.{is_grant_chain_live}
use tik_tok_tech_jam.Policies.Access.{evaluate_resource_access}
use tik_tok_tech_jam.Identity.Cascade.{closure, unrevoked, is_due}

-- a call of one of the recording callbacks
pub data Note : Type 0 where
  decided : String → String → PolicyDecision → Note
  lifecycle : String → String → RunEventType → Grant → Note

pub record NewGrant : Type 0 where
  pub principal_id : String
  pub granted_by : String
  pub scope : GrantScope
  pub target : String
  pub ttl_minutes : Option ℕ

abbrev pub is_agent : PrincipalKind → Bool
is_agent agent = true
is_agent human = false

-- `ttlMinutes ? now + ttlMinutes * 60_000 : null`, where zero minutes counts as no limit
abbrev pub expiry_after : Option ℕ → Instant → Option Instant
expiry_after none now = none
expiry_after (some m) now = if nat_eq m 0 then none else some (now + m * 60000)

abbrev pub new_grant : NewGrant → String → Instant → Option String → Grant
new_grant input id now parent = record {
  id = id;
  principal_id = input.principal_id;
  granted_by = input.granted_by;
  scope = input.scope;
  target = input.target;
  expires_at = expiry_after input.ttl_minutes now;
  revoked_at = none;
  revoked_by = none;
  created_at = now;
  parent_grant_id = parent;
}

abbrev pub find_principal : String → List Principal → Option Principal
find_principal id principals = find (λ p. p.id == id) principals

abbrev pub agent_of : String → Database → Option Agent
agent_of principal_id db = find (λ a. a.principal_id == principal_id) db.agents

abbrev kind_is_agent : Option Principal → Bool
kind_is_agent none = false
kind_is_agent (some p) = is_agent p.kind

abbrev is_blocked : Option Agent → Bool
is_blocked none = false
is_blocked (some a) = a.authority_blocked

abbrev held_by : String → Database → Instant → List Grant
held_by principal_id db now =
    filter (λ held. held.principal_id == principal_id && is_grant_chain_live held db.grants now)
      db.grants

unfoldable pub grant_request : NewGrant → Instant → Principal → Database → GrantRequest
grant_request input now actor db = record {
  actor_kind = actor.kind;
  actor_principal_id = input.granted_by;
  requested = record {
    scope = input.scope;
    target = input.target;
    expires_at = expiry_after input.ttl_minutes now;
  };
  beneficiary_principal_id = input.principal_id;
  held_by_requester = if is_agent actor.kind then held_by input.granted_by db now else [];
}

abbrev not_to_an_agent : AuthorityDecision
not_to_an_agent = record {
  allowed = false;
  rule_id = "AUTHORITY-NARROWING-032";
  reason = "Agents may delegate authority only to another agent principal.";
  parent_grant_id = none;
}

-- the end of the mutation: store the grant if the decision allows it
unfoldable pub store_grant :
    NewGrant
    → String
    → Instant
    → AuthorityDecision
    → Database
    → Result (AuthorityDecision × Database)
store_grant input id now decision db =
    if decision.allowed
    then ok (
      decision,
      record db { grants = db.grants ++ new_grant input id now decision.parent_grant_id ∷ [] },
    )
    else err (authority_denied decision)

unfoldable pub issue_as :
    NewGrant → String → Instant → Principal → Database → Result (AuthorityDecision × Database)
unfolding grant_request store_grant
issue_as input id now actor db = do
  reject_if
      (is_agent actor.kind && not (kind_is_agent (find_principal input.principal_id db.principals)))
      (authority_denied not_to_an_agent)
  reject_if (is_blocked (agent_of input.principal_id db))
      (http 409 "Terminated agents cannot receive authority until restarted")
  store_grant input id now (authorize_grant_request (grant_request input now actor db)) db

-- the mutation of `createGrant`
unfoldable pub issue :
    NewGrant → String → Instant → Database → Result (AuthorityDecision × Database)
unfolding issue_as
issue input id now db = do
  reject_if (not (any (λ p. p.id == input.principal_id) db.principals))
      (http 404 (template ("Unknown principal " ∷ input.principal_id ∷ [])))
  elim (find_principal input.granted_by db.principals) [
    | none ↦ err (http 404 (template ("Unknown grantor " ∷ input.granted_by ∷ [])))
    | some actor ↦ issue_as input id now actor db
  ]

-- `latestRun?.id ?? …`
abbrev pub run_anchor : List AgentRun → String → String → String
run_anchor runs agent_id other = elim (latest_run_for runs agent_id) [
  | none ↦ other
  | some run ↦ run.id
]

unfoldable pub record_authority_decision :
    NewGrant → AuthorityDecision → Option String → Database → List Note
record_authority_decision input decision grant_id db =
    elim (find (λ a. a.principal_id == input.granted_by || a.principal_id == input.principal_id)
      db.agents) [
        | none ↦ []
        | some a ↦
            decided (run_anchor db.runs a.id (template ("authority-" ∷ a.id ∷ []))) a.id (record {
              allowed = decision.allowed;
              rule_id = decision.rule_id;
              reason = decision.reason;
              principal_id = some input.granted_by;
              grant_id = grant_id;
            })
            ∷ []
      ]

unfoldable pub record_grant_event : RunEventType → Grant → Database → Note
record_grant_event type grant db = elim (agent_of grant.principal_id db) [
  | none ↦ lifecycle (template ("grant-" ∷ grant.id ∷ [])) "unknown" type grant
  | some a ↦
      lifecycle (run_anchor db.runs a.id (template ("grant-" ∷ grant.id ∷ []))) a.id type grant
]

-- What a method gives back: its result, the database after it, and the notes.
pub record Outcome (A : Type 0) : Type 0 where
  pub result : Result A
  pub database : Database
  pub notes : List Note

-- the `catch` of `createGrant`, and what follows a success
abbrev conclude : NewGrant → String → Instant → Database → Result AuthorityDecision → Outcome Grant
conclude input id now db (ok decision) =
    let grant = new_grant input id now decision.parent_grant_id in
    record {
      result = ok grant;
      database = db;
      notes =
          record_authority_decision input decision (some id) db
          ++ record_grant_event grant_created grant db ∷ [];
    }
conclude input id now db (err (authority_denied decision)) = record {
  result = err (policy_violation authz 403 decision.reason);
  database = db;
  notes = record_authority_decision input decision none db;
}
conclude input id now db (err e) = record { result = err e; database = db; notes = [] }

unfoldable pub create_grant : Persist → NewGrant → String → Instant → Database → Outcome Grant
create_grant persist input id now db =
    if contains input.target "*"
    then record {
      result = err (http 400 "Grant targets must be concrete; wildcard targets are not allowed.");
      database = db;
      notes = [];
    }
    else let r = mutate persist (issue input id now) db in conclude input id now r.1 r.0

-- the mutation of `revokeGrant`: the root as it stands afterwards, and the revoked descendants
abbrev pub revoke : Instant → String → Grant → Grant
revoke now by g = record g { revoked_at = some now; revoked_by = some by }

unfoldable pub withdraw :
    String → String → Instant → Database → Result ((Grant × List Grant) × Database)
unfolding closure
withdraw id by now db = elim (find (λ g. g.id == id) db.grants) [
  | none ↦ err (http 404 (template ("Unknown grant " ∷ id ∷ [])))
  | some stored ↦
      let set = closure unrevoked db.grants id in
      let revoked = map (revoke now by) (filter (is_due set) db.grants) in
      ok (
        (get_or (find (λ g. g.id == id) revoked) stored, filter (λ g. not (g.id == id)) revoked),
        record db { grants = map (λ g. if is_due set g then revoke now by g else g) db.grants },
      )
]

abbrev conclude_revocation : Database → Result (Grant × List Grant) → Outcome Grant
conclude_revocation db (ok (root, cascaded)) = record {
  result = ok root;
  database = db;
  notes =
      record_grant_event grant_revoked root db
      ∷ map (λ g. record_grant_event grant_revoked g db) cascaded;
}
conclude_revocation db (err e) = record { result = err e; database = db; notes = [] }

unfoldable pub revoke_grant : Persist → String → String → Instant → Database → Outcome Grant
revoke_grant persist id by now db =
    let r = mutate persist (withdraw id by now) db in conclude_revocation r.1 r.0

-- `readResourceAsAgent`: the resource if the decision allows it, the decision, and the note
abbrev owner_of : Option Agent → String
owner_of none = "user-a"
owner_of (some a) = a.owner_id

abbrev resource_note : String → Option Agent → PolicyDecision → Database → Note
resource_note resource_id none decision db =
    decided (template ("authz-" ∷ resource_id ∷ [])) "unknown" decision
resource_note resource_id (some a) decision db =
    decided (run_anchor db.runs a.id (template ("authz-" ∷ resource_id ∷ []))) a.id decision

unfoldable pub read_resource_as_agent :
    String → String → Instant → Database → Result (Option MockResource × PolicyDecision × Note)
unfolding evaluate_resource_access
read_resource_as_agent resource_id agent_principal_id now db =
    elim (find (λ r. r.id == resource_id) db.resources) [
      | none ↦ err (http 404 (template ("Unknown resource " ∷ resource_id ∷ [])))
      | some resource ↦
          let reader = agent_of agent_principal_id db in
          let decision =
            evaluate_resource_access agent_principal_id (owner_of reader) resource db.grants now in
          ok (
            if decision.allowed then some resource else none,
            decision,
            resource_note resource_id reader decision db,
          )
    ]
