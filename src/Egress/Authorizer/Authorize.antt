-- ===== src/Egress/Authorizer/Authorize.antt =====
-- apps/server/src/egress-authorizer.ts: `authorize`, before and after its wait for an operator.
use Prim.Native.String.{slice}
use tik_tok_tech_jam.Base.{
  ℕ, suc, ◌-◌, String, ◌==◌, Bool, true, false, not, ◌&&◌, Option, none, some, [], ◌∷◌, leb,
  decimal, template, if◌then◌else◌,
}
use tik_tok_tech_jam.Types.{Instant, PolicyDecision, Database}
use tik_tok_tech_jam.Errors.{thrown, Result, ok, err}
use tik_tok_tech_jam.Policies.Access.{evaluate_egress}
use tik_tok_tech_jam.Identity.Grants.{agent_of}
use tik_tok_tech_jam.Egress.Authorizer.{
  EgressRequest, EgressAuthorizerOptions, AuthorizerState, Pending, Answer, Begun, answered,
  waiting, finish, finish_for, id_of, is_platform_endpoint, max_concurrent_held_requests, put_count,
  refused_by, run_of, secret_matches, strikes_of,
}

module _ (options : EgressAuthorizerOptions) where
  unfoldable pub initial_decision : EgressRequest → Instant → Database → PolicyDecision
  unfolding evaluate_egress
  initial_decision r now db =
      if is_platform_endpoint options.standing_allow_hosts r
      then record {
        allowed = true;
        rule_id = "NET-EGRESS-PLATFORM-021";
        reason = template (r.host ∷ " is a platform endpoint the runtime needs to function." ∷ []);
        principal_id = some r.agent_principal_id;
        grant_id = none;
      }
      else evaluate_egress r.agent_principal_id r.host db.grants now

  abbrev pub may_ask : PolicyDecision → Bool
  may_ask decision =
      not decision.allowed && decision.rule_id == "NET-EGRESS-020" && options.asks_operator

  unfoldable pub flood : EgressRequest → ℕ → PolicyDecision
  flood r held = refused_by r "HITL-EGRESS-FLOOD-027" (
      template (
        "Refused without asking: "
        ∷ decimal held
        ∷ " request(s) from this Agent are already awaiting an operator decision (limit "
        ∷ decimal max_concurrent_held_requests
        ∷ ")."
        ∷ []))

  -- an ungranted request of a known agent: refused when too many are held, or else held
  unfoldable pub hold : String → String → EgressRequest → AuthorizerState → Begun
  unfolding finish_for flood
  hold agent_id run_id r s =
      let held = s.held_by_agent agent_id in
      if leb max_concurrent_held_requests held
      then answered (finish_for options agent_id run_id r (flood r held) s)
      else waiting (record s { held_by_agent = put_count s.held_by_agent agent_id (suc held) })
          (record { request = r; run_id = run_id; agent_id = agent_id })

  unfoldable pub decide :
      Option String → EgressRequest → Instant → Database → AuthorizerState → Begun
  unfolding initial_decision hold finish
  decide none r now db s =
      answered (finish options none (run_of none r db) r (initial_decision r now db) s)
  decide (some agent_id) r now db s =
      let decision = initial_decision r now db in
      let run_id = run_of (some agent_id) r db in
      if may_ask decision
      then hold agent_id run_id r s
      else answered (finish_for options agent_id run_id r decision s)

  unfoldable pub impersonation : Option String → AuthorizerState → Answer
  impersonation agent_id s = record {
    state = s;
    verdict = record {
      allowed = false;
      rule_id = "NET-EGRESS-IMPERSONATION-023";
      reason = "Presented principal is not backed by a valid agent secret.";
      allow_private = false;
      agent_id = agent_id;
      strikes = strikes_of s agent_id;
      quarantined = false;
    };
    effects = [];
  }

  -- The keyed hash is node's: `hmac key message` is its hexadecimal text.
  module _ (hmac : String → String → String) where
    unfoldable pub egress_proxy_secret : String → String → Result String
    egress_proxy_secret agent_principal_id server_key =
        if server_key == ""
        then err (thrown "An internal agent secret is required")
        else ok (slice (hmac server_key agent_principal_id) 0 32)

    abbrev checked :
        Result String
        → Option String
        → EgressRequest
        → Instant
        → Database
        → AuthorizerState
        → Result Begun
    checked (err e) agent_id r now db s = err e
    checked (ok expected) agent_id r now db s =
        if secret_matches expected r.secret
        then ok (decide agent_id r now db s)
        else ok (answered (impersonation agent_id s))

    unfoldable pub begin : EgressRequest → Instant → Database → AuthorizerState → Result Begun
    unfolding egress_proxy_secret secret_matches decide impersonation
    begin r now db s =
        let agent_id = id_of (agent_of r.agent_principal_id db) in
        elim options.server_key [
          | none ↦ ok (decide agent_id r now db s)
          | some key ↦ checked (egress_proxy_secret r.agent_principal_id key) agent_id r now db s
        ]

  -- The `finally` of the wait, and the rest. A wait that throws counts as refused.
  unfoldable pub resume : Pending → Bool → AuthorizerState → Answer
  unfolding finish_for
  resume p approved s =
      let r = p.request in
      let target =
        template (r.method ∷ " request to " ∷ r.host ∷ ":" ∷ decimal r.port ∷ "." ∷ []) in
      let released = record s {
        held_by_agent = put_count s.held_by_agent p.agent_id (s.held_by_agent p.agent_id - 1);
      } in
      finish_for options p.agent_id p.run_id r
        (record {
          allowed = approved;
          rule_id = if approved then "HITL-EGRESS-APPROVED-025" else "HITL-EGRESS-DENIED-026";
          reason = template (
              (if approved then "Operator approved this " else "Operator denied this ")
              ∷ target
              ∷ []);
          principal_id = some r.agent_principal_id;
          grant_id = none;
        })
        released
