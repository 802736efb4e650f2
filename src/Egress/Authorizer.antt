-- ===== src/Egress/Authorizer.antt =====
-- apps/server/src/egress-authorizer.ts. `authorize` waits for an operator in the middle, so it is two
-- functions: `begin` up to the call of `requestApproval`, and `resume` after it. A map from agents to
-- counts is a function that is 0 where the map has no entry (the code never stores a 0). What the code
-- calls on the service is returned as a list of effects, in order. Agent ids are not empty.
pub mod Authorize
pub mod Verdicts
pub mod Answers
pub mod Held
use Prim.Native.String.{slice}
use tik_tok_tech_jam.Base.{
  ℕ, suc, ◌+◌, ◌-◌, String, ◌==◌, Bool, true, false, not, ◌&&◌, ◌||◌, Option, none, some, List, [],
  ◌∷◌, ◌++◌, any, find, ltb, leb, decimal, is_some, template, if◌then◌else◌,
}
use tik_tok_tech_jam.Types.{Instant, Agent, PolicyDecision, Database}
use tik_tok_tech_jam.Errors.{Failure, thrown, Result, ok, err}
use tik_tok_tech_jam.Store.{latest_run_for}
use tik_tok_tech_jam.Policies.Access.{evaluate_egress}
use tik_tok_tech_jam.Identity.Grants.{agent_of, run_anchor}

pub record EgressRequest : Type 0 where
  pub agent_principal_id : String
  pub host : String
  pub port : ℕ
  pub method : String
  pub secret : Option String

pub record EgressAuthorizationResult : Type 0 where
  pub allowed : Bool
  pub rule_id : String
  pub reason : String
  pub allow_private : Bool
  pub agent_id : Option String
  pub strikes : ℕ
  pub quarantined : Bool

-- `asks_operator` says that `requestApproval` is given.
pub record EgressAuthorizerOptions : Type 0 where
  pub standing_allow_hosts : List String
  pub server_key : Option String
  pub quarantine_threshold : ℕ
  pub asks_operator : Bool

pub record AuthorizerState : Type 0 where
  pub strikes_by_agent : String → ℕ
  pub held_by_agent : String → ℕ

abbrev pub put_count : (String → ℕ) → String → ℕ → String → ℕ
put_count counts key n k = if k == key then n else counts k

pub data Effect : Type 0 where
  decided : String → String → PolicyDecision → Effect
  blocked : String → String → EgressRequest → PolicyDecision → ℕ → Effect
  quarantine_agent : String → String → Effect

-- a request held at the proxy
pub record Pending : Type 0 where
  pub request : EgressRequest
  pub run_id : String
  pub agent_id : String

pub record Answer : Type 0 where
  pub state : AuthorizerState
  pub verdict : EgressAuthorizationResult
  pub effects : List Effect

pub data Begun : Type 0 where
  answered : Answer → Begun
  waiting : AuthorizerState → Pending → Begun

abbrev pub max_concurrent_held_requests : ℕ
max_concurrent_held_requests = 3

abbrev pub initial_state : AuthorizerState
initial_state = record { strikes_by_agent = λ a. 0; held_by_agent = λ a. 0 }

unfoldable pub reset_strikes : String → AuthorizerState → AuthorizerState
reset_strikes agent_id s = record {
  strikes_by_agent = put_count s.strikes_by_agent agent_id 0;
  held_by_agent = put_count s.held_by_agent agent_id 0;
}

-- `if (!presented) return false`, then equality of the bytes
unfoldable pub secret_matches : String → Option String → Bool
secret_matches expected none = false
secret_matches expected (some presented) = not (presented == "") && expected == presented

abbrev pub id_of : Option Agent → Option String
id_of none = none
id_of (some a) = some a.id

abbrev pub strikes_of : AuthorizerState → Option String → ℕ
strikes_of s none = 0
strikes_of s (some a) = s.strikes_by_agent a

abbrev pub is_platform_endpoint : List String → EgressRequest → Bool
is_platform_endpoint hosts r =
    any (λ entry. entry == r.host || entry == template (r.host ∷ ":" ∷ decimal r.port ∷ [])) hosts

abbrev pub run_of : Option String → EgressRequest → Database → String
run_of none r db = template ("egress-" ∷ r.agent_principal_id ∷ [])
run_of (some a) r db = run_anchor db.runs a (template ("egress-" ∷ a ∷ []))

abbrev pub refused_by : EgressRequest → String → String → PolicyDecision
refused_by r rule reason = record {
  allowed = false;
  rule_id = rule;
  reason = reason;
  principal_id = some r.agent_principal_id;
  grant_id = none;
}

abbrev pub result_of : PolicyDecision → Option String → ℕ → Bool → EgressAuthorizationResult
result_of decision agent_id strikes quarantined = record {
  allowed = decision.allowed;
  rule_id = decision.rule_id;
  reason = decision.reason;
  allow_private = decision.rule_id == "NET-EGRESS-PLATFORM-021";
  agent_id = agent_id;
  strikes = strikes;
  quarantined = quarantined;
}

abbrev pub trace_of : String → String → PolicyDecision → List Effect
trace_of run_id agent_id decision =
    if decision.rule_id == "NET-EGRESS-PLATFORM-021"
    then []
    else decided run_id agent_id decision ∷ []

quarantine_reason : ℕ → EgressRequest → String
quarantine_reason strikes r = template (
    "Quarantined after "
    ∷ decimal strikes
    ∷ " blocked egress attempts (last target: "
    ∷ r.host
    ∷ ")."
    ∷ [])

-- The end of `authorize`: record the decision, count a strike for a refusal, and quarantine at the
-- threshold.
module _ (options : EgressAuthorizerOptions) where
  unfoldable pub finish_for :
      String → String → EgressRequest → PolicyDecision → AuthorizerState → Answer
  unfolding quarantine_reason
  finish_for agent_id run_id r decision s =
      let count = s.strikes_by_agent agent_id in
      let strikes = if decision.allowed then count else suc count in
      let out = not decision.allowed && leb options.quarantine_threshold strikes in
      record {
        state =
            if decision.allowed
            then s
            else record s { strikes_by_agent = put_count s.strikes_by_agent agent_id strikes };
        verdict = result_of decision (some agent_id) strikes out;
        effects =
            trace_of run_id agent_id decision
            ++ (if decision.allowed then [] else blocked run_id agent_id r decision strikes ∷ [])
            ++ (if out then quarantine_agent agent_id (quarantine_reason strikes r) ∷ [] else []);
      }

  unfoldable pub finish :
      Option String → String → EgressRequest → PolicyDecision → AuthorizerState → Answer
  unfolding finish_for
  finish none run_id r decision s = record {
    state = s;
    verdict = result_of decision none 0 false;
    effects = [];
  }
  finish (some agent_id) run_id r decision s = finish_for agent_id run_id r decision s
