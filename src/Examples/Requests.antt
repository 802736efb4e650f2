-- ===== src/Examples/Requests.antt =====
-- Runs of the theorems on the authorizer.

use tik_tok_tech_jam.Base.{
  ◌+◌, ◌*◌, ℕ, suc, ◌≤◌, String, ◌≡◌, refl, ap, ◌==◌, ◌⊎◌, inl, inr, Bool, true, false, Option,
  none, some, List, [], ◌∷◌, ◌++◌,
}
use tik_tok_tech_jam.Types.{network_egress, Grant}
use tik_tok_tech_jam.Errors.{Result, ok}
use tik_tok_tech_jam.Policies.Access.Laws.{Authorizes}
use tik_tok_tech_jam.Egress.Authorizer.{
  EgressRequest, EgressAuthorizerOptions, AuthorizerState, Answer, Begun, answered, waiting,
  Pending, initial_state, put_count, is_platform_endpoint,
}
use tik_tok_tech_jam.Egress.Authorizer.Authorize.{begin, resume}
use tik_tok_tech_jam.Egress.Authorizer.Verdicts.{Credential, begin-entitled}
use tik_tok_tech_jam.Egress.Authorizer.Answers.{refusals_of}
use tik_tok_tech_jam.Egress.Authorizer.Held.{
  System, start, waits, operator, reset, resetting, Reachable, started, stepped, waiting_of,
  Reachable-held, Reachable-strikes,
}
use tik_tok_tech_jam.Examples.{sample}

abbrev options : EgressAuthorizerOptions
options = record {
  standing_allow_hosts = "platform.test" ∷ [];
  server_key = some "key";
  quarantine_threshold = 3;
  asks_operator = true;
}

-- a stand-in for the keyed hash
abbrev hash : String → String → String
hash key message = "0123456789abcdef0123456789abcdef"

abbrev request_to : String → EgressRequest
request_to host = record {
  agent_principal_id = "agent-1";
  host = host;
  port = 443;
  method = "CONNECT";
  secret = some "0123456789abcdef0123456789abcdef";
}

abbrev answer_of : Result Begun → Answer → Answer
answer_of (ok (answered a)) d = a
answer_of _ d = d

abbrev answer : Answer
answer = answer_of (begin options hash (request_to "api.test") 100 sample initial_state) (
    resume options (record { request = request_to "api.test"; run_id = ""; agent_id = "" }) false
      initial_state)

api_answered :
    begin options hash (request_to "api.test") 100 sample initial_state ≡ ok (answered answer)
unfolding begin tik_tok_tech_jam.Base.Text.decimal tik_tok_tech_jam.Policies.Access.active_grant
    tik_tok_tech_jam.Policies.Chain.is_grant_chain_live
api_answered = refl

api_allowed : answer.verdict.allowed ≡ true
unfolding begin tik_tok_tech_jam.Base.Text.decimal tik_tok_tech_jam.Policies.Access.active_grant
    tik_tok_tech_jam.Policies.Chain.is_grant_chain_live
api_allowed = refl

begin-entitled_example :
    Credential hash (request_to "api.test") options.server_key
    × ((is_platform_endpoint options.standing_allow_hosts (request_to "api.test") ≡ true)
        ⊎ ((g : Grant) × Authorizes sample.grants "agent-1" network_egress "api.test" 100 g))
begin-entitled_example =
    begin-entitled options hash (request_to "api.test") 100 sample initial_state answer api_answered
      api_allowed

abbrev pending : Pending
pending = record { request = request_to "new.test"; run_id = "egress-a1"; agent_id = "a1" }

abbrev one_held : AuthorizerState
one_held = record initial_state { held_by_agent = put_count initial_state.held_by_agent "a1" 1 }

new_waits :
    begin options hash (request_to "new.test") 100 sample initial_state
    ≡ ok (waiting one_held pending)
unfolding begin tik_tok_tech_jam.Base.Text.decimal tik_tok_tech_jam.Policies.Access.active_grant
    tik_tok_tech_jam.Store.latest_run_for
new_waits = refl

abbrev asked : System
asked = record { state = one_held; held = pending ∷ []; log = []; resets = λ a. 0 }

asked-Reachable : Reachable options hash asked
asked-Reachable =
    stepped start asked started
      (waits start (request_to "new.test") 100 sample one_held pending new_waits)

abbrev started_again : System
started_again = reset "a1" asked

started_again-Reachable : Reachable options hash started_again
started_again-Reachable = stepped asked started_again asked-Reachable (resetting asked "a1")

Reachable-held_example :
    (started_again.state.held_by_agent "a1" ≤ waiting_of "a1" started_again.held)
    × (waiting_of "a1" started_again.held
        ≤ started_again.state.held_by_agent "a1" + 3 * started_again.resets "a1")
    × (started_again.state.held_by_agent "a1" ≤ 3)
Reachable-held_example = Reachable-held options hash started_again started_again-Reachable "a1"

abbrev denied : System
denied = record {
  state = (resume options pending false one_held).state;
  held = [];
  log = (resume options pending false one_held).effects ++ [];
  resets = λ a. 0;
}

denied-Reachable : Reachable options hash denied
denied-Reachable = stepped asked denied asked-Reachable (operator asked [] pending [] false refl)

Reachable-strikes_example :
    (resume options pending false one_held).state.strikes_by_agent "a1"
    ≡ refusals_of "a1" denied.log
Reachable-strikes_example = Reachable-strikes options hash denied denied-Reachable "a1"
