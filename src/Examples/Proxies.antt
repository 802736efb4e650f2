-- ===== src/Examples/Proxies.antt =====
-- Runs of the theorems on the egress proxy and on the cost of a run.
use tik_tok_tech_jam.Base.{◌*◌, ◌≡◌, refl, true, false, none, some, [], ◌∷◌, any, inl, arith}
use tik_tok_tech_jam.Types.{RunUsage}
use tik_tok_tech_jam.Errors.{ok}
use tik_tok_tech_jam.Policies.Budget.{Limits, reject_run_if_budget_exceeded}
use tik_tok_tech_jam.Policies.Cost.{estimate_run_cost_usd}
use tik_tok_tech_jam.Policies.Cost.Bounds.{AtMost, estimate-AtMost}
use tik_tok_tech_jam.Egress.Proxy.Addresses.{
  parse_ipv4, parse_ipv6, is_private_ipv4, is_private_words,
}
use tik_tok_tech_jam.Egress.Proxy.Headers.{pos, Node, Caller, EgressVerdict, parse_authority}
use tik_tok_tech_jam.Egress.Proxy.Connections.{ProxyState, drains}
use tik_tok_tech_jam.Egress.Proxy.Requests.{
  ProxyOptions, Meeting, on_connect, on_request, is_control_plane,
}
use tik_tok_tech_jam.Egress.Proxy.Octets.{IfSome, Counted, parse-Counted}
use tik_tok_tech_jam.Egress.Proxy.Ranges.{address, within, private_ranges, is_private-ranges}
use tik_tok_tech_jam.Egress.Proxy.Drained.{Blocked, drained-Blocked}
use tik_tok_tech_jam.Egress.Proxy.Passed.{IfThrough, Passed, through-Passed}

abbrev node : Node
node = record {
  is_ip = λ host. 4;
  whole_number = λ digits. some (pos 8443);
  base64_text = λ s. s;
  decode_uri = λ s. ok s;
  dns_lookup = λ host. ok "93.184.216.34";
  lower = λ s. s;
}

abbrev options : ProxyOptions
options = record { control_plane = none; control_token = none; allow_private_addresses = false }

abbrev verdict : EgressVerdict
verdict = record {
  allowed = true;
  rule_id = "NET-EGRESS-020";
  reason = "granted";
  allow_private = false;
}

abbrev drained : Meeting
drained = record {
  authorize = λ c. ok verdict;
  aborted = false;
  deciding = drains "agent-1" ∷ [];
  resolving = [];
  connecting = [];
}

abbrev quiet : Meeting
quiet = record drained { deciding = [] }

abbrev caller : Caller
caller = record { principal_id = "agent-1"; secret = "s" }

abbrev proxy : ProxyState
proxy = record { live = []; generation = λ p. 0; destroyed = [] }

parse-Counted_example :
    IfSome (Counted 256 4) (parse_ipv4 "10.0.0.1")
    × IfSome (Counted 65536 8) (parse_ipv6 "10.0.0.1")
parse-Counted_example = parse-Counted "10.0.0.1"

is_private-ranges_example :
    (is_private_ipv4 (172 ∷ 20 ∷ 0 ∷ 1 ∷ []) ≡ any (within (address 172 20 0 1)) private_ranges)
    × (is_private_words (0 ∷ 0 ∷ 0 ∷ 0 ∷ 0 ∷ 65535 ∷ 44052 ∷ 1 ∷ [])
        ≡ is_private_ipv4 (172 ∷ 20 ∷ 0 ∷ 1 ∷ []))
is_private-ranges_example =
    is_private-ranges 172 20 0 1 (omega arith) (omega arith) (omega arith) (omega arith)

drained-Blocked_example :
    Blocked (on_connect node options drained (some caller) "c" "u" "example.com:443" proxy)
    × Blocked (
        on_request node options drained
          (some caller)
          "q"
          "r"
          "u"
          "example.com"
          (pos 80)
          "GET"
          proxy)
drained-Blocked_example =
    drained-Blocked node options drained drained caller "c" "u" "example.com:443" "q" "r"
      "example.com" (pos 80) "GET" proxy proxy (inl refl) (inl refl)

through-Passed_example :
    IfThrough
      (λ a.
        Passed node options quiet
          (some caller)
          (parse_authority node (pos 443) "example.com:443").host
          (parse_authority node (pos 443) "example.com:443").port
          "CONNECT"
          a
        × (is_control_plane options.control_plane (parse_authority node (pos 443) "example.com:443")
            ≡ false))
      (on_connect node options quiet (some caller) "c" "u" "example.com:443" proxy)
    × IfThrough
        (Passed node options quiet (some caller) "example.com" (pos 80) "GET")
        (on_request node options quiet (some caller) "q" "r" "u" "example.com" (pos 80) "GET" proxy)
through-Passed_example =
    through-Passed node options quiet (some caller) "c" "u" "example.com:443" "q" "r" "example.com"
      (pos 80) "GET" proxy proxy

abbrev usage : RunUsage
usage = record {
  input_tokens = some 600;
  cached_input_tokens = some 200;
  output_tokens = some 400;
  cost_micro_usd = none;
}

abbrev limits : Limits
limits = record {
  run_budget_max_input_tokens = none;
  run_budget_max_output_tokens = none;
  run_budget_max_total_tokens = some 1000;
  run_budget_max_duration_ms = none;
}

within_budget : reject_run_if_budget_exceeded limits (some usage) 500 ≡ ok tt
unfolding reject_run_if_budget_exceeded
within_budget = refl

estimate-AtMost_example : AtMost (15 * 1000) (estimate_run_cost_usd (some usage) "gpt-4o-mini")
estimate-AtMost_example = estimate-AtMost limits usage 500 1000 "gpt-4o-mini" refl within_budget
