-- ===== src/Service/Execution.antt =====
-- apps/server/src/agent-service.ts: the whole of `executeRun`, from the start to the record of its end.
-- The runner is a function of its request, which may give no answer; its steps, see `Service.Gate`, are part of what the rest of the
-- server does while it runs, and `violation` is what they left.
use tik_tok_tech_jam.Base.{
  List, String, ◌||◌, Option, none, some, [], ◌∷◌, find, if◌then◌else◌, includes, template, opt_eq,
}
use tik_tok_tech_jam.Types.{MemoryEntry, Agent, AgentRun, RunUsage, Database}
use tik_tok_tech_jam.Errors.{Failure, run_cancelled, Result, ok, err, ◌>>◌}
use tik_tok_tech_jam.Policies.Budget.{
  reject_output_if_canary_present, reject_run_if_budget_exceeded,
}
use tik_tok_tech_jam.Policies.Cost.{estimate_run_cost_usd}
use tik_tok_tech_jam.Memory.{RecallResult}
use tik_tok_tech_jam.Memory.Recall.{recall}
use tik_tok_tech_jam.Service.{AppConfig, ServiceState, mutate_in, without_id}
use tik_tok_tech_jam.Service.Recollection.{
  RunnerRequest, RunOutside, record_memory_recalled, capture_memories,
}
use tik_tok_tech_jam.Service.Runs.{
  RunnerResult, start_mutation, complete_mutation, failure_mutation,
}

abbrev thread_of : AgentRun → Agent → Database → Option String
thread_of run a db = elim (find (λ x. opt_eq (some x.id) run.session_id) db.sessions) [
  | none ↦ a.codex_thread_id
  | some x ↦ x.codex_thread_id
]

abbrev pub request_for : AgentRun → Agent → String → Option String → Option String → RunnerRequest
request_for run a prompt thread_id proxy_url = record {
  agent_id = a.id;
  session_id = run.session_id;
  workspace_path = a.workspace_path;
  prompt = prompt;
  thread_id = thread_id;
  egress_proxy_url = proxy_url;
}

-- the usage with its cost
abbrev enriched : AppConfig → Option RunUsage → Option RunUsage
enriched config none = none
enriched config (some usage) =
    some (record usage { cost_micro_usd = estimate_run_cost_usd (some usage) config.model_name })

abbrev violated : Option Failure → Result (Unit {0})
violated none = ok tt
violated (some e) = err e

-- what follows the runner's answer, up to the record of the completion
abbrev accepted :
    AppConfig
    → RunOutside
    → AgentRun
    → Agent
    → RunnerResult
    → Result (Unit {0}) × ServiceState
    → Result (RunnerResult × Option RunUsage) × ServiceState
accepted config out run a result (err e, s) = (err e, s)
accepted config out run a result (ok u, s) = (
  reject_run_if_budget_exceeded out.limits (enriched config result.usage) out.elapsed_ms
      >> ok (result, enriched config result.usage),
  s,
)

unfoldable pub ran :
    AppConfig
    → RunOutside
    → AgentRun
    → Agent
    → Result RunnerResult
    → ServiceState
    → Result (RunnerResult × Option RunUsage) × ServiceState
ran config out run a (err e) s = (err e, s)
ran config out run a (ok result) s =
    elim (violated out.violation
      >> reject_output_if_canary_present config.guardrail_canary_token result.output) [
        | err e ↦ (err e, s)
        | ok u ↦ accepted config out run a result (capture_memories out run a result.output s)
      ]

abbrev waited :
    (ServiceState → ServiceState)
    → Result (Unit {0}) × ServiceState
    → Result (Unit {0}) × ServiceState
waited f (r, s) = (r, f s)

-- what the runner answers, if it does
abbrev pub answered_run :
    AppConfig
    → RunOutside
    → AgentRun
    → Agent
    → ServiceState
    → Option (Result RunnerResult)
    → Option (Result (RunnerResult × Option RunUsage) × ServiceState)
answered_run config out run a s none = none
answered_run config out run a s (some r) = some (ran config out run a r (out.running s))

abbrev pub run_with :
    AppConfig
    → RunOutside
    → AgentRun
    → Agent
    → String
    → Option String
    → Option String
    → Result (Unit {0}) × ServiceState
    → Option (Result (RunnerResult × Option RunUsage) × ServiceState)
run_with config out run a prompt thread_id proxy_url (err e, s) = some (err e, s)
run_with config out run a prompt thread_id proxy_url (ok u, s) =
    answered_run config out run a s (out.runner (request_for run a prompt thread_id proxy_url))

abbrev pub run_recalling :
    AppConfig
    → RunOutside
    → AgentRun
    → Agent
    → RecallResult
    → Option String
    → Option String
    → ServiceState
    → List MemoryEntry
    → Option (Result (RunnerResult × Option RunUsage) × ServiceState)
run_recalling config out run a recalled thread_id proxy_url s [] =
    run_with config out run a run.prompt thread_id proxy_url (ok tt, s)
run_recalling config out run a recalled thread_id proxy_url s (e ∷ es) =
    run_with config out run a (template (recalled.prompt_block ∷ "\n\n" ∷ run.prompt ∷ []))
      thread_id proxy_url (waited out.recording (record_memory_recalled out run a recalled s))

abbrev pub recalled_run :
    AppConfig
    → RunOutside
    → AgentRun
    → Agent
    → RecallResult
    → Option String
    → Option String
    → ServiceState
    → Option (Result (RunnerResult × Option RunUsage) × ServiceState)
recalled_run config out run a recalled thread_id proxy_url s =
    run_recalling config out run a recalled thread_id proxy_url s recalled.entries

-- the last guard before the runner, on the state of that moment
unfoldable pub guarded :
    AppConfig
    → RunOutside
    → AgentRun
    → Agent
    → Option String
    → Option String
    → ServiceState
    → Option (Result (RunnerResult × Option RunUsage) × ServiceState)
guarded config out run a thread_id proxy_url s =
    if includes s.termination_barriers a.id || includes s.cancellation_requests a.id
    then some (err run_cancelled, s)
    else (if out.memory
        then recalled_run config out run a (recall out.byte_length a.id out.now s.db).0 thread_id
            proxy_url s
        else run_with config out run a run.prompt thread_id proxy_url (ok tt, s))

abbrev pub proxy_address : Option (Result String) → Result (Option String)
proxy_address none = ok none
proxy_address (some (err e)) = err e
proxy_address (some (ok url)) = ok (some url)

abbrev pub proxied :
    AppConfig
    → RunOutside
    → AgentRun
    → Agent
    → ServiceState
    → Result (Option String)
    → Option (Result (RunnerResult × Option RunUsage) × ServiceState)
proxied config out run a s (err e) = some (err e, out.preparing s)
proxied config out run a s (ok url) =
    guarded config out run a (thread_of run a s.db) url (out.preparing s)

-- the body of the `try` up to the record of the completion
unfoldable pub attempt :
    AppConfig
    → RunOutside
    → AgentRun
    → Agent
    → ServiceState
    → Option (Result (RunnerResult × Option RunUsage) × ServiceState)
attempt config out run a s =
    if includes s.cancellation_requests a.id
    then some (err run_cancelled, s)
    else proxied config out run a s (proxy_address out.egress)

unfoldable pub fail_run :
    AppConfig
    → RunOutside
    → AgentRun
    → Agent
    → Failure
    → ServiceState
    → Result (Unit {0}) × ServiceState
fail_run config out run a e s =
    mutate_in out.persist_failed (failure_mutation config out.event_id a.id run e out.now)
      (out.failing s)

-- a completion that cannot be recorded is a failure of the run too
abbrev pub or_fail :
    AppConfig
    → RunOutside
    → AgentRun
    → Agent
    → Result (Unit {0}) × ServiceState
    → Result (Unit {0}) × ServiceState
or_fail config out run a (err e, s) = fail_run config out run a e s
or_fail config out run a (ok u, s) = (ok u, s)

unfoldable pub conclude :
    AppConfig
    → RunOutside
    → AgentRun
    → Agent
    → Result (RunnerResult × Option RunUsage) × ServiceState
    → Result (Unit {0}) × ServiceState
conclude config out run a (err e, s) = fail_run config out run a e s
conclude config out run a (ok (result, usage), s) = or_fail config out run a (
    mutate_in out.persist_completed
      (complete_mutation config out.message_id out.event_id a.id run result usage out.now)
      (out.concluding s))

abbrev pub concluded :
    AppConfig
    → RunOutside
    → AgentRun
    → Agent
    → Option (Result (RunnerResult × Option RunUsage) × ServiceState)
    → Option (Result (Unit {0}) × ServiceState)
concluded config out run a none = none
concluded config out run a (some x) = some (conclude config out run a x)

-- `none` for an execution that waits for its runner for ever
abbrev pub begun_run :
    AppConfig
    → RunOutside
    → AgentRun
    → Agent
    → Result (Unit {0}) × ServiceState
    → Option (Result (Unit {0}) × ServiceState)
begun_run config out run a (err e, s) = some (err e, s)
begun_run config out run a (ok u, s) = concluded config out run a (attempt config out run a s)

unfoldable pub execute_run :
    AppConfig
    → RunOutside
    → AgentRun
    → Agent
    → ServiceState
    → Option (Result (Unit {0}) × ServiceState)
execute_run config out run a s =
    begun_run config out run a
      (mutate_in out.persist_start (start_mutation out.event_id run out.now) s)

-- the `finally` of `sendMessage`, once the execution is over
unfoldable pub execution_over : String → ServiceState → ServiceState
execution_over agent_id s = record s { active_executions = without_id agent_id s.active_executions }
