-- ===== src/Examples/Services.antt =====
-- Runs of the theorems on the agent service.
use tik_tok_tech_jam.Base.{
  ◌⊎◌, false, none, some, List, [], ◌∷◌, String, ◌≡◌, ◌≢◌, inl, inr, refl, sym, ap, ◌∙◌, true,
  false, none, some, List, [], ◌∷◌, join, All, contains, ◌==◌,
}
use tik_tok_tech_jam.Types.{
  Agent, AgentRun, RunUsage, running, Message, ApprovalRequest, ApprovalStatus, pending, approved,
  high, tool_call,
}
use tik_tok_tech_jam.Errors.{Failure, err, Failure, Result, ok}
use tik_tok_tech_jam.Errors.Guards.{IsErr}
use tik_tok_tech_jam.Store.{Persist}
use tik_tok_tech_jam.Policies.Budget.{Limits}
use tik_tok_tech_jam.Policies.Risk.{RunnerStepEvent, StepType, before, evaluate_action_risk}
use tik_tok_tech_jam.Terminator.{World, Outside, paused, begin_termination}
use tik_tok_tech_jam.Service.{
  AppConfig, ServiceState, actor, is_model_configured, system_timeout_actor, without,
}
use tik_tok_tech_jam.Service.Cancel.{Cancellation, cancel_execution}
use tik_tok_tech_jam.Service.Lifecycle.{delete_agent, quarantine_agent}
use tik_tok_tech_jam.Service.Approvals.{deny_held}
use tik_tok_tech_jam.Service.Messages.{Draw, send_message, new_run, new_message}
use tik_tok_tech_jam.Service.Steps.{trips_canary, StepOutside}
use tik_tok_tech_jam.Service.Gate.{on_step}
use tik_tok_tech_jam.Service.Resume.{decided_step}
use tik_tok_tech_jam.Service.Recollection.{RunOutside}
use tik_tok_tech_jam.Service.Execution.{execute_run}
use tik_tok_tech_jam.Service.Startup.{Boot, booted, initialize}
use tik_tok_tech_jam.Service.History.{
  world_of, Step, perform, enter, clear, deny, resolve, request_cancel, history,
}
use tik_tok_tech_jam.Service.Barrier.{Endless, during, send_message-refused}
use tik_tok_tech_jam.Service.Admits.{Admitted, send_message-Admitted}
use tik_tok_tech_jam.Service.Final.{Unadded, history-Decided}
use tik_tok_tech_jam.Service.Decisions.{Decided}
use tik_tok_tech_jam.Service.Ended.{Over, execute_run-Over}
use tik_tok_tech_jam.Service.AtRest.{Rested, initialize-AtRest}
use tik_tok_tech_jam.Service.Withheld.{Withheld, Resumed, step-Withheld}
use tik_tok_tech_jam.Service.Answered.{Settled, deny_held-Settled}
use tik_tok_tech_jam.Service.Deleted.{Gone, delete_agent-Gone}
use tik_tok_tech_jam.Service.Secrets.{without-Free}
use tik_tok_tech_jam.Examples.{written, agent_named, sample}

abbrev config : AppConfig
config = record {
  guardrail_canary_token = "canary";
  model_provider = "ark";
  model_api_key = "key";
  model_runtime_api_key = "";
  model_name = "model";
  evidence_json = λ e. "evidence";
}

abbrev service : ServiceState
service = record {
  db = sample;
  active_executions = [];
  cancellation_requests = [];
  termination_barriers = [];
  terminations_in_progress = [];
  lifecycle_mutations = [];
  pending_approvals = [];
  answers = [];
}

abbrev draw : Draw
draw = record { run_id = "r9"; message_id = "n9"; event_id = "e9"; now = 900 }

abbrev some_steps : List (Persist × Step)
some_steps = (written, enter "a2") ∷ []

abbrev more_steps : List (Persist × Step)
more_steps = (written, request_cancel "a1") ∷ (written, clear "x") ∷ []

abbrev begun_world : World
begun_world = record (world_of (history config some_steps service)) {
  termination_barriers = "a1" ∷ [];
  terminations_in_progress = "a1" ∷ [];
}

world_begun : begin_termination "a1" (world_of (history config some_steps service)) ≡ ok begun_world
unfolding begin_termination history perform
world_begun = refl

more-Endless : Endless "a1" more_steps
more-Endless = (λ e. cc e, (λ e. cc e, tt))

send_message-refused_example :
    IsErr
      (send_message config written
        (during config some_steps more_steps "a1")
        draw
        "a1"
        "hello"
        none
        service).0
send_message-refused_example =
    send_message-refused config written draw "a1" "hello" none some_steps more_steps service
      begun_world world_begun more-Endless

abbrev first_agent : Agent
first_agent = agent_named "a1" "agent-1"

abbrev sent_run : AgentRun
sent_run = new_run config draw "a1" "hello" none first_agent sample

abbrev sent_message : Message
sent_message = new_message config draw "a1" "hello" first_agent

abbrev sent_state : ServiceState
sent_state = (send_message config written (λ s. s) draw "a1" "hello" none service).1

message_sent :
    send_message config written (λ s. s) draw "a1" "hello" none service
    ≡ (ok (sent_run, sent_message), sent_state)
unfolding send_message tik_tok_tech_jam.Service.Messages.launched tik_tok_tech_jam.Service.mutate_in
    tik_tok_tech_jam.Store.mutate tik_tok_tech_jam.Service.Messages.admit_mutation
    tik_tok_tech_jam.Service.Messages.admissible tik_tok_tech_jam.Service.prompt_violation
message_sent = refl

send_message-Admitted_example :
    (is_model_configured config ≡ true)
    × Admitted config draw "a1" "hello" none service sent_state sent_run sent_message
send_message-Admitted_example =
    send_message-Admitted config written draw "a1" "hello" none (λ s. s) service sent_state sent_run
      sent_message message_sent

abbrev approval_of : String → ApprovalStatus → ApprovalRequest
approval_of id status = record {
  id = id;
  run_id = "r9";
  agent_id = "a1";
  action_type = tool_call;
  action_detail = "GET api.test:443";
  rule_id = "HITL-EGRESS-025";
  reason = "held";
  risk_level = high;
  status = status;
  created_at = 900;
  resolved_at = none;
  resolved_by_principal_id = none;
  resolved_by_display_name = none;
  evidence = record {
    initiating_human = actor "user-a" "User A";
    executing_agent = actor "agent-1" "a1";
    action_type = tool_call;
    action_detail = "GET api.test:443";
    resource = "api.test:443";
    decision = none;
    result = pending;
    resolved_by = none;
  };
}

-- one approval that an operator granted, and one that waits
abbrev waiting_service : ServiceState
waiting_service = record service {
  db = record sample {
    approvals = approval_of "p1" approved ∷ approval_of "p2" pending ∷ [];
    runs = record sent_run { status = running } ∷ [];
  };
  active_executions = "a1" ∷ [];
  pending_approvals = approval_of "p2" pending ∷ [];
}

abbrev cancelling_steps : List (Persist × Step)
cancelling_steps =
    (written, request_cancel "a1")
    ∷ (written, deny (λ id. "e1") "a1" (actor "user-a" "User A") 950)
    ∷ (
      written,
      resolve (some (approval_of "p1" pending)) "e2" "p1" false (actor "user-b" "User B") 960,
    )
    ∷ []

approved-not-pending : approved ≢ ApprovalStatus.pending
approved-not-pending e = cc e

true-not-false : true ≢ false
true-not-false e = cc e

approved_first : Decided approved "p1" waiting_service.db.approvals
approved_first a (inl e) i = ap (λ x. x.status) e
approved_first a (inr (inl e)) i =
    absurd (true-not-false (ap (λ s. s == "p2") (sym (ap (λ x. x.id) e) ∙ i)))
approved_first a (inr (inr m)) i = absurd m

none-Unadded : Unadded approved "p1" approved-not-pending cancelling_steps
none-Unadded = (λ e. cc e, (λ e. cc e, (λ e. cc e, tt)))

history-Decided_example :
    Decided approved "p1" (history config cancelling_steps waiting_service).db.approvals
history-Decided_example =
    history-Decided approved "p1" approved-not-pending config cancelling_steps waiting_service
      none-Unadded approved_first

abbrev cancellation : Cancellation
cancellation = record {
  persist = written;
  runner_cancel = ok true;
  execution = ok tt;
  cancelling = λ s. s;
  executing = λ s. record s { active_executions = [] };
  event_id = λ id. "e3";
}

abbrev outside : Outside
outside = record {
  pause = some (ok paused);
  drain = none;
  cancel = ok tt;
  confirm_stopped = ok none;
  probe = none;
  persist_revoke = written;
  persist_kill = written;
  persist_receipt = written;
  iso = λ now. "";
}

abbrev limits : Limits
limits = record {
  run_budget_max_input_tokens = none;
  run_budget_max_output_tokens = none;
  run_budget_max_total_tokens = some 1000;
  run_budget_max_duration_ms = none;
}

abbrev usage : RunUsage
usage = record {
  input_tokens = some 100;
  cached_input_tokens = some 40;
  output_tokens = some 20;
  cost_micro_usd = none;
}

abbrev run_outside : RunOutside
run_outside = record {
  persist_start = written;
  persist_recalled = written;
  persist_memory = written;
  persist_completed = λ db. some (Failure.thrown "disk full");
  persist_failed = written;
  preparing = λ s. s;
  running = λ s. s;
  egress = none;
  memory = true;
  found_memory = λ line. none;
  byte_length = λ s. 1;
  cut = λ n s. s;
  recalled_json = λ r. "{}";
  runner = λ r. some (ok (record { output = "done"; thread_id = some "t1"; usage = some usage }));
  recording = λ s. s;
  capturing = λ s. s;
  concluding = λ s. s;
  failing = λ s. s;
  violation = none;
  limits = limits;
  elapsed_ms = 5;
  event_id = "e4";
  message_id = "n4";
  memory_id = λ s. "m4";
  now = 980;
}

execute_run-Over_example :
    (x : Result (Unit {0}) × ServiceState) × (execute_run config run_outside sent_run first_agent
        waiting_service
      ≡ some x)
    × (x.0 ≡ ok tt)
    × Over "r9" "a1" x.1.db
execute_run-Over_example =
    execute_run-Over config run_outside sent_run first_agent (λ db. refl) (λ q. (_, refl))
      waiting_service (λ db. refl)

abbrev boot : Boot
boot = record { reconcile = some (ok tt); load = ok waiting_service.db; workspaces = ok tt }

initialize-AtRest_example :
    ((e : Failure) × (booted boot ≡ err e)
      × ((initialize config boot written (λ id. "e5") 990 service).0 ≡ err e))
    ⊎ ((booted boot ≡ ok tt)
        × Rested config boot written
            (λ id. "e5")
            990
            service
            (initialize config boot written (λ id. "e5") 990 service))
initialize-AtRest_example =
    initialize-AtRest config boot written (λ id. "e5") 990 service (λ db. refl)

abbrev step_outside : StepOutside
step_outside = record {
  risks = record {
    recursive_removal = λ s. true;
    disk_or_mode = λ s. false;
    credentials = λ s. false;
    network_tool = λ s. false;
    url = λ s. false;
    publishing = λ s. false;
    privilege = λ s. false;
  };
  resources = record {
    url = λ s. none;
    trim_url = λ s. s;
    absolute_path = λ s. none;
    credential_file = λ s. none;
    destination = λ s. none;
    published_package = λ s. none;
  };
  pause = some (ok paused);
  resume = some (ok true);
  persist = written;
  persist_last = written;
  pausing = λ s. s;
  resuming = λ s. s;
  approval_id = "p3";
  event_id = "e6";
  last_event_id = "e7";
  now = 995;
}

abbrev removal : RunnerStepEvent
removal = record {
  step_type = StepType.command;
  title = "shell";
  detail = "rm -r work";
  phase = some before;
  raw_payload = "\"\"";
}

removal_risk : (evaluate_action_risk step_outside.risks removal).requires_approval ≡ true
unfolding evaluate_action_risk
removal_risk = refl

removal_clean : trips_canary config removal ≡ false
removal_clean = refl

step-Withheld_example :
    Withheld step_outside (on_step config step_outside sent_run first_agent removal service)
    × Resumed step_outside true
        (decided_step config step_outside sent_run first_agent removal "SEC-DESTRUCTIVE-001" true
          service).0
step-Withheld_example =
    step-Withheld config step_outside sent_run first_agent removal "SEC-DESTRUCTIVE-001" true
      service service removal_risk refl removal_clean

deny_held-Settled_example :
    Settled "p2"
      (deny_held config written (λ s. s) "e8" "p2" system_timeout_actor 999 waiting_service)
deny_held-Settled_example =
    deny_held-Settled config written (λ s. s) "e8" "p2" system_timeout_actor 999 waiting_service
      (approval_of "p2" pending) refl

agent_deleted :
    (delete_agent config written cancellation
      (ok "/archive/a1")
      (λ s. s)
      "a1"
      970
      waiting_service).0
    ≡ ok "/archive/a1"
unfolding delete_agent cancel_execution tik_tok_tech_jam.Service.Cancel.deny_pending_approvals
    tik_tok_tech_jam.Service.mutate_in tik_tok_tech_jam.Store.mutate
    tik_tok_tech_jam.Service.Cancel.deny_mutation tik_tok_tech_jam.Service.Cancel.release_pending
    tik_tok_tech_jam.Service.Lifecycle.delete_mutation
agent_deleted = refl

delete_agent-Gone_example :
    (◌≡◌ {A = Result String} (ok "/archive/a1") (ok "/archive/a1"))
    × Gone "a1"
        (delete_agent config written cancellation
          (ok "/archive/a1")
          (λ s. s)
          "a1"
          970
          waiting_service).1.db
delete_agent-Gone_example =
    delete_agent-Gone config written cancellation (ok "/archive/a1") (λ s. s) "a1" 970
      waiting_service "/archive/a1" agent_deleted

without-Free_example :
    (ps : List String) × (join "key" ps ≡ "a key, a key")
    × (without "a key, a key" "key" ≡ join "[redacted]" ps)
    × All (λ p. contains p "key" ≡ false) ps
without-Free_example = without-Free "a key, a key" "key" (λ e. cc e)
