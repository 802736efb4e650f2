-- ===== src/Service/Startup.antt =====
-- apps/server/src/agent-service.ts: `initialize`: what a restart does to unfinished work.
use tik_tok_tech_jam.Base.{
  String, Option, none, some, List, [], ◌∷◌, ◌++◌, map, if◌then◌else◌, includes,
}
use tik_tok_tech_jam.Types.{
  Instant, Agent, ready, AgentRun, cancelled, ApprovalRequest, pending, approved, denied,
  execution_cancelled, Database, RunEvent,
}
use tik_tok_tech_jam.Errors.{Result, ok, err, ◌>>◌, ◌>>=◌}
use tik_tok_tech_jam.Store.{Persist}
use tik_tok_tech_jam.Service.{
  AppConfig, ServiceState, has_active_lifecycle, system_restart_actor, mutate_in,
}
use tik_tok_tech_jam.Service.Cancel.{resolved, denial_event}
use tik_tok_tech_jam.Service.Approvals.{is_active_run}

abbrev pub run_restarted : Instant → AgentRun → AgentRun
run_restarted now r =
    if is_active_run r.status
    then record r {
      status = cancelled;
      error = some "Server restarted while this run was active";
      completed_at = some now;
    }
    else r

abbrev pub agent_restarted : Instant → Agent → Agent
agent_restarted now a =
    if has_active_lifecycle a.status then record a { status = ready; updated_at = now } else a

-- `cancelledRunIds`
abbrev pub cancelled_run_ids : List AgentRun → List String
cancelled_run_ids [] = []
cancelled_run_ids (r ∷ rs) =
    let ids = cancelled_run_ids rs in if is_active_run r.status then r.id ∷ ids else ids

abbrev pub overtaken : ApprovalRequest → ApprovalRequest
overtaken a = record a { evidence = record a.evidence { result = execution_cancelled } }

abbrev pub restart_denied : Instant → ApprovalRequest → ApprovalRequest
restart_denied now a = resolved denied execution_cancelled system_restart_actor now a

-- one turn of the loop over the approvals: the approval, and the event of a denial
abbrev pub approval_restarted :
    AppConfig
    → (String → String)
    → List String
    → Instant
    → ApprovalRequest
    → ApprovalRequest × List RunEvent
approval_restarted config event_id run_ids now a = elim a.status [
  | pending ↦ (
    restart_denied now a,
    denial_event config event_id "System denied action after server restart" now
          (restart_denied now a)
        ∷ [],
  )
  | approved ↦ (if includes run_ids a.run_id then overtaken a else a, [])
  | denied ↦ (a, [])
]

abbrev pub approvals_restarted :
    AppConfig
    → (String → String)
    → List String
    → Instant
    → List ApprovalRequest
    → List ApprovalRequest × List RunEvent
approvals_restarted config event_id run_ids now [] = ([], [])
approvals_restarted config event_id run_ids now (a ∷ as_) =
    let (b, es) = approval_restarted config event_id run_ids now a in
    let (bs, fs) = approvals_restarted config event_id run_ids now as_ in (b ∷ bs, es ++ fs)

abbrev pub restarted : AppConfig → (String → String) → Instant → Database → Database
restarted config event_id now db =
    let (approvals, events) =
      approvals_restarted config event_id (cancelled_run_ids db.runs) now db.approvals in
    record db {
      runs = map (run_restarted now) db.runs;
      agents = map (agent_restarted now) db.agents;
      approvals = approvals;
      run_events = db.run_events ++ events;
    }

unfoldable pub restart_mutation :
    AppConfig → (String → String) → Instant → ServiceState → Database → Result (Unit {0} × Database)
restart_mutation config event_id now s db = ok (tt, restarted config event_id now db)

-- What comes first, in the code's order: the runner's `reconcile`, if it has one, the database that the store
-- loads, and the directories of the workspaces.
pub record Boot : Type 0 where
  pub reconcile : Option (Result (Unit {0}))
  pub load : Result Database
  pub workspaces : Result (Unit {0})

abbrev pub reconciled : Option (Result (Unit {0})) → Result (Unit {0})
reconciled none = ok tt
reconciled (some r) = r

-- the database that is loaded, even if what comes after it fails
abbrev pub loaded : Boot → Database → Database
loaded boot db = elim (reconciled boot.reconcile) [
  | err e ↦ db
  | ok u ↦ elim boot.load [ err e ↦ db | ok next ↦ next ]
]

abbrev pub booted : Boot → Result (Unit {0})
booted boot = reconciled boot.reconcile >> (boot.load >>= λ db. boot.workspaces)

abbrev pub restart_after :
    AppConfig
    → Persist
    → (String → String)
    → Instant
    → ServiceState
    → Result (Unit {0})
    → Result (Unit {0}) × ServiceState
restart_after config persist event_id now s (err e) = (err e, s)
restart_after config persist event_id now s (ok u) =
    mutate_in persist (restart_mutation config event_id now) s

unfoldable pub initialize :
    AppConfig
    → Boot
    → Persist
    → (String → String)
    → Instant
    → ServiceState
    → Result (Unit {0}) × ServiceState
initialize config boot persist event_id now s =
    restart_after config persist event_id now (record s { db = loaded boot s.db }) (booted boot)
