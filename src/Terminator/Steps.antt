-- ===== src/Terminator/Steps.antt =====
-- apps/server/src/terminator.ts: the steps that freeze, revoke and kill.
use tik_tok_tech_jam.Base.{
  ℕ, ◌==◌, String, Bool, true, false, ◌&&◌, Option, none, some, List, [], ◌∷◌, ◌++◌, map, filter,
  length, decimal, includes, template, if◌then◌else◌,
}
use tik_tok_tech_jam.Types.{Instant, Agent, Grant, Database}
use tik_tok_tech_jam.Errors.{
  Failure, http, policy_violation, run_cancelled, authority_denied, thrown, Result, ok, err,
}
use tik_tok_tech_jam.Store.{mutate}
use tik_tok_tech_jam.Identity.Cascade.{cascade_grant_revocation, unrevoked}
use tik_tok_tech_jam.Memory.Quarantine.{close_all}
use tik_tok_tech_jam.Termination.{TerminationStepName, freeze, revoke, kill, TerminationStep}
use tik_tok_tech_jam.Terminator.{
  World, Outside, FreezeResult, was_paused, was_idle, was_blocked, has_failed, unsupported,
  agent_in, freeze_agent, update_agent, quarantine_agent,
}

-- a failure's message
unfoldable pub describe : Failure → String
describe (http code message) = message
describe (policy_violation kind code message) = message
describe run_cancelled = "Run cancelled"
describe (authority_denied decision) = decision.reason
describe (thrown message) = message

abbrev pub step_of : TerminationStepName → Bool → String → String → TerminationStep
step_of name done detail at = record { step = name; ok = done; detail = detail; at = at }

abbrev pub freeze_ok : FreezeResult → Bool
freeze_ok has_failed = false
freeze_ok unsupported = false
freeze_ok _ = true

abbrev freeze_detail : FreezeResult → String
freeze_detail was_paused = "Execution suspended at the OS level before authority changed."
freeze_detail was_blocked = "Queued execution blocked before its runtime could start."
freeze_detail was_idle = "No live or queued execution existed."
freeze_detail has_failed = "A live execution could not be suspended."
freeze_detail unsupported = "A live execution exists under a runtime with no freeze control."

abbrev pub freeze_reply : String → Result FreezeResult → TerminationStep
freeze_reply at (ok r) = step_of freeze (freeze_ok r) (freeze_detail r) at
freeze_reply at (err e) = step_of freeze false (describe e) at

unfoldable pub freeze_step : Outside → String → Instant → World → TerminationStep × World
unfolding describe
freeze_step out agent_id now w =
    let (r, after) = freeze_agent out agent_id w in (freeze_reply (out.iso now) r, after)

-- `Set.prototype.add`, in the order of insertion
abbrev pub insert_last : List String → List String → List String
insert_last stamped [] = stamped
insert_last stamped (x ∷ xs) =
    insert_last (if includes stamped x then stamped else stamped ++ x ∷ []) xs

-- the cascade from each root in turn, and the set of the ids it stamped
unfoldable pub revoke_roots :
    Instant → List String → List Grant → List String → List Grant × List String
revoke_roots now [] grants stamped = (grants, stamped)
revoke_roots now (root ∷ roots) grants stamped =
    let (next, ids) = cascade_grant_revocation grants root now in
    revoke_roots now roots next (insert_last stamped ids)

abbrev pub held_unrevoked : String → Grant → Bool
held_unrevoked principal_id g = g.principal_id == principal_id && unrevoked g

abbrev block : Agent → Agent
block a = record a { authority_blocked = true }

unfoldable pub revoke_found :
    Option Agent
    → String
    → String
    → Instant
    → Database
    → Result ((List String × List String) × Database)
unfolding update_agent
revoke_found none agent_id principal_id now db = err (thrown "Agent disappeared during termination")
revoke_found (some agent) agent_id principal_id now db =
    let roots = map (λ g. g.id) (filter (held_unrevoked principal_id) db.grants) in
    let (grants, stamped) = revoke_roots now roots db.grants [] in
    let (quarantined, memories) = close_all agent_id "termination" now db.memories in
    ok (
      (stamped, quarantined),
      record db {
        agents = update_agent agent_id block db.agents;
        grants = grants;
        memories = memories;
      },
    )

-- the mutation of `revokeAndBlock`: the ids of the grants revoked and of the memories quarantined
unfoldable pub revoke_all :
    String → String → Instant → Database → Result ((List String × List String) × Database)
revoke_all agent_id principal_id now db =
    revoke_found (agent_in agent_id db) agent_id principal_id now db

abbrev pub drained : Option (Result (Option ℕ)) → Result (Unit {0})
drained none = ok tt
drained (some (err e)) = err e
drained (some (ok none)) =
    err (thrown "Could not confirm that authorized proxy connections were drained.")
drained (some (ok (some n))) = ok tt

abbrev revoke_detail : List String → List String → String
revoke_detail revoked quarantined = template (
    decimal (length revoked)
    ∷ " grant(s) revoked, "
    ∷ decimal (length quarantined)
    ∷ " memory/memories quarantined; new grants blocked until operator restart."
    ∷ [])

-- a step with the ids that it revoked and quarantined
pub record Revocation : Type 0 where
  pub step : TerminationStep
  pub revoked : List String
  pub quarantined : List String

abbrev pub revocation : String → Result (List String × List String) → Result (Unit {0}) → Revocation
revocation at (err e) d = record {
  step = step_of revoke false (describe e) at;
  revoked = [];
  quarantined = [];
}
revocation at (ok (revoked, quarantined)) (err e) = record {
  step = step_of revoke false (describe e) at;
  revoked = revoked;
  quarantined = quarantined;
}
revocation at (ok (revoked, quarantined)) (ok u) = record {
  step = step_of revoke true (revoke_detail revoked quarantined) at;
  revoked = revoked;
  quarantined = quarantined;
}

unfoldable pub revoke_and_block : Outside → String → String → Instant → World → Revocation × World
unfolding describe
revoke_and_block out agent_id principal_id now w =
    let (r, db) = mutate out.persist_revoke (revoke_all agent_id principal_id now) w.db in
    (revocation (out.iso now) r (drained out.drain), record w { db = db })

abbrev pub kill_reply : String → Result (Unit {0}) → TerminationStep
kill_reply at (ok u) = step_of kill true "Run cancelled, runtime torn down, and agent stopped." at
kill_reply at (err e) = step_of kill false (describe e) at

unfoldable pub kill_step : Outside → String → String → Instant → World → TerminationStep × World
unfolding describe
kill_step out agent_id reason now w =
    let (r, after) = quarantine_agent out agent_id reason now w in
    (kill_reply (out.iso now) r, after)
