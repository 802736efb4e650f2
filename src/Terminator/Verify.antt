-- ===== src/Terminator/Verify.antt =====
-- apps/server/src/terminator.ts: `verifyContainment`.
use tik_tok_tech_jam.Base.{
  ◌||◌, ◌==◌, String, Bool, true, false, not, ◌&&◌, Option, none, some, List, [], ◌∷◌, filter,
  length, ltb, decimal, template, if◌then◌else◌,
}
use tik_tok_tech_jam.Types.{Instant, AgentStatus, stopped, Agent, Grant, MemoryEntry}
use tik_tok_tech_jam.Errors.{Result, ok, err}
use tik_tok_tech_jam.Identity.Cascade.{unrevoked}
use tik_tok_tech_jam.Memory.Quarantine.{is_open_for}
use tik_tok_tech_jam.Termination.{verify, TerminationStep}
use tik_tok_tech_jam.Terminator.{World, Outside, Probe, agent_in}
use tik_tok_tech_jam.Terminator.Steps.{describe, step_of}

-- What `verifyContainment` reads from the world.
pub record Evidence : Type 0 where
  pub in_memory_stopped : Bool
  pub authority_blocked : Bool
  pub live_grants : List Grant
  pub live_memories : List MemoryEntry

abbrev pub is_stopped : AgentStatus → Bool
is_stopped stopped = true
is_stopped _ = false

abbrev pub has_stopped : Option Agent → Bool
has_stopped none = false
has_stopped (some a) = is_stopped a.status

abbrev pub has_block : Option Agent → Bool
has_block none = false
has_block (some a) = a.authority_blocked

abbrev pub unexpired : Instant → Option Instant → Bool
unexpired now none = true
unexpired now (some at) = ltb now at

abbrev pub is_live_grant : String → Instant → Grant → Bool
is_live_grant principal_id now g =
    g.principal_id == principal_id && unrevoked g && unexpired now g.expires_at

unfoldable pub gather : String → String → Instant → World → Evidence
gather agent_id principal_id now w = record {
  in_memory_stopped =
      not (w.executing agent_id || w.running agent_id) && has_stopped (agent_in agent_id w.db);
  authority_blocked = has_block (agent_in agent_id w.db);
  live_grants = filter (is_live_grant principal_id now) w.db.grants;
  live_memories = filter (is_open_for agent_id) w.db.memories;
}

abbrev pub not_running : Option Bool → Bool
not_running (some false) = false
not_running _ = true

abbrev runtime_detail : Option Bool → String
runtime_detail none = "runtime stop not independently confirmed by the engine"
runtime_detail (some true) = "runtime confirmed stopped by the engine"
runtime_detail (some false) = "runtime confirmed STILL RUNNING by the engine"

abbrev pub empty {ℓ} : {A : Type ℓ} → List A → Bool
empty [] = true
empty (x ∷ xs) = false

abbrev flag : Bool → String
flag true = "true"
flag false = "false"

abbrev pub network : Bool → Option Probe → Bool × String
network runtime_stopped none = (runtime_stopped, "No runtime remains from which to open a route.")
network runtime_stopped (some p) = (
  p.blocked && p.conclusive,
  if p.conclusive then p.detail else template ("containment unconfirmed: " ∷ p.detail ∷ []),
)

unfoldable pub verify_reply : String → Evidence → Option Bool → Option Probe → TerminationStep
verify_reply at e confirmed probe =
    let stopped_ = not_running confirmed && e.in_memory_stopped in
    let (blocked, network_detail) = network stopped_ probe in
    step_of verify
      (stopped_ && e.authority_blocked && empty e.live_grants && empty e.live_memories && blocked)
      (template (
        "runtimeStopped="
        ∷ flag stopped_
        ∷ "; "
        ∷ runtime_detail confirmed
        ∷ "; authorityBlocked="
        ∷ flag e.authority_blocked
        ∷ "; liveGrants="
        ∷ decimal (length e.live_grants)
        ∷ "; liveMemories="
        ∷ decimal (length e.live_memories)
        ∷ "; networkBlocked="
        ∷ flag blocked
        ∷ "; "
        ∷ network_detail
        ∷ []))
      at

abbrev pub probed : Option (Result Probe) → Result (Option Probe)
probed none = ok none
probed (some (err e)) = err e
probed (some (ok p)) = ok (some p)

abbrev pub verify_outcome :
    String → Evidence → Result (Option Bool) → Result (Option Probe) → TerminationStep
verify_outcome at e (err f) p = step_of verify false (describe f) at
verify_outcome at e (ok c) (err f) = step_of verify false (describe f) at
verify_outcome at e (ok c) (ok p) = verify_reply at e c p

unfoldable pub verify_containment : Outside → String → String → Instant → World → TerminationStep
unfolding describe verify_reply
verify_containment out agent_id principal_id now w =
    verify_outcome (out.iso now) (gather agent_id principal_id now w) out.confirm_stopped
      (probed out.probe)
