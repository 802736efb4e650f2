-- ===== src/Terminator/Clear.antt =====
-- What the evidence of `verifyContainment` says when it is clear.
use tik_tok_tech_jam.Base.{
  ◌||◌, ◌≡◌, ◌≢◌, refl, sym, subst, ◌∙◌, inl, inr, String, Bool, true, false, Option, none, some,
  List, [], ◌∷◌, filter, arith, eq_iff, eq_refl, Bool-cases, In, filter_complete,
}
use tik_tok_tech_jam.Types.{Instant, AgentStatus, stopped, Agent, Grant, MemoryEntry}
use tik_tok_tech_jam.Errors.{Result, ok, err}
use tik_tok_tech_jam.Identity.Cascade.{unrevoked}
use tik_tok_tech_jam.Memory.Quarantine.{is_open_for}
use tik_tok_tech_jam.Terminator.{World, Probe, agent_in}
use tik_tok_tech_jam.Terminator.Verify.{
  Evidence, gather, verify_reply, verify_outcome, empty, is_live_grant, unexpired, is_stopped,
  has_stopped, has_block,
}

-- Nothing of the agent runs or may act: it is stopped and blocked, its principal holds no grant that is
-- neither revoked nor expired, and none of its memories is open.
pub record IsContained (agent_id principal_id : String) (now : Instant) (w : World) : Type 0 where
  pub idle : (w.executing agent_id || w.running agent_id) ≡ false
  pub agent :
      (a : Agent) × (agent_in agent_id w.db ≡ some a)
      × (a.status ≡ stopped)
      × (a.authority_blocked ≡ true)
  pub no_grant :
      (g : Grant)
      → In g w.db.grants
      → g.principal_id ≡ principal_id
      → g.revoked_at ≡ none
      → unexpired now g.expires_at ≡ false
  pub no_memory :
      (e : MemoryEntry) → In e w.db.memories → e.agent_id ≡ agent_id → e.quarantined_at ≢ none

pub record IsClear (e : Evidence) : Type 0 where
  still : e.in_memory_stopped ≡ true
  blocked : e.authority_blocked ≡ true
  grants : e.live_grants ≡ []
  memories : e.live_memories ≡ []

empty-nil : {A : Type 0} (xs : List A) → empty xs ≡ true → xs ≡ []
empty-nil [] h = refl
empty-nil (x ∷ xs) h = cc

verify_reply-IsClear :
    (at : String) (e : Evidence) (c : Option Bool) (p : Option Probe)
    → (verify_reply at e c p).ok ≡ true
    → IsClear e
unfolding verify_reply
verify_reply-IsClear at e c p h = record {
  still = ground arith;
  blocked = ground arith;
  grants = empty-nil e.live_grants (ground arith);
  memories = empty-nil e.live_memories (ground arith);
}

pub verify_outcome-IsClear :
    (at : String) (e : Evidence) (c : Result (Option Bool)) (p : Result (Option Probe))
    → (verify_outcome at e c p).ok ≡ true
    → IsClear e
verify_outcome-IsClear at e (err f) p h = cc
verify_outcome-IsClear at e (ok c) (err f) h = cc
verify_outcome-IsClear at e (ok c) (ok p) h = verify_reply-IsClear at e c p h

stopped-of : (s : AgentStatus) → is_stopped s ≡ true → s ≡ stopped
stopped-of s h = ground arith

agent-stopped :
    (o : Option Agent)
    → has_stopped o ≡ true
    → has_block o ≡ true
    → (a : Agent) × (o ≡ some a) × (a.status ≡ stopped) × (a.authority_blocked ≡ true)
agent-stopped none h b = cc
agent-stopped (some a) h b = (a, refl, stopped-of a.status h, b)

nothing_live :
    {A : Type 0} (p : A → Bool) (xs : List A) → filter p xs ≡ [] → (a : A) → In a xs → p a ≡ false
nothing_live p xs e a m = elim (Bool-cases (p a)) [
  | inr f ↦ f
  | inl t ↦
      let k : In a (filter p xs) = filter_complete p xs a m t in absurd (subst (λ ys. In a ys) e k)
]

pub clear-IsContained :
    (agent_id principal_id : String) (now : Instant) (w : World)
    → IsClear (gather agent_id principal_id now w)
    → IsContained agent_id principal_id now w
unfolding gather
clear-IsContained agent_id principal_id now w c = record {
  idle = ground (arith, c.still);
  agent = agent-stopped (agent_in agent_id w.db) (ground (arith, c.still)) c.blocked;
  no_grant = λ g m h r.
      let f = nothing_live (is_live_grant principal_id now) w.db.grants c.grants g m in
      let k : unrevoked g ≡ true = rw r refl in
      ground (arith, f, k, (eq_iff g.principal_id principal_id).1 h);
  no_memory = λ e m h q.
      let f = nothing_live (is_open_for agent_id) w.db.memories c.memories e m in
      let k : is_open_for agent_id e ≡ true = rw (q, h) (ground (arith, eq_refl agent_id)) in
      cc (sym k ∙ f);
}
