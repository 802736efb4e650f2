-- ===== src/Egress/Authorizer/Answers.antt =====
-- What one call of the authorizer does to its counters.
use tik_tok_tech_jam.Base.{
  ℕ, suc, ◌+◌, ◌≤◌, String, ◌==◌, ◌≡◌, refl, subst, inl, inr, Bool, true, false, none, some, List,
  [], ◌∷◌, ◌++◌, arith, eq_iff, eq_refl, Bool-cases, Option, leb, if◌then◌else◌,
}
use tik_tok_tech_jam.Types.{Instant, Database, PolicyDecision}
use tik_tok_tech_jam.Errors.{ok}
use tik_tok_tech_jam.Identity.Grants.{agent_of}
use tik_tok_tech_jam.Egress.Authorizer.{
  EgressRequest, EgressAuthorizerOptions, AuthorizerState, Answer, Pending, Effect, decided,
  blocked, quarantine_agent, answered, waiting, finish_for, finish, id_of, run_of, put_count,
  max_concurrent_held_requests,
}
use tik_tok_tech_jam.Egress.Authorizer.Authorize.{
  flood, impersonation, initial_decision, hold, decide, begin, may_ask,
}
use tik_tok_tech_jam.Egress.Authorizer.Verdicts.{past_gate}

-- the refusals recorded against an agent
unfoldable pub refusals_of : String → List Effect → ℕ
refusals_of agent_id [] = 0
refusals_of agent_id (blocked run a r d n ∷ es) =
    if a == agent_id then suc (refusals_of agent_id es) else refusals_of agent_id es
refusals_of agent_id (e ∷ es) = refusals_of agent_id es

refusals_of-append :
    (a : String) (es fs : List Effect)
    → refusals_of a (es ++ fs) ≡ refusals_of a es + refusals_of a fs
unfolding refusals_of
refusals_of-append a [] fs = omega arith
refusals_of-append a (blocked run b r d n ∷ es) fs = ground (arith, refusals_of-append a es fs)
refusals_of-append a (decided run b d ∷ es) fs = refusals_of-append a es fs
refusals_of-append a (quarantine_agent b t ∷ es) fs = refusals_of-append a es fs

refusals_of-if :
    (a : String) (c : Bool) (es fs : List Effect)
    → refusals_of a (if c then es else fs) ≡ (if c then refusals_of a es else refusals_of a fs)
refusals_of-if a true es fs = refl
refusals_of-if a false es fs = refl

module _ (options : EgressAuthorizerOptions) where
  finish_for-held :
      (i run : String) (r : EgressRequest) (d : PolicyDecision) (s : AuthorizerState) (a : String)
      → (finish_for options i run r d s).state.held_by_agent a ≡ s.held_by_agent a
  unfolding finish_for
  finish_for-held i run r d s a = ground arith

  finish_for-refusals :
      (i run : String) (r : EgressRequest) (d : PolicyDecision) (s : AuthorizerState) (a : String)
      → refusals_of a (finish_for options i run r d s).effects
        ≡ (if d.allowed then 0 else if i == a then 1 else 0)
  unfolding finish_for refusals_of
  finish_for-refusals i run r d s a = simp (refusals_of-append, refusals_of-if) (ground arith)

  finish_for-strikes :
      (i run : String) (r : EgressRequest) (d : PolicyDecision) (s : AuthorizerState)
      (log : List Effect) (a : String)
      → s.strikes_by_agent a ≡ refusals_of a log
      → (finish_for options i run r d s).state.strikes_by_agent a
        ≡ refusals_of a ((finish_for options i run r d s).effects ++ log)
  unfolding finish_for
  finish_for-strikes i run r d s log a h =
      rw
        (
          refusals_of-append a (finish_for options i run r d s).effects log,
          finish_for-refusals i run r d s a,
        )
        (ground (arith, eq_refl a, eq_iff i a, eq_iff a i))

-- An answer leaves the held counts alone and counts a strike for each refusal it logs.
pub record Settles (s : AuthorizerState) (a : Answer) : Type 0 where
  pub keeps_held : (x : String) → a.state.held_by_agent x ≡ s.held_by_agent x
  pub counts :
      (log : List Effect) (x : String)
      → s.strikes_by_agent x ≡ refusals_of x log
      → a.state.strikes_by_agent x ≡ refusals_of x (a.effects ++ log)

unchanged-Settles : (s : AuthorizerState) (a : Answer) → a.state ≡ s → a.effects ≡ [] → Settles s a
unchanged-Settles s a e f = record { keeps_held = λ x. rw e refl; counts = λ log x h. rw (e, f) h }

module _ (options : EgressAuthorizerOptions) where
  pub finish_for-Settles :
      (i run : String) (r : EgressRequest) (d : PolicyDecision) (s : AuthorizerState)
      → Settles s (finish_for options i run r d s)
  finish_for-Settles i run r d s = record {
    keeps_held = finish_for-held options i run r d s;
    counts = finish_for-strikes options i run r d s;
  }

  hold-answered :
      (i run : String) (r : EgressRequest) (s : AuthorizerState) (a : Answer)
      → hold options i run r s ≡ answered a
      → Settles s a
  unfolding hold
  hold-answered i run r s a e =
      elim (Bool-cases (leb max_concurrent_held_requests (s.held_by_agent i))) [
        | inl t ↦
            subst (Settles s)
              (let q : finish_for options i run r (flood options r (s.held_by_agent i)) s ≡ a =
                  ground arith in
                q)
              (finish_for-Settles i run r (flood options r (s.held_by_agent i)) s)
        | inr f ↦ cc (let q : false ≡ true = ground arith in q)
      ]

  decide-answered :
      (i : Option String) (r : EgressRequest) (now : Instant) (db : Database) (s : AuthorizerState)
      (a : Answer)
      → decide options i r now db s ≡ answered a
      → Settles s a
  unfolding decide finish
  decide-answered none r now db s a e = unchanged-Settles s a (ground arith) (ground arith)
  decide-answered (some i) r now db s a e =
      elim (Bool-cases (may_ask options (initial_decision options r now db))) [
        | inl t ↦ hold-answered i (run_of (some i) r db) r s a (ground arith)
        | inr f ↦
            subst (Settles s)
              (let q : finish_for options i (run_of (some i) r db) r
                      (initial_decision options r now db) s
                    ≡ a =
                  ground arith in
                q)
              (finish_for-Settles i (run_of (some i) r db) r (initial_decision options r now db) s)
      ]

  pub begin-answered :
      (hmac : String → String → String) (r : EgressRequest) (now : Instant) (db : Database)
      (s : AuthorizerState) (a : Answer)
      → begin options hmac r now db s ≡ ok (answered a)
      → Settles s a
  unfolding impersonation
  begin-answered hmac r now db s a e = elim (past_gate options hmac r now db s a e) [
    | inl v ↦ unchanged-Settles s a (rw v refl) (rw v refl)
    | inr (c, d) ↦ decide-answered (id_of (agent_of r.agent_principal_id db)) r now db s a d
  ]

  hold-waiting :
      (i run : String) (r : EgressRequest) (s t : AuthorizerState) (p : Pending)
      → hold options i run r s ≡ waiting t p
      → (s.held_by_agent i ≤ 2)
        × (t ≡ record s { held_by_agent = put_count s.held_by_agent i (suc (s.held_by_agent i)) })
        × (p.agent_id ≡ i)
  unfolding hold
  hold-waiting i run r s t p e =
      elim (Bool-cases (leb max_concurrent_held_requests (s.held_by_agent i))) [
        | inl t ↦ cc (let q : false ≡ true = ground arith in q)
        | inr f ↦ (ground arith, ground arith, ground arith)
      ]

  decide-waiting :
      (i : Option String) (r : EgressRequest) (now : Instant) (db : Database)
      (s t : AuthorizerState) (p : Pending)
      → decide options i r now db s ≡ waiting t p
      → (s.held_by_agent p.agent_id ≤ 2)
        × (t ≡ record s {
          held_by_agent = put_count s.held_by_agent p.agent_id (suc (s.held_by_agent p.agent_id));
        })
  unfolding decide
  decide-waiting none r now db s t p e = cc (let q : false ≡ true = ground arith in q)
  decide-waiting (some i) r now db s t p e =
      elim (Bool-cases (may_ask options (initial_decision options r now db))) [
        | inl m ↦
            let (c, d, f) = hold-waiting i (run_of (some i) r db) r s t p (ground arith) in
            rw f (c, d)
        | inr m ↦ cc (let q : false ≡ true = ground arith in q)
      ]

  pub begin-waiting :
      (hmac : String → String → String) (r : EgressRequest) (now : Instant) (db : Database)
      (s t : AuthorizerState) (p : Pending)
      → begin options hmac r now db s ≡ ok (waiting t p)
      → (s.held_by_agent p.agent_id ≤ 2)
        × (t ≡ record s {
          held_by_agent = put_count s.held_by_agent p.agent_id (suc (s.held_by_agent p.agent_id));
        })
  unfolding begin
  begin-waiting hmac r now db s t p e =
      decide-waiting (id_of (agent_of r.agent_principal_id db)) r now db s t p (ground arith)
