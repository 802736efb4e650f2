-- ===== src/Egress/Authorizer/Held.antt =====
-- The authorizer over time: any interleaving of new requests, operator answers and resets of the strikes.
use tik_tok_tech_jam.Base.{
  ℕ, suc, ◌+◌, ◌-◌, ◌*◌, ◌≤◌, String, ◌==◌, ◌≡◌, refl, Bool, false, not, filter, List, [], ◌∷◌,
  ◌++◌, arith, eq_iff, if◌then◌else◌,
}
use tik_tok_tech_jam.Types.{Instant, Database}
use tik_tok_tech_jam.Errors.{ok}
use tik_tok_tech_jam.Egress.Authorizer.{
  EgressRequest, EgressAuthorizerOptions, AuthorizerState, Answer, Pending, Effect, answered,
  waiting, put_count, initial_state, reset_strikes, blocked, decided, quarantine_agent,
}
use tik_tok_tech_jam.Egress.Authorizer.Authorize.{begin, resume}
use tik_tok_tech_jam.Egress.Authorizer.Answers.{
  refusals_of, Settles, finish_for-Settles, begin-answered, begin-waiting,
}

-- The authorizer's state, the requests that wait, what it did, the newest first and without an agent's refusals
-- from before its last reset, and how often each agent was reset.
pub record System : Type 0 where
  pub state : AuthorizerState
  pub held : List Pending
  pub log : List Effect
  pub resets : String → ℕ

abbrev pub start : System
start = record { state = initial_state; held = []; log = []; resets = λ a. 0 }

abbrev pub is_refusal_of : String → Effect → Bool
is_refusal_of agent_id (blocked run a r d n) = a == agent_id
is_refusal_of agent_id _ = false

abbrev pub forgotten : String → List Effect → List Effect
forgotten agent_id log = filter (λ e. not (is_refusal_of agent_id e)) log

-- `resetStrikes`, which starting an agent calls
abbrev pub reset : String → System → System
reset agent_id y = record {
  state = reset_strikes agent_id y.state;
  held = y.held;
  log = forgotten agent_id y.log;
  resets = put_count y.resets agent_id (suc (y.resets agent_id));
}

pub data Step (options : EgressAuthorizerOptions) (hmac : String → String → String)
    : System → System → Type 0 where
  answers :
      (y : System) (r : EgressRequest) (now : Instant) (db : Database) (a : Answer)
      → begin options hmac r now db y.state ≡ ok (answered a)
      → Step options hmac y
          (record { state = a.state; held = y.held; log = a.effects ++ y.log; resets = y.resets })
  waits :
      (y : System) (r : EgressRequest) (now : Instant) (db : Database) (s : AuthorizerState)
      (p : Pending)
      → begin options hmac r now db y.state ≡ ok (waiting s p)
      → Step options hmac y
          (record { state = s; held = p ∷ y.held; log = y.log; resets = y.resets })
  operator :
      (y : System) (before : List Pending) (p : Pending) (after : List Pending) (approved : Bool)
      → y.held ≡ before ++ p ∷ after
      → Step options hmac y (record {
        state = (resume options p approved y.state).state;
        held = before ++ after;
        log = (resume options p approved y.state).effects ++ y.log;
        resets = y.resets;
      })
  resetting : (y : System) (agent_id : String) → Step options hmac y (reset agent_id y)

pub data Reachable (options : EgressAuthorizerOptions) (hmac : String → String → String)
    : System → Type 0 where
  started : Reachable options hmac start
  stepped :
      (y z : System) → Reachable options hmac y → Step options hmac y z → Reachable options hmac z

-- the requests of an agent that wait for an operator
unfoldable pub waiting_of : String → List Pending → ℕ
waiting_of agent_id [] = 0
waiting_of agent_id (p ∷ ps) =
    if p.agent_id == agent_id then suc (waiting_of agent_id ps) else waiting_of agent_id ps

waiting_of-append :
    (a : String) (ps qs : List Pending)
    → waiting_of a (ps ++ qs) ≡ waiting_of a ps + waiting_of a qs
unfolding waiting_of
waiting_of-append a [] qs = omega arith
waiting_of-append a (p ∷ ps) qs = ground (arith, waiting_of-append a ps qs)

split_count :
    (a : String) (held before : List Pending) (p : Pending) (after : List Pending)
    → held ≡ before ++ p ∷ after
    → waiting_of a held
      ≡ waiting_of a before + ((if p.agent_id == a then 1 else 0) + waiting_of a after)
split_count a held before p after e =
    rw e (rw (waiting_of-append a before (p ∷ after)) (unfold waiting_of in ground arith))

refusals_of-forgotten :
    (b a : String) (es : List Effect)
    → refusals_of a (forgotten b es) ≡ (if b == a then 0 else refusals_of a es)
unfolding refusals_of
refusals_of-forgotten b a [] = ground arith
refusals_of-forgotten b a (blocked run c r d n ∷ es) =
    ground (arith, refusals_of-forgotten b a es, eq_iff b a, eq_iff c a, eq_iff c b)
refusals_of-forgotten b a (decided run c d ∷ es) = refusals_of-forgotten b a es
refusals_of-forgotten b a (quarantine_agent c t ∷ es) = refusals_of-forgotten b a es

-- The counters agree with what waits and with what was logged. A reset forgets at most three waiting requests.
record IsCounted (y : System) : Type 0 where
  held_le : (a : String) → y.state.held_by_agent a ≤ waiting_of a y.held
  held_cap : (a : String) → y.state.held_by_agent a ≤ 3
  waiting_le : (a : String) → waiting_of a y.held ≤ y.state.held_by_agent a + 3 * y.resets a
  strikes_are : (a : String) → y.state.strikes_by_agent a ≡ refusals_of a y.log

module _ (options : EgressAuthorizerOptions) (hmac : String → String → String) where
  start-IsCounted : IsCounted start
  unfolding waiting_of refusals_of
  start-IsCounted = record {
    held_le = λ a. omega arith;
    held_cap = λ a. omega arith;
    waiting_le = λ a. omega arith;
    strikes_are = λ a. refl;
  }

  waits-IsCounted :
      (y : System) (r : EgressRequest) (now : Instant) (db : Database) (s : AuthorizerState)
      (p : Pending)
      → begin options hmac r now db y.state ≡ ok (waiting s p)
      → IsCounted y
      → IsCounted (record { state = s; held = p ∷ y.held; log = y.log; resets = y.resets })
  unfolding waiting_of
  waits-IsCounted y r now db s p e w =
      let (c, d) = begin-waiting options hmac r now db y.state s p e in
      record {
        held_le = λ a. rw d (ground (arith, w.held_le a, eq_iff p.agent_id a, eq_iff a p.agent_id));
        held_cap =
            λ a. rw d (ground (arith, w.held_cap a, eq_iff p.agent_id a, eq_iff a p.agent_id));
        waiting_le =
            λ a. rw d (ground (arith, w.waiting_le a, eq_iff p.agent_id a, eq_iff a p.agent_id));
        strikes_are = λ a. rw d (w.strikes_are a);
      }

  resume-Settles :
      (p : Pending) (approved : Bool) (s : AuthorizerState)
      → Settles
          (record s {
            held_by_agent = put_count s.held_by_agent p.agent_id (s.held_by_agent p.agent_id - 1);
          })
          (resume options p approved s)
  unfolding resume
  resume-Settles p approved s = finish_for-Settles options p.agent_id p.run_id p.request _ _

  operator-IsCounted :
      (y : System) (before : List Pending) (p : Pending) (after : List Pending) (approved : Bool)
      → y.held ≡ before ++ p ∷ after
      → IsCounted y
      → IsCounted (record {
        state = (resume options p approved y.state).state;
        held = before ++ after;
        log = (resume options p approved y.state).effects ++ y.log;
        resets = y.resets;
      })
  operator-IsCounted y before p after approved e w =
      let t = resume-Settles p approved y.state in
      record {
        held_le = λ a.
            rw (t.keeps_held a, waiting_of-append a before after)
              (ground (
                arith,
                w.held_le a,
                split_count a y.held before p after e,
                eq_iff p.agent_id a,
                eq_iff a p.agent_id,
              ));
        held_cap = λ a.
            rw (t.keeps_held a)
              (ground (arith, w.held_cap a, eq_iff p.agent_id a, eq_iff a p.agent_id));
        waiting_le = λ a.
            rw (t.keeps_held a, waiting_of-append a before after)
              (ground (
                arith,
                w.waiting_le a,
                split_count a y.held before p after e,
                eq_iff p.agent_id a,
                eq_iff a p.agent_id,
              ));
        strikes_are = λ a. t.counts y.log a (w.strikes_are a);
      }

  reset-IsCounted : (y : System) (b : String) → IsCounted y → IsCounted (reset b y)
  unfolding reset_strikes
  reset-IsCounted y b w = record {
    held_le = λ a. ground (arith, w.held_le a);
    held_cap = λ a. ground (arith, w.held_cap a);
    waiting_le = λ a. ground (arith, w.held_cap a, w.waiting_le a, eq_iff b a, eq_iff a b);
    strikes_are = λ a.
        rw (refusals_of-forgotten b a y.log)
          (ground (arith, w.strikes_are a, eq_iff b a, eq_iff a b));
  }

  keeps-IsCounted : (y z : System) → Step options hmac y z → IsCounted y → IsCounted z
  keeps-IsCounted _ _ (answers y r now db a e) w =
      let t = begin-answered options hmac r now db y.state a e in
      record {
        held_le = λ x. rw (t.keeps_held x) (w.held_le x);
        held_cap = λ x. rw (t.keeps_held x) (w.held_cap x);
        waiting_le = λ x. rw (t.keeps_held x) (w.waiting_le x);
        strikes_are = λ x. t.counts y.log x (w.strikes_are x);
      }
  keeps-IsCounted _ _ (waits y r now db s p e) w = waits-IsCounted y r now db s p e w
  keeps-IsCounted _ _ (operator y before p after approved e) w =
      operator-IsCounted y before p after approved e w
  keeps-IsCounted _ _ (resetting y agent_id) w = reset-IsCounted y agent_id w

  Reachable-IsCounted : (y : System) → Reachable options hmac y → IsCounted y
  Reachable-IsCounted _ started = start-IsCounted
  Reachable-IsCounted _ (stepped y z r s) = keeps-IsCounted y z s (Reachable-IsCounted y r)

  -- Whatever requests arrive, operators answer and resets of the strikes happen, the counter of held requests of
  -- an agent is at most three, at least the counted number of its requests wait for an operator, and beyond the
  -- counted ones at most three wait for each reset of the agent. Without a reset the counter is thus exact and at
  -- most three wait.
  pub Reachable-held :
      (y : System)
      → Reachable options hmac y
      → (agent_id : String)
      → (y.state.held_by_agent agent_id ≤ waiting_of agent_id y.held)
        × (waiting_of agent_id y.held ≤ y.state.held_by_agent agent_id + 3 * y.resets agent_id)
        × (y.state.held_by_agent agent_id ≤ 3)
  Reachable-held y r a =
      let w = Reachable-IsCounted y r in (w.held_le a, w.waiting_le a, w.held_cap a)

  -- Whatever requests arrive, operators answer and resets of the strikes happen, an agent's strikes are the number
  -- of refusals that were reported as blocked for it since its last reset.
  pub Reachable-strikes :
      (y : System)
      → Reachable options hmac y
      → (agent_id : String) → y.state.strikes_by_agent agent_id ≡ refusals_of agent_id y.log
  Reachable-strikes y r = (Reachable-IsCounted y r).strikes_are
