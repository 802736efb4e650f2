-- ===== src/Service/Admission.antt =====
-- Which prompts are admitted, and what an admission leaves.
use tik_tok_tech_jam.Base.{
  String, ◌≡◌, refl, false, ◌||◌, Option, none, some, includes, arith, find,
}
use tik_tok_tech_jam.Types.{Agent, Database}
use tik_tok_tech_jam.Errors.{ok}
use tik_tok_tech_jam.Errors.Guards.{guard-ok, bind-ok}
use tik_tok_tech_jam.Service.{ServiceState, has_active_lifecycle, get_agent}
use tik_tok_tech_jam.Service.Agents.{of_id}
use tik_tok_tech_jam.Service.Messages.{admissible, is_stopped}

-- The agent is stored, at rest, not stopped and not blocked, and nothing of the service is in the way.
pub record Free (id : String) (s : ServiceState) (db : Database) (a : Agent) : Type 0 where
  pub stored : find (of_id id) db.agents ≡ some a
  pub not_stopped : is_stopped a.status ≡ false
  pub not_blocked : a.authority_blocked ≡ false
  pub no_lifecycle : includes s.lifecycle_mutations id ≡ false
  pub at_rest : has_active_lifecycle a.status ≡ false
  pub no_barrier : includes s.termination_barriers id ≡ false

get_agent-ok :
    (id : String) (db : Database) (a : Agent)
    → get_agent id db ≡ ok a
    → find (of_id id) db.agents ≡ some a
get_agent-ok id db a h = go (find (of_id id) db.agents) h
  where
    go : (o : Option Agent) → tik_tok_tech_jam.Service.found "Agent not found" o ≡ ok a → o ≡ some a
    go none h = cc
    go (some b) h = cc

pub admissible_sound :
    (id : String) (s : ServiceState) (db : Database) (a : Agent)
    → admissible id s db ≡ ok a
    → Free id s db a
unfolding admissible
admissible_sound id s db a h =
    let (b, found, h0) = bind-ok (get_agent id db) _ a h in
    let (stop, h1) = guard-ok (is_stopped b.status || b.authority_blocked) _ _ a h0 in
    let (life, h2) = guard-ok (includes s.lifecycle_mutations id) _ _ a h1 in
    let (rest, h3) = guard-ok (has_active_lifecycle b.status) _ _ a h2 in
    let (bar, h4) = guard-ok (includes s.termination_barriers id) _ _ a h3 in
    let e : b ≡ a = cc in
    rw (← e) (record {
      stored = get_agent-ok id db b found;
      not_stopped = ground arith;
      not_blocked = ground arith;
      no_lifecycle = life;
      at_rest = rest;
      no_barrier = bar;
    })

pub admissible_complete :
    (id : String) (s : ServiceState) (db : Database) (a : Agent)
    → Free id s db a
    → admissible id s db ≡ ok a
unfolding admissible
admissible_complete id s db a h =
    rw (h.stored, h.not_stopped, h.not_blocked, h.no_lifecycle, h.at_rest, h.no_barrier) refl
