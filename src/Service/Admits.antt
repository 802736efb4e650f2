-- ===== src/Service/Admits.antt =====
-- What a message that is accepted leaves.
use tik_tok_tech_jam.Base.{
  String, ◌≡◌, refl, sym, ap, subst, ◌∙◌, true, inl, inr, Option, none, some, [], ◌∷◌, ◌++◌, find,
  find_sound, includes, add, Bool-cases,
}
use tik_tok_tech_jam.Types.{Agent, AgentRun, Message, busy, ApprovalActor, Database}
use tik_tok_tech_jam.Errors.{Result, ok, err}
use tik_tok_tech_jam.Errors.Guards.{bind-ok, ok_or}
use tik_tok_tech_jam.Store.{Persist, mutate}
use tik_tok_tech_jam.Store.Laws.{mutate_atomic}
use tik_tok_tech_jam.Service.{
  AppConfig, ServiceState, mutate_in, append_run_event, is_model_configured, prompt_violation,
}
use tik_tok_tech_jam.Service.Lookups.{find-update_first}
use tik_tok_tech_jam.Service.Agents.{of_id}
use tik_tok_tech_jam.Service.Admission.{Free, admissible_sound}
use tik_tok_tech_jam.Service.Barrier.{includes-add_self}
use tik_tok_tech_jam.Service.Messages.{
  Draw, admissible, admitted, admit_mutation, launched, send_message, unconfigured, new_run,
  new_message, set_agent_status,
}

-- The agent was free, its state is now busy, and the one new run is the queued one that was answered.
pub record Admitted (config : AppConfig) (draw : Draw) (id prompt : String)
    (human : Option ApprovalActor) (s t : ServiceState) (run : AgentRun) (message : Message)
    : Type 0 where
  pub agent : Agent
  pub free : Free id s s.db agent
  pub clean : prompt_violation config prompt ≡ none
  pub run_is : run ≡ new_run config draw id prompt human agent s.db
  pub runs_are : t.db.runs ≡ s.db.runs ++ run ∷ []
  pub messages_are : t.db.messages ≡ s.db.messages ++ message ∷ []
  pub agent_busy : find (of_id id) t.db.agents ≡ some (set_agent_status busy none draw.now agent)
  pub executing : includes t.active_executions id ≡ true

module _ (config : AppConfig) (persist : Persist) (draw : Draw) (id prompt : String)
    (human : Option ApprovalActor) where
  abbrev admitting : ServiceState → Database → Result ((Agent × AgentRun × Message) × Database)
  admitting s db = admit_mutation config draw id prompt human s db

  -- the database of an admission of the agent
  abbrev after : ServiceState → Agent → Database
  after s a =
      admitted config draw id prompt (prompt_violation config prompt) a
        (new_run config draw id prompt human a s.db) (new_message config draw id prompt a) s.db

  -- what the mutation made, if it made something
  made :
      (s : ServiceState) (x : (Agent × AgentRun × Message) × Database)
      → admitting s s.db ≡ ok x
      → (a : Agent) × Free id s s.db a
        × (x ≡ (
          (a, new_run config draw id prompt human a s.db, new_message config draw id prompt a),
          after s a,
        ))
  unfolding admit_mutation
  made s x h =
      let (a, p, q) = bind-ok (admissible id s s.db) _ x h in
      (a, admissible_sound id s s.db a p, sym (ap (ok_or x) q))

  clean-Admitted :
      (s : ServiceState) (a : Agent)
      → prompt_violation config prompt ≡ none
      → Free id s s.db a
      → Admitted config draw id prompt human s
          (record s { db = after s a; active_executions = add id s.active_executions })
          (new_run config draw id prompt human a s.db)
          (new_message config draw id prompt a)
  unfolding append_run_event
  clean-Admitted s a c f = record {
    agent = a;
    free = f;
    clean = c;
    run_is = refl;
    runs_are = rw c refl;
    messages_are = rw c refl;
    agent_busy = rw c (
        find-update_first (of_id id) (set_agent_status busy none draw.now) s.db.agents a
          (find_sound (of_id id) s.db.agents a f.stored).0 f.stored);
    executing = includes-add_self id s.active_executions;
  }

  launched-Admitted :
      (s : ServiceState) (r : Result (Agent × AgentRun × Message)) (v : Option String)
      (db : Database) (run : AgentRun) (message : Message) (t : ServiceState)
      → v ≡ prompt_violation config prompt
      → ((a : Agent) (x : AgentRun) (m : Message)
          → r ≡ ok (a, x, m)
          → admitting s s.db ≡ ok ((a, x, m), db))
      → launched v id (r, record s { db = db }) ≡ (ok (run, message), t)
      → Admitted config draw id prompt human s t run message
  unfolding launched
  launched-Admitted s (err e) v db run message t k f h = cc
  launched-Admitted s (ok (a, x, m)) (some v) db run message t k f h = cc
  launched-Admitted s (ok (a, x, m)) none db run message t k f h =
      let (b, free, e) = made s ((a, x, m), db) (f a x m refl) in
      let stored =
        subst
          (λ (y : (Agent × AgentRun × Message) × Database).
            Admitted config draw id prompt human s
              (record s { db = y.1; active_executions = add id s.active_executions }) y.0.1 y.0.2)
          (sym e) (clean-Admitted s b (sym k) free) in
      subst
        (λ (z : Result (AgentRun × Message) × ServiceState).
          Admitted config draw id prompt human s z.1 (ok_or (x, m) z.0).0 (ok_or (x, m) z.0).1)
        h stored

  written :
      (s : ServiceState) (a : Agent) (x : AgentRun) (m : Message)
      → (mutate persist (admitting s) s.db).0 ≡ ok (a, x, m)
      → admitting s s.db ≡ ok ((a, x, m), (mutate persist (admitting s) s.db).1)
  written s a x m h = elim (mutate_atomic persist (admitting s) s.db) [
    | inl (e, p, q) ↦ cc (p, h)
    | inr (y, next, p, q, t) ↦
        let i : y ≡ (a, x, m) = ap (ok_or y) (sym (ap (λ z. z.0) t) ∙ h) in
        subst (λ z. admitting s s.db ≡ ok (z, (mutate persist (admitting s) s.db).1)) i
          (p ∙ ap (λ z. ok (y, z)) (sym (ap (λ z. z.1) t)))
  ]

  -- A message that is accepted had a configured model and a clean prompt, and its agent was free of every guard
  -- when it was admitted. It leaves one new run, which is queued, and one new message, the agent busy, and the
  -- agent's execution registered.
  pub send_message-Admitted :
      (others : ServiceState → ServiceState) (s t : ServiceState) (run : AgentRun)
      (message : Message)
      → send_message config persist others draw id prompt human s ≡ (ok (run, message), t)
      → (is_model_configured config ≡ true)
        × Admitted config draw id prompt human (others s) t run message
  unfolding send_message mutate_in
  send_message-Admitted others s t run message h = elim (Bool-cases (is_model_configured config)) [
    | inr e ↦ cc (
      let k : send_message config persist others draw id prompt human s
              ≡ (err (unconfigured config), s) =
            rw e refl in
          k,
      h,
    )
    | inl e ↦
        let u = others s in
        let r = mutate persist (admitting u) u.db in
        (
          e,
          launched-Admitted u r.0 (prompt_violation config prompt) r.1 run message t refl
              (written u) (rw e at h),
        )
  ]
