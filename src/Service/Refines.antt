-- ===== src/Service/Refines.antt =====
-- The quarantine of the service, as the terminator sees it.
use tik_tok_tech_jam.Base.{
  String, ◌≡◌, refl, ap, Bool, true, false, List, [], ◌∷◌, includes, if◌then◌else◌,
}
use tik_tok_tech_jam.Types.{Instant, Agent, Database}
use tik_tok_tech_jam.Errors.{Result, ok, err}
use tik_tok_tech_jam.Store.{Persist, mutate}
use tik_tok_tech_jam.Terminator as Terminator
use tik_tok_tech_jam.Terminator.{World, Outside}
use tik_tok_tech_jam.Service.{AppConfig, ServiceState, update_first, mutate_in}
use tik_tok_tech_jam.Service.Cancel.{Cancellation, cancel_execution}
use tik_tok_tech_jam.Service.Agents.{of_id}
use tik_tok_tech_jam.Service.Lifecycle.{
  enter_lifecycle, in_lifecycle, then_do, quarantine_body, quarantine_agent, quarantined,
  quarantine_mutation,
}
use tik_tok_tech_jam.Service.History.{world_of}

same_update :
    (id : String) (f : Agent → Agent) (xs : List Agent)
    → update_first (of_id id) f xs ≡ Terminator.update_agent id f xs
unfolding update_first Terminator.update_agent
same_update id f [] = refl
same_update id f (x ∷ xs) = ap (λ ys. if of_id id x then f x ∷ xs else x ∷ ys) (same_update id f xs)

same_mutation :
    (id reason : String) (now : Instant) (s : ServiceState) (db : Database)
    → quarantine_mutation id reason now s db ≡ Terminator.stop_step id reason now db
unfolding quarantine_mutation
same_mutation id reason now s db =
    ap (λ xs. ok (tt, record db { agents = xs }))
      (same_update id (quarantined reason now) db.agents)

abbrev pub seen : Result (Unit {0}) × ServiceState → Result (Unit {0}) × World
seen (r, s) = (r, world_of s)

-- what the terminator is told: the outcome of the cancellation, and the disk of the change that follows
abbrev pub told : Outside → Persist → Result (Unit {0}) → Outside
told out persist r = record out { cancel = r; persist_kill = persist }

mutate-same :
    {A : Type 0} (persist : Persist) (f g : Database → Result (A × Database)) (db : Database)
    → f db ≡ g db
    → mutate persist f db ≡ mutate persist g db
unfolding mutate
mutate-same persist f g db h = rw (h, mutate) refl

-- the service's state in which the cancellation begins
abbrev pub entered : String → ServiceState → ServiceState
entered id s = if includes s.lifecycle_mutations id then s else enter_lifecycle id s

module _ (config : AppConfig) (persist : Persist) (out : Outside) (id reason : String)
    (now : Instant) where
  body-seen :
      (r : Result (Unit {0})) (t : ServiceState)
      → seen (then_do (λ v. mutate_in persist (quarantine_mutation id reason now) v) (r, t))
        ≡ Terminator.quarantine_agent (told out persist r) id reason now (world_of t)
  unfolding Terminator.quarantine_agent Terminator.quarantined_world mutate_in
  body-seen (err e) t = refl
  body-seen (ok u) t =
      ap (λ x. (x.0, record (world_of t) { db = x.1 }))
        (mutate-same persist (quarantine_mutation id reason now t)
          (Terminator.stop_step id reason now) t.db (same_mutation id reason now t t.db))

  either :
      (c : Cancellation) (s : ServiceState) (inside : Bool)
      → seen (
          if inside
          then quarantine_body config persist c id reason now s
          else in_lifecycle id (λ t. quarantine_body config persist c id reason now t) s)
        ≡ Terminator.quarantine_agent
            (told out persist
              (cancel_execution config c id now (if inside then s else enter_lifecycle id s)).0)
            id
            reason
            now
            (world_of
              (cancel_execution config c id now (if inside then s else enter_lifecycle id s)).1)
  either c s true =
      body-seen (cancel_execution config c id now s).0 (cancel_execution config c id now s).1
  either c s false =
      body-seen (cancel_execution config c id now (enter_lifecycle id s)).0
        (cancel_execution config c id now (enter_lifecycle id s)).1

  -- Once the execution is cancelled, the service's quarantine does to the part of the state that the terminator
  -- sees exactly what the terminator's own account of it does, and gives the same outcome. It does so inside
  -- another change of the agent's lifecycle or not.
  pub quarantine_agent-Refines :
      (c : Cancellation) (s : ServiceState)
      → seen (quarantine_agent config persist c id reason now s)
        ≡ Terminator.quarantine_agent
            (told out persist (cancel_execution config c id now (entered id s)).0)
            id
            reason
            now
            (world_of (cancel_execution config c id now (entered id s)).1)
  unfolding quarantine_agent
  quarantine_agent-Refines c s = either c s (includes s.lifecycle_mutations id)
