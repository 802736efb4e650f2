-- ===== src/Terminator/Listed.antt =====
-- The ids that a receipt lists: none is listed twice.
use tik_tok_tech_jam.Base.{
  ◌==◌, ◌≡◌, refl, sym, subst, ap, ◌∙◌, inl, inr, String, Bool, false, ◌||◌, Option, none, some,
  List, [], ◌∷◌, ◌++◌, map, filter, arith, eq_iff, Bool-cases, includes,
}
use tik_tok_tech_jam.Types.{Instant, Agent, Grant, MemoryEntry, Database}
use tik_tok_tech_jam.Errors.{Result, ok, err}
use tik_tok_tech_jam.Store.{mutate}
use tik_tok_tech_jam.Store.Laws.{mutate_atomic}
use tik_tok_tech_jam.Identity.Cascade.{cascade_grant_revocation}
use tik_tok_tech_jam.Memory.Quarantine.{is_open_for, close_all}
use tik_tok_tech_jam.Termination.{revoke}
use tik_tok_tech_jam.Termination.Genuine.{Distinct}
use tik_tok_tech_jam.Terminator.{World, Outside, agent_in}
use tik_tok_tech_jam.Terminator.Steps.{
  Revocation, revoke_and_block, revocation, drained, revoke_all, revoke_found, held_unrevoked,
  revoke_roots, insert_last,
}

includes-snoc :
    (xs : List String) (x y : String) → includes (xs ++ x ∷ []) y ≡ (includes xs y || y == x)
includes-snoc [] x y = ground arith
includes-snoc (z ∷ xs) x y = ground (arith, includes-snoc xs x y)

Distinct-snoc :
    (xs : List String) (x : String) → Distinct xs → includes xs x ≡ false → Distinct (xs ++ x ∷ [])
Distinct-snoc [] x d n = (refl, tt)
Distinct-snoc (y ∷ xs) x d n = (
  rw (includes-snoc xs x y) (ground (arith, d.0, eq_iff y x, eq_iff x y)),
  Distinct-snoc xs x d.1 (ground arith),
)

insert_last-Distinct :
    (xs stamped : List String) → Distinct stamped → Distinct (insert_last stamped xs)
insert_last-Distinct [] stamped d = d
insert_last-Distinct (x ∷ xs) stamped d = elim (Bool-cases (includes stamped x)) [
  | inl t ↦ rw t (insert_last-Distinct xs stamped d)
  | inr f ↦ rw f (insert_last-Distinct xs (stamped ++ x ∷ []) (Distinct-snoc stamped x d f))
]

revoke_roots-Distinct :
    (now : Instant) (roots : List String) (grants : List Grant) (stamped : List String)
    → Distinct stamped
    → Distinct (revoke_roots now roots grants stamped).1
unfolding revoke_roots
revoke_roots-Distinct now [] grants stamped d = d
revoke_roots-Distinct now (root ∷ roots) grants stamped d =
    revoke_roots-Distinct now roots (cascade_grant_revocation grants root now).0 _
      (insert_last-Distinct (cascade_grant_revocation grants root now).1 stamped d)

abbrev pub ids_of : List MemoryEntry → List String
ids_of = map (λ e. e.id)

filter-absent :
    (p : MemoryEntry → Bool) (es : List MemoryEntry) (x : String)
    → includes (ids_of es) x ≡ false
    → includes (ids_of (filter p es)) x ≡ false
filter-absent p [] x h = refl
filter-absent p (e ∷ es) x h = elim (Bool-cases (p e)) [
  | inl t ↦ rw t (ground (arith, filter-absent p es x))
  | inr f ↦ rw f (filter-absent p es x (ground arith))
]

filter-Distinct :
    (p : MemoryEntry → Bool) (es : List MemoryEntry)
    → Distinct (ids_of es)
    → Distinct (ids_of (filter p es))
filter-Distinct p [] d = tt
filter-Distinct p (e ∷ es) d = elim (Bool-cases (p e)) [
  | inl t ↦ rw t (filter-absent p es e.id d.0, filter-Distinct p es d.1)
  | inr f ↦ rw f (filter-Distinct p es d.1)
]

-- no two memories of the store share an id
abbrev pub HasIds : World → Type 0
HasIds w = Distinct (ids_of w.db.memories)

-- a revocation's step and its two lists
pub record IsListed (r : Revocation) : Type 0 where
  pub named : r.step.step ≡ revoke
  pub grants : Distinct r.revoked
  pub memories : Distinct r.quarantined

revocation-IsListed :
    (at : String) (p : Result (List String × List String)) (d : Result (Unit {0}))
    → ((a b : List String) → p ≡ ok (a, b) → Distinct a × Distinct b)
    → IsListed (revocation at p d)
revocation-IsListed at (err e) d h = record { named = refl; grants = tt; memories = tt }
revocation-IsListed at (ok (a, b)) (err e) h = record {
  named = refl;
  grants = (h a b refl).0;
  memories = (h a b refl).1;
}
revocation-IsListed at (ok (a, b)) (ok u) h = record {
  named = refl;
  grants = (h a b refl).0;
  memories = (h a b refl).1;
}

revoke_found-Distinct :
    (o : Option Agent) (agent_id principal_id : String) (now : Instant) (db : Database)
    (a b : List String) (next : Database)
    → Distinct (ids_of db.memories)
    → revoke_found o agent_id principal_id now db ≡ ok ((a, b), next)
    → Distinct a × Distinct b
unfolding revoke_found close_all
revoke_found-Distinct none agent_id principal_id now db a b next d h = cc
revoke_found-Distinct (some x) agent_id principal_id now db a b next d h =
    let roots = map (λ g. g.id) (filter (held_unrevoked principal_id) db.grants) in
    let e : (revoke_roots now roots db.grants []).1 ≡ a = ground arith in
    let f : ids_of (filter (is_open_for agent_id) db.memories) ≡ b = ground arith in
    (
      subst Distinct e (revoke_roots-Distinct now roots db.grants [] tt),
      subst Distinct f (filter-Distinct (is_open_for agent_id) db.memories d),
    )

pub revoke_and_block-IsListed :
    (out : Outside) (agent_id principal_id : String) (now : Instant) (w : World)
    → HasIds w
    → IsListed (revoke_and_block out agent_id principal_id now w).0
unfolding revoke_and_block
revoke_and_block-IsListed out agent_id principal_id now w d =
    revocation-IsListed (out.iso now)
      (mutate out.persist_revoke (revoke_all agent_id principal_id now) w.db).0 (drained out.drain)
      (λ a b h.
        elim (mutate_atomic out.persist_revoke (revoke_all agent_id principal_id now) w.db) [
          | inl (e, f, k) ↦ cc (sym f ∙ h)
          | inr ((x, y), next, f, p, k) ↦
              let q : ok (x, y) ≡ ok (a, b) = sym (ap (λ r. r.0) k) ∙ h in
              let (u, v) =
                revoke_found-Distinct (agent_in agent_id w.db) agent_id principal_id now w.db x y
                  next d (unfold revoke_all in f) in
              (
                subst Distinct (let z : x ≡ a = ground arith in z) u,
                subst Distinct (let z : y ≡ b = ground arith in z) v,
              )
        ])
