-- ===== src/Identity/Grants/Revoke.antt =====
-- What `revokeGrant` guarantees.
use mathlib.Core.Path.{ap₂}
use tik_tok_tech_jam.Base.{
  String, ◌==◌, ◌≡◌, sym, ap, ◌∙◌, subst, inl, inr, true, false, some, List, map, arith, eq_iff,
  find_sound, includes, is_some, Option-cases, if◌then◌else◌,
}
use tik_tok_tech_jam.Types.{Instant, Grant, Database}
use tik_tok_tech_jam.Errors.{Failure, Result, ok, err}
use tik_tok_tech_jam.Store.{Persist}
use tik_tok_tech_jam.Store.Laws.{mutate_atomic}
use tik_tok_tech_jam.Policies.Chain.{find_grant, is_spent, is_grant_chain_live}
use tik_tok_tech_jam.Policies.Chain.Live.{Ancestor, spent-Ancestor_ends}
use tik_tok_tech_jam.Identity.Cascade.{closure, unrevoked, is_due}
use tik_tok_tech_jam.Identity.Cascade.Closure.{Descends, start, closure_iff}
use tik_tok_tech_jam.Identity.Lineage.{IsLineage, Keeps, IsLineage-map, find-map}
use tik_tok_tech_jam.Identity.Grants.{Outcome, revoke, withdraw, conclude_revocation, revoke_grant}

module _ (persist : Persist) (id by : String) (now : Instant) (db : Database) where
  abbrev out : Outcome Grant
  out = revoke_grant persist id by now db

  -- one stored grant after the revocation
  abbrev withdrawn : Grant → Grant
  withdrawn g = if is_due (closure unrevoked db.grants id) g then revoke now by g else g

  withdrawn-Keeps : Keeps withdrawn
  withdrawn-Keeps = record {
    id = λ g. ground arith;
    holder = λ g. ground arith;
    grantor = λ g. ground arith;
    same_shape = λ g. ground arith;
    parent = λ g. ground arith;
  }

  -- the call fails and changes nothing, or the grant is stored and its descendants are withdrawn
  data Revoked : Type 0 where
    refused : (e : Failure) → out.result ≡ err e → out.database ≡ db → Revoked
    withdrew :
        (stored : Grant)
        → find_grant id db.grants ≡ some stored
        → out.database ≡ record db { grants = map withdrawn db.grants }
        → Revoked

  withdraw_next :
      (a : Grant × List Grant) (next : Database)
      → withdraw id by now db ≡ ok (a, next)
      → (stored : Grant) × (find_grant id db.grants ≡ some stored)
        × (next ≡ record db { grants = map withdrawn db.grants })
  unfolding withdraw
  withdraw_next a next h = elim (Option-cases (find_grant id db.grants)) [
    | inl e ↦ cc (let q : true ≡ false = ground arith in q)
    | inr (g, e) ↦ (g, e, ground (arith, e))
  ]

  revoke_grant_cases : Revoked
  unfolding revoke_grant
  revoke_grant_cases = elim (mutate_atomic persist (withdraw id by now) db) [
    | inl (e, r, d) ↦
        let s : out ≡ conclude_revocation db (err e) = ap₂ conclude_revocation d r in
        refused e (ap (λ (o : Outcome Grant). o.result) s)
          (ap (λ (o : Outcome Grant). o.database) s)
    | inr (a, next, w, p, q) ↦
        let (g, e, n) = withdraw_next a next w in
        let s : out ≡ conclude_revocation next (ok a) =
          ap (λ (r : Result (Grant × List Grant) × Database). conclude_revocation r.1 r.0) q in
        withdrew g e (ap (λ (o : Outcome Grant). o.database) s ∙ n)
  ]

  -- `revokeGrant` keeps the lineage of the stored grants, whether or not it succeeds.
  pub revoke_grant-IsLineage :
      IsLineage db.principals db.grants → IsLineage out.database.principals out.database.grants
  revoke_grant-IsLineage w = elim revoke_grant_cases [
    | refused e r d ↦ subst (λ (d : Database). IsLineage d.principals d.grants) (sym d) w
    | withdrew g e d ↦
        subst (λ (d : Database). IsLineage d.principals d.grants) (sym d)
          (IsLineage-map db.principals db.grants withdrawn withdrawn-Keeps w)
  ]

  revoked_root :
      (r : Grant)
      → out.result ≡ ok r
      → (g : Grant) (later : Instant)
      → (a : Grant) × (find_grant id out.database.grants ≡ some a)
        × (is_some a.revoked_at ≡ true)
        × (Ancestor out.database.grants a g
            → is_grant_chain_live g out.database.grants later ≡ false)
  unfolding is_spent
  revoked_root r h g later = elim revoke_grant_cases [
    | refused e f d ↦ cc
    | withdrew s e d ↦
        let a : Grant = withdrawn s in
        let at_root : (s.id == id) ≡ true = (find_sound (λ c. c.id == id) db.grants s e).0 in
        let due : includes (closure unrevoked db.grants id) s.id ≡ true =
          (closure_iff unrevoked db.grants id s.id).1.1
            (subst (Descends unrevoked db.grants id) (sym ((eq_iff s.id id).0 at_root)) start) in
        let stamped : is_some a.revoked_at ≡ true = ground (arith, due) in
        (
          a,
          subst (λ (x : Database). find_grant id x.grants ≡ some a) (sym d)
              (find-map (λ c. c.id == id) withdrawn db.grants s
                (λ x. ap (λ j. j == id) (withdrawn-Keeps.id x)) e),
          stamped,
          λ up. spent-Ancestor_ends out.database.grants later a g up (ground (arith, stamped)),
        )
  ]

  -- After a revocation that succeeds, the revoked grant and every grant whose chain passes through it
  -- are refused, at any time.
  pub revoked_chain_ends :
      (r : Grant)
      → out.result ≡ ok r
      → (a g : Grant) → find_grant id out.database.grants ≡ some a
      → Ancestor out.database.grants a g
      → (later : Instant) → is_grant_chain_live g out.database.grants later ≡ false
  revoked_chain_ends r h a g f up later =
      let (b, e, s, k) = revoked_root r h g later in
      let q : a ≡ b = cc (e, f) in k (subst (λ x. Ancestor out.database.grants x g) q up)
