-- ===== src/Identity/Grants/Create.antt =====
-- `createGrant` as a whole.
use tik_tok_tech_jam.Base.{
  String, ◌≡◌, refl, sym, ap, ◌∙◌, subst, inl, inr, true, false, none, [], ◌∷◌, ◌++◌, arith,
  contains, Bool-cases,
}
use mathlib.Core.Path.{ap₂}
use tik_tok_tech_jam.Types.{Instant, Grant, Database}
use tik_tok_tech_jam.Errors.{Failure, authority_denied, Result, ok, err}
use tik_tok_tech_jam.Store.{Persist, mutate}
use tik_tok_tech_jam.Store.Laws.{mutate_atomic}
use tik_tok_tech_jam.Authority.{AuthorityDecision}
use tik_tok_tech_jam.Policies.Chain.{find_grant, is_grant_chain_live}
use tik_tok_tech_jam.Policies.Chain.Live.{is_grant_chain_live_iff}
use tik_tok_tech_jam.Identity.Lineage.{IsLineage, IsLineage-append, IsStored-append}
use tik_tok_tech_jam.Identity.Grants.{NewGrant, Outcome, new_grant, issue, conclude, create_grant}
use tik_tok_tech_jam.Identity.Grants.Issue.{Issued, issue-Issued, Issued-HasLineage, Issued-Live}

module _ (persist : Persist) (input : NewGrant) (id : String) (now : Instant) (db : Database) where
  conclude-err : (e : Failure) (d : Database) → (conclude input id now d (err e)).database ≡ d
  conclude-err (authority_denied x) d = refl
  conclude-err _ d = refl

  conclude-err_result :
      (e : Failure) (d : Database) (g : Grant) → ¬ ((conclude input id now d (err e)).result ≡ ok g)
  conclude-err_result (authority_denied x) d g h = cc
  conclude-err_result _ d g h = cc

  -- What a call of `createGrant` can do: refuse and leave the database, or store one grant.
  pub data Created : Type 0 where
    refused :
        ((g : Grant) → ¬ ((create_grant persist input id now db).result ≡ ok g))
        → (create_grant persist input id now db).database ≡ db
        → Created
    stored :
        (decision : AuthorityDecision) (next : Database)
        → Issued input id now db decision next
        → contains input.target "*" ≡ false
        → (create_grant persist input id now db).result
          ≡ ok (new_grant input id now decision.parent_grant_id)
        → (create_grant persist input id now db).database
          ≡ record db { grants = db.grants ++ new_grant input id now decision.parent_grant_id ∷ [] }
        → Created

  create_grant-concrete :
      contains input.target "*" ≡ false
      → let r = mutate persist (issue input id now) db in
        create_grant persist input id now db ≡ conclude input id now r.1 r.0
  unfolding create_grant
  create_grant-concrete n = rw n

  create_grant_cases : Created
  create_grant_cases = elim (Bool-cases (contains input.target "*")) [
    | inl e ↦ unfold create_grant in refused (λ g h. ground arith) (ground arith)
    | inr n ↦ elim (mutate_atomic persist (issue input id now) db) [
      | inl (e, r, d) ↦
          let s : create_grant persist input id now db ≡ conclude input id now db (err e) =
            create_grant-concrete n ∙ ap₂ (conclude input id now) d r in
          refused
            (λ g h. conclude-err_result e db g (ap (λ (o : Outcome Grant). o.result) (sym s) ∙ h))
            (ap (λ (o : Outcome Grant). o.database) s ∙ conclude-err e db)
      | inr (decision, next, i, p, q) ↦
          let s : create_grant persist input id now db ≡ conclude input id now next (ok decision) =
            create_grant-concrete n
            ∙ ap (λ (r : Result AuthorityDecision × Database). conclude input id now r.1 r.0) q in
          let k = issue-Issued input id now db decision next i in
          stored decision next k n (ap (λ (o : Outcome Grant). o.result) s)
            (ap (λ (o : Outcome Grant). o.database) s ∙ k.stored)
    ]
  ]

  -- `createGrant` keeps the lineage of the stored grants, whatever it is asked and whether or not it
  -- succeeds, if the drawn id is new.
  pub create_grant-IsLineage :
      find_grant id db.grants ≡ none
      → IsLineage db.principals db.grants
      → let d = (create_grant persist input id now db).database in IsLineage d.principals d.grants
  create_grant-IsLineage fresh w = elim create_grant_cases [
    | refused f e ↦ subst (λ (d : Database). IsLineage d.principals d.grants) (sym e) w
    | stored decision next i c r e ↦
        subst (λ (d : Database). IsLineage d.principals d.grants) (sym e)
          (IsLineage-append db.principals db.grants
            (new_grant input id now decision.parent_grant_id) fresh
            (Issued-HasLineage input id now db w decision next i) w)
  ]

  -- A grant that `createGrant` returns is the one new stored grant, holds no star, and is live at once.
  pub created_grant_live :
      find_grant id db.grants ≡ none
      → IsLineage db.principals db.grants
      → (g : Grant) → (create_grant persist input id now db).result ≡ ok g
      → ((create_grant persist input id now db).database
          ≡ record db { grants = db.grants ++ g ∷ [] })
        × (contains g.target "*" ≡ false)
        × (is_grant_chain_live g (create_grant persist input id now db).database.grants now ≡ true)
  created_grant_live fresh w g h = elim create_grant_cases [
    | refused f e ↦ absurd (f g h)
    | stored decision next i c r e ↦
        let n = new_grant input id now decision.parent_grant_id in
        let s : n ≡ g = cc (r, h) in
        (
          subst
              (λ x.
                (create_grant persist input id now db).database
                ≡ record db { grants = db.grants ++ x ∷ [] })
              s e,
          subst (λ (x : Grant). contains x.target "*" ≡ false) s c,
          subst
              (λ x.
                is_grant_chain_live x (create_grant persist input id now db).database.grants now
                ≡ true)
              s
              (subst (λ (d : Database). is_grant_chain_live n d.grants now ≡ true) (sym e)
                ((is_grant_chain_live_iff (db.grants ++ n ∷ []) now n
                    (IsStored-append db.principals db.grants n fresh)).1
                  (Issued-Live input id now db w decision next i))),
        )
  ]

  -- A call that does not return a grant leaves the database as it was.
  pub create_grant_refused :
      (e : Failure)
      → (create_grant persist input id now db).result ≡ err e
      → (create_grant persist input id now db).database ≡ db
  create_grant_refused e h = elim create_grant_cases [
    | refused f q ↦ q
    | stored decision next i c r q ↦ cc
  ]
