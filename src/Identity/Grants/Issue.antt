-- ===== src/Identity/Grants/Issue.antt =====
-- What `createGrant` guarantees: it keeps the lineage of the stored grants, what it issues is live at
-- once, and a refusal stores nothing.
use tik_tok_tech_jam.Base.{
  String, ◌==◌, ◌≡◌, refl, ◌∙◌, ap, subst, ◌≢◌, ◌⊎◌, inl, inr, true, false, ◌&&◌, Option, none,
  some, [], ◌∷◌, ◌++◌, arith, eq_iff, In, filter_sound, Option-cases, if◌then◌else◌,
}
use tik_tok_tech_jam.Types.{Instant, PrincipalKind, human, agent, Principal, Grant, Database}
use tik_tok_tech_jam.Errors.{ok}
use tik_tok_tech_jam.Authority.{
  AuthorityDecision, GrantRequest, shape, is_narrower_than, authorize_grant_request,
}
use tik_tok_tech_jam.Authority.Requests.{allowed_agent-Covering}
use tik_tok_tech_jam.Policies.Chain.{is_spent, is_grant_chain_live}
use tik_tok_tech_jam.Policies.Chain.Live.{Parent, Live, root, link, is_grant_chain_live_iff}
use tik_tok_tech_jam.Identity.Lineage.{
  HasLineage, by_human, delegated, IsLineage, Parent-append, Live-append,
}
use tik_tok_tech_jam.Identity.Grants.{
  NewGrant, is_agent, new_grant, find_principal, held_by, grant_request, store_grant, issue_as,
  issue,
}

-- a human is allowed, and the grant has no parent
allowed_human :
    (r : GrantRequest) → r.actor_kind ≡ human → (authorize_grant_request r).parent_grant_id ≡ none
unfolding authorize_grant_request
allowed_human r h = ground arith

module _ (input : NewGrant) (id : String) (now : Instant) (db : Database) where
  -- what the mutation has established when it succeeds
  pub record Issued (decision : AuthorityDecision) (next : Database) : Type 0 where
    pub actor : Principal
    pub known : find_principal input.granted_by db.principals ≡ some actor
    pub decided : decision ≡ authorize_grant_request (grant_request input now actor db)
    pub allowed : decision.allowed ≡ true
    pub stored :
        next
        ≡ record db { grants = db.grants ++ new_grant input id now decision.parent_grant_id ∷ [] }

  issue_as-Issued :
      (actor : Principal)
      → find_principal input.granted_by db.principals ≡ some actor
      → (decision : AuthorityDecision) (next : Database)
      → issue_as input id now actor db ≡ ok (decision, next)
      → Issued decision next
  unfolding issue_as store_grant
  issue_as-Issued actor k decision next h = record {
    actor = actor;
    known = k;
    decided = ground arith;
    allowed = ground arith;
    stored = ground arith;
  }

  pub issue-Issued :
      (decision : AuthorityDecision) (next : Database)
      → issue input id now db ≡ ok (decision, next)
      → Issued decision next
  unfolding issue
  issue-Issued decision next h =
      elim (Option-cases (find_principal input.granted_by db.principals)) [
        | inl e ↦ cc (let q : false ≡ true = ground arith in q)
        | inr (actor, e) ↦ issue_as-Issued actor e decision next (ground (arith, e))
      ]

PrincipalKind-cases : (k : PrincipalKind) → (k ≡ human) ⊎ (k ≡ agent)
PrincipalKind-cases human = inl refl
PrincipalKind-cases agent = inr refl

new_grant-unspent :
    (input : NewGrant) (id : String) (now : Instant) (parent : Option String)
    → is_spent (new_grant input id now parent) now ≡ false
unfolding is_spent
new_grant-unspent input id now parent = ground arith

module _ (input : NewGrant) (id : String) (now : Instant) (db : Database)
    (w : IsLineage db.principals db.grants) where
  -- the grant that an agent's request was carved from, as it is stored
  record Carved (decision : AuthorityDecision) : Type 0 where
    from : Grant
    parent : Parent db.grants (new_grant input id now decision.parent_grant_id) from
    holder : from.principal_id ≡ input.granted_by
    narrower :
        is_narrower_than (shape (new_grant input id now decision.parent_grant_id)) (shape from)
        ≡ true
    other : input.principal_id ≢ input.granted_by
    live : Live db.grants now from

  Issued-Carved :
      (decision : AuthorityDecision) (next : Database) (i : Issued input id now db decision next)
      → i.actor.kind ≡ agent
      → Carved decision
  unfolding grant_request
  Issued-Carved decision next i k =
      let (ne, c) =
        allowed_agent-Covering (grant_request input now i.actor db) k
          (subst (λ (d : AuthorityDecision). d.allowed ≡ true) i.decided i.allowed) in
      let held : In c.grant (held_by input.granted_by db now) =
        subst (λ b. In c.grant (if b then held_by input.granted_by db now else [])) (ap is_agent k)
          c.held in
      let (due, m) =
        filter_sound
          (λ held. held.principal_id == input.granted_by && is_grant_chain_live held db.grants now)
          db.grants c.grant held in
      record {
        from = c.grant;
        parent = record {
          id = c.grant.id;
          recorded = ap (λ (d : AuthorityDecision). d.parent_grant_id) i.decided ∙ c.recorded;
          stored = w.stored c.grant m;
        };
        holder = (eq_iff c.grant.principal_id input.granted_by).0 (ground (arith, due));
        narrower = c.narrower;
        other = ne;
        live =
            (is_grant_chain_live_iff db.grants now c.grant (w.stored c.grant m)).0
              (ground (arith, due));
      }

  no_parent :
      (decision : AuthorityDecision) (next : Database) (i : Issued input id now db decision next)
      → i.actor.kind ≡ human
      → decision.parent_grant_id ≡ none
  unfolding grant_request
  no_parent decision next i k =
      ap (λ (d : AuthorityDecision). d.parent_grant_id) i.decided
      ∙ allowed_human (grant_request input now i.actor db) k

  pub Issued-HasLineage :
      (decision : AuthorityDecision) (next : Database)
      → Issued input id now db decision next
      → HasLineage db.principals db.grants (new_grant input id now decision.parent_grant_id)
  Issued-HasLineage decision next i = elim (PrincipalKind-cases i.actor.kind) [
    | inl h ↦ by_human i.actor (no_parent decision next i h) i.known h
    | inr a ↦
        let c = Issued-Carved decision next i a in
        delegated c.from c.parent c.holder c.narrower c.other
  ]

  pub Issued-Live :
      (decision : AuthorityDecision) (next : Database)
      → Issued input id now db decision next
      → let n = new_grant input id now decision.parent_grant_id in Live (db.grants ++ n ∷ []) now n
  Issued-Live decision next i =
      let n = new_grant input id now decision.parent_grant_id in
      elim (PrincipalKind-cases i.actor.kind) [
        | inl h ↦
            root n (new_grant-unspent input id now decision.parent_grant_id)
              (no_parent decision next i h)
        | inr a ↦
            let c = Issued-Carved decision next i a in
            link n c.from (new_grant-unspent input id now decision.parent_grant_id)
              (Parent-append db.principals db.grants n n c.from c.parent) c.holder c.narrower
              (Live-append db.principals db.grants n now c.from c.live)
      ]
