-- ===== src/Policies/Access/Laws.antt =====
-- When the evaluators allow, and what a refusal's rule says.
use tik_tok_tech_jam.Base.{
  String, ◌==◌, ◌≡◌, refl, sym, subst, ◌≢◌, ◌↔◌, ◌⊎◌, inl, inr, Bool, true, false, none, some, List,
  [], ◌∷◌, arith, eq_iff, eq_refl, filter, all, In, find_sound, find-none, filter_sound,
  filter_complete, all-at, is_some, Bool-cases, Option-cases,
}
use tik_tok_tech_jam.Types.{
  Instant, GrantScope, resource_read, resource_write, network_egress, scope_eq, Grant, MockResource,
}
use tik_tok_tech_jam.Policies.Chain.{is_grant_chain_live}
use tik_tok_tech_jam.Policies.Access.{
  ActiveGrant, matches, spent_rule, choose_live, active_grant, evaluate_resource_access,
  evaluate_egress,
}

-- A stored grant to the principal, of exactly this scope and target, whose chain is live.
pub record Authorizes (grants : List Grant) (principal_id : String) (scope : GrantScope)
    (target : String) (now : Instant) (g : Grant) : Type 0 where
  pub listed : In g grants
  pub holder : g.principal_id ≡ principal_id
  pub scoped : g.scope ≡ scope
  pub targeted : g.target ≡ target
  pub live : is_grant_chain_live g grants now ≡ true

scope_eq_sound : (a b : GrantScope) → scope_eq a b ≡ true → a ≡ b
scope_eq_sound resource_read resource_read h = refl
scope_eq_sound resource_write resource_write h = refl
scope_eq_sound network_egress network_egress h = refl
scope_eq_sound a b h = cc

scope_eq_refl : (a : GrantScope) → scope_eq a a ≡ true
scope_eq_refl resource_read = refl
scope_eq_refl resource_write = refl
scope_eq_refl network_egress = refl

matches_sound :
    (p : String) (s : GrantScope) (t : String) (g : Grant)
    → matches p s t g ≡ true
    → (g.principal_id ≡ p) × (g.scope ≡ s) × (g.target ≡ t)
matches_sound p s t g h = (
  (eq_iff g.principal_id p).0 (ground arith),
  scope_eq_sound g.scope s (ground arith),
  (eq_iff g.target t).0 (ground arith),
)

matches_complete :
    (p : String) (s : GrantScope) (t : String) (g : Grant)
    → g.principal_id ≡ p
    → g.scope ≡ s
    → g.target ≡ t
    → matches p s t g ≡ true
matches_complete p s t g a b c =
    rw (a, b, c) (ground (arith, eq_refl p, eq_refl t, scope_eq_refl s))

module _ (grants : List Grant) (p : String) (s : GrantScope) (t : String) (now : Instant) where
  choose_live_sound :
      (ms : List Grant) (g : Grant)
      → (choose_live s ms grants now).grant ≡ some g
      → In g ms × (is_grant_chain_live g grants now ≡ true)
  unfolding choose_live
  choose_live_sound [] g h = cc
  choose_live_sound (m ∷ ms) g h =
      let (l, i) = find_sound (λ g. is_grant_chain_live g grants now) (m ∷ ms) g (ground arith) in
      (i, l)

  choose_live-none :
      (ms : List Grant) (g : Grant)
      → (choose_live s ms grants now).grant ≡ none
      → In g ms
      → is_grant_chain_live g grants now ≡ false
  unfolding choose_live
  choose_live-none [] g h m = absurd m
  choose_live-none (m ∷ ms) g h k =
      find-none (λ g. is_grant_chain_live g grants now) (m ∷ ms) g (ground arith) k

  pub active_grant_sound :
      (g : Grant) → (active_grant grants p s t now).grant ≡ some g → Authorizes grants p s t now g
  unfolding active_grant
  active_grant_sound g h =
      let (i, l) = choose_live_sound (filter (matches p s t) grants) g h in
      let (ok, m) = filter_sound (matches p s t) grants g i in
      let (a, b, c) = matches_sound p s t g ok in
      record { listed = m; holder = a; scoped = b; targeted = c; live = l }

  pub active_grant_complete :
      (g : Grant) → Authorizes grants p s t now g → (active_grant grants p s t now).grant ≢ none
  unfolding active_grant
  active_grant_complete g w h =
      let m : In g (filter (matches p s t) grants) =
        filter_complete (matches p s t) grants g w.listed
          (matches_complete p s t g w.holder w.scoped w.targeted) in
      cc (choose_live-none (filter (matches p s t) grants) g h m, w.live)

module _ (p host : String) (grants : List Grant) (now : Instant) where
  -- An outbound connection is allowed exactly when the principal holds a stored egress grant for
  -- exactly that host whose chain is live; and the decision names such a grant.
  pub egress_allowed_iff : ((evaluate_egress p host grants now).allowed ≡ true) ↔ (
      (g : Grant) × Authorizes grants p network_egress host now g
      × ((evaluate_egress p host grants now).grant_id ≡ some g.id))
  unfolding evaluate_egress
  egress_allowed_iff = elim (Option-cases (active_grant grants p network_egress host now).grant) [
    | inl e ↦ (
      λ h. cc (let q : false ≡ true = ground arith in q),
      λ w. absurd (active_grant_complete grants p network_egress host now w.0 w.1 e),
    )
    | inr (g, e) ↦ (
      λ h. (g, active_grant_sound grants p network_egress host now g e, ground arith),
      λ w. ground arith,
    )
  ]

  -- the three ways in which no matching grant is live
  pub data Refusal : String → Type 0 where
    never_granted :
        ((g : Grant) → In g grants → matches p network_egress host g ≡ false)
        → Refusal "NET-EGRESS-020"
    all_revoked :
        (g : Grant)
        → In g grants
        → matches p network_egress host g ≡ true
        → ((x : Grant)
            → In x grants
            → matches p network_egress host x ≡ true
            → is_some x.revoked_at ≡ true)
        → Refusal "AUTHZ-REVOKED-013"
    not_all_revoked :
        (g : Grant)
        → In g grants
        → matches p network_egress host g ≡ true
        → is_some g.revoked_at ≡ false
        → Refusal "AUTHZ-EXPIRED-012"

-- the first element at which a test fails
find_failing :
    (q : Grant → Bool) (xs : List Grant) → all q xs ≡ false → (g : Grant) × In g xs × (q g ≡ false)
find_failing q [] h = cc
find_failing q (x ∷ xs) h = elim (Bool-cases (q x)) [
  | inr e ↦ (x, inl refl, e)
  | inl e ↦ let (g, m, f) = find_failing q xs (ground arith) in (g, inr m, f)
]

filter-empty :
    (q : Grant → Bool) (xs : List Grant) (g : Grant) → filter q xs ≡ [] → In g xs → q g ≡ false
filter-empty q xs g e m = elim (Bool-cases (q g)) [
  | inr f ↦ f
  | inl t ↦ let i : In g (filter q xs) = filter_complete q xs g m t in absurd (rw e at i)
]

List-cases : (xs : List Grant) → (xs ≡ []) ⊎ ((x : Grant) × (r : List Grant) × (xs ≡ x ∷ r))
List-cases [] = inl refl
List-cases (x ∷ r) = inr (x, r, refl)

module _ (p host : String) (grants : List Grant) (now : Instant) where
  abbrev chosen : List Grant → ActiveGrant
  chosen ms = choose_live network_egress ms grants now

  chosen-Refusal :
      (ms : List Grant)
      → filter (matches p network_egress host) grants ≡ ms
      → (chosen ms).grant ≡ none
      → Refusal p host grants now (chosen ms).rule_id
  unfolding choose_live spent_rule
  chosen-Refusal [] e h =
      never_granted (λ g m. filter-empty (matches p network_egress host) grants g e m)
  chosen-Refusal (m ∷ ms) e h = elim (Bool-cases (all (λ g. is_some g.revoked_at) (m ∷ ms))) [
    | inl r ↦ subst (Refusal p host grants now) (sym (revoked r)) (
        all_revoked m first.1 first.0 (λ x k w.
          all-at (λ g. is_some g.revoked_at) (m ∷ ms) x r
            (subst (In x) e (filter_complete (matches p network_egress host) grants x k w))))
    | inr r ↦
        let (g, k, n) = find_failing (λ g. is_some g.revoked_at) (m ∷ ms) r in
        let (w, l) = listed g k in
        subst (Refusal p host grants now) (sym (expired r)) (not_all_revoked g l w n)
  ]
    where
      listed : (g : Grant) → In g (m ∷ ms) → (matches p network_egress host g ≡ true) × In g grants
      listed g k = filter_sound (matches p network_egress host) grants g (subst (In g) (sym e) k)

      first : (matches p network_egress host m ≡ true) × In m grants
      first = listed m (inl refl)

      revoked :
          all (λ g. is_some g.revoked_at) (m ∷ ms) ≡ true
          → (chosen (m ∷ ms)).rule_id ≡ "AUTHZ-REVOKED-013"
      revoked r = ground (arith, h, r)

      expired :
          all (λ g. is_some g.revoked_at) (m ∷ ms) ≡ false
          → (chosen (m ∷ ms)).rule_id ≡ "AUTHZ-EXPIRED-012"
      expired r = ground (arith, h, r)

  -- The rule of a refusal says which: no grant for this principal and host was ever recorded; all
  -- such grants are revoked; or some such grant is not revoked.
  pub egress-Refusal_rule :
      (evaluate_egress p host grants now).allowed ≡ false
      → Refusal p host grants now (evaluate_egress p host grants now).rule_id
  unfolding evaluate_egress active_grant
  egress-Refusal_rule h =
      elim (Option-cases (chosen (filter (matches p network_egress host) grants)).grant) [
        | inr (g, e) ↦ cc (let q : true ≡ false = ground arith in q)
        | inl e ↦
            let r : (evaluate_egress p host grants now).rule_id
                ≡ (chosen (filter (matches p network_egress host) grants)).rule_id =
              ground arith in
            subst (Refusal p host grants now) (sym r)
              (chosen-Refusal (filter (matches p network_egress host) grants) refl e)
      ]

-- An agent reads a resource exactly when its owner owns the resource and it holds a stored read
-- grant for that resource whose chain is live.
pub resource_allowed_iff :
    (p owner : String) (resource : MockResource) (grants : List Grant) (now : Instant)
    → ((evaluate_resource_access p owner resource grants now).allowed ≡ true) ↔ (
        (resource.owner_id ≡ owner)
        × ((g : Grant) × Authorizes grants p resource_read resource.id now g
            × ((evaluate_resource_access p owner resource grants now).grant_id ≡ some g.id)))
unfolding evaluate_resource_access
resource_allowed_iff p owner resource grants now =
    elim (Option-cases (active_grant grants p resource_read resource.id now).grant) [
      | inl e ↦ (
        λ h. cc (let q : false ≡ true = ground arith in q),
        λ w. absurd (active_grant_complete grants p resource_read resource.id now w.1.0 w.1.1 e),
      )
      | inr (g, e) ↦ (
        λ h.
            let o : (resource.owner_id == owner) ≡ true = ground arith in
            (
              (eq_iff resource.owner_id owner).0 o,
              (g, active_grant_sound grants p resource_read resource.id now g e, ground arith),
            ),
        λ w. ground (arith, (eq_iff resource.owner_id owner).1 w.0),
      )
    ]
