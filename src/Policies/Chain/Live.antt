-- ===== src/Policies/Chain/Live.antt =====
-- What a live chain is, said as a derivation, and that the walk decides it.
use tik_tok_tech_jam.Base.{
  ℕ, zero, suc, ◌<◌, String, ◌==◌, ◌≡◌, refl, sym, ap, subst, ◌↔◌, inl, inr, Bool, true, false,
  Option, none, some, List, [], arith, eq_iff, find_sound, includes, add, Bool-cases, Option-cases,
}
use tik_tok_tech_jam.Types.{Instant, Grant}
use tik_tok_tech_jam.Authority.{shape, is_narrower_than}
use tik_tok_tech_jam.Authority.Order.{is_narrower_than_refl, is_narrower_than_trans}
use tik_tok_tech_jam.Policies.Chain.{
  find_grant, is_spent, follow, chain_live, chain_fuel, is_grant_chain_live,
}
use tik_tok_tech_jam.Policies.Chain.Total.{chain_live_total}

-- The stored parent of a grant is the first grant with the recorded id.
pub record Parent (grants : List Grant) (g p : Grant) : Type 0 where
  pub id : String
  pub recorded : g.parent_grant_id ≡ some id
  pub stored : find_grant id grants ≡ some p

pub data Live (grants : List Grant) (now : Instant) : Grant → Type 0 where
  root : (g : Grant) → is_spent g now ≡ false → g.parent_grant_id ≡ none → Live grants now g
  link :
      (g p : Grant)
      → is_spent g now ≡ false
      → Parent grants g p
      → p.principal_id ≡ g.granted_by
      → is_narrower_than (shape g) (shape p) ≡ true
      → Live grants now p
      → Live grants now g

-- the grant is the one that its id finds
abbrev pub IsStored : List Grant → Grant → Type 0
IsStored grants g = find_grant g.id grants ≡ some g

follow-eq-true :
    (g p : Grant) (rest : Option Bool)
    → follow g p rest ≡ some true
    → (p.principal_id ≡ g.granted_by)
      × (is_narrower_than (shape g) (shape p) ≡ true)
      × (rest ≡ some true)
unfolding follow
follow-eq-true g p rest h =
    ((eq_iff p.principal_id g.granted_by).0 (ground arith), ground arith, ground arith)

follow_of :
    (g p : Grant) (rest : Option Bool)
    → p.principal_id ≡ g.granted_by
    → is_narrower_than (shape g) (shape p) ≡ true
    → follow g p rest ≡ rest
unfolding follow
follow_of g p rest e n = ground (arith, (eq_iff p.principal_id g.granted_by).1 e)

module _ (gs : List Grant) (now : Instant) where
  height : {g : Grant} → Live gs now g → ℕ
  height (root g s r) = 0
  height (link g p s a e n d) = suc (height d)

  height_unique :
      (g g' : Grant) → g ≡ g' → (d : Live gs now g) (d' : Live gs now g') → height d ≡ height d'
  unfolding height
  height_unique g g' q (root _ s r) (root _ s' r') = refl
  height_unique g g' q (root _ s r) (link _ p s' a e n d) =
      cc (ap (λ (x : Grant). x.parent_grant_id) q, r, a.recorded)
  height_unique g g' q (link _ p s a e n d) (root _ s' r') =
      cc (ap (λ (x : Grant). x.parent_grant_id) q, r', a.recorded)
  height_unique g g' q (link _ p s a e n d) (link _ p' s' a' e' n' d') =
      ap suc (height_unique p p' (same a a' (ap (λ (x : Grant). x.parent_grant_id) q)) d d')
    where
      same :
          (a : Parent gs g p) (a' : Parent gs g' p')
          → g.parent_grant_id ≡ g'.parent_grant_id
          → p ≡ p'
      same a a' k =
          let i : a.id ≡ a'.id = cc (a.recorded, a'.recorded, k) in
          cc (a.stored, a'.stored, ap (λ j. find_grant j gs) i)

  chain_live_sound :
      (fuel : ℕ) (g : Grant) (v : List String)
      → chain_live fuel g gs now v ≡ some true
      → Live gs now g
  unfolding chain_live
  chain_live_sound zero g v h = cc
  chain_live_sound (suc fuel) g v h = elim (Bool-cases (is_spent g now)) [
    | inl s ↦ cc (let q : true ≡ false = ground arith in q)
    | inr s ↦ elim (Option-cases g.parent_grant_id) [
      | inl r ↦ root g s r
      | inr (id, r) ↦ elim (Option-cases (find_grant id gs)) [
        | inl q ↦ cc (let q : true ≡ false = ground arith in q)
        | inr (p, q) ↦
            let (e, n, up) =
              follow-eq-true g p (chain_live fuel p gs now (add g.id v)) (ground arith) in
            link g p s (record { id = id; recorded = r; stored = q }) e n
              (chain_live_sound fuel p (add g.id v) up)
      ]
    ]
  ]

  -- every visited id is that of a live stored grant further down the chain
  record Below (bound : ℕ) (id : String) : Type 0 where
    grant : Grant
    stored : find_grant id gs ≡ some grant
    live : Live gs now grant
    higher : bound < height live

  not_visited :
      (g : Grant) (v : List String) (d : Live gs now g)
      → IsStored gs g
      → ((x : String) → includes v x ≡ true → Below (height d) x)
      → includes v g.id ≡ false
  not_visited g v d st vis = elim (Bool-cases (includes v g.id)) [
    | inr e ↦ e
    | inl e ↦
        let b = vis g.id e in
        absurd (omega (arith, b.higher, height_unique g b.grant (cc (st, b.stored)) d b.live))
  ]

  -- a grant that is found by an id is the stored grant of its own id
  pub found-IsStored : (id : String) (p : Grant) → find_grant id gs ≡ some p → IsStored gs p
  found-IsStored id p q =
      let e : p.id ≡ id = (eq_iff p.id id).0 (find_sound (λ c. c.id == id) gs p q).0 in
      subst (λ j. find_grant j gs ≡ some p) (sym e) q

  visited_next :
      (g : Grant) (v : List String) (n : ℕ) (d : Live gs now g)
      → IsStored gs g
      → n < height d
      → includes v g.id ≡ false
      → ((x : String) → includes v x ≡ true → Below (height d) x)
      → (x : String) → includes (add g.id v) x ≡ true
      → Below n x
  visited_next g v n d st lt new vis x h = elim (Bool-cases (x == g.id)) [
    | inl e ↦ record {
      grant = g;
      stored = subst (λ j. find_grant j gs ≡ some g) (sym ((eq_iff x g.id).0 e)) st;
      live = d;
      higher = lt;
    }
    | inr e ↦
        let b = vis x (ground arith) in
        record {
          grant = b.grant;
          stored = b.stored;
          live = b.live;
          higher = omega (arith, b.higher);
        }
  ]

  chain_live_complete :
      (fuel : ℕ) (g : Grant) (v : List String) (d : Live gs now g)
      → IsStored gs g
      → ((x : String) → includes v x ≡ true → Below (height d) x)
      → (b : Bool) → chain_live fuel g gs now v ≡ some b
      → b ≡ true
  unfolding chain_live height
  chain_live_complete zero g v d st vis b h = cc
  chain_live_complete (suc fuel) g v (root _ s r) st vis b h =
      ground (arith, not_visited g v (root g s r) st vis)
  chain_live_complete (suc fuel) g v (link _ p s a e n d) st vis b h =
      let new : includes v g.id ≡ false = not_visited g v (link g p s a e n d) st vis in
      let up : chain_live fuel p gs now (add g.id v) ≡ some b =
        ground (
          arith,
          a.recorded,
          a.stored,
          follow_of g p (chain_live fuel p gs now (add g.id v)) e n,
        ) in
      chain_live_complete fuel p (add g.id v) d (found-IsStored a.id p a.stored)
        (visited_next g v (height d) (link g p s a e n d) st (omega arith) new vis) b up

-- A grant that its id finds passes the check exactly when its chain is live: no grant of the chain
-- is revoked or expired, each was issued by the holder of its parent, and each is narrower.
pub is_grant_chain_live_iff :
    (grants : List Grant) (now : Instant) (g : Grant)
    → IsStored grants g
    → (is_grant_chain_live g grants now ≡ true) ↔ Live grants now g
unfolding is_grant_chain_live
is_grant_chain_live_iff grants now g st =
    let (b, e) = chain_live_total grants now g in
    (
      λ h. chain_live_sound grants now (chain_fuel grants) g [] (ground (arith, e)),
      λ d.
          let t : b ≡ true =
            chain_live_complete grants now (chain_fuel grants) g [] d st (λ x k. cc) b e in
          ground (arith, e),
    )

-- What a live grant allows was granted at the root of its chain: the root has no parent, is neither
-- revoked nor expired, and the grant is no wider than it.
pub live_root :
    (grants : List Grant) (now : Instant) (g : Grant)
    → is_grant_chain_live g grants now ≡ true
    → (r : Grant) × (r.parent_grant_id ≡ none)
      × (is_spent r now ≡ false)
      × (is_narrower_than (shape g) (shape r) ≡ true)
unfolding is_grant_chain_live
live_root grants now g h =
    let (b, e) = chain_live_total grants now g in
    top g (chain_live_sound grants now (chain_fuel grants) g [] (ground (arith, e)))
  where
    top :
        (g : Grant)
        → Live grants now g
        → (r : Grant) × (r.parent_grant_id ≡ none)
          × (is_spent r now ≡ false)
          × (is_narrower_than (shape g) (shape r) ≡ true)
    top _ (root g s r) = (g, r, s, is_narrower_than_refl (shape g))
    top _ (link g p s a e n d) =
        let (r, top_level, s', m) = top p d in
        (r, top_level, s', is_narrower_than_trans (shape g) (shape p) (shape r) n m)

-- `a` is the grant itself or stands further up its chain.
pub data Ancestor (grants : List Grant) (a : Grant) : Grant → Type 0 where
  itself : Ancestor grants a a
  above : (g p : Grant) → Parent grants g p → Ancestor grants a p → Ancestor grants a g

Live-Ancestor :
    (grants : List Grant) (now : Instant) (a g : Grant)
    → Ancestor grants a g
    → Live grants now g
    → is_spent a now ≡ false
Live-Ancestor grants now a _ itself (root g s r) = s
Live-Ancestor grants now a _ itself (link g p s k e n d) = s
Live-Ancestor grants now a _ (above g p k up) (root _ s r) = cc (k.recorded, r)
Live-Ancestor grants now a _ (above g p k up) (link _ p' s k' e n d) =
    Live-Ancestor grants now a p up (
      let i : k.id ≡ k'.id = cc (k.recorded, k'.recorded) in
      let q : p' ≡ p = cc (k.stored, k'.stored, ap (λ j. find_grant j grants) i) in
      subst (Live grants now) q d)

-- Revoking a grant, or its expiry, ends every grant delegated from it, at any depth, whether or not
-- the revocation was passed on to the copies.
pub spent-Ancestor_ends :
    (grants : List Grant) (now : Instant) (a g : Grant)
    → Ancestor grants a g
    → is_spent a now ≡ true
    → is_grant_chain_live g grants now ≡ false
unfolding is_grant_chain_live
spent-Ancestor_ends grants now a g up s = elim (Bool-cases (is_grant_chain_live g grants now)) [
  | inr e ↦ e
  | inl e ↦
      let (b, t) = chain_live_total grants now g in
      cc (
        s,
        Live-Ancestor grants now a g up
            (chain_live_sound grants now (chain_fuel grants) g [] (ground (arith, t))),
      )
]
