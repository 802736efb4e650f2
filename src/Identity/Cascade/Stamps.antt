-- ===== src/Identity/Cascade/Stamps.antt =====
-- What `cascadeGrantRevocation` does to the stored grants.
use tik_tok_tech_jam.Base.{
  String, ◌≡◌, sym, subst, ◌↔◌, inl, inr, true, none, some, List, arith, map, filter, In, In-map,
  In-map_inv, Pointwise, Pointwise-map, includes, is_some, filter_sound, filter_complete,
  Bool-cases, Option-cases, if◌then◌else◌,
}
use tik_tok_tech_jam.Types.{Instant, Grant}
use tik_tok_tech_jam.Identity.Cascade.{closure, any_grant, is_due, cascade_grant_revocation}
use tik_tok_tech_jam.Identity.Cascade.Closure.{Descends, closure_iff}

-- Before and after, for one stored grant.
pub data Stamp (grants : List Grant) (id : String) (t : Instant) (g h : Grant) : Type 0 where
  revoked_now :
      Descends any_grant grants id g.id
      → g.revoked_at ≡ none
      → h ≡ record g { revoked_at = some t }
      → Stamp grants id t g h
  already_revoked : is_some g.revoked_at ≡ true → h ≡ g → Stamp grants id t g h
  unrelated : ¬ Descends any_grant grants id g.id → h ≡ g → Stamp grants id t g h

module _ (grants : List Grant) (id : String) (t : Instant) where
  abbrev set : List String
  set = closure any_grant grants id

  stamped : Grant → Grant
  stamped g = if is_due set g then record g { revoked_at = some t } else g

  stamped-Stamp : (g : Grant) → Stamp grants id t g (stamped g)
  unfolding stamped
  stamped-Stamp g = elim (Option-cases g.revoked_at) [
    | inr (r, e) ↦ already_revoked (ground (arith, e)) (ground (arith, e))
    | inl e ↦ elim (Bool-cases (includes set g.id)) [
      | inl d ↦ revoked_now ((closure_iff any_grant grants id g.id).1.0 d) e (ground (arith, e, d))
      | inr n ↦
          unrelated (λ k. cc (n, (closure_iff any_grant grants id g.id).1.1 k)) (ground (arith, n))
    ]
  ]

  -- The cascade revokes, at the given instant, every descendant that was live; a grant that was
  -- revoked before keeps its own instant, and no other grant changes.
  pub cascade_stamps : Pointwise (Stamp grants id t) grants (cascade_grant_revocation grants id t).0
  unfolding cascade_grant_revocation stamped
  cascade_stamps = Pointwise-map (Stamp grants id t) stamped grants (λ g m. stamped-Stamp g)

  -- The ids that it returns are those of the grants that it revoked.
  pub cascade_ids_iff :
      (x : String)
      → In x (cascade_grant_revocation grants id t).1 ↔ (
          (g : Grant) × In g grants
          × (x ≡ g.id)
          × (g.revoked_at ≡ none)
          × Descends any_grant grants id g.id)
  unfolding cascade_grant_revocation
  cascade_ids_iff x = (
    λ m.
        let (g, k, e) = In-map_inv (λ (g : Grant). g.id) (filter (is_due set) grants) x m in
        let (due, l) = filter_sound (is_due set) grants g k in
        (
          g,
          l,
          e,
          ground (arith, due),
          (closure_iff any_grant grants id g.id).1.0 (ground (arith, due)),
        ),
    λ w.
        let (g, l, e, r, d) = w in
        let k : includes set g.id ≡ true = (closure_iff any_grant grants id g.id).1.1 d in
        subst (λ y. In y (map (λ (g : Grant). g.id) (filter (is_due set) grants))) (sym e)
          (In-map (λ (g : Grant). g.id) (filter (is_due set) grants) g
            (filter_complete (is_due set) grants g l (ground (arith, r, k)))),
  )
