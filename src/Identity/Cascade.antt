-- ===== src/Identity/Cascade.antt =====
-- The revocation loops of identity.ts. `cascadeGrantRevocation` follows every delegated grant, and
-- the loop of `revokeGrant` follows those that are not revoked: `eligible` is the one difference.
pub mod Closure
pub mod Stamps
use tik_tok_tech_jam.Base.{
  ℕ, zero, suc, String, Bool, true, false, not, ◌&&◌, Option, none, some, List, [], ◌∷◌, map,
  filter, length, is_none, get_or, includes, add, if◌then◌else◌,
}
use tik_tok_tech_jam.Types.{Instant, Grant}

module _ (eligible : Grant → Bool) where
  unfoldable pub joins : List String → Grant → Bool
  joins set g = elim g.parent_grant_id [
    | none ↦ false
    | some parent ↦ eligible g && includes set parent && not (includes set g.id)
  ]

  -- the `for` loop, with the flag that it leaves
  unfoldable pub sweep : List Grant → List String → Bool → List String × Bool
  sweep [] set grew = (set, grew)
  sweep (g ∷ gs) set grew =
      sweep gs (if joins set g then add g.id set else set) (if joins set g then true else grew)

  -- the `while` loop, on fuel
  unfoldable pub spread : ℕ → List Grant → List String → Option (List String)
  unfolding sweep
  spread zero grants set = none
  spread (suc fuel) grants set =
      let next = sweep grants set false in
      let rest = spread fuel grants next.0 in if next.1 then rest else some next.0

  -- One more round than there are grants: each round but the last adds the id of one.
  unfoldable pub closure : List Grant → String → List String
  unfolding spread joins
  closure grants id = get_or (spread (suc (length grants)) grants (id ∷ [])) (id ∷ [])

abbrev pub any_grant : Grant → Bool
any_grant g = true

abbrev pub unrevoked : Grant → Bool
unrevoked g = is_none g.revoked_at

abbrev pub is_due : List String → Grant → Bool
is_due set g = includes set g.id && unrevoked g

-- The grants after `cascadeGrantRevocation`, and the ids that it returns.
unfoldable pub cascade_grant_revocation : List Grant → String → Instant → List Grant × List String
unfolding closure
cascade_grant_revocation grants grant_id revoked_at =
    let set = closure any_grant grants grant_id in
    (
      map (λ g. if is_due set g then record g { revoked_at = some revoked_at } else g) grants,
      map (λ g. g.id) (filter (is_due set) grants),
    )
