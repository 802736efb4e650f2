-- ===== src/Policies/Chain.antt =====
-- `isGrantChainLive` of run-policies.ts: a delegated grant is live only if its whole chain is.
pub mod Total
pub mod Live
use tik_tok_tech_jam.Base.{
  ℕ, zero, suc, ◌+◌, String, ◌==◌, Bool, true, false, ◌||◌, Option, none, some, List, [], leb, find,
  length, is_some, get_or, includes, add, if◌then◌else◌,
}
use tik_tok_tech_jam.Types.{Instant, Grant}
use tik_tok_tech_jam.Authority.{shape, is_narrower_than}

-- `expiresAt !== null && expiresAt <= nowIso`
abbrev pub is_past : Option Instant → Instant → Bool
is_past none now = false
is_past (some t) now = leb t now

unfoldable pub is_spent : Grant → Instant → Bool
is_spent grant now = is_some grant.revoked_at || is_past grant.expires_at now

abbrev pub find_grant : String → List Grant → Option Grant
find_grant id grants = find (λ candidate. candidate.id == id) grants

-- the checks of a grant against its parent, before the parent's own chain counts
unfoldable pub follow : Grant → Grant → Option Bool → Option Bool
follow grant parent rest =
    if parent.principal_id == grant.granted_by
    then if is_narrower_than (shape grant) (shape parent) then rest else some false
    else some false

-- The recursion of the source on fuel. `none` means that the fuel ran out.
unfoldable pub chain_live : ℕ → Grant → List Grant → Instant → List String → Option Bool
chain_live zero grant grants now visiting = none
chain_live (suc fuel) grant grants now visiting =
    let above : Option Bool = elim grant.parent_grant_id [
      | none ↦ some true
      | some id ↦ elim (find_grant id grants) [
        | none ↦ some false
        | some parent ↦
            let rest = chain_live fuel parent grants now (add grant.id visiting) in
            follow grant parent rest
      ]
    ] in
    if includes visiting grant.id
    then some false
    else if is_spent grant now
    then some false
    else above

-- Two more than the stored grants: each call but the first is for a stored grant that was not visited.
abbrev pub chain_fuel : List Grant → ℕ
chain_fuel grants = suc (suc (length grants))

unfoldable pub is_grant_chain_live : Grant → List Grant → Instant → Bool
unfolding chain_live is_spent follow
is_grant_chain_live grant grants now =
    get_or (chain_live (chain_fuel grants) grant grants now []) false
