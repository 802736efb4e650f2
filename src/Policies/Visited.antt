-- ===== src/Policies/Visited.antt =====
-- The measure by which walks over the stored grants end: the grants whose id is not in a set yet.
use tik_tok_tech_jam.Base.{
  ℕ, suc, ◌≤◌, ◌<◌, String, ◌≡◌, inl, inr, false, List, [], ◌∷◌, arith, eq_refl, length, In,
  includes, if◌then◌else◌,
}
use tik_tok_tech_jam.Types.{Grant}

-- how many stored grants have not been visited
pub unvisited : List String → List Grant → ℕ
unvisited v [] = 0
unvisited v (g ∷ gs) = if includes v g.id then unvisited v gs else suc (unvisited v gs)

pub unvisited-le-length : (v : List String) (gs : List Grant) → unvisited v gs ≤ length gs
unfolding unvisited
unvisited-le-length v [] = omega arith
unvisited-le-length v (g ∷ gs) = ground (arith, unvisited-le-length v gs)

pub unvisited-cons-le :
    (x : String) (v : List String) (gs : List Grant) → unvisited (x ∷ v) gs ≤ unvisited v gs
unfolding unvisited
unvisited-cons-le x v [] = omega arith
unvisited-cons-le x v (g ∷ gs) = ground (arith, unvisited-cons-le x v gs)

pub unvisited-cons-lt :
    (g : Grant) (v : List String) (gs : List Grant)
    → In g gs
    → includes v g.id ≡ false
    → unvisited (g.id ∷ v) gs < unvisited v gs
unfolding unvisited
unvisited-cons-lt g v [] m h = absurd m
unvisited-cons-lt g v (x ∷ gs) (inl e) h =
    rw (← e) (ground (arith, unvisited-cons-le g.id v gs, eq_refl g.id))
unvisited-cons-lt g v (x ∷ gs) (inr m) h = ground (arith, unvisited-cons-lt g v gs m h)
