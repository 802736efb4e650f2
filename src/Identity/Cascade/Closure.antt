-- ===== src/Identity/Cascade/Closure.antt =====
-- The set that the loops compute is the set of descendants.
use tik_tok_tech_jam.Base.{
  ℕ, zero, suc, ◌≤◌, ◌<◌, String, ◌≡◌, refl, sym, subst, ◌↔◌, inl, inr, Bool, true, false, some,
  List, [], ◌∷◌, arith, eq_iff, eq_refl, length, In, includes, add, Bool-cases, Option-cases,
}
use tik_tok_tech_jam.Types.{Grant}
use tik_tok_tech_jam.Policies.Visited.{unvisited, unvisited-le-length, unvisited-cons-lt}
use tik_tok_tech_jam.Identity.Cascade.{joins, sweep, spread, closure}

-- An id descends from the root if it is the root, or belongs to an eligible grant whose parent descends.
pub data Descends (eligible : Grant → Bool) (grants : List Grant) (root : String)
    : String → Type 0 where
  start : Descends eligible grants root root
  child :
      (g : Grant) (parent : String)
      → In g grants
      → eligible g ≡ true
      → g.parent_grant_id ≡ some parent
      → Descends eligible grants root parent
      → Descends eligible grants root g.id

module _ (eligible : Grant → Bool) (grants : List Grant) where
  joins-parent :
      (set : List String) (g : Grant)
      → joins eligible set g ≡ true
      → (p : String) × (g.parent_grant_id ≡ some p)
        × (eligible g ≡ true)
        × (includes set p ≡ true)
        × (includes set g.id ≡ false)
  unfolding joins
  joins-parent set g h = elim (Option-cases g.parent_grant_id) [
    | inl e ↦ cc (let q : false ≡ true = ground arith in q)
    | inr (p, e) ↦ (p, e, ground arith, ground arith, ground arith)
  ]

  -- a round ends with the flag down only if it changed nothing and nothing could join
  sweep-quiet :
      (gs : List Grant) (set : List String) (grew : Bool)
      → (sweep eligible gs set grew).1 ≡ false
      → (grew ≡ false)
        × ((sweep eligible gs set grew).0 ≡ set)
        × ((g : Grant) → In g gs → joins eligible set g ≡ false)
  unfolding sweep
  sweep-quiet [] set grew h = (h, refl, λ g m. absurd m)
  sweep-quiet (x ∷ gs) set grew h = elim (Bool-cases (joins eligible set x)) [
    | inl e ↦ cc ((sweep-quiet gs (add x.id set) true (ground arith)).0)
    | inr e ↦ let (a, b, c) = sweep-quiet gs set grew (ground arith) in (a, ground arith, here e c)
  ]
    where
      here :
          joins eligible set x ≡ false
          → ((g : Grant) → In g gs → joins eligible set g ≡ false)
          → (g : Grant) → In g (x ∷ gs)
          → joins eligible set g ≡ false
      here e c g (inl s) = subst (λ y. joins eligible set y ≡ false) (sym s) e
      here e c g (inr m) = c g m

  sweep-joined :
      (g : Grant) (gs : List Grant) (set : List String) (grew : Bool)
      → joins eligible set g ≡ true
      → sweep eligible (g ∷ gs) set grew ≡ sweep eligible gs (add g.id set) true
  unfolding sweep
  sweep-joined g gs set grew e = ground arith

  sweep-passed :
      (g : Grant) (gs : List Grant) (set : List String) (grew : Bool)
      → joins eligible set g ≡ false
      → sweep eligible (g ∷ gs) set grew ≡ sweep eligible gs set grew
  unfolding sweep
  sweep-passed g gs set grew e = ground arith

  sweep-keeps :
      (gs : List Grant) (set : List String) (grew : Bool) (x : String)
      → includes set x ≡ true
      → includes (sweep eligible gs set grew).0 x ≡ true
  unfolding sweep
  sweep-keeps [] set grew x h = h
  sweep-keeps (g ∷ gs) set grew x h = elim (Bool-cases (joins eligible set g)) [
    | inl e ↦
        rw (sweep-joined g gs set grew e) (sweep-keeps gs (add g.id set) true x (ground arith))
    | inr e ↦ rw (sweep-passed g gs set grew e) (sweep-keeps gs set grew x h)
  ]

  sweep-Descends :
      (root : String) (gs : List Grant) (set : List String) (grew : Bool)
      → ((g : Grant) → In g gs → In g grants)
      → ((x : String) → includes set x ≡ true → Descends eligible grants root x)
      → (x : String) → includes (sweep eligible gs set grew).0 x ≡ true
      → Descends eligible grants root x
  unfolding sweep
  sweep-Descends root [] set grew sub all x h = all x h
  sweep-Descends root (g ∷ gs) set grew sub all x h = elim (Bool-cases (joins eligible set g)) [
    | inl e ↦
        sweep-Descends root gs (add g.id set) true (λ y m. sub y (inr m)) (more e) x (ground arith)
    | inr e ↦ sweep-Descends root gs set grew (λ y m. sub y (inr m)) all x (ground arith)
  ]
    where
      more :
          joins eligible set g ≡ true
          → (x : String) → includes (add g.id set) x ≡ true
          → Descends eligible grants root x
      more e x k = elim (Bool-cases (includes set x)) [
        | inl old ↦ all x old
        | inr new ↦
            let (p, a, b, c, d) = joins-parent set g e in
            let s : x ≡ g.id = (eq_iff x g.id).0 (ground arith) in
            subst (Descends eligible grants root) (sym s)
              (child g p (sub g (inl refl)) b a (all p c))
      ]

  sweep-le :
      (gs : List Grant) (set : List String) (grew : Bool)
      → ((g : Grant) → In g gs → In g grants)
      → unvisited (sweep eligible gs set grew).0 grants ≤ unvisited set grants
  unfolding sweep
  sweep-le [] set grew sub = omega arith
  sweep-le (g ∷ gs) set grew sub = elim (Bool-cases (joins eligible set g)) [
    | inl e ↦
        let new = (joins-parent set g e).4 in
        rw (sweep-joined g gs set grew e, new)
          (omega (
            arith,
            sweep-le gs (g.id ∷ set) true (λ y m. sub y (inr m)),
            unvisited-cons-lt g set grants (sub g (inl refl)) new,
          ))
    | inr e ↦ rw (sweep-passed g gs set grew e) (sweep-le gs set grew (λ y m. sub y (inr m)))
  ]

  sweep-lt :
      (gs : List Grant) (set : List String)
      → ((g : Grant) → In g gs → In g grants)
      → (sweep eligible gs set false).1 ≡ true
      → unvisited (sweep eligible gs set false).0 grants < unvisited set grants
  unfolding sweep
  sweep-lt [] set sub h = cc
  sweep-lt (g ∷ gs) set sub h = elim (Bool-cases (joins eligible set g)) [
    | inl e ↦
        let new = (joins-parent set g e).4 in
        rw (sweep-joined g gs set false e, new)
          (omega (
            arith,
            sweep-le gs (g.id ∷ set) true (λ y m. sub y (inr m)),
            unvisited-cons-lt g set grants (sub g (inl refl)) new,
          ))
    | inr e ↦
        rw (sweep-passed g gs set false e) (sweep-lt gs set (λ y m. sub y (inr m)) (ground arith))
  ]

  -- the set that the rounds end with
  record Closed (root : String) (s : List String) : Type 0 where
    rooted : includes s root ≡ true
    sound : (x : String) → includes s x ≡ true → Descends eligible grants root x
    done : (g : Grant) → In g grants → joins eligible s g ≡ false

  spread-Closed :
      (root : String) (fuel : ℕ) (set : List String)
      → unvisited set grants < fuel
      → includes set root ≡ true
      → ((x : String) → includes set x ≡ true → Descends eligible grants root x)
      → (s : List String) × (spread eligible fuel grants set ≡ some s) × Closed root s
  unfolding spread
  spread-Closed root zero set lt r all = absurd (omega arith)
  spread-Closed root (suc fuel) set lt r all =
      let next : List String × Bool = sweep eligible grants set false in
      let below = sweep-Descends root grants set false (λ g m. m) all in
      let kept = sweep-keeps grants set false root r in
      elim (Bool-cases (sweep eligible grants set false).1) [
        | inl e ↦
            let (s, q, c) =
              spread-Closed root fuel (sweep eligible grants set false).0
                (omega (arith, sweep-lt grants set (λ g m. m) e)) kept below in
            (s, ground (arith, e, q), c)
        | inr e ↦
            let (a, b, quiet) = sweep-quiet grants set false e in
            (
              (sweep eligible grants set false).0,
              ground (arith, e),
              record {
                rooted = kept;
                sound = below;
                done = λ g m. subst (λ s. joins eligible s g ≡ false) (sym b) (quiet g m);
              },
            )
      ]

  Closed-complete :
      (root : String) (s : List String)
      → Closed root s
      → (x : String) → Descends eligible grants root x
      → includes s x ≡ true
  unfolding joins
  Closed-complete root s c x start = c.rooted
  Closed-complete root s c x (child g p m e q d) =
      ground (arith, e, q, Closed-complete root s c p d, c.done g m)

  closure-Closed :
      (root : String)
      → (s : List String) × (spread eligible (suc (length grants)) grants (root ∷ []) ≡ some s)
        × Closed root s
  closure-Closed root =
      spread-Closed root (suc (length grants)) (root ∷ [])
        (omega (arith, unvisited-le-length (root ∷ []) grants)) (ground (arith, eq_refl root))
        λ y h. subst (Descends eligible grants root) (sym ((eq_iff y root).0 (ground arith))) start

  -- The rounds end by the flag, within the fuel, and the set that they leave holds exactly the
  -- descendants of the root.
  pub closure_iff :
      (root x : String)
      → ((s : List String) × (spread eligible (suc (length grants)) grants (root ∷ []) ≡ some s))
        × ((includes (closure eligible grants root) x ≡ true) ↔ Descends eligible grants root x)
  unfolding closure
  closure_iff root x =
      let (s, e, c) = closure-Closed root in
      (
        (s, e),
        (λ h. c.sound x (ground (arith, e)), λ d. ground (arith, e, Closed-complete root s c x d)),
      )
