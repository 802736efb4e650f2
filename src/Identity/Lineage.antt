-- ===== src/Identity/Lineage.antt =====
-- The well-formedness of the stored grants: ids are unique, and every grant was issued by a human or
-- was carved by its grantor from a wider grant that the grantor holds.
use mathlib.Core.List.{List, [], ◌∷◌}
use tik_tok_tech_jam.Base.{
  String, ◌==◌, ◌≡◌, refl, sym, ap, subst, ◌≢◌, inl, inr, Bool, true, none, some, ◌++◌, map, arith,
  eq_refl, find, In, In-append, In-map_inv, Bool-cases,
}
use tik_tok_tech_jam.Types.{Instant, human, Principal, Grant}
use tik_tok_tech_jam.Authority.{shape, is_narrower_than}
use tik_tok_tech_jam.Policies.Chain.{find_grant}
use tik_tok_tech_jam.Policies.Chain.Live.{Parent, Live, root, link, IsStored}
use tik_tok_tech_jam.Identity.Grants.{find_principal}

pub data HasLineage (principals : List Principal) (grants : List Grant) (g : Grant) : Type 0 where
  by_human :
      (p : Principal)
      → g.parent_grant_id ≡ none
      → find_principal g.granted_by principals ≡ some p
      → p.kind ≡ human
      → HasLineage principals grants g
  delegated :
      (p : Grant)
      → Parent grants g p
      → p.principal_id ≡ g.granted_by
      → is_narrower_than (shape g) (shape p) ≡ true
      → g.principal_id ≢ g.granted_by
      → HasLineage principals grants g

pub record IsLineage (principals : List Principal) (grants : List Grant) : Type 0 where
  pub stored : (g : Grant) → In g grants → IsStored grants g
  pub lineage : (g : Grant) → In g grants → HasLineage principals grants g

module _ (q : Grant → Bool) where
  pub find-append :
      (xs ys : List Grant) (a : Grant) → find q xs ≡ some a → find q (xs ++ ys) ≡ some a
  find-append [] ys a h = cc
  find-append (x ∷ xs) ys a h = ground (arith, find-append xs ys a)

  pub find-append_right : (xs ys : List Grant) → find q xs ≡ none → find q (xs ++ ys) ≡ find q ys
  find-append_right [] ys h = refl
  find-append_right (x ∷ xs) ys h = ground (arith, find-append_right xs ys)

  pub find-map :
      (f : Grant → Grant) (xs : List Grant) (a : Grant)
      → ((x : Grant) → q (f x) ≡ q x)
      → find q xs ≡ some a
      → find q (map f xs) ≡ some (f a)
  find-map f [] a k h = cc
  find-map f (x ∷ xs) a k h = elim (Bool-cases (q x)) [
    | inl e ↦ rw (k x, e) (ap (λ (o : Grant). some (f o)) (let s : x ≡ a = ground arith in s))
    | inr e ↦ rw (k x, e) (find-map f xs a k (ground arith))
  ]

-- storing one more grant
module _ (principals : List Principal) (grants : List Grant) (n : Grant) where
  pub Parent-append : (g p : Grant) → Parent grants g p → Parent (grants ++ n ∷ []) g p
  Parent-append g p k = record {
    id = k.id;
    recorded = k.recorded;
    stored = find-append (λ c. c.id == k.id) grants (n ∷ []) p k.stored;
  }

  HasLineage-append :
      (g : Grant) → HasLineage principals grants g → HasLineage principals (grants ++ n ∷ []) g
  HasLineage-append g (by_human p a b c) = by_human p a b c
  HasLineage-append g (delegated p k a b c) = delegated p (Parent-append g p k) a b c

  pub Live-append : (now : Instant) (g : Grant) → Live grants now g → Live (grants ++ n ∷ []) now g
  Live-append now _ (root g s r) = root g s r
  Live-append now _ (link g p s k e w d) =
      link g p s (Parent-append g p k) e w (Live-append now p d)

  pub IsStored-append : find_grant n.id grants ≡ none → IsStored (grants ++ n ∷ []) n
  IsStored-append fresh =
      rw (find-append_right (λ c. c.id == n.id) grants (n ∷ []) fresh)
        (ground (arith, eq_refl n.id))

  pub IsLineage-append :
      find_grant n.id grants ≡ none
      → HasLineage principals grants n
      → IsLineage principals grants
      → IsLineage principals (grants ++ n ∷ [])
  IsLineage-append fresh new w = record {
    stored = λ g m. elim (In-append grants (n ∷ []) g m) [
      | inl k ↦ find-append (λ c. c.id == g.id) grants (n ∷ []) g (w.stored g k)
      | inr (inl e) ↦ subst (IsStored (grants ++ n ∷ [])) (sym e) (IsStored-append fresh)
      | inr (inr k) ↦ absurd k
    ];
    lineage = λ g m. elim (In-append grants (n ∷ []) g m) [
      | inl k ↦ HasLineage-append g (w.lineage g k)
      | inr (inl e) ↦
          subst (HasLineage principals (grants ++ n ∷ [])) (sym e) (HasLineage-append n new)
      | inr (inr k) ↦ absurd k
    ];
  }

-- A change of the grants that touches none of the fields on which lineage rests, such as a revocation.
pub record Keeps (f : Grant → Grant) : Type 0 where
  pub id : (g : Grant) → (f g).id ≡ g.id
  pub holder : (g : Grant) → (f g).principal_id ≡ g.principal_id
  pub grantor : (g : Grant) → (f g).granted_by ≡ g.granted_by
  pub same_shape : (g : Grant) → shape (f g) ≡ shape g
  pub parent : (g : Grant) → (f g).parent_grant_id ≡ g.parent_grant_id

module _ (principals : List Principal) (grants : List Grant) (f : Grant → Grant) (k : Keeps f) where
  pub find_grant-map :
      (id : String) (p : Grant)
      → find_grant id grants ≡ some p
      → find_grant id (map f grants) ≡ some (f p)
  find_grant-map id p h = find-map (λ c. c.id == id) f grants p (λ x. ap (λ j. j == id) (k.id x)) h

  HasLineage-map :
      (g : Grant) → HasLineage principals grants g → HasLineage principals (map f grants) (f g)
  HasLineage-map g (by_human p a b c) = by_human p (cc (k.parent g, a)) (rw (k.grantor g) b) c
  HasLineage-map g (delegated p a b c d) =
      delegated (f p)
        (record {
          id = a.id;
          recorded = cc (k.parent g, a.recorded);
          stored = find_grant-map a.id p a.stored;
        })
        (cc (k.holder p, b, k.grantor g)) (rw (k.same_shape g, k.same_shape p) c)
        (λ e. d (cc (k.holder g, k.grantor g, e)))

  pub IsLineage-map : IsLineage principals grants → IsLineage principals (map f grants)
  IsLineage-map w = record {
    stored = λ h m.
        let (g, l, e) = In-map_inv f grants h m in
        subst (IsStored (map f grants)) (sym e) (
          subst (λ j. find_grant j (map f grants) ≡ some (f g)) (sym (k.id g))
            (find_grant-map g.id g (w.stored g l)));
    lineage = λ h m.
        let (g, l, e) = In-map_inv f grants h m in
        subst (HasLineage principals (map f grants)) (sym e) (HasLineage-map g (w.lineage g l));
  }
