-- ===== src/Service/Secrets.antt =====
-- What `redact` takes out of a text.
use Prim.Native.String
use Prim.Native.String.{len, slice}
use Prim.Native.Char.{Char}
use text.Mathlib.TextBridge.{IsPrefix}
use text.Mathlib.TextEquality.{starts_with_iff}
use text.Mathlib.TextLemmas.{append_assoc, cons-append, nil-append, tail-eq_of_cons-eq, nil≢cons}
use tik_tok_tech_jam.Base.Text.{split, split_skip}
use tik_tok_tech_jam.Service.{without}
use tik_tok_tech_jam.Base.{
  ℕ, zero, suc, ◌-◌, ◌≡◌, ◌≢◌, refl, sym, ap, subst, ◌∙◌, String, ◌==◌, false, inl, inr, List, [],
  ◌∷◌, All, arith, eq_iff, Bool-cases, join, cons_first, starts_with, contains, text_length,
}

-- a text without its first characters
abbrev drop : ℕ → String → String
drop zero s = s
drop (suc n) String.[] = ""
drop (suc n) (String.◌∷◌ c s) = drop n s

join-cons_first :
    (separator : String) (c : Char) (ps : List String)
    → join separator (cons_first c ps) ≡ String.◌∷◌ c (join separator ps)
join-cons_first separator c [] = refl
join-cons_first separator c (p ∷ []) = refl
join-cons_first separator c (p ∷ q ∷ ps) = cons-append c p _

drop-append : (t r : String) → drop (text_length t) (String.◌++◌ t r) ≡ r
drop-append String.[] r = nil-append r
drop-append (String.◌∷◌ c t) r =
    subst (λ v. drop (suc (text_length t)) v ≡ r) (sym (cons-append c t r)) (drop-append t r)

-- a text that begins with another is that one and what follows it
after_prefix :
    (d c : Char) (t s : String)
    → IsPrefix (String.◌∷◌ d t) (String.◌∷◌ c s)
    → String.◌++◌ (String.◌∷◌ d t) (drop (text_length t) s) ≡ String.◌∷◌ c s
after_prefix d c t s (r, e) =
    let k : String.◌++◌ t r ≡ s = tail-eq_of_cons-eq (sym (cons-append d t r) ∙ e) in
    let l : drop (text_length t) s ≡ r =
      subst (λ v. drop (text_length t) v ≡ r) k (drop-append t r) in
    ap (λ v. String.◌++◌ (String.◌∷◌ d t) v) l ∙ e

abbrev IsCons : List String → Type 0
IsCons [] = ⊥
IsCons (p ∷ ps) = Unit

cons_first-IsCons : (c : Char) (ps : List String) → IsCons (cons_first c ps)
cons_first-IsCons c [] = tt
cons_first-IsCons c (p ∷ ps) = tt

join-cons :
    (sep p : String) (ps : List String)
    → IsCons ps
    → join sep (p ∷ ps) ≡ String.◌++◌ p (String.◌++◌ sep (join sep ps))
join-cons sep p [] h = absurd h
join-cons sep p (q ∷ ps) h = refl

module _ (d : Char) (t : String) where
  abbrev sep : String
  sep = String.◌∷◌ d t

  split_skip-IsCons : (n : ℕ) (s : String) → IsCons (split_skip n sep s)
  unfolding split_skip
  split_skip-IsCons zero String.[] = tt
  split_skip-IsCons (suc n) String.[] = tt
  split_skip-IsCons zero (String.◌∷◌ c s) = elim (Bool-cases (starts_with (String.◌∷◌ c s) sep)) [
    | inl e ↦ rw (e, split_skip) tt
    | inr e ↦ rw (e, split_skip) (cons_first-IsCons c (split_skip zero sep s))
  ]
  split_skip-IsCons (suc n) (String.◌∷◌ c s) = split_skip-IsCons n s

  join-split_skip : (n : ℕ) (s : String) → join sep (split_skip n sep s) ≡ drop n s
  unfolding split_skip
  join-split_skip zero String.[] = refl
  join-split_skip (suc n) String.[] = refl
  join-split_skip zero (String.◌∷◌ c s) = elim (Bool-cases (starts_with (String.◌∷◌ c s) sep)) [
    | inl e ↦
        let n = text_length t in
        let k : join sep ("" ∷ split_skip n sep s) ≡ String.◌∷◌ c s =
          join-cons sep "" (split_skip n sep s) (split_skip-IsCons n s)
          ∙ nil-append _
          ∙ ap (λ v. String.◌++◌ sep v) (join-split_skip n s)
          ∙ after_prefix d c t s ((starts_with_iff (String.◌∷◌ c s) sep).0 e) in
        let z : text_length sep - 1 ≡ n = omega arith in rw (e, split_skip) (rw z k)
    | inr e ↦
        rw (e, split_skip)
          (join-cons_first sep c (split_skip zero sep s)
            ∙ ap (λ v. String.◌∷◌ c v) (join-split_skip zero s))
  ]
  join-split_skip (suc n) (String.◌∷◌ c s) = join-split_skip n s

  -- the first piece, which begins what is left of the text, and none of the pieces contains the separator
  abbrev Free : String → List String → Type 0
  Free s [] = ⊥
  Free s (p ∷ ps) = IsPrefix p s × All (λ q. contains q sep ≡ false) (p ∷ ps)

  Free-All : (s : String) (ps : List String) → Free s ps → All (λ q. contains q sep ≡ false) ps
  Free-All s [] h = absurd h
  Free-All s (p ∷ ps) h = h.1

  empty-free : contains "" sep ≡ false
  empty-free = elim (Bool-cases ("" == sep)) [
    | inl e ↦ absurd (nil≢cons ((eq_iff "" sep).0 e))
    | inr e ↦ e
  ]

  cons-prefix :
      (c : Char) (p s : String) → IsPrefix p s → IsPrefix (String.◌∷◌ c p) (String.◌∷◌ c s)
  cons-prefix c p s (r, e) = (r, cons-append c p r ∙ ap (λ v. String.◌∷◌ c v) e)

  prefix_trans : (u v w : String) → IsPrefix u v → IsPrefix v w → IsPrefix u w
  prefix_trans u v w (r, e) (q, f) =
      (String.◌++◌ r q, sym (append_assoc u r q) ∙ ap (λ x. String.◌++◌ x q) e ∙ f)

  -- one more character in front of the first piece, where the separator does not begin
  cons_first-Free :
      (c : Char) (s : String) (ps : List String)
      → starts_with (String.◌∷◌ c s) sep ≡ false
      → Free s ps
      → Free (String.◌∷◌ c s) (cons_first c ps)
  cons_first-Free c s [] n h = absurd h
  cons_first-Free c s (p ∷ ps) n (k, all_) =
      let b : starts_with (String.◌∷◌ c p) sep ≡ false =
        elim (Bool-cases (starts_with (String.◌∷◌ c p) sep)) [
          | inr f ↦ f
          | inl t ↦
              let i =
                prefix_trans sep (String.◌∷◌ c p) (String.◌∷◌ c s)
                  ((starts_with_iff (String.◌∷◌ c p) sep).0 t) (cons-prefix c p s k) in
              cc ((starts_with_iff (String.◌∷◌ c s) sep).1 i, n)
        ] in
      (cons-prefix c p s k, (rw (b, all_.0) refl, all_.1))

  split_skip-Free : (n : ℕ) (s : String) → Free (drop n s) (split_skip n sep s)
  unfolding split_skip
  split_skip-Free zero String.[] = (("", nil-append ""), (empty-free, tt))
  split_skip-Free (suc n) String.[] = (("", nil-append ""), (empty-free, tt))
  split_skip-Free zero (String.◌∷◌ c s) = elim (Bool-cases (starts_with (String.◌∷◌ c s) sep)) [
    | inl e ↦
        rw (e, split_skip)
          (
            (String.◌∷◌ c s, nil-append (String.◌∷◌ c s)),
            (
              empty-free,
              Free-All (drop (text_length sep - 1) s) _ (split_skip-Free (text_length sep - 1) s),
            ),
          )
    | inr e ↦
        rw (e, split_skip) (cons_first-Free c s (split_skip zero sep s) e (split_skip-Free zero s))
  ]
  split_skip-Free (suc n) (String.◌∷◌ c s) = split_skip-Free n s

-- One turn of `redact`: the text is the pieces that it is cut in with the secret between them, what comes out is
-- the same pieces with `[redacted]` between them, and no piece contains the secret.
pub without-Free :
    (output secret : String)
    → secret ≢ ""
    → (ps : List String) × (join secret ps ≡ output)
      × (without output secret ≡ join "[redacted]" ps)
      × All (λ p. contains p secret ≡ false) ps
unfolding split
without-Free output String.[] h = absurd (h refl)
without-Free output (String.◌∷◌ d t) h =
    let secret = String.◌∷◌ d t in
    (
      split secret output,
      join-split_skip d t 0 output,
      elim (Bool-cases (secret == "")) [
        | inl e ↦ absurd (h ((eq_iff secret "").0 e))
        | inr e ↦ rw e refl
      ],
      Free-All d t output _ (split_skip-Free d t 0 output),
    )
