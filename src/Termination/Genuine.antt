-- ===== src/Termination/Genuine.antt =====
-- A well-formed receipt that is signed with the key pair passes `verifyReceipt`.
use tik_tok_tech_jam.Base.{
  ◌==◌, ◌≡◌, refl, sym, ◌∙◌, ◌⊎◌, inl, inr, String, true, false, List, [], ◌∷◌, all, In, includes,
  arith, eq_iff, eq_refl,
}
use tik_tok_tech_jam.Termination.{
  freeze, revoke, kill, verify, TerminationStep, UnsignedReceipt, ReceiptKeyPair, object, no_more,
  receipt_fields, texts, field, string,
}
use tik_tok_tech_jam.Termination.Canonical.{canonicalize}
use tik_tok_tech_jam.Termination.Structure.{validate_receipt_structure, distinct_texts}
use tik_tok_tech_jam.Termination.Receipts.{
  Crypto, receipt_key_id, sign_receipt, signed_json, verify_fields, verify_receipt,
}

-- no text twice
abbrev pub Distinct : List String → Type 0
Distinct [] = Unit
Distinct (x ∷ xs) = (includes xs x ≡ false) × Distinct xs

-- The steps ran in one of the two orders, the second only after a freeze that failed; the ids are listed once;
-- and `contained` says that every step succeeded.
pub record IsWellFormed (r : UnsignedReceipt) : Type 0 where
  pub first : TerminationStep
  pub second : TerminationStep
  pub third : TerminationStep
  pub last : TerminationStep
  pub steps_are : r.steps ≡ first ∷ second ∷ third ∷ last ∷ []
  pub froze : first.step ≡ freeze
  pub between :
      ((second.step ≡ revoke) × (third.step ≡ kill))
      ⊎ ((first.ok ≡ false) × (second.step ≡ kill) × (third.step ≡ revoke))
  pub verified : last.step ≡ verify
  pub grants : Distinct r.grants_revoked
  pub memories : Distinct r.memories_quarantined
  pub claim : r.contained ≡ all (λ step. step.ok) r.steps

Disjoint : List String → List String → Type 0
Disjoint xs seen = (x : String) → In x xs → includes seen x ≡ false

includes-In : (x : String) (xs : List String) → In x xs → includes xs x ≡ true
includes-In x [] m = absurd m
includes-In x (y ∷ ys) (inl e) = rw e (ground (arith, eq_refl y))
includes-In x (y ∷ ys) (inr m) = ground (arith, includes-In x ys m)

distinct_texts-Distinct :
    (xs seen : List String) → Distinct xs → Disjoint xs seen → distinct_texts (texts xs) seen ≡ true
unfolding Disjoint
distinct_texts-Distinct [] seen d n = refl
distinct_texts-Distinct (x ∷ xs) seen d n = ground (
  arith,
  n x (inl refl),
  distinct_texts-Distinct xs (x ∷ seen) d.1 (λ y m. ground (
    arith,
    n y (inr m),
    d.0,
    eq_iff y x,
    let k : (y ≡ x → ⊥) =
          λ e. cc (let q : includes xs x ≡ true = rw (← e) (includes-In y xs m) in sym d.0 ∙ q) in
        k,
  )),
)

well_formed-validates :
    (r : UnsignedReceipt) (signature : String)
    → IsWellFormed r
    → validate_receipt_structure (signed_json r signature) ≡ true
unfolding validate_receipt_structure Disjoint
well_formed-validates r signature w =
    let g = distinct_texts-Distinct r.grants_revoked [] w.grants (λ x m. refl) in
    let m = distinct_texts-Distinct r.memories_quarantined [] w.memories (λ x m. refl) in
    rw (w.claim, w.steps_are)
      (elim w.between [
        | inl (b, c) ↦ rw (w.froze, b, c, w.verified) (ground (arith, g, m))
        | inr (f, b, c) ↦ rw (w.froze, b, c, w.verified) (ground (arith, g, m, f))
      ])

module _ (crypto : Crypto) (keys : ReceiptKeyPair) where
  -- The key pair matches: what the private key signs the public key accepts, and the id is the public key's.
  pub record Matches : Type 0 where
    pub accepts :
        (message : String)
        → crypto.verify message keys.public_key_pem (crypto.sign message keys.private_key_pem)
          ≡ true
    pub identified : keys.key_id ≡ receipt_key_id crypto keys.public_key_pem

  signed_fields-valid :
      Matches
      → (r : UnsignedReceipt) → r.key_id ≡ keys.key_id
      → (verify_fields crypto
          (receipt_fields r
            (field "signature" (string (sign_receipt crypto r keys.private_key_pem)) no_more))
          keys.public_key_pem).valid
        ≡ true
  unfolding verify_fields sign_receipt
  signed_fields-valid k r i =
      let m = canonicalize crypto.quote (object (receipt_fields r no_more)) in
      let key : (r.key_id == receipt_key_id crypto keys.public_key_pem) ≡ true =
        rw (i, k.identified) (eq_refl (receipt_key_id crypto keys.public_key_pem)) in
      ground (arith, key, k.accepts m)

  -- A well-formed receipt under the key's id, signed with the private key of a matching pair, is found valid
  -- with the public key.
  pub verify_receipt-sign_receipt :
      Matches
      → (r : UnsignedReceipt) → r.key_id ≡ keys.key_id
      → IsWellFormed r
      → (verify_receipt crypto
          (signed_json r (sign_receipt crypto r keys.private_key_pem))
          keys.public_key_pem).valid
        ≡ true
  unfolding verify_receipt
  verify_receipt-sign_receipt k r i w =
      let v = well_formed-validates r (sign_receipt crypto r keys.private_key_pem) w in
      rw v (signed_fields-valid k r i)
