-- ===== src/Service/Decisions.antt =====
-- A decision on an approval is final, whatever the service does afterwards.
use tik_tok_tech_jam.Base.{
  String, ◌≡◌, ◌≢◌, refl, sym, ap, ◌∙◌, Bool, true, false, not, inl, inr, Option, none, some, List,
  [], ◌∷◌, ◌++◌, map, filter, find_sound, filter_sound, arith, eq_iff, Bool-cases, In, In-append,
  In-map_inv,
}
use tik_tok_tech_jam.Types.{
  Instant, Database, ApprovalRequest, ApprovalStatus, pending, approved, denied, ApprovalActor,
}
use tik_tok_tech_jam.Errors.{ok}
use tik_tok_tech_jam.Errors.Guards.{Holds, bind-Holds, guard-Holds}
use tik_tok_tech_jam.Service.{AppConfig, ServiceState, append_run_event, update_first, found}
use tik_tok_tech_jam.Service.Lookups.{In-update_first}
use tik_tok_tech_jam.Service.Cancel.{is_pending, deny_each, awaited_by, denied_by}
use tik_tok_tech_jam.Service.Approvals.{
  of_approval, approval_in, attached, resolve_mutation, settled, resolution,
}

-- Every approval with the id has the status.
abbrev pub Decided : ApprovalStatus → String → List ApprovalRequest → Type 0
Decided status id approvals = (a : ApprovalRequest) → In a approvals → a.id ≡ id → a.status ≡ status

found-some : {A : Type 0} (what : String) (o : Option A) (a : A) → found what o ≡ ok a → o ≡ some a
found-some what none a h = cc
found-some what (some b) a h = cc

not_pending : (s : ApprovalStatus) → s ≢ pending → is_pending s ≡ false
not_pending pending h = absurd (h refl)
not_pending approved h = refl
not_pending denied h = refl

module _ (status : ApprovalStatus) (id : String) (n : status ≢ pending) where
  pub Decided-append :
      (xs : List ApprovalRequest) (x : ApprovalRequest)
      → x.id ≢ id
      → Decided status id xs
      → Decided status id (xs ++ x ∷ [])
  Decided-append xs x k h a m e = elim (In-append xs (x ∷ []) a m) [
    | inl o ↦ h a o e
    | inr (inl s) ↦ absurd (k (ap (λ y. y.id) (sym s) ∙ e))
    | inr (inr o) ↦ absurd o
  ]

  -- a change of every element that keeps the ids and the statuses
  pub Decided-map :
      (f : ApprovalRequest → ApprovalRequest) (xs : List ApprovalRequest)
      → ((a : ApprovalRequest) → (f a).id ≡ a.id)
      → ((a : ApprovalRequest) → (f a).status ≡ a.status)
      → Decided status id xs
      → Decided status id (map f xs)
  Decided-map f xs ids statuses h a m e =
      let (b, o, s) = In-map_inv f xs a m in
      ap (λ y. y.status) s ∙ statuses b ∙ h b o (sym (ids b) ∙ ap (λ y. y.id) (sym s) ∙ e)

  pub Decided-update :
      (p : ApprovalRequest → Bool) (f : ApprovalRequest → ApprovalRequest)
      (xs : List ApprovalRequest)
      → ((a : ApprovalRequest) → (f a).id ≡ a.id)
      → ((a : ApprovalRequest)
          → In a xs
          → p a ≡ true
          → a.id ≡ id
          → a.status ≡ status
          → (f a).status ≡ status)
      → Decided status id xs
      → Decided status id (update_first p f xs)
  Decided-update p f xs ids keeps h a m e = elim (In-update_first p f xs a m) [
    | inl o ↦ h a o e
    | inr (b, o, q, s) ↦
        let i : b.id ≡ id = sym (ids b) ∙ ap (λ y. y.id) (sym s) ∙ e in
        ap (λ y. y.status) s ∙ keeps b o q i (h b o i)
  ]

  pub Decided-filter :
      (p : ApprovalRequest → Bool) (xs : List ApprovalRequest)
      → Decided status id xs
      → Decided status id (filter p xs)
  Decided-filter p xs h a m e = h a (filter_sound p xs a m).1 e

  untouched :
      (agent_id : String) (x : ApprovalRequest) → x.status ≡ status → awaited_by agent_id x ≡ false
  untouched agent_id x h =
      let k : is_pending x.status ≡ false = not_pending x.status (λ e. n (sym h ∙ e)) in
      ground arith

  pub Decided-deny :
      (config : AppConfig) (event_id : String → String) (agent_id : String) (who : ApprovalActor)
      (now : Instant) (xs : List ApprovalRequest)
      → Decided status id xs
      → Decided status id (deny_each config event_id agent_id who now xs).0
  Decided-deny config event_id agent_id who now [] h a m e = absurd m
  Decided-deny config event_id agent_id who now (x ∷ xs) h a m e =
      let rest = Decided-deny config event_id agent_id who now xs (λ b o i. h b (inr o) i) in
      elim (Bool-cases (awaited_by agent_id x)) [
        | inl t ↦
            elim (let k : In a
                  (denied_by who now x ∷ (deny_each config event_id agent_id who now xs).0) =
                rw t at m in
              k) [
                | inl s ↦ cc (untouched agent_id x (h x (inl refl) (ap (λ y. y.id) (sym s) ∙ e)), t)
                | inr o ↦ rest a o e
              ]
        | inr f ↦
            elim (let k : In a (x ∷ (deny_each config event_id agent_id who now xs).0) =
                rw f at m in
              k) [ inl s ↦ h a (inl s) e | inr o ↦ rest a o e ]
      ]

  -- resolving goes to an approval that is pending
  pub Decided-resolve :
      (config : AppConfig) (registered : Option ApprovalRequest) (event_id x : String)
      (approve : Bool) (who : ApprovalActor) (now : Instant) (s : ServiceState) (db : Database)
      → Decided status id db.approvals
      → Holds
          (λ r. Decided status id r.1.approvals)
          (resolve_mutation config registered event_id x approve who now s db)
  unfolding resolve_mutation settled append_run_event
  Decided-resolve config registered event_id x approve who now s db h =
      bind-Holds _ (found "Approval request not found" (approval_in x db.approvals)) _ λ a found_a.
        guard-Holds _ (not (is_pending a.status)) _ _ λ waiting.
          guard-Holds _ (not (attached registered approve s db a)) _ _ λ still.
            Decided-update (of_approval a.id) (resolution approve who now) db.approvals (λ b. refl)
              (λ b o q i d.
                let m = (find_sound (of_approval x) db.approvals a (found-some _ _ a found_a)).1 in
                let k : a.id ≡ id = sym ((eq_iff b.id a.id).0 q) ∙ i in
                let j = not_pending a.status (λ e. n (sym (h a m k) ∙ e)) in cc (j, waiting))
              h
