-- ===== src/Service/Answered.antt =====
-- A held request is always answered.
use tik_tok_tech_jam.Base.{
  String, ◌==◌, ◌≡◌, refl, Bool, true, false, not, inl, inr, Option, none, some, List, [], ◌∷◌,
  filter, arith, eq_refl, Bool-cases,
}
use tik_tok_tech_jam.Types.{Instant, ApprovalRequest, ApprovalActor}
use tik_tok_tech_jam.Errors.{Result, ok, err}
use tik_tok_tech_jam.Store.{Persist}
use tik_tok_tech_jam.Service.{AppConfig, ServiceState, mutate_in}
use tik_tok_tech_jam.Service.Approvals.{
  approval_in, deregister, is_answered, answer, answered, resolve_approval, clear_pending, caught,
  deny_held,
}

-- No registration is left under the id, and its promise is resolved.
abbrev pub Settled : String → ServiceState → Type 0
Settled id s = (approval_in id s.pending_approvals ≡ none) × (is_answered id s.answers ≡ true)

approval_in-filter :
    (id : String) (xs : List ApprovalRequest)
    → approval_in id (filter (λ a. not (a.id == id)) xs) ≡ none
approval_in-filter id [] = refl
approval_in-filter id (x ∷ xs) = elim (Bool-cases (x.id == id)) [
  | inl e ↦ rw e (approval_in-filter id xs)
  | inr e ↦ rw (e, e) (approval_in-filter id xs)
]

answer-Settled :
    (id : String) (b : Bool) (s : ServiceState) → Settled id (answer id b (deregister id s))
answer-Settled id b s = elim (Bool-cases (is_answered id s.answers)) [
  | inl e ↦ rw e (approval_in-filter id s.pending_approvals, e)
  | inr e ↦ rw e (approval_in-filter id s.pending_approvals, ground (arith, eq_refl id))
]

clear_pending-Settled :
    (id : String) (s : ServiceState) (p : ApprovalRequest)
    → approval_in id s.pending_approvals ≡ some p
    → Settled id (clear_pending id s)
unfolding clear_pending
clear_pending-Settled id s p h = rw (h, clear_pending) (answer-Settled id false s)

caught-Settled :
    (registered : Option ApprovalRequest) (id : String) (r : Result ApprovalRequest)
    (s : ServiceState) (p : ApprovalRequest)
    → approval_in id s.pending_approvals ≡ some p
    → Settled id (caught id (answered registered id false r s))
unfolding answered
caught-Settled registered id (err e) s p h = clear_pending-Settled id s p h
caught-Settled none id (ok a) s p h = clear_pending-Settled id s p h
caught-Settled (some q) id (ok a) s p h = answer-Settled id false s

-- When the timer or the closed connection of a held request strikes while its approval is registered, the
-- request is answered and the registration is gone, whatever the disk, the stored approval and its run are.
pub deny_held-Settled :
    (config : AppConfig) (persist : Persist) (others : ServiceState → ServiceState)
    (event_id id : String) (who : ApprovalActor) (now : Instant) (s : ServiceState)
    (p : ApprovalRequest)
    → approval_in id (others s).pending_approvals ≡ some p
    → Settled id (deny_held config persist others event_id id who now s)
unfolding deny_held resolve_approval mutate_in
deny_held-Settled config persist others event_id id who now s p h =
    caught-Settled (approval_in id s.pending_approvals) id _ _ p h
