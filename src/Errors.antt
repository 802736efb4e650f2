-- ===== src/Errors.antt =====
-- apps/server/src/errors.ts and the error classes of run-policies.ts and identity.ts, as values.
pub mod Guards
use tik_tok_tech_jam.Base.{ℕ, String, Bool, true, false}
use tik_tok_tech_jam.Authority.{AuthorityDecision}

pub data RunPolicyKind : Type 0 where
  canary budget approval containment runtime_control authz egress anomaly : RunPolicyKind

-- `HttpError`, `RunPolicyViolationError`, `RunCancelledError`, `AuthorityDeniedError`, and any other.
pub data Failure : Type 0 where
  http : ℕ → String → Failure
  policy_violation : RunPolicyKind → ℕ → String → Failure
  run_cancelled : Failure
  authority_denied : AuthorityDecision → Failure
  thrown : String → Failure

pub data Result (A : Type 0) : Type 0 where
  ok : A → Result A
  err : Failure → Result A

infixl 5 ◌>>=◌ ◌>>◌
abbrev pub ◌>>=◌ : {A B : Type 0} → Result A → (A → Result B) → Result B
ok a >>= f = f a
err e >>= f = err e

abbrev pub ◌>>◌ : {B : Type 0} → Result (Unit {0}) → Result B → Result B
m >> k = m >>= λ _. k

-- `if (bad) throw e`
abbrev pub reject_if : Bool → Failure → Result (Unit {0})
reject_if true e = err e
reject_if false e = ok tt
