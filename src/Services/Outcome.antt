-- ===== src/Services/Outcome.antt =====
-- `Result<A, ServiceError>` with the panics of the code beside its errors.
use beam_init.Base.{Option, none, some, Bool, true, false}
use beam_init.Services.Types.{ServiceError}

pub data Outcome {ℓ} (A : Type ℓ) : Type ℓ where
  ok : A → Outcome A
  err : ServiceError → Outcome A
  panic : Outcome A

infixl 5 ◌>>=◌ ◌>>◌
abbrev pub ◌>>=◌ {ℓ κ} : {A : Type ℓ} {B : Type κ} → Outcome A → (A → Outcome B) → Outcome B
ok a >>= f = f a
err e >>= f = err e
panic >>= f = panic

abbrev pub ◌>>◌ {ℓ} : {B : Type ℓ} → Outcome (Unit {0}) → Outcome B → Outcome B
m >> k = m >>= λ _. k

-- `ok_or` and `let … else { return Err(…) }`.
abbrev pub ok_or {ℓ} : {A : Type ℓ} → Option A → ServiceError → Outcome A
ok_or none e = err e
ok_or (some a) e = ok a

-- `if test { return Err(e); }`.
abbrev pub fail_if : Bool → ServiceError → Outcome (Unit {0})
fail_if true e = err e
fail_if false e = ok tt
