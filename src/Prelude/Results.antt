-- ===== src/Prelude/Results.antt =====
-- absl::Status and absl::StatusOr, with the codes that the program makes.
use mathlib.Core.Path.{◌≡◌, refl}
use mathlib.Core.Logic.{inl, inr, ◌⊎◌}
use mathlib.Core.Bool.{Bool, true, false}
use intrinsic_moveit.Prelude.Text.{Str}

pub data Code : Type 0 where
  invalid_argument not_found failed_precondition deadline_exceeded unavailable internal cancelled :
      Code
  -- A code that a library call returned and the program passes on.
  foreign : Code

-- A status that is not OK.
pub record Failure : Type 0 where
  pub code : Code
  pub message : Str

pub data Status : Type 0 where
  ok_status : Status
  failed : Failure → Status

pub data StatusOr {ℓ} (A : Type ℓ) : Type ℓ where
  ok : A → StatusOr A
  err : Failure → StatusOr A

infixl 5 ◌>>=◌ ◌>>◌
abbrev pub ◌>>=◌ {ℓ κ} : {A : Type ℓ} {B : Type κ} → StatusOr A → (A → StatusOr B) → StatusOr B
ok a >>= f = f a
err e >>= f = err e

abbrev pub ◌>>◌ {ℓ} : {B : Type ℓ} → StatusOr (Unit {0}) → StatusOr B → StatusOr B
m >> k = m >>= λ _. k

-- `return absl::…Error(message)`.
abbrev pub fail {ℓ} : {A : Type ℓ} → Code → Str → StatusOr A
fail c m = err (record { code = c; message = m })

-- The call goes on only if the test passes.
abbrev pub guard : Bool → Code → Str → StatusOr (Unit {0})
guard true c m = ok tt
guard false c m = fail c m

pub StatusOr-cases {ℓ} :
    {A : Type ℓ} (r : StatusOr A) → ((a : A) × (r ≡ ok a)) ⊎ ((e : Failure) × (r ≡ err e))
StatusOr-cases (ok a) = inl (a, refl)
StatusOr-cases (err e) = inr (e, refl)
