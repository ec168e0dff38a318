-- ===== src/Prelude/Errors.antt =====
-- The status codes of includes/synapse/status.h and the results that carry them.
use Prim.Native.Nat.{ℕ}
use mathlib.Core.Path.{◌≡◌, refl}
use mathlib.Core.Logic.{◌⊎◌, inl, inr}
use mathlib.Core.Bool.{Bool, true, false}

-- The codes that the modelled functions return.
pub data Errno : Type 0 where
  einvarg enomem enotready efault einuse enotask epmax einvsyscall esyscall enoent : Errno

abbrev pub errno_value : Errno → ℕ
errno_value einvarg = 2
errno_value enomem = 3
errno_value enotready = 7
errno_value efault = 8
errno_value einuse = 10
errno_value enotask = 11
errno_value epmax = 12
errno_value einvsyscall = 13
errno_value esyscall = 14
errno_value enoent = 15

-- An `int` that is a value, or the negative of a code.
pub data Result {ℓ} (A : Type ℓ) : Type ℓ where
  ok : A → Result A
  err : Errno → Result A

-- EOK, or the negative of a code.
abbrev pub Status : Type 0
Status = Result (Unit {0})

abbrev pub eok : Status
eok = ok tt

-- `res < 0`
abbrev pub is_err {ℓ} : {A : Type ℓ} → Result A → Bool
is_err (ok a) = false
is_err (err e) = true

pub Result-cases {ℓ} :
    {A : Type ℓ} (r : Result A) → ((a : A) × (r ≡ ok a)) ⊎ ((e : Errno) × (r ≡ err e))
Result-cases (ok a) = inl (a, refl)
Result-cases (err e) = inr (e, refl)
