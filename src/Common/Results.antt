-- ===== src/Common/Results.antt =====
-- A Go function that returns `(T, error)`. An error is classified the way the callers ask:
-- apierrors.IsNotFound, IsAlreadyExists, IsConflict, IsBadRequest, the two sentinels of the registry
-- client, or none of these. Wrapping by %w keeps the class. A Go panic is no error: it leaves every
-- function that does not recover.
use mathlib.Core.Bool.{Bool, true, false}

pub data Error : Type 0 where
  not_found already_exists conflict bad_request not_container_image no_platform other : Error

pub data Result {ℓ} (A : Type ℓ) : Type ℓ where
  ok : A → Result A
  err : Error → Result A
  panic : Result A

abbrev pub is_not_found : Error → Bool
is_not_found Error.not_found = true
is_not_found _ = false

abbrev pub is_already_exists : Error → Bool
is_already_exists Error.already_exists = true
is_already_exists _ = false

abbrev pub is_conflict : Error → Bool
is_conflict Error.conflict = true
is_conflict _ = false

-- `if err != nil { return err }`, and the code behind it.
infixl 5 ◌>>=◌ ◌>>◌
abbrev pub ◌>>=◌ {ℓ κ} : {A : Type ℓ} {B : Type κ} → Result A → (A → Result B) → Result B
err failure >>= next = err failure
panic >>= next = panic
ok value >>= next = next value

abbrev pub ◌>>◌ {ℓ κ} : {A : Type ℓ} {B : Type κ} → Result A → Result B → Result B
err failure >> after = err failure
panic >> after = panic
ok value >> after = after

abbrev pub is_ok {ℓ} : {A : Type ℓ} → Result A → Bool
is_ok (ok _) = true
is_ok _ = false
