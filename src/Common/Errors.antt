-- ===== src/Common/Errors.antt =====
-- The exceptions that the modelled code throws, as values.

pub data Exception : Type 0 where
  inconsistency_exception : Exception
  configuration_exception : Exception
  initialization_exception : Exception
  value_not_allowed_exception : Exception
  disabled_exception : Exception

pub data Result {ℓ} (A : Type ℓ) : Type ℓ where
  ok : A → Result A
  throw : Exception → Result A

infixl 5 ◌>>=◌
abbrev pub ◌>>=◌ {ℓ κ} : {A : Type ℓ} {B : Type κ} → Result A → (A → Result B) → Result B
ok a >>= f = f a
throw e >>= f = throw e
