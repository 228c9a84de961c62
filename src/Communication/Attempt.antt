-- ===== src/Communication/Attempt.antt =====
-- What a call into the participants comes to: a value, an InitializationException, or a call through
-- a null pointer, where the database has no such participant.

use ddsproxy.Common.{◌≡◌, refl}

pub data Attempt {ℓ} (A : Type ℓ) : Type ℓ where
  made : A → Attempt A
  init_failed : Attempt A
  null_pointer : Attempt A

infixl 5 ◌>>=◌
abbrev pub ◌>>=◌ {ℓ κ} : {A : Type ℓ} {B : Type κ} → Attempt A → (A → Attempt B) → Attempt B
made a >>= f = f a
init_failed >>= f = init_failed
null_pointer >>= f = null_pointer

pub made-made {ℓ} : {A : Type ℓ} {a b : A} → made a ≡ made b → a ≡ b
made-made e = cc

pub >>=-eq-made {ℓ κ} :
    {A : Type ℓ} {B : Type κ} (m : Attempt A) (f : A → Attempt B) {b : B}
    → (m >>= f) ≡ made b
    → (a : A) × (m ≡ made a) × (f a ≡ made b)
>>=-eq-made (made a) f h = (a, refl, h)
>>=-eq-made init_failed f h = cc
>>=-eq-made null_pointer f h = cc
