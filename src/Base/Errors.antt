-- ===== src/Base/Errors.antt =====
-- Exceptions as values: the classes that the code raises, without their messages.
use mathlib.Core.Path.{◌≡◌, refl}
use mathlib.Core.Bool.{Bool, true, false}

pub data Error : Type 0 where
  value_error type_error runtime_error key_error index_error recursion_error : Error
  handler_already_registered handler_not_registered : Error
  invalid_context invalid_node_returns graph_node_error : Error
  block_hook_not_registered block_not_resolved : Error
  timeout_error cancelled_error user_error : Error

pub data Result {ℓ} (A : Type ℓ) : Type ℓ where
  ok : A → Result A
  raise : Error → Result A

infixl 5 ◌>>=◌ ◌>>◌
abbrev pub ◌>>=◌ {ℓ κ} : {A : Type ℓ} {B : Type κ} → Result A → (A → Result B) → Result B
raise e >>= f = raise e
ok a >>= f = f a

-- `if test: raise error`
abbrev pub reject : Bool → Error → Result (Unit {0})
reject true e = raise e
reject false e = ok tt

module _ {ℓ κ} {A : Type ℓ} {B : Type κ} where
  -- A sequence that ends well has a first part that ends well, with the value for the second.
  pub >>=-eq-ok :
      (m : Result A) (f : A → Result B) {y : B}
      → m >>= f ≡ ok y
      → (x : A) × (m ≡ ok x) × (f x ≡ ok y)
  >>=-eq-ok (raise e) f h = absurd (cc h)
  >>=-eq-ok (ok x) f h = (x, refl, h)

abbrev pub is_ok {ℓ} : {A : Type ℓ} → Result A → Bool
is_ok (ok a) = true
is_ok (raise x) = false

abbrev pub ◌>>◌ {ℓ} : {B : Type ℓ} → Result (Unit {0}) → Result B → Result B
m >> k = m >>= λ _. k
