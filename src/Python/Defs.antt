-- ===== src/Python/Defs.antt =====
-- Exceptions and control flow of the Python code. A pure function that may raise returns a
-- `Result`. A request handler is an action of `Exec`: it may also return early, and what it wrote
-- before a raise stays written. The messages of the exceptions are not modelled.
use tiedie.Prelude.{◌≡◌, refl}

pub data Exc : Type 0 where
  value_error key_error type_error attribute_error index_error : Exc
  schema_error device_exists mab_not_supported fdo_not_supported ise_error : Exc
  ble_connection_error ble_discovery_error ble_read_error ble_write_error : Exc
  ble_subscribe_error ble_unsubscribe_error ble_disconnect_error : Exc
  database_error runtime_error bad_request : Exc

pub data Result {ℓ} (A : Type ℓ) : Type ℓ where
  ok : A → Result A
  raise : Exc → Result A

infixl 5 ◌>>=◌
abbrev pub ◌>>=◌ {ℓ κ} : {A : Type ℓ} {B : Type κ} → Result A → (A → Result B) → Result B
ok a >>= f = f a
raise e >>= f = raise e

pub >>=_assoc {ℓ κ μ} :
    {A : Type ℓ} {B : Type κ} {C : Type μ} (m : Result A) (f : A → Result B) (g : B → Result C)
    → (m >>= λ a. f a >>= g) ≡ (m >>= f >>= g)
>>=_assoc (ok a) f g = refl
>>=_assoc (raise e) f g = refl

pub ok-injective {ℓ} : {A : Type ℓ} {a b : A} → ok a ≡ ok b → a ≡ b
ok-injective h = cc
