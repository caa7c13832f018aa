-- ===== src/Scim/Sessions.antt =====
-- What steps of a handler do that only read the session.
use tiedie.Prelude.{if◌then◌else◌, ◌≡◌, refl, sym, ◌∙◌, ap, ◌≤◌, Bool, true, false, String, arith}
use tiedie.Python.{Exc, Result, ok, raise}
use tiedie.Python.Handlers.{Exec, Flow, value, returned, raised, lift, return_if, ◌>>=◌}
use tiedie.Json.{Json, Items, arr}
use tiedie.Scim.Devices.{
  Response, status_of, blow_an_error, error_of, Pending, Hook, listed_schemas, uncaught,
}

abbrev pub IsError : Response → Type 0
IsError r = 400 ≤ status_of r

pub error_of-IsError : (e : Exc) → IsError (error_of e)
error_of-IsError e = ground arith

pub uncaught-IsError : (e : Exc) → IsError (uncaught e)
uncaught-IsError e = ground arith

abbrev pub begin : {Db : Type 0} → Db → Pending Db
begin db = record { live = db; stored = db }

-- The session is as it was, and an early return is an error.
abbrev pub Leaves : {Db A : Type 0} → Pending Db → Flow Response A × Pending Db → Type 0
Leaves s (value a, t) = t ≡ s
Leaves s (returned r, t) = IsError r × (t ≡ s)
Leaves s (raised e, t) = t ≡ s

-- A hook that reads the database only.
abbrev pub IsHook : {Db Entry : Type 0} → Hook Db Entry → Type 0
IsHook {Db} {Entry} ext =
    (device_id : String) (body : Json) (e : Items × Entry) (s : Pending Db)
    → Leaves s (ext device_id body e s)

module _ {Db : Type 0} (s : Pending Db) where
  pub lift-Leaves : {A : Type 0} (r : Result A) → Leaves s (lift r s)
  lift-Leaves (ok a) = refl
  lift-Leaves (raise e) = refl

  pub lift-value :
      {A : Type 0} (r : Result A) (a : A)
      → ◌≡◌ {A = Flow Response A × Pending Db} (lift r s) (value a, s)
      → r ≡ ok a
  lift-value (ok b) a h = cc
  lift-value (raise e) a h = cc

  pub return_if-Leaves : (b : Bool) → Leaves s (return_if b (blow_an_error 400) s)
  return_if-Leaves true = (omega arith, refl)
  return_if-Leaves false = refl

  pub return_if-value :
      (b : Bool) (u : Unit {0})
      → ◌≡◌ {A = Flow Response (Unit {0}) × Pending Db}
          (return_if b (blow_an_error 400) s)
          (value u, s)
      → b ≡ false
  return_if-value true u h = cc
  return_if-value false u h = refl

  pub listed-Leaves : (r : Result Json) → Leaves s (listed_schemas r s)
  listed-Leaves r = ground arith

  pub listed-value :
      (r : Result Json) (schemas : Items)
      → listed_schemas r s ≡ (value schemas, s)
      → r ≡ ok (arr schemas)
  listed-value r schemas h = ground arith

  module _ {A B : Type 0} where
    pub bind-Leaves :
        (m : Exec (Pending Db) Response A) (f : A → Exec (Pending Db) Response B)
        → Leaves s (m s)
        → ((a : A) → Leaves s (f a s))
        → Leaves s ((m >>= f) s)
    bind-Leaves m f h k = by_result (m s) h
      where
        by_result : (x : Flow Response A × Pending Db) → Leaves s x → Leaves s (((λ _. x) >>= f) s)
        by_result (value a, t) e = rw e (k a)
        by_result (returned r, t) e = e
        by_result (raised x, t) e = e

    pub bind-value :
        (m : Exec (Pending Db) Response A) (f : A → Exec (Pending Db) Response B) (b : B)
        (t : Pending Db)
        → Leaves s (m s)
        → (m >>= f) s ≡ (value b, t)
        → (a : A) × (m s ≡ (value a, s)) × (f a s ≡ (value b, t))
    bind-value m f b t h e = by_result (m s) refl h e
      where
        by_result :
            (x : Flow Response A × Pending Db)
            → m s ≡ x
            → Leaves s x
            → ((λ _. x) >>= f) s ≡ (value b, t)
            → (a : A) × (m s ≡ (value a, s)) × (f a s ≡ (value b, t))
        by_result (value a, u) e same ends =
            (a, e ∙ ap (λ v. (value a, v)) same, ap (f a) (sym same) ∙ ends)
        by_result (returned r, u) e same ends = cc
        by_result (raised x, u) e same ends = cc

-- A hook that leaves a part of the entry alone.
abbrev pub KeepsField : {Db Entry A : Type 0} → (Entry → A) → Hook Db Entry → Type 0
KeepsField {Db} {Entry} field_of ext =
    (device_id : String) (body : Json) (e e' : Items × Entry) (s : Pending Db)
    → ext device_id body e s ≡ (value e', s)
    → field_of e'.1 ≡ field_of e.1

pub pair_of :
    {Db Entry : Type 0} (e e' : Items × Entry) (s : Pending Db)
    → ◌≡◌ {A = Flow Response (Items × Entry) × Pending Db} (value e, s) (value e', s)
    → e ≡ e'
pair_of e e' s h = cc

-- the end of a query for a row that must not exist
pub refuse-Leaves :
    {Db : Type 0} (s : Pending Db) (b : Bool) (e : Exc)
    → Leaves {A = Unit {0}} s ((if b then raised e else value tt), s)
refuse-Leaves s true e = refl
refuse-Leaves s false e = refl
