-- ===== src/Python/Handlers.antt =====
-- Request handlers: actions over a state that end in a value, an early return or a raise. What was
-- written before a raise stays written.
use tiedie.Prelude.{Bool, true, false}
use tiedie.Python.Defs.{Exc, Result}

pub data Flow (R A : Type 0) : Type 0 where
  value : A → Flow R A
  returned : R → Flow R A
  raised : Exc → Flow R A

abbrev pub Exec : Type 0 → Type 0 → Type 0 → Type 0
Exec S R A = S → Flow R A × S

module _ {S R A : Type 0} where
  abbrev pub pure : A → Exec S R A
  pure a s = (value a, s)

  -- `return r`
  abbrev pub return : R → Exec S R A
  return r s = (returned r, s)

  -- `raise e`
  abbrev pub throw : Exc → Exec S R A
  throw e s = (raised e, s)

  -- a call of a pure function that may raise
  abbrev pub lift : Result A → Exec S R A
  lift (Result.ok a) s = (value a, s)
  lift (Result.raise e) s = (raised e, s)

  abbrev pub gets : (S → A) → Exec S R A
  gets f s = (value (f s), s)

  -- a computation that reads the state and may end the handler
  abbrev pub reads : (S → Flow R A) → Exec S R A
  reads f s = (f s, s)

  -- `try: m except Exception as e: h e`; an early return passes through
  abbrev recover : Flow R A → (Exc → Exec S R A) → Exec S R A
  recover (value a) h s = (value a, s)
  recover (returned r) h s = (returned r, s)
  recover (raised e) h s = h e s

  abbrev pub try : Exec S R A → (Exc → Exec S R A) → Exec S R A
  try m h s = let r = m s in recover r.0 h r.1

module _ {S R : Type 0} where
  abbrev pub modify : (S → S) → Exec S R (Unit {0})
  modify f s = (value tt, f s)

  -- `if b: return r`
  abbrev pub return_if : Bool → R → Exec S R (Unit {0})
  return_if true r s = (returned r, s)
  return_if false r s = (value tt, s)

module _ {S R A B : Type 0} where
  abbrev continue : Flow R A → (A → Exec S R B) → Exec S R B
  continue (value a) f s = f a s
  continue (returned r) f s = (returned r, s)
  continue (raised e) f s = (raised e, s)

  infixl 10 ◌>>=◌ ◌>>◌
  abbrev pub ◌>>=◌ : Exec S R A → (A → Exec S R B) → Exec S R B
  ◌>>=◌ m f s = let r = m s in continue r.0 f r.1

  abbrev pub ◌>>◌ : Exec S R A → Exec S R B → Exec S R B
  ◌>>◌ m n s = let r = m s in continue r.0 (λ _. n) r.1

-- What the caller of a handler sees: its response, or that of an exception which nothing caught.
abbrev answer : {R : Type 0} → (Exc → R) → Flow R R → R
answer uncaught (value r) = r
answer uncaught (returned r) = r
answer uncaught (raised e) = uncaught e

abbrev pub serve : {S R : Type 0} → (Exc → R) → Exec S R R → S → R × S
serve uncaught m s = let r = m s in (answer uncaught r.0, r.1)
