-- ===== src/Python/Guarantees.antt =====
-- What a handler can guarantee of its value and of its early return, whatever it does to the state.
use tiedie.Prelude.{Bool, true, false}
use tiedie.Python.Defs.{Exc}
use tiedie.Python.Handlers.{Flow, value, returned, raised, Exec, return_if, try, ◌>>=◌, ◌>>◌}

-- The value has `P`, an early return has `Q`; an exception may always come instead.
abbrev pub Ends : {R A : Type 0} → (A → Type 0) → (R → Type 0) → Flow R A → Type 0
Ends P Q (value a) = P a
Ends P Q (returned r) = Q r
Ends P Q (raised e) = Unit {0}

module _ {S R A : Type 0} where
  -- `m` ends with `P` or `Q` from every state.
  abbrev pub Guarantees : (A → Type 0) → (R → Type 0) → Exec S R A → Type 0
  Guarantees P Q m = (s : S) → Ends P Q (m s).0

  recovers :
      (P : A → Type 0) (Q : R → Type 0) (x : Flow R A × S) (h : Exc → Exec S R A)
      → Ends P Q x.0
      → ((e : Exc) → Guarantees P Q (h e))
      → Ends P Q (try (λ _. x) h x.1).0
  recovers P Q (value a, s) h g k = g
  recovers P Q (returned r, s) h g k = g
  recovers P Q (raised e, s) h g k = k e s

  pub try-Guarantees :
      (P : A → Type 0) (Q : R → Type 0) (m : Exec S R A) (h : Exc → Exec S R A)
      → Guarantees P Q m
      → ((e : Exc) → Guarantees P Q (h e))
      → Guarantees P Q (try m h)
  try-Guarantees P Q m h g k s = recovers P Q (m s) h (g s) k

module _ {S R A B : Type 0} where
  continues :
      (P : A → Type 0) (P' : B → Type 0) (Q : R → Type 0) (x : Flow R A × S) (f : A → Exec S R B)
      → Ends P Q x.0
      → ((a : A) → P a → Guarantees P' Q (f a))
      → Ends P' Q (((λ _. x) >>= f) x.1).0
  continues P P' Q (value a, s) f g k = k a g s
  continues P P' Q (returned r, s) f g k = g
  continues P P' Q (raised e, s) f g k = tt

  pub bind-Guarantees :
      (P : A → Type 0) (P' : B → Type 0) (Q : R → Type 0) (m : Exec S R A) (f : A → Exec S R B)
      → Guarantees P Q m
      → ((a : A) → P a → Guarantees P' Q (f a))
      → Guarantees P' Q (m >>= f)
  bind-Guarantees P P' Q m f g k s = continues P P' Q (m s) f (g s) k

  pub then-Guarantees :
      (P : A → Type 0) (P' : B → Type 0) (Q : R → Type 0) (m : Exec S R A) (n : Exec S R B)
      → Guarantees P Q m
      → Guarantees P' Q n
      → Guarantees P' Q (m >> n)
  then-Guarantees P P' Q m n g k = bind-Guarantees P P' Q m (λ _. n) g (λ _ _. k)

-- An early return that has `Q`, or none.
pub return_if-Guarantees :
    {S R : Type 0} (P : Unit {0} → Type 0) (Q : R → Type 0) (b : Bool) (r : R)
    → P tt
    → Q r
    → Guarantees {S = S} P Q (return_if b r)
return_if-Guarantees P Q true r p q = λ s. q
return_if-Guarantees P Q false r p q = λ s. p
