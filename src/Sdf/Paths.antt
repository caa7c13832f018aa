-- ===== src/Sdf/Paths.antt =====
-- What `navigate_sdf_model` reaches: the paths through nested dicts.
use mathlib.Core.Path.{subst, fun_ext}
use tiedie.Prelude.{
  inl, inr, ap, ◌∙◌, ◌≡◌, refl, ◌↔◌, some, List, [], ◌∷◌, ◌++◌, String, arith, Option-cases,
}
use tiedie.Python.{Exc, Result, ok, raise, value_error, ◌>>=◌, >>=_assoc, ok-injective}
use tiedie.Json.{Json, Fields, null, bool, num, str, arr, obj, find_field}
use tiedie.Sdf.{child, navigate_sdf_model}

-- `Reaches j path k`: from `j`, the keys of `path` lead down to `k`, through dicts only.
pub data Reaches : Json → List String → Json → Type 0 where
  here : {j : Json} → Reaches j [] j
  down :
      {fs : Fields} {k : String} {v : Json} {path : List String} {j : Json}
      → find_field k fs ≡ some v
      → Reaches v path j
      → Reaches (obj fs) (k ∷ path) j

child-Reaches :
    (current next : Json) (k : String) (path : List String) (j : Json)
    → child current k ≡ ok next
    → Reaches next path j
    → Reaches current (k ∷ path) j
unfolding child
child-Reaches (obj fs) next k path j h r = down (ground arith) r
child-Reaches null next k path j h r = cc
child-Reaches (bool b) next k path j h r = cc
child-Reaches (num n) next k path j h r = cc
child-Reaches (str s) next k path j h r = cc
child-Reaches (arr js) next k path j h r = cc

sound_from :
    (current : Json) (k : String) (path : List String) (j : Json) (m : Result Json)
    → child current k ≡ m
    → (m >>= λ next. navigate_sdf_model next path) ≡ ok j
    → ((next : Json) → navigate_sdf_model next path ≡ ok j → Reaches next path j)
    → Reaches current (k ∷ path) j
sound_from current k path j (ok next) e h ih = child-Reaches current next k path j e (ih next h)
sound_from current k path j (raise x) e h ih = cc

navigate_sound :
    (path : List String) (current j : Json)
    → navigate_sdf_model current path ≡ ok j
    → Reaches current path j
unfolding navigate_sdf_model
navigate_sound [] current j h = subst (Reaches current []) (ok-injective h) here
navigate_sound (k ∷ path) current j h =
    sound_from current k path j (child current k) refl h (λ next. navigate_sound path next j)

navigate_complete :
    {current : Json} {path : List String} {j : Json}
    → Reaches current path j
    → navigate_sdf_model current path ≡ ok j
unfolding navigate_sdf_model child
navigate_complete here = refl
navigate_complete (down e r) = rw e (navigate_complete r)

-- Navigation returns a value exactly when the path leads to it.
pub navigate-Reaches :
    (current : Json) (path : List String) (j : Json)
    → (navigate_sdf_model current path ≡ ok j) ↔ Reaches current path j
navigate-Reaches current path j = (navigate_sound path current j, navigate_complete)

-- Navigation along a joined path is navigation in two steps.
pub navigate-append :
    (path rest : List String) (current : Json)
    → navigate_sdf_model current (path ++ rest)
      ≡ (navigate_sdf_model current path >>= λ next. navigate_sdf_model next rest)
unfolding navigate_sdf_model
navigate-append [] rest current = refl
navigate-append (k ∷ path) rest current =
    ap (λ f. child current k >>= f) (fun_ext (navigate-append path rest))
    ∙ >>=_assoc (child current k) (λ next. navigate_sdf_model next path)
        (λ next. navigate_sdf_model next rest)

-- Whatever goes wrong on the way is a `ValueError`.
pub navigate-value_error :
    (path : List String) (current : Json) (e : Exc)
    → navigate_sdf_model current path ≡ raise e
    → e ≡ value_error
unfolding navigate_sdf_model child
navigate-value_error [] current e h = cc
navigate-value_error (k ∷ path) (obj fs) e h = elim (Option-cases (find_field k fs)) [
  | inl p ↦ ground arith
  | inr (v, p) ↦ navigate-value_error path v e (rw p at h)
]
navigate-value_error (k ∷ path) _ e h = ground arith
