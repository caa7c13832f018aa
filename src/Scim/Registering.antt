-- ===== src/Scim/Registering.antt =====
-- What the registry holds after any registrations.
use tiedie.Prelude.{
  ◌≡◌, refl, ap, sym, ◌∙◌, Bool, true, false, not, ◌||◌, List, [], ◌∷◌, ◌++◌, map, append_assoc,
  append-nil, if◌then◌else◌, Eq, keep, arith, Bool-cases, inl, inr,
}
use tiedie.Scim.Extensions.{
  elem, Hooks, Extension, reset_scim_extensions, append_unique, register_scim_extension,
  register_all,
}

module _ {F : Type 0} ⦃e : Eq F⦄ where
  -- the elements of a list, each where it stands first
  unfoldable pub firsts : List F → List F
  firsts [] = []
  firsts (x ∷ xs) = x ∷ keep (λ y. not (e.beq x y)) (firsts xs)

  abbrev absent : List F → F → Bool
  absent acc y = not (elem y acc)

  unfoldable append_all : List F → List F → List F
  append_all [] acc = acc
  append_all (x ∷ xs) acc = append_all xs (append_unique acc x)

  elem-append : (y : F) (xs ys : List F) → elem y (xs ++ ys) ≡ (elem y xs || elem y ys)
  unfolding elem
  elem-append y [] ys = refl
  elem-append y (x ∷ xs) ys = ground (arith, elem-append y xs ys)

  keep-keep :
      (p q r : F → Bool) (xs : List F)
      → ((y : F) → (if q y then p y else false) ≡ r y)
      → keep p (keep q xs) ≡ keep r xs
  unfolding keep
  keep-keep p q r [] h = refl
  keep-keep p q r (x ∷ xs) h = ground (arith, keep-keep p q r xs h, h x)

  keep-true : (xs : List F) → keep (λ y. not false) xs ≡ xs
  unfolding keep
  keep-true [] = refl
  keep-true (x ∷ xs) = ap (λ ys. x ∷ ys) (keep-true xs)

  -- a function that is there is found whichever equal name it has
  elem-beq : (x y : F) (acc : List F) → e.beq x y ≡ true → elem x acc ≡ true → elem y acc ≡ true
  elem-beq x y acc same h = rw (← (e.beq_iff x y).0 same) h

  append_all-firsts : (xs acc : List F) → append_all xs acc ≡ acc ++ keep (absent acc) (firsts xs)
  unfolding append_all firsts keep append_unique elem
  append_all-firsts [] acc = sym (append-nil acc)
  append_all-firsts (x ∷ xs) acc = elim (Bool-cases (elem x acc)) [
    | inl old ↦ known old (append_all-firsts xs acc)
    | inr fresh ↦ unknown fresh (append_all-firsts xs (acc ++ x ∷ []))
  ]
    where
      still_absent :
          elem x acc ≡ true
          → (y : F) → (if not (e.beq x y) then absent acc y else false) ≡ absent acc y
      still_absent old y = by_test (e.beq x y) refl
        where
          by_test :
              (b : Bool) → e.beq x y ≡ b → (if not b then absent acc y else false) ≡ absent acc y
          by_test true same = sym (ap not (elem-beq x y acc same old))
          by_test false other = refl

      known :
          elem x acc ≡ true
          → append_all xs acc ≡ acc ++ keep (absent acc) (firsts xs)
          → append_all (x ∷ xs) acc ≡ acc ++ keep (absent acc) (firsts (x ∷ xs))
      known old rest = rw old (
          rest
          ∙ ap (λ ys. acc ++ ys)
              (sym (
                keep-keep (absent acc) (λ y. not (e.beq x y)) (absent acc) (firsts xs)
                  (still_absent old))))

      absent_after :
          (y : F) → (if not (e.beq x y) then absent acc y else false) ≡ absent (acc ++ x ∷ []) y
      absent_after y = ground (arith, elem-append y acc (x ∷ []))

      unknown :
          elem x acc ≡ false
          → append_all xs (acc ++ x ∷ [])
            ≡ (acc ++ x ∷ []) ++ keep (absent (acc ++ x ∷ [])) (firsts xs)
          → append_all (x ∷ xs) acc ≡ acc ++ keep (absent acc) (firsts (x ∷ xs))
      unknown fresh rest = rw fresh (
          rest
          ∙ append_assoc acc (x ∷ []) (keep (absent (acc ++ x ∷ [])) (firsts xs))
          ∙ ap (λ ys. acc ++ x ∷ ys)
              (sym (
                keep-keep (absent acc) (λ y. not (e.beq x y)) (absent (acc ++ x ∷ [])) (firsts xs)
                  absent_after)))

  register_all-append_all :
      (xs : List (Extension F)) (h : Hooks F)
      → register_all xs h ≡ record {
        scim_ext_create = append_all (map (λ x. x.create_fn) xs) h.scim_ext_create;
        scim_ext_read = append_all (map (λ x. x.read_fn) xs) h.scim_ext_read;
        scim_ext_update = append_all (map (λ x. x.update_fn) xs) h.scim_ext_update;
        scim_ext_delete = append_all (map (λ x. x.delete_fn) xs) h.scim_ext_delete;
      }
  unfolding register_all append_all register_scim_extension
  register_all-append_all [] h = refl
  register_all-append_all (x ∷ xs) h = register_all-append_all xs (register_scim_extension x h)

  append_all-nil : (xs : List F) → append_all xs [] ≡ firsts xs
  unfolding elem
  append_all-nil xs = append_all-firsts xs [] ∙ keep-true (firsts xs)

  -- After a reset, and any registrations of extensions, each list of hooks has the functions of the
  -- extensions in the order in which each was first registered, and each once.
  pub register_all-firsts :
      (xs : List (Extension F)) (h : Hooks F)
      → register_all xs (reset_scim_extensions h) ≡ record {
        scim_ext_create = firsts (map (λ x. x.create_fn) xs);
        scim_ext_read = firsts (map (λ x. x.read_fn) xs);
        scim_ext_update = firsts (map (λ x. x.update_fn) xs);
        scim_ext_delete = firsts (map (λ x. x.delete_fn) xs);
      }
  unfolding reset_scim_extensions
  register_all-firsts xs h =
      register_all-append_all xs (reset_scim_extensions h) ∙ simp append_all-nil
