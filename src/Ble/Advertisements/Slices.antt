-- ===== src/Ble/Advertisements/Slices.antt =====
-- Slices of a packet that is put together from parts.
use tiedie.Prelude.{
  ◌≡◌, refl, ap, ◌∙◌, ℕ, suc, ◌+◌, List, [], ◌∷◌, ◌++◌, some, true, arith, length, get_elem?,
}
use tiedie.Ble.Advertisements.{take, drop, same_bytes}

suc_plus_one : (m : ℕ) → suc m + 1 ≡ suc (m + 1)
suc_plus_one m = omega arith

module _ {ℓ} {A : Type ℓ} where
  pub drop_prefix : (pre xs : List A) → drop (length pre) (pre ++ xs) ≡ xs
  unfolding drop
  drop_prefix [] xs = refl
  drop_prefix (x ∷ pre) xs = drop_prefix pre xs

  pub take-append : (xs ys : List A) → take (length xs) (xs ++ ys) ≡ xs
  unfolding take
  take-append [] ys = refl
  take-append (x ∷ xs) ys = ap (λ zs. x ∷ zs) (take-append xs ys)

  pub get_elem?-append :
      (pre : List A) (x : A) (ys : List A) → get_elem? (pre ++ x ∷ ys) (length pre) ≡ some x
  get_elem?-append [] x ys = refl
  get_elem?-append (p ∷ pre) x ys = get_elem?-append pre x ys

  pub get_elem?-append_next :
      (pre : List A) (x y : A) (ys : List A)
      → get_elem? (pre ++ x ∷ y ∷ ys) (length pre + 1) ≡ some y
  get_elem?-append_next [] x y ys = refl
  get_elem?-append_next (p ∷ pre) x y ys =
      ap (get_elem? (p ∷ pre ++ x ∷ y ∷ ys)) (suc_plus_one (length pre))
      ∙ get_elem?-append_next pre x y ys

pub same_bytes_self : (bs : List ℕ) → same_bytes bs bs ≡ true
unfolding same_bytes
same_bytes_self [] = refl
same_bytes_self (b ∷ bs) = ground (arith, same_bytes_self bs)
