-- ===== src/Ble/Advertisements/Termination.antt =====
-- The search of a packet ends.
use tiedie.Prelude.{
  ◌≡◌, ◌≢◌, ◌⊎◌, inl, inr, refl, ℕ, zero, suc, ◌+◌, ◌-◌, ◌/◌, ◌<◌, Bool, true, false, ◌&&◌, ◌||◌,
  List, Option, some, none, arith, length, get_elem?, if_induction, ◌==ℕ◌, ltb,
}
use tiedie.Python.{ok, raise, value_error}
use tiedie.Ble.Advertisements.{
  is_list_type, compare_uuids, at_field, search_fields, find_service_in_advertisement,
}

module _ (adv_data uuid : List ℕ) where
  round_ends :
      (i l t : ℕ) {r : Option Bool} (b : Bool)
      → r ≡ some b
      → (c : Bool) × (at_field adv_data uuid i l t r ≡ some c)
  round_ends i l t b e =
      if_induction (λ r. (c : Bool) × (r ≡ some c))
        (is_list_type (length uuid) t && compare_uuids adv_data uuid ((l - 1) / length uuid) i 0)
        (true, refl) (b, e)

  inside_ends :
      (o p : Option ℕ) (i : ℕ) (rest : ℕ → Option Bool)
      → ((l : ℕ) → (b : Bool) × (rest l ≡ some b))
      → (c : Bool) × (elim o [
        | none ↦ some false
        | some l ↦ elim p [ none ↦ some false | some t ↦ at_field adv_data uuid i l t (rest l) ]
      ]
          ≡ some c)
  inside_ends none p i rest h = (false, refl)
  inside_ends (some l) none i rest h = (false, refl)
  inside_ends (some l) (some t) i rest h = let (b, e) = h l in round_ends i l t b e

  loop_ends :
      (test : Bool) (round : Option Bool)
      → (test ≡ true → (b : Bool) × (round ≡ some b))
      → (c : Bool) × (elim test [ false ↦ some false | true ↦ round ] ≡ some c)
  loop_ends true round h = h refl
  loop_ends false round h = (false, refl)

  search_ends :
      (fuel i : ℕ)
      → 0 < fuel
      → length adv_data < fuel + i
      → (b : Bool) × (search_fields adv_data uuid fuel i ≡ some b)
  unfolding search_fields
  search_ends zero i some_fuel enough = elim some_fuel [ ]
  search_ends (suc fuel) i some_fuel enough = loop_ends (ltb i (length adv_data)) _ λ inside.
      inside_ends (get_elem? adv_data i) (get_elem? adv_data (i + 1)) i
        (λ l. search_fields adv_data uuid fuel (i + (l + 1)))
        λ l. search_ends fuel (i + (l + 1)) (ground arith) (omega arith)

-- On any bytes whatever the search ends: with an answer if the UUID has 2 or 16 bytes, and with a
-- `ValueError` if it has not.
pub find_service_ends :
    (adv_data uuid : List ℕ)
    → ((length uuid ≡ 2) ⊎ (length uuid ≡ 16)
        → (b : Bool) × (find_service_in_advertisement adv_data uuid ≡ some (ok b)))
      × (length uuid ≢ 2
          → length uuid ≢ 16
          → find_service_in_advertisement adv_data uuid ≡ some (raise value_error))
unfolding find_service_in_advertisement
find_service_ends adv_data uuid =
    let found = search_ends adv_data uuid (suc (length adv_data)) 0 (omega arith) (omega arith) in
    (
      λ sized. (found.0, rw (allowed sized, found.1)),
      λ no_short no_long. rw (refused no_short no_long) refl,
    )
  where
    allowed :
        (length uuid ≡ 2) ⊎ (length uuid ≡ 16)
        → ((length uuid ==ℕ 2) || (length uuid ==ℕ 16)) ≡ true
    allowed (inl e) = ground arith
    allowed (inr e) = ground arith

    refused :
        length uuid ≢ 2 → length uuid ≢ 16 → ((length uuid ==ℕ 2) || (length uuid ==ℕ 16)) ≡ false
    refused no_short no_long = ground arith
