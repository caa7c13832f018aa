-- ===== src/Ble/Advertisements.antt =====
-- `find_service_in_advertisement` of gateway/silabs/common/util.py: a search through the fields of
-- an advertising packet, which is a list of bytes. A field is a length, a type and its content.
mod Slices
mod Search
mod Termination
mod Tests
use tiedie.Prelude.{
  ℕ, zero, suc, ◌+◌, ◌-◌, ◌*◌, ◌/◌, Bool, true, false, ◌&&◌, ◌||◌, Option, none, some, List, [],
  ◌∷◌, ltb, ◌==ℕ◌, if◌then◌else◌, length, get_elem?,
}
use tiedie.Python.{Result, ok, raise, value_error}

module _ {ℓ} {A : Type ℓ} where
  unfoldable pub take : ℕ → List A → List A
  take zero xs = []
  take (suc n) [] = []
  take (suc n) (x ∷ xs) = x ∷ take n xs

  unfoldable pub drop : ℕ → List A → List A
  drop zero xs = xs
  drop (suc n) [] = []
  drop (suc n) (x ∷ xs) = drop n xs

-- `b == c`, of bytes
unfoldable pub same_bytes : List ℕ → List ℕ → Bool
same_bytes [] [] = true
same_bytes [] (c ∷ cs) = false
same_bytes (b ∷ bs) [] = false
same_bytes (b ∷ bs) (c ∷ cs) = (b ==ℕ c) && same_bytes bs cs

-- the types of the incomplete and of the complete lists of UUIDs of a length
abbrev pub is_list_type : ℕ → ℕ → Bool
is_list_type k t =
    (t ==ℕ (if k ==ℕ 2 then 0x02 else 0x06)) || (t ==ℕ (if k ==ℕ 2 then 0x03 else 0x07))

module _ (adv_data uuid : List ℕ) where
  -- `for j in range(…)` of the comparison, from `j` on, with the rounds that are left
  unfoldable pub compare_uuids : ℕ → ℕ → ℕ → Bool
  compare_uuids zero i j = false
  compare_uuids (suc rounds) i j =
      same_bytes (take (length uuid) (drop (i + 2 + j * length uuid) adv_data)) uuid
      || compare_uuids rounds i (suc j)

  -- one round of the `while` loop at a field of this length and type; `rest` is the next round
  abbrev pub at_field : ℕ → ℕ → ℕ → Option Bool → Option Bool
  at_field i ad_field_length ad_field_type rest =
      if is_list_type (length uuid) ad_field_type
        && compare_uuids ((ad_field_length - 1) / length uuid) i 0
      then some true
      else rest

  -- `while i < len(adv_data)`; `none` means that the fuel ran out. A field whose length or type is
  -- past the end of the packet is an `IndexError`, and ends the search.
  unfoldable pub search_fields : ℕ → ℕ → Option Bool
  search_fields zero i = none
  search_fields (suc fuel) i = elim (ltb i (length adv_data)) [
    | false ↦ some false
    | true ↦ elim (get_elem? adv_data i) [
      | none ↦ some false
      | some ad_field_length ↦ elim (get_elem? adv_data (i + 1)) [
        | none ↦ some false
        | some ad_field_type ↦
            at_field i ad_field_length ad_field_type
              (search_fields fuel (i + (ad_field_length + 1)))
      ]
    ]
  ]

-- Each round passes one byte at least, so the bytes of the packet are fuel enough.
unfoldable pub find_service_in_advertisement : List ℕ → List ℕ → Option (Result Bool)
unfolding compare_uuids search_fields same_bytes take drop
find_service_in_advertisement adv_data uuid =
    if (length uuid ==ℕ 2) || (length uuid ==ℕ 16)
    then (let found = search_fields adv_data uuid (suc (length adv_data)) 0 in
        elim found [ none ↦ none | some b ↦ some (ok b) ])
    else some (raise value_error)
