-- ===== src/Ble/Advertisements/Tests.antt =====
-- Runs of the search, and the theorems at concrete packets.
use tiedie.Prelude.{
  ◌≡◌, ◌≢◌, ◌⊎◌, inl, refl, ℕ, Bool, true, false, List, [], ◌∷◌, some, arith, length, any,
}
use tiedie.Python.{ok, raise, value_error}
use tiedie.Ble.Characteristics.{properties_of, bit_names, properties_of-eq-names}
use tiedie.Ble.Advertisements.{find_service_in_advertisement}
use tiedie.Ble.Advertisements.Search.{Field, uuids, other, encode, advertises, find_service-encode}
use tiedie.Ble.Advertisements.Termination.{find_service_ends}

abbrev heart_rate : List ℕ
heart_rate = 0x0d ∷ 0x18 ∷ []

abbrev battery : List ℕ
battery = 0x0f ∷ 0x18 ∷ []

-- flags, then a complete list of two UUIDs
abbrev packet : List Field
packet = other 0x01 (6 ∷ []) ∷ uuids 0x03 (battery ∷ heart_rate ∷ []) ∷ []

-- a field that is cut off, and one whose length is 0
searches :
    (find_service_in_advertisement (2 ∷ 1 ∷ 6 ∷ 5 ∷ []) heart_rate ≡ some (ok false))
    × (find_service_in_advertisement (0 ∷ 3 ∷ 3 ∷ 0x0d ∷ 0x18 ∷ []) heart_rate ≡ some (ok true))
    × (find_service_in_advertisement [] (1 ∷ []) ≡ some (raise value_error))
unfolding find_service_in_advertisement
searches = (refl, refl, refl)

find_service-encode_example :
    find_service_in_advertisement (encode packet) heart_rate
    ≡ some (ok (any (advertises heart_rate) packet))
find_service-encode_example =
    find_service-encode heart_rate packet (inl refl) (refl, ((refl, (refl, (refl, tt))), tt))

find_service_ends_example :
    ((length heart_rate ≡ 2) ⊎ (length heart_rate ≡ 16)
      → (b : Bool) × (find_service_in_advertisement (encode packet) heart_rate ≡ some (ok b)))
    × (length heart_rate ≢ 2
        → length heart_rate ≢ 16
        → find_service_in_advertisement (encode packet) heart_rate ≡ some (raise value_error))
find_service_ends_example = find_service_ends (encode packet) heart_rate

properties_of-eq-names_example : properties_of 0x9a ≡ bit_names 0x9a
properties_of-eq-names_example = properties_of-eq-names 0x9a (omega arith)
