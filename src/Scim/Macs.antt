-- ===== src/Scim/Macs.antt =====
-- Lists of Bluetooth data in which no MAC address stands twice.
use tiedie.Prelude.{
  ◌≡◌, refl, Bool, true, false, Option, none, some, List, [], ◌∷◌, ◌++◌, String, arith,
  if◌then◌else◌, find_first, All,
}
use tiedie.Python.{ok}
use tiedie.Json.{Json, json_eq}
use tiedie.Scim.Pairing.{Extended, ble_extension, existing_device}

abbrev pub OtherMac : Json → Extended → Type 0
OtherMac mac r = json_eq r.device_mac_address mac ≡ false

abbrev pub AllDifferent : List Extended → Type 0
AllDifferent [] = Unit
AllDifferent (r ∷ rs) = All (λ q. OtherMac q.device_mac_address r) rs × AllDifferent rs

abbrev pub ext_list : Option Extended → List Extended
ext_list none = []
ext_list (some ext) = ext ∷ []

pub existing-none :
    (mac : Json) (rs : List Extended) → existing_device mac rs ≡ none → All (OtherMac mac) rs
unfolding find_first
existing-none mac [] h = tt
existing-none mac (r ∷ rs) h =
    by_test (json_eq r.device_mac_address mac) refl h (existing-none mac rs)
  where
    by_test :
        (b : Bool)
        → json_eq r.device_mac_address mac ≡ b
        → (if b then some r else existing_device mac rs) ≡ none
        → (existing_device mac rs ≡ none → All (OtherMac mac) rs)
        → All (OtherMac mac) (r ∷ rs)
    by_test true e same rest = cc
    by_test false e same rest = (e, rest same)

All-snoc :
    (P : Extended → Type 0) (rs : List Extended) (r : Extended)
    → All P rs
    → P r
    → All P (rs ++ r ∷ [])
All-snoc P [] r h p = (p, tt)
All-snoc P (q ∷ rs) r (h, hs) p = (h, All-snoc P rs r hs p)

pub AllDifferent-snoc :
    (rs : List Extended) (ext : Extended)
    → AllDifferent rs
    → All (OtherMac ext.device_mac_address) rs
    → AllDifferent (rs ++ ext ∷ [])
AllDifferent-snoc [] ext h other = (tt, tt)
AllDifferent-snoc (r ∷ rs) ext (h, hs) (other, others) = (
  All-snoc (λ q. OtherMac q.device_mac_address r) rs ext h other,
  AllDifferent-snoc rs ext hs others,
)

pub ble_extension-mac :
    (device_id : String) (ble_json : Json) (keys : Json × Json × Json × Json × Json)
    (ext : Extended)
    → ble_extension device_id ble_json keys ≡ ok ext
    → ext.device_mac_address ≡ keys.0
unfolding ble_extension
ble_extension-mac device_id ble_json keys ext h = ground arith
