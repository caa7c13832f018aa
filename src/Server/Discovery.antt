-- ===== src/Server/Discovery.antt =====
-- How `Discover` of pi-ap/grpc_server.py groups the characteristics of a discovery by service.
use tiedie.Prelude.{
  Bool, true, false, ◌||◌, Option, none, some, List, [], ◌∷◌, ◌++◌, String, ◌==◌, Dict, lookup,
  insert, string_eq, if◌then◌else◌, keep, split, is_some,
}
use tiedie.Serial.State.{Chr, Discovered}

pub record GattCharacteristic : Type 0 where
  pub uuid : String
  pub flags : List String

abbrev pub Services : Type 0
Services = Dict String (List GattCharacteristic)

abbrev pub is_empty : String → Bool
is_empty s = s == ""

-- `[p for p in props.split("|") if p]`
unfoldable pub flags_of : String → List String
flags_of props = keep (λ p. if is_empty p then false else true) (split b'|' props)

abbrev pub characteristic_of : Chr → GattCharacteristic
characteristic_of c = record { uuid = c.uuid; flags = flags_of c.props }

-- a service is listed once, without characteristics at first, if it has a UUID
abbrev pub add_service : String → Services → Services
add_service uuid d = if is_empty uuid || is_some (lookup uuid d) then d else insert uuid [] d

unfoldable pub services_by_uuid : List String → Services → Services
services_by_uuid [] d = d
services_by_uuid (uuid ∷ uuids) d = services_by_uuid uuids (add_service uuid d)

abbrev pub chars_or_none : Option (List GattCharacteristic) → List GattCharacteristic
chars_or_none none = []
chars_or_none (some cs) = cs

-- A characteristic goes to its service, which is listed now if it was not; one without a UUID, its
-- own or its service's, is left out.
abbrev pub add_characteristic : Chr → Services → Services
add_characteristic c d =
    if is_empty c.svc_uuid || is_empty c.uuid
    then d
    else insert c.svc_uuid (chars_or_none (lookup c.svc_uuid d) ++ characteristic_of c ∷ []) d

unfoldable pub add_characteristics : List Chr → Services → Services
add_characteristics [] d = d
add_characteristics (c ∷ cs) d = add_characteristics cs (add_characteristic c d)

-- the services of the response, with their characteristics
unfoldable pub assemble : Discovered → Services
unfolding services_by_uuid add_characteristics
assemble snapshot = add_characteristics snapshot.chars (services_by_uuid snapshot.services [])
