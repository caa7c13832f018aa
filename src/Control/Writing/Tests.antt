-- ===== src/Control/Writing/Tests.antt =====
-- The writing of properties with a scripted access point.
use Prim.Native.Nat.{◌<◌}
use tiedie.Prelude.{
  ◌≡◌, refl, none, some, [], ◌∷◌, String, find_first, keep, has_char, split_once, split, lower,
  b64encode, b64decode, All, arith,
}
use tiedie.Python.{ok}
use tiedie.Python.Handlers.{returned}
use tiedie.Json.{
  Json, str, arr, obj, nil, cons, end, field, find_field, contains, index, get_default,
}
use tiedie.Sdf.{
  parse_sdf_reference, lookup_sdf_model, first_in_namespace, names_namespace, navigate_sdf_model,
  extract_protocol_map,
}
use tiedie.Database.Memory.{memory}
use tiedie.Control.Responses.{json, invalid_sdf_url}
use tiedie.Control.Lookup.{lookup_model}
use tiedie.Control.Samples.{alarm_name, scripted, ble_device, ble_db}
use tiedie.Control.Connections.{find_ble}
use tiedie.Control.Writing.{
  written, unwritten, outcomes, definition_of, resolve_write, resolve_writes, write_all,
  write_targets, write_properties, write_characteristic,
}
use tiedie.Control.Writing.Outcomes.{write_body, write_characteristic_sends}

abbrev entry : String → Json
entry name = obj (field "property" (str name) (field "value" (str "AQI=") end))

abbrev body : Json
body = arr (cons (entry "no reference") (cons (entry alarm_name) nil))

answered :
    write_properties memory (scripted none) "d1" ble_db (ok body) []
    ≡ (returned (outcomes (unwritten invalid_sdf_url 400 ∷ written ∷ [])), [])
unfolding write_properties write_targets write_all resolve_writes resolve_write definition_of
    parse_sdf_reference lookup_model lookup_sdf_model first_in_namespace names_namespace
    navigate_sdf_model extract_protocol_map find_field contains index get_default find_first keep
    has_char split_once split lower b64decode
answered = refl

known : find_ble memory (scripted none) "d1" ble_db ≡ some ble_device
unfolding find_first
known = refl

small : All (λ b. b < 256) (1 ∷ 255 ∷ [])
small = (omega arith, (omega arith, tt))

write_characteristic_sends_example :
    write_characteristic memory
      (scripted none)
      "d1"
      ble_db
      (ok (write_body "180D" "2A37" (b64encode (1 ∷ 255 ∷ []))))
      []
    ≡ (returned (json (obj (field "value" (str (b64encode (1 ∷ 255 ∷ []))) end)) 200), [])
write_characteristic_sends_example =
    write_characteristic_sends memory (scripted none) ble_db "d1" "180D" "2A37" (1 ∷ 255 ∷ [])
      ble_device [] [] small known refl
