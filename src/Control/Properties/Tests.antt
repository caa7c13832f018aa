-- ===== src/Control/Properties/Tests.antt =====
-- The reading of properties with a scripted access point.
use tiedie.Prelude.{
  ◌≡◌, refl, none, some, List, [], ◌∷◌, String, find_first, keep, has_char, split_once, split,
  lower, b64encode,
}
use tiedie.Python.{runtime_error}
use tiedie.Python.Handlers.{returned}
use tiedie.Json.{find_field, contains, index}
use tiedie.Sdf.{
  parse_sdf_reference, lookup_sdf_model, first_in_namespace, names_namespace, navigate_sdf_model,
  extract_protocol_map,
}
use tiedie.Database.Memory.{memory}
use tiedie.Control.Responses.{invalid_sdf_url}
use tiedie.Control.Lookup.{lookup_model}
use tiedie.Control.Samples.{alarm_name, scripted, ble_device, ble_db, same}
use tiedie.Control.Connections.{find_ble}
use tiedie.Control.Properties.{
  failed, read_value, results, read_all, read_targets, read_properties, resolve_all,
  resolve_property,
}

abbrev names : List String
names = alarm_name ∷ "no reference" ∷ []

answered :
    read_properties memory (scripted none) "d1" ble_db same names []
    ≡ (returned (results (failed invalid_sdf_url 400 ∷ read_value alarm_name "AQI=" ∷ [])), [])
unfolding read_properties read_targets read_all resolve_all resolve_property parse_sdf_reference
    lookup_model lookup_sdf_model first_in_namespace names_namespace navigate_sdf_model
    extract_protocol_map find_field contains index find_first keep has_char split_once split lower
    b64encode
answered = refl

known : find_ble memory (scripted (some runtime_error)) "d1" ble_db ≡ some ble_device
unfolding find_first
known = refl
