-- ===== src/Sdf/Tests.antt =====
-- The SDF functions on the model of gateway/tests/test_sdf_model.py, and their theorems there.
use tiedie.Prelude.{
  ◌≡◌, ◌≢◌, refl, ◌↔◌, none, [], ◌∷◌, String, arith, has_char, split_once, split, eq_iff,
}
use tiedie.Python.{ok, raise, value_error, ◌>>=◌}
use tiedie.Json.{Json, str, obj, end, field, find_field, contains, index}
use tiedie.Sdf.{
  SdfModel, parse_sdf_reference, names_namespace, first_in_namespace, lookup_sdf_model,
  navigate_sdf_model, extract_protocol_map,
}
use tiedie.Sdf.References.{print_reference, parse-print_reference}
use tiedie.Sdf.Paths.{Reaches, navigate-Reaches}
use tiedie.Sdf.Models.{IsFirst, lookup-IsFirst}

abbrev ble_map : Json
ble_map = obj (field "serviceID" (str "1809") (field "characteristicID" (str "2A1C") end))

abbrev temperature : Json
temperature = obj (field "sdfProtocolMap" (obj (field "ble" ble_map end)) end)

abbrev properties : Json
properties = obj (field "temperature" temperature end)

abbrev thermometer : Json
thermometer = obj (
    field "namespace" (obj (field "thermometer" (str "https://example.com/thermometer") end))
      (field "sdfProperty" properties end))

abbrev row : SdfModel
row = record { sdf_name = "https://example.com/thermometer#/healthsensor"; model = thermometer }

parsed :
    parse_sdf_reference (str "https://example.com/thermometer#/sdfProperty/temperature")
    ≡ ok ("https://example.com/thermometer", "sdfProperty" ∷ "temperature" ∷ [])
unfolding parse_sdf_reference has_char split_once split
parsed = refl

parse_errors :
    (parse_sdf_reference (str "no hash") ≡ raise value_error)
    × (parse_sdf_reference (str "a#b") ≡ raise value_error)
    × (parse_sdf_reference (str "a#/") ≡ ok ("a", []))
unfolding parse_sdf_reference has_char split_once split
parse_errors = (refl, refl, refl)

resolved :
    (navigate_sdf_model thermometer ("sdfProperty" ∷ "temperature" ∷ []) >>= λ def.
    extract_protocol_map def "ble")
    ≡ ok ble_map
unfolding navigate_sdf_model extract_protocol_map find_field contains index
resolved = refl

namespace_ne_nil : ◌≢◌ {A = String} "sdfProperty" ""
namespace_ne_nil = ground (arith, eq_iff "sdfProperty" "")

parse-print_reference_example :
    parse_sdf_reference (str (print_reference "https://a" "sdfProperty" ("t" ∷ [])))
    ≡ ok ("https://a", "sdfProperty" ∷ "t" ∷ [])
unfolding has_char
parse-print_reference_example =
    parse-print_reference "https://a" "sdfProperty" ("t" ∷ []) refl namespace_ne_nil
      (refl, (refl, tt))

navigate-Reaches_example :
    (navigate_sdf_model thermometer ("sdfProperty" ∷ "temperature" ∷ []) ≡ ok temperature)
    ↔ Reaches thermometer ("sdfProperty" ∷ "temperature" ∷ []) temperature
navigate-Reaches_example =
    navigate-Reaches thermometer ("sdfProperty" ∷ "temperature" ∷ []) temperature

lookup-IsFirst_example :
    (lookup_sdf_model none (row ∷ []) "https://example.com/thermometer" ≡ ok thermometer) ↔ (
      (m : SdfModel) × IsFirst "https://example.com/thermometer" (row ∷ []) m
      × (m.model ≡ thermometer))
lookup-IsFirst_example = lookup-IsFirst "https://example.com/thermometer" (row ∷ []) thermometer

found : lookup_sdf_model none (row ∷ []) "https://example.com/thermometer" ≡ ok thermometer
unfolding lookup_sdf_model first_in_namespace names_namespace contains index find_field
found = refl
