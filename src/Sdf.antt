-- ===== src/Sdf.antt =====
-- SDF references, models and protocol mappings: `parse_sdf_reference`, `lookup_sdf_model`,
-- `navigate_sdf_model` and `extract_protocol_map` of gateway/control.py, and `SdfModel` of
-- gateway/nipc_models.py. The rows that the two queries of `lookup_sdf_model` select are arguments.
pub mod References
pub mod Paths
pub mod Models
pub mod Namespaces
mod Tests
use Prim.Native.Char.{code}
use tiedie.Prelude.{
  Bool, true, false, Option, none, some, List, [], ◌∷◌, String, ◌==◌, ◌==ℕ◌, if◌then◌else◌,
  has_char, split_once, split, ◌||◌,
}
use tiedie.Python.{Result, ok, raise, value_error, ◌>>=◌}
use tiedie.Json.{Json, Fields, str, obj, end, field, find_field, contains, index, is_text}

-- a row of the table `sdf_model`
pub record SdfModel : Type 0 where
  pub sdf_name : String
  pub model : Json

-- The part after '#': it starts with '/', and "/" alone has no components.
unfoldable pub parse_pointer : String → Result (List String)
parse_pointer String.[] = raise value_error
parse_pointer (String.◌∷◌ c rest) =
    if code c ==ℕ b'/' then ok (if rest == "" then [] else split b'/' rest) else raise value_error

-- What is not a text has no `split`, and every error becomes a `ValueError`.
unfoldable pub parse_sdf_reference : Json → Result (String × List String)
unfolding parse_pointer
parse_sdf_reference (str s) =
    if has_char b'#' s
    then (do path ← parse_pointer (split_once b'#' s).1; ok ((split_once b'#' s).0, path))
    else raise value_error
parse_sdf_reference _ = raise value_error

unfoldable pub any_url : String → Fields → Bool
any_url url end = false
any_url url (field k v fs) = is_text url v || any_url url fs

-- Does the value of 'namespace' hold the URL?
unfoldable pub matches_namespace : String → Json → Bool
unfolding any_url
matches_namespace url (obj fs) = any_url url fs
matches_namespace url (str s) = s == url
matches_namespace url _ = false

unfoldable pub names_namespace : String → Json → Result Bool
unfolding matches_namespace
names_namespace url model = do
  inside ← contains "namespace" model
  if inside
      then (do namespaces ← index model "namespace"; ok (matches_namespace url namespaces))
      else ok false

-- the loop over all models
unfoldable pub first_in_namespace : String → List SdfModel → Result Json
first_in_namespace url [] = raise value_error
first_in_namespace url (m ∷ ms) =
    let rest = first_in_namespace url ms in
    do named ← names_namespace url m.model; if named then ok m.model else rest

-- `exact` is the row whose `sdf_name` is the namespace, and `models` are all rows.
unfoldable pub lookup_sdf_model : Option SdfModel → List SdfModel → String → Result Json
lookup_sdf_model (some m) models namespace = ok m.model
lookup_sdf_model none models namespace = first_in_namespace namespace models

abbrev pub or_value_error : Option Json → Result Json
or_value_error none = raise value_error
or_value_error (some j) = ok j

-- one round of the loop of `navigate_sdf_model`: its `KeyError` becomes a `ValueError`
unfoldable pub child : Json → String → Result Json
child (obj fs) component = or_value_error (find_field component fs)
child _ component = raise value_error

unfoldable pub navigate_sdf_model : Json → List String → Result Json
unfolding child
navigate_sdf_model current [] = ok current
navigate_sdf_model current (component ∷ path) = do
  next ← child current component
  navigate_sdf_model next path

unfoldable pub extract_protocol_map : Json → String → Result Json
extract_protocol_map property_def protocol = do
  mapped ← contains "sdfProtocolMap" property_def
  if mapped
      then (do
        protocol_map ← index property_def "sdfProtocolMap"
        supported ← contains protocol protocol_map
        if supported then index protocol_map protocol else raise value_error)
      else raise value_error
