-- ===== src/Control/Writing.antt =====
-- `write_properties` and `write_characteristic` of gateway/control.py, over the access point's state.
pub mod Outcomes
mod Tests
use tiedie.Prelude.{
  ℕ, pos, Bool, true, false, not, ◌||◌, Option, none, some, List, [], ◌∷◌, ◌++◌, String,
  if◌then◌else◌, b64decode,
}
use tiedie.Python.{Exc, Result, ok, raise, value_error, type_error, ble_write_error}
use tiedie.Python
use tiedie.Python.Handlers.{
  Exec, Flow, pure, return, lift, throw, try, return_if, ◌>>=◌, ◌>>◌, gets,
}
use tiedie.Json.{
  Json, Items, bool, str, arr, obj, end, field, get, get_default, index, is_list, is_some, truthy,
  items,
}
use tiedie.Sdf.{parse_sdf_reference, navigate_sdf_model, extract_protocol_map}
use tiedie.Database.Session.{Schema, Db}
use tiedie.Control.Responses.{
  Response, json, create_nipc_problem_response, NipcProblemTypes, invalid_id, invalid_sdf_url,
  property_not_writable, property_write_failed,
}
use tiedie.Control.Lookup.{lookup_model}
use tiedie.Control.AccessPoint.{AccessPoint, call}
use tiedie.Control.Connections.{find_ble, address_of}
use tiedie.Control.Properties.{lower_of, connect_first, disconnect_last, ble_map_of}

pub data WriteOutcome : Type 0 where
  written : WriteOutcome
  unwritten : NipcProblemTypes → ℕ → WriteOutcome

pub data WriteAnswer : Type 0 where
  write_refused : Response → WriteAnswer
  outcomes : List WriteOutcome → WriteAnswer

-- what the first loop keeps of an entry
pub record WriteTarget : Type 0 where
  pub property_name : Json
  pub service_id : String
  pub characteristic_id : String
  pub value : Json

abbrev or_value_error : Option (List ℕ) → Result (List ℕ)
or_value_error none = raise value_error
or_value_error (some bytes) = ok bytes

-- `base64.b64decode(j)`
abbrev pub b64decode_of : Json → Result (List ℕ)
b64decode_of (str s) = or_value_error (b64decode s)
b64decode_of _ = raise type_error

-- `property_def.get('writable', True) is False`
abbrev pub is_unwritable : Json → Result Bool
is_unwritable property_def =
    Python.◌>>=◌ (get_default property_def "writable" (bool true))
      (λ writable. ok (elim writable [ bool b ↦ not b | _ ↦ false ]))

-- the service and the characteristic of a mapping
abbrev pub ids_of : Json → Result (String × String)
ids_of ble_mapping = Python.◌>>=◌ (index ble_mapping "serviceID") (λ service_json.
    Python.◌>>=◌ (lower_of service_json) (λ service_id.
      Python.◌>>=◌ (index ble_mapping "characteristicID") (λ char_json.
        Python.◌>>=◌ (lower_of char_json)
          (λ characteristic_id. ok (service_id, characteristic_id)))))

module _ (D : Schema) (db : Db D) where
  -- the definition that the model has of a property
  unfoldable pub definition_of : Json → Result Json
  definition_of property_name = Python.◌>>=◌ (parse_sdf_reference property_name) (λ reference.
      Python.◌>>=◌ (lookup_model D db reference.0) (λ model. navigate_sdf_model model reference.1))

  unfoldable pub resolve_write : Json → Result WriteTarget
  unfolding definition_of
  resolve_write prop_obj = Python.◌>>=◌ (index prop_obj "property") (λ property_name.
      Python.◌>>=◌ (index prop_obj "value") (λ value.
        Python.◌>>=◌ (definition_of property_name) (λ property_def.
          Python.◌>>=◌ (extract_protocol_map property_def "ble") (λ ble_mapping.
            Python.◌>>=◌ (ids_of ble_mapping) (λ ids. ok (record {
              property_name = property_name;
              service_id = ids.0;
              characteristic_id = ids.1;
              value = value;
            }))))))

  abbrev pub put_write :
      Result WriteTarget
      → List WriteOutcome × List WriteTarget
      → List WriteOutcome × List WriteTarget
  put_write (ok target) (errors, targets) = (errors, target ∷ targets)
  put_write (raise e) (errors, targets) = (unwritten invalid_sdf_url 400 ∷ errors, targets)

  -- the first loop
  unfoldable pub resolve_writes : List Json → List WriteOutcome × List WriteTarget
  resolve_writes [] = ([], [])
  resolve_writes (prop_obj ∷ props) = put_write (resolve_write prop_obj) (resolve_writes props)

abbrev pub write_services : List WriteTarget → List Json
write_services [] = []
write_services (t ∷ ts) = str t.service_id ∷ write_services ts

module _ (D : Schema) {S : Type 0} (ap : AccessPoint S) (db : Db D) (address : String) where
  abbrev pub write_error : Exc → Exec S WriteAnswer WriteOutcome
  write_error ble_write_error = pure (unwritten property_write_failed 500)
  write_error e = throw e

  -- the write of a property that may be written
  abbrev pub write_value : Json → WriteTarget → Exec S WriteAnswer WriteOutcome
  write_value property_def target = do
    ble_mapping ← lift (extract_protocol_map property_def "ble")
    binary_data ← lift (b64decode_of target.value)
    ids ← lift (ids_of ble_mapping)
    call (ap.write address ids.0 ids.1 binary_data)
    pure written

  abbrev pub unless_unwritable : Bool → Json → WriteTarget → Exec S WriteAnswer WriteOutcome
  unless_unwritable true property_def target = pure (unwritten property_not_writable 400)
  unless_unwritable false property_def target = write_value property_def target

  -- one round of the second loop, which looks the property up again
  abbrev pub write_one : WriteTarget → Exec S WriteAnswer WriteOutcome
  write_one target =
      try
        (do
          property_def ← lift (definition_of D db target.property_name)
          unwritable ← lift (is_unwritable property_def)
          unless_unwritable unwritable property_def target)
        write_error

  unfoldable pub write_all : List WriteTarget → Exec S WriteAnswer (List WriteOutcome)
  write_all [] = pure []
  write_all (target ∷ targets) = do
    outcome ← write_one target
    rest ← write_all targets
    pure (outcome ∷ rest)

  unfoldable pub write_targets :
      List WriteOutcome × List WriteTarget → Exec S WriteAnswer WriteAnswer
  unfolding write_all
  write_targets (errors, targets) = do
    connected ← gets (ap.get_connection address)
    let implicit_connect = not (is_some connected)
    connect_first ap address implicit_connect (write_services targets)
    rest ← write_all targets
    disconnect_last ap address implicit_connect
    return (outcomes (errors ++ rest))

-- the entries of a list
abbrev pub entries : Json → List Json
entries (arr js) = items js
entries _ = []

abbrev pub missing_body : WriteAnswer
missing_body = write_refused (create_nipc_problem_response invalid_sdf_url 400)

module _ (D : Schema) {S : Type 0} (ap : AccessPoint S) (device_id : String) (db : Db D) where
  abbrev pub no_device : Bool
  no_device = not (is_some (find_ble D ap device_id db))

  -- `request.json`: an error of the parser is a missing body
  unfoldable pub write_properties : Result Json → Exec S WriteAnswer WriteAnswer
  write_properties body =
      try
        (do
          request_json ← try (lift body) (λ e. return missing_body)
          return_if (not (truthy request_json) || not (is_list request_json)) missing_body
          return_if no_device (write_refused (create_nipc_problem_response invalid_id 404))
          write_targets D ap db (address_of (find_ble D ap device_id db))
              (resolve_writes D db (entries request_json)))
        (λ e. return (write_refused (create_nipc_problem_response property_write_failed 500)))

  unfoldable pub write_characteristic : Result Json → Exec S Response Response
  write_characteristic body =
      try
        (do
          request_json ← lift body
          return_if (not (truthy request_json)) (create_nipc_problem_response invalid_sdf_url 400)
          ble_map ← lift (ble_map_of D ap device_id db request_json)
          service_json ← lift (get ble_map "serviceID")
          char_json ← lift (get ble_map "characteristicID")
          value_b64 ← lift (get request_json "value")
          return_if no_device (create_nipc_problem_response invalid_id 404)
          binary_data ← lift (b64decode_of value_b64)
          service_id ← lift (lower_of service_json)
          char_id ← lift (lower_of char_json)
          call (ap.write (address_of (find_ble D ap device_id db)) service_id char_id binary_data)
          return (json (obj (field "value" value_b64 end)) 200))
        (λ e. return (create_nipc_problem_response property_write_failed 500))
