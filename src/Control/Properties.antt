-- ===== src/Control/Properties.antt =====
-- `read_properties` and `read_characteristic` of gateway/control.py. `urllib.parse.unquote` is an
-- argument, and so is the database, which the handlers only read; the state is the access point's.
pub mod Steps
pub mod Reading
mod Tests
use tiedie.Prelude.{
  ℕ, pos, Bool, true, false, not, Option, none, some, List, [], ◌∷◌, ◌++◌, String, ◌==◌,
  if◌then◌else◌, lower, b64encode,
}
use tiedie.Python.{Exc, Result, ok, raise, attribute_error, type_error, ble_read_error}
use tiedie.Python
use tiedie.Python.Handlers.{
  Exec, Flow, value, returned, raised, pure, return, lift, throw, try, return_if, ◌>>=◌, ◌>>◌, gets,
}
use tiedie.Json.{Json, str, obj, end, field, get, get_default, index, is_some, truthy}
use tiedie.Sdf.{parse_sdf_reference, navigate_sdf_model, extract_protocol_map}
use tiedie.Database.Session.{Schema, Db}
use tiedie.Control.Responses.{
  Response, json, create_nipc_problem_response, NipcProblemTypes, invalid_id, invalid_sdf_url,
  property_read_failed,
}
use tiedie.Control.Lookup.{lookup_model}
use tiedie.Control.AccessPoint.{AccessPoint, options_of, call}
use tiedie.Control.Connections.{find_ble, address_of}

-- One entry of the response: a value in Base64, or the type and the status of a problem.
pub data Outcome : Type 0 where
  read_value : String → String → Outcome
  failed : NipcProblemTypes → ℕ → Outcome

pub data Answer : Type 0 where
  refused : Response → Answer
  results : List Outcome → Answer

-- a property with its service and its characteristic
pub record Target : Type 0 where
  pub property_name : String
  pub service_id : String
  pub characteristic_id : String

-- `j.lower()`
abbrev pub lower_of : Json → Result String
lower_of (str s) = ok (lower s)
lower_of _ = raise attribute_error

-- `base64.b64encode(resp.value)`
abbrev pub encoded : Option (List ℕ) → Result String
encoded none = raise type_error
encoded (some bytes) = ok (b64encode bytes)

module _ (D : Schema) (db : Db D) where
  -- the service and the characteristic that the model gives for a property
  unfoldable pub resolve_property : String → Result Target
  resolve_property property_name =
      Python.◌>>=◌ (parse_sdf_reference (str property_name)) (λ reference.
        Python.◌>>=◌ (lookup_model D db reference.0) (λ model.
          Python.◌>>=◌ (navigate_sdf_model model reference.1) (λ property_def.
            Python.◌>>=◌ (extract_protocol_map property_def "ble") (λ ble_mapping.
              Python.◌>>=◌ (index ble_mapping "serviceID") (λ service_json.
                Python.◌>>=◌ (lower_of service_json) (λ service_id.
                  Python.◌>>=◌ (index ble_mapping "characteristicID") (λ char_json.
                    Python.◌>>=◌ (lower_of char_json) (λ characteristic_id. ok (record {
                      property_name = property_name;
                      service_id = service_id;
                      characteristic_id = characteristic_id;
                    })))))))))

  abbrev pub put_target : Result Target → List Outcome × List Target → List Outcome × List Target
  put_target (ok target) (errors, targets) = (errors, target ∷ targets)
  put_target (raise e) (errors, targets) = (failed invalid_sdf_url 400 ∷ errors, targets)

  -- the loop over the names: the problems, and the properties to read, each in order
  unfoldable pub resolve_all : (String → String) → List String → List Outcome × List Target
  resolve_all unquote [] = ([], [])
  resolve_all unquote (name ∷ names) =
      put_target (resolve_property (unquote name)) (resolve_all unquote names)

abbrev pub service_ids : List Target → List Json
service_ids [] = []
service_ids (t ∷ ts) = str t.service_id ∷ service_ids ts

module _ {S : Type 0} (ap : AccessPoint S) (address : String) where
  abbrev pub read_error : Exc → Exec S Answer Outcome
  read_error ble_read_error = pure (failed property_read_failed 500)
  read_error e = throw e

  abbrev pub read_one : Target → Exec S Answer Outcome
  read_one target =
      try
        (do
          bytes ← call (ap.read address target.service_id target.characteristic_id)
          text ← lift (encoded bytes)
          pure (read_value target.property_name text))
        read_error

  -- the loop over the properties to read
  unfoldable pub read_all : List Target → Exec S Answer (List Outcome)
  read_all [] = pure []
  read_all (target ∷ targets) = do
    outcome ← read_one target
    outcomes ← read_all targets
    pure (outcome ∷ outcomes)

module _ {S R : Type 0} (ap : AccessPoint S) (address : String) where
  -- the connection and the discovery for the services, unless the device is connected
  abbrev pub connect_first : Bool → List Json → Exec S R (Unit {0})
  connect_first false services = pure tt
  connect_first true services = do
    call (ap.connect address (options_of []) (pos 3))
    call (ap.discover address (options_of services) (pos 3))
    pure tt

  abbrev pub disconnect_last : Bool → Exec S R (Unit {0})
  disconnect_last false = pure tt
  disconnect_last true = call (ap.disconnect address)

module _ {S : Type 0} (ap : AccessPoint S) (address : String) where
  -- Everything after the names are resolved: an exception on the way leaves out the disconnection.
  unfoldable pub read_targets : List Outcome × List Target → Exec S Answer Answer
  unfolding read_all
  read_targets (errors, targets) = do
    connected ← gets (ap.get_connection address)
    let implicit_connect = not (is_some connected)
    connect_first ap address implicit_connect (service_ids targets)
    outcomes ← read_all ap address targets
    disconnect_last ap address implicit_connect
    return (results (errors ++ outcomes))

module _ (D : Schema) {S : Type 0} (ap : AccessPoint S) (device_id : String) (db : Db D) where
  abbrev pub read_failed : Answer
  read_failed = refused (create_nipc_problem_response property_read_failed 500)

  abbrev pub no_names : List String → Bool
  no_names [] = true
  no_names (name ∷ names) = false

  unfoldable pub read_properties : (String → String) → List String → Exec S Answer Answer
  read_properties unquote property_names =
      try
        (do
          return_if (no_names property_names)
              (refused (create_nipc_problem_response invalid_sdf_url 400))
          return_if (not (is_some (find_ble D ap device_id db)))
              (refused (create_nipc_problem_response invalid_id 404))
          read_targets ap (address_of (find_ble D ap device_id db))
              (resolve_all D db unquote property_names))
        (λ e. return read_failed)

  -- `request_json.get('sdfProtocolMap', {}).get('ble', {})`
  abbrev pub ble_map_of : Json → Result Json
  ble_map_of request_json =
      Python.◌>>=◌ (get_default request_json "sdfProtocolMap" (obj end))
        (λ maps. get_default maps "ble" (obj end))

  unfoldable pub read_characteristic : Result Json → Exec S Response Response
  read_characteristic body =
      try
        (do
          request_json ← lift body
          return_if (not (truthy request_json)) (create_nipc_problem_response invalid_sdf_url 400)
          ble_map ← lift (ble_map_of request_json)
          service_json ← lift (get ble_map "serviceID")
          char_json ← lift (get ble_map "characteristicID")
          return_if (not (is_some (find_ble D ap device_id db)))
              (create_nipc_problem_response invalid_id 404)
          service_id ← lift (lower_of service_json)
          char_id ← lift (lower_of char_json)
          bytes ← call (ap.read (address_of (find_ble D ap device_id db)) service_id char_id)
          text ← lift (encoded bytes)
          return (json (obj (field "value" (str text) end)) 200))
        (λ e. return (create_nipc_problem_response property_read_failed 500))
