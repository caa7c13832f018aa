-- ===== src/Control/Connections.antt =====
-- `connect`, `update_connection`, `disconnect_from_device` and `get_connection_status` of
-- gateway/control.py, with `_parse_connection_options` and `_build_connection_response`.
--
-- The handlers only read the database, so it is an argument; the state is the access point's.
pub mod Cleanup
mod Tests
use tiedie.Prelude.{
  ℕ, ℤ, pos, negsuc, Bool, true, false, not, Option, none, some, List, [], ◌∷◌, String, ◌==◌,
  if◌then◌else◌, int_of_text,
}
use tiedie.Python.{
  Exc, Result, ok, raise, value_error, type_error, ble_connection_error, ble_discovery_error,
  ble_disconnect_error,
}
use tiedie.Python
use tiedie.Python.Handlers.{
  Exec, Flow, value, returned, raised, pure, return, lift, try, return_if, ◌>>=◌, ◌>>◌, gets,
}
use tiedie.Json.{
  Json, Items, Fields, null, bool, num, str, arr, obj, nil, cons, end, field, get, get_default,
  is_some, is_dict, truthy, iterate,
}
use tiedie.Database.Tables.{Table}
use tiedie.Database.Rows.{BleExtension}
use tiedie.Database.Session.{Schema, Db}
use tiedie.Control.Responses.{
  Response, json, Request, create_nipc_problem_response, invalid_id, protocolmap_ble_no_connection,
  about_blank,
}
use tiedie.Control.AccessPoint.{AccessPoint, Service, Characteristic, BleConnectOptions, call}

abbrev or_value_error : Option ℤ → Result ℤ
or_value_error none = raise value_error
or_value_error (some n) = ok n

-- `int(j)`
abbrev pub int_of : Json → Result ℤ
int_of (num n) = ok n
int_of (bool true) = ok (pos 1)
int_of (bool false) = ok (pos 0)
int_of (str s) = or_value_error (int_of_text s)
int_of _ = raise type_error

-- the services that are dicts with a `serviceID`
unfoldable pub service_items : List Json → List Json
service_items [] = []
service_items (obj fs ∷ svcs) =
    let rest = service_items svcs in with_id (get (obj fs) "serviceID") rest
  where
    with_id : Result Json → List Json → List Json
    with_id (ok id) rest = if truthy id then obj (field "serviceID" id end) ∷ rest else rest
    with_id (raise e) rest = rest
service_items (_ ∷ svcs) = service_items svcs

abbrev default_options : BleConnectOptions
default_options = record { services = []; cached = false; cache_idle_purge = pos 3600 }

-- what `ble` says of the services and the cache; `retries` is carried along
unfoldable pub ble_options : ℤ → Json → Result (ℤ × BleConnectOptions)
ble_options retries ble_config =
    if is_dict ble_config
    then Python.◌>>=◌ (get_default ble_config "services" (arr nil)) (λ listed.
      Python.◌>>=◌ (iterate listed) (λ services.
        Python.◌>>=◌ (get_default ble_config "cached" (bool false)) (λ cached.
          Python.◌>>=◌ (get_default ble_config "cacheExpiryDuration" (num (pos 3600))) (λ expiry.
            Python.◌>>=◌ (int_of expiry) (λ seconds. ok (
              retries,
              record {
                services = service_items services;
                cached = truthy cached;
                cache_idle_purge = seconds;
              },
            ))))))
    else ok (retries, default_options)

-- `_parse_connection_options`
unfoldable pub parse_connection_options : Option Json → Result (ℤ × BleConnectOptions)
parse_connection_options none = ok (pos 3, default_options)
parse_connection_options (some payload) =
    if truthy payload
    then Python.◌>>=◌ (get_default payload "retries" (num (pos 3))) (λ retries_json.
      Python.◌>>=◌ (int_of retries_json) (λ retries.
        Python.◌>>=◌ (get_default payload "protocolInformation" (obj end)) (λ information.
          Python.◌>>=◌
            (if is_dict information then get_default information "ble" (obj end) else ok (obj end))
            (ble_options retries))))
    else ok (pos 3, default_options)

abbrev pub texts : List String → Items
texts [] = nil
texts (s ∷ ss) = cons (str s) (texts ss)

abbrev pub descriptors_json : List String → Items
descriptors_json [] = nil
descriptors_json (d ∷ ds) = cons (obj (field "descriptorID" (str d) end)) (descriptors_json ds)

abbrev pub characteristics_json : List Characteristic → Items
characteristics_json [] = nil
characteristics_json (c ∷ cs) =
    cons
      (obj (
        field "characteristicID" (str c.characteristic_id) (
          field "flags" (arr (texts c.properties))
            (field "descriptors" (arr (descriptors_json c.descriptors)) end))))
      (characteristics_json cs)

abbrev pub services_json : List Service → Items
services_json [] = nil
services_json (s ∷ ss) =
    cons
      (obj (
        field "serviceID" (str s.service_id)
          (field "characteristics" (arr (characteristics_json s.characteristics)) end)))
      (services_json ss)

-- `_build_connection_response`
abbrev pub build_connection_response : String → List Service → Json
build_connection_response device_id services = obj (
    field "id" (str device_id) (
      field "protocolInformation"
        (obj (field "ble" (obj (field "services" (arr (services_json services)) end)) end)) end))

abbrev pub no_connection : Response
no_connection = create_nipc_problem_response protocolmap_ble_no_connection 400

abbrev pub internal_error : Response
internal_error = create_nipc_problem_response about_blank 500

-- `request.get_json() if request.is_json else None`
abbrev pub body_of : Request → Result (Option Json)
body_of request =
    if request.is_json then Python.◌>>=◌ request.get_json (λ j. ok (some j)) else ok none

abbrev pub address_of : Option BleExtension → String
address_of none = ""
address_of (some d) = d.device_mac_address

module _ (D : Schema) {S : Type 0} (ap : AccessPoint S) (device_id : String) (db : Db D) where
  abbrev pub find_ble : Option BleExtension
  find_ble = D.bledevices.first (λ d. d.device_id == device_id) db.bledevices

  abbrev pub unknown_device : Response
  unknown_device = create_nipc_problem_response invalid_id 404

  -- the best-effort disconnection; its own errors are dropped
  abbrev cleanup : String → Exec S Response (Unit {0})
  cleanup address = try (call (ap.disconnect address)) (λ e. pure tt)

  abbrev connect_error : String → Exc → Exec S Response Response
  connect_error address ble_connection_error = cleanup address >> return no_connection
  connect_error address ble_discovery_error = cleanup address >> return no_connection
  connect_error address e = return internal_error

  unfoldable pub connect : Request → Exec S Response Response
  connect request = do
    return_if (not (is_some find_ble)) unknown_device
    let address = address_of find_ble
    body ← lift (body_of request)
    options ← lift (parse_connection_options body)
    try
        (do
          call (ap.connect address options.1 options.0)
          services ← call (ap.discover address options.1 options.0)
          return (json (build_connection_response device_id services) 200))
        (connect_error address)

  abbrev discovery_error : Exc → Exec S Response Response
  discovery_error ble_discovery_error = return no_connection
  discovery_error e = return internal_error

  unfoldable pub update_connection : Request → Exec S Response Response
  update_connection request = do
    return_if (not (is_some find_ble)) unknown_device
    let address = address_of find_ble
    conn ← gets (ap.get_connection address)
    return_if (not (is_some conn)) no_connection
    body ← lift (body_of request)
    options ← lift (parse_connection_options body)
    try
        (do
          services ← call (ap.discover address options.1 (pos 0))
          return (json (build_connection_response device_id services) 200))
        discovery_error

  abbrev disconnect_error : Exc → Exec S Response Response
  disconnect_error ble_disconnect_error = return no_connection
  disconnect_error e = return internal_error

  unfoldable pub disconnect_from_device : Exec S Response Response
  disconnect_from_device = do
    return_if (not (is_some find_ble)) unknown_device
    try
        (do
          call (ap.disconnect (address_of find_ble))
          return (json (obj (field "id" (str device_id) end)) 200))
        disconnect_error

  abbrev status_response : Option (List Service) → Response
  status_response none = no_connection
  status_response (some services) = json (build_connection_response device_id services) 200

  unfoldable pub get_connection_status : Exec S Response Response
  get_connection_status = do
    return_if (not (is_some find_ble)) unknown_device
    conn ← gets (ap.get_connection (address_of find_ble))
    return (status_response conn)
