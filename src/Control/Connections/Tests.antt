-- ===== src/Control/Connections/Tests.antt =====
-- The handlers of connections with a scripted access point.
use tiedie.Prelude.{pos, ◌≡◌, ◌≢◌, refl, false, none, some, [], ◌∷◌, find_first, int_of_text, strip}
use tiedie.Python.{ok, ble_connection_error, ble_discovery_error, runtime_error}
use tiedie.Json.{Json, str, arr, obj, nil, cons, end, field, find_field, get, get_default, iterate}
use tiedie.Database.Memory.{memory}
use tiedie.Control.Responses.{Request}
use tiedie.Control.Samples.{full_db, scripted, ble_device, ble_db, request_of}
use tiedie.Control.AccessPoint.{BleConnectOptions}
use tiedie.Control.Connections.{parse_connection_options, service_items, ble_options, find_ble}

abbrev payload : Json
payload = obj (
    field "retries" (str "5") (
      field "protocolInformation"
        (obj (
          field "ble"
            (obj (
              field "services"
                (arr (cons (str "x") (cons (obj (field "serviceID" (str "1809") end)) nil))) end))
            end))
        end))

abbrev options : BleConnectOptions
options = record {
  services = obj (field "serviceID" (str "1809") end) ∷ [];
  cached = false;
  cache_idle_purge = pos 3600;
}

parsed : parse_connection_options (some payload) ≡ ok (pos 5, options)
unfolding parse_connection_options ble_options service_items get_default find_field get iterate
    int_of_text strip
parsed = refl

known : find_ble memory (scripted none) "d1" ble_db ≡ some ble_device
unfolding find_first
known = refl

abbrev posted : Request
posted = request_of payload none

other : runtime_error ≢ ble_discovery_error
other h = cc

other' : runtime_error ≢ ble_connection_error
other' h = cc

missing : find_ble memory (scripted none) "d1" full_db ≡ none
unfolding find_first
missing = refl
