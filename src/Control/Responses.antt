-- ===== src/Control/Responses.antt =====
-- Requests, responses and `NipcProblemTypes` of gateway/control.py.
use tiedie.Prelude.{ℕ, Bool, true, Option, none, some, String, ◌==◌}
use tiedie.Python.{Result}
use tiedie.Json.{Json}

pub data NipcProblemTypes : Type 0 where
  invalid_id invalid_sdf_url extension_operation_not_executed : NipcProblemTypes
  sdf_model_already_registered sdf_model_in_use unsupported_uri_scheme : NipcProblemTypes
  property_not_readable property_read_failed : NipcProblemTypes
  property_not_writable property_write_failed : NipcProblemTypes
  event_already_enabled event_not_enabled event_not_registered : NipcProblemTypes
  protocolmap_ble_already_connected protocolmap_ble_no_connection : NipcProblemTypes
  protocolmap_ble_connection_timeout protocolmap_ble_bonding_failed : NipcProblemTypes
  protocolmap_ble_connection_failed protocolmap_ble_service_discovery_failed : NipcProblemTypes
  protocolmap_ble_invalid_service_or_characteristic : NipcProblemTypes
  protocolmap_zigbee_connection_timeout : NipcProblemTypes
  protocolmap_zigbee_invalid_endpoint_or_cluster : NipcProblemTypes
  extension_transmit_invalid_data extension_firmware_rollback : NipcProblemTypes
  extension_firmware_update_failed about_blank : NipcProblemTypes

pub data Response : Type 0 where
  problem : NipcProblemTypes → ℕ → Response
  -- a JSON body and its status
  json : Json → ℕ → Response
  -- an empty body with a status and the header `Location`, if there is one
  empty : ℕ → Option String → Response

-- `create_nipc_problem_response`
abbrev pub create_nipc_problem_response : NipcProblemTypes → ℕ → Response
create_nipc_problem_response error_type status = problem error_type status

abbrev pub status_of : Response → ℕ
status_of (problem error_type status) = status
status_of (json body status) = status
status_of (empty status location) = status

-- What the handlers of registrations read of a request: whether it is JSON, its parsed body or the
-- error of the parser, and the query parameter that the handler asks for.
pub record Request : Type 0 where
  pub is_json : Bool
  pub get_json : Result Json
  pub arg : Option String

-- `if not arg`
abbrev pub is_missing : Option String → Bool
is_missing none = true
is_missing (some s) = s == ""

abbrev pub or_nil : Option String → String
or_nil none = ""
or_nil (some s) = s
