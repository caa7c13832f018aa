-- ===== src/Control/AccessPoint.antt =====
-- The access point as the handlers see it: `AccessPoint` of gateway/access_point.py, the responses
-- of gateway/access_point_responses.py and the data of gateway/ble_types.py. What an access point
-- does to its state `S` is its own; the handlers only call it.
use tiedie.Prelude.{ℕ, ℤ, pos, Bool, false, Option, List, String}
use tiedie.Python.{Result, ok, raise}
use tiedie.Python.Handlers.{Exec, Flow, value, raised}
use tiedie.Json.{Json}

pub record Characteristic : Type 0 where
  pub characteristic_id : String
  pub properties : List String
  -- the ids of its descriptors
  pub descriptors : List String

pub record Service : Type 0 where
  pub service_id : String
  pub characteristics : List Characteristic

-- `services` has what the caller passes: dicts or texts
pub record BleConnectOptions : Type 0 where
  pub services : List Json
  pub cached : Bool
  pub cache_idle_purge : ℤ

-- `BleConnectOptions(services=services)`
abbrev pub options_of : List Json → BleConnectOptions
options_of services = record { services = services; cached = false; cache_idle_purge = pos 3600 }

pub record AccessPoint (S : Type 0) : Type 0 where
  -- the services of the connection with an address, if there is one
  pub get_connection : String → S → Option (List Service)
  pub connect : String → BleConnectOptions → ℤ → S → Result (Unit {0}) × S
  pub discover : String → BleConnectOptions → ℤ → S → Result (List Service) × S
  -- the value is `None` when an operation ended without one
  pub read : String → String → String → S → Result (Option (List ℕ)) × S
  pub write : String → String → String → List ℕ → S → Result (Unit {0}) × S
  pub disconnect : String → S → Result (Unit {0}) × S

abbrev flow_of : {R A : Type 0} → Result A → Flow R A
flow_of (ok a) = value a
flow_of (raise e) = raised e

-- a call of the access point from a handler
abbrev pub call : {S R A : Type 0} → (S → Result A × S) → Exec S R A
call f s = let r = f s in (flow_of r.0, r.1)
