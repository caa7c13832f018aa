-- ===== src/AccessPoints/Silabs/Tests.antt =====
-- Runs of the Silicon Labs access point, and the theorems at concrete histories.
use tiedie.Prelude.{
  ◌≡◌, refl, ◌+◌, ◌≤◌, false, none, some, List, [], ◌∷◌, String, lookup, insert, string_eq, nat_eq,
  length, lower, keep, any, hex_value, if◌then◌else◌, ◌==ℕ◌,
}
use tiedie.Python.{Exc, Result, ok, raise, type_error, attribute_error}
use tiedie.Ble.Characteristics.{properties_of}
use tiedie.Ble.Services.{Service, new_characteristic}
use tiedie.AccessPoints.Silabs.Operations.{
  connection_opened, procedure_completed, characteristic_value, Opcode, Publication, reading,
  handle_event,
}
use tiedie.AccessPoints.Silabs.Events.{SilabsAccessPoint, receive_all}
use tiedie.AccessPoints.Silabs.Calls.{
  Radio, append, new_operation, is_set, max_connections, is_public_address, connect,
}
use tiedie.AccessPoints.Silabs.Values.{subscribe, unsubscribe}
use tiedie.AccessPoints.Silabs.Connecting.{opens, connect-opens}
use tiedie.AccessPoints.Silabs.Refusal.{connect_refused}
use tiedie.AccessPoints.Silabs.Lost.{read_waits_forever}
use tiedie.AccessPoints.Silabs.Steps.{Step, init, steps}
use tiedie.AccessPoints.Silabs.Bounds.{steps-init_bounded}
use tiedie.AccessPoints.Silabs.Unsubscribing.{history, unsubscribe_fails}

abbrev accepting : Publication → Result (Unit {0})
accepting p = ok tt

abbrev failing : Publication → Result (Unit {0})
failing p = raise type_error

-- the first attempt is not answered, the second one is
abbrev radio : Radio
radio k = if k ==ℕ 0 then (1, []) else (2, connection_opened 2 ∷ [])

abbrev address : String
address = "00:11:22:33:44:55"

connects : (connect accepting radio address 3 init).0 ≡ ok tt
unfolding connect lookup insert lower hex_value is_public_address handle_event receive_all keep
connects = refl

connect-opens_example : opens (connect accepting radio address 3 init).1.commands ≤ opens [] + 4
connect-opens_example = connect-opens accepting radio address 3 init

connect_refused_example : (e : Exc) × ((connect failing radio address 3 init).0 ≡ raise e)
connect_refused_example = connect_refused failing address type_error radio 3 init refl

abbrev reads : SilabsAccessPoint
reads = append (new_operation (reading 7 none) 2) init

read_waits_forever_example :
    is_set 0 (
      receive_all accepting
        (procedure_completed 2 1 ∷ characteristic_value 2 7 Opcode.read_response (1 ∷ []) ∷ [])
        reads)
    ≡ false
unfolding lookup insert
read_waits_forever_example =
    read_waits_forever accepting 0 7 2 1
      (characteristic_value 2 7 Opcode.read_response (1 ∷ []) ∷ []) reads
      (new_operation (reading 7 none) 2, refl, (refl, refl, refl))

abbrev heart_rate : Service
heart_rate = record {
  service_id = "180d";
  service_handle = 1;
  characteristics = ("2a37", new_characteristic "2a37" 7 0x10) ∷ [];
}

abbrev sessions : List Step
sessions =
    Step.connect radio address 3
    ∷ Step.discover [] address (("180d", heart_rate) ∷ [])
    ∷ Step.subscribe (procedure_completed 2 0 ∷ []) (address, "180d", "2a37")
    ∷ []

steps-init_bounded_example : length (steps accepting sessions init).conn_reqs ≤ max_connections
steps-init_bounded_example = steps-init_bounded accepting sessions

unsubscribe_fails_example :
    unsubscribe accepting [] (address, "180d", "2a37") (history accepting sessions)
    ≡ (some (raise attribute_error), history accepting sessions)
unfolding connect lookup insert lower hex_value is_public_address handle_event receive_all keep
    subscribe any properties_of
unsubscribe_fails_example =
    unsubscribe_fails accepting sessions [] address "180d" "2a37"
      (record { address = address; handle = 2; services = ("180d", heart_rate) ∷ [] })
      (new_characteristic "2a37" 7 0x10) refl refl
