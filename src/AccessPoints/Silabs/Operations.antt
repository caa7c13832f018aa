-- ===== src/AccessPoints/Silabs/Operations.antt =====
-- The operations of gateway/silabs/ble_operations: one constructor of `Kind` for each class, with
-- the fields of the class, and `handle_event`, which calls the method named after the event.
use tiedie.Prelude.{
  ℕ, ℤ, Bool, true, false, ◌&&◌, Option, none, some, List, [], ◌∷◌, ◌++◌, String, Dict, lookup,
  insert, string_eq, if◌then◌else◌, ◌==ℕ◌, hexlify,
}
use tiedie.Python.{Result, ok, raise, attribute_error, ◌>>=◌}
use tiedie.Ble.Services.{Characteristic, Service, new_characteristic}

pub data Opcode : Type 0 where
  read_response value_notification value_indication other : Opcode

-- The events of the radio that something handles. A connection is its handle.
pub data Evt : Type 0 where
  system_boot : Evt
  connection_opened : ℕ → Evt
  -- with the reason
  connection_closed : ℕ → ℤ → Evt
  -- a UUID has its bytes in the order of the radio
  gatt_service gatt_descriptor : ℕ → List ℕ → ℕ → Evt
  gatt_characteristic : ℕ → List ℕ → ℕ → ℕ → Evt
  characteristic_value : ℕ → ℕ → Opcode → List ℕ → Evt
  procedure_completed : ℕ → ℕ → Evt
  -- an address, its signal strength and the bytes, in a report of either kind
  scan_report : String → ℤ → List ℕ → Evt

-- What an operation asks of the data producer.
pub data Publication : Type 0 where
  connection_status : Option ℤ → String → Bool → Publication
  notification : String → String → String → List ℕ → Publication
  advertisement : String → ℤ → List ℕ → Publication

-- `DiscoverOperation`: the current service and characteristic are their keys in the dicts
pub record Discovery : Type 0 where
  pub services : Dict String Service
  pub current_service : Option String
  pub current_characteristic : Option String
  pub result : Option ℕ

pub data Kind : Type 0 where
  -- the address
  connecting : String → Kind
  disconnecting scanning : Kind
  discovering : Discovery → Kind
  -- the handle of the characteristic, and the value once it came
  reading : ℕ → Option (List ℕ) → Kind
  writing : ℕ → List ℕ → Kind
  -- the handle of the characteristic, its properties, the address, the service, the
  -- characteristic, and whether notifications are to be disabled
  subscribing : ℕ → List String → String → String → String → Bool → Kind

pub record Operation : Type 0 where
  pub kind : Kind
  pub handle : ℕ
  -- the flag of the `threading.Event`
  pub is_set : Bool
  pub is_done : Bool

abbrev pub Handled : Type 0
Handled = Result (Unit {0}) × Operation

abbrev set : Operation → Operation
set op = record op { is_set = true }

-- the rest of a handler after a publication, which may raise
abbrev published : Result (Unit {0}) → Operation → Operation → Handled
published (ok _) before after = (ok tt, after)
published (raise e) before after = (raise e, before)

reversed : List ℕ → List ℕ
reversed [] = []
reversed (b ∷ bs) = reversed bs ++ b ∷ []

-- `evt.uuid[::-1].hex()`
uuid_text : List ℕ → String
unfolding reversed
uuid_text uuid = hexlify (reversed uuid)

module _ {V : Type 0} where
  -- a change of the entry of a key, which is an error without a key or an entry
  abbrev change : Option String → (V → Result V) → Dict String V → Result (Dict String V)
  change none f d = raise attribute_error
  change (some k) f d = elim (lookup k d) [
    | none ↦ raise attribute_error
    | some v ↦ f v >>= λ w. ok (insert k w d)
  ]

-- the characteristics of a service, changed
abbrev in_service :
    (Dict String Characteristic → Result (Dict String Characteristic)) → Service → Result Service
in_service f s = f s.characteristics >>= λ d. ok (record s { characteristics = d })

abbrev with_services : Discovery → Result (Dict String Service) → Result Discovery
with_services d r = r >>= λ svcs. ok (record d { services = svcs })

pub add_service : List ℕ → ℕ → Discovery → Result Discovery
unfolding uuid_text
add_service uuid service d =
    let service_id = uuid_text uuid in
    ok (record d {
      services =
          insert service_id
            (record { service_id = service_id; service_handle = service; characteristics = [] })
            d.services;
    })

pub add_characteristic : List ℕ → ℕ → ℕ → Discovery → Result Discovery
unfolding uuid_text
add_characteristic uuid handle properties d =
    let id = uuid_text uuid in
    with_services d (
      change d.current_service
        (in_service λ cs. ok (insert id (new_characteristic id handle properties) cs)) d.services)

pub add_descriptor : List ℕ → ℕ → Discovery → Result Discovery
unfolding uuid_text
add_descriptor uuid handle d =
    let id = uuid_text uuid in
    with_services d (
      change d.current_service
        (in_service (
          change d.current_characteristic λ c. ok (record c {
            descriptors =
                insert id (record { descriptor_id = id; desc_handle = handle }) c.descriptors;
          })))
        d.services)

-- a method that handles an event for the operation's own connection, and for no other
abbrev for_handle : ℕ → Operation → Handled → Handled
for_handle connection op handled = if op.handle ==ℕ connection then handled else (ok tt, op)

abbrev discovered : Operation → Result Discovery → Handled
discovered op (ok d) = (ok tt, record op { kind = discovering d })
discovered op (raise e) = (raise e, op)

abbrev is_value : Opcode → Bool
is_value Opcode.value_notification = true
is_value Opcode.value_indication = true
is_value _ = false

abbrev is_read : Opcode → Bool
is_read Opcode.read_response = true
is_read _ = false

-- what the data producer does with a publication
module _ (publish : Publication → Result (Unit {0})) where
  abbrev pub on_connecting : String → Evt → Operation → Handled
  on_connecting address (connection_opened c) op =
      for_handle c op (published (publish (connection_status none address true)) op (set op))
  on_connecting address (connection_closed c reason) op = for_handle c op (
      published (publish (connection_status (some reason) address false)) op
        (if op.is_set then record op { is_done = true } else op))
  on_connecting address _ op = (ok tt, op)

  abbrev on_disconnecting : Evt → Operation → Handled
  on_disconnecting (connection_closed c reason) op =
      for_handle c op (ok tt, record op { is_set = true; is_done = true })
  on_disconnecting _ op = (ok tt, op)

  abbrev on_scanning : Evt → Operation → Handled
  on_scanning (scan_report address rssi bytes) op =
      published (publish (advertisement address rssi bytes)) op op
  on_scanning _ op = (ok tt, op)

  -- `self.set()` and `self.clear()` wake the thread that waits and leave the flag down
  abbrev on_discovering : Discovery → Evt → Operation → Handled
  on_discovering d (gatt_service c uuid service) op =
      for_handle c op (discovered op (add_service uuid service d))
  on_discovering d (gatt_characteristic c uuid handle properties) op =
      for_handle c op (discovered op (add_characteristic uuid handle properties d))
  on_discovering d (gatt_descriptor c uuid handle) op =
      for_handle c op (discovered op (add_descriptor uuid handle d))
  on_discovering d (procedure_completed c result) op =
      for_handle c op (
        ok tt,
        record op { kind = discovering (record d { result = some result }); is_set = false },
      )
  on_discovering d _ op = (ok tt, op)

  abbrev pub on_reading : ℕ → Option (List ℕ) → Evt → Operation → Handled
  on_reading char_handle value (characteristic_value c characteristic opcode bytes) op =
      for_handle c op (
        if (char_handle ==ℕ characteristic) && is_read opcode
        then (ok tt, record op { kind = reading char_handle (some bytes); is_set = true })
        else (ok tt, op))
  on_reading char_handle value (procedure_completed c result) op =
      for_handle c op (ok tt, record op { is_done = true })
  on_reading char_handle value _ op = (ok tt, op)

  abbrev on_writing : Evt → Operation → Handled
  on_writing (procedure_completed c result) op =
      for_handle c op (ok tt, record op { is_set = true; is_done = true })
  on_writing _ op = (ok tt, op)

  abbrev on_subscribing : ℕ → String → String → String → Bool → Evt → Operation → Handled
  on_subscribing char_handle address service_uuid char_uuid disable
        (characteristic_value c characteristic opcode bytes) op =
      for_handle c op (
        if (char_handle ==ℕ characteristic) && is_value opcode
        then published (publish (notification address service_uuid char_uuid bytes)) op op
        else (ok tt, op))
  on_subscribing char_handle address service_uuid char_uuid disable (procedure_completed c result)
        op =
      for_handle c op
        (ok tt, record op { is_set = true; is_done = if disable then true else op.is_done })
  on_subscribing char_handle address service_uuid char_uuid disable _ op = (ok tt, op)

  abbrev pub dispatch : Kind → Evt → Operation → Handled
  dispatch (connecting address) evt op = on_connecting address evt op
  dispatch disconnecting evt op = on_disconnecting evt op
  dispatch scanning evt op = on_scanning evt op
  dispatch (discovering d) evt op = on_discovering d evt op
  dispatch (reading char_handle value) evt op = on_reading char_handle value evt op
  dispatch (writing char_handle bytes) evt op = on_writing evt op
  dispatch (subscribing char_handle properties address service_uuid char_uuid disable) evt op =
      on_subscribing char_handle address service_uuid char_uuid disable evt op

  unfoldable pub handle_event : Evt → Operation → Handled
  unfolding add_service add_characteristic add_descriptor uuid_text reversed
  handle_event evt op = dispatch op.kind evt op
