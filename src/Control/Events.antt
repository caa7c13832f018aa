-- ===== src/Control/Events.antt =====
-- `enable_event`, `disable_event` and `get_events` of gateway/control.py. `uuid.uuid4()` and
-- `request.base_url` are arguments.
pub mod Changes
mod Tests
use mathlib.Core.Option
use tiedie.Prelude.{
  Bool, true, false, not, ◌&&◌, Option, none, some, List, [], ◌∷◌, String, ◌==◌, ◌+++◌,
  if◌then◌else◌,
}
use tiedie.Python.{Exc, Result, ok, raise, type_error}
use tiedie.Python
use tiedie.Python.Handlers.{Exec, Flow, return, lift, reads, try, return_if, ◌>>=◌, ◌>>◌, gets}
use tiedie.Json.{
  Json, Items, null, str, arr, obj, nil, cons, end, field, index, is_text, is_some, truthy,
}
use tiedie.Database.Tables.{Table}
use tiedie.Database.Rows.{Device, Event}
use tiedie.Database.Session.{Schema, Db, Session, commit, flush, query}
use tiedie.Control.Responses.{
  Response, json, empty, create_nipc_problem_response, is_missing, or_nil, invalid_sdf_url,
  invalid_id, event_already_enabled, about_blank,
}
use tiedie.Control.Lookup.{Checked, no_model, definition, resolve_event}

-- `protocol_map["sdfProtocolMap"]["ble"][k]`
abbrev pub ble_item : Json → String → Result Json
ble_item protocol_map k =
    Python.◌>>=◌ (index protocol_map "sdfProtocolMap")
      (λ maps. Python.◌>>=◌ (index maps "ble") (λ ble. index ble k))

-- A value for a column of texts; a column that is not nullable refuses `None`.
abbrev text_value : Json → Result String
text_value (str s) = ok s
text_value _ = raise type_error

abbrev optional_text : Json → Result (Option String)
optional_text null = ok none
optional_text (str s) = ok (some s)
optional_text _ = raise type_error

-- the ids of the service and of the characteristic, which only an event of the type "gatt" has
unfoldable pub gatt_ids : Json → Json → Result (Option String × Option String)
gatt_ids protocol_map event_type =
    if is_text "gatt" event_type
    then Python.◌>>=◌ (ble_item protocol_map "serviceID") (λ service.
      Python.◌>>=◌ (ble_item protocol_map "characteristicID") (λ characteristic.
        Python.◌>>=◌ (optional_text service) (λ service_id.
          Python.◌>>=◌ (optional_text characteristic)
            (λ characteristic_id. ok (service_id, characteristic_id)))))
    else ok (none, none)

-- the row for an event; its columns are checked when it is written
unfoldable pub event_row : String → String → String → Json → Result Event
event_row event_name instance_id device_id protocol_map =
    Python.◌>>=◌ (ble_item protocol_map "type") (λ kind.
      Python.◌>>=◌ (gatt_ids protocol_map kind) (λ ids.
        Python.◌>>=◌ (text_value kind) (λ event_type. ok (record {
          instance_id = instance_id;
          event_name = event_name;
          device_id = device_id;
          event_type = event_type;
          gatt_service_id = ids.0;
          gatt_characteristic_id = ids.1;
        }))))

abbrev pub named_on : String → String → Event → Bool
named_on event_name device_id event = event.event_name == event_name && event.device_id == device_id

abbrev pub instance_on : String → String → Event → Bool
instance_on device_id instance_id event =
    event.device_id == device_id && event.instance_id == instance_id

-- {"event": …, "instanceId": …}
abbrev pub event_json : Event → Json
event_json event =
    obj (field "event" (str event.event_name) (field "instanceId" (str event.instance_id) end))

abbrev pub events_json : List Event → Items
events_json [] = nil
events_json (event ∷ events) = cons (event_json event) (events_json events)

abbrev no_event : Response
no_event = create_nipc_problem_response invalid_id 400

-- the header `Location`
abbrev pub location : String → String → String
location base_url instance_id = base_url +++ "?instanceId=" +++ instance_id

module _ (D : Schema) where
  abbrev pub find_device : String → Db D → Option Device
  find_device device_id db = D.devices.first (λ d. d.device_id == device_id) db.devices

  abbrev pub find_named : String → String → Db D → Option Event
  find_named event_name device_id db = D.event.first (named_on event_name device_id) db.event

  abbrev pub find_instance : String → String → Db D → Option Event
  find_instance device_id instance_id db =
      D.event.first (instance_on device_id instance_id) db.event

  abbrev internal_error : Exc → Exec (Session D) Response Response
  internal_error e = return (create_nipc_problem_response about_blank 500)

  abbrev pub add_event : Event → Db D → Option (Db D)
  add_event event db = Option.map (λ t. record db { event = t }) (D.event.add event db.event)

  module _ (base_url instance_id device_id : String) where
    abbrev pub enable_checked : String → Checked → Exec (Session D) Response Response
    enable_checked event_name no_model = return (create_nipc_problem_response invalid_sdf_url 400)
    enable_checked event_name (definition protocol_map) = do
      return_if (not (truthy protocol_map)) (create_nipc_problem_response invalid_sdf_url 400)
      event ← query (find_named event_name device_id)
      return_if (is_some event) (create_nipc_problem_response event_already_enabled 400)
      row ← lift (event_row event_name instance_id device_id protocol_map)
      flush (add_event row)
      commit
      return (empty 201 (some (location base_url instance_id)))

    abbrev checked_of : Result Checked → Flow Response Checked
    checked_of (ok c) = Flow.value c
    checked_of (raise e) = Flow.raised e

    -- `event_name` is the query parameter `eventName`
    unfoldable pub enable_event : Option String → Exec (Session D) Response Response
    enable_event event_name = do
      device ← query (find_device device_id)
      return_if (not (is_some device)) (create_nipc_problem_response invalid_id 400)
      try
          (do
            return_if (is_missing event_name) (create_nipc_problem_response invalid_sdf_url 400)
            checked ← reads (λ s. checked_of (resolve_event D s.live (str (or_nil event_name))))
            enable_checked (or_nil event_name) checked)
          internal_error

  abbrev pub disable_found : String → String → Option Event → Exec (Session D) Response Response
  disable_found device_id instance_id none = return no_event
  disable_found device_id instance_id (some event) = do
    flush (λ db.
        some (record db { event = D.event.delete (instance_on device_id instance_id) db.event }))
    commit
    return (empty 204 none)

  -- `instance_id` is the query parameter `instanceId`
  unfoldable pub disable_event : String → Option String → Exec (Session D) Response Response
  disable_event device_id instance_id = do
    return_if (is_missing instance_id) no_event
    try
        (do
          event ← query (find_instance device_id (or_nil instance_id))
          disable_found device_id (or_nil instance_id) event)
        internal_error

  abbrev one_found : Option Event → Option Items → Option Items
  one_found none rest = none
  one_found (some event) rest = Option.map (cons (event_json event)) rest

  -- the events of the asked ids; `none` when one of them is not found
  unfoldable pub find_instances : String → List String → Db D → Option Items
  find_instances device_id [] db = some nil
  find_instances device_id (instance_id ∷ instance_ids) db =
      one_found (find_instance device_id instance_id db) (find_instances device_id instance_ids db)

  abbrev pub listed : Option Items → Response
  listed none = no_event
  listed (some events) = json (arr events) 200

  -- `instance_ids` are the query parameters `instanceId`
  unfoldable pub get_events : String → List String → Exec (Session D) Response Response
  get_events device_id [] = do
    events ← query (λ db. D.event.all (λ event. event.device_id == device_id) db.event)
    return (json (arr (events_json events)) 200)
  get_events device_id (instance_id ∷ instance_ids) = do
    found ← query (find_instances device_id (instance_id ∷ instance_ids))
    return (listed found)
