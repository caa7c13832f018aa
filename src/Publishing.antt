-- ===== src/Publishing.antt =====
-- `DataProducer` of gateway/data_producer.py: what it publishes about notifications, advertisements
-- and connections to the applications that subscribe to a device's events.
--
-- The database is only read, so it is an argument; the state is the messages that were published,
-- with their topics, in order. A message stands for its CBOR encoding.
pub mod Delivery
pub mod Results
mod Tests
use tiedie.Prelude.{
  ℕ, ℤ, Bool, true, false, ◌&&◌, Option, none, some, List, [], ◌∷◌, ◌++◌, String, ◌==◌, lower,
}
use tiedie.Python.{Result, ok, raise, type_error}
use tiedie.Topics.{create_topic_from_event}
use tiedie.Database.Tables.{Table}
use tiedie.Database.Rows.{BleExtension, DataApp, Event}
use tiedie.Database.Session.{Schema, Db}

pub data Message : Type 0 where
  -- the value, the time, the device, the service and the characteristic
  ble_sub : List ℕ → ℕ → String → String → String → Message
  -- the bytes, the signal strength, the address and the device
  ble_adv : List ℕ → ℤ → String → String → Message
  -- the device, the address, whether it is connected, and the reason if the event has one
  ble_connection : String → String → Bool → Option ℤ → Message

abbrev pub Published : Type 0
Published = List (String × Message)

abbrev pub Outcome : Type 0
Outcome = Result (Unit {0}) × Published

abbrev pub after : Outcome → (Published → Outcome) → Outcome
after (ok _, log) f = f log
after (raise e, log) f = (raise e, log)

-- the topic of the next message, if there is one, and the messages after it
abbrev pub publish_one : Result String → Message → Published → (Published → Outcome) → Outcome
publish_one (ok topic) data' log f = f (log ++ (topic, data') ∷ [])
publish_one (raise e) data' log f = (raise e, log)

-- `for data_app in data_apps`
unfoldable pub publish_to : List DataApp → String → Message → Published → Outcome
publish_to [] event_name data' log = (ok tt, log)
publish_to (data_app ∷ data_apps) event_name data' log =
    publish_one (create_topic_from_event data_app.data_app_id event_name) data' log
      (publish_to data_apps event_name data')

abbrev is_text : Option String → String → Bool
is_text none t = false
is_text (some s) t = s == t

-- the events that the three methods select for a device
abbrev pub of_type : String → String → Event → Bool
of_type device_id event_type e = e.device_id == device_id && e.event_type == event_type

abbrev pub of_characteristic : String → String → String → Event → Bool
of_characteristic device_id service_uuid char_uuid e =
    of_type device_id "gatt" e
    && is_text e.gatt_service_id service_uuid
    && is_text e.gatt_characteristic_id char_uuid

module _ {D : Schema} (db : Db D) where
  -- `func.lower(BleExtension.device_mac_address) == func.lower(mac_address)`
  abbrev pub device_of : String → Option BleExtension
  device_of mac_address =
      D.bledevices.first (λ r. lower r.device_mac_address == lower mac_address) db.bledevices

abbrev pub if_known :
    Option BleExtension → (BleExtension → Published → Outcome) → Published → Outcome
if_known none f log = (ok tt, log)
if_known (some device) f log = f device log

-- The query for the data applications of an event,
-- `session.scalars(select(DataApp).filter_by(DataApp.events.contains(event.event_name))).all()`.
-- SQLAlchemy declares `filter_by(self, **kwargs)`: the call with a positional argument is a
-- `TypeError`.
abbrev pub data_apps_of : String → Result (List DataApp)
data_apps_of event_name = raise type_error

abbrev pub with_apps : Result (List DataApp) → String → Message → Published → Outcome
with_apps (ok data_apps) event_name data' log = publish_to data_apps event_name data' log
with_apps (raise e) event_name data' log = (raise e, log)

-- `for event in events`
unfoldable pub publish_events : List Event → Message → Published → Outcome
unfolding publish_to
publish_events [] data' log = (ok tt, log)
publish_events (event ∷ events) data' log =
    after (with_apps (data_apps_of event.event_name) event.event_name data' log)
      (publish_events events data')

module _ {D : Schema} (db : Db D) where
  unfoldable pub publish_notification : String → String → String → List ℕ → ℕ → Published → Outcome
  unfolding publish_events
  publish_notification mac_address service_uuid char_uuid value time =
      if_known (device_of db mac_address) λ device.
        publish_events
          (D.event.all (of_characteristic device.device_id service_uuid char_uuid) db.event)
          (ble_sub value time device.device_id service_uuid char_uuid)

  unfoldable pub publish_advertisement : String → ℤ → List ℕ → Published → Outcome
  unfolding publish_events
  publish_advertisement address rssi data' = if_known (device_of db address) λ device.
      publish_events (D.event.all (of_type device.device_id "advertisements") db.event)
        (ble_adv data' rssi address device.device_id)

  unfoldable pub publish_connection_status : Option ℤ → String → Bool → Published → Outcome
  unfolding publish_events
  publish_connection_status reason address connected = if_known (device_of db address) λ device.
      publish_events (D.event.all (of_type device.device_id "connection_events") db.event)
        (ble_connection device.device_id address connected reason)
