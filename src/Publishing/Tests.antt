-- ===== src/Publishing/Tests.antt =====
-- The theorems on publishing at a database with a thermometer.
use tiedie.Prelude.{◌≡◌, refl, pos, true, [], ◌∷◌, String, none, find_first, lower, keep}
use tiedie.Python.{raise, type_error}
use tiedie.Database.Rows.{BleExtension, Event}
use tiedie.Database.Session.{Db}
use tiedie.Database.Memory.{memory}
use tiedie.Control.Samples.{alarm_row, empty_db}
use tiedie.Publishing.{
  device_of, of_characteristic, of_type, publish_events, publish_notification,
  publish_advertisement, publish_connection_status,
}
use tiedie.Publishing.Delivery.{IsAwaited, IsSilent, publications-IsSilent}

abbrev thermometer : BleExtension
thermometer = record { device_id = "d1"; device_mac_address = "AA:BB:CC:DD:EE:FF" }

abbrev event_of : String → String → Event
event_of id kind = record alarm_row { instance_id = id; event_name = id; event_type = kind }

abbrev db : Db memory
db = record empty_db {
  bledevices = thermometer ∷ [];
  event = alarm_row ∷ event_of "n#a" "advertisements" ∷ event_of "n#c" "connection_events" ∷ [];
}

publications-IsSilent_example :
    IsSilent
      (IsAwaited
        (device_of db "aa:bb:cc:dd:ee:ff")
        (λ device. memory.event.all (of_characteristic device.device_id "1809" "2A1C") db.event))
      []
      (publish_notification db "aa:bb:cc:dd:ee:ff" "1809" "2A1C" (7 ∷ []) 5 [])
    × IsSilent
        (IsAwaited
          (device_of db "aa:bb:cc:dd:ee:ff")
          (λ device. memory.event.all (of_type device.device_id "advertisements") db.event))
        []
        (publish_advertisement db "aa:bb:cc:dd:ee:ff" (pos 0) (7 ∷ []) [])
    × IsSilent
        (IsAwaited
          (device_of db "aa:bb:cc:dd:ee:ff")
          (λ device. memory.event.all (of_type device.device_id "connection_events") db.event))
        []
        (publish_connection_status db none "aa:bb:cc:dd:ee:ff" true [])
publications-IsSilent_example =
    publications-IsSilent db "aa:bb:cc:dd:ee:ff" "1809" "2A1C" (7 ∷ []) 5 (pos 0) none true []

-- A device with events for the characteristic.
refused :
    publish_notification db "aa:bb:cc:dd:ee:ff" "1809" "2A1C" (7 ∷ []) 5 [] ≡ (raise type_error, [])
unfolding publish_notification publish_events find_first lower keep
refused = refl
