-- ===== src/Publishing/Delivery.antt =====
-- What reaches the broker: nothing.
use tiedie.Prelude.{
  ◌≡◌, ◌⊎◌, ◌↔◌, inl, inr, refl, ℕ, ℤ, Bool, Option, none, some, List, [], ◌∷◌, String,
}
use tiedie.Python.{ok, raise, type_error}
use tiedie.Database.Rows.{BleExtension, Event}
use tiedie.Database.Session.{Schema, Db}
use tiedie.Publishing.{
  Message, Published, Outcome, publish_events, if_known, device_of, of_characteristic, of_type,
  publish_notification, publish_advertisement, publish_connection_status,
}

-- There is a known device with an event of the kind.
abbrev pub IsAwaited : Option BleExtension → (BleExtension → List Event) → Type 0
IsAwaited known events =
    (device : BleExtension) × (event : Event) × (others : List Event) × (known ≡ some device)
    × (events device ≡ event ∷ others)

-- Nothing is sent. The method raises a `TypeError` exactly if the event is awaited, and else it
-- returns.
pub record IsSilent (awaited : Type 0) (log : Published) (r : Outcome) : Type 0 where
  pub unsent : r.1 ≡ log
  pub raises : (r.0 ≡ raise type_error) ↔ awaited
  pub ends : (r.0 ≡ ok tt) ⊎ (r.0 ≡ raise type_error)

events-IsSilent :
    (device : BleExtension) (es : List Event) (events : BleExtension → List Event) (m : Message)
    (log : Published)
    → events device ≡ es
    → IsSilent (IsAwaited (some device) events) log (publish_events es m log)
unfolding publish_events
events-IsSilent device [] events m log h = record {
  unsent = refl;
  raises = (λ e. cc, λ (d, e, es, same, some_event). cc);
  ends = inl refl;
}
events-IsSilent device (e ∷ es) events m log h = record {
  unsent = refl;
  raises = (λ _. (device, e, es, refl, h), λ _. refl);
  ends = inr refl;
}

known-IsSilent :
    (known : Option BleExtension) (events : BleExtension → List Event) (m : BleExtension → Message)
    (log : Published)
    → IsSilent
        (IsAwaited known events)
        log
        (if_known known (λ device. publish_events (events device) (m device)) log)
known-IsSilent none events m log = record {
  unsent = refl;
  raises = (λ e. cc, λ (d, e, es, same, some_event). cc);
  ends = inl refl;
}
known-IsSilent (some device) events m log =
    events-IsSilent device (events device) events (m device) log refl

-- Whatever is in the database and whatever happens, the publication of a notification, of an
-- advertisement and of a change of a connection each send nothing to the broker. Each raises a
-- `TypeError` exactly if the device of the address is known and has an event of the kind, and
-- returns otherwise.
pub publications-IsSilent :
    {D : Schema} (db : Db D) (mac service_uuid char_uuid : String) (value : List ℕ) (time : ℕ)
    (rssi : ℤ) (reason : Option ℤ) (connected : Bool) (log : Published)
    → IsSilent
        (IsAwaited (device_of db mac) (λ device.
          D.event.all (of_characteristic device.device_id service_uuid char_uuid) db.event))
        log
        (publish_notification db mac service_uuid char_uuid value time log)
      × IsSilent
          (IsAwaited
            (device_of db mac)
            (λ device. D.event.all (of_type device.device_id "advertisements") db.event))
          log
          (publish_advertisement db mac rssi value log)
      × IsSilent
          (IsAwaited
            (device_of db mac)
            (λ device. D.event.all (of_type device.device_id "connection_events") db.event))
          log
          (publish_connection_status db reason mac connected log)
unfolding publish_notification publish_advertisement publish_connection_status
publications-IsSilent db mac service_uuid char_uuid value time rssi reason connected log = (
  known-IsSilent (device_of db mac) _ _ log,
  known-IsSilent (device_of db mac) _ _ log,
  known-IsSilent (device_of db mac) _ _ log,
)
