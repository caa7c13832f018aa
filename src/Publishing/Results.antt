-- ===== src/Publishing/Results.antt =====
-- Whether a publication raises does not depend on what is published.
use tiedie.Prelude.{◌≡◌, refl, ℤ, Bool, Option, some, none, List, [], ◌∷◌, String}
use tiedie.Database.Rows.{BleExtension, Event}
use tiedie.Database.Session.{Schema, Db}
use tiedie.Publishing.{
  Message, Published, publish_events, if_known, device_of, publish_connection_status,
}

publish_events-result :
    (es : List Event) (m m' : Message) (log log' : Published)
    → (publish_events es m log).0 ≡ (publish_events es m' log').0
unfolding publish_events
publish_events-result [] m m' log log' = refl
publish_events-result (e ∷ es) m m' log log' = refl

if_known-result :
    (d : Option BleExtension) (es : BleExtension → List Event) (m m' : BleExtension → Message)
    (log log' : Published)
    → (if_known d (λ device. publish_events (es device) (m device)) log).0
      ≡ (if_known d (λ device. publish_events (es device) (m' device)) log').0
if_known-result none es m m' log log' = refl
if_known-result (some device) es m m' log log' =
    publish_events-result (es device) (m device) (m' device) log log'

-- Whether a change of a connection can be published depends on the address only.
pub publish_connection_status-result :
    {D : Schema} (db : Db D) (address : String) (reason reason' : Option ℤ)
    (connected connected' : Bool) (log log' : Published)
    → (publish_connection_status db reason address connected log).0
      ≡ (publish_connection_status db reason' address connected' log').0
unfolding publish_connection_status
publish_connection_status-result db address reason reason' connected connected' log log' =
    if_known-result (device_of db address) _ _ _ log log'
