-- ===== src/AccessPoints/Mock/Tests.antt =====
-- The mock access point without any device in the database.
use tiedie.Prelude.{◌≡◌, refl, List, [], ◌∷◌, lookup}
use tiedie.Python.{ok, raise, ble_subscribe_error}
use tiedie.Control.Samples.{empty_db}
use tiedie.AccessPoints.Contract.{Key, key_eq, Call, Reply}
use tiedie.AccessPoints.Mock.{MockAccessPoint, init, call, calls}
use tiedie.AccessPoints.Mock.Refinement.{
  Shows, nothing, all_as_mock, mock_promises, calls-init_refines,
}
use tiedie.AccessPoints.Mock.Subscriptions.{subscription_stays}

abbrev heart : Key
heart = ("c1", "180d", "2a37")

abbrev session : List Call
session =
    Call.connect "c1"
    ∷ Call.connect "c1"
    ∷ Call.subscribe heart
    ∷ Call.notify heart (1 ∷ []) 5
    ∷ Call.read ("c1", "180d", "2a38")
    ∷ Call.disconnect "c1"
    ∷ Call.read ("c1", "180d", "2a38")
    ∷ []

calls-init_refines_example :
    ((calls empty_db session init).0
      ≡ all_as_mock empty_db session (mock_promises session nothing).0)
    × Shows (calls empty_db session init).1 (mock_promises session nothing).1
calls-init_refines_example = calls-init_refines empty_db session

abbrev listening : MockAccessPoint
listening = record { conn_reqs = []; subscription_threads = (heart, heart) ∷ []; published = [] }

abbrev again : List Call
again = Call.connect "c1" ∷ Call.disconnect "c1" ∷ []

subscription_stays_example :
    ((call empty_db (Call.subscribe heart) (calls empty_db again listening).1).0
      ≡ raise ble_subscribe_error)
    × ((call empty_db (Call.unsubscribe heart) (calls empty_db again listening).1).0
        ≡ ok Reply.done)
unfolding lookup
subscription_stays_example =
    subscription_stays empty_db heart again listening refl (refl, (refl, tt))
