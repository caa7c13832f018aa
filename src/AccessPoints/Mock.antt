-- ===== src/AccessPoints/Mock.antt =====
-- `MockAccessPoint` of gateway/mock/mock_access_point.py, which the tests and a gateway without
-- hardware use. A subscription's thread is represented by its arguments; `send_subscribe_data` is
-- one round of its loop.
mod Refinement
mod Subscriptions
mod Tests
use tiedie.Prelude.{
  ℕ, ℤ, pos, Bool, true, false, Option, none, some, List, [], ◌∷◌, String, ◌==◌, ◌&&◌,
  if◌then◌else◌, Eq, string_eq, Dict, lookup, insert, erase, is_some,
}
use tiedie.Python.{
  Result, ok, raise, ble_connection_error, ble_discovery_error, ble_read_error, ble_write_error,
  ble_subscribe_error, ble_disconnect_error,
}
use tiedie.Database.Session.{Schema, Db}
use tiedie.Ble.Services.{ConnectionRequest, Descriptor, Characteristic, Service, new_characteristic}
use tiedie.Publishing.{Published, Outcome, publish_notification, publish_connection_status}
use tiedie.AccessPoints.Contract.{Key, key_eq, Call, Reply}
use tiedie.AccessPoints.Contract

pub record MockAccessPoint : Type 0 where
  pub conn_reqs : Dict String ConnectionRequest
  -- the threads, as their arguments
  pub subscription_threads : Dict Key Key
  -- what the data producer has sent to the broker
  pub published : Published

-- no connections and no subscriptions
abbrev pub init : MockAccessPoint
init = record { conn_reqs = []; subscription_threads = []; published = [] }

abbrev char1 : Characteristic
char1 = record (new_characteristic "2a37" 1 0x10) {
  descriptors = ("2902", record { descriptor_id = "2902"; desc_handle = 1 }) ∷ [];
}

abbrev pub mock_service : Service
mock_service = record {
  service_id = "180d";
  service_handle = 1;
  characteristics =
      ("2a37", char1)
      ∷ ("2a38", new_characteristic "2a38" 2 0x02)
      ∷ ("2a39", new_characteristic "2a39" 3 0x08)
      ∷ [];
}

-- b"test"
abbrev mock_value : List ℕ
mock_value = 116 ∷ 101 ∷ 115 ∷ 116 ∷ []

abbrev pub mock_read : String → String → Result (List ℕ)
mock_read service_uuid char_uuid =
    if service_uuid == "180d" && char_uuid == "2a38" then ok mock_value else raise ble_read_error

module _ {D : Schema} (db : Db D) where
  abbrev M : Type 0 → Type 0
  M A = MockAccessPoint → Result A × MockAccessPoint

  -- a change of the connections, and its report
  abbrev reported : ℤ → String → Bool → M (Unit {0})
  reported reason address connected s =
      let r = publish_connection_status db (some reason) address connected s.published in
      (r.0, record s { published = r.1 })

  unfoldable pub connect : String → M (Unit {0})
  connect address s =
      if is_some (lookup address s.conn_reqs)
      then (raise ble_connection_error, s)
      else reported (pos 0) address true (record s {
        conn_reqs =
            insert address (record { address = address; handle = 0; services = [] }) s.conn_reqs;
      })

  unfoldable pub disconnect : String → M (Unit {0})
  disconnect address s =
      if is_some (lookup address s.conn_reqs)
      then reported (pos 1) address false (record s { conn_reqs = erase address s.conn_reqs })
      else (raise ble_disconnect_error, s)

  unfoldable pub discover : String → M (List Service)
  discover address s = (
    if is_some (lookup address s.conn_reqs)
        then ok (mock_service ∷ [])
        else raise ble_discovery_error,
    s,
  )

  unfoldable pub read : Key → M (List ℕ)
  read (address, service_uuid, char_uuid) s = (
    if is_some (lookup address s.conn_reqs)
        then mock_read service_uuid char_uuid
        else raise ble_read_error,
    s,
  )

  -- any write is accepted
  unfoldable pub write : Key → List ℕ → M (Unit {0})
  write (address, service_uuid, char_uuid) value s =
      (if is_some (lookup address s.conn_reqs) then ok tt else raise ble_write_error, s)

  unfoldable pub subscribe : Key → M (Unit {0})
  subscribe (address, service_uuid, char_uuid) s =
      let key : Key = (address, service_uuid, char_uuid) in
      if is_some (lookup address s.conn_reqs)
      then (if is_some (lookup key s.subscription_threads)
          then (raise ble_subscribe_error, s)
          else (ok tt, record s { subscription_threads = insert key key s.subscription_threads }))
      else (raise ble_subscribe_error, s)

  unfoldable pub unsubscribe : Key → M (Unit {0})
  unsubscribe key s =
      if is_some (lookup key s.subscription_threads)
      then (ok tt, record s { subscription_threads = erase key s.subscription_threads })
      else (raise ble_subscribe_error, s)

  -- a round of a subscription's loop: nothing once the key is gone
  unfoldable pub send_subscribe_data : Key → List ℕ → ℕ → M (Unit {0})
  send_subscribe_data (address, service_uuid, char_uuid) value time s =
      if is_some (lookup (address, service_uuid, char_uuid) s.subscription_threads)
      then (let r = publish_notification db address service_uuid char_uuid value time s.published in
          (r.0, record s { published = r.1 }))
      else (ok tt, s)

  abbrev pub done_of : Result (Unit {0}) → Result Reply
  done_of (ok _) = ok Reply.done
  done_of (raise e) = raise e

  abbrev services_of : Result (List Service) → Result Reply
  services_of (ok svcs) = ok (Reply.services svcs)
  services_of (raise e) = raise e

  abbrev bytes_of : Result (List ℕ) → Result Reply
  bytes_of (ok value) = ok (Reply.bytes value)
  bytes_of (raise e) = raise e

  abbrev done : Result (Unit {0}) × MockAccessPoint → Result Reply × MockAccessPoint
  done r = (done_of r.0, r.1)

  -- A call of the access point. A subscription's thread answers nobody.
  abbrev pub call : Call → M Reply
  call (Call.connect a) s = done (connect a s)
  call (Call.disconnect a) s = done (disconnect a s)
  call (Call.discover a) s = let r = discover a s in (services_of r.0, r.1)
  call (Call.read k) s = let r = read k s in (bytes_of r.0, r.1)
  call (Call.write k b) s = done (write k b s)
  call (Call.subscribe k) s = done (subscribe k s)
  call (Call.unsubscribe k) s = done (unsubscribe k s)
  call (Call.notify k b time) s = (ok Reply.done, (send_subscribe_data k b time s).1)

  abbrev pub calls : List Call → MockAccessPoint → List (Result Reply) × MockAccessPoint
  calls [] s = ([], s)
  calls (c ∷ cs) s = let r = call c s in let rest = calls cs r.1 in (r.0 ∷ rest.0, rest.1)
