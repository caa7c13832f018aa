-- ===== src/AccessPoints/Silabs/Values.antt =====
-- `read`, `write`, `subscribe` and `unsubscribe` of gateway/silabs/silabs_access_point.py, each with
-- the `run` of its operation.
--
-- The events that arrive before the wait is over are an argument. A wait without a timeout that is
-- not over leaves the call without a result, `none`.
use tiedie.Prelude.{
  ℕ, Bool, true, false, ◌&&◌, Option, none, some, List, [], ◌∷◌, String, lookup, nat_eq, string_eq,
  if◌then◌else◌, ◌==ℕ◌, any, ◌==◌,
}
use tiedie.Python.{
  Exc, Result, ok, raise, key_error, attribute_error, ble_read_error, ble_write_error,
  ble_subscribe_error, ble_unsubscribe_error, ◌>>=◌,
}
use tiedie.Ble.Services.{ConnectionRequest, Characteristic}
use tiedie.AccessPoints.Silabs.Operations.{
  Evt, Publication, Kind, reading, writing, subscribing, Operation,
}
use tiedie.AccessPoints.Silabs.Events.{
  read_value, write_value, set_notification, SilabsAccessPoint, receive_all,
}
use tiedie.AccessPoints.Contract.{Key}
use tiedie.AccessPoints.Silabs.Calls.{new_operation, append, send, change, is_set, run}

abbrev pub Waited : Type 0 → Type 0
Waited A = Option (Result A) × SilabsAccessPoint

module _ {V : Type 0} where
  abbrev pub or_key_error : Option V → Result V
  or_key_error none = raise key_error
  or_key_error (some v) = ok v

-- `conn_req.services[service_uuid].characteristics[char_uuid]`
abbrev pub characteristic_of : ConnectionRequest → String → String → Result Characteristic
characteristic_of r service_uuid char_uuid =
    or_key_error (lookup service_uuid r.services) >>= λ service.
    or_key_error (lookup char_uuid service.characteristics)

module _ {A : Type 0} where
  abbrev pub with_found :
      Result Characteristic → SilabsAccessPoint → (Characteristic → Waited A) → Waited A
  with_found (raise e) s f = (some (raise e), s)
  with_found (ok characteristic) s f = f characteristic

  abbrev pub with_connection :
      Option ConnectionRequest
      → String
      → String
      → Exc
      → SilabsAccessPoint
      → (ConnectionRequest → Characteristic → Waited A)
      → Waited A
  with_connection none service_uuid char_uuid e s f = (some (raise e), s)
  with_connection (some r) service_uuid char_uuid e s f =
      with_found (characteristic_of r service_uuid char_uuid) s (f r)

  -- what a method does with the connection of an address and one of its characteristics
  abbrev pub with_characteristic :
      Key → Exc → SilabsAccessPoint → (ConnectionRequest → Characteristic → Waited A) → Waited A
  with_characteristic (address, service_uuid, char_uuid) e s f =
      with_connection (lookup address s.conn_reqs) service_uuid char_uuid e s f

  -- the result of a wait that is over
  abbrev pub waited_for : ℕ → Result A → SilabsAccessPoint → Waited A
  waited_for i r s = if is_set i s then (some r, s) else (none, s)

abbrev pub value_of : Kind → Option (List ℕ)
value_of (reading char_handle value) = value
value_of _ = none

abbrev pub value_in : ℕ → SilabsAccessPoint → Option (List ℕ)
value_in i s = elim (lookup i s.heap) [ none ↦ none | some op ↦ value_of op.kind ]

-- `CLIENT_CONFIG_FLAG_…`
abbrev pub flag_of : List String → Option ℕ
flag_of properties =
    if any (λ p. p == "notify") properties
    then some 1
    else if any (λ p. p == "indicate") properties
    then some 2
    else none

-- `operation.char_handle`, which three kinds of operation do not have
abbrev pub char_handle_of : Kind → Option ℕ
char_handle_of (reading char_handle value) = some char_handle
char_handle_of (writing char_handle value) = some char_handle
char_handle_of (subscribing char_handle properties address service_uuid char_uuid disable) =
    some char_handle
char_handle_of _ = none

abbrev pub is_subscription : Kind → Bool
is_subscription (subscribing char_handle properties address service_uuid char_uuid disable) = true
is_subscription _ = false

-- the subscription that is looked for, if the loop comes to it
-- `break`, an `AttributeError`, or the rest of the loop
abbrev pub subscription_or : Option Operation → ℕ → ℕ → ℕ → Result (Option ℕ) → Result (Option ℕ)
subscription_or none i handle char_handle rest = rest
subscription_or (some op) i handle char_handle rest = elim (char_handle_of op.kind) [
  | none ↦ raise attribute_error
  | some c ↦
      (if is_subscription op.kind && (op.handle ==ℕ handle) && (c ==ℕ char_handle)
        then ok (some i)
        else rest)
]

unfoldable pub find_subscription : ℕ → ℕ → List ℕ → SilabsAccessPoint → Result (Option ℕ)
find_subscription handle char_handle [] s = ok none
find_subscription handle char_handle (i ∷ is) s =
    subscription_or (lookup i s.heap) i handle char_handle
      (find_subscription handle char_handle is s)

abbrev pub disabling : Kind → Kind
disabling (subscribing char_handle properties address service_uuid char_uuid disable) =
    subscribing char_handle properties address service_uuid char_uuid true
disabling k = k

module _ (publish : Publication → Result (Unit {0})) where
  abbrev pub read_of :
      List Evt → SilabsAccessPoint → ConnectionRequest → Characteristic → Waited (Option (List ℕ))
  read_of evts s r characteristic =
      let s' =
        run publish (new_operation (reading characteristic.char_handle none) r.handle)
          (read_value r.handle characteristic.char_handle) evts s in
      waited_for s.next (ok (value_in s.next s')) s'

  unfoldable pub read : List Evt → Key → SilabsAccessPoint → Waited (Option (List ℕ))
  read evts key s = with_characteristic key ble_read_error s (read_of evts s)

  abbrev pub write_of :
      List Evt → List ℕ → SilabsAccessPoint → ConnectionRequest → Characteristic → Waited (Unit {0})
  write_of evts value s r characteristic = waited_for s.next (ok tt) (
      run publish (new_operation (writing characteristic.char_handle value) r.handle)
        (write_value r.handle characteristic.char_handle value) evts s)

  unfoldable pub write : List Evt → Key → List ℕ → SilabsAccessPoint → Waited (Unit {0})
  write evts key value s = with_characteristic key ble_write_error s (write_of evts value s)

  -- Without a flag an error is logged, and the subscription counts as made.
  abbrev pub subscribe_with :
      Option ℕ → List Evt → Operation → ℕ → SilabsAccessPoint → Waited (Unit {0})
  subscribe_with none evts op char_handle s = (some (ok tt), append op s)
  subscribe_with (some flag) evts op char_handle s =
      waited_for s.next (ok tt)
        (run publish op (set_notification op.handle char_handle flag) evts s)

  abbrev pub subscribe_of :
      List Evt → Key → SilabsAccessPoint → ConnectionRequest → Characteristic → Waited (Unit {0})
  subscribe_of evts (address, service_uuid, char_uuid) s r characteristic =
      subscribe_with (flag_of characteristic.properties) evts
        (new_operation
          (subscribing characteristic.char_handle characteristic.properties address service_uuid
            char_uuid false)
          r.handle)
        characteristic.char_handle s

  unfoldable pub subscribe : List Evt → Key → SilabsAccessPoint → Waited (Unit {0})
  subscribe evts key s = with_characteristic key ble_subscribe_error s (subscribe_of evts key s)

  abbrev pub disabled : ℕ → ℕ → List Evt → SilabsAccessPoint → Result (Option ℕ) → Waited (Unit {0})
  disabled handle char_handle evts s (raise e) = (some (raise e), s)
  disabled handle char_handle evts s (ok none) = (some (raise ble_unsubscribe_error), s)
  disabled handle char_handle evts s (ok (some i)) = waited_for i (ok tt) (
      receive_all publish evts (
        send (set_notification handle char_handle 0)
          (change i (λ op. record op { kind = disabling op.kind; is_set = false }) s)))

  unfoldable pub unsubscribe : List Evt → Key → SilabsAccessPoint → Waited (Unit {0})
  unfolding find_subscription
  unsubscribe evts key s = with_characteristic key ble_unsubscribe_error s λ r characteristic.
      disabled r.handle characteristic.char_handle evts s
        (find_subscription r.handle characteristic.char_handle s.operations s)
