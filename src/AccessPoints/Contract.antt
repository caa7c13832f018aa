-- ===== src/AccessPoints/Contract.antt =====
-- What the docstrings of gateway/access_point.py promise the callers of an access point, over an abstract state: the
-- addresses that are connected and the characteristics that are subscribed to.
use tiedie.Prelude.{
  ◌≡◌, ℕ, Bool, true, false, List, [], ◌∷◌, String, ◌==◌, ◌&&◌, if◌then◌else◌, Eq, string_eq, arith,
  eq_iff, ◌↔◌,
}
use tiedie.Python.{
  Result, ok, raise, ble_connection_error, ble_discovery_error, ble_read_error, ble_write_error,
  ble_subscribe_error, ble_unsubscribe_error, ble_disconnect_error,
}
use tiedie.Ble.Services.{Service}

-- an address, a service and a characteristic
abbrev pub Key : Type 0
Key = String × String × String

abbrev pub same_key : Key → Key → Bool
same_key (a, s, c) (b, t, d) = a == b && s == t && c == d

pub same_key_iff : (j k : Key) → (same_key j k ≡ true) ↔ (j ≡ k)
same_key_iff (a, s, c) (b, t, d) = (
  λ h. ground (arith, eq_iff a b, eq_iff s t, eq_iff c d),
  λ h. ground (arith, eq_iff a b, eq_iff s t, eq_iff c d),
)

instance abbrev pub key_eq : Eq Key
key_eq = record { beq = same_key; beq_iff = same_key_iff }

pub data Call : Type 0 where
  connect discover disconnect : String → Call
  read subscribe unsubscribe : Key → Call
  write : Key → List ℕ → Call
  -- the device sends a value of a characteristic, at a time
  notify : Key → List ℕ → ℕ → Call

pub data Reply : Type 0 where
  done : Reply
  services : List Service → Reply
  bytes : List ℕ → Reply

pub record View : Type 0 where
  pub connected : String → Bool
  pub subscribed : Key → Bool

module _ {K : Type 0} ⦃e : Eq K⦄ where
  abbrev pub put : K → Bool → (K → Bool) → K → Bool
  put k b f j = if e.beq k j then b else f j

-- What the devices offer, and what reading a characteristic of one gives. Every method raises the
-- error that its docstring names.
module _ (offered : List Service) (value_of : String → String → Result (List ℕ)) where
  abbrev read_reply : Result (List ℕ) → Result Reply
  read_reply (ok b) = ok (bytes b)
  read_reply (raise e) = raise e

  abbrev pub promised : Call → View → Result Reply × View
  promised (connect a) v =
      if v.connected a
      then (raise ble_connection_error, v)
      else (ok done, record v { connected = put a true v.connected })
  promised (disconnect a) v =
      if v.connected a
      then (ok done, record v { connected = put a false v.connected })
      else (raise ble_disconnect_error, v)
  promised (discover a) v =
      (if v.connected a then ok (services offered) else raise ble_discovery_error, v)
  promised (read (a, s, c)) v =
      (if v.connected a then read_reply (value_of s c) else raise ble_read_error, v)
  promised (write (a, s, c) b) v = (if v.connected a then ok done else raise ble_write_error, v)
  promised (subscribe (a, s, c)) v =
      if v.connected a && (if v.subscribed (a, s, c) then false else true)
      then (ok done, record v { subscribed = put (a, s, c) true v.subscribed })
      else (raise ble_subscribe_error, v)
  promised (unsubscribe k) v =
      if v.subscribed k
      then (ok done, record v { subscribed = put k false v.subscribed })
      else (raise ble_unsubscribe_error, v)
  promised (notify k b time) v = (ok done, v)

  abbrev pub promises : List Call → View → List (Result Reply) × View
  promises [] v = ([], v)
  promises (c ∷ cs) v = let r = promised c v in let rest = promises cs r.1 in (r.0 ∷ rest.0, rest.1)
