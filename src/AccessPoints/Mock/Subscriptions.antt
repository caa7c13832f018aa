-- ===== src/AccessPoints/Mock/Subscriptions.antt =====
-- A subscription of the mock access point outlives its connection.
use tiedie.Prelude.{
  ◌≡◌, refl, ◌∙◌, Bool, true, false, List, [], ◌∷◌, lookup, is_some, All, arith, Bool-cases, inl,
  inr, string_eq,
}
use tiedie.Python.{ok, raise, ble_subscribe_error}
use tiedie.Database.Session.{Schema, Db}
use tiedie.AccessPoints.Contract.{Key, key_eq, Reply, same_key, Call, View}
use tiedie.AccessPoints.Mock.{MockAccessPoint, call, calls, subscribe, unsubscribe}
use tiedie.AccessPoints.Mock.Refinement.{calls-Shows, mock_promised, mock_promises}

-- does a call end the subscription?
abbrev pub ends : Key → Call → Bool
ends k (Call.unsubscribe j) = same_key j k
ends k c = false

abbrev view : MockAccessPoint → View
view s = record {
  connected = λ a. is_some (lookup a s.conn_reqs);
  subscribed = λ k. is_some (lookup k s.subscription_threads);
}

module _ {D : Schema} (db : Db D) where
  promised_keeps :
      (k : Key) (c : Call) (v : View)
      → ends k c ≡ false
      → v.subscribed k ≡ true
      → (mock_promised c v).1.subscribed k ≡ true
  promised_keeps k (Call.connect a) v e h = ground arith
  promised_keeps k (Call.disconnect a) v e h = ground arith
  promised_keeps k (Call.discover a) v e h = h
  promised_keeps k (Call.read j) v e h = h
  promised_keeps k (Call.write j b) v e h = h
  promised_keeps k (Call.subscribe j) v e h = ground arith
  promised_keeps k (Call.unsubscribe j) v e h = ground arith
  promised_keeps k (Call.notify j b t) v e h = h

  promises_keep :
      (k : Key) (cs : List Call) (v : View)
      → All (λ c. ends k c ≡ false) cs
      → v.subscribed k ≡ true
      → (mock_promises cs v).1.subscribed k ≡ true
  promises_keep k [] v e h = h
  promises_keep k (c ∷ cs) v (e, es) h = promises_keep k cs _ es (promised_keeps k c v e h)

  subscribed_already :
      (k : Key) (s : MockAccessPoint)
      → is_some (lookup k s.subscription_threads) ≡ true
      → ((call db (Call.subscribe k) s).0 ≡ raise ble_subscribe_error)
        × ((call db (Call.unsubscribe k) s).0 ≡ ok Reply.done)
  unfolding subscribe unsubscribe
  subscribed_already (a, x, y) s h = (
    elim (Bool-cases (is_some (lookup a s.conn_reqs))) [ inl c ↦ rw (c, h) | inr c ↦ rw c ],
    rw h,
  )

  -- A characteristic that is subscribed to: after any calls of the mock access point but
  -- `unsubscribe` for it, disconnections and connections of its device among them, to subscribe to
  -- it fails with a `BleSubscribeError` and to unsubscribe from it succeeds, also while its device
  -- is not connected.
  pub subscription_stays :
      (k : Key) (cs : List Call) (s : MockAccessPoint)
      → is_some (lookup k s.subscription_threads) ≡ true
      → All (λ c. ends k c ≡ false) cs
      → ((call db (Call.subscribe k) (calls db cs s).1).0 ≡ raise ble_subscribe_error)
        × ((call db (Call.unsubscribe k) (calls db cs s).1).0 ≡ ok Reply.done)
  subscription_stays k cs s h es =
      let shown =
        (calls-Shows db cs s (view s)
          (record { connected = λ a. refl; subscribed = λ j. refl })).1 in
      subscribed_already k (calls db cs s).1 (shown.subscribed k ∙ promises_keep k cs (view s) es h)
