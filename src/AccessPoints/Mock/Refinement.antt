-- ===== src/AccessPoints/Mock/Refinement.antt =====
-- The mock access point keeps the contract.
use mathlib.Core.Path.{ap₂}
use tiedie.Prelude.{
  inl, inr, ◌≡◌, refl, ap, Bool, true, false, none, List, [], ◌∷◌, String, Eq, string_eq, Dict,
  lookup, insert, erase, is_some, lookup-insert, lookup-erase, arith, Bool-cases,
}
use tiedie.Python.{Result, ok, raise, ble_subscribe_error}
use tiedie.Database.Session.{Schema, Db}
use tiedie.Publishing.{publish_connection_status}
use tiedie.Publishing.Results.{publish_connection_status-result}
use tiedie.AccessPoints.Contract.{Key, key_eq, Call, Reply, View, put, promised, promises}
use tiedie.AccessPoints.Mock.{
  MockAccessPoint, mock_service, mock_read, connect, disconnect, discover, read, write, subscribe,
  unsubscribe, send_subscribe_data, call, calls, done_of, init,
}

abbrev pub nothing : View
nothing = record { connected = λ a. false; subscribed = λ k. false }

-- The state reads as a view.
pub record Shows (s : MockAccessPoint) (v : View) : Type 0 where
  pub connected : (a : String) → is_some (lookup a s.conn_reqs) ≡ v.connected a
  pub subscribed : (k : Key) → is_some (lookup k s.subscription_threads) ≡ v.subscribed k

is_some-insert :
    {K V : Type 0} ⦃e : Eq K⦄ (k : K) (v : V) (d : Dict K V) (f : K → Bool)
    → ((j : K) → is_some (lookup j d) ≡ f j)
    → (j : K) → is_some (lookup j (insert k v d)) ≡ put k true f j
is_some-insert k v d f h j = rw (lookup-insert k j v d) (ground (arith, h j))

is_some-erase :
    {K V : Type 0} ⦃e : Eq K⦄ (k : K) (d : Dict K V) (f : K → Bool)
    → ((j : K) → is_some (lookup j d) ≡ f j)
    → (j : K) → is_some (lookup j (erase k d)) ≡ put k false f j
is_some-erase k d f h j = rw (lookup-erase k j d) (ground (arith, h j))

abbrev pub mock_promised : Call → View → Result Reply × View
mock_promised = promised (mock_service ∷ []) mock_read

abbrev pub mock_promises : List Call → View → List (Result Reply) × View
mock_promises = promises (mock_service ∷ []) mock_read

module _ {D : Schema} (db : Db D) where
  -- whether a change of an address's connection can be reported
  abbrev pub report : String → Result (Unit {0})
  report a = (publish_connection_status db none a true []).0

  -- Where the mock access point answers otherwise than the contract: a connection and a
  -- disconnection raise what their report raises, and `unsubscribe` raises the error of `subscribe`.
  abbrev pub as_mock : Call → Result Reply → Result Reply
  as_mock (Call.connect a) (ok r) = done_of db (report a)
  as_mock (Call.disconnect a) (ok r) = done_of db (report a)
  as_mock (Call.unsubscribe k) (raise e) = raise ble_subscribe_error
  as_mock c r = r

  abbrev pub all_as_mock : List Call → List (Result Reply) → List (Result Reply)
  all_as_mock (c ∷ cs) (r ∷ rs) = as_mock c r ∷ all_as_mock cs rs
  all_as_mock _ _ = []

  abbrev Keeps : Call → MockAccessPoint → View → Type 0
  Keeps c s v =
      ((call db c s).0 ≡ as_mock c (mock_promised c v).0)
      × Shows (call db c s).1 (mock_promised c v).1

  pub call-Shows : (c : Call) (s : MockAccessPoint) (v : View) → Shows s v → Keeps c s v
  unfolding connect disconnect discover read write subscribe unsubscribe send_subscribe_data
  call-Shows (Call.connect a) s v h = elim (Bool-cases (is_some (lookup a s.conn_reqs))) [
    | inl e ↦ rw (← h.connected a, e) (refl, h)
    | inr e ↦
        rw (← h.connected a, e)
          (
            ap (done_of db) (publish_connection_status-result db a _ _ _ _ _ _),
            record {
              connected = is_some-insert a _ s.conn_reqs v.connected h.connected;
              subscribed = h.subscribed;
            },
          )
  ]
  call-Shows (Call.disconnect a) s v h = elim (Bool-cases (is_some (lookup a s.conn_reqs))) [
    | inl e ↦
        rw (← h.connected a, e)
          (
            ap (done_of db) (publish_connection_status-result db a _ _ _ _ _ _),
            record {
              connected = is_some-erase a s.conn_reqs v.connected h.connected;
              subscribed = h.subscribed;
            },
          )
    | inr e ↦ rw (← h.connected a, e) (refl, h)
  ]
  call-Shows (Call.discover a) s v h = elim (Bool-cases (is_some (lookup a s.conn_reqs))) [
    | inl e ↦ rw (← h.connected a, e) (refl, h)
    | inr e ↦ rw (← h.connected a, e) (refl, h)
  ]
  call-Shows (Call.read (a, x, y)) s v h = elim (Bool-cases (is_some (lookup a s.conn_reqs))) [
    | inl e ↦ rw (← h.connected a, e) (refl, h)
    | inr e ↦ rw (← h.connected a, e) (refl, h)
  ]
  call-Shows (Call.write (a, x, y) b) s v h = elim (Bool-cases (is_some (lookup a s.conn_reqs))) [
    | inl e ↦ rw (← h.connected a, e) (refl, h)
    | inr e ↦ rw (← h.connected a, e) (refl, h)
  ]
  call-Shows (Call.subscribe (a, x, y)) s v h = elim (Bool-cases (is_some (lookup a s.conn_reqs))) [
    | inl c ↦ elim (Bool-cases (is_some (lookup (a, x, y) s.subscription_threads))) [
      | inl e ↦ rw (← h.connected a, ← h.subscribed (a, x, y), c, e) (refl, h)
      | inr e ↦
          rw (← h.connected a, ← h.subscribed (a, x, y), c, e)
            (
              refl,
              record {
                connected = h.connected;
                subscribed =
                    is_some-insert (a, x, y) _ s.subscription_threads v.subscribed h.subscribed;
              },
            )
    ]
    | inr c ↦ rw (← h.connected a, c) (refl, h)
  ]
  call-Shows (Call.unsubscribe k) s v h =
      elim (Bool-cases (is_some (lookup k s.subscription_threads))) [
        | inl e ↦
            rw (← h.subscribed k, e)
              (
                refl,
                record {
                  connected = h.connected;
                  subscribed = is_some-erase k s.subscription_threads v.subscribed h.subscribed;
                },
              )
        | inr e ↦ rw (← h.subscribed k, e) (refl, h)
      ]
  call-Shows (Call.notify (a, x, y) b t) s v h = (
    refl,
    elim (Bool-cases (is_some (lookup (a, x, y) s.subscription_threads))) [
      | inl e ↦ rw e (record { connected = h.connected; subscribed = h.subscribed })
      | inr e ↦ rw e h
    ],
  )

  pub calls-Shows :
      (cs : List Call) (s : MockAccessPoint) (v : View)
      → Shows s v
      → ((calls db cs s).0 ≡ all_as_mock cs (mock_promises cs v).0)
        × Shows (calls db cs s).1 (mock_promises cs v).1
  calls-Shows [] s v h = (refl, h)
  calls-Shows (c ∷ cs) s v h =
      let (same, shown) = call-Shows c s v h in
      let (rest, end) = calls-Shows cs _ _ shown in (ap₂ (λ r rs. r ∷ rs) same rest, end)

  -- From the start, any calls of the mock access point in any order, with any notifications of its
  -- subscription threads in between, get the answers that the contract promises, errors included,
  -- but for two: `unsubscribe` from what is not subscribed to raises a `BleSubscribeError` and not
  -- a `BleUnsubscribeError`, and a connection or disconnection that is made raises what its report
  -- raises, if that fails. Whether an address is connected and whether a characteristic is
  -- subscribed to is at the end what the contract says.
  pub calls-init_refines :
      (cs : List Call)
      → ((calls db cs init).0 ≡ all_as_mock cs (mock_promises cs nothing).0)
        × Shows (calls db cs init).1 (mock_promises cs nothing).1
  unfolding lookup
  calls-init_refines cs =
      calls-Shows cs init nothing (record { connected = λ a. refl; subscribed = λ k. refl })
