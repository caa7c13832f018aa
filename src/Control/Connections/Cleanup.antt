-- ===== src/Control/Connections/Cleanup.antt =====
-- What the handlers of connections leave behind.
use tiedie.Prelude.{ℤ, ◌≡◌, ◌≢◌, Option, none, some, String, arith}
use tiedie.Python.{Exc, ok, raise, ble_connection_error, ble_discovery_error}
use tiedie.Python.Handlers.{returned}
use tiedie.Json.{Json}
use tiedie.Database.Rows.{BleExtension}
use tiedie.Database.Session.{Schema, Db}
use tiedie.Control.Responses.{
  Request, problem, invalid_id, about_blank, protocolmap_ble_no_connection,
}
use tiedie.Control.Requests.{reply, state_after}
use tiedie.Control.AccessPoint.{AccessPoint, BleConnectOptions}
use tiedie.Control.Connections.{
  connect, update_connection, disconnect_from_device, get_connection_status,
  parse_connection_options, body_of, find_ble,
}

module _ (D : Schema) {S : Type 0} (ap : AccessPoint S) (device_id : String) (db : Db D)
    (request : Request) where
  -- For a device that is not in the database, each of the four handlers of connections answers 404
  -- and leaves the access point as it was.
  pub unknown_device_untouched :
      (s : S)
      → find_ble D ap device_id db ≡ none
      → (connect D ap device_id db request s ≡ (returned (problem invalid_id 404), s))
        × (update_connection D ap device_id db request s ≡ (returned (problem invalid_id 404), s))
        × (disconnect_from_device D ap device_id db s ≡ (returned (problem invalid_id 404), s))
        × (get_connection_status D ap device_id db s ≡ (returned (problem invalid_id 404), s))
  unfolding connect update_connection disconnect_from_device get_connection_status
  unknown_device_untouched s unknown = (ground arith, ground arith, ground arith, ground arith)

  module _ (device : BleExtension) (body : Option Json) (retries : ℤ) (options : BleConnectOptions)
      (s : S) (known : find_ble D ap device_id db ≡ some device) (read : body_of request ≡ ok body)
      (parsed : parse_connection_options body ≡ ok (retries, options)) where
    module _ (s₁ s₂ : S)
        (opened : ap.connect device.device_mac_address options retries s ≡ (ok tt, s₁)) where
      -- For a known device and a body with valid options: a connection that succeeds and whose
      -- discovery fails with a `BleDiscoveryError` is disconnected again, and the answer is 400.
      pub connect_closes :
          ap.discover device.device_mac_address options retries s₁ ≡ (raise ble_discovery_error, s₂)
          → (reply (connect D ap device_id db request) s
              ≡ problem protocolmap_ble_no_connection 400)
            × (state_after (connect D ap device_id db request) s
                ≡ (ap.disconnect device.device_mac_address s₂).1)
      unfolding connect
      connect_closes failed = ground arith

      -- For a known device and a body with valid options: a connection that succeeds and whose
      -- discovery fails with an exception that is no `BleDiscoveryError` or `BleConnectionError`
      -- is answered with 500, and the access point stays as the discovery left it.
      pub connect_leaves_open :
          (e : Exc)
          → e ≢ ble_discovery_error
          → e ≢ ble_connection_error
          → ap.discover device.device_mac_address options retries s₁ ≡ (raise e, s₂)
          → (reply (connect D ap device_id db request) s ≡ problem about_blank 500)
            × (state_after (connect D ap device_id db request) s ≡ s₂)
      unfolding connect
      connect_leaves_open e other other' failed = ground arith
