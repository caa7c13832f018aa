-- ===== src/Scim/Pairing.antt =====
-- `ble_create_device` of gateway/scim_ble.py: the hook that adds the Bluetooth data to a new device.
use tiedie.Prelude.{Option, List, String, if◌then◌else◌, find_first}
use tiedie.Python.{Result, ok, device_exists, ◌>>=◌}
use tiedie.Python.Handlers.{Exec, Flow, value, raised, pure, lift}
use tiedie.Python.Handlers
use tiedie.Json.{
  Json, Items, null, str, arr, nil, get, get_default, truthy, has_item, json_eq, is_some,
}
use tiedie.Scim.Devices.{Response, Pending, Hook, remove}

abbrev pub ble_schema : String
ble_schema = "urn:ietf:params:scim:schemas:extension:ble:2.0:Device"

-- `BleExtension`, with the values of the body as they are
pub record Extended : Type 0 where
  pub device_id : String
  pub version_support : Json
  pub device_mac_address : Json
  pub is_random : Json
  pub separate_broadcast_address : Json
  pub irk : Json
  pub pairing_methods : Json
  pub pairing_null : Json
  pub pairing_just_works_keys : Json
  pub pairing_pass_key : Json
  pub pairing_oob_key : Json
  pub pairing_oobrn : Json

-- `None` if the value is missing or empty, else its `k`
abbrev pub key_of : Json → String → Result Json
key_of j k = if truthy j then get j k else ok null

abbrev pub null_pairing : Json → Json
null_pairing j = if truthy j then str "{}" else null

abbrev pub jw_schema : String
jw_schema = "urn:ietf:params:scim:schemas:extension:pairingJustWorks:2.0:Device"

abbrev pub pass_schema : String
pass_schema = "urn:ietf:params:scim:schemas:extension:pairingPassKey:2.0:Device"

abbrev pub oob_schema : String
oob_schema = "urn:ietf:params:scim:schemas:extension:pairingOOB:2.0:Device"

abbrev pub null_schema : String
null_schema = "urn:ietf:params:scim:schemas:extension:pairingNull:2.0:Device"

-- what is read before the query, with the MAC address for it
unfoldable pub pairing_keys : Json → Result (Json × Json × Json × Json × Json)
pairing_keys ble_json = do
  device_mac_address ← get ble_json "deviceMacAddress"
  just_works ← get ble_json jw_schema
  just_works_key ← key_of just_works "key"
  pass ← get ble_json pass_schema
  pass_key ← key_of pass "key"
  pairing ← get ble_json oob_schema
  oob_key ← key_of pairing "key"
  oobrn ← key_of pairing "randNumber"
  ok (device_mac_address, just_works_key, pass_key, oob_key, oobrn)

unfoldable pub ble_extension : String → Json → Json × Json × Json × Json × Json → Result Extended
ble_extension device_id ble_json (mac, just_works_key, pass_key, oob_key, oobrn) = do
  version_support ← get ble_json "versionSupport"
  is_random ← get ble_json "isRandom"
  separate ← get_default ble_json "separateBroadcastAddress" (arr nil)
  irk ← get_default ble_json "irk" (str "")
  pairing_methods ← get_default ble_json "pairingMethods" (arr nil)
  null_pair ← get ble_json null_schema
  ok (record {
    device_id = device_id;
    version_support = version_support;
    device_mac_address = mac;
    is_random = is_random;
    separate_broadcast_address = separate;
    irk = irk;
    pairing_methods = pairing_methods;
    pairing_null = null_pairing null_pair;
    pairing_just_works_keys = just_works_key;
    pairing_pass_key = pass_key;
    pairing_oob_key = oob_key;
    pairing_oobrn = oobrn;
  })

-- `filter_by(device_mac_address=…).first()` of the table `bledevices`
abbrev pub existing_device : Json → List Extended → Option Extended
existing_device mac devices = find_first (λ r. json_eq r.device_mac_address mac) devices

module _ {Db Entry : Type 0} where
  -- the table `bledevices`, and what sets `entry.ble_extension`
  module _ (bledevices : Db → List Extended) (with_ble : Extended → Entry → Entry) where
    abbrev pub refuse_taken : Json → Exec (Pending Db) Response (Unit {0})
    refuse_taken mac s = (
      if is_some (existing_device mac (bledevices s.live)) then raised device_exists else value tt,
      s,
    )

    unfoldable pub add_ble :
        String → Json → Items × Entry → Exec (Pending Db) Response (Items × Entry)
    unfolding pairing_keys ble_extension
    add_ble device_id body (schemas, entry) =
        Handlers.◌>>=◌ (lift (get body ble_schema)) λ ble_json.
          Handlers.◌>>=◌ (lift (pairing_keys ble_json)) λ keys.
            Handlers.◌>>=◌ (refuse_taken keys.0) λ _.
              Handlers.◌>>=◌ (lift (ble_extension device_id ble_json keys))
                λ ext. pure (schemas, with_ble ext entry)

    unfoldable pub ble_create_device : Hook Db Entry
    unfolding add_ble
    ble_create_device device_id body (schemas, entry) =
        if has_item ble_schema schemas
        then add_ble device_id body (remove ble_schema schemas, entry)
        else pure (schemas, entry)
