-- ===== src/Scim/Ethermab.antt =====
-- `ethermab_create_device` of gateway/scim_ethermab.py: the hook that adds the data of a device that
-- authenticates by its MAC address. The answers of the Identity Services Engine are arguments.
use tiedie.Prelude.{
  ℕ, Bool, true, false, Option, none, some, List, String, if◌then◌else◌, find_first, ◌==ℕ◌,
}
use tiedie.Python.{
  Result, ok, raise, device_exists, schema_error, ise_error, mab_not_supported, ◌>>=◌,
}
use tiedie.Python.Handlers.{Exec, Flow, value, raised, pure, lift}
use tiedie.Python.Handlers
use tiedie.Json.{Json, Items, get, truthy, has_item, json_eq, is_some}
use tiedie.Scim.Devices.{Response, Pending, Hook, remove}

abbrev pub eth_schema : String
eth_schema = "urn:ietf:params:scim:schemas:extension:ethernet-mab:2.0:Device"

pub record EtherMabExtension : Type 0 where
  pub device_id : String
  pub device_mac_address : Json

-- what a call of the engine gives: whether there is an endpoint, or an `ApiError` with its status
pub data Answer : Type 0 where
  endpoint : Bool → Answer
  api_error : ℕ → Answer

pub record Ise : Type 0 where
  pub get_endpoint_by_name : Json → Answer
  pub create_endpoint : Json → Answer

abbrev created : Answer → Result (Unit {0})
created (endpoint b) = ok tt
created (api_error status_code) = raise ise_error

-- an endpoint that the engine does not have is created
abbrev pub ensured : Ise → Json → Answer → Result (Unit {0})
ensured api mac (endpoint true) = ok tt
ensured api mac (endpoint false) = created (api.create_endpoint mac)
ensured api mac (api_error status_code) =
    if status_code ==ℕ 404 then created (api.create_endpoint mac) else raise ise_error

-- `init_ise` gives no engine, an engine, or raises
abbrev pub registered : Result (Option Ise) → Json → Result (Unit {0})
registered (ok none) mac = ok tt
registered (ok (some api)) mac = ensured api mac (api.get_endpoint_by_name mac)
registered (raise e) mac = raise e

abbrev pub required_text : Json → Result Json
required_text j = if truthy j then ok j else raise schema_error

module _ {Db Entry : Type 0} (enabled : Bool) (init_ise : Result (Option Ise))
    (ethernetmab : Db → List EtherMabExtension) (with_mab : EtherMabExtension → Entry → Entry) where
  abbrev pub refuse_known : Json → Exec (Pending Db) Response (Unit {0})
  refuse_known mac s = (
    if is_some (find_first (λ r. json_eq r.device_mac_address mac) (ethernetmab s.live))
        then raised device_exists
        else value tt,
    s,
  )

  -- `EtherMABExtension(…)`
  abbrev pub new_extension : String → Json → Result EtherMabExtension
  new_extension device_id mac =
      if enabled
      then ok (record { device_id = device_id; device_mac_address = mac })
      else raise mab_not_supported

  unfoldable pub add_mab :
      String → Json → Items × Entry → Exec (Pending Db) Response (Items × Entry)
  add_mab device_id body (schemas, entry) = Handlers.◌>>=◌ (lift (get body eth_schema)) λ mab_json.
      Handlers.◌>>=◌ (lift (get mab_json "deviceMacAddress" >>= required_text)) λ mac.
        Handlers.◌>>=◌ (refuse_known mac) λ _. Handlers.◌>>=◌ (lift (registered init_ise mac)) λ _.
          Handlers.◌>>=◌ (lift (new_extension device_id mac))
            λ ext. pure (schemas, with_mab ext entry)

  unfoldable pub ethermab_create_device : Hook Db Entry
  unfolding add_mab
  ethermab_create_device device_id body (schemas, entry) =
      if has_item eth_schema schemas
      then add_mab device_id body (remove eth_schema schemas, entry)
      else pure (schemas, entry)
