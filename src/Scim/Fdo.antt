-- ===== src/Scim/Fdo.antt =====
-- `fdo_create_device` of gateway/scim_fdo.py: the hook that adds the voucher of FIDO device
-- onboarding. What the owner's server answers is an argument.
use tiedie.Prelude.{
  ℕ, Bool, ◌||◌, Option, none, some, List, String, ◌==◌, if◌then◌else◌, find_first, ◌==ℕ◌,
}
use tiedie.Python.{
  Result, ok, raise, device_exists, schema_error, type_error, fdo_not_supported, ◌>>=◌,
}
use tiedie.Python.Handlers.{Exec, Flow, value, raised, pure, lift}
use tiedie.Python.Handlers
use tiedie.Json.{Json, str, Items, get, truthy, has_item, is_some}
use tiedie.Scim.Devices.{Response, Pending, Hook, remove}
use tiedie.Scim.Vouchers.{to_pem}

abbrev pub fdo_schema : String
fdo_schema = "urn:ietf:params:scim:schemas:extension:fido-device-onboard:2.0:Device"

pub record FdoExtension : Type 0 where
  pub device_id : String
  pub fdo_voucher : Json

-- what `requests.post` gives: a status, or an exception
pub data Posted : Type 0 where
  status_code : ℕ → Posted
  failed : Posted

abbrev pub required_voucher : Json → Result Json
required_voucher j = if truthy j then ok j else raise schema_error

-- `to_pem` takes a text: with any other value a concatenation, or `len`, raises
abbrev pub pem_of : Json → Result (Option String)
pem_of (str vraw) = ok (to_pem vraw)
pem_of _ = raise type_error

abbrev pub accepted : Posted → Result (Unit {0})
accepted (status_code n) = if (n ==ℕ 200) || (n ==ℕ 201) then ok tt else raise fdo_not_supported
accepted failed = raise fdo_not_supported

-- `post` is there if `FDO_SUPPORT` is set; it gets the text of the voucher.
abbrev pub sent : Option (Option String → Posted) → Option String → Result (Unit {0})
sent none pem = ok tt
sent (some post) pem = accepted (post pem)

module _ {Db Entry : Type 0} (enabled : Bool) (fdo_post : Option (Option String → Posted))
    (scim_fdo : Db → List FdoExtension) (with_fdo : FdoExtension → Entry → Entry) where
  abbrev pub refuse_onboarded : String → Exec (Pending Db) Response (Unit {0})
  refuse_onboarded device_id s = (
    if is_some (find_first (λ r. r.device_id == device_id) (scim_fdo s.live))
        then raised device_exists
        else value tt,
    s,
  )

  -- `FDOExtension(…)`
  abbrev pub new_voucher : String → Json → Result FdoExtension
  new_voucher device_id voucher =
      if enabled
      then ok (record { device_id = device_id; fdo_voucher = voucher })
      else raise fdo_not_supported

  unfoldable pub add_fdo :
      String → Json → Items × Entry → Exec (Pending Db) Response (Items × Entry)
  add_fdo device_id body (schemas, entry) = Handlers.◌>>=◌ (lift (get body fdo_schema)) λ fdo_json.
      Handlers.◌>>=◌ (lift (get fdo_json "fdoOwnerVoucher" >>= required_voucher)) λ voucher.
        Handlers.◌>>=◌ (lift (pem_of voucher)) λ pem.
          Handlers.◌>>=◌ (refuse_onboarded device_id) λ _.
            Handlers.◌>>=◌ (lift (sent fdo_post pem)) λ _.
              Handlers.◌>>=◌ (lift (new_voucher device_id voucher))
                λ ext. pure (schemas, with_fdo ext entry)

  unfoldable pub fdo_create_device : Hook Db Entry
  unfolding add_fdo
  fdo_create_device device_id body (schemas, entry) =
      if has_item fdo_schema schemas
      then add_fdo device_id body (remove fdo_schema schemas, entry)
      else pure (schemas, entry)
