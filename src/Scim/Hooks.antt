-- ===== src/Scim/Hooks.antt =====
-- The hooks that `create_app` of gateway/app_factory.py registers for the creation of a device, and
-- that they only read the database.
use tiedie.Prelude.{
  refl, Bool, true, false, Option, List, [], ◌∷◌, String, All, if_induction, find_first,
}
use tiedie.Python.{Result, ◌>>=◌, device_exists}
use tiedie.Python.Handlers.{Exec, lift}
use tiedie.Json.{Json, Items, get, has_item, json_eq, is_some}
use tiedie.Scim.Devices.{Response, Pending, Hook}
use tiedie.Scim.Sessions.{Leaves, IsHook, lift-Leaves, bind-Leaves, refuse-Leaves}
use tiedie.Scim.Pairing.{
  Extended, ble_schema, pairing_keys, ble_extension, existing_device, ble_create_device, add_ble,
  refuse_taken,
}
use tiedie.Scim.Ethermab.{
  EtherMabExtension, Ise, eth_schema, required_text, refuse_known, registered, new_extension,
  add_mab, ethermab_create_device,
}
use tiedie.Scim.Fdo.{
  FdoExtension, Posted, fdo_schema, required_voucher, pem_of, sent, refuse_onboarded, new_voucher,
  add_fdo, fdo_create_device,
}

-- The tables of the extensions, what sets the extensions of a device, and the configuration.
pub record Extensions (Db Entry : Type 0) : Type 0 where
  pub bledevices : Db → List Extended
  pub ethernetmab : Db → List EtherMabExtension
  pub scim_fdo : Db → List FdoExtension
  pub with_ble : Extended → Entry → Entry
  pub with_mab : EtherMabExtension → Entry → Entry
  pub with_fdo : FdoExtension → Entry → Entry
  pub want_ether_mab : Bool
  pub want_fdo : Bool
  pub init_ise : Result (Option Ise)
  pub fdo_post : Option (Option String → Posted)

module _ {Db Entry : Type 0} (x : Extensions Db Entry) where
  abbrev pub ble_hook : Hook Db Entry
  ble_hook = ble_create_device x.bledevices x.with_ble

  abbrev pub mab_hook : Hook Db Entry
  mab_hook = ethermab_create_device x.want_ether_mab x.init_ise x.ethernetmab x.with_mab

  abbrev pub fdo_hook : Hook Db Entry
  fdo_hook = fdo_create_device x.want_fdo x.fdo_post x.scim_fdo x.with_fdo

  abbrev if_wanted : Bool → Hook Db Entry → List (Hook Db Entry) → List (Hook Db Entry)
  if_wanted true ext exts = ext ∷ exts
  if_wanted false ext exts = exts

  abbrev pub other_hooks : List (Hook Db Entry)
  other_hooks = if_wanted x.want_ether_mab mab_hook (if_wanted x.want_fdo fdo_hook [])

  -- `scim_ext_create` of the running application
  abbrev pub create_hooks : List (Hook Db Entry)
  create_hooks = ble_hook ∷ other_hooks

  pub ble_hook-IsHook : IsHook ble_hook
  unfolding ble_create_device add_ble
  ble_hook-IsHook device_id body (schemas, entry) s =
      if_induction (λ (m : Exec (Pending Db) Response (Items × Entry)). Leaves s (m s))
        (has_item ble_schema schemas)
        (bind-Leaves s (lift (get body ble_schema)) _ (lift-Leaves s _) λ ble_json.
          bind-Leaves s (lift (pairing_keys ble_json)) _ (lift-Leaves s _) λ keys.
            bind-Leaves s (refuse_taken x.bledevices x.with_ble keys.0) _
              (refuse-Leaves s (is_some (existing_device keys.0 (x.bledevices s.live)))
                device_exists)
              λ u.
                bind-Leaves s (lift (ble_extension device_id ble_json keys)) _ (lift-Leaves s _)
                  λ ext. refl)
        refl

  known-Leaves :
      (mac : Json) (s : Pending Db)
      → Leaves s (refuse_known x.want_ether_mab x.init_ise x.ethernetmab x.with_mab mac s)
  known-Leaves mac s =
      refuse-Leaves s
        (is_some (find_first (λ r. json_eq r.device_mac_address mac) (x.ethernetmab s.live)))
        device_exists

  mab_hook-IsHook : IsHook mab_hook
  unfolding ethermab_create_device add_mab
  mab_hook-IsHook device_id body (schemas, entry) s =
      if_induction (λ (m : Exec (Pending Db) Response (Items × Entry)). Leaves s (m s))
        (has_item eth_schema schemas)
        (bind-Leaves s (lift (get body eth_schema)) _ (lift-Leaves s _) λ mab_json.
          bind-Leaves s (lift (get mab_json "deviceMacAddress" >>= required_text)) _
            (lift-Leaves s _)
            λ mac.
              bind-Leaves s (refuse_known x.want_ether_mab x.init_ise x.ethernetmab x.with_mab mac)
                _ (known-Leaves mac s)
                λ u. bind-Leaves s (lift (registered x.init_ise mac)) _ (lift-Leaves s _) λ v.
                  bind-Leaves s
                    (lift (
                      new_extension x.want_ether_mab x.init_ise x.ethernetmab x.with_mab device_id
                        mac))
                    _ (lift-Leaves s _) λ ext. refl)
        refl

  onboarded-Leaves :
      (device_id : String) (s : Pending Db)
      → Leaves s (refuse_onboarded x.want_fdo x.fdo_post x.scim_fdo x.with_fdo device_id s)
  onboarded-Leaves device_id s = refuse-Leaves s _ device_exists

  fdo_hook-IsHook : IsHook fdo_hook
  unfolding fdo_create_device add_fdo
  fdo_hook-IsHook device_id body (schemas, entry) s =
      if_induction (λ (m : Exec (Pending Db) Response (Items × Entry)). Leaves s (m s))
        (has_item fdo_schema schemas)
        (bind-Leaves s (lift (get body fdo_schema)) _ (lift-Leaves s _) λ fdo_json.
          bind-Leaves s (lift (get fdo_json "fdoOwnerVoucher" >>= required_voucher)) _
            (lift-Leaves s _)
            λ voucher. bind-Leaves s (lift (pem_of voucher)) _ (lift-Leaves s _) λ pem.
              bind-Leaves s (refuse_onboarded x.want_fdo x.fdo_post x.scim_fdo x.with_fdo device_id)
                _ (onboarded-Leaves device_id s)
                λ u. bind-Leaves s (lift (sent x.fdo_post pem)) _ (lift-Leaves s _) λ v.
                  bind-Leaves s
                    (lift
                      (new_voucher x.want_fdo x.fdo_post x.scim_fdo x.with_fdo device_id voucher))
                    _ (lift-Leaves s _) λ ext. refl)
        refl

  -- What all hooks of the others have, the wanted ones have.
  if_wanted-All :
      (P : Hook Db Entry → Type 0) (b : Bool) (ext : Hook Db Entry) (exts : List (Hook Db Entry))
      → P ext
      → All P exts
      → All P (if_wanted b ext exts)
  if_wanted-All P true ext exts p ps = (p, ps)
  if_wanted-All P false ext exts p ps = ps

  pub other_hooks-All : (P : Hook Db Entry → Type 0) → P mab_hook → P fdo_hook → All P other_hooks
  other_hooks-All P mab fdo =
      if_wanted-All P x.want_ether_mab mab_hook _ mab
        (if_wanted-All P x.want_fdo fdo_hook [] fdo tt)

  pub other_hooks-IsHook : All IsHook other_hooks
  other_hooks-IsHook = other_hooks-All IsHook mab_hook-IsHook fdo_hook-IsHook
