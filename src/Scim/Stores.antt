-- ===== src/Scim/Stores.antt =====
-- The hooks of other extensions leave the Bluetooth data of a device alone.
use tiedie.Prelude.{
  ◌==◌, find_first, ◌≡◌, refl, ap, sym, ◌∙◌, Bool, true, false, Option, none, some, List, ◌++◌,
  String, if◌then◌else◌,
}
use tiedie.Python.{Result, device_exists}
use tiedie.Python.Handlers.{Flow, value, pure, lift}
use tiedie.Json.{Json, Items, get, has_item, is_some, json_eq}
use tiedie.Python
use tiedie.Scim.Devices.{Response, Rows, Pending, remove}
use tiedie.Scim.Pairing.{Extended}
use tiedie.Scim.Sessions.{lift-Leaves, bind-value, KeepsField, pair_of, refuse-Leaves}
use tiedie.Scim.Macs.{ext_list}
use tiedie.Scim.Hooks.{Extensions, mab_hook, fdo_hook}
use tiedie.Scim.Ethermab.{
  EtherMabExtension, eth_schema, required_text, refuse_known, registered, new_extension, add_mab,
  ethermab_create_device,
}
use tiedie.Scim.Fdo.{
  FdoExtension, fdo_schema, required_voucher, pem_of, sent, refuse_onboarded, new_voucher, add_fdo,
  fdo_create_device,
}

-- What the rows of devices do with their Bluetooth data: a new device has none, setting it sets it,
-- the data of other extensions leave it alone, and the insertion of a device inserts its data.
pub record IsBleStore {Db Entry : Type 0} (rows : Rows Db Entry) (x : Extensions Db Entry)
    (ble_of : Entry → Option Extended) : Type 0 where
  pub new :
      (schemas display_name active : Json) (apps : List Json)
      → ble_of (rows.device schemas display_name active apps) ≡ none
  pub set : (ext : Extended) (entry : Entry) → ble_of (x.with_ble ext entry) ≡ some ext
  pub set_mab :
      (ext : EtherMabExtension) (entry : Entry) → ble_of (x.with_mab ext entry) ≡ ble_of entry
  pub set_fdo : (ext : FdoExtension) (entry : Entry) → ble_of (x.with_fdo ext entry) ≡ ble_of entry
  pub added :
      (entry : Entry) (db db' : Db)
      → rows.add entry db ≡ some db'
      → x.bledevices db' ≡ x.bledevices db ++ ext_list (ble_of entry)

module _ {Db Entry : Type 0} (rows : Rows Db Entry) (x : Extensions Db Entry)
    (ble_of : Entry → Option Extended) (store : IsBleStore rows x ble_of) where
  -- an entry that is as it was, or has the data of another extension
  pub unchanged :
      (schemas : Items) (entry entry' : Entry) (e' : Items × Entry) (s : Pending Db)
      → ble_of entry' ≡ ble_of entry
      → ◌≡◌ {A = Flow Response (Items × Entry) × Pending Db}
          (value (schemas, entry'), s)
          (value e', s)
      → ble_of e'.1 ≡ ble_of entry
  unchanged schemas entry entry' e' s same h =
      ap (λ (q : Items × Entry). ble_of q.1) (sym (pair_of (schemas, entry') e' s h)) ∙ same

  add_mab-ble_of :
      (device_id : String) (body : Json) (left : Items) (entry : Entry) (e' : Items × Entry)
      (s : Pending Db)
      → add_mab x.want_ether_mab x.init_ise x.ethernetmab x.with_mab device_id body (left, entry) s
        ≡ (value e', s)
      → ble_of e'.1 ≡ ble_of entry
  unfolding add_mab
  add_mab-ble_of device_id body left entry e' s same =
      let (mab_json, _, h1) =
        bind-value s (lift (get body eth_schema)) _ e' s (lift-Leaves s (get body eth_schema))
          same in
      let (mac, _, h2) =
        bind-value s (lift (Python.◌>>=◌ (get mab_json "deviceMacAddress") required_text)) _ e' s
          (lift-Leaves s (Python.◌>>=◌ (get mab_json "deviceMacAddress") required_text)) h1 in
      let (u, _, h3) =
        bind-value s (refuse_known x.want_ether_mab x.init_ise x.ethernetmab x.with_mab mac) _ e' s
          (refuse-Leaves s
            (is_some (find_first (λ r. json_eq r.device_mac_address mac) (x.ethernetmab s.live)))
            device_exists)
          h2 in
      let (v, _, h4) =
        bind-value s (lift (registered x.init_ise mac)) _ e' s
          (lift-Leaves s (registered x.init_ise mac)) h3 in
      let (ext, _, h5) =
        bind-value s
          (lift (new_extension x.want_ether_mab x.init_ise x.ethernetmab x.with_mab device_id mac))
          _ e' s
          (lift-Leaves s
            (new_extension x.want_ether_mab x.init_ise x.ethernetmab x.with_mab device_id mac))
          h4 in
      unchanged left entry (x.with_mab ext entry) e' s (store.set_mab ext entry) h5

  pub mab_hook-KeepsField : KeepsField ble_of (mab_hook x)
  unfolding ethermab_create_device
  mab_hook-KeepsField device_id body (schemas, entry) e' s h =
      by_schema (has_item eth_schema schemas) h
    where
      by_schema :
          (b : Bool)
          → (if b
                then add_mab x.want_ether_mab x.init_ise x.ethernetmab x.with_mab device_id body
                    (remove eth_schema schemas, entry)
                else pure (schemas, entry))
              s
            ≡ (value e', s)
          → ble_of e'.1 ≡ ble_of entry
      by_schema true same =
          add_mab-ble_of device_id body (remove eth_schema schemas) entry e' s same
      by_schema false same = unchanged schemas entry entry e' s refl same

  add_fdo-ble_of :
      (device_id : String) (body : Json) (left : Items) (entry : Entry) (e' : Items × Entry)
      (s : Pending Db)
      → add_fdo x.want_fdo x.fdo_post x.scim_fdo x.with_fdo device_id body (left, entry) s
        ≡ (value e', s)
      → ble_of e'.1 ≡ ble_of entry
  unfolding add_fdo
  add_fdo-ble_of device_id body left entry e' s same =
      let (fdo_json, _, h1) =
        bind-value s (lift (get body fdo_schema)) _ e' s (lift-Leaves s (get body fdo_schema))
          same in
      let (voucher, _, h2) =
        bind-value s (lift (Python.◌>>=◌ (get fdo_json "fdoOwnerVoucher") required_voucher)) _ e' s
          (lift-Leaves s (Python.◌>>=◌ (get fdo_json "fdoOwnerVoucher") required_voucher)) h1 in
      let (pem, _, h3) =
        bind-value s (lift (pem_of voucher)) _ e' s (lift-Leaves s (pem_of voucher)) h2 in
      let (u, _, h4) =
        bind-value s (refuse_onboarded x.want_fdo x.fdo_post x.scim_fdo x.with_fdo device_id) _ e' s
          (refuse-Leaves s
            (is_some (find_first (λ r. r.device_id == device_id) (x.scim_fdo s.live)))
            device_exists)
          h3 in
      let (v, _, h5) =
        bind-value s (lift (sent x.fdo_post pem)) _ e' s (lift-Leaves s (sent x.fdo_post pem)) h4 in
      let (ext, _, h6) =
        bind-value s
          (lift (new_voucher x.want_fdo x.fdo_post x.scim_fdo x.with_fdo device_id voucher)) _ e' s
          (lift-Leaves s
            (new_voucher x.want_fdo x.fdo_post x.scim_fdo x.with_fdo device_id voucher))
          h5 in
      unchanged left entry (x.with_fdo ext entry) e' s (store.set_fdo ext entry) h6

  pub fdo_hook-KeepsField : KeepsField ble_of (fdo_hook x)
  unfolding fdo_create_device
  fdo_hook-KeepsField device_id body (schemas, entry) e' s h =
      by_schema (has_item fdo_schema schemas) h
    where
      by_schema :
          (b : Bool)
          → (if b
                then add_fdo x.want_fdo x.fdo_post x.scim_fdo x.with_fdo device_id body
                    (remove fdo_schema schemas, entry)
                else pure (schemas, entry))
              s
            ≡ (value e', s)
          → ble_of e'.1 ≡ ble_of entry
      by_schema true same =
          add_fdo-ble_of device_id body (remove fdo_schema schemas) entry e' s same
      by_schema false same = unchanged schemas entry entry e' s refl same
