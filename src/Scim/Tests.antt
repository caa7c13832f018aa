-- ===== src/Scim/Tests.antt =====
-- Runs of the registry of extensions and of the text of a voucher.
use tiedie.Prelude.{
  ◌≡◌, ◌⊎◌, refl, ◌≤◌, true, Option, none, some, List, [], ◌∷◌, ◌++◌, map, find_first, String,
  ◌+++◌, All, string_eq,
}
use tiedie.Python.{ok}
use tiedie.Python.Handlers.{serve}
use tiedie.Json.{
  Json, Items, null, bool, str, arr, obj, nil, cons, end, field, find_field, get, get_default,
  index, has_item, json_eq,
}
use tiedie.Scim.Devices.{
  error, status_of, Rows, core_schema, remove, create_device, create_entry, create_device_object,
  run_hooks, uncaught,
}
use tiedie.Scim.Pairing.{
  Extended, ble_schema, pairing_keys, ble_extension, add_ble, ble_create_device,
}
use tiedie.Scim.Creation.{create_device_commits}
use tiedie.Scim.Sessions.{IsError, begin}
use tiedie.Scim.Building.{IsCommitted}
use tiedie.Scim.Macs.{AllDifferent, ext_list}
use tiedie.Scim.Duplicates.{create_device-AllDifferent}
use tiedie.Scim.Stores.{IsBleStore}
use tiedie.Scim.Hooks.{Extensions, create_hooks}
use tiedie.Scim.Ethermab.{ethermab_create_device}
use tiedie.Scim.Fdo.{fdo_create_device}
use tiedie.Scim.Extensions.{
  elem, Extension, no_hooks, reset_scim_extensions, append_unique, register_scim_extension,
  register_all,
}
use tiedie.Scim.Registering.{firsts, register_all-firsts}
use tiedie.Scim.Vouchers.{len, begin_line, end_line, prefix, suffix, wrap, to_pem}
use tiedie.Scim.Wrapping.{in_lines, together, to_pem_lines}

abbrev ble : Extension String
ble = record {
  create_fn = "ble_create_device";
  read_fn = "ble_read_device";
  update_fn = "ble_update_device";
  delete_fn = "ble_delete_device";
}

abbrev fdo : Extension String
fdo = record {
  create_fn = "fdo_create_device";
  read_fn = "fdo_read_device";
  update_fn = "fdo_update_device";
  delete_fn = "fdo_delete_device";
}

registered_twice :
    (register_all (ble ∷ fdo ∷ ble ∷ []) no_hooks).scim_ext_create
    ≡ "ble_create_device" ∷ "fdo_create_device" ∷ []
unfolding register_all register_scim_extension append_unique elem
registered_twice = refl

register_all-firsts_example :
    register_all (ble ∷ fdo ∷ ble ∷ []) (reset_scim_extensions no_hooks) ≡ record {
      scim_ext_create = firsts (map (λ x. x.create_fn) (ble ∷ fdo ∷ ble ∷ []));
      scim_ext_read = firsts (map (λ x. x.read_fn) (ble ∷ fdo ∷ ble ∷ []));
      scim_ext_update = firsts (map (λ x. x.update_fn) (ble ∷ fdo ∷ ble ∷ []));
      scim_ext_delete = firsts (map (λ x. x.delete_fn) (ble ∷ fdo ∷ ble ∷ []));
    }
register_all-firsts_example = register_all-firsts (ble ∷ fdo ∷ ble ∷ []) no_hooks

-- 66 characters
abbrev voucher : String
voucher = "0123456789abcdef0123456789abcdef0123456789abcdef0123456789abcdefXY"

-- A last line of 65 characters is one more than a line of PEM has.
long_line :
    to_pem "0123456789abcdef0123456789abcdef0123456789abcdef0123456789abcdefX"
    ≡ some (
        begin_line +++ "\n0123456789abcdef0123456789abcdef0123456789abcdef0123456789abcdefX"
        +++ end_line)
unfolding to_pem wrap len
long_line = refl

two_lines :
    to_pem voucher
    ≡ some (
        begin_line +++ "\n0123456789abcdef0123456789abcdef0123456789abcdef0123456789abcdef\nXY"
        +++ end_line)
unfolding to_pem wrap len prefix suffix
two_lines = refl

to_pem_lines_example :
    (ls : List String) × (last : String) × (to_pem voucher
      ≡ some (begin_line +++ in_lines ls last +++ end_line))
    × (together ls last ≡ voucher)
    × All (λ l. len l ≡ 64) ls
    × (len last ≤ 65)
to_pem_lines_example = to_pem_lines voucher

-- Rows in memory: a device is its Bluetooth data.
abbrev rows : Rows (List Extended) (Option Extended)
rows = record {
  device = λ schemas display_name active apps. none;
  applications = λ ids db. ok [];
  add = λ entry db. some (db ++ ext_list entry);
  serialize = λ entry. ok null;
}

abbrev ble_of : Option Extended → Option Extended
ble_of entry = entry

-- Both other extensions are wanted, without the engine and the owner's server.
abbrev extensions : Extensions (List Extended) (Option Extended)
extensions = record {
  bledevices = λ db. db;
  ethernetmab = λ db. [];
  scim_fdo = λ db. [];
  with_ble = λ ext entry. some ext;
  with_mab = λ ext entry. entry;
  with_fdo = λ ext entry. entry;
  want_ether_mab = true;
  want_fdo = true;
  init_ise = ok none;
  fdo_post = none;
}

store : IsBleStore rows extensions ble_of
store = record {
  new = λ schemas display_name active apps. refl;
  set = λ ext entry. refl;
  set_mab = λ ext entry. refl;
  set_fdo = λ ext entry. refl;
  added = λ entry db db' h. cc;
}

abbrev ble_json : Json
ble_json = obj (field "deviceMacAddress" (str "AA:BB:CC:11:22:33") end)

abbrev schemas : Items
schemas = cons (str core_schema) (cons (str ble_schema) nil)

abbrev device_json : Json
device_json = obj (
    field "schemas" (arr schemas) (
      field "displayName" (str "monitor")
        (field "active" (bool true) (field ble_schema ble_json end))))

abbrev known : Extended
known = record {
  device_id = "d0";
  version_support = null;
  device_mac_address = str "AA:BB:CC:11:22:33";
  is_random = null;
  separate_broadcast_address = null;
  irk = null;
  pairing_methods = null;
  pairing_null = null;
  pairing_just_works_keys = null;
  pairing_pass_key = null;
  pairing_oob_key = null;
  pairing_oobrn = null;
}

-- A device with the MAC address is there.
refused :
    (serve uncaught
      (create_device rows (create_hooks extensions) "d1" (ok device_json))
      (begin (known ∷ []))).0
    ≡ error 409 (some "uniqueness")
unfolding create_device create_entry create_device_object run_hooks ble_create_device add_ble
    ethermab_create_device fdo_create_device ble_extension index get get_default find_field has_item
    remove pairing_keys find_first json_eq
refused = refl

created :
    status_of
      (serve uncaught
        (create_device rows (create_hooks extensions) "d1" (ok device_json))
        (begin [])).0
    ≡ 201
unfolding create_device create_entry create_device_object run_hooks ble_create_device add_ble
    ethermab_create_device fdo_create_device ble_extension index get get_default find_field has_item
    remove pairing_keys find_first json_eq
created = refl

create_device_commits_example :
    let r =
      serve uncaught
        (create_device rows (create_hooks extensions) "d1" (ok device_json))
        (begin []) in
    (IsError r.0 × (r.1.stored ≡ []))
    ⊎ IsCommitted rows (create_hooks extensions) "d1" (ok device_json) (begin []) r.0 r.1.stored
create_device_commits_example = create_device_commits rows extensions "d1" (ok device_json) []

create_device-AllDifferent_example :
    AllDifferent
      (serve uncaught
        (create_device rows (create_hooks extensions) "d1" (ok device_json))
        (begin (known ∷ []))).1.stored
create_device-AllDifferent_example =
    create_device-AllDifferent rows extensions ble_of store "d1" (ok device_json) (known ∷ [])
      (tt, tt)
