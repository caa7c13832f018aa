-- ===== src/Scim/Duplicates.antt =====
-- No two devices have the same MAC address.
use tiedie.Prelude.{
  ◌≡◌, ◌⊎◌, inl, inr, refl, ap, sym, ◌∙◌, Bool, true, false, Option, none, some, List, [], ◌∷◌,
  ◌++◌, append-nil, String, if◌then◌else◌, All,
}
use mathlib.Core.Path.{subst}
use tiedie.Python.{Result, device_exists}
use tiedie.Python.Handlers.{Flow, value, raised, pure, lift, serve}
use tiedie.Json.{Json, Items, nil, get, has_item, is_some}
use tiedie.Scim.Devices.{Response, Rows, Hook, Pending, remove, create_device, run_hooks, uncaught}
use tiedie.Scim.Pairing.{
  Extended, ble_schema, pairing_keys, ble_extension, existing_device, ble_create_device, add_ble,
  refuse_taken,
}
use tiedie.Scim.Sessions.{
  IsError, begin, Leaves, IsHook, lift-Leaves, lift-value, bind-value, KeepsField, pair_of,
  refuse-Leaves,
}
use tiedie.Scim.Building.{IsCommitted}
use tiedie.Scim.Creation.{create_device_commits}
use tiedie.Scim.Macs.{AllDifferent, ext_list, existing-none, AllDifferent-snoc, ble_extension-mac}
use tiedie.Scim.Hooks.{
  Extensions, other_hooks, create_hooks, ble_hook-IsHook, other_hooks-All, other_hooks-IsHook,
}
use tiedie.Scim.Stores.{IsBleStore, mab_hook-KeepsField, fdo_hook-KeepsField}

module _ {Db Entry : Type 0} (rows : Rows Db Entry) (x : Extensions Db Entry)
    (ble_of : Entry → Option Extended) (store : IsBleStore rows x ble_of) where
  taken-Leaves :
      (mac : Json) (s : Pending Db) → Leaves s (refuse_taken x.bledevices x.with_ble mac s)
  taken-Leaves mac s =
      refuse-Leaves s (is_some (existing_device mac (x.bledevices s.live))) device_exists

  -- The Bluetooth data of the entry, if it has any, has a MAC address that no other device has.
  abbrev IsFresh : Pending Db → Option Extended → Type 0
  IsFresh s o =
      (o ≡ none)
      ⊎ ((ext : Extended) × (o ≡ some ext)
          × (existing_device ext.device_mac_address (x.bledevices s.live) ≡ none))

  taken-value :
      (mac : Json) (s : Pending Db) (u : Unit {0})
      → refuse_taken x.bledevices x.with_ble mac s ≡ (value u, s)
      → existing_device mac (x.bledevices s.live) ≡ none
  taken-value mac s u h = by_found (existing_device mac (x.bledevices s.live)) refl h
    where
      by_found :
          (o : Option Extended)
          → existing_device mac (x.bledevices s.live) ≡ o
          → ◌≡◌ {A = Flow Response (Unit {0}) × Pending Db}
              ((if is_some o then raised device_exists else value tt), s)
              (value u, s)
          → existing_device mac (x.bledevices s.live) ≡ none
      by_found none e same = e
      by_found (some ext) e same = cc

  with_data :
      (ext : Extended) (mac : Json) (schemas : Items) (entry : Entry) (e' : Items × Entry)
      (s : Pending Db)
      → ext.device_mac_address ≡ mac
      → existing_device mac (x.bledevices s.live) ≡ none
      → ◌≡◌ {A = Flow Response (Items × Entry) × Pending Db}
          (value (schemas, x.with_ble ext entry), s)
          (value e', s)
      → IsFresh s (ble_of e'.1)
  with_data ext mac schemas entry e' s same free h = inr (
    ext,
    ap (λ (q : Items × Entry). ble_of q.1) (sym (pair_of (schemas, x.with_ble ext entry) e' s h))
        ∙ store.set ext entry,
    rw same free,
  )

  add_ble-IsFresh :
      (device_id : String) (body : Json) (e e' : Items × Entry) (s : Pending Db)
      → add_ble x.bledevices x.with_ble device_id body e s ≡ (value e', s)
      → IsFresh s (ble_of e'.1)
  unfolding add_ble
  add_ble-IsFresh device_id body (schemas, entry) e' s h =
      let (ble_json, _, h1) =
        bind-value s (lift (get body ble_schema)) _ e' s (lift-Leaves s (get body ble_schema)) h in
      let (keys, _, h2) =
        bind-value s (lift (pairing_keys ble_json)) _ e' s (lift-Leaves s (pairing_keys ble_json))
          h1 in
      let (u, free, h3) =
        bind-value s (refuse_taken x.bledevices x.with_ble keys.0) _ e' s (taken-Leaves keys.0 s)
          h2 in
      let (ext, made, h4) =
        bind-value s (lift (ble_extension device_id ble_json keys)) _ e' s
          (lift-Leaves s (ble_extension device_id ble_json keys)) h3 in
      with_data ext keys.0 schemas entry e' s
        (ble_extension-mac device_id ble_json keys ext
          (lift-value s (ble_extension device_id ble_json keys) ext made))
        (taken-value keys.0 s u free) h4

  ble_create_device-IsFresh :
      (device_id : String) (body : Json) (e e' : Items × Entry) (s : Pending Db)
      → ble_of e.1 ≡ none
      → ble_create_device x.bledevices x.with_ble device_id body e s ≡ (value e', s)
      → IsFresh s (ble_of e'.1)
  unfolding ble_create_device
  ble_create_device-IsFresh device_id body (schemas, entry) e' s none_yet h =
      by_schema (has_item ble_schema schemas) h
    where
      by_schema :
          (b : Bool)
          → (if b
                then add_ble x.bledevices x.with_ble device_id body
                    (remove ble_schema schemas, entry)
                else pure (schemas, entry))
              s
            ≡ (value e', s)
          → IsFresh s (ble_of e'.1)
      by_schema true same =
          add_ble-IsFresh device_id body (remove ble_schema schemas, entry) e' s same
      by_schema false same = inl (
          ap (λ (q : Items × Entry). ble_of q.1) (sym (pair_of (schemas, entry) e' s same))
          ∙ none_yet)

  run_hooks-KeepsField :
      (exts : List (Hook Db Entry))
      → All IsHook exts
      → All (KeepsField ble_of) exts
      → KeepsField ble_of (run_hooks exts)
  unfolding run_hooks
  run_hooks-KeepsField [] h k device_id body e e' s same =
      ap (λ (q : Items × Entry). ble_of q.1) (sym (pair_of e e' s same))
  run_hooks-KeepsField (ext ∷ exts) (h, hs) (k, ks) device_id body e e' s same =
      let (d, first, rest) =
        bind-value s (ext device_id body e) (run_hooks exts device_id body) e' s
          (h device_id body e s) same in
      run_hooks-KeepsField exts hs ks device_id body d e' s rest ∙ k device_id body e d s first

  made-IsFresh :
      (device_id : String) (body : Json) (e e' : Items × Entry) (s : Pending Db)
      → ble_of e.1 ≡ none
      → run_hooks (create_hooks x) device_id body e s ≡ (value e', s)
      → IsFresh s (ble_of e'.1)
  unfolding run_hooks
  made-IsFresh device_id body e e' s none_yet same =
      let (d, first, rest) =
        bind-value s (ble_create_device x.bledevices x.with_ble device_id body e)
          (run_hooks (other_hooks x) device_id body) e' s (ble_hook-IsHook x device_id body e s)
          same in
      subst (IsFresh s)
        (sym (
          run_hooks-KeepsField (other_hooks x) (other_hooks-IsHook x)
            (other_hooks-All x (KeepsField ble_of) (mab_hook-KeepsField rows x ble_of store)
              (fdo_hook-KeepsField rows x ble_of store))
            device_id body d e' s rest))
        (ble_create_device-IsFresh device_id body e d s none_yet first)

  all_different :
      (db db' : Db) (o : Option Extended)
      → AllDifferent (x.bledevices db)
      → IsFresh (begin db) o
      → x.bledevices db' ≡ x.bledevices db ++ ext_list o
      → AllDifferent (x.bledevices db')
  all_different db db' o h (inl e) added = rw (added, e) (rw (append-nil (x.bledevices db)) h)
  all_different db db' o h (inr (ext, e, free)) added =
      rw (added, e)
        (AllDifferent-snoc (x.bledevices db) ext h
          (existing-none ext.device_mac_address (x.bledevices db) free))

  -- Where the database keeps with a device the Bluetooth data that it was given: if no two devices
  -- have the same MAC address, then after any request for a new device no two have, whichever
  -- extensions the application has and whatever the servers behind them answer.
  pub create_device-AllDifferent :
      (device_id : String) (json : Result Json) (db : Db)
      → AllDifferent (x.bledevices db)
      → AllDifferent (
          x.bledevices
            (serve uncaught
              (create_device rows (create_hooks x) device_id json)
              (begin db)).1.stored)
  create_device-AllDifferent device_id json db h =
      by_end _ _ (create_device_commits rows x device_id json db)
    where
      by_end :
          (r : Response) (stored : Db)
          → (IsError r × (stored ≡ db))
            ⊎ IsCommitted rows (create_hooks x) device_id json (begin db) r stored
          → AllDifferent (x.bledevices stored)
      by_end r stored (inl (failed, same)) = rw same h
      by_end r stored (inr committed) =
          let made = committed.made in
          let built = made.built in
          all_different db stored (ble_of committed.entry) h
            (made-IsFresh device_id made.body
              (made.left, rows.device built.listed built.display_name built.active made.apps)
              (nil, committed.entry) (begin db)
              (store.new built.listed built.display_name built.active made.apps) built.extended)
            (store.added committed.entry db stored committed.added)
