-- ===== src/Scim/Building.antt =====
-- Which device a request for a new device makes.
use tiedie.Prelude.{◌≡◌, ◌⊎◌, refl, ◌∙◌, ap, some, true, false, List, [], ◌∷◌, String, All}
use tiedie.Python.{Exc, Result, ok, raise}
use tiedie.Python.Handlers.{Flow, value, lift}
use tiedie.Json.{Json, Items, arr, nil, cons, null, get, get_default, index, truthy, has_item}
use tiedie.Scim.Devices.{
  Response, resource, error_of, Pending, Rows, Hook, run_hooks, if_done, create_device_object,
  listed_apps, remove, core_schema, appextschema,
}
use tiedie.Scim.Sessions.{Leaves, IsHook, lift-Leaves, lift-value, bind-Leaves, bind-value}

module _ {Db Entry : Type 0} where
  pub run_hooks-IsHook : (exts : List (Hook Db Entry)) → All IsHook exts → IsHook (run_hooks exts)
  unfolding run_hooks
  run_hooks-IsHook [] h device_id body e s = refl
  run_hooks-IsHook (ext ∷ exts) (h, hs) device_id body e s =
      bind-Leaves s (ext device_id body e) (run_hooks exts device_id body) (h device_id body e s)
        (λ a. run_hooks-IsHook exts hs device_id body a s)

  if_done-Leaves : (e : Items × Entry) (s : Pending Db) → Leaves s (if_done e s)
  if_done-Leaves (nil, entry) s = refl
  if_done-Leaves (cons j js, entry) s = refl

  if_done-value :
      (e : Items × Entry) (s : Pending Db) (entry : Entry)
      → ◌≡◌ {A = Flow Response Entry × Pending Db} (if_done e s) (value entry, s)
      → e ≡ (nil, entry)
  if_done-value (nil, d) s entry h = cc
  if_done-value (cons j js, d) s entry h = cc

  module _ (rows : Rows Db Entry) (exts : List (Hook Db Entry)) (device_id : String) where
    -- The entry is what the hooks make of a device with the name and the activity of the body, and
    -- they leave no schema.
    pub record IsBuilt (body : Json) (apps : List Json) (left : Items) (s : Pending Db)
        (entry : Entry) : Type 0 where
      pub listed : Json
      pub display_name : Json
      pub active : Json
      pub schemas : index body "schemas" ≡ ok listed
      pub named : index body "displayName" ≡ ok display_name
      pub activity : index body "active" ≡ ok active
      pub extended :
          run_hooks exts device_id body (left, rows.device listed display_name active apps) s
          ≡ (value (nil, entry), s)

    -- What is asked of a request for a device: a body with a list of schemas, that of the core among
    -- them, and no id; and the device is built from it.
    pub record IsMade (json : Result Json) (s : Pending Db) (entry : Entry) : Type 0 where
      pub body : Json
      pub schemas : Items
      pub given : Json
      pub ext : Json
      pub left : Items
      pub apps : List Json
      pub parsed : json ≡ ok body
      pub listed : index body "schemas" ≡ ok (arr schemas)
      pub core : has_item core_schema schemas ≡ true
      pub ided : get body "id" ≡ ok given
      pub fresh : truthy given ≡ false
      pub linked : get_default body appextschema null ≡ ok ext
      pub applied :
          listed_apps rows exts device_id (remove core_schema schemas) ext s
          ≡ (value (left, apps), s)
      pub built : IsBuilt body apps left s entry

    -- The device is committed. The answer is 201 with the device, or an error if the device could
    -- not be serialized.
    pub record IsCommitted (json : Result Json) (s : Pending Db) (r : Response) (stored : Db)
        : Type 0 where
      pub entry : Entry
      pub made : IsMade json s entry
      pub added : rows.add entry s.live ≡ some stored
      pub answer :
          ((core : Json) × (rows.serialize entry ≡ ok core) × (r ≡ resource core 201))
          ⊎ ((e : Exc) × (rows.serialize entry ≡ raise e) × (r ≡ error_of e))

    module _ (s : Pending Db) (kept : All IsHook exts) where
      pub object-Leaves :
          (body : Json) (apps : List Json) (left : Items)
          → Leaves s (create_device_object rows exts device_id body apps left s)
      unfolding create_device_object
      object-Leaves body apps left =
          bind-Leaves s (lift (index body "schemas")) _ (lift-Leaves s _) λ listed.
            bind-Leaves s (lift (index body "displayName")) _ (lift-Leaves s _) λ name.
              bind-Leaves s (lift (index body "active")) _ (lift-Leaves s _) λ active.
                bind-Leaves s
                  (run_hooks exts device_id body (left, rows.device listed name active apps))
                  if_done (run_hooks-IsHook exts kept device_id body _ s) (λ e. if_done-Leaves e s)

      pub object-IsBuilt :
          (body : Json) (apps : List Json) (left : Items) (entry : Entry)
          → create_device_object rows exts device_id body apps left s ≡ (value entry, s)
          → IsBuilt body apps left s entry
      unfolding create_device_object
      object-IsBuilt body apps left entry h =
          let (listed, e, h1) =
            bind-value s (lift (index body "schemas")) _ entry s
              (lift-Leaves s (index body "schemas")) h in
          let (name, f, h2) =
            bind-value s (lift (index body "displayName")) _ entry s
              (lift-Leaves s (index body "displayName")) h1 in
          let (active, g, h3) =
            bind-value s (lift (index body "active")) _ entry s
              (lift-Leaves s (index body "active")) h2 in
          let (d, i, h4) =
            bind-value s (run_hooks exts device_id body (left, rows.device listed name active apps))
              if_done entry s
              (run_hooks-IsHook exts kept device_id body (left, rows.device listed name active apps)
                s)
              h3 in
          record {
            listed = listed;
            display_name = name;
            active = active;
            schemas = lift-value s (index body "schemas") listed e;
            named = lift-value s (index body "displayName") name f;
            activity = lift-value s (index body "active") active g;
            extended = i ∙ ap (λ c. (value c, s)) (if_done-value d s entry h4);
          }
