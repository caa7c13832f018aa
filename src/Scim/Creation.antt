-- ===== src/Scim/Creation.antt =====
-- When the creation of a device is committed, and which device it is.
use mathlib.Core.Path.{subst}
use tiedie.Prelude.{
  ◌≡◌, ◌⊎◌, inl, inr, refl, sym, ◌∙◌, ap, Option, none, some, Bool, true, false, not, ◌&&◌, List,
  String, All, arith, if_induction,
}
use tiedie.Python.{Exc, Result, ok, raise, database_error}
use tiedie.Python
use tiedie.Python.Handlers.{
  Exec, Flow, value, returned, raised, return, lift, return_if, try, serve, ◌>>=◌, ◌>>◌,
}
use tiedie.Json.{Json, Items, null, get, get_default, index, iterate, truthy, has_item}
use tiedie.Scim.Devices.{
  Response, resource, blow_an_error, error_of, Pending, Rows, Hook, listed_schemas, create_error,
  create_device_object, save, found_apps, listed_apps, create_entry, create_device, uncaught,
  remove, values, core_schema, appextschema,
}
use tiedie.Scim.Sessions.{
  IsError, error_of-IsError, uncaught-IsError, begin, Leaves, IsHook, lift-Leaves, lift-value,
  return_if-Leaves, return_if-value, listed-Leaves, listed-value, bind-Leaves,
}
use tiedie.Scim.Hooks.{Extensions, create_hooks, ble_hook-IsHook, other_hooks-IsHook}
use tiedie.Scim.Building.{IsBuilt, IsMade, IsCommitted, object-Leaves, object-IsBuilt}

module _ {Db Entry : Type 0} where
  module _ (rows : Rows Db Entry) (exts : List (Hook Db Entry)) (device_id : String) where
    module _ (json : Result Json) (s : Pending Db) (kept : All IsHook exts) where
      abbrev Fails : Flow Response Response → Type 0
      Fails (value r) = IsError r
      Fails (returned r) = IsError r
      Fails (raised e) = Unit

      abbrev Outcome : Flow Response Response × Pending Db → Type 0
      Outcome x =
          (Fails x.0 × (x.1.stored ≡ s.stored))
          ⊎ ((r : Response) × (x.0 ≡ returned r)
              × IsCommitted rows exts device_id json s r x.1.stored)

      bind-Outcome :
          {A : Type 0} (m : Exec (Pending Db) Response A)
          (f : A → Exec (Pending Db) Response Response)
          → Leaves s (m s)
          → ((a : A) → m s ≡ (value a, s) → Outcome (f a s))
          → Outcome ((m >>= f) s)
      bind-Outcome {A} m f h k = by_result (m s) refl h
        where
          by_result :
              (x : Flow Response A × Pending Db)
              → m s ≡ x
              → Leaves s x
              → Outcome (((λ _. x) >>= f) s)
          by_result (value a, t) e same = rw same (k a (e ∙ ap (λ u. (value a, u)) same))
          by_result (returned r, t) e same = inl (same.0, ap (λ u. u.stored) same.1)
          by_result (raised x, t) e same = inl (tt, ap (λ u. u.stored) same)

      abbrev finish : Entry → Exec (Pending Db) Response Response
      finish entry = do
        save rows exts device_id entry
        core ← lift (rows.serialize entry)
        return (resource core 201)

      finish-Outcome :
          (entry : Entry)
          → IsMade rows exts device_id json s entry
          → Outcome (try (finish entry) create_error s)
      finish-Outcome entry made = by_add (rows.add entry s.live) refl
        where
          by_serialize :
              (db : Db)
              → rows.add entry s.live ≡ some db
              → (r : Result Json) → rows.serialize entry ≡ r
              → Outcome (try (finish entry) create_error s)
          by_serialize db added (ok core) shown =
              rw (added, shown)
                (inr (
                  resource core 201,
                  refl,
                  record {
                    entry = entry;
                    made = made;
                    added = added;
                    answer = inl (core, shown, refl);
                  },
                ))
          by_serialize db added (raise e) failed =
              rw (added, failed)
                (inr (
                  error_of e,
                  refl,
                  record {
                    entry = entry;
                    made = made;
                    added = added;
                    answer = inr (e, failed, refl);
                  },
                ))

          by_add :
              (o : Option Db)
              → rows.add entry s.live ≡ o
              → Outcome (try (finish entry) create_error s)
          by_add none refused = rw refused (inl (error_of-IsError database_error, refl))
          by_add (some db) added = by_serialize db added (rows.serialize entry) refl

      create_entry-Outcome :
          (body : Json) (left : Items) (apps : List Json)
          → ((entry : Entry)
              → IsBuilt rows exts device_id body apps left s entry
              → IsMade rows exts device_id json s entry)
          → Outcome (create_entry rows exts device_id body (left, apps) s)
      unfolding create_entry
      create_entry-Outcome body left apps make =
          by_object (create_device_object rows exts device_id body apps left s) refl
            (object-Leaves rows exts device_id s kept body apps left)
        where
          by_object :
              (x : Flow Response Entry × Pending Db)
              → create_device_object rows exts device_id body apps left s ≡ x
              → Leaves s x
              → Outcome (try ((λ _. x) >>= finish) create_error s)
          by_object (value entry, t) e same = rw same (
              finish-Outcome entry (
                make entry (
                  object-IsBuilt rows exts device_id s kept body apps left entry
                    (e ∙ ap (λ u. (value entry, u)) same))))
          by_object (returned r, t) e same = inl (same.0, ap (λ u. u.stored) same.1)
          by_object (raised x, t) e same = inl (error_of-IsError x, ap (λ u. u.stored) same)

      apps-Leaves :
          (left : Items) (ext : Json) → Leaves s (listed_apps rows exts device_id left ext s)
      apps-Leaves left ext =
          if_induction (λ (m : Exec (Pending Db) Response (Items × List Json)). Leaves s (m s))
            (truthy ext && has_item appextschema left)
            (bind-Leaves s (lift (get ext "applications")) _ (lift-Leaves s _) λ applications.
              bind-Leaves s (lift (Python.◌>>=◌ (iterate applications) values)) _ (lift-Leaves s _)
                λ ids.
                  bind-Leaves s (found_apps rows exts device_id ids) _
                    (lift-Leaves s (rows.applications ids s.live)) λ apps. refl)
            (if_induction (λ (m : Exec (Pending Db) Response (Items × List Json)). Leaves s (m s))
              (has_item appextschema left) (omega arith, refl) refl)

      create_device-Outcome : Outcome (create_device rows exts device_id json s)
      unfolding create_device
      create_device-Outcome =
          bind-Outcome (listed_schemas (Python.◌>>=◌ json (λ body. index body "schemas"))) _
            (listed-Leaves s _)
            λ schemas h. bind-Outcome (lift json) _ (lift-Leaves s json) λ body parsed.
              bind-Outcome (lift (get body "id")) _ (lift-Leaves s _) λ given ided.
                bind-Outcome (return_if (not (has_item core_schema schemas)) (blow_an_error 400)) _
                  (return_if-Leaves s _)
                  λ u core.
                    bind-Outcome (return_if (truthy given) (blow_an_error 400)) _
                      (return_if-Leaves s _)
                      λ v fresh.
                        bind-Outcome (lift (get_default body appextschema null)) _ (lift-Leaves s _)
                          λ ext linked.
                            bind-Outcome
                              (listed_apps rows exts device_id (remove core_schema schemas) ext) _
                              (apps-Leaves (remove core_schema schemas) ext)
                              λ e applied. create_entry-Outcome body e.0 e.1 λ entry built.
                                let was_parsed : json ≡ ok body = lift-value s json body parsed in
                                record {
                                  body = body;
                                  schemas = schemas;
                                  given = given;
                                  ext = ext;
                                  left = e.0;
                                  apps = e.1;
                                  parsed = was_parsed;
                                  listed = listed_in was_parsed (listed-value s _ schemas h);
                                  core = not_false (
                                      return_if-value s (not (has_item core_schema schemas)) u
                                        core);
                                  ided = lift-value s (get body "id") given ided;
                                  fresh = return_if-value s (truthy given) v fresh;
                                  linked =
                                      lift-value s (get_default body appextschema null) ext linked;
                                  applied = applied;
                                  built = built;
                                }
        where
          listed_in :
              {body : Json} {j : Json}
              → json ≡ ok body
              → Python.◌>>=◌ json (λ b. index b "schemas") ≡ ok j
              → index body "schemas" ≡ ok j
          listed_in {body} {j} e h = ap (λ r. Python.◌>>=◌ r (λ b. index b "schemas")) (sym e) ∙ h

          not_false : {b : Bool} → not b ≡ false → b ≡ true
          not_false {b} h = ground arith

returned-injective :
    {A : Type 0} {r q : Response} → ◌≡◌ {A = Flow Response A} (returned r) (returned q) → r ≡ q
returned-injective h = cc

served :
    {Db Entry : Type 0} (rows : Rows Db Entry) (exts : List (Hook Db Entry)) (device_id : String)
    (json : Result Json) (db : Db) (kept : All IsHook exts)
    (x : Flow Response Response × Pending Db)
    → Outcome rows exts device_id json (begin db) kept x
    → let r = serve uncaught (λ (s : Pending Db). x) x.1 in
      (IsError r.0 × (r.1.stored ≡ db))
      ⊎ IsCommitted rows exts device_id json (begin db) r.0 r.1.stored
served rows exts device_id json db kept (value r, s) (inl h) = inl h
served rows exts device_id json db kept (returned r, s) (inl h) = inl h
served rows exts device_id json db kept (raised e, s) (inl h) = inl (uncaught-IsError e, h.1)
served rows exts device_id json db kept (value r, s) (inr (q, same, committed)) = cc
served rows exts device_id json db kept (raised e, s) (inr (q, same, committed)) = cc
served rows exts device_id json db kept (returned r, s) (inr (q, same, committed)) = inr (
    subst (λ p. IsCommitted rows exts device_id json (begin db) p s.stored)
      (sym (returned-injective same)) committed)

-- A request for a new device ends in one of two ways, whichever extensions the application has and
-- whatever the servers behind them answer. Either it is answered with an error status and nothing is
-- committed. Or the body has a list of schemas with that of the core, no id, a name and an
-- activity; the hooks leave no schema; the device that they make is added to the database as it was,
-- which is committed; and the answer is 201 with the device, or an error if the device cannot be
-- serialized.
pub create_device_commits :
    {Db Entry : Type 0} (rows : Rows Db Entry) (x : Extensions Db Entry) (device_id : String)
    (json : Result Json) (db : Db)
    → let r = serve uncaught (create_device rows (create_hooks x) device_id json) (begin db) in
      (IsError r.0 × (r.1.stored ≡ db))
      ⊎ IsCommitted rows (create_hooks x) device_id json (begin db) r.0 r.1.stored
create_device_commits rows x device_id json db =
    let kept : All IsHook (create_hooks x) = (ble_hook-IsHook x, other_hooks-IsHook x) in
    served rows (create_hooks x) device_id json db kept
      (create_device rows (create_hooks x) device_id json (begin db))
      (create_device-Outcome rows (create_hooks x) device_id json (begin db) kept)
