-- ===== src/Scim/Devices.antt =====
-- `create_device` of gateway/scim.py, with `blow_an_error` of gateway/scim_error.py. The hooks of
-- extensions, the row of a device, its insertion and its serialization are arguments.
use tiedie.Prelude.{ℕ, not, ◌&&◌, Option, none, some, List, [], ◌∷◌, String, if◌then◌else◌}
use tiedie.Python.{
  Exc, Result, ok, raise, key_error, bad_request, database_error, device_exists, mab_not_supported,
  fdo_not_supported, schema_error,
}
use tiedie.Python
use tiedie.Python.Handlers.{
  Exec, Flow, value, raised, pure, return, throw, lift, try, return_if, ◌>>=◌, ◌>>◌,
}
use tiedie.Json.{
  Json, Items, arr, nil, cons, null, get, get_default, index, truthy, has_item, is_text, iterate,
}

pub data Response : Type 0 where
  -- a SCIM error, with its status and its `scimType`
  error : ℕ → Option String → Response
  resource : Json → ℕ → Response
  -- the answer to an exception that nothing caught
  page : ℕ → Response

abbrev pub status_of : Response → ℕ
status_of (error code scim_code) = code
status_of (resource body code) = code
status_of (page code) = code

-- `blow_an_error(e, code)`
abbrev pub blow_an_error : ℕ → Response
blow_an_error code = error code (some "invalidSyntax")

-- the answers to the exceptions of `create_device_object` and what follows it
abbrev pub error_of : Exc → Response
error_of device_exists = error 409 (some "uniqueness")
error_of mab_not_supported = error 403 none
error_of fdo_not_supported = error 403 none
error_of schema_error = blow_an_error 501
error_of _ = blow_an_error 400

-- what a session sees and what is committed
pub record Pending (Db : Type 0) : Type 0 where
  pub live : Db
  pub stored : Db

-- `l.remove(k)` of a list that has the text
unfoldable pub remove : String → Items → Items
remove k nil = nil
remove k (cons j js) = let rest = remove k js in if is_text k j then js else cons j rest

-- `[app.get("value") for app in applications]`
unfoldable pub values : List Json → Result (List Json)
values [] = ok []
values (app ∷ apps) =
    Python.◌>>=◌ (get app "value") (λ v. Python.◌>>=◌ (values apps) (λ vs. ok (v ∷ vs)))

abbrev pub core_schema : String
core_schema = "urn:ietf:params:scim:schemas:core:2.0:Device"

abbrev pub appextschema : String
appextschema = "urn:ietf:params:scim:schemas:extension:endpointAppsExt:2.0:Device"

pub record Rows (Db Entry : Type 0) : Type 0 where
  -- `Device(…)` of schemas, display name, activity and applications
  pub device : Json → Json → Json → List Json → Entry
  -- the endpoint applications with these ids
  pub applications : List Json → Db → Result (List Json)
  -- `session.add(entry)` and its flush; `none` is a database error
  pub add : Entry → Db → Option Db
  pub serialize : Entry → Result Json

-- A hook of an extension: from the id of the device and the body to what is left of the schemas and
-- the entry.
abbrev pub Hook : Type 0 → Type 0 → Type 0
Hook Db Entry = String → Json → Items × Entry → Exec (Pending Db) Response (Items × Entry)

module _ {Db : Type 0} where
  -- the body must have a list of schemas
  abbrev pub listed_schemas : Result Json → Exec (Pending Db) Response Items
  listed_schemas (ok (arr schemas)) = pure schemas
  listed_schemas (ok _) = return (blow_an_error 400)
  listed_schemas (raise key_error) = return (blow_an_error 400)
  listed_schemas (raise e) = throw e

  -- the handlers of the exceptions
  abbrev pub create_error : Exc → Exec (Pending Db) Response Response
  create_error e = return (error_of e)

module _ {Db Entry : Type 0} where
  -- `for ext in scim_ext_create`
  unfoldable pub run_hooks : List (Hook Db Entry) → Hook Db Entry
  run_hooks [] device_id body e = pure e
  run_hooks (ext ∷ exts) device_id body e = ext device_id body e >>= run_hooks exts device_id body

  abbrev pub if_done : Items × Entry → Exec (Pending Db) Response Entry
  if_done (nil, entry) = pure entry
  if_done (cons j js, entry) = throw schema_error

  module _ (rows : Rows Db Entry) (exts : List (Hook Db Entry)) (device_id : String) where
    unfoldable pub create_device_object :
        Json → List Json → Items → Exec (Pending Db) Response Entry
    unfolding run_hooks
    create_device_object body endpoint_apps schemas = do
      listed ← lift (index body "schemas")
      display_name ← lift (index body "displayName")
      active ← lift (index body "active")
      e ←
          run_hooks exts device_id body
            (schemas, rows.device listed display_name active endpoint_apps)
      if_done e

    abbrev saved : Option Db → Pending Db → Flow Response (Unit {0}) × Pending Db
    saved none s = (raised database_error, s)
    saved (some db) s = (value tt, record { live = db; stored = db })

    -- `session.add(entry)` and `session.commit()`
    abbrev pub save : Entry → Exec (Pending Db) Response (Unit {0})
    save entry s = saved (rows.add entry s.live) s

    abbrev pub found_apps : List Json → Exec (Pending Db) Response (List Json)
    found_apps ids s = lift (rows.applications ids s.live) s

    -- what is left of the schemas, and the applications of the device
    abbrev pub listed_apps : Items → Json → Exec (Pending Db) Response (Items × List Json)
    listed_apps schemas ext =
        if truthy ext && has_item appextschema schemas
        then (do
          applications ← lift (get ext "applications")
          ids ← lift (Python.◌>>=◌ (iterate applications) values)
          apps ← found_apps ids
          pure (remove appextschema schemas, apps))
        else if has_item appextschema schemas
        then return (blow_an_error 400)
        else pure (schemas, [])

    unfoldable pub create_entry : Json → Items × List Json → Exec (Pending Db) Response Response
    unfolding create_device_object
    create_entry body (schemas, endpoint_apps) =
        try
          (do
            entry ← create_device_object body endpoint_apps schemas
            save entry
            core ← lift (rows.serialize entry)
            return (resource core 201))
          create_error

    unfoldable pub create_device : Result Json → Exec (Pending Db) Response Response
    unfolding create_entry remove values
    create_device json = do
      schemas ← listed_schemas (Python.◌>>=◌ json (λ body. index body "schemas"))
      body ← lift json
      given ← lift (get body "id")
      return_if (not (has_item core_schema schemas)) (blow_an_error 400)
      return_if (truthy given) (blow_an_error 400)
      ext ← lift (get_default body appextschema null)
      e ← listed_apps (remove core_schema schemas) ext
      create_entry body e

abbrev pub uncaught : Exc → Response
uncaught bad_request = page 400
uncaught e = page 500
