-- ===== src/Control/DataApps.antt =====
-- `register_data_app`, `get_data_app`, `update_data_app` and `delete_data_app` of
-- gateway/control.py.
pub mod Acl
pub mod Granted
pub mod Changes
mod Tests
use mathlib.Core.Option
use tiedie.Prelude.{
  Bool, true, false, not, Option, none, some, List, [], ◌∷◌, String, ◌==◌, if◌then◌else◌,
}
use tiedie.Python.{Exc, Result, ok, raise}
use tiedie.Python.Handlers.{
  Exec, Flow, value, raised, pure, return, lift, reads, try, return_if, ◌>>=◌, ◌>>◌,
}
use tiedie.Json.{Json, Items, str, bool, arr, obj, nil, cons, end, field, get, is_true, iterate}
use tiedie.Database.Tables.{Table}
use tiedie.Database.Rows.{EndpointApp, DataApp, DataAppTopic}
use tiedie.Database.Session.{Schema, Db, Session, commit, flush, query}
use tiedie.Control.Responses.{
  Response, json, Request, create_nipc_problem_response, is_missing, or_nil, invalid_sdf_url,
  invalid_id, about_blank,
}
use tiedie.Control.Lookup.{check_events}
use Acl.{event_names, replace_acl}

abbrev pub event_items : List String → Items
event_items [] = nil
event_items (event ∷ events) = cons (obj (field "event" (str event) end)) (event_items events)

-- {"events": [{"event": …}], "mqttClient": true}
abbrev pub data_app_json : DataApp → Json
data_app_json app =
    obj (field "events" (arr (event_items app.events)) (field "mqttClient" (bool true) end))

module _ (D : Schema) where
  abbrev pub find_data_app : String → Db D → Option DataApp
  find_data_app id db = D.data_app.first (λ app. app.data_app_id == id) db.data_app

  abbrev pub find_endpoint_app : String → Db D → Option EndpointApp
  find_endpoint_app id db = D.endpoint_app.first (λ app. app.id == id) db.endpoint_app

  abbrev internal_error : Exc → Exec (Session D) Response Response
  internal_error e = return (create_nipc_problem_response about_blank 500)

  -- the body and its events, after the checks that registration and update share
  abbrev pub checked_body : Request → Exec (Session D) Response (Json × List Json)
  checked_body request = do
    body ← lift request.get_json
    events_json ← lift (get body "events")
    events ← lift (iterate events_json)
    reads (λ s. check_events D s.live events)
    mqtt_client ← lift (get body "mqttClient")
    return_if (not (is_true mqtt_client)) (create_nipc_problem_response about_blank 400)
    pure (body, events)

  abbrev acl_written :
      Session D → Result D.data_app_topics.Contents → Flow Response (Unit {0}) × Session D
  acl_written s (raise e) = (raised e, s)
  acl_written s (ok t) = (value tt, record s { live = record live { data_app_topics = t } })
    where
      open s use {live}

  abbrev pub write_acl :
      String → List Json → Option EndpointApp → Exec (Session D) Response (Unit {0})
  write_acl id events none = return (create_nipc_problem_response invalid_id 404)
  write_acl id events (some app) = λ s.
      acl_written s
        (replace_acl D.data_app_topics app.application_name id events s.live.data_app_topics)

  unfoldable pub register_data_app : Request → Exec (Session D) Response Response
  register_data_app request = do
    return_if (not request.is_json) (create_nipc_problem_response invalid_sdf_url 400)
    return_if (is_missing request.arg) (create_nipc_problem_response invalid_sdf_url 400)
    let id = or_nil request.arg
    try
        (do
          checked ← checked_body request
          names ← lift (event_names checked.1)
          flush (λ db.
              Option.map (λ t. record db { data_app = t })
                (D.data_app.add (record { data_app_id = id; events = names }) db.data_app))
          endpoint_app ← query (find_endpoint_app id)
          write_acl id checked.1 endpoint_app
          commit
          return (json checked.0 200))
        internal_error

  abbrev not_found : Exec (Session D) Response Response
  not_found = return (create_nipc_problem_response about_blank 404)

  abbrev pub no_id : Response
  no_id = create_nipc_problem_response invalid_sdf_url 400

  abbrev pub show_data_app : Option DataApp → Exec (Session D) Response Response
  show_data_app none = not_found
  show_data_app (some app) = return (json (data_app_json app) 200)

  unfoldable pub get_data_app : Request → Exec (Session D) Response Response
  get_data_app request = do
    return_if (is_missing request.arg) no_id
    try (do data_app ← query (find_data_app (or_nil request.arg)); show_data_app data_app)
        internal_error

  abbrev pub set_events : String → List String → Db D → Db D
  set_events id names db = record db {
    data_app =
        D.data_app.update (λ app. app.data_app_id == id) (λ app. record app { events = names })
          db.data_app;
  }

  abbrev pub update_found : String → Request → Option DataApp → Exec (Session D) Response Response
  update_found id request none = not_found
  update_found id request (some data_app) = do
    checked ← checked_body request
    names ← lift (event_names checked.1)
    flush (λ db. some (set_events id names db))
    endpoint_app ← query (find_endpoint_app id)
    write_acl id checked.1 endpoint_app
    commit
    return (json checked.0 200)

  unfoldable pub update_data_app : Request → Exec (Session D) Response Response
  update_data_app request = do
    return_if (not request.is_json) no_id
    return_if (is_missing request.arg) no_id
    let id = or_nil request.arg
    try (do data_app ← query (find_data_app id); update_found id request data_app) internal_error

  abbrev pub delete_found : String → Option DataApp → Exec (Session D) Response Response
  delete_found id none = not_found
  delete_found id (some app) = do
    flush (λ db.
        some
          (record db { data_app = D.data_app.delete (λ row. row.data_app_id == id) db.data_app }))
    commit
    return (json (data_app_json app) 200)

  unfoldable pub delete_data_app : Request → Exec (Session D) Response Response
  delete_data_app request = do
    return_if (is_missing request.arg) no_id
    let id = or_nil request.arg
    try (do data_app ← query (find_data_app id); delete_found id data_app) internal_error
