-- ===== src/Control/DataApps/Changes.antt =====
-- What the handlers of data applications change, and what later requests see.
use Prim.Native.Nat.{◌≤◌}
use mathlib.Core.Path.{subst}
use tiedie.Prelude.{sym, ◌≡◌, ap, true, false, none, some, List, String, ◌==◌, arith, eq_refl}
use tiedie.Python.{ok}
use tiedie.Python.Handlers.{value}
use tiedie.Json.{Json, get, iterate, is_true}
use tiedie.Database.Tables.{first-add, first-delete, first-update}
use tiedie.Database.Rows.{EndpointApp, DataApp}
use tiedie.Database.Session.{Schema, Db, IsLawful}
use tiedie.Control.Responses.{json, Request, status_of, problem, is_missing, or_nil, about_blank}
use tiedie.Control.Requests.{respond, after}
use tiedie.Control.Lookup.{check_events}
use tiedie.Control.DataApps.{
  register_data_app, get_data_app, update_data_app, delete_data_app, find_data_app,
  find_endpoint_app, data_app_json, set_events,
}
use tiedie.Control.DataApps.Granted.{IsAccess, replace_acl-IsAccess}
use tiedie.Control.DataApps.Acl.{event_names, replace_acl}

module _ (D : Schema) (request : Request) (db : Db D) where
  -- A registration of a data application that is answered with a status of 400 or more commits
  -- nothing.
  pub register_data_app_failure :
      400 ≤ status_of (respond (register_data_app D request) db)
      → after (register_data_app D request) db ≡ db
  unfolding register_data_app
  register_data_app_failure h = ground arith

  -- An update of a data application that is answered with a status of 400 or more commits nothing.
  pub update_data_app_failure :
      400 ≤ status_of (respond (update_data_app D request) db)
      → after (update_data_app D request) db ≡ db
  unfolding update_data_app
  update_data_app_failure h = ground arith

  delete_known :
      (app : DataApp)
      → is_missing request.arg ≡ false
      → find_data_app D (or_nil request.arg) db ≡ some app
      → (respond (delete_data_app D request) db ≡ json (data_app_json app) 200)
        × (after (delete_data_app D request) db ≡ record db {
          data_app = D.data_app.delete (λ row. row.data_app_id == or_nil request.arg) db.data_app;
        })
  unfolding delete_data_app
  delete_known app given found = ground arith

  get_gone :
      (db' : Db D)
      → is_missing request.arg ≡ false
      → find_data_app D (or_nil request.arg) db' ≡ none
      → respond (get_data_app D request) db' ≡ problem about_blank 404
  unfolding get_data_app
  get_gone db' given missing = ground arith

  get_found :
      (db' : Db D) (app : DataApp)
      → is_missing request.arg ≡ false
      → find_data_app D (or_nil request.arg) db' ≡ some app
      → respond (get_data_app D request) db' ≡ json (data_app_json app) 200
  unfolding get_data_app
  get_found db' app given found = ground arith

  module _ (body events_json mqtt_client : Json) (events : List Json) (names : List String)
      (app : EndpointApp) (acl : D.data_app_topics.Contents) (is_json : request.is_json ≡ true)
      (given : is_missing request.arg ≡ false) (parsed : request.get_json ≡ ok body)
      (with_events : get body "events" ≡ ok events_json) (listed : iterate events_json ≡ ok events)
      (checked : check_events D db events ≡ value tt)
      (with_mqtt : get body "mqttClient" ≡ ok mqtt_client) (mqtt : is_true mqtt_client ≡ true)
      (named : event_names events ≡ ok names)
      (known : find_endpoint_app D (or_nil request.arg) db ≡ some app)
      (replaced : replace_acl D.data_app_topics app.application_name
          (or_nil request.arg)
          events
          db.data_app_topics
        ≡ ok acl) where
    register_accepted :
        (t : D.data_app.Contents)
        → D.data_app.add (record { data_app_id = or_nil request.arg; events = names }) db.data_app
          ≡ some t
        → (respond (register_data_app D request) db ≡ json body 200)
          × (after (register_data_app D request) db
              ≡ record db { data_app = t; data_app_topics = acl })
    unfolding register_data_app
    register_accepted t added = ground arith

    update_accepted :
        (old : DataApp)
        → find_data_app D (or_nil request.arg) db ≡ some old
        → (respond (update_data_app D request) db ≡ json body 200)
          × (after (update_data_app D request) db
              ≡ record (set_events D (or_nil request.arg) names db) { data_app_topics = acl })
    unfolding update_data_app
    update_accepted old found = ground arith

    module _ (L : IsLawful D) where
      abbrev new_app : DataApp
      new_app = record { data_app_id = or_nil request.arg; events = names }

      -- `db'` gives the user of the data application the topics of the events, and nobody else more
      -- or less than before.
      abbrev IsGranted : Db D → Type 0
      IsGranted db' =
          IsAccess D.data_app_topics L.data_app_topics app.application_name (or_nil request.arg)
            events db.data_app_topics db'.data_app_topics

      granted : IsGranted (record db { data_app_topics = acl })
      granted =
          replace_acl-IsAccess D.data_app_topics L.data_app_topics app.application_name
            (or_nil request.arg) events db.data_app_topics acl replaced

      -- With lawful tables: a registration of a new data application, whose body has a list of
      -- events that all resolve, whose `mqttClient` is true and whose endpoint application exists,
      -- answers 200 if its row and the rows of its access list can be added. Then the application
      -- is found with the names of its events, and its user may read exactly the topics of the
      -- events, while the access of other users is as before.
      pub register_data_app_grants :
          (t : D.data_app.Contents)
          → find_data_app D (or_nil request.arg) db ≡ none
          → D.data_app.add new_app db.data_app ≡ some t
          → (status_of (respond (register_data_app D request) db) ≡ 200)
            × (respond (get_data_app D request) (after (register_data_app D request) db)
                ≡ json (data_app_json new_app) 200)
            × IsGranted (after (register_data_app D request) db)
      register_data_app_grants t fresh added = (
        ap status_of (register_accepted t added).0,
        rw (register_accepted t added).1 (
            get_found (record db { data_app = t; data_app_topics = acl }) new_app given
              (first-add D.data_app L.data_app (λ row. row.data_app_id == or_nil request.arg)
                new_app db.data_app t fresh (eq_refl (or_nil request.arg)) added)),
        subst IsGranted (sym (register_accepted t added).1) granted,
      )

      -- With lawful tables: an update of a registered data application, whose body has a list of
      -- events that all resolve, whose `mqttClient` is true and whose endpoint application exists,
      -- answers 200 if the rows of its access list can be added. Then the application is found
      -- with the names of the new events, and its user may read exactly the topics of the new
      -- events, while the access of other users is as before.
      pub update_data_app_grants :
          (old : DataApp)
          → find_data_app D (or_nil request.arg) db ≡ some old
          → (status_of (respond (update_data_app D request) db) ≡ 200)
            × (respond (get_data_app D request) (after (update_data_app D request) db)
                ≡ json (data_app_json new_app) 200)
            × IsGranted (after (update_data_app D request) db)
      update_data_app_grants old found =
          let (q, m, e) =
            first-update D.data_app L.data_app (λ row. row.data_app_id == or_nil request.arg)
              (λ row. record row { events = names }) db.data_app old (λ q h. h) found in
          (
            ap status_of (update_accepted old found).0,
            rw (update_accepted old found).1 (get_found _ (record q { events = names }) given e),
            subst IsGranted (sym (update_accepted old found).1) granted,
          )

  -- With lawful tables: the deletion of a registered data application answers 200, and then it is
  -- not found; but the access list of the broker is as before.
  pub delete_data_app_keeps_access :
      (L : IsLawful D) (app : DataApp)
      → is_missing request.arg ≡ false
      → find_data_app D (or_nil request.arg) db ≡ some app
      → (status_of (respond (delete_data_app D request) db) ≡ 200)
        × (respond (get_data_app D request) (after (delete_data_app D request) db)
            ≡ problem about_blank 404)
        × ((after (delete_data_app D request) db).data_app_topics ≡ db.data_app_topics)
  delete_data_app_keeps_access L app given found = (
    ap status_of (delete_known app given found).0,
    rw (delete_known app given found).1 (
        get_gone _ given (
          first-delete D.data_app L.data_app (λ row. row.data_app_id == or_nil request.arg)
            db.data_app)),
    ap (λ db'. db'.data_app_topics) (delete_known app given found).1,
  )
