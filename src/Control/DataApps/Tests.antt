-- ===== src/Control/DataApps/Tests.antt =====
-- The handlers of data applications, and their theorems, on the thermometer.
use Prim.Native.Nat.{◌≤◌}
use tiedie.Prelude.{
  ◌≡◌, refl, true, none, some, List, [], ◌∷◌, find_first, keep, any, has_char, split_once, split,
  arith,
}
use tiedie.Python.{ok}
use tiedie.Python.Handlers.{value}
use tiedie.Json.{iterate, Json, bool, arr, nil, cons, find_field, contains, index, get}
use tiedie.Topics.{create_topic_from_event}
use tiedie.Sdf.{
  first_in_namespace, names_namespace, parse_sdf_reference, lookup_sdf_model, navigate_sdf_model,
}
use tiedie.Database.Rows.{DataApp, DataAppTopic}
use tiedie.Database.Memory.{memory, memory-IsLawful}
use tiedie.Control.Responses.{json, problem, status_of, Request, about_blank}
use tiedie.Control.Requests.{respond, after}
use tiedie.Control.Lookup.{check_events, resolve_event}
use tiedie.Control.Samples.{
  alarm_name, old_topic, other_topic, endpoint, data_app, full_db, app_db, event_entry,
  data_app_body, request_of,
}
use tiedie.Control.DataApps.{
  register_data_app, get_data_app, update_data_app, delete_data_app, find_data_app,
  find_endpoint_app, data_app_json,
}
use tiedie.Control.DataApps.Acl.{event_names, replace_acl}
use tiedie.Control.DataApps.Granted.{IsAccess}
use tiedie.Control.DataApps.Changes.{
  register_data_app_grants, update_data_app_grants, delete_data_app_keeps_access,
}

abbrev posted : Request
posted = request_of data_app_body (some "app")

abbrev events : List Json
events = event_entry ∷ []

abbrev new_acl : List DataAppTopic
new_acl =
    record {
      data_app_id = "user";
      topic = "data-app/app/https://t//sdfObject/sensor/sdfEvent/alarm";
    }
    ∷ other_topic
    ∷ []

replaced :
    replace_acl memory.data_app_topics "user" "app" events (old_topic ∷ other_topic ∷ [])
    ≡ ok new_acl
unfolding replace_acl create_topic_from_event keep any has_char split_once get find_field
replaced = refl

checked : check_events memory full_db events ≡ value tt
unfolding check_events resolve_event parse_sdf_reference navigate_sdf_model lookup_sdf_model
    first_in_namespace names_namespace find_first keep has_char split_once split get find_field
    contains index
checked = refl

named : event_names events ≡ ok (alarm_name ∷ [])
unfolding event_names index find_field
named = refl

with_events : get data_app_body "events" ≡ ok (arr (cons event_entry nil))
unfolding get find_field
with_events = refl

listed : iterate (arr (cons event_entry nil)) ≡ ok events
unfolding iterate
listed = refl

with_mqtt : get data_app_body "mqttClient" ≡ ok (bool true)
unfolding get find_field
with_mqtt = refl

fresh : find_data_app memory "app" full_db ≡ none
unfolding find_first
fresh = refl

known : find_data_app memory "app" app_db ≡ some data_app
unfolding find_first
known = refl

endpoint_known : find_endpoint_app memory "app" full_db ≡ some endpoint
unfolding find_first
endpoint_known = refl

abbrev registered_app : DataApp
registered_app = record { data_app_id = "app"; events = alarm_name ∷ [] }

register_data_app_grants_example :
    (status_of (respond (register_data_app memory posted) full_db) ≡ 200)
    × (respond (get_data_app memory posted) (after (register_data_app memory posted) full_db)
        ≡ json (data_app_json registered_app) 200)
    × IsAccess memory.data_app_topics memory-IsLawful.data_app_topics "user" "app" events
        full_db.data_app_topics
        (after (register_data_app memory posted) full_db).data_app_topics
unfolding any
register_data_app_grants_example =
    register_data_app_grants memory posted full_db data_app_body (arr (cons event_entry nil))
      (bool true) events (alarm_name ∷ []) endpoint new_acl refl refl refl with_events listed
      checked with_mqtt refl named endpoint_known replaced memory-IsLawful (registered_app ∷ [])
      fresh refl

update_data_app_grants_example :
    (status_of (respond (update_data_app memory posted) app_db) ≡ 200)
    × (respond (get_data_app memory posted) (after (update_data_app memory posted) app_db)
        ≡ json (data_app_json registered_app) 200)
    × IsAccess memory.data_app_topics memory-IsLawful.data_app_topics "user" "app" events
        app_db.data_app_topics
        (after (update_data_app memory posted) app_db).data_app_topics
unfolding check_events resolve_event
update_data_app_grants_example =
    update_data_app_grants memory posted app_db data_app_body (arr (cons event_entry nil))
      (bool true) events (alarm_name ∷ []) endpoint new_acl refl refl refl with_events listed
      checked with_mqtt refl named endpoint_known replaced memory-IsLawful data_app known

delete_data_app_keeps_access_example :
    (status_of (respond (delete_data_app memory posted) app_db) ≡ 200)
    × (respond (get_data_app memory posted) (after (delete_data_app memory posted) app_db)
        ≡ problem about_blank 404)
    × ((after (delete_data_app memory posted) app_db).data_app_topics ≡ app_db.data_app_topics)
delete_data_app_keeps_access_example =
    delete_data_app_keeps_access memory posted app_db memory-IsLawful data_app refl known

abbrev nobody : Request
nobody = request_of (bool true) none

refused : 400 ≤ status_of (respond (register_data_app memory nobody) full_db)
unfolding register_data_app
refused = omega arith

update_refused : 400 ≤ status_of (respond (update_data_app memory posted) full_db)
unfolding update_data_app find_first
update_refused = omega arith
