-- ===== src/Control/Events/Tests.antt =====
-- The handlers of events, and their theorems, on the thermometer.
use tiedie.Prelude.{
  ◌≡◌, refl, ap, none, some, [], ◌∷◌, String, find_first, keep, any, has_char, split_once, split,
}
use tiedie.Python.{ok}
use tiedie.Json.{str, arr, nil, cons, find_field, contains, index}
use tiedie.Sdf.{
  parse_sdf_reference, lookup_sdf_model, first_in_namespace, names_namespace, navigate_sdf_model,
}
use tiedie.Database.Memory.{memory, memory-IsLawful}
use tiedie.Control.Responses.{json, empty, status_of}
use tiedie.Control.Requests.{respond, after}
use tiedie.Control.Lookup.{resolve_event, definition}
use tiedie.Control.Samples.{alarm, alarm_name, alarm_row, device, full_db, alarm_db}
use tiedie.Control.Events.{
  enable_event, disable_event, get_events, event_row, find_device, find_named, event_json, gatt_ids,
}
use tiedie.Control.Events.Changes.{get-enable}

resolved : resolve_event memory full_db (str alarm_name) ≡ ok (definition alarm)
unfolding resolve_event parse_sdf_reference navigate_sdf_model lookup_sdf_model first_in_namespace
    names_namespace find_first keep has_char split_once split find_field contains index
resolved = refl

device_1 : find_device memory "d1" full_db ≡ some (device "d1")
unfolding find_first
device_1 = refl

device_2 : find_device memory "d2" full_db ≡ some (device "d2")
unfolding find_first
device_2 = refl

made :
    (instance_id device_id : String)
    → event_row alarm_name instance_id device_id alarm
      ≡ ok (record alarm_row { instance_id = instance_id; device_id = device_id })
unfolding event_row gatt_ids index find_field
made instance_id device_id = refl

fresh : find_named memory alarm_name "d1" full_db ≡ none
unfolding find_first
fresh = refl

enabled : find_named memory alarm_name "d1" alarm_db ≡ some alarm_row
unfolding find_first
enabled = refl

elsewhere : find_named memory alarm_name "d2" alarm_db ≡ none
unfolding find_first
elsewhere = refl

created :
    respond (enable_event memory "https://g" "i1" "d1" (some alarm_name)) full_db
    ≡ empty 201 (some "https://g?instanceId=i1")
unfolding enable_event event_row gatt_ids resolve_event parse_sdf_reference navigate_sdf_model
    lookup_sdf_model first_in_namespace names_namespace find_first keep any has_char split_once
    split find_field contains index
created = refl

get-enable_example :
    respond
      (get_events memory "d1" ("i1" ∷ []))
      (after (enable_event memory "https://g" "i1" "d1" (some alarm_name)) full_db)
    ≡ json (arr (cons (event_json alarm_row) nil)) 200
get-enable_example =
    get-enable memory "https://g" "i1" "d1" (some alarm_name) full_db (device "d1") alarm device_1
      refl resolved refl alarm_row (made "i1" "d1") fresh memory-IsLawful (ap status_of created)

disabled : status_of (respond (disable_event memory "d1" (some "i1")) alarm_db) ≡ 204
unfolding disable_event find_first
disabled = refl
