-- ===== src/Control/Models/Tests.antt =====
-- The handlers of models, and their theorems, on the thermometer.
use tiedie.Prelude.{◌≡◌, refl, ap, true, false, none, some, find_first, any, arith}
use Prim.Native.Nat.{◌≤◌}
use tiedie.Python.{ok}
use tiedie.Json.{
  Json, Fields, json_eq, str, arr, obj, nil, cons, end, field, find_field, contains, index, get,
}
use tiedie.Database.Memory.{memory, memory-IsLawful}
use tiedie.Control.Responses.{json, status_of, Request}
use tiedie.Control.Requests.{respond, after}
use tiedie.Control.Samples.{
  thermometer, thermometer_name, thermometer_row, empty_db, full_db, request_of, same,
}
use tiedie.Control.Models.{
  find_model, register_sdf_model, get_sdf_model, update_sdf_model, changes, changes_namespace,
  sdf_name_json,
}
use tiedie.Control.Models.Names.{sdf_name_of}
use tiedie.Control.Models.Registration.{get-register}
use tiedie.Control.Models.Changes.{update_drops_namespace}

abbrev posted : Request
posted = request_of thermometer none

abbrev about_thermometer : Request
about_thermometer = request_of thermometer (some thermometer_name)

named : sdf_name_of thermometer ≡ ok thermometer_name
unfolding sdf_name_of find_field contains index get
named = refl

registered :
    respond (register_sdf_model memory posted) empty_db
    ≡ json (arr (cons (sdf_name_json thermometer_name) nil)) 200
unfolding register_sdf_model sdf_name_of find_field contains index get find_first any
registered = refl

get-register_example :
    respond
      (get_sdf_model memory same about_thermometer)
      (after (register_sdf_model memory posted) empty_db)
    ≡ json thermometer 200
get-register_example =
    get-register memory posted empty_db thermometer thermometer_name refl refl named memory-IsLawful
      same about_thermometer refl refl (ap status_of registered)

taken : find_model memory thermometer_name full_db ≡ some thermometer_row
unfolding find_first
taken = refl

refused_again : 400 ≤ status_of (respond (register_sdf_model memory posted) full_db)
unfolding register_sdf_model sdf_name_of find_field contains index get find_first any
refused_again = omega arith

-- the model under another namespace
abbrev moved_fields : Fields
moved_fields = field "namespace" (str "https://u") end

abbrev moved : Request
moved = request_of (obj moved_fields) (some thermometer_name)

changed : changes_namespace (obj moved_fields) thermometer ≡ ok true
unfolding changes_namespace changes find_field contains index get json_eq
changed = refl

-- a model with the same namespace
abbrev smaller : Json
smaller = obj (field "defaultNamespace" (str "thermo") end)

unchanged : changes_namespace smaller thermometer ≡ ok false
unfolding changes_namespace changes find_field contains index get json_eq
unchanged = refl

abbrev bare : Request
bare = request_of (obj end) (some thermometer_name)

update_drops_namespace_example :
    (status_of (respond (update_sdf_model memory same bare) full_db) ≡ 200)
    × (respond (get_sdf_model memory same bare) (after (update_sdf_model memory same bare) full_db)
        ≡ json (obj end) 200)
unfolding find_field
update_drops_namespace_example =
    update_drops_namespace memory memory-IsLawful same bare full_db end thermometer_row refl refl
      refl taken refl refl
