-- ===== src/Topics.antt =====
-- `create_topic_from_event` of gateway/data_producer.py.
use tiedie.Prelude.{String, ◌+++◌, has_char, split_once, if◌then◌else◌}
use tiedie.Python.{Result, ok, raise, value_error}

-- "data-app/<id>/<namespace>/<pointer>"
abbrev pub topic : String → String → String → String
topic data_app_id namespace json_pointer =
    "data-app/" +++ data_app_id +++ "/" +++ namespace +++ "/" +++ json_pointer

-- Without a '#' the split gives one part, and its unpacking fails.
unfoldable pub create_topic_from_event : String → String → Result String
create_topic_from_event data_app_id event_name =
    if has_char b'#' event_name
    then ok (topic data_app_id (split_once b'#' event_name).0 (split_once b'#' event_name).1)
    else raise value_error
