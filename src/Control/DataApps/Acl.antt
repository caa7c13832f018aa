-- ===== src/Control/DataApps/Acl.antt =====
-- The topics that the broker lets an application read: `data_app_topics`, which the registration
-- and the update of a data application of gateway/control.py replace.
use tiedie.Prelude.{not, Option, none, some, List, [], ◌∷◌, String, ◌==◌, if◌then◌else◌}
use tiedie.Python.{Result, ok, raise, type_error, attribute_error, database_error, ◌>>=◌}
use tiedie.Json.{Json, str, get, index, truthy}
use tiedie.Topics.{create_topic_from_event}
use tiedie.Database.Tables.{Table}
use tiedie.Database.Rows.{DataAppTopic}

abbrev as_text : Json → Result String
as_text (str s) = ok s
as_text _ = raise type_error

-- `[ev["event"] for ev in events]`, for a column of texts
unfoldable pub event_names : List Json → Result (List String)
event_names [] = ok []
event_names (event ∷ events) = do
  event_json ← index event "event"
  name ← as_text event_json
  names ← event_names events
  ok (name ∷ names)

-- `create_topic_from_event(str(data_app_id), event_name)`; only a text can be split
unfoldable pub topic_of : String → Json → Result String
topic_of data_app_id (str event_name) = create_topic_from_event data_app_id event_name
topic_of data_app_id _ = raise attribute_error

abbrev pub or_database_error : {A : Type 0} → Option A → Result A
or_database_error none = raise database_error
or_database_error (some a) = ok a

module _ (T : Table DataAppTopic) (username data_app_id : String) where
  -- one round of the loop: an event without a name is skipped
  unfoldable pub add_topic : Json → T.Contents → Result T.Contents
  unfolding topic_of
  add_topic event t = do
    event_name ← get event "event"
    if not (truthy event_name) then ok t else (do
      topic ← topic_of data_app_id event_name
      or_database_error (T.add (record { data_app_id = username; topic = topic }) t))

  unfoldable pub add_topics : List Json → T.Contents → Result T.Contents
  unfolding add_topic
  add_topics [] t = ok t
  add_topics (event ∷ events) t = do t' ← add_topic event t; add_topics events t'

  -- The rows of the user are deleted, and one is added for each event.
  unfoldable pub replace_acl : List Json → T.Contents → Result T.Contents
  unfolding add_topics
  replace_acl events t = add_topics events (T.delete (λ row. row.data_app_id == username) t)
