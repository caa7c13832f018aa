-- ===== src/Database/Session.antt =====
-- The session of one request: what it sees, and what is committed. What is not committed when the
-- request ends is rolled back.
use tiedie.Prelude.{Bool, ◌&&◌, ◌||◌, ◌==◌, Option, none, some}
use tiedie.Python.{database_error}
use tiedie.Python.Handlers.{Exec, Flow, value, raised}
use tiedie.Sdf.{SdfModel}
use tiedie.Database.Tables.{Table, IsTable}
use tiedie.Database.Rows.{BleExtension, Device, EndpointApp, DataApp, DataAppTopic, Event}

pub record Schema : Type 1 where
  pub sdf_model : Table SdfModel
  pub bledevices : Table BleExtension
  pub devices : Table Device
  pub endpoint_app : Table EndpointApp
  pub data_app : Table DataApp
  pub data_app_topics : Table DataAppTopic
  pub event : Table Event

-- The unique columns.
abbrev pub same_sdf_name : SdfModel → SdfModel → Bool
same_sdf_name r q = r.sdf_name == q.sdf_name

abbrev pub same_data_app : DataApp → DataApp → Bool
same_data_app r q = r.data_app_id == q.data_app_id

abbrev pub same_topic : DataAppTopic → DataAppTopic → Bool
same_topic r q = r.data_app_id == q.data_app_id && r.topic == q.topic

-- `instance_id` is the primary key, and `event_name` is unique
abbrev pub same_event : Event → Event → Bool
same_event r q = r.instance_id == q.instance_id || r.event_name == q.event_name

pub record IsLawful (D : Schema) : Type 1 where
  pub sdf_model : IsTable D.sdf_model same_sdf_name
  pub data_app : IsTable D.data_app same_data_app
  pub data_app_topics : IsTable D.data_app_topics same_topic
  pub event : IsTable D.event same_event

pub record Db (D : Schema) : Type 0 where
  pub sdf_model : D.sdf_model.Contents
  pub bledevices : D.bledevices.Contents
  pub devices : D.devices.Contents
  pub endpoint_app : D.endpoint_app.Contents
  pub data_app : D.data_app.Contents
  pub data_app_topics : D.data_app_topics.Contents
  pub event : D.event.Contents

pub record Session (D : Schema) : Type 0 where
  pub live : Db D
  pub stored : Db D

-- the session of a new request
abbrev pub begin : {D : Schema} → Db D → Session D
begin db = record { live = db; stored = db }

module _ {D : Schema} {R : Type 0} where
  -- `session.commit()`
  abbrev pub commit : Exec (Session D) R (Unit {0})
  commit s = (value tt, record s { stored = s.live })

  -- a change of what the session sees; `none` is an `IntegrityError`
  abbrev flushed : Session D → Option (Db D) → Flow R (Unit {0}) × Session D
  flushed s none = (raised database_error, s)
  flushed s (some db) = (value tt, record s { live = db })

  abbrev pub flush : (Db D → Option (Db D)) → Exec (Session D) R (Unit {0})
  flush f s = flushed s (f s.live)

  abbrev pub query : {A : Type 0} → (Db D → A) → Exec (Session D) R A
  query f s = (value (f s.live), s)
