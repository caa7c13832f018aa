-- ===== src/Database/Rows.antt =====
-- The rows of the tables that the NIPC handlers use: gateway/models.py and gateway/nipc_models.py.
-- Ids are texts, as they come in a request.
use tiedie.Prelude.{Option, List, String}

-- `BleExtension`, without the pairing data, which the control handlers do not read
pub record BleExtension : Type 0 where
  pub device_id : String
  pub device_mac_address : String

-- the id of a row of `devices`
pub record Device : Type 0 where
  pub device_id : String

pub record EndpointApp : Type 0 where
  pub id : String
  pub application_name : String
  -- the subject of the certificate, and the token, of the application: either may be missing
  pub subject_name : Option String
  pub client_token : Option String

pub record DataApp : Type 0 where
  pub data_app_id : String
  pub events : List String

-- the ACL of the broker: a user name and a topic that it may read
pub record DataAppTopic : Type 0 where
  pub data_app_id : String
  pub topic : String

pub record Event : Type 0 where
  pub instance_id : String
  pub event_name : String
  pub device_id : String
  pub event_type : String
  pub gatt_service_id : Option String
  pub gatt_characteristic_id : Option String
