-- ===== src/Control/Samples.antt =====
-- A thermometer's model, a database in memory that holds it, and requests: data of the tests.
use tiedie.Prelude.{List, none, true, Option, some, [], ◌∷◌, String}
use tiedie.Python.{Exc, Result, ok, raise}
use tiedie.Json.{Json, bool, str, arr, obj, nil, cons, end, field}
use tiedie.Sdf.{SdfModel}
use tiedie.Database.Rows.{BleExtension, Device, EndpointApp, DataApp, DataAppTopic, Event}
use tiedie.Control.AccessPoint.{AccessPoint, Service, Characteristic}
use tiedie.Database.Memory.{memory}
use tiedie.Database.Session.{Db}
use tiedie.Control.Responses.{Request}

abbrev pub ble_map : Json
ble_map = obj (
    field "type" (str "gatt")
      (field "serviceID" (str "1809") (field "characteristicID" (str "2A1C") end)))

abbrev pub alarm : Json
alarm = obj (field "sdfProtocolMap" (obj (field "ble" ble_map end)) end)

abbrev pub sensor : Json
sensor = obj (field "sdfEvent" (obj (field "alarm" alarm end)) end)

abbrev pub thermometer : Json
thermometer = obj (
    field "namespace" (obj (field "thermo" (str "https://t") end)) (
      field "defaultNamespace" (str "thermo")
        (field "sdfObject" (obj (field "sensor" sensor end)) end)))

abbrev pub thermometer_name : String
thermometer_name = "https://t#/sensor"

abbrev pub thermometer_row : SdfModel
thermometer_row = record { sdf_name = thermometer_name; model = thermometer }

abbrev pub alarm_name : String
alarm_name = "https://t#/sdfObject/sensor/sdfEvent/alarm"

abbrev pub alarm_row : Event
alarm_row = record {
  instance_id = "i1";
  event_name = alarm_name;
  device_id = "d1";
  event_type = "gatt";
  gatt_service_id = some "1809";
  gatt_characteristic_id = some "2A1C";
}

abbrev pub old_topic : DataAppTopic
old_topic = record { data_app_id = "user"; topic = "old" }

abbrev pub other_topic : DataAppTopic
other_topic = record { data_app_id = "other"; topic = "kept" }

abbrev pub empty_db : Db memory
empty_db = record {
  sdf_model = [];
  bledevices = [];
  devices = [];
  endpoint_app = [];
  data_app = [];
  data_app_topics = [];
  event = [];
}

abbrev pub device : String → Device
device id = record { device_id = id }

abbrev pub endpoint : EndpointApp
endpoint = record {
  id = "app";
  application_name = "user";
  subject_name = none;
  client_token = some "secret";
}

abbrev pub full_db : Db memory
full_db = record {
  sdf_model = thermometer_row ∷ [];
  bledevices = [];
  devices = device "d1" ∷ device "d2" ∷ [];
  endpoint_app = endpoint ∷ [];
  data_app = [];
  data_app_topics = old_topic ∷ other_topic ∷ [];
  event = [];
}

abbrev pub data_app : DataApp
data_app = record { data_app_id = "app"; events = [] }

abbrev pub app_db : Db memory
app_db = record full_db { data_app = data_app ∷ [] }

abbrev pub alarm_db : Db memory
alarm_db = record full_db { event = alarm_row ∷ [] }

abbrev pub event_entry : Json
event_entry = obj (field "event" (str alarm_name) end)

abbrev pub data_app_body : Json
data_app_body =
    obj (field "events" (arr (cons event_entry nil)) (field "mqttClient" (bool true) end))

-- a request with a JSON body and the query parameter of its handler
abbrev pub request_of : Json → Option String → Request
request_of body arg = record { is_json = true; get_json = ok body; arg = arg }

abbrev pub same : String → String
same s = s

abbrev pub thermo_characteristic : Characteristic
thermo_characteristic = record {
  characteristic_id = "2a1c";
  properties = "read" ∷ [];
  descriptors = [];
}

abbrev pub thermo_service : Service
thermo_service = record { service_id = "1809"; characteristics = thermo_characteristic ∷ [] }

abbrev pub connection : List String → Option (List Service)
connection [] = none
connection (address ∷ links) = some (thermo_service ∷ [])

abbrev pub found_or : Option Exc → Result (List Service)
found_or none = ok (thermo_service ∷ [])
found_or (some e) = raise e

-- An access point for one device, whose state is its connections; its discovery may fail.
abbrev pub scripted : Option Exc → AccessPoint (List String)
scripted error = record {
  get_connection = λ address links. connection links;
  connect = λ address options retries links. (ok tt, address ∷ []);
  discover = λ address options retries links. (found_or error, links);
  read = λ address service char links. (ok (some (1 ∷ 2 ∷ [])), links);
  write = λ address service char bytes links. (ok tt, links);
  disconnect = λ address links. (ok tt, []);
}

abbrev pub ble_device : BleExtension
ble_device = record { device_id = "d1"; device_mac_address = "aa" }

abbrev pub ble_db : Db memory
ble_db = record full_db { bledevices = ble_device ∷ [] }
