-- ===== src/Ble/Services.antt =====
-- The data classes of gateway/ble_types.py, and the connections of gateway/access_point.py.
use tiedie.Prelude.{ℕ, List, [], String, Dict}
use tiedie.Ble.Characteristics.{properties_of}

pub record Descriptor : Type 0 where
  pub descriptor_id : String
  pub desc_handle : ℕ

pub record Characteristic : Type 0 where
  pub characteristic_id : String
  pub char_handle : ℕ
  pub properties : List String
  pub descriptors : Dict String Descriptor

-- `Characteristic(characteristic_id, char_handle, properties)`
abbrev pub new_characteristic : String → ℕ → ℕ → Characteristic
unfolding properties_of
new_characteristic id handle properties = record {
  characteristic_id = id;
  char_handle = handle;
  properties = properties_of properties;
  descriptors = [];
}

pub record Service : Type 0 where
  pub service_id : String
  pub service_handle : ℕ
  pub characteristics : Dict String Characteristic

pub record ConnectionRequest : Type 0 where
  pub address : String
  pub handle : ℕ
  pub services : Dict String Service
