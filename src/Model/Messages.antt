-- ===== src/Model/Messages.antt =====
-- src/model/messages: what a payload becomes. Strings are the lists of their characters; the type of
-- the floating-point numbers is a parameter.
use ingestion_service.Common.{ℕ, ℤ, Bool, Option, List}

abbrev pub Str : Type 0
Str = List ℕ

pub data MessageType : Type 0 where
  sensor status : MessageType

pub record SensorData (F64 : Type 0) : Type 0 where
  pub temp_c : F64
  pub rel_hum_perc : F64
  pub pressure_hpa : F64
  pub gas_ohm : F64
  pub iaq_score : F64
  pub iaq_text : Str
  pub dew_point_c : F64
  pub heat_index_c : F64
  pub altitude_m : F64

pub record SensorMessage (F64 : Type 0) : Type 0 where
  pub device_id : Str
  pub room : Str
  pub device_class : Str
  pub fw_version : Str
  pub time_ms : ℤ
  pub time_iso : Str
  pub time_valid : Bool
  pub boot_id : Option ℕ
  pub seq : Option ℕ
  pub warmed_up : Option Bool
  pub replayed : Bool
  pub values : SensorData F64  -- `data`

pub record StatusMessage : Type 0 where
  pub device_id : Str
  pub device_class : Str
  pub fw_version : Str
  pub ip : Str
  pub rssi : ℤ
  pub time_ms : ℤ
  pub time_iso : Str
  pub time_valid : Bool
  pub uptime : ℤ
  pub free_mem : ℤ
  pub ssid : Str
  pub queued : Option ℤ
  pub dropped_total : Option ℤ
  pub samples_failed_total : Option ℤ
  pub mqtt_connects_total : Option ℤ
  pub sensor_read_failures_total : Option ℤ
  pub reset_reason : Option Str

pub data HandledMessage (F64 : Type 0) : Type 0 where
  sensor_message : SensorMessage F64 → HandledMessage F64
  status_message : StatusMessage → HandledMessage F64
