-- ===== src/Pipeline/Transform.antt =====
-- The payload functions of src/pipeline/stages/transform.rs: what is made of a JSON payload before it
-- is read as a message. Metrics and log lines are left out.
pub mod Derived
pub mod Keys
pub mod Fields
pub mod Status
pub mod Edits
pub mod Data
pub mod Sensor
use ingestion_service.Common.{
  ℤ, Bool, true, false, not, ◌&&◌, Option, none, some, List, [], ◌∷◌, Result, ok, err, ◌>>=◌, ok_or,
}
use ingestion_service.Model.Messages.{Str, MessageType, sensor, status}
use ingestion_service.Model.Topic.{is_whitespace, trim_matches}
use ingestion_service.Pipeline.Library.{Library}
use ingestion_service.Pipeline.Floats.{Floats, ◌<f◌, ◌<=f◌, decimal, contains}
use ingestion_service.Pipeline.Json.{Json}
use ingestion_service.Pipeline.Transform.Derived.{
  calc_dew_point_c, calc_heat_index_c, calc_iaq_score, calc_iaq_text,
}
use ingestion_service.Pipeline.Transform.Keys.{
  device_id, room, device_class, fw_version, time_iso, ip, ssid, uptime, free_mem, data', temp_c,
  rel_hum_perc, pressure_hpa, gas_ohm, altitude_m, dew_point_c, heat_index_c, iaq_score, iaq_text,
}

-- The errors, without the numbers in their texts.
pub data TransformError : Type 0 where
  data_missing rel_hum_perc_out_of_range gas_ohm_not_positive pressure_hpa_out_of_range :
      TransformError
  field_missing non_finite : Str → TransformError

-- The required fields of a sensor's data.
pub record Readings (F64 : Type 0) : Type 0 where
  pub temp : F64
  pub hum : F64
  pub pressure : F64
  pub gas : F64
  pub altitude : F64

-- `if !condition { bail!(error) }`
abbrev pub unless_bail : Bool → TransformError → Result TransformError (Unit {0})
unless_bail true e = ok tt
unless_bail false e = err e

-- What a change of a map comes to, and the map that it leaves.
abbrev pub Written : Type 0 → Type 0
Written M = Result TransformError (Unit {0}) × M

-- `?` between two changes.
unfoldable pub then_write : {M : Type 0} → Written M → (M → Written M) → Written M
then_write (ok _, m) f = f m
then_write (err e, m) f = (err e, m)

module _ (lib : Library) (json : Json lib) where
  abbrev pub field : lib.Value → Str → Option lib.Value
  field v key = elim (json.as_object v) [ none ↦ none | some m ↦ json.get m key ]

  -- `payload.as_object_mut()` and `insert`, where the payload is an object.
  unfoldable pub set_field : Str → lib.Value → lib.Value → lib.Value
  set_field key x payload = elim (json.as_object payload) [
    | none ↦ payload
    | some m ↦ json.object (json.insert m key x)
  ]

  abbrev pub as_text : Option lib.Value → Option Str
  as_text none = none
  as_text (some v) = json.as_str v

  abbrev pub as_number : Option lib.Value → Option lib.F64
  as_number none = none
  as_number (some v) = json.as_f64 v

  abbrev pub as_map : Option lib.Value → Option json.Map
  as_map none = none
  as_map (some v) = json.as_object v

  unfoldable pub trim_root_string : Str → lib.Value → lib.Value
  trim_root_string key payload = elim (as_text (field payload key)) [
    | none ↦ payload
    | some s ↦ set_field key (json.string (trim_matches is_whitespace s)) payload
  ]

  -- `ensure_i64` and `ensure_string`.
  unfoldable pub ensure : Str → lib.Value → lib.Value → lib.Value
  ensure key default payload = elim (field payload key) [
    | none ↦ set_field key default payload
    | some _ ↦ payload
  ]

  unfoldable pub trim_all : List Str → lib.Value → lib.Value
  trim_all [] payload = payload
  trim_all (key ∷ keys) payload = trim_all keys (trim_root_string key payload)

  unfoldable pub transform_status_payload : lib.Value → Result TransformError (Unit {0}) × lib.Value
  transform_status_payload payload =
      let trimmed =
        trim_all (device_id ∷ device_class ∷ fw_version ∷ ip ∷ time_iso ∷ ssid ∷ []) payload in
      (
        ok tt,
        ensure ssid (json.string []) (
            ensure free_mem (json.integer (ℤ.pos 0))
              (ensure uptime (json.integer (ℤ.pos 0)) trimmed)),
      )

  unfoldable pub required_f64_from_object : json.Map → Str → Result TransformError lib.F64
  required_f64_from_object obj key = ok_or (as_number (json.get obj key)) (field_missing key)

  unfoldable pub set_f64_in_object : Str → lib.F64 → json.Map → Written json.Map
  set_f64_in_object key value obj = elim (json.from_f64 value) [
    | none ↦ (err (non_finite key), obj)
    | some number ↦ (ok tt, json.insert obj key number)
  ]

  module _ ⦃floats : Floats lib.F64⦄ where
    -- The five readings and the three tests.
    unfoldable pub read_data : json.Map → Result TransformError (Readings lib.F64)
    read_data data_ = do
      temp ← required_f64_from_object data_ temp_c
      hum ← required_f64_from_object data_ rel_hum_perc
      pressure ← required_f64_from_object data_ pressure_hpa
      gas ← required_f64_from_object data_ gas_ohm
      altitude ← required_f64_from_object data_ altitude_m
      _ ← unless_bail (decimal 0 1 <f hum && hum <=f decimal 1000 1) rel_hum_perc_out_of_range
      _ ← unless_bail (not (gas <=f decimal 0 1)) gas_ohm_not_positive
      _ ←
          unless_bail (contains (decimal 3000 1) (decimal 12000 1) pressure)
            pressure_hpa_out_of_range
      ok (record { temp = temp; hum = hum; pressure = pressure; gas = gas; altitude = altitude })

    -- The six changes, one after another; one that fails leaves those before it.
    unfoldable pub write_data : Readings lib.F64 → json.Map → Written json.Map
    write_data r data_ =
        let score = calc_iaq_score r.gas r.hum in
        then_write
          (then_write
            (then_write
              (then_write
                (then_write (set_f64_in_object dew_point_c (calc_dew_point_c r.temp r.hum) data_)
                  (set_f64_in_object heat_index_c (calc_heat_index_c r.temp r.hum)))
                (set_f64_in_object iaq_score score))
              (λ m. (ok tt, json.insert m iaq_text (json.string (calc_iaq_text score)))))
            (set_f64_in_object pressure_hpa r.pressure))
          (set_f64_in_object altitude_m r.altitude)

    unfoldable pub transform_data : json.Map → Written json.Map
    transform_data data_ = elim (read_data data_) [
      | ok r ↦ write_data r data_
      | err e ↦ (err e, data_)
    ]

    -- `data` is changed in place.
    unfoldable pub transform_sensor_payload :
        lib.Value → Result TransformError (Unit {0}) × lib.Value
    transform_sensor_payload payload =
        let trimmed =
          trim_all (device_id ∷ room ∷ device_class ∷ fw_version ∷ time_iso ∷ []) payload in
        elim (as_map (field trimmed data')) [
          | none ↦ (err data_missing, trimmed)
          | some data_ ↦
              let (done_, changed) = transform_data data_ in
              (done_, set_field data' (json.object changed) trimmed)
        ]

    unfoldable pub transform_payload :
        MessageType → lib.Value → Result TransformError (Unit {0}) × lib.Value
    transform_payload sensor payload = transform_sensor_payload payload
    transform_payload status payload = transform_status_payload payload
