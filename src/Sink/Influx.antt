-- ===== src/Sink/Influx.antt =====
-- src/infrastructure/sink/influx.rs: the points of the messages, the body of a batch, and the write with
-- its attempts. Metrics and log lines are left out.
pub mod Names
pub mod Attempts
pub mod OneLine
pub mod Timed
pub mod Encoded
pub mod Body
use ingestion_service.Common.{
  ℕ, zero, suc, ◌-◌, ◌^◌, ℤ, Bool, true, false, not, ◌&&◌, Option, none, some, List, [], ◌∷◌, ◌++◌,
  ltb, ◌==◌, if◌then◌else◌,
}
use ingestion_service.Wal.Types.{WalEvent}
use ingestion_service.Wal.Forwarder.{Response, written, retryable, permanent}
use ingestion_service.Model.Messages.{
  Str, SensorMessage, StatusMessage, HandledMessage, sensor_message, status_message,
}
use ingestion_service.Sink.Point.{
  FieldValue, float, int, uint, bool, str, Point, new, tag, field, timestamp, build,
  write_line_protocol,
}
use ingestion_service.Sink.Influx.Names.{
  bme680, device_status, device_id, room, device_class, firmware_version, temp_c, rel_hum_perc,
  pressure_hpa, gas_ohm, dew_point_c, heat_index_c, time_valid, iaq_score, iaq_text, boot_id, seq,
  warmed_up, replayed, ip_address, uptime, free_mem, ssid, rssi, queued, dropped_total,
  samples_failed_total, mqtt_connects_total, sensor_read_failures_total, reset_reason,
}

abbrev pub is_positive : ℤ → Bool
is_positive (ℤ.pos n) = ltb 0 n
is_positive (ℤ.negsuc n) = false

-- `warmed_up != Some(false)`
abbrev pub may_be_warm : Option Bool → Bool
may_be_warm none = true
may_be_warm (some b) = b

module _ {F64 : Type 0} where
  -- `if let Some(x)` in front of a field.
  abbrev pub field_some :
      {A : Type 0} → (A → FieldValue F64) → Str → Option A → Point F64 → Point F64
  field_some value key none b = b
  field_some value key (some x) b = field key (value x) b

  unfoldable pub iaq_fields : SensorMessage F64 → Point F64 → Point F64
  iaq_fields msg b =
      if may_be_warm msg.warmed_up
      then field iaq_text (str msg.values.iaq_text) (field iaq_score (float msg.values.iaq_score) b)
      else b

  unfoldable pub replayed_field : Bool → Point F64 → Point F64
  replayed_field yes_ b = if yes_ then field replayed (bool true) b else b

  -- The device's time counts where it is valid and after 1970.
  unfoldable pub device_time : Bool → ℤ → Point F64 → Point F64
  device_time valid time_ms b = if valid && is_positive time_ms then timestamp time_ms b else b

  -- The fields that every sensor has.
  unfoldable pub sensor_base : SensorMessage F64 → Point F64
  sensor_base msg =
      let b1 = tag device_id msg.device_id (new bme680) in
      let b2 = tag room msg.room b1 in
      let b3 = tag device_class msg.device_class b2 in
      let b4 = field firmware_version (str msg.fw_version) b3 in
      let b5 = field temp_c (float msg.values.temp_c) b4 in
      let b6 = field rel_hum_perc (float msg.values.rel_hum_perc) b5 in
      let b7 = field pressure_hpa (float msg.values.pressure_hpa) b6 in
      let b8 = field gas_ohm (float msg.values.gas_ohm) b7 in
      let b9 = field dew_point_c (float msg.values.dew_point_c) b8 in
      let b10 = field heat_index_c (float msg.values.heat_index_c) b9 in
      let b11 = field time_valid (bool msg.time_valid) b10 in b11

  unfoldable pub sensor_to_point : SensorMessage F64 → Point F64
  sensor_to_point msg =
      let c1 = iaq_fields msg (sensor_base msg) in
      let c2 = field_some uint boot_id msg.boot_id c1 in
      let c3 = field_some uint seq msg.seq c2 in
      let c4 = field_some bool warmed_up msg.warmed_up c3 in
      let c5 = replayed_field msg.replayed c4 in build (device_time msg.time_valid msg.time_ms c5)

  unfoldable pub status_base : StatusMessage → Point F64
  status_base msg =
      let b1 = tag device_id msg.device_id (new device_status) in
      let b2 = tag device_class msg.device_class b1 in
      let b3 = field firmware_version (str msg.fw_version) b2 in
      let b4 = field ip_address (str msg.ip) b3 in
      let b5 = field time_valid (bool msg.time_valid) b4 in
      let b6 = field uptime (int msg.uptime) b5 in
      let b7 = field free_mem (int msg.free_mem) b6 in
      let b8 = field ssid (str msg.ssid) b7 in let b9 = field rssi (int msg.rssi) b8 in b9

  unfoldable pub status_to_point : StatusMessage → Point F64
  status_to_point msg =
      let c0 = status_base msg in
      let c1 = field_some int queued msg.queued c0 in
      let c2 = field_some int dropped_total msg.dropped_total c1 in
      let c3 = field_some int samples_failed_total msg.samples_failed_total c2 in
      let c4 = field_some int mqtt_connects_total msg.mqtt_connects_total c3 in
      let c5 = field_some int sensor_read_failures_total msg.sensor_read_failures_total c4 in
      let c6 = field_some str reset_reason msg.reset_reason c5 in
      build (device_time msg.time_valid msg.time_ms c6)

  abbrev pub point_of : HandledMessage F64 → Point F64
  point_of (sensor_message s) = sensor_to_point s
  point_of (status_message s) = status_to_point s

  -- `InfluxEncoder::encode`
  unfoldable pub encode : (F64 → Str) → HandledMessage F64 → Str → Str
  encode show_f64 message out = write_line_protocol show_f64 (point_of message) out

abbrev pub newline : ℕ
newline = 10

abbrev pub is_empty : Str → Bool
is_empty [] = true
is_empty (c ∷ cs) = false

-- The loop of `build_body`, with the body so far.
unfoldable pub add_lines : List WalEvent → Str → Str
add_lines [] body = body
add_lines (e ∷ es) body =
    add_lines es ((if is_empty body then body else body ++ (newline ∷ [])) ++ e.payload)

unfoldable pub build_body : List WalEvent → Str
build_body batch = add_lines batch []

-- What a request comes to: it fails, or has a response with a status.
pub data Sent : Type 0 where
  failed : Sent
  status : ℕ → Sent

pub data Effect : Type 0 where
  slept : ℕ → Effect  -- seconds
  posted : Str → Effect

-- `StatusCode::is_success` and `StatusCode::is_client_error`.
module _ (is_success is_client_error : ℕ → Bool) where
  unfoldable pub is_permanent_status : ℕ → Bool
  is_permanent_status code = is_client_error code && (not (code == 408) && not (code == 429))

  abbrev pub sleep_for : ℕ → List Effect
  sleep_for zero = []
  sleep_for (suc attempt) = slept (2 ^ attempt) ∷ []

  -- The loop over so many more attempts, given the answers to the requests; `none` while a request has
  -- no answer.
  unfoldable pub attempts : ℕ → ℕ → Str → List Sent → Option Response × List Effect
  attempts zero attempt body answers = (some retryable, [])
  attempts (suc n) attempt body [] = (none, sleep_for attempt ++ (posted body ∷ []))
  attempts (suc n) attempt body (failed ∷ answers) =
      let (result, effects) = attempts n (suc attempt) body answers in
      (result, sleep_for attempt ++ (posted body ∷ effects))
  attempts (suc n) attempt body (status code ∷ answers) =
      let (result, effects) = attempts n (suc attempt) body answers in
      if is_success code
      then (some written, sleep_for attempt ++ (posted body ∷ []))
      else if is_permanent_status code
      then (some permanent, sleep_for attempt ++ (posted body ∷ []))
      else (result, sleep_for attempt ++ (posted body ∷ effects))

  -- `InfluxSink::write`
  unfoldable pub write : List WalEvent → List Sent → Option Response × List Effect
  write [] answers = (some written, [])
  write (e ∷ es) answers = attempts 3 0 (build_body (e ∷ es)) answers
