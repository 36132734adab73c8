-- ===== src/Pipeline/Library.antt =====
-- The third-party code that the pipeline calls: serde_json, jsonschema, chrono, and the conversions
-- between messages and JSON that serde derives.
use ingestion_service.Common.{ℕ, Bool, Option, List}
use ingestion_service.Model.Messages.{Str, SensorMessage, StatusMessage}

pub record Library : Type 1 where
  pub F64 : Type 0
  pub Value : Type 0
  pub Schema : Type 0
  -- `std::str::from_utf8` and `serde_json::from_str`
  pub from_utf8 : List ℕ → Option Str
  pub from_str : Str → Option Value
  -- `v.get(key).and_then(|x| x.as_str())`
  pub str_field : Value → Str → Option Str
  pub is_valid : Schema → Value → Bool
  -- whether `DateTime::parse_from_rfc3339` succeeds
  pub parses_as_rfc3339 : Str → Bool
  -- `serde_json::from_value` and `serde_json::to_value`
  pub sensor_from_value : Value → Option (SensorMessage F64)
  pub status_from_value : Value → Option StatusMessage
  pub sensor_to_value : SensorMessage F64 → Option Value
  pub status_to_value : StatusMessage → Option Value
