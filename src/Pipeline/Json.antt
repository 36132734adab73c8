-- ===== src/Pipeline/Json.antt =====
-- serde_json's values as src/pipeline/stages/transform.rs reads and changes them.
use ingestion_service.Common.{◌≡◌, Option, some, if◌then◌else◌}
use ingestion_service.Common.{ℤ}
use ingestion_service.Model.Messages.{Str}
use ingestion_service.Model.Topic.{str_eq}
use ingestion_service.Pipeline.Library.{Library}

-- An object is a value that has a map; `as_object_mut` gives that map, to be changed in place. A
-- number may be one that no `f64` holds.
pub record Json (lib : Library) : Type 1 where
  pub Map : Type 0
  pub as_object : lib.Value → Option Map
  pub object : Map → lib.Value
  pub string : Str → lib.Value
  pub integer : ℤ → lib.Value
  -- `Value::as_f64` and `Number::from_f64`, which refuses what is not finite
  pub as_f64 : lib.Value → Option lib.F64
  pub from_f64 : lib.F64 → Option lib.Value
  pub as_str : lib.Value → Option Str
  pub get : Map → Str → Option lib.Value
  pub insert : Map → Str → lib.Value → Map
  -- what their documentation says
  pub as_object-object : (m : Map) → as_object (object m) ≡ some m
  pub as_str-string : (s : Str) → as_str (string s) ≡ some s
  pub as_f64-from_f64 : (x : lib.F64) (v : lib.Value) → from_f64 x ≡ some v → as_f64 v ≡ some x
  pub get-insert :
      (m : Map) (k k' : Str) (v : lib.Value)
      → get (insert m k v) k' ≡ (if str_eq k k' then some v else get m k')
