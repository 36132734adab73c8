-- ===== src/Pipeline/Transform/Sensor.antt =====
-- The sensor payload: which fields the transformation changes, and to what.
use ingestion_service.Common.{
  ◌≡◌, refl, sym, ap, ◌∙◌, true, false, Option, some, List, [], ◌∷◌, ok, if◌then◌else◌, arith,
  Option-cases, inl, inr,
}
use ingestion_service.Model.Messages.{Str}
use ingestion_service.Model.Topic.{str_eq}
use ingestion_service.Pipeline.Library.{Library}
use ingestion_service.Pipeline.Floats.{Floats}
use ingestion_service.Pipeline.Json.{Json}
use ingestion_service.Pipeline.Transform.{
  Readings, field, as_map, set_field, trim_all, transform_data, transform_sensor_payload,
}
use ingestion_service.Pipeline.Transform.Data.{IsSafe, IsWritten, transform_data-IsWritten}
use ingestion_service.Pipeline.Transform.Fields.{
  has_key, distinct, trimmed, trim_all-object, field-get,
}
use ingestion_service.Pipeline.Transform.Keys.{
  device_id, room, device_class, fw_version, time_iso, data',
}

abbrev pub sensor_texts : List Str
sensor_texts = device_id ∷ room ∷ device_class ∷ fw_version ∷ time_iso ∷ []

sensor_texts-distinct : distinct sensor_texts ≡ true
unfolding distinct has_key str_eq
sensor_texts-distinct = refl

data-no-text : has_key sensor_texts data' ≡ false
unfolding has_key str_eq
data-no-text = refl

module _ (lib : Library) (json : Json lib) ⦃floats : Floats lib.F64⦄ where
  -- What a field of a sensor's payload becomes, where its data become `data_`.
  unfoldable pub sensor_field : json.Map → Str → Option lib.Value → Option lib.Value
  sensor_field data_ k old =
      if str_eq data' k
      then some (json.object data_)
      else if has_key sensor_texts k
      then trimmed lib json old
      else old

  -- A transformation that succeeds: the data were an object with safe readings, and are written as
  -- `IsWritten` says.
  pub record IsTransformed (m m' : json.Map) : Type 0 where
    pub old : json.Map
    pub new : json.Map
    pub readings : Readings lib.F64
    pub was_object : as_map lib json (json.get m data') ≡ some old
    pub safe : IsSafe lib json old readings
    pub written : IsWritten lib json readings old new
    pub fields : (k : Str) → json.get m' k ≡ sensor_field new k (json.get m k)

  -- Where the transformation of a sensor's payload that is an object succeeds, its data had safe
  -- readings; they have the derived numbers and the text computed from these, and all else that they
  -- had; and of the other fields just the five texts are trimmed.
  pub transform_sensor_payload-IsTransformed :
      (payload payload' : lib.Value) (m : json.Map)
      → json.as_object payload ≡ some m
      → transform_sensor_payload lib json payload ≡ (ok tt, payload')
      → (m' : json.Map) × (json.as_object payload' ≡ some m') × IsTransformed m m'
  unfolding transform_sensor_payload sensor_field set_field
  transform_sensor_payload-IsTransformed payload payload' m e h =
      let v1 = trim_all lib json sensor_texts payload in
      let (m1, e1, f1) = trim_all-object lib json sensor_texts payload m sensor_texts-distinct e in
      let kept : json.get m1 data' ≡ json.get m data' = ground (arith, f1 data', data-no-text) in
      elim (Option-cases (as_map lib json (field lib json v1 data'))) [
        | inl n ↦ ground (arith, n, h)
        | inr (data_, d) ↦
            let new = (transform_data lib json data_).1 in
            let m' = json.insert m1 data' (json.object new) in
            let succeeds : transform_data lib json data_ ≡ (ok tt, new) = ground (arith, d, h) in
            let left : json.as_object payload' ≡ some m' =
              ground (arith, d, h, e1, json.as_object-object m') in
            let (r, safe, written) = transform_data-IsWritten lib json data_ new succeeds in
            (
              m',
              left,
              record {
                old = data_;
                new = new;
                readings = r;
                was_object =
                    ap (as_map lib json) (sym kept ∙ sym (field-get lib json data' v1 m1 e1)) ∙ d;
                safe = safe;
                written = written;
                fields = λ k. ground (arith, f1 k, json.get-insert m1 data' k (json.object new));
              },
            )
      ]
