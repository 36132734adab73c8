-- ===== src/Pipeline/Transform/Status.antt =====
-- The status payload: which fields the transformation changes, and to what.
use ingestion_service.Common.{
  ℤ, ◌≡◌, refl, Option, some, List, [], ◌∷◌, ok, true, if◌then◌else◌, arith,
}
use ingestion_service.Model.Messages.{Str}
use ingestion_service.Model.Topic.{str_eq}
use ingestion_service.Pipeline.Library.{Library}
use ingestion_service.Pipeline.Json.{Json}
use ingestion_service.Pipeline.Transform.{trim_all, ensure, transform_status_payload}
use ingestion_service.Pipeline.Transform.Fields.{
  has_key, distinct, trimmed, trim_all-object, defaulted, ensure-object,
}
use ingestion_service.Pipeline.Transform.Keys.{
  device_id, device_class, fw_version, time_iso, ip, ssid, uptime, free_mem,
}

abbrev pub status_texts : List Str
status_texts = device_id ∷ device_class ∷ fw_version ∷ ip ∷ time_iso ∷ ssid ∷ []

status_texts-distinct : distinct status_texts ≡ true
unfolding distinct has_key str_eq
status_texts-distinct = refl

module _ (lib : Library) (json : Json lib) where
  -- What a field of a status becomes: a text among the six is trimmed, and `uptime`, `free_mem` and
  -- `ssid` have a value where there was none.
  unfoldable pub status_field : Str → Option lib.Value → Option lib.Value
  status_field k old =
      let text = if has_key status_texts k then trimmed lib json old else old in
      let up = if str_eq uptime k then defaulted lib json (json.integer (ℤ.pos 0)) text else text in
      let free = if str_eq free_mem k then defaulted lib json (json.integer (ℤ.pos 0)) up else up in
      if str_eq ssid k then defaulted lib json (json.string []) free else free

  -- The transformation of a status that is an object never fails, and changes each of its fields as
  -- `status_field` says, and no other.
  pub transform_status_payload-fields :
      (payload : lib.Value) (m : json.Map)
      → json.as_object payload ≡ some m
      → ((transform_status_payload lib json payload).0 ≡ ok tt)
        × ((m' : json.Map) × (json.as_object (transform_status_payload lib json payload).1
              ≡ some m')
            × ((k : Str) → json.get m' k ≡ status_field k (json.get m k)))
  unfolding transform_status_payload status_field
  transform_status_payload-fields payload m e =
      let zero_ = json.integer (ℤ.pos 0) in
      let (m1, e1, f1) = trim_all-object lib json status_texts payload m status_texts-distinct e in
      let v1 = trim_all lib json status_texts payload in
      let (m2, e2, f2) = ensure-object lib json uptime zero_ v1 m1 e1 in
      let v2 = ensure lib json uptime zero_ v1 in
      let (m3, e3, f3) = ensure-object lib json free_mem zero_ v2 m2 e2 in
      let v3 = ensure lib json free_mem zero_ v2 in
      let (m4, e4, f4) = ensure-object lib json ssid (json.string []) v3 m3 e3 in
      (refl, (m4, e4, λ k. ground (arith, f4 k, f3 k, f2 k, f1 k)))
