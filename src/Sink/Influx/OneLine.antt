-- ===== src/Sink/Influx/OneLine.antt =====
-- How many newlines the line of a sensor's point has.
use ingestion_service.Common.{
  ◌+◌, ◌≡◌, refl, ap, ◌∙◌, ℕ, ℤ, Bool, true, false, Option, none, some, List, [], ◌∷◌, ◌++◌,
  if◌then◌else◌, arith, Bool-cases, inl, inr,
}
use ingestion_service.Model.Messages.{Str, SensorMessage}
use ingestion_service.Sink.Point.{
  FieldValue, uint, bool, Point, new, tag, field, timestamp, build, insert_by_key, sort_by_key,
  line_of, less,
}
use ingestion_service.Sink.Point.RoundTrip.{IsPlain}
use ingestion_service.Sink.Point.Newlines.{newlines, in_tags, in_value, in_fields, newlines-of_line}
use ingestion_service.Sink.Influx.{
  may_be_warm, field_some, iaq_fields, replayed_field, device_time, sensor_base, sensor_to_point,
}
use ingestion_service.Sink.Influx.Names.{boot_id, seq, warmed_up, replayed}

pub newlines-plain : (s : Str) → IsPlain s → newlines s ≡ 0
newlines-plain [] h = refl
newlines-plain (c ∷ s) (h, hs) = ground (arith, newlines-plain s hs)

in_tags-insert_by_key :
    (x : Str × Str) (ys : List (Str × Str)) → in_tags (insert_by_key x ys) ≡ in_tags (x ∷ ys)
unfolding insert_by_key
in_tags-insert_by_key x [] = refl
in_tags-insert_by_key (k, v) ((k', v') ∷ ys) = elim (Bool-cases (less k' k)) [
  | inl e ↦ ground (arith, e, in_tags-insert_by_key (k, v) ys)
  | inr e ↦ ground (arith, e)
]

in_tags-sort_by_key : (xs : List (Str × Str)) → in_tags (sort_by_key xs) ≡ in_tags xs
unfolding sort_by_key
in_tags-sort_by_key [] = refl
in_tags-sort_by_key ((k, v) ∷ xs) =
    omega (arith, in_tags-insert_by_key (k, v) (sort_by_key xs), in_tags-sort_by_key xs)

-- The newlines in the strings of a sensor's message that are encoded.
abbrev pub in_strings : {F64 : Type 0} → SensorMessage F64 → ℕ
in_strings msg =
    newlines msg.device_id
    + newlines msg.room
    + newlines msg.device_class
    + newlines msg.fw_version
    + (if may_be_warm msg.warmed_up then newlines msg.values.iaq_text else 0)

module _ {F64 : Type 0} (show_f64 : F64 → Str)
    (f64_line : (x : F64) → newlines (show_f64 x) ≡ 0) where
  abbrev within : List (Str × FieldValue F64) → ℕ
  within fs = in_fields show_f64 f64_line fs

  within-insert_by_key :
      (x : Str × FieldValue F64) (ys : List (Str × FieldValue F64))
      → within (insert_by_key x ys) ≡ within (x ∷ ys)
  unfolding insert_by_key
  within-insert_by_key x [] = refl
  within-insert_by_key (k, v) ((k', v') ∷ ys) = elim (Bool-cases (less k' k)) [
    | inl e ↦ ground (arith, e, within-insert_by_key (k, v) ys)
    | inr e ↦ ground (arith, e)
  ]

  within-sort_by_key : (xs : List (Str × FieldValue F64)) → within (sort_by_key xs) ≡ within xs
  unfolding sort_by_key
  within-sort_by_key [] = refl
  within-sort_by_key ((k, v) ∷ xs) =
      omega (arith, within-insert_by_key (k, v) (sort_by_key xs), within-sort_by_key xs)

  within-snoc :
      (fs : List (Str × FieldValue F64)) (k : Str) (v : FieldValue F64)
      → within (fs ++ ((k, v) ∷ [])) ≡ within fs + (newlines k + in_value show_f64 f64_line v)
  within-snoc [] k v = omega arith
  within-snoc ((k', v') ∷ fs) k v = omega (arith, within-snoc fs k v)

  -- A field without newlines changes neither the tags nor the count.
  abbrev Same : Point F64 → Point F64 → Type 0
  Same p q =
      (p.measurement ≡ q.measurement) × (p.tags ≡ q.tags) × (within p.fields ≡ within q.fields)

  field_some-Same :
      {A : Type 0} (value : A → FieldValue F64) (key : Str) (o : Option A) (b : Point F64)
      → ((a : A) → in_value show_f64 f64_line (value a) ≡ 0)
      → newlines key ≡ 0
      → Same (field_some value key o b) b
  unfolding field
  field_some-Same value key none b h k = (refl, refl, refl)
  field_some-Same value key (some a) b h k =
      (refl, refl, omega (arith, within-snoc b.fields key (value a), h a, k))

  replayed_field-Same : (yes_ : Bool) (b : Point F64) → Same (replayed_field yes_ b) b
  unfolding field replayed_field
  replayed_field-Same false b = (refl, refl, refl)
  replayed_field-Same true b =
      (refl, refl, omega (arith, within-snoc b.fields replayed (bool true)))

  device_time-Same :
      (valid : Bool) (time_ms : ℤ) (b : Point F64) → Same (device_time valid time_ms b) b
  unfolding timestamp device_time
  device_time-Same valid time_ms b = (ground arith, ground arith, ground arith)

  Same-trans : (p q r : Point F64) → Same p q → Same q r → Same p r
  Same-trans p q r (a, b, c) (a', b', c') = (a ∙ a', b ∙ b', c ∙ c')

  -- The point in front of the sorting has the newlines of the point with the air quality.
  sensor-Same :
      (msg : SensorMessage F64)
      → let b1 = iaq_fields msg (sensor_base msg) in
        let b2 = field_some uint boot_id msg.boot_id b1 in
        let b3 = field_some uint seq msg.seq b2 in
        let b4 = field_some bool warmed_up msg.warmed_up b3 in
        Same (device_time msg.time_valid msg.time_ms (replayed_field msg.replayed b4)) b1
  sensor-Same msg =
      let b1 = iaq_fields msg (sensor_base msg) in
      let b2 = field_some uint boot_id msg.boot_id b1 in
      let b3 = field_some uint seq msg.seq b2 in
      let b4 = field_some bool warmed_up msg.warmed_up b3 in
      let b5 = replayed_field msg.replayed b4 in
      Same-trans (device_time msg.time_valid msg.time_ms b5) b5 b1
        (device_time-Same msg.time_valid msg.time_ms b5)
        (Same-trans b5 b4 b1 (replayed_field-Same msg.replayed b4) (
          Same-trans b4 b3 b1 (field_some-Same bool warmed_up msg.warmed_up b3 (λ a. refl) refl) (
            Same-trans b3 b2 b1 (field_some-Same uint seq msg.seq b2 (λ a. refl) refl)
              (field_some-Same uint boot_id msg.boot_id b1 (λ a. refl) refl))))

  iaq-counts :
      (msg : SensorMessage F64)
      → let b = iaq_fields msg (sensor_base msg) in
        newlines b.measurement + in_tags b.tags + within b.fields ≡ in_strings msg
  unfolding iaq_fields sensor_base new tag field
  iaq-counts msg = elim (Bool-cases (may_be_warm msg.warmed_up)) [
    | inl e ↦ rw e (omega arith)
    | inr e ↦ rw e (omega arith)
  ]

  pub newlines-sensor_to_point :
      (msg : SensorMessage F64) → newlines (line_of show_f64 (sensor_to_point msg)) ≡ in_strings msg
  unfolding sensor_to_point build
  newlines-sensor_to_point msg =
      let b2 = field_some uint boot_id msg.boot_id (iaq_fields msg (sensor_base msg)) in
      let b4 = field_some bool warmed_up msg.warmed_up (field_some uint seq msg.seq b2) in
      let p = device_time msg.time_valid msg.time_ms (replayed_field msg.replayed b4) in
      let (m, t, f) = sensor-Same msg in
      omega (
        arith,
        newlines-of_line show_f64 f64_line (build p),
        in_tags-sort_by_key p.tags,
        within-sort_by_key p.fields,
        ap newlines m,
        ap in_tags t,
        f,
        iaq-counts msg,
      )
