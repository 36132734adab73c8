-- ===== src/Sink/Influx/Timed.antt =====
-- The point of a sensor up to its time, and the line of a point.
use ingestion_service.Common.{
  ◌≡◌, refl, sym, ap, ◌∙◌, ℤ, Bool, true, false, ◌&&◌, Option, none, some, map, ◌∷◌, if◌then◌else◌,
  arith, Bool-cases, inl, inr,
}
use ingestion_service.Model.Messages.{Str, SensorMessage}
use ingestion_service.Model.Topic.{str_eq}
use ingestion_service.Sink.Point.{
  FieldValue, uint, bool, Point, new, tag, field, timestamp, build, sort_by_key, line_of, show_i64,
}
use ingestion_service.Sink.Point.Reading.{read_line}
use ingestion_service.Sink.Point.RoundTrip.{IsPlain}
use ingestion_service.Sink.Point.Lines.{shown_field, text_of, read_line-line_of}
use ingestion_service.Sink.Point.Sorting.{find, find-snoc_other, find-cons, sort_by_key-cons}
use ingestion_service.Sink.Influx.{
  is_positive, field_some, iaq_fields, replayed_field, device_time, sensor_base,
}
use ingestion_service.Sink.Influx.Names.{bme680, boot_id, seq, warmed_up, replayed}

-- The keys of the fields that may be missing, but for those of the air quality.
abbrev pub Apart : Str → Type 0
Apart k =
    (str_eq replayed k ≡ false)
    × (str_eq warmed_up k ≡ false)
    × (str_eq seq k ≡ false)
    × (str_eq boot_id k ≡ false)

module _ {F64 : Type 0} where
  field_some-find :
      {A : Type 0} (value : A → FieldValue F64) (key : Str) (o : Option A) (b : Point F64) (k : Str)
      → str_eq key k ≡ false
      → find k (field_some value key o b).fields ≡ find k b.fields
  unfolding field
  field_some-find value key none b k h = refl
  field_some-find value key (some x) b k h = find-snoc_other k key (value x) b.fields h

  replayed_field-find :
      (yes_ : Bool) (b : Point F64) (k : Str)
      → str_eq replayed k ≡ false
      → find k (replayed_field yes_ b).fields ≡ find k b.fields
  unfolding field replayed_field
  replayed_field-find false b k h = refl
  replayed_field-find true b k h = find-snoc_other k replayed (bool true) b.fields h

  -- The point of a sensor in front of its time.
  abbrev pub untimed : SensorMessage F64 → Point F64
  untimed msg = replayed_field msg.replayed (
      field_some bool warmed_up msg.warmed_up (
        field_some uint seq msg.seq
          (field_some uint boot_id msg.boot_id (iaq_fields msg (sensor_base msg)))))

  pub untimed-find :
      (msg : SensorMessage F64) (k : Str)
      → Apart k
      → find k (untimed msg).fields ≡ find k (iaq_fields msg (sensor_base msg)).fields
  untimed-find msg k (r, w, q, b) =
      let b1 = iaq_fields msg (sensor_base msg) in
      let b2 = field_some uint boot_id msg.boot_id b1 in
      let b3 = field_some uint seq msg.seq b2 in
      replayed_field-find msg.replayed (field_some bool warmed_up msg.warmed_up b3) k r
      ∙ field_some-find bool warmed_up msg.warmed_up b3 k w
      ∙ field_some-find uint seq msg.seq b2 k q
      ∙ field_some-find uint boot_id msg.boot_id b1 k b

  -- What the steps behind the first leave as it is.
  pub untimed-rest :
      (msg : SensorMessage F64)
      → ((untimed msg).measurement ≡ bme680)
        × ((untimed msg).tags ≡ (sensor_base msg).tags)
        × ((untimed msg).timestamp_ms ≡ none)
  unfolding replayed_field field iaq_fields sensor_base new tag
  untimed-rest msg = (ground arith, ground arith, ground arith)

module _ {F64 : Type 0} (show_f64 : F64 → Str) (plain_f64 : (x : F64) → IsPlain (show_f64 x)) where
  -- The line of a point with a field.
  build-line :
      (u : Point F64) (k : Str) (v : FieldValue F64)
      → find k u.fields ≡ some v
      → read_line (line_of show_f64 (build u)) ≡ record {
        measurement = u.measurement;
        tags = sort_by_key u.tags;
        fields = map (shown_field show_f64 plain_f64) (sort_by_key u.fields);
        timestamp = text_of show_f64 plain_f64 u.timestamp_ms;
      }
  unfolding build
  build-line u k v found =
      let (x, xs, e) = find-cons k v u.fields found in
      let (y, ys, q) = sort_by_key-cons x xs in
      let sorted : sort_by_key u.fields ≡ y ∷ ys = ap sort_by_key e ∙ q in
      read_line-line_of show_f64 plain_f64 (build u) y ys sorted
      ∙ ap
          (λ fs. record {
            measurement = u.measurement;
            tags = sort_by_key u.tags;
            fields = map (shown_field show_f64 plain_f64) fs;
            timestamp = text_of show_f64 plain_f64 u.timestamp_ms;
          })
          (sym sorted)

  abbrev time_text : Bool → ℤ → Option Str
  time_text valid time_ms = if valid && is_positive time_ms then some (show_i64 time_ms) else none

  pub timed-line :
      (u : Point F64) (valid : Bool) (time_ms : ℤ) (k : Str) (v : FieldValue F64)
      → u.timestamp_ms ≡ none
      → find k u.fields ≡ some v
      → read_line (line_of show_f64 (build (device_time valid time_ms u))) ≡ record {
        measurement = u.measurement;
        tags = sort_by_key u.tags;
        fields = map (shown_field show_f64 plain_f64) (sort_by_key u.fields);
        timestamp = time_text valid time_ms;
      }
  unfolding timestamp device_time
  timed-line u valid time_ms k v untimed_ found = elim (Bool-cases (valid && is_positive time_ms)) [
    | inl e ↦
        let dated : device_time valid time_ms u ≡ record u { timestamp_ms = some time_ms } =
          ground (arith, e) in
        ap (λ q. read_line (line_of show_f64 (build q))) dated
        ∙ build-line (record u { timestamp_ms = some time_ms }) k v found
        ∙ ground (arith, e)
    | inr e ↦
        let undated : device_time valid time_ms u ≡ u = ground (arith, e) in
        ap (λ q. read_line (line_of show_f64 (build q))) undated
        ∙ build-line u k v found
        ∙ ground (arith, e, untimed_)
  ]
