-- ===== src/Sink/Influx/Encoded.antt =====
-- What can be read from the line that a message is encoded as.
use ingestion_service.Common.{
  ◌≡◌, refl, sym, ap, subst, ◌∙◌, Bool, true, false, ◌&&◌, Option, none, some, map, [], ◌∷◌, ◌++◌,
  if◌then◌else◌, arith, Bool-cases, inl, inr,
}
use ingestion_service.Model.Messages.{Str, SensorMessage, sensor_message}
use ingestion_service.Model.Topic.{str_eq}
use ingestion_service.Sink.Point.{
  FieldValue, float, str, Point, new, tag, field, sort_by_key, write_line_protocol, line_of,
  show_i64, format_field_value,
}
use ingestion_service.Sink.Point.Reading.{quoted, bare, Line, read_one_line}
use ingestion_service.Sink.Point.RoundTrip.{IsPlain}
use ingestion_service.Sink.Point.Lines.{shown, shown_field}
use ingestion_service.Sink.Point.Sorting.{
  find, find-sort_by_key, or_else, find-snoc, find-snoc_other, value_map, find-map,
}
use ingestion_service.Sink.Influx.{
  is_positive, may_be_warm, iaq_fields, sensor_base, sensor_to_point, encode,
}
use ingestion_service.Sink.Influx.OneLine.{newlines-plain, in_strings, newlines-sensor_to_point}
use ingestion_service.Sink.Influx.Names.{
  bme680, device_id, room, device_class, firmware_version, temp_c, rel_hum_perc, pressure_hpa,
  gas_ohm, dew_point_c, heat_index_c, iaq_score, iaq_text,
}
use ingestion_service.Sink.Influx.Timed.{Apart, untimed, untimed-find, untimed-rest, timed-line}

module _ {F64 : Type 0} (show_f64 : F64 → Str) (plain_f64 : (x : F64) → IsPlain (show_f64 x)) where
  -- What a reader finds in the line of a sensor.
  pub record IsSensorLine (msg : SensorMessage F64) (l : Line) : Type 0 where
    pub name : l.measurement ≡ bme680
    pub device : find device_id l.tags ≡ some msg.device_id
    pub in_room : find room l.tags ≡ some msg.room
    pub class : find device_class l.tags ≡ some msg.device_class
    pub firmware : find firmware_version l.fields ≡ some (quoted msg.fw_version)
    pub temp : find temp_c l.fields ≡ some (bare (show_f64 msg.values.temp_c))
    pub hum : find rel_hum_perc l.fields ≡ some (bare (show_f64 msg.values.rel_hum_perc))
    pub pressure : find pressure_hpa l.fields ≡ some (bare (show_f64 msg.values.pressure_hpa))
    pub gas : find gas_ohm l.fields ≡ some (bare (show_f64 msg.values.gas_ohm))
    pub dew : find dew_point_c l.fields ≡ some (bare (show_f64 msg.values.dew_point_c))
    pub heat : find heat_index_c l.fields ≡ some (bare (show_f64 msg.values.heat_index_c))
    pub score :
        find iaq_score l.fields
        ≡ (if may_be_warm msg.warmed_up then some (bare (show_f64 msg.values.iaq_score)) else none)
    pub text :
        find iaq_text l.fields
        ≡ (if may_be_warm msg.warmed_up then some (quoted msg.values.iaq_text) else none)
    pub time :
        l.timestamp
        ≡ (if msg.time_valid && is_positive msg.time_ms then some (show_i64 msg.time_ms) else none)

  iaq_fields-find :
      (msg : SensorMessage F64) (b : Point F64) (k : Str)
      → str_eq iaq_score k ≡ false
      → str_eq iaq_text k ≡ false
      → find k (iaq_fields msg b).fields ≡ find k b.fields
  unfolding iaq_fields field
  iaq_fields-find msg b k s t = elim (Bool-cases (may_be_warm msg.warmed_up)) [
    | inr e ↦ ground (arith, e)
    | inl e ↦
        let score = msg.values.iaq_score in
        ground (
          arith,
          e,
          find-snoc_other k iaq_text (str msg.values.iaq_text)
              (b.fields ++ ((iaq_score, float score) ∷ [])) t,
          find-snoc_other k iaq_score (float score) b.fields s,
        )
  ]

  -- A field that every sensor has.
  base-found :
      (msg : SensorMessage F64) (k : Str) (v : FieldValue F64)
      → Apart k
      → str_eq iaq_score k ≡ false
      → str_eq iaq_text k ≡ false
      → find k (sensor_base msg).fields ≡ some v
      → find k (untimed msg).fields ≡ some v
  base-found msg k v apart s t h =
      untimed-find msg k apart ∙ iaq_fields-find msg (sensor_base msg) k s t ∙ h

  -- A field of the air quality.
  iaq-found :
      (msg : SensorMessage F64) (k : Str) (v : FieldValue F64)
      → Apart k
      → find k (sensor_base msg).fields ≡ none
      → or_else
          (if str_eq iaq_score k then some (float msg.values.iaq_score) else none)
          (if str_eq iaq_text k then some (str msg.values.iaq_text) else none)
        ≡ some v
      → find k (untimed msg).fields ≡ (if may_be_warm msg.warmed_up then some v else none)
  unfolding iaq_fields field
  iaq-found msg k v apart no_base h =
      untimed-find msg k apart ∙ (elim (Bool-cases (may_be_warm msg.warmed_up)) [
        | inr e ↦ ground (arith, e, no_base)
        | inl e ↦
            let b = sensor_base msg in
            let score = msg.values.iaq_score in
            ground (
              arith,
              e,
              no_base,
              h,
              find-snoc k iaq_text (str msg.values.iaq_text)
                  (b.fields ++ ((iaq_score, float score) ∷ [])),
              find-snoc k iaq_score (float score) b.fields,
            )
      ])

  -- A field as it is read.
  read-found :
      (msg : SensorMessage F64) (k : Str) (o : Option (FieldValue F64))
      → find k (untimed msg).fields ≡ o
      → find k (map (shown_field show_f64 plain_f64) (sort_by_key (untimed msg).fields))
        ≡ value_map (shown show_f64 plain_f64) o
  read-found msg k o h =
      find-map (shown show_f64 plain_f64) k (sort_by_key (untimed msg).fields)
      ∙ ap (value_map (shown show_f64 plain_f64)) (find-sort_by_key k (untimed msg).fields ∙ h)

  -- A tag as it is read.
  tag-found :
      (msg : SensorMessage F64) (k v : Str)
      → find k (sensor_base msg).tags ≡ some v
      → find k (sort_by_key (untimed msg).tags) ≡ some v
  tag-found msg k v h = find-sort_by_key k (untimed msg).tags ∙ ap (find k) (untimed-rest msg).1 ∙ h

  if-value_map :
      (b : Bool) (v : FieldValue F64)
      → value_map (shown show_f64 plain_f64) (if b then some v else none)
        ≡ (if b then some (shown show_f64 plain_f64 v) else none)
  unfolding value_map
  if-value_map true v = refl
  if-value_map false v = refl

  always :
      (msg : SensorMessage F64) (k : Str) (v : FieldValue F64)
      → Apart k
      → str_eq iaq_score k ≡ false
      → str_eq iaq_text k ≡ false
      → find k (sensor_base msg).fields ≡ some v
      → find k (map (shown_field show_f64 plain_f64) (sort_by_key (untimed msg).fields))
        ≡ some (shown show_f64 plain_f64 v)
  unfolding value_map
  always msg k v apart s t h = read-found msg k (some v) (base-found msg k v apart s t h)

  -- A sensor's message whose strings have no newline is encoded as one line, in which a reader finds its
  -- measurement, its tags, its readings and, unless the sensor is known to be cold, its air quality,
  -- whatever other characters its strings have; and its time exactly if that is valid and positive. The
  -- texts of its numbers are on one line and such as need no escaping.
  pub encode-IsSensorLine :
      (msg : SensorMessage F64) (out : Str)
      → in_strings msg ≡ 0
      → (line : Str) × (l : Line) × (encode show_f64 (sensor_message msg) out ≡ out ++ line)
        × (read_one_line line ≡ some l)
        × IsSensorLine msg l
  unfolding encode write_line_protocol sensor_to_point sensor_base field tag new find str_eq
      format_field_value read_one_line
  encode-IsSensorLine msg out no_newline =
      let (named, tagged, untimed_) = untimed-rest msg in
      let firmware =
        base-found msg firmware_version (str msg.fw_version) (refl, refl, refl, refl) refl refl
          refl in
      let read =
        timed-line show_f64 plain_f64 (untimed msg) msg.time_valid msg.time_ms firmware_version
          (str msg.fw_version) untimed_ firmware in
      (
        line_of show_f64 (sensor_to_point msg),
        _,
        refl,
        ground (
          arith,
          newlines-sensor_to_point show_f64 (λ x. newlines-plain (show_f64 x) (plain_f64 x)) msg,
          no_newline,
        ),
        subst (IsSensorLine msg) (sym read) (record {
          name = named;
          device = tag-found msg device_id msg.device_id refl;
          in_room = tag-found msg room msg.room refl;
          class = tag-found msg device_class msg.device_class refl;
          firmware =
              always msg firmware_version (str msg.fw_version) (refl, refl, refl, refl) refl refl
                refl;
          temp =
              always msg temp_c (float msg.values.temp_c) (refl, refl, refl, refl) refl refl refl;
          hum =
              always msg rel_hum_perc (float msg.values.rel_hum_perc) (refl, refl, refl, refl) refl
                refl refl;
          pressure =
              always msg pressure_hpa (float msg.values.pressure_hpa) (refl, refl, refl, refl) refl
                refl refl;
          gas =
              always msg gas_ohm (float msg.values.gas_ohm) (refl, refl, refl, refl) refl refl refl;
          dew =
              always msg dew_point_c (float msg.values.dew_point_c) (refl, refl, refl, refl) refl
                refl refl;
          heat =
              always msg heat_index_c (float msg.values.heat_index_c) (refl, refl, refl, refl) refl
                refl refl;
          score =
              read-found msg iaq_score _ (
                iaq-found msg iaq_score (float msg.values.iaq_score) (refl, refl, refl, refl) refl
                  refl)
              ∙ if-value_map (may_be_warm msg.warmed_up) (float msg.values.iaq_score);
          text =
              read-found msg iaq_text _ (
                iaq-found msg iaq_text (str msg.values.iaq_text) (refl, refl, refl, refl) refl refl)
              ∙ if-value_map (may_be_warm msg.warmed_up) (str msg.values.iaq_text);
          time = refl;
        }),
      )
