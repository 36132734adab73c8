-- ===== src/Sink/Point/Lines.antt =====
-- Whole lines: the reader gets back a point from what point.rs writes of it.
use ingestion_service.Common.{
  ℕ, zero, suc, ◌+◌, ◌/◌, ◌%◌, ◌≤◌, ◌≡◌, refl, ap, ◌∙◌, ℤ, true, false, Option, none, some, map,
  List, [], ◌∷◌, ◌++◌, length, length-append, ltb, if◌then◌else◌, arith, append_assoc, All-append,
  Bool-cases, inl, inr, ◌<◌,
}
use ingestion_service.Model.Messages.{Str}
use ingestion_service.Sink.Point.{
  FieldValue, float, int, uint, bool, str, Point, esc_measurement, esc_tag_key, show_digits,
  show_i64, show_u64, show_bool, format_field_value, write_tags, write_fields, write_timestamp,
  line_of,
}
use ingestion_service.Sink.Point.Escaping.{in_measurement, esc_measurement-escape, cut}
use ingestion_service.Sink.Point.Reading.{
  Value, quoted, bare, ends_name, behind, read_value, starts_comma, read_fields, read_timestamp,
  read_line,
}
use ingestion_service.Sink.Point.RoundTrip.{
  cut-token, measurement-fits, cut-key, read_tags-write_tags, plain, IsPlain, EndsName,
  read_value-plain, read_value-quoted,
}

show_digits-IsPlain : (fuel n : ℕ) → IsPlain (show_digits fuel n)
unfolding show_digits
show_digits-IsPlain zero n = tt
show_digits-IsPlain (suc fuel) n = elim (Bool-cases (ltb n 10)) [
  | inl e ↦ rw e (ground (arith, e), tt)
  | inr e ↦ rw e (
      All-append (λ c. plain c ≡ true) (show_digits fuel (n / 10)) ((b'0' + n % 10) ∷ [])
        (show_digits-IsPlain fuel (n / 10)) (ground arith, tt))
]

show_i64-IsPlain : (z : ℤ) → IsPlain (show_i64 z)
show_i64-IsPlain (ℤ.pos n) = show_digits-IsPlain 20 n
show_i64-IsPlain (ℤ.negsuc n) = (refl, show_digits-IsPlain 20 (suc n))

module _ {F64 : Type 0} (show_f64 : F64 → Str) (plain_f64 : (x : F64) → IsPlain (show_f64 x)) where
  -- A value as a reader sees it.
  abbrev pub shown : FieldValue F64 → Value
  shown (str s) = quoted s
  shown (float x) = bare (format_field_value show_f64 (float x))
  shown (int x) = bare (format_field_value show_f64 (int x))
  shown (uint x) = bare (format_field_value show_f64 (uint x))
  shown (bool x) = bare (format_field_value show_f64 (bool x))

  read_value-format :
      (v : FieldValue F64) (r : Str)
      → EndsName r
      → read_value (format_field_value show_f64 v ++ r) ≡ (shown v, r)
  unfolding format_field_value
  read_value-format (str s) r e = read_value-quoted s r
  read_value-format (float x) r e = read_value-plain (show_f64 x) r (plain_f64 x) e
  read_value-format (int x) r e =
      read_value-plain (show_i64 x ++ (b'i' ∷ [])) r
        (All-append (λ c. plain c ≡ true) (show_i64 x) (b'i' ∷ []) (show_i64-IsPlain x) (refl, tt))
        e
  read_value-format (uint x) r e =
      read_value-plain (show_u64 x ++ (b'u' ∷ [])) r
        (All-append (λ c. plain c ≡ true) (show_u64 x) (b'u' ∷ []) (show_digits-IsPlain 20 x)
          (refl, tt))
        e
  read_value-format (bool true) r e =
      read_value-plain (show_bool true) r (refl, (refl, (refl, (refl, tt)))) e
  read_value-format (bool false) r e =
      read_value-plain (show_bool false) r ((refl, (refl, (refl, (refl, (refl, tt)))))) e

  abbrev pub shown_field : Str × FieldValue F64 → Str × Value
  shown_field f = (f.0, shown f.1)

  write_fields_later :
      (i j : ℕ) (fs : List (Str × FieldValue F64))
      → write_fields show_f64 (suc i) fs ≡ write_fields show_f64 (suc j) fs
  unfolding write_fields
  write_fields_later i j [] = refl
  write_fields_later i j ((k, v) ∷ fs) = ground (arith, write_fields_later (suc i) (suc j) fs)

  -- One field in front of what follows it.
  write_fields-cons :
      (k : Str) (v : FieldValue F64) (fs : List (Str × FieldValue F64)) (r : Str)
      → write_fields show_f64 0 ((k, v) ∷ fs) ++ r
        ≡ esc_tag_key k
          ++ (b'=' ∷ (format_field_value show_f64 v ++ (write_fields show_f64 1 fs ++ r)))
  unfolding write_fields
  write_fields-cons k v fs r =
      append_assoc (esc_tag_key k)
        (b'=' ∷ (format_field_value show_f64 v ++ write_fields show_f64 1 fs)) r
      ∙ ap (λ (t : Str). esc_tag_key k ++ (b'=' ∷ t))
          (append_assoc (format_field_value show_f64 v) (write_fields show_f64 1 fs) r)

  write_fields-next :
      (f : Str × FieldValue F64) (fs : List (Str × FieldValue F64))
      → write_fields show_f64 1 (f ∷ fs) ≡ b',' ∷ write_fields show_f64 0 (f ∷ fs)
  unfolding write_fields
  write_fields-next (k, v) fs =
      ap (λ (t : Str). b',' ∷ (esc_tag_key k ++ (b'=' ∷ (format_field_value show_f64 v ++ t))))
        (write_fields_later 1 0 fs)

  -- What ends the fields.
  abbrev EndsFields : Str → Type 0
  EndsFields [] = Unit {0}
  EndsFields (c ∷ cs) = c ≡ b' '

  read_fields-step :
      (n : ℕ) (k : Str) (v : FieldValue F64) (t : Str)
      → EndsName t
      → read_fields (suc n) (esc_tag_key k ++ (b'=' ∷ (format_field_value show_f64 v ++ t))) ≡ (
          if starts_comma t
          then (shown_field (k, v) ∷ (read_fields n (behind t)).0, (read_fields n (behind t)).1)
          else (shown_field (k, v) ∷ [], t))
  unfolding read_fields
  read_fields-step n k v t e =
      ground (arith, cut-key k (format_field_value show_f64 v ++ t), read_value-format v t e)

  read_fields-write_fields :
      (n : ℕ) (k : Str) (v : FieldValue F64) (fs : List (Str × FieldValue F64)) (r : Str)
      → length fs < n
      → EndsFields r
      → read_fields n (write_fields show_f64 0 ((k, v) ∷ fs) ++ r)
        ≡ (shown_field (k, v) ∷ map shown_field fs, r)
  unfolding write_fields
  read_fields-write_fields zero k v fs r h e = absurd (omega arith)
  read_fields-write_fields (suc n) k v [] [] h e =
      ap (read_fields (suc n)) (write_fields-cons k v [] []) ∙ read_fields-step n k v [] tt
  read_fields-write_fields (suc n) k v [] (c ∷ r) h e =
      ap (read_fields (suc n)) (write_fields-cons k v [] (c ∷ r))
      ∙ read_fields-step n k v (c ∷ r) (ground (arith, e))
      ∙ ground (arith, e)
  read_fields-write_fields (suc n) k v ((k', v') ∷ fs) r h e =
      let more = write_fields show_f64 0 ((k', v') ∷ fs) ++ r in
      let rest = read_fields-write_fields n k' v' fs r (omega arith) e in
      ap (read_fields (suc n)) (
        write_fields-cons k v ((k', v') ∷ fs) r
        ∙ ap (λ (t : Str). esc_tag_key k ++ (b'=' ∷ (format_field_value show_f64 v ++ (t ++ r))))
            (write_fields-next (k', v') fs))
      ∙ read_fields-step n k v (b',' ∷ more) refl
      ∙ ground (arith, rest)

  abbrev pub text_of : Option ℤ → Option Str
  text_of none = none
  text_of (some ts) = some (show_i64 ts)

  write_timestamp-EndsFields : (o : Option ℤ) → EndsFields (write_timestamp o)
  unfolding write_timestamp
  write_timestamp-EndsFields none = tt
  write_timestamp-EndsFields (some ts) = refl

  read_timestamp-write_timestamp : (o : Option ℤ) → read_timestamp (write_timestamp o) ≡ text_of o
  unfolding write_timestamp
  read_timestamp-write_timestamp none = refl
  read_timestamp-write_timestamp (some ts) = refl

  cut-measurement :
      (m : Str) (tags : List (Str × Str)) (r : Str)
      → cut ends_name false (esc_measurement m ++ (write_tags tags ++ (b' ' ∷ r)))
        ≡ (m, write_tags tags ++ (b' ' ∷ r))
  unfolding write_tags
  cut-measurement m [] r =
      ap (λ (t : Str). cut ends_name false (t ++ (b' ' ∷ r))) (esc_measurement-escape m)
      ∙ cut-token ends_name in_measurement m b' ' r measurement-fits refl refl
  cut-measurement m ((k, v) ∷ tags) r =
      let rest = (esc_tag_key k ++ (b'=' ∷ (esc_tag_key v ++ write_tags tags))) ++ (b' ' ∷ r) in
      ap (λ (t : Str). cut ends_name false (t ++ (b',' ∷ rest))) (esc_measurement-escape m)
      ∙ cut-token ends_name in_measurement m b',' rest measurement-fits refl refl

  length-write_tags : (tags : List (Str × Str)) → length tags ≤ length (write_tags tags)
  unfolding write_tags
  length-write_tags [] = omega arith
  length-write_tags ((k, v) ∷ tags) = omega (
    arith,
    length-write_tags tags,
    length-append (esc_tag_key k) (b'=' ∷ (esc_tag_key v ++ write_tags tags)),
    length-append (esc_tag_key v) (write_tags tags),
  )

  length-write_fields :
      (i : ℕ) (fs : List (Str × FieldValue F64)) → length fs ≤ length (write_fields show_f64 i fs)
  unfolding write_fields
  length-write_fields i [] = omega arith
  length-write_fields i ((k, v) ∷ fs) =
      let rest = format_field_value show_f64 v ++ write_fields show_f64 (suc i) fs in
      let a = length-append (esc_tag_key k) (b'=' ∷ rest) in
      let b = length-append (format_field_value show_f64 v) (write_fields show_f64 (suc i) fs) in
      ground (arith, length-write_fields (suc i) fs, a, b)

  -- A line is read back as the measurement, the tags, the fields and the time of its point, whatever
  -- characters their strings have, if there is at least one field and no number's text needs escaping.
  pub read_line-line_of :
      (p : Point F64) (f : Str × FieldValue F64) (fs : List (Str × FieldValue F64))
      → p.fields ≡ f ∷ fs
      → read_line (line_of show_f64 p) ≡ record {
        measurement = p.measurement;
        tags = p.tags;
        fields = map shown_field (f ∷ fs);
        timestamp = text_of p.timestamp_ms;
      }
  unfolding read_line line_of
  read_line-line_of p (k, v) fs e =
      let ts = write_timestamp p.timestamp_ms in
      let fields = write_fields show_f64 0 ((k, v) ∷ fs) ++ ts in
      let whole = esc_measurement p.measurement ++ (write_tags p.tags ++ (b' ' ∷ fields)) in
      let wide : (length p.tags ≤ length whole) × (length fs < length whole) =
        (let a =
            length-append (esc_measurement p.measurement) (write_tags p.tags ++ (b' ' ∷ fields)) in
          let b = length-append (write_tags p.tags) (b' ' ∷ fields) in
          let c = length-append (write_fields show_f64 0 ((k, v) ∷ fs)) ts in
          let d = length-write_tags p.tags in
          let g = length-write_fields 0 ((k, v) ∷ fs) in
          (omega (arith, a, b, d), omega (arith, a, b, c, g))) in
      let m = cut-measurement p.measurement p.tags fields in
      let t = read_tags-write_tags (length whole) p.tags fields wide.0 in
      let r =
        read_fields-write_fields (length whole) k v fs ts wide.1
          (write_timestamp-EndsFields p.timestamp_ms) in
      let z = read_timestamp-write_timestamp p.timestamp_ms in
      ap
        (λ l. read_line (
          esc_measurement p.measurement
          ++ (write_tags p.tags ++ (b' ' ∷ (write_fields show_f64 0 l ++ ts)))))
        e
      ∙ ground (arith, m, t, r, z)
