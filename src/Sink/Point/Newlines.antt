-- ===== src/Sink/Point/Newlines.antt =====
-- That the escaping of point.rs lets newlines through.
use ingestion_service.Common.{
  ℕ, zero, suc, ◌+◌, ◌/◌, ◌%◌, ◌≡◌, refl, sym, ap, ◌∙◌, ℤ, Bool, true, false, List, [], ◌∷◌, ◌++◌,
  Option, none, some, ◌==◌, if◌then◌else◌, arith, Bool-cases, inl, inr,
}
use ingestion_service.Model.Messages.{Str}
use ingestion_service.Sink.Point.{
  FieldValue, float, int, uint, bool, str, Point, quote, esc_measurement, esc_tag_key,
  esc_string_field, show_digits, show_i64, show_u64, format_field_value, write_tags, write_fields,
  write_timestamp, line_of,
}
use ingestion_service.Sink.Point.Escaping.{
  escape, in_measurement, in_key, in_string, esc_measurement-escape, esc_tag_key-escape,
  esc_string_field-escape,
}

abbrev pub newlines : Str → ℕ
newlines [] = 0
newlines (c ∷ cs) = (if c == 10 then 1 else 0) + newlines cs

newlines-append : (s t : Str) → newlines (s ++ t) ≡ newlines s + newlines t
newlines-append [] t = omega arith
newlines-append (c ∷ s) t = omega (arith, newlines-append s t)

newlines-escape : (p : ℕ → Bool) (s : Str) → p 10 ≡ false → newlines (escape p s) ≡ newlines s
unfolding escape
newlines-escape p [] h = refl
newlines-escape p (c ∷ s) h = elim (Bool-cases (p c)) [
  | inl e ↦ ground (arith, e, newlines-escape p s h)
  | inr e ↦ ground (arith, e, newlines-escape p s h)
]

escape-append : (p : ℕ → Bool) (s t : Str) → escape p (s ++ t) ≡ escape p s ++ escape p t
unfolding escape
escape-append p [] t = refl
escape-append p (c ∷ s) t = elim (Bool-cases (p c)) [
  | inl e ↦ ground (arith, e, escape-append p s t)
  | inr e ↦ ground (arith, e, escape-append p s t)
]

-- A newline is passed on, alone.
escape-newline :
    (p : ℕ → Bool) (s t : Str)
    → p 10 ≡ false
    → escape p (s ++ (10 ∷ t)) ≡ escape p s ++ (10 ∷ escape p t)
unfolding escape
escape-newline p s t h = escape-append p s (10 ∷ t) ∙ ground (arith, h)

-- That an escaping has no effect on newlines nor across them.
abbrev pub Passes : (Str → Str) → Type 0
Passes esc = (s t : Str) → esc (s ++ (10 ∷ t)) ≡ esc s ++ (10 ∷ esc t)

Passes-escape :
    (esc : Str → Str) (p : ℕ → Bool) → ((s : Str) → esc s ≡ escape p s) → p 10 ≡ false → Passes esc
Passes-escape esc p same h s t =
    same (s ++ (10 ∷ t))
    ∙ escape-newline p s t h
    ∙ ap (λ (l : Str). l ++ (10 ∷ escape p t)) (sym (same s))
    ∙ ap (λ (l : Str). esc s ++ (10 ∷ l)) (sym (same t))

newlines-esc_tag_key : (s : Str) → newlines (esc_tag_key s) ≡ newlines s
newlines-esc_tag_key s = ap newlines (esc_tag_key-escape s) ∙ newlines-escape in_key s refl

newlines-show_digits : (fuel n : ℕ) → newlines (show_digits fuel n) ≡ 0
unfolding show_digits
newlines-show_digits zero n = refl
newlines-show_digits (suc fuel) n = ground (
  arith,
  newlines-append (show_digits fuel (n / 10)) ((b'0' + n % 10) ∷ []),
  newlines-show_digits fuel (n / 10),
)

newlines-show_i64 : (z : ℤ) → newlines (show_i64 z) ≡ 0
newlines-show_i64 (ℤ.pos n) = newlines-show_digits 20 n
newlines-show_i64 (ℤ.negsuc n) = omega (arith, newlines-show_digits 20 (suc n))

abbrev pub in_tags : List (Str × Str) → ℕ
in_tags [] = 0
in_tags ((k, v) ∷ tags) = newlines k + newlines v + in_tags tags

newlines-write_tags : (tags : List (Str × Str)) → newlines (write_tags tags) ≡ in_tags tags
unfolding write_tags
newlines-write_tags [] = refl
newlines-write_tags ((k, v) ∷ tags) = omega (
  arith,
  newlines-append (esc_tag_key k) (b'=' ∷ (esc_tag_key v ++ write_tags tags)),
  newlines-append (esc_tag_key v) (write_tags tags),
  newlines-esc_tag_key k,
  newlines-esc_tag_key v,
  newlines-write_tags tags,
)

newlines-write_timestamp : (o : Option ℤ) → newlines (write_timestamp o) ≡ 0
unfolding write_timestamp
newlines-write_timestamp none = refl
newlines-write_timestamp (some ts) = omega (arith, newlines-show_i64 ts)

module _ {F64 : Type 0} (show_f64 : F64 → Str)
    (f64_line : (x : F64) → newlines (show_f64 x) ≡ 0) where
  abbrev pub in_value : FieldValue F64 → ℕ
  in_value (str s) = newlines s
  in_value (float x) = 0
  in_value (int x) = 0
  in_value (uint x) = 0
  in_value (bool x) = 0

  newlines-format : (v : FieldValue F64) → newlines (format_field_value show_f64 v) ≡ in_value v
  unfolding format_field_value
  newlines-format (str s) =
      let e = ap newlines (esc_string_field-escape s) ∙ newlines-escape in_string s refl in
      omega (arith, newlines-append (esc_string_field s) (quote ∷ []), e)
  newlines-format (float x) = f64_line x
  newlines-format (int x) =
      omega (arith, newlines-append (show_i64 x) (b'i' ∷ []), newlines-show_i64 x)
  newlines-format (uint x) =
      omega (arith, newlines-append (show_u64 x) (b'u' ∷ []), newlines-show_digits 20 x)
  newlines-format (bool true) = refl
  newlines-format (bool false) = refl

  abbrev pub in_fields : List (Str × FieldValue F64) → ℕ
  in_fields [] = 0
  in_fields ((k, v) ∷ fields) = newlines k + in_value v + in_fields fields

  newlines-write_fields :
      (i : ℕ) (fields : List (Str × FieldValue F64))
      → newlines (write_fields show_f64 i fields) ≡ in_fields fields
  unfolding write_fields
  newlines-write_fields i [] = refl
  newlines-write_fields i ((k, v) ∷ fields) = ground (
    arith,
    newlines-append (esc_tag_key k)
        (b'=' ∷ (format_field_value show_f64 v ++ write_fields show_f64 (suc i) fields)),
    newlines-append (format_field_value show_f64 v) (write_fields show_f64 (suc i) fields),
    newlines-esc_tag_key k,
    newlines-format v,
    newlines-write_fields (suc i) fields,
  )

  pub newlines-of_line :
      (p : Point F64)
      → newlines (line_of show_f64 p) ≡ newlines p.measurement + in_tags p.tags + in_fields p.fields
  unfolding line_of
  newlines-of_line p =
      let tail = write_fields show_f64 0 p.fields ++ write_timestamp p.timestamp_ms in
      let m =
        ap newlines (esc_measurement-escape p.measurement)
        ∙ newlines-escape in_measurement p.measurement refl in
      omega (
        arith,
        newlines-append (esc_measurement p.measurement) (write_tags p.tags ++ (b' ' ∷ tail)),
        newlines-append (write_tags p.tags) (b' ' ∷ tail),
        newlines-append (write_fields show_f64 0 p.fields) (write_timestamp p.timestamp_ms),
        m,
        newlines-write_tags p.tags,
        newlines-write_fields 0 p.fields,
        newlines-write_timestamp p.timestamp_ms,
      )

  -- Each of the three escapings passes a newline on as it is, with no backslash of its own in front of
  -- it: what is before it and what is behind it are escaped apart. Where the texts of f64 numbers have
  -- no newline, a line has as many as the strings of its point have together, so that it is one line
  -- only if none of them has any.
  pub newlines-line_of :
      (p : Point F64)
      → Passes esc_measurement
        × Passes esc_tag_key
        × Passes esc_string_field
        × (newlines (line_of show_f64 p)
            ≡ newlines p.measurement + in_tags p.tags + in_fields p.fields)
  newlines-line_of p = (
    Passes-escape esc_measurement in_measurement esc_measurement-escape refl,
    Passes-escape esc_tag_key in_key esc_tag_key-escape refl,
    Passes-escape esc_string_field in_string esc_string_field-escape refl,
    newlines-of_line p,
  )
