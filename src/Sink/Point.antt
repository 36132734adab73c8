-- ===== src/Sink/Point.antt =====
-- src/infrastructure/sink/point.rs: points and their line protocol. Strings are lists of characters.
pub mod Escaping
pub mod Reading
pub mod RoundTrip
pub mod Lines
pub mod Sorting
pub mod Newlines
use ingestion_service.Common.{
  ℕ, zero, suc, ◌+◌, ◌/◌, ◌%◌, ℤ, Bool, true, false, ◌||◌, Option, none, some, List, [], ◌∷◌, ◌++◌,
  ltb, ◌==◌, if◌then◌else◌,
}
use ingestion_service.Model.Messages.{Str}

pub data FieldValue (F64 : Type 0) : Type 0 where
  float : F64 → FieldValue F64
  int : ℤ → FieldValue F64
  uint : ℕ → FieldValue F64
  bool : Bool → FieldValue F64
  str : Str → FieldValue F64

-- A point, and a point builder, which has the same fields.
pub record Point (F64 : Type 0) : Type 0 where
  pub measurement : Str
  pub tags : List (Str × Str)
  pub fields : List (Str × FieldValue F64)
  pub timestamp_ms : Option ℤ

-- `a.cmp(&b)` is `Less`, on characters.
unfoldable pub less : Str → Str → Bool
less [] [] = false
less [] (b ∷ bs) = true
less (a ∷ as') [] = false
less (a ∷ as') (b ∷ bs) = let rest = less as' bs in if a == b then rest else ltb a b

-- `sort_unstable_by` with the order of the keys. Equal keys stay in their order here.
unfoldable pub insert_by_key : {V : Type 0} → Str × V → List (Str × V) → List (Str × V)
insert_by_key x [] = x ∷ []
insert_by_key x (y ∷ ys) =
    let rest = insert_by_key x ys in if less y.0 x.0 then y ∷ rest else x ∷ y ∷ ys

unfoldable pub sort_by_key : {V : Type 0} → List (Str × V) → List (Str × V)
sort_by_key [] = []
sort_by_key (x ∷ xs) = insert_by_key x (sort_by_key xs)

module _ {F64 : Type 0} where
  -- `Point::build`
  unfoldable pub new : Str → Point F64
  new measurement = record {
    measurement = measurement;
    tags = [];
    fields = [];
    timestamp_ms = none;
  }

  unfoldable pub tag : Str → Str → Point F64 → Point F64
  tag key value p = record p { tags = p.tags ++ ((key, value) ∷ []) }

  -- `field_f64`, `field_i64`, `field_u64`, `field_bool` and `field_str`.
  unfoldable pub field : Str → FieldValue F64 → Point F64 → Point F64
  field key value p = record p { fields = p.fields ++ ((key, value) ∷ []) }

  unfoldable pub timestamp : ℤ → Point F64 → Point F64
  timestamp timestamp_ms p = record p { timestamp_ms = some timestamp_ms }

  -- `PointBuilder::build`
  unfoldable pub build : Point F64 → Point F64
  build p = record p { tags = sort_by_key p.tags; fields = sort_by_key p.fields }

abbrev pub backslash : ℕ
backslash = 92

abbrev pub quote : ℕ
quote = 34

-- `str::replace` of a character.
unfoldable pub replace : ℕ → Str → Str → Str
replace c by [] = []
replace c by (x ∷ xs) = let rest = replace c by xs in if x == c then by ++ rest else x ∷ rest

-- A character behind a backslash.
abbrev pub escaped : ℕ → Str
escaped c = backslash ∷ c ∷ []

unfoldable pub esc_measurement : Str → Str
esc_measurement s =
    replace b' ' (escaped b' ')
      (replace b',' (escaped b',') (replace backslash (escaped backslash) s))

unfoldable pub esc_tag_key : Str → Str
esc_tag_key s = replace b' ' (escaped b' ') (
    replace b'=' (escaped b'=')
      (replace b',' (escaped b',') (replace backslash (escaped backslash) s)))

abbrev pub esc_tag_value : Str → Str
esc_tag_value s = esc_tag_key s

abbrev pub esc_field_key : Str → Str
esc_field_key s = esc_tag_key s

unfoldable pub esc_string_field : Str → Str
esc_string_field s = replace quote (escaped quote) (replace backslash (escaped backslash) s)

-- `Display` of integers: the digits, of which a 64-bit number has twenty at most.
unfoldable pub show_digits : ℕ → ℕ → Str
show_digits zero n = []
show_digits (suc fuel) n =
    let front = show_digits fuel (n / 10) in
    if ltb n 10 then (b'0' + n) ∷ [] else front ++ ((b'0' + n % 10) ∷ [])

abbrev pub show_u64 : ℕ → Str
show_u64 n = show_digits 20 n

abbrev pub show_i64 : ℤ → Str
show_i64 (ℤ.pos n) = show_u64 n
show_i64 (ℤ.negsuc n) = b'-' ∷ show_u64 (suc n)

abbrev pub show_bool : Bool → Str
show_bool true = b't' ∷ b'r' ∷ b'u' ∷ b'e' ∷ []
show_bool false = b'f' ∷ b'a' ∷ b'l' ∷ b's' ∷ b'e' ∷ []

unfoldable pub write_tags : List (Str × Str) → Str
write_tags [] = []
write_tags ((k, v) ∷ tags) = b',' ∷ (esc_tag_key k ++ (b'=' ∷ (esc_tag_value v ++ write_tags tags)))

unfoldable pub write_timestamp : Option ℤ → Str
write_timestamp none = []
write_timestamp (some ts) = b' ' ∷ show_i64 ts

-- `show_f64` is `Display` of `f64`.
module _ {F64 : Type 0} (show_f64 : F64 → Str) where
  unfoldable pub format_field_value : FieldValue F64 → Str
  format_field_value (float x) = show_f64 x
  format_field_value (int x) = show_i64 x ++ (b'i' ∷ [])
  format_field_value (uint x) = show_u64 x ++ (b'u' ∷ [])
  format_field_value (bool b) = show_bool b
  format_field_value (str s) = quote ∷ (esc_string_field s ++ (quote ∷ []))

  unfoldable pub write_fields : ℕ → List (Str × FieldValue F64) → Str
  write_fields i [] = []
  write_fields i ((k, v) ∷ fields) =
      let rest =
        esc_field_key k ++ (b'=' ∷ (format_field_value v ++ write_fields (suc i) fields)) in
      if ltb 0 i then b',' ∷ rest else rest

  unfoldable pub line_of : Point F64 → Str
  line_of p =
      esc_measurement p.measurement
      ++ (write_tags p.tags ++ (b' ' ∷ (write_fields 0 p.fields ++ write_timestamp p.timestamp_ms)))

  unfoldable pub write_line_protocol : Point F64 → Str → Str
  write_line_protocol p out = out ++ line_of p
