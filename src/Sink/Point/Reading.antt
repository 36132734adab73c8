-- ===== src/Sink/Point/Reading.antt =====
-- A reader of one line of the line protocol: a backslash stands before a character that is meant as
-- itself, and a newline is no part of a line.
use ingestion_service.Common.{
  ℕ, zero, suc, Bool, false, ◌||◌, Option, none, some, List, [], ◌∷◌, length, ◌==◌, if◌then◌else◌,
}
use ingestion_service.Model.Messages.{Str}
use ingestion_service.Sink.Point.{quote}
use ingestion_service.Sink.Point.Escaping.{cut}
use ingestion_service.Sink.Point.Newlines.{newlines}

-- A field's value as it is read: a string, or the text of anything else.
pub data Value : Type 0 where
  quoted bare : Str → Value

pub record Line : Type 0 where
  pub measurement : Str
  pub tags : List (Str × Str)
  pub fields : List (Str × Value)
  pub timestamp : Option Str

abbrev pub ends_name : ℕ → Bool
ends_name c = c == b',' || c == b' '

abbrev pub ends_key : ℕ → Bool
ends_key c = c == b'='

abbrev pub ends_string : ℕ → Bool
ends_string c = c == quote

abbrev pub behind : Str → Str
behind [] = []
behind (c ∷ cs) = cs

unfoldable pub read_tags : ℕ → Str → List (Str × Str) × Str
read_tags zero s = ([], s)
read_tags (suc n) [] = ([], [])
read_tags (suc n) (c ∷ cs) =
    let (k, r) = cut ends_key false cs in
    let (v, r') = cut ends_name false (behind r) in
    let (ts, r'') = read_tags n r' in if c == b',' then ((k, v) ∷ ts, r'') else ([], c ∷ cs)

unfoldable pub read_value : Str → Value × Str
read_value [] = (bare [], [])
read_value (c ∷ cs) =
    if c == quote
    then (quoted (cut ends_string false cs).0, behind (cut ends_string false cs).1)
    else (bare (cut ends_name false (c ∷ cs)).0, (cut ends_name false (c ∷ cs)).1)

-- A comma is followed by another field.
abbrev pub starts_comma : Str → Bool
starts_comma [] = false
starts_comma (c ∷ cs) = c == b','

-- A comma behind a field is followed by another one.
unfoldable pub read_fields : ℕ → Str → List (Str × Value) × Str
read_fields zero s = ([], s)
read_fields (suc n) s =
    let (k, r) = cut ends_key false s in
    let (v, r') = read_value (behind r) in
    let (fs, r'') = read_fields n (behind r') in
    if starts_comma r' then ((k, v) ∷ fs, r'') else ((k, v) ∷ [], r')

abbrev pub read_timestamp : Str → Option Str
read_timestamp [] = none
read_timestamp (c ∷ cs) = some cs

-- Neither the tags nor the fields are more than the characters of a line.
unfoldable pub read_line : Str → Line
read_line s =
    let (measurement, r) = cut ends_name false s in
    let (tags, r') = read_tags (length s) r in
    let (fields, r'') = read_fields (length s) (behind r') in
    record {
      measurement = measurement;
      tags = tags;
      fields = fields;
      timestamp = read_timestamp r'';
    }

unfoldable pub read_one_line : Str → Option Line
read_one_line s = if newlines s == 0 then some (read_line s) else none
