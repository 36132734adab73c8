-- ===== src/Wal/Segment.antt =====
-- src/infrastructure/wal/segment.rs: the names of the segment files. A name is the list of its bytes.
pub mod Names
pub mod Listing
use ingestion_service.Common.{
  ℕ, zero, suc, ◌+◌, ◌-◌, ◌*◌, ◌/◌, ◌%◌, ◌^◌, Bool, true, false, ◌&&◌, ◌||◌, not, Option, none,
  some, List, [], ◌∷◌, ◌++◌, length, take, drop, Result, ok, err, ◌>>=◌, ltb, leb, ◌==◌,
  if◌then◌else◌,
}
use ingestion_service.Wal.Types.{WalError, io}

-- The last `n` decimal digits of a number.
unfoldable pub padded_digits : ℕ → ℕ → List ℕ
padded_digits zero v = []
padded_digits (suc n) v = padded_digits n (v / 10) ++ (b'0' + v % 10) ∷ []

abbrev pub dot_log : List ℕ
dot_log = b'.' ∷ b'l' ∷ b'o' ∷ b'g' ∷ []

-- `format!("{id:020}.log")`: a `u64` has twenty digits at most.
unfoldable pub segment_filename : ℕ → List ℕ
segment_filename id = padded_digits 20 id ++ dot_log

abbrev pub bytes_eq : List ℕ → List ℕ → Bool
bytes_eq [] [] = true
bytes_eq [] (y ∷ ys) = false
bytes_eq (x ∷ xs) [] = false
bytes_eq (x ∷ xs) (y ∷ ys) = x == y && bytes_eq xs ys

-- `str::strip_suffix`
unfoldable pub strip_suffix : List ℕ → List ℕ → Option (List ℕ)
strip_suffix suffix name =
    let n = length name - length suffix in
    if leb (length suffix) (length name) && bytes_eq (drop n name) suffix
    then some (take n name)
    else none

abbrev pub is_digit : ℕ → Bool
is_digit c = leb b'0' c && leb c b'9'

-- The digits of a `u64`, behind those already read; `none` at another byte, or past 2^64.
unfoldable pub parse_digits : ℕ → List ℕ → Option ℕ
parse_digits acc [] = some acc
parse_digits acc (c ∷ cs) =
    let next = acc * 10 + (c - b'0') in
    let rest = parse_digits next cs in if is_digit c && ltb next (2 ^ 64) then rest else none

-- `str::parse::<u64>`, which accepts one leading plus sign.
unfoldable pub parse_u64 : List ℕ → Option ℕ
parse_u64 [] = none
parse_u64 (c ∷ []) = if c == b'+' then none else parse_digits 0 (c ∷ [])
parse_u64 (c ∷ d ∷ cs) = if c == b'+' then parse_digits 0 (d ∷ cs) else parse_digits 0 (c ∷ d ∷ cs)

unfoldable pub parse_segment_id : List ℕ → Option ℕ
parse_segment_id name =
    if not (length name == 24)
    then none
    else elim (strip_suffix dot_log name) [ none ↦ none | some s ↦ parse_u64 s ]

-- What `fs::read_dir` yields: an entry that cannot be read, one whose name is no UTF-8, or a name.
pub data DirEntry : Type 0 where
  unreadable not_utf8 : DirEntry
  named : List ℕ → DirEntry

abbrev pub keep_id : Option ℕ → List ℕ → List ℕ
keep_id none ids = ids
keep_id (some id) ids = id ∷ ids

-- The `for` loop of `list_segments`; an entry that cannot be read ends it.
unfoldable pub segment_ids : List DirEntry → Result WalError (List ℕ)
segment_ids [] = ok []
segment_ids (unreadable ∷ es) = err io
segment_ids (not_utf8 ∷ es) = segment_ids es
segment_ids (named name ∷ es) = do ids ← segment_ids es; ok (keep_id (parse_segment_id name) ids)

-- `sort_unstable` on numbers.
unfoldable pub insert_sorted : ℕ → List ℕ → List ℕ
insert_sorted x [] = x ∷ []
insert_sorted x (y ∷ ys) = if leb x y then x ∷ y ∷ ys else y ∷ insert_sorted x ys

unfoldable pub sort : List ℕ → List ℕ
sort [] = []
sort (x ∷ xs) = insert_sorted x (sort xs)

-- `none` is a directory that cannot be read.
unfoldable pub list_segments : Option (List DirEntry) → Result WalError (List ℕ)
list_segments none = err io
list_segments (some entries) = do ids ← segment_ids entries; ok (sort ids)
