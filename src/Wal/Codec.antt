-- ===== src/Wal/Codec.antt =====
-- src/infrastructure/wal/codec.rs: framed records, `[u32 LE length][payload]`.
-- `bincode` is a parameter: the two calls that the file makes of it, and that it reads back what
-- it has written.
pub mod Frames
pub mod RoundTrip
pub mod Agreement
use ingestion_service.Common.{
  ℕ, ◌+◌, ◌-◌, ◌*◌, ◌^◌, Option, none, some, List, [], ◌∷◌, ◌++◌, Result, ok, err, ◌>>=◌, ok_or,
  length, take, drop, ltb, leb, if◌then◌else◌, ◌≡◌, Bool,
}
use ingestion_service.Wal.Bytes.{to_le_bytes, from_le_bytes}
use ingestion_service.Wal.Types.{WalEvent, WalError}
use ingestion_service.Wal.Types.{
  unexpected_eof, io, serialize, deserialize, exceeds_u32, exceeds_max,
}

abbrev pub max_wal_record_payload_bytes : ℕ
max_wal_record_payload_bytes = 1024 * 1024

pub data DecodeOutcome : Type 0 where
  valid_record : WalEvent → ℕ → DecodeOutcome
  clean_eof : DecodeOutcome
  frame_corrupt : ℕ → DecodeOutcome

-- `bincode::serialize_into` and `bincode::deserialize` at `WalEvent`.
pub record Bincode : Type 0 where
  pub write_event : WalEvent → Option (List ℕ)
  pub read_event : List ℕ → Option WalEvent
  pub round_trip : (e : WalEvent) (b : List ℕ) → write_event e ≡ some b → read_event b ≡ some e

-- What a reader answers behind the last byte that it can give: the end of the input, or an error.
pub data Ending : Type 0 where
  at_eof broken : Ending

pub record Reader : Type 0 where
  pub rest : List ℕ
  pub ending : Ending

-- `Read::read_exact`: a read that comes up short has taken what there was.
unfoldable pub read_exact : ℕ → Reader → Result WalError (List ℕ) × Reader
read_exact n r =
    if leb n (length r.rest)
    then (ok (take n r.rest), record r { rest = drop n r.rest })
    else (err (elim r.ending [ at_eof ↦ unexpected_eof | broken ↦ io ]), record r { rest = [] })

-- `u32::try_from(n)`
abbrev u32_from : ℕ → Option ℕ
u32_from n = if ltb n (2 ^ 32) then some n else none

-- The buffer that the call leaves: the zeroed prefix is overwritten by the payload's length.
-- (It starts with a clear, so what the buffer held before does not matter.)
unfoldable pub encode_into : Bincode → WalEvent → Result WalError (List ℕ)
encode_into bc event = do
  payload ← ok_or (bc.write_event event) serialize
  let buf = (0 ∷ 0 ∷ 0 ∷ 0 ∷ []) ++ payload
  payload_len ← ok_or (u32_from (length buf - 4)) (exceeds_u32 (length buf - 4))
  ok (to_le_bytes 4 payload_len ++ drop 4 buf)

-- `ensure_len_within_limit(len).is_err()`
unfoldable pub over_limit : ℕ → Bool
over_limit len = ltb max_wal_record_payload_bytes len

-- `decode_into` from its second `match` on.
unfoldable pub decode_payload :
    Bincode
    → ℕ
    → Result WalError (List ℕ) × Reader
    → Result WalError (Option (WalEvent × ℕ)) × Reader
decode_payload bc len (ok payload, r) = elim (bc.read_event payload) [
  | some event ↦ (ok (some (event, 4 + len)), r)
  | none ↦ (err deserialize, r)
]
decode_payload bc len (err unexpected_eof, r) = (ok none, r)
decode_payload bc len (err e, r) = (err e, r)

-- `decode_into` from its first `match` on.
unfoldable pub decode_length :
    Bincode → Result WalError (List ℕ) × Reader → Result WalError (Option (WalEvent × ℕ)) × Reader
unfolding decode_payload over_limit
decode_length bc (ok len_buf, r) =
    let len = from_le_bytes len_buf in
    if over_limit len then (err (exceeds_max len), r) else decode_payload bc len (read_exact len r)
decode_length bc (err unexpected_eof, r) = (ok none, r)
decode_length bc (err e, r) = (err e, r)

unfoldable pub decode_into : Bincode → Reader → Result WalError (Option (WalEvent × ℕ)) × Reader
unfolding decode_length read_exact
decode_into bc r = decode_length bc (read_exact 4 r)

-- `decode_for_recovery` from its second `match` on.
unfoldable pub recover_payload :
    Bincode → ℕ → Result WalError (List ℕ) × Reader → Result WalError DecodeOutcome × Reader
recover_payload bc len (ok payload, r) = elim (bc.read_event payload) [
  | some event ↦ (ok (valid_record event (4 + len)), r)
  | none ↦ (ok (frame_corrupt (4 + len)), r)
]
recover_payload bc len (err unexpected_eof, r) = (ok clean_eof, r)
recover_payload bc len (err e, r) = (err e, r)

unfoldable pub recover_length :
    Bincode → Result WalError (List ℕ) × Reader → Result WalError DecodeOutcome × Reader
unfolding recover_payload over_limit
recover_length bc (ok len_buf, r) =
    let len = from_le_bytes len_buf in
    if over_limit len then (ok clean_eof, r) else recover_payload bc len (read_exact len r)
recover_length bc (err unexpected_eof, r) = (ok clean_eof, r)
recover_length bc (err e, r) = (err e, r)

unfoldable pub decode_for_recovery : Bincode → Reader → Result WalError DecodeOutcome × Reader
unfolding recover_length read_exact
decode_for_recovery bc r = recover_length bc (read_exact 4 r)
