-- ===== src/Wal/Types/Order.antt =====
-- The derived order of `WalOffset`: by segment, then by byte.
use ingestion_service.Common.{◌<◌, ◌≤◌, ◌≡◌, ◌⊎◌, arith}
use ingestion_service.Wal.Types.{WalOffset}

-- `a` comes before `b`, or is `b`.
abbrev pub AtMost : WalOffset → WalOffset → Type 0
AtMost a b =
    (a.segment_id < b.segment_id)
    ⊎ ((a.segment_id ≡ b.segment_id) × (a.byte_offset ≤ b.byte_offset))

abbrev pub Before : WalOffset → WalOffset → Type 0
Before a b =
    (a.segment_id < b.segment_id)
    ⊎ ((a.segment_id ≡ b.segment_id) × (a.byte_offset < b.byte_offset))

pub AtMost-trans : (a b c : WalOffset) → AtMost a b → AtMost b c → AtMost a c
AtMost-trans a b c h k = ground arith
