-- ===== src/Wal/Tests.antt =====
-- Runs of the log's code on concrete data.
mod Examples
mod Delivery
mod Writing
mod Oversized
mod Starting
use ingestion_service.Common.{
  ℕ, zero, suc, ◌≡◌, refl, ap, length, Option, none, some, List, [], ◌∷◌, ℤ, arith,
}
use ingestion_service.Wal.Types.{WalOffset, WalEvent}
use ingestion_service.Wal.Codec.{Bincode}

-- A codec for the events that have no topic and the time 0: their payload.
abbrev pub plain_bytes : List ℕ → ℤ → List ℕ → Option (List ℕ)
plain_bytes [] (ℤ.pos zero) payload = some payload
plain_bytes _ _ _ = none

abbrev pub plain_event : List ℕ → WalEvent
plain_event payload = record { topic = []; ts_ms = ℤ.pos 0; payload = payload }

pub plain_back :
    (t : List ℕ) (z : ℤ) (p b : List ℕ)
    → plain_bytes t z p ≡ some b
    → plain_event b ≡ record { topic = t; ts_ms = z; payload = p }
plain_back [] (ℤ.pos zero) p b h = ap plain_event (cc h)
plain_back [] (ℤ.pos (suc n)) p b h = cc
plain_back [] (ℤ.negsuc n) p b h = cc
plain_back (c ∷ t) z p b h = cc

abbrev pub plain : Bincode
plain = record {
  write_event = λ e. plain_bytes e.topic e.ts_ms e.payload;
  read_event = λ b. some (plain_event b);
  round_trip = λ e b h. ap some (plain_back e.topic e.ts_ms e.payload b h);
}

abbrev pub offset_at : ℕ → ℕ → WalOffset
offset_at segment_id byte_offset = record { segment_id = segment_id; byte_offset = byte_offset }

-- So many zeros, which nothing has to write out.
pub zeros : ℕ → List ℕ
zeros zero = []
zeros (suc n) = 0 ∷ zeros n

pub length-zeros : (n : ℕ) → length (zeros n) ≡ n
unfolding zeros
length-zeros zero = refl
length-zeros (suc n) = ap suc (length-zeros n)
