-- ===== src/Wal/Bytes.antt =====
-- Fixed-width integers as bytes: `to_be_bytes`, `from_be_bytes` of `u64` and `to_le_bytes`,
-- `from_le_bytes` of `u32`, as wal/types.rs and wal/codec.rs call them.
use ingestion_service.Common.{
  ℕ, zero, suc, ◌+◌, ◌*◌, ◌/◌, ◌%◌, ◌^◌, ◌<◌, ◌≡◌, refl, List, [], ◌∷◌, ◌++◌, arith, length,
  length-append,
}

abbrev pub IsByte : ℕ → Type 0
IsByte b = b < 256

-- The lowest `n` bytes of a number, lowest first.
unfoldable pub to_le_bytes : ℕ → ℕ → List ℕ
to_le_bytes zero v = []
to_le_bytes (suc n) v = (v % 256) ∷ to_le_bytes n (v / 256)

unfoldable pub from_le_bytes : List ℕ → ℕ
from_le_bytes [] = 0
from_le_bytes (b ∷ bs) = b + 256 * from_le_bytes bs

-- The lowest `n` bytes of a number, highest first.
unfoldable pub to_be_bytes : ℕ → ℕ → List ℕ
to_be_bytes zero v = []
to_be_bytes (suc n) v = to_be_bytes n (v / 256) ++ (v % 256) ∷ []

-- The value of big-endian bytes behind a value already read.
unfoldable pub from_be_bytes : ℕ → List ℕ → ℕ
from_be_bytes acc [] = acc
from_be_bytes acc (b ∷ bs) = from_be_bytes (acc * 256 + b) bs

pub length-to_le_bytes : (n v : ℕ) → length (to_le_bytes n v) ≡ n
unfolding to_le_bytes
length-to_le_bytes zero v = refl
length-to_le_bytes (suc n) v = omega (arith, length-to_le_bytes n (v / 256))

pub length-to_be_bytes : (n v : ℕ) → length (to_be_bytes n v) ≡ n
unfolding to_be_bytes
length-to_be_bytes zero v = refl
length-to_be_bytes (suc n) v = omega (
  arith,
  length-append (to_be_bytes n (v / 256)) ((v % 256) ∷ []),
  length-to_be_bytes n (v / 256),
)

-- A `u32` comes back from its four bytes.
pub from_le_bytes-to_le_bytes : (v : ℕ) → v < 2 ^ 32 → from_le_bytes (to_le_bytes 4 v) ≡ v
unfolding to_le_bytes from_le_bytes
from_le_bytes-to_le_bytes v h = omega arith

-- A `u64` comes back from its eight bytes.
pub from_be_bytes-to_be_bytes : (v : ℕ) → v < 2 ^ 64 → from_be_bytes 0 (to_be_bytes 8 v) ≡ v
unfolding to_be_bytes from_be_bytes
from_be_bytes-to_be_bytes v h = omega arith
