-- ===== src/Source/Kept.antt =====
-- That the dispatcher keeps or counts each job.
use ingestion_service.Common.{ℕ, ◌+◌, ◌≤◌, List, [], ◌∷◌, length, All}
use ingestion_service.Source.{Channel}

-- The jobs in all channels.
abbrev pub held : List Channel → ℕ
held [] = 0
held (c ∷ cs) = length c.jobs + held cs

-- No channel holds more than its capacity.
abbrev pub IsBounded : List Channel → Type 0
IsBounded cs = All (λ (c : Channel). length c.jobs ≤ c.capacity) cs
