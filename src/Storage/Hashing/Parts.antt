-- ===== src/Storage/Hashing/Parts.antt =====
-- The parts that `md5_multipart` digests.
use cassandra_medusa.Base.{◌≤◌, ◌<◌, Bool, true, false, [], ◌++◌, ◌≡◌, length}
use cassandra_medusa.Storage.Hashing.{Bytes}

-- What a part leaves, and how much: it takes at least a byte off, or meets the end.
abbrev pub IsCut : Bytes → Bytes → Bytes × Bool × Bytes → Type 0
IsCut read file (part, true, rest) = (part ≡ read ++ file) × (rest ≡ [])
IsCut read file (part, false, rest) = (part ++ rest ≡ read ++ file) × (length rest ≤ length file)

-- A part of at least one block of at least one byte.
abbrev pub IsProper : Bytes → Bytes × Bool × Bytes → Type 0
IsProper file (part, true, rest) = part ≡ file
IsProper file (part, false, rest) = (part ++ rest ≡ file) × (length rest < length file)
