-- ===== src/Collective/Hash.antt =====
-- runtime/src/collective/delta.rs: the hash of a URL, and the bytes that the hash of a map reads.
use agentic_vision.Prelude.{ℕ, ◌+◌, ◌-◌, ◌*◌, ◌/◌, ◌%◌, ◌^◌, List, [], ◌∷◌, ◌++◌}
use agentic_vision.Prelude.Bytes.{to_le_bytes}
use agentic_vision.Map.Crc.{bit_xor}

unfoldable pub fnv_from : ℕ → List ℕ → ℕ
unfolding bit_xor
fnv_from hash [] = hash
fnv_from hash (byte ∷ bytes) = fnv_from ((bit_xor 64 hash byte * 0x100000001B3) % 2 ^ 64) bytes

unfoldable pub fnv_hash : List ℕ → ℕ
unfolding fnv_from
fnv_hash bytes = fnv_from 0xCBF29CE484222325 bytes

abbrev pub rotate_left : ℕ → ℕ → ℕ
rotate_left h k = ((h * 2 ^ k) % 2 ^ 64) + (h / 2 ^ (64 - k))

-- The bytes that the hasher is given: a string ends with 0xFF.
abbrev pub hashed_string : List ℕ → List ℕ → List ℕ
hashed_string s rest = s ++ 0xFF ∷ rest

abbrev pub hashed_strings : List (List ℕ) → List ℕ → List ℕ
hashed_strings [] rest = rest
hashed_strings (s ∷ ss) rest = hashed_string s (hashed_strings ss rest)

abbrev pub hashed_floats : List ℕ → List ℕ → List ℕ
hashed_floats [] rest = rest
hashed_floats (f ∷ fs) rest = to_le_bytes 4 f ++ hashed_floats fs rest

abbrev pub hashed_vectors : List (List ℕ) → List ℕ
hashed_vectors [] = []
hashed_vectors (v ∷ vs) = hashed_floats v (hashed_vectors vs)
