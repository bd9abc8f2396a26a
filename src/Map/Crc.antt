-- ===== src/Map/Crc.antt =====
-- runtime/src/map/serializer.rs: the checksum at the end of a map file.
pub mod Steps
pub mod Corruption
use agentic_vision.Prelude.{
  ℕ, zero, suc, ◌+◌, ◌*◌, ◌/◌, ◌%◌, ◌^◌, ◌<◌, ◌≡◌, refl, List, [], ◌∷◌, ◌==◌, if◌then◌else◌, arith,
}
use native.Mathlib.Nat.{pow-suc}

-- The exclusive or of the `w` low bits.
unfoldable pub bit_xor : ℕ → ℕ → ℕ → ℕ
bit_xor zero a b = 0
bit_xor (suc w) a b = (a + b) % 2 + 2 * bit_xor w (a / 2) (b / 2)

pub bit_xor-lt : (w a b : ℕ) → bit_xor w a b < 2 ^ w
unfolding bit_xor
bit_xor-lt zero a b = omega arith
bit_xor-lt (suc w) a b = omega (arith, bit_xor-lt w (a / 2) (b / 2), pow-suc 2 w)

-- The inner loop of the table.
unfoldable pub table_rounds : ℕ → ℕ → ℕ
table_rounds zero crc = crc
table_rounds (suc j) crc =
    let next = if (crc % 2) == 1 then bit_xor 32 0xEDB88320 (crc / 2) else crc / 2 in
    table_rounds j next

unfoldable pub crc32_table : ℕ → ℕ
unfolding table_rounds
crc32_table i = table_rounds 8 i

table_rounds-lt : (j crc : ℕ) → crc < 2 ^ 32 → table_rounds j crc < 2 ^ 32
unfolding table_rounds
table_rounds-lt zero crc h = h
table_rounds-lt (suc j) crc h =
    let xored = bit_xor-lt 32 0xEDB88320 (crc / 2) in
    let halved : crc / 2 < 2 ^ 32 = omega arith in table_rounds-lt j _ (ground arith)

pub crc32_table-lt : (i : ℕ) → i < 2 ^ 32 → crc32_table i < 2 ^ 32
unfolding crc32_table
crc32_table-lt i h = table_rounds-lt 8 i h

unfoldable pub crc32_from : ℕ → List ℕ → ℕ
unfolding bit_xor crc32_table
crc32_from crc [] = crc
crc32_from crc (byte ∷ data_left) =
    let index = bit_xor 32 crc byte % 256 in
    crc32_from (bit_xor 32 (crc32_table index) (crc / 256)) data_left

unfoldable pub crc32 : List ℕ → ℕ
unfolding crc32_from
crc32 bytes = bit_xor 32 (crc32_from 0xFFFFFFFF bytes) 0xFFFFFFFF

pub crc32-lt : (bytes : List ℕ) → crc32 bytes < 2 ^ 32
unfolding crc32
crc32-lt bytes = bit_xor-lt 32 (crc32_from 0xFFFFFFFF bytes) 0xFFFFFFFF

-- The check value of the polynomial, for "123456789".
check_value : crc32 (0x31 ∷ 0x32 ∷ 0x33 ∷ 0x34 ∷ 0x35 ∷ 0x36 ∷ 0x37 ∷ 0x38 ∷ 0x39 ∷ []) ≡ 0xCBF43926
unfolding crc32
check_value = refl
