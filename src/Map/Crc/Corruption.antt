-- ===== src/Map/Crc/Corruption.antt =====
-- The checksum of runtime/src/map/serializer.rs tells two payloads that differ in one byte apart.
use agentic_vision.Prelude.{
  ℕ, ◌^◌, ◌<◌, ◌≡◌, ◌≢◌, refl, ◌∙◌, List, [], ◌∷◌, ◌++◌, ◌==◌, false, arith, All,
}
use agentic_vision.Prelude.Bytes.{to_le_bytes, length-to_le_bytes}
use agentic_vision.Map.Bytes.{fail, checksum_mismatch}
use agentic_vision.Map.Crc.Steps.{
  bit_xor_comm, bit_xor_cancel, step, step-lt, step_state, step_byte,
}
use agentic_vision.Map.Crc.{bit_xor, crc32_from, crc32, crc32-lt}
use agentic_vision.Map.Deserializer.{deserialize}
use agentic_vision.Map.Deserializer.RoundTrip.{deserialize_lem}

abbrev pub IsByte : ℕ → Type 0
IsByte b = b < 256

crc32_from_state :
    (bytes : List ℕ) (crc crc' : ℕ)
    → All IsByte bytes
    → crc < 2 ^ 32
    → crc' < 2 ^ 32
    → crc32_from crc bytes ≡ crc32_from crc' bytes
    → crc ≡ crc'
unfolding crc32_from
crc32_from_state [] crc crc' bs h h' e = e
crc32_from_state (b ∷ bytes) crc crc' bs h h' e =
    step_state crc crc' b h h' bs.0
      (crc32_from_state bytes (step crc b) (step crc' b) bs.1 (step-lt crc b) (step-lt crc' b) e)

crc32_from-lt : (bytes : List ℕ) (crc : ℕ) → crc < 2 ^ 32 → crc32_from crc bytes < 2 ^ 32
unfolding crc32_from
crc32_from-lt [] crc h = h
crc32_from-lt (b ∷ bytes) crc h = crc32_from-lt bytes (step crc b) (step-lt crc b)

module _ (after : List ℕ) (b b' : ℕ) (bytes : All IsByte after) (hb : b < 256)
    (hb' : b' < 256) where
  crc32_from_byte :
      (before : List ℕ) (crc : ℕ)
      → crc < 2 ^ 32
      → crc32_from crc (before ++ b ∷ after) ≡ crc32_from crc (before ++ b' ∷ after)
      → b ≡ b'
  unfolding crc32_from
  crc32_from_byte [] crc h e =
      step_byte crc b b' h hb hb'
        (crc32_from_state after (step crc b) (step crc b') bytes (step-lt crc b) (step-lt crc b') e)
  crc32_from_byte (c ∷ before) crc h e = crc32_from_byte before (step crc c) (step-lt crc c) e

  crc32_byte :
      (before : List ℕ) → crc32 (before ++ b ∷ after) ≡ crc32 (before ++ b' ∷ after) → b ≡ b'
  unfolding crc32
  crc32_byte before e =
      let x = crc32_from 0xFFFFFFFF (before ++ b ∷ after) in
      let y = crc32_from 0xFFFFFFFF (before ++ b' ∷ after) in
      let swapped : bit_xor 32 0xFFFFFFFF x ≡ bit_xor 32 0xFFFFFFFF y =
        bit_xor_comm 32 0xFFFFFFFF x ∙ e ∙ bit_xor_comm 32 y 0xFFFFFFFF in
      crc32_from_byte before 0xFFFFFFFF (omega arith) (
        bit_xor_cancel 32 0xFFFFFFFF x y
          (crc32_from-lt (before ++ b ∷ after) 0xFFFFFFFF (omega arith))
          (crc32_from-lt (before ++ b' ∷ after) 0xFFFFFFFF (omega arith)) swapped)

  -- A file whose payload has been changed in one byte, and no other, is refused with both
  -- checksums, whatever the payload was.
  pub deserialize_corrupted :
      (before : List ℕ)
      → b ≢ b'
      → deserialize ((before ++ b' ∷ after) ++ to_le_bytes 4 (crc32 (before ++ b ∷ after)))
        ≡ fail (checksum_mismatch (crc32 (before ++ b ∷ after)) (crc32 (before ++ b' ∷ after)))
  deserialize_corrupted before different =
      let crc = crc32 (before ++ b ∷ after) in
      let crc' = crc32 (before ++ b' ∷ after) in
      let distinct : crc ≢ crc' = λ e. different (crc32_byte before e) in
      let unequal : (crc == crc') ≡ false = ground (arith, distinct) in
      deserialize_lem (before ++ b' ∷ after) (to_le_bytes 4 crc) (length-to_le_bytes 4 crc) crc refl
        (omega (arith, crc32-lt (before ++ b ∷ after)))
      ∙ rw unequal refl
