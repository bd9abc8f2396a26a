-- ===== src/Map/Floats.antt =====
-- The floating point of runtime/src/map: what the code uses of `f32` and `f64`, over bit patterns.
use agentic_vision.Prelude.{ℕ, ◌<◌, ◌^◌, Bool}
use agentic_vision.Map.Bytes.{FitsBytes}

pub record Floats : Type 0 where
  pub zero : ℕ
  -- `f32::MAX`.
  pub largest : ℕ
  pub add : ℕ → ℕ → ℕ
  pub sub : ℕ → ℕ → ℕ
  pub mul : ℕ → ℕ → ℕ
  pub div : ℕ → ℕ → ℕ
  pub sqrt : ℕ → ℕ
  -- `x == 0.0`, which also holds of -0.0.
  pub is_zero : ℕ → Bool
  pub minus_one : ℕ
  pub lt : ℕ → ℕ → Bool
  pub from_u32 : ℕ → ℕ
  -- `(n as f64 / 10.0).sqrt() as usize`.
  pub root_of_tenth : ℕ → ℕ

-- The results are of 32 bits; the root of a tenth of a `u32` is below 2^16.
pub record IsSized (ops : Floats) : Type 0 where
  pub zero : FitsBytes 4 ops.zero
  pub add : (a b : ℕ) → FitsBytes 4 (ops.add a b)
  pub div : (a b : ℕ) → FitsBytes 4 (ops.div a b)
  pub sqrt : (a : ℕ) → FitsBytes 4 (ops.sqrt a)
  pub root : (n : ℕ) → n < 2 ^ 32 → ops.root_of_tenth n < 2 ^ 16
