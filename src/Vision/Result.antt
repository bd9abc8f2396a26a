-- ===== src/Vision/Result.antt =====
-- crates/agentic-vision/src/types.rs: `VisionError` and `VisionResult`. A message that the code
-- formats is kept as the values that it is formatted from; `panic` is the outcome of a call that
-- aborts the thread.
use agentic_vision.Prelude.{ℕ, String}

pub data IoError : Type 0 where
  unexpected_eof write_failed not_found other : IoError

pub data StorageFault : Type 0 where
  serialization_failed : StorageFault
  invalid_magic : (found : ℕ) → StorageFault
  unsupported_version : (found : ℕ) → StorageFault
  deserialization_failed : StorageFault

pub data VisionError : Type 0 where
  image : VisionError
  io : IoError → VisionError
  embedding : String → VisionError
  storage : StorageFault → VisionError
  capture_not_found : ℕ → VisionError
  invalid_input : String → VisionError
  capture : String → VisionError
  model_not_available : String → VisionError

pub data VisionResult {ℓ} (A : Type ℓ) : Type ℓ where
  ok : A → VisionResult A
  err : VisionError → VisionResult A
  panic : VisionResult A

infixl 5 ◌>>=◌
abbrev pub ◌>>=◌ {ℓ κ} :
    {A : Type ℓ} {B : Type κ} → VisionResult A → (A → VisionResult B) → VisionResult B
ok a >>= f = f a
err e >>= f = err e
panic >>= f = panic
