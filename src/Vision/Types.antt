-- ===== src/Vision/Types.antt =====
-- crates/agentic-vision/src/types.rs: the data types. A `f32` is its bit pattern, a number; what is
-- computed with floats is a parameter of the code that computes.
use agentic_vision.Prelude.{ℕ, ◌^◌, String, Option, List}

abbrev pub F32 : Type 0
F32 = ℕ

abbrev pub u32_mod : ℕ
u32_mod = 2 ^ 32

abbrev pub u64_mod : ℕ
u64_mod = 2 ^ 64

pub record Rect : Type 0 where
  pub x : ℕ
  pub y : ℕ
  pub w : ℕ
  pub h : ℕ

pub data CaptureSource : Type 0 where
  file : (path : String) → CaptureSource
  base64 : (mime : String) → CaptureSource
  screenshot : (region : Option Rect) → CaptureSource
  clipboard : CaptureSource

pub record ObservationMeta : Type 0 where
  pub width : ℕ
  pub height : ℕ
  pub original_width : ℕ
  pub original_height : ℕ
  pub labels : List String
  pub description : Option String

pub record VisualObservation : Type 0 where
  pub id : ℕ
  pub timestamp : ℕ
  pub session_id : ℕ
  pub source : CaptureSource
  pub embedding : List F32
  pub thumbnail : List ℕ
  pub metadata : ObservationMeta
  pub memory_link : Option ℕ

pub record VisualDiff : Type 0 where
  pub before_id : ℕ
  pub after_id : ℕ
  pub similarity : F32
  pub changed_regions : List Rect
  pub pixel_diff_ratio : F32

pub record SimilarityMatch : Type 0 where
  pub id : ℕ
  pub similarity : F32

pub record VisualMemoryStore : Type 0 where
  pub observations : List VisualObservation
  pub embedding_dim : ℕ
  pub next_id : ℕ
  pub session_count : ℕ
  pub created_at : ℕ
  pub updated_at : ℕ
