-- ===== src/Mcp/Session.antt =====
-- crates/agentic-vision-mcp/src/session/manager.rs: `VisionSessionManager`. Its file, the two clocks
-- and the answers of the file system are the record `World`; a method returns the manager and the
-- world that it leaves behind, also with an error.
pub mod Reads
pub mod Saving
pub mod Invariant
pub mod Reopen
pub mod Queries
mod Examples
use agentic_vision.Prelude.{
  ℕ, ◌+◌, ◌-◌, ◌*◌, ◌%◌, String, str_eq, Option, none, some, List, [], Bool, true, false, not, ◌&&◌,
  ◌==◌, leb, max, if◌then◌else◌, retain, take,
}
use agentic_vision.Vision.Types.{
  F32, CaptureSource, VisualObservation, VisualMemoryStore, VisualDiff, SimilarityMatch, u32_mod,
  u64_mod,
}
use agentic_vision.Vision.Result
use agentic_vision.Vision.Result.{VisionError, VisionResult, image, embedding, io, other}
use agentic_vision.Vision.Store
use agentic_vision.Vision.Storage.{Codec}
use agentic_vision.Vision.Files.{
  FileSystem, write_to_file, read_from_file, Loader, capture_from_file, capture_from_base64,
}
use agentic_vision.Vision.Similarity.{FloatOps, cosine_similarity, find_similar}
use agentic_vision.Mcp.Types.{
  McpError, McpResult, ok, err, panic, or_vision_error, vision_error, invalid_params,
  capture_not_found, io_error,
}

abbrev pub embedding_dim : ℕ
embedding_dim = 512

-- 30 seconds, in milliseconds.
abbrev pub auto_save_interval : ℕ
auto_save_interval = 30 * 1000

pub record VisionSessionManager : Type 0 where
  pub store : VisualMemoryStore
  pub current_session : ℕ
  pub dirty : Bool
  pub last_save : ℕ

-- The file system, `Instant::now()` in milliseconds and `SystemTime::now()` in seconds.
pub record World : Type 0 where
  pub fs : FileSystem
  pub instant : ℕ
  pub time : ℕ

-- What a method leaves behind.
pub record Outcome {ℓ} (A : Type ℓ) : Type ℓ where
  pub manager : VisionSessionManager
  pub world : World
  pub result : McpResult A

abbrev pub done {ℓ} : {A : Type ℓ} → VisionSessionManager → World → McpResult A → Outcome A
done m w r = record { manager = m; world = w; result = r }

pub record CaptureResult : Type 0 where
  pub capture_id : ℕ
  pub timestamp : ℕ
  pub width : ℕ
  pub height : ℕ
  pub embedding_dims : ℕ

-- `r?` before the rest of a method.
abbrev pub then_do {ℓ κ} :
    {A : Type ℓ} {B : Type κ}
    → Outcome A
    → (A → VisionSessionManager → World → Outcome B)
    → Outcome B
then_do o f = elim o.result [
  | ok a ↦ f a o.manager o.world
  | err e ↦ done o.manager o.world (err e)
  | panic ↦ done o.manager o.world panic
]

-- What the other crates make of a captured image: its dimensions, the thumbnail that
-- `generate_thumbnail` makes, the dimensions of the thumbnail if it can be loaded again, and the
-- embedding if the model succeeds.
pub record Picture : Type 0 where
  pub dimensions : ℕ × ℕ
  pub thumbnail : List ℕ
  pub thumbnail_dimensions : Option (ℕ × ℕ)
  pub embedded : VisionResult (List F32)

module _ (json : Codec) where
  -- The model is loaded or not found, or loading it fails with an error.
  unfoldable pub open_store : World → McpResult VisualMemoryStore
  open_store w = elim w.fs.disk [
    | some bytes ↦ or_vision_error "Failed to read vision file" (read_from_file json w.fs)
    | none ↦ if w.fs.mkdir_succeeds then ok (Store.new embedding_dim w.time) else err io_error
  ]

  unfoldable pub manager_of : World → VisualMemoryStore → VisionSessionManager
  manager_of w store = record {
    store = store;
    current_session = (store.session_count + 1) % u32_mod;
    dirty = false;
    last_save = w.instant;
  }

  unfoldable pub open_manager : VisionResult (Unit {0}) → World → McpResult VisionSessionManager
  open_manager engine w = elim (open_store w) [
    | ok store ↦ elim (or_vision_error "Failed to initialize embedding engine" engine) [
      | ok _ ↦ ok (manager_of w store)
      | err e ↦ err e
      | panic ↦ panic
    ]
    | err e ↦ err e
    | panic ↦ panic
  ]

  unfoldable pub save : VisionSessionManager → World → Outcome (Unit {0})
  save m w =
      if not m.dirty
      then done m w (ok tt)
      else (let (fs, written) = write_to_file json m.store w.fs in
          let w' = record w { fs = fs } in
          elim (or_vision_error "Failed to write vision file" written) [
            | ok _ ↦ done (record m { dirty = false; last_save = w.instant }) w' (ok tt)
            | err e ↦ done m w' (err e)
            | panic ↦ done m w' panic
          ])

  unfoldable pub maybe_auto_save : VisionSessionManager → World → Outcome (Unit {0})
  maybe_auto_save m w =
      if m.dirty && leb auto_save_interval (w.instant - m.last_save)
      then save m w
      else done m w (ok tt)

  -- `unwrap_or(self.current_session + 1)`, which wraps at 2^32.
  unfoldable pub session_id_of : VisionSessionManager → Option ℕ → ℕ
  session_id_of m none = (m.current_session + 1) % u32_mod
  session_id_of m (some id) = id

  unfoldable pub start_session : VisionSessionManager → World → Option ℕ → Outcome ℕ
  start_session m w explicit_id =
      let session_id = session_id_of m explicit_id in
      done
        (record m {
          current_session = session_id;
          store = record m.store { session_count = max m.store.session_count session_id };
        })
        w (ok session_id)

  unfoldable pub end_session : VisionSessionManager → World → Outcome ℕ
  end_session m w = then_do (save m w) (λ _ m' w'. done m' w' (ok m.current_session))

  unfoldable pub observation_of :
      VisionSessionManager
      → World
      → Picture
      → CaptureSource
      → List String
      → Option String
      → ℕ × ℕ
      → List F32
      → VisualObservation
  observation_of m w img source labels description thumb embedding' = record {
    id = 0;
    timestamp = w.time;
    session_id = m.current_session;
    source = source;
    embedding = embedding';
    thumbnail = img.thumbnail;
    metadata = record {
      width = thumb.0;
      height = thumb.1;
      original_width = img.dimensions.0;
      original_height = img.dimensions.1;
      labels = labels;
      description = description;
    };
    memory_link = none;
  }

  -- `store.add`, the flag, the automatic save and the result.
  unfoldable pub add_capture :
      VisionSessionManager → World → VisualObservation → ℕ × ℕ → Outcome CaptureResult
  add_capture m w obs dimensions =
      let (store, id) = Store.add m.store obs w.time in
      then_do (maybe_auto_save (record m { store = store; dirty = true }) w) (λ _ m' w'.
        done m' w' (
          ok (record {
            capture_id = id;
            timestamp = w.time;
            width = dimensions.0;
            height = dimensions.1;
            embedding_dims = embedding_dim;
          })))

  unfoldable pub store_capture :
      VisionSessionManager
      → World
      → Picture
      → CaptureSource
      → List String
      → Option String
      → Outcome CaptureResult
  store_capture m w img source labels description = elim img.thumbnail_dimensions [
    | none ↦ done m w (err (vision_error "Failed to load thumbnail" (some image)))
    | some thumb ↦ elim (or_vision_error "Embedding failed" img.embedded) [
      | ok embedding' ↦
          add_capture m w (observation_of m w img source labels description thumb embedding')
            img.dimensions
      | err e ↦ done m w (err e)
      | panic ↦ done m w panic
    ]
  ]

  unfoldable pub capture_image :
      Loader Picture → String → String → Option String → McpResult (Picture × CaptureSource)
  capture_image loader source_type source_data mime =
      if str_eq source_type "file"
      then or_vision_error "Failed to capture from file" (capture_from_file loader source_data)
      else if str_eq source_type "base64"
      then or_vision_error "Failed to decode base64"
          (capture_from_base64 loader source_data (elim mime [ none ↦ "image/png" | some m ↦ m ]))
      else err (invalid_params source_type)

  unfoldable pub capture :
      Loader Picture
      → VisionSessionManager
      → World
      → String
      → String
      → Option String
      → List String
      → Option String
      → Outcome CaptureResult
  capture loader m w source_type source_data mime labels description =
      elim (capture_image loader source_type source_data mime) [
        | ok (img, source) ↦ store_capture m w img source labels description
        | err e ↦ done m w (err e)
        | panic ↦ done m w panic
      ]

  -- `shot` is what the system's screenshot of the region comes to, or its clipboard.
  unfoldable pub capture_screenshot :
      VisionResult (Picture × CaptureSource)
      → VisionSessionManager
      → World
      → List String
      → Option String
      → Outcome CaptureResult
  capture_screenshot shot m w labels description =
      elim (or_vision_error "Screenshot capture failed" shot) [
        | ok (img, source) ↦ store_capture m w img source labels description
        | err e ↦ done m w (err e)
        | panic ↦ done m w panic
      ]

  unfoldable pub capture_clipboard :
      VisionResult (Picture × CaptureSource)
      → VisionSessionManager
      → World
      → List String
      → Option String
      → Outcome CaptureResult
  capture_clipboard shot m w labels description =
      elim (or_vision_error "Clipboard capture failed" shot) [
        | ok (img, source) ↦ store_capture m w img source labels description
        | err e ↦ done m w (err e)
        | panic ↦ done m w panic
      ]

  unfoldable pub link : VisionSessionManager → World → ℕ → ℕ → Outcome (Unit {0})
  link m w capture_id memory_node_id = elim (Store.get m.store capture_id) [
    | none ↦ done m w (err (capture_not_found capture_id))
    | some obs ↦
        done
          (record m {
            store =
                Store.get_mut (λ o. record o { memory_link = some memory_node_id }) m.store
                  capture_id;
            dirty = true;
          })
          w (ok tt)
  ]

  -- `Drop`: a save whose error is only logged.
  unfoldable pub drop_manager : VisionSessionManager → World → World
  drop_manager m w = if m.dirty then (save m w).world else w
