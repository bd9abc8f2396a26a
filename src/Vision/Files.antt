-- ===== src/Vision/Files.antt =====
-- crates/agentic-vision/src/storage.rs: `write_to_file` and `read_from_file`, over the one file that
-- the path names; and crates/agentic-vision/src/capture.rs: `capture_from_file` and
-- `capture_from_base64`, over the crates `image` and `base64` as parameters.
pub mod Durable
pub mod Plain
use agentic_vision.Prelude.{
  ℕ, String, Option, none, some, List, [], Bool, if◌then◌else◌, str_eq, ◌||◌,
}
use agentic_vision.Vision.Types.{VisualMemoryStore, CaptureSource, file, base64}
use agentic_vision.Vision.Result.{
  VisionResult, ok, err, ◌>>=◌, io, not_found, other, image, invalid_input,
}
use agentic_vision.Vision.Storage.{Codec, write_to, read_from}

-- The file at the path, if there is one, and what the system answers to the calls that write:
-- whether the parent directory can be made, whether the file can be created, and how many bytes
-- it takes.
pub record FileSystem : Type 0 where
  pub disk : Option (List ℕ)
  pub mkdir_succeeds : Bool
  pub create_succeeds : Bool
  pub room : ℕ

module _ (json : Codec) where
  -- `File::create` truncates, so what stood in the file is gone before the first byte is written.
  unfoldable pub write_to_file :
      VisualMemoryStore → FileSystem → FileSystem × VisionResult (Unit {0})
  write_to_file store fs =
      if fs.mkdir_succeeds
      then (if fs.create_succeeds
          then (let (sink, result) =
                write_to json store (record { written = []; room = fs.room }) in
              (record fs { disk = some sink.written }, result))
          else (fs, err (io other)))
      else (fs, err (io other))

  unfoldable pub read_from_file : FileSystem → VisionResult VisualMemoryStore
  read_from_file fs = elim fs.disk [
    | none ↦ err (io not_found)
    | some bytes ↦ do (store, rest) ← read_from json bytes; ok store
  ]

pub data ImageFormat : Type 0 where
  png jpeg web_p gif : ImageFormat

-- `image::open`, `load_from_memory` with and without a format, and the standard base64 decoder.
pub record Loader (Image : Type 0) : Type 0 where
  pub open_path : String → Option Image
  pub decode : String → Option (List ℕ)
  pub load_as : ImageFormat → List ℕ → Option Image
  pub load : List ℕ → Option Image

unfoldable pub format_of : String → Option ImageFormat
format_of mime =
    if str_eq mime "image/png"
    then some png
    else if str_eq mime "image/jpeg" || str_eq mime "image/jpg"
    then some jpeg
    else if str_eq mime "image/webp"
    then some web_p
    else if str_eq mime "image/gif"
    then some gif
    else none

-- An `ImageError` becomes `VisionError::Image`.
abbrev pub or_image_error {ℓ} : {A : Type ℓ} → Option A → VisionResult A
or_image_error none = err image
or_image_error (some a) = ok a

module _ {Image : Type 0} (loader : Loader Image) where
  unfoldable pub capture_from_file : String → VisionResult (Image × CaptureSource)
  capture_from_file path = do img ← or_image_error (loader.open_path path); ok (img, file path)

  unfoldable pub decoded : String → VisionResult (List ℕ)
  decoded text = elim (loader.decode text) [
    | none ↦ err (invalid_input text)
    | some bytes ↦ ok bytes
  ]

  unfoldable pub capture_from_base64 : String → String → VisionResult (Image × CaptureSource)
  capture_from_base64 text mime = do
    bytes ← decoded text
    img ← elim (format_of mime) [
      | none ↦ or_image_error (loader.load bytes)
      | some format ↦ or_image_error (loader.load_as format bytes)
    ]
    ok (img, base64 mime)
