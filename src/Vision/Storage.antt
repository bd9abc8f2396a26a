-- ===== src/Vision/Storage.antt =====
-- crates/agentic-vision/src/storage.rs: the .avis file, a header of 64 bytes and a JSON payload.
-- `serde_json` is the parameter `Codec`. A reader is the list of the bytes that are still to come; a
-- writer takes a number of bytes and then fails, after it has written what fitted.
pub mod Header
pub mod RoundTrip
pub mod Rejects
mod Examples
use agentic_vision.Prelude.{
  ℕ, ◌+◌, ◌-◌, ◌^◌, Option, none, some, List, [], ◌∷◌, ◌++◌, leb, ltb, ◌==◌, not, if◌then◌else◌,
  length, take, drop, replicate,
}
use agentic_vision.Prelude.Bytes.{to_le_bytes, from_le_bytes, copy_at, slice}
use agentic_vision.Vision.Types.{VisualObservation, VisualMemoryStore}
use agentic_vision.Vision.Result.{
  VisionResult, ok, err, panic, ◌>>=◌, io, storage, unexpected_eof, write_failed,
  serialization_failed, invalid_magic, unsupported_version, deserialization_failed,
}

abbrev pub avis_magic : ℕ
avis_magic = 0x41564953

abbrev pub format_version : ℕ
format_version = 1

abbrev pub header_size : ℕ
header_size = 64

-- A `Vec` of more bytes than this cannot be asked for.
abbrev pub isize_max : ℕ
isize_max = 2 ^ 63 - 1

-- `SerializedStore` and `DeserializedStore`, which have the same fields.
pub record SerializedStore : Type 0 where
  pub observations : List VisualObservation
  pub embedding_dim : ℕ
  pub next_id : ℕ
  pub session_count : ℕ
  pub created_at : ℕ
  pub updated_at : ℕ

-- `serde_json::to_vec` and `serde_json::from_slice`.
pub record Codec : Type 0 where
  pub to_vec : SerializedStore → Option (List ℕ)
  pub from_slice : List ℕ → Option SerializedStore

unfoldable pub serialized : VisualMemoryStore → SerializedStore
serialized store = record {
  observations = store.observations;
  embedding_dim = store.embedding_dim;
  next_id = store.next_id;
  session_count = store.session_count;
  created_at = store.created_at;
  updated_at = store.updated_at;
}

-- A writer: what it has taken, and how many bytes more it takes before it fails.
pub record Sink : Type 0 where
  pub written : List ℕ
  pub room : ℕ

unfoldable pub write_all : Sink → List ℕ → Sink × VisionResult (Unit {0})
write_all sink bytes =
    if leb (length bytes) sink.room
    then (record { written = sink.written ++ bytes; room = sink.room - length bytes }, ok tt)
    else (
      record { written = sink.written ++ take sink.room bytes; room = 0 },
      err (io write_failed),
    )

unfoldable pub header_of : VisualMemoryStore → List ℕ → List ℕ
header_of store payload =
    let h0 = replicate header_size 0 in
    let h1 = copy_at 0 (to_le_bytes 4 avis_magic) h0 in
    let h2 = copy_at 4 (to_le_bytes 2 format_version) h1 in
    let h3 = copy_at 6 (to_le_bytes 2 0) h2 in
    let h4 = copy_at 8 (to_le_bytes 8 (length store.observations)) h3 in
    let h5 = copy_at 16 (to_le_bytes 4 store.embedding_dim) h4 in
    let h6 = copy_at 20 (to_le_bytes 4 store.session_count) h5 in
    let h7 = copy_at 24 (to_le_bytes 8 store.created_at) h6 in
    let h8 = copy_at 32 (to_le_bytes 8 store.updated_at) h7 in
    copy_at 40 (to_le_bytes 8 (length payload)) h8

-- The two calls of `write_all`, the second only if the first succeeded.
unfoldable pub write_parts : Sink → List ℕ → List ℕ → Sink × VisionResult (Unit {0})
write_parts sink header payload =
    let (after, result) = write_all sink header in
    elim result [ ok _ ↦ write_all after payload | err e ↦ (after, err e) | panic ↦ (after, panic) ]

unfoldable pub read_exact : List ℕ → ℕ → VisionResult (List ℕ × List ℕ)
read_exact reader n =
    if leb n (length reader) then ok (take n reader, drop n reader) else err (io unexpected_eof)

-- `vec![0u8; n]`.
unfoldable pub alloc : ℕ → VisionResult (List ℕ)
alloc n = if leb n isize_max then ok [] else panic

module _ (json : Codec) where
  unfoldable pub write_to : VisualMemoryStore → Sink → Sink × VisionResult (Unit {0})
  write_to store writer = elim (json.to_vec (serialized store)) [
    | none ↦ (writer, err (storage serialization_failed))
    | some payload ↦ write_parts writer (header_of store payload) payload
  ]

  unfoldable pub read_payload : List ℕ → List ℕ → VisionResult (VisualMemoryStore × List ℕ)
  read_payload header reader = do
    let payload_len = from_le_bytes (slice 40 48 header)
    _ ← alloc payload_len
    (payload, rest) ← read_exact reader payload_len
    elim (json.from_slice payload) [
      | none ↦ err (storage deserialization_failed)
      | some s ↦ ok (
        record {
          observations = s.observations;
          embedding_dim = from_le_bytes (slice 16 20 header);
          next_id = s.next_id;
          session_count = from_le_bytes (slice 20 24 header);
          created_at = from_le_bytes (slice 24 32 header);
          updated_at = from_le_bytes (slice 32 40 header);
        },
        rest,
      )
    ]

  -- The checks on the header, and what follows them.
  unfoldable pub read_checked : List ℕ → List ℕ → VisionResult (VisualMemoryStore × List ℕ)
  read_checked header body =
      let magic = from_le_bytes (slice 0 4 header) in
      let version = from_le_bytes (slice 4 6 header) in
      if not (magic == avis_magic)
      then err (storage (invalid_magic magic))
      else if not (version == format_version)
      then err (storage (unsupported_version version))
      else read_payload header body

  unfoldable pub read_from : List ℕ → VisionResult (VisualMemoryStore × List ℕ)
  unfolding read_checked
  read_from reader = do (header, body) ← read_exact reader header_size; read_checked header body
