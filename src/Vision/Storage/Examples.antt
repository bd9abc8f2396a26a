-- ===== src/Vision/Storage/Examples.antt =====
-- Tests of the .avis format (crates/agentic-vision/src/storage.rs), and the theorems at concrete
-- inputs.
use agentic_vision.Prelude.{
  ℕ, ◌≤◌, ◌<◌, ◌≡◌, ◌↔◌, refl, some, List, [], ◌∷◌, ◌++◌, arith, append-nil, length, take, drop,
  replicate,
}
use agentic_vision.Prelude.Bytes.{from_le_bytes, slice}
use agentic_vision.Vision.Types.{VisualMemoryStore}
use agentic_vision.Vision.Result.{VisionResult, ok, err, panic, io, unexpected_eof, write_failed}
use agentic_vision.Vision.Storage.{
  Codec, Sink, SerializedStore, serialized, write_to, read_from, read_payload, read_exact, alloc,
  isize_max, avis_magic, format_version,
}
use agentic_vision.Vision.Storage.RoundTrip.{FitsHeader, Encodes, write-read, write_short-read}
use agentic_vision.Vision.Storage.Rejects.{
  read_from-panics_iff, read_from_accepts, magic_of, version_of, payload_len_of,
}

abbrev empty_store : VisualMemoryStore
empty_store = record {
  observations = [];
  embedding_dim = 512;
  next_id = 1;
  session_count = 3;
  created_at = 1708345678;
  updated_at = 1708345679;
}

-- A codec that knows this one store.
abbrev codec : Codec
codec = record {
  to_vec = λ s. some (0x7B ∷ 0x7D ∷ []);
  from_slice = λ bytes. some (record {
    observations = [];
    embedding_dim = 512;
    next_id = 1;
    session_count = 3;
    created_at = 1708345678;
    updated_at = 1708345679;
  });
}

codec-Encodes : Encodes codec empty_store (0x7B ∷ 0x7D ∷ [])
unfolding serialized
codec-Encodes = record { writes = refl; reads = refl; fits = omega arith }

empty_store-FitsHeader : FitsHeader empty_store
empty_store-FitsHeader = omega arith

abbrev outcome_with : ℕ → Sink × VisionResult (Unit {0})
outcome_with room = write_to codec empty_store (record { written = []; room = room })

write-read_example :
    ((outcome_with 100).1 ≡ ok tt)
    × (read_from codec ((outcome_with 100).0.written ++ 9 ∷ []) ≡ ok (empty_store, 9 ∷ []))
write-read_example =
    write-read codec empty_store (0x7B ∷ 0x7D ∷ []) empty_store-FitsHeader codec-Encodes 100
      (omega arith) (9 ∷ [])

write_short-read_example :
    ((outcome_with 65).1 ≡ err (io write_failed))
    × (read_from codec (outcome_with 65).0.written ≡ err (io unexpected_eof))
write_short-read_example =
    write_short-read codec empty_store (0x7B ∷ 0x7D ∷ []) empty_store-FitsHeader codec-Encodes 65
      (omega arith)

-- A header that announces 2^63 bytes.
abbrev huge : List ℕ
huge = 0x53 ∷ 0x49 ∷ 0x56 ∷ 0x41 ∷ 1 ∷ replicate 42 0 ++ 0x80 ∷ replicate 16 0

huge_panics : read_from codec huge ≡ panic
unfolding read_from read_payload read_exact alloc from_le_bytes
huge_panics = refl

read_from-panics_iff_example : (read_from codec huge ≡ panic) ↔ (
    (64 ≤ length huge)
    × (magic_of (take 64 huge) ≡ avis_magic)
    × (version_of (take 64 huge) ≡ format_version)
    × (isize_max < payload_len_of (take 64 huge)))
read_from-panics_iff_example = read_from-panics_iff codec huge

abbrev small_file : List ℕ
small_file = (outcome_with 100).0.written

read_from_accepts_example :
    (s : SerializedStore) × (codec.from_slice
        (take (payload_len_of (take 64 small_file)) (drop 64 small_file))
      ≡ some s)
    × (magic_of (take 64 small_file) ≡ avis_magic)
    × (version_of (take 64 small_file) ≡ format_version)
    × (payload_len_of (take 64 small_file) ≤ length (drop 64 small_file))
    × ([] ≡ drop (payload_len_of (take 64 small_file)) (drop 64 small_file))
    × (empty_store.observations ≡ s.observations)
    × (empty_store.next_id ≡ s.next_id)
    × (empty_store.session_count ≡ from_le_bytes (slice 20 24 (take 64 small_file)))
read_from_accepts_example = read_from_accepts codec small_file empty_store [] accepted
  where
    accepted : read_from codec small_file ≡ ok (empty_store, [])
    accepted =
        rw append-nil at
          (write-read codec empty_store (0x7B ∷ 0x7D ∷ []) empty_store-FitsHeader codec-Encodes 100
            (omega arith) []).1
