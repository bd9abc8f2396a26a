-- ===== src/Vision/Files/Durable.antt =====
-- What a call of `write_to_file` leaves in the file (crates/agentic-vision/src/storage.rs).
use agentic_vision.Prelude.{
  ℕ, ◌+◌, ◌≤◌, ◌≡◌, refl, none, some, List, [], append-nil, true, Bool, Bool-cases, All,
  Option-cases, inl, inr, leb, length, leb→le, leb_false→lt,
}
use agentic_vision.Vision.Types.{F32, VisualMemoryStore}
use agentic_vision.Vision.Result.{VisionResult, ok}
use agentic_vision.Vision.Storage.{Codec, Sink, serialized, write_to, read_from, isize_max}
use agentic_vision.Vision.Storage.RoundTrip.{FitsHeader, Encodes, write-read, write_short-read}
use agentic_vision.Vision.Files.{FileSystem, write_to_file}

-- The embeddings of a store hold finite floats only, which JSON can write.
abbrev pub AllFinite : (F32 → Bool) → VisualMemoryStore → Type 0
AllFinite is_finite store = All (λ o. All (λ x. is_finite x ≡ true) o.embedding) store.observations

-- `serde_json` reads back what it has written of such a store, and a byte vector holds at most
-- isize::MAX bytes.
pub record IsFaithful (json : Codec) (is_finite : F32 → Bool) : Type 0 where
  pub reads :
      (store : VisualMemoryStore) (payload : List ℕ)
      → AllFinite is_finite store
      → json.to_vec (serialized store) ≡ some payload
      → json.from_slice payload ≡ some (serialized store)
  pub fits :
      (store : VisualMemoryStore) (payload : List ℕ)
      → json.to_vec (serialized store) ≡ some payload
      → length payload ≤ isize_max

module _ (json : Codec) (is_finite : F32 → Bool) (faithful : IsFaithful json is_finite)
    (store : VisualMemoryStore) (widths : FitsHeader store)
    (finite : AllFinite is_finite store) where
  pub encodes :
      (payload : List ℕ)
      → json.to_vec (serialized store) ≡ some payload
      → Encodes json store payload
  encodes payload e = record {
    writes = e;
    reads = faithful.reads store payload finite e;
    fits = faithful.fits store payload e;
  }

  refused :
      (room : ℕ)
      → json.to_vec (serialized store) ≡ none
      → ¬ ((write_to json store (record { written = []; room = room })).1 ≡ ok tt)
  unfolding write_to
  refused room e h = cc (let k = rw (e, write_to) at h in k)

  abbrev written_by : ℕ → Sink × VisionResult (Unit {0})
  written_by room = write_to json store (record { written = []; room = room })

  -- A write that succeeds leaves exactly a file that reads back as the store.
  write_to_ok :
      (room : ℕ)
      → (written_by room).1 ≡ ok tt
      → read_from json (written_by room).0.written ≡ ok (store, [])
  write_to_ok room h = elim (Option-cases (json.to_vec (serialized store))) [
    | inl e ↦ absurd (refused room e h)
    | inr (payload, e) ↦ elim (Bool-cases (leb (64 + length payload) room)) [
      | inl enough ↦
          rw append-nil at (
            (write-read json store payload widths (encodes payload e) room (leb→le _ _ enough)
              []).1)
      | inr less ↦ absurd (
          cc (
            h,
            (write_short-read json store payload widths (encodes payload e) room
                (leb_false→lt _ _ less)).0,
          ))
    ]
  ]

  pub write_to_file_ok :
      (fs : FileSystem)
      → (write_to_file json store fs).1 ≡ ok tt
      → (bytes : List ℕ) × ((write_to_file json store fs).0.disk ≡ some bytes)
        × (read_from json bytes ≡ ok (store, []))
  unfolding write_to_file
  write_to_file_ok fs h = elim (Bool-cases fs.mkdir_succeeds) [
    | inl made ↦ elim (Bool-cases fs.create_succeeds) [
      | inl created ↦ (
        (written_by fs.room).0.written,
        rw (made, created) refl,
        write_to_ok fs.room (rw (made, created) at h),
      )
      | inr failed ↦ absurd (cc (let k = rw (made, failed) at h in k))
    ]
    | inr failed ↦ absurd (cc (let k = rw failed at h in k))
  ]
