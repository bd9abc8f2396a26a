-- ===== src/Vision/Storage/Rejects.antt =====
-- What the reader of .avis files makes of arbitrary bytes (crates/agentic-vision/src/storage.rs).
use agentic_vision.Prelude.{
  ℕ, ◌≤◌, ◌<◌, ◌≡◌, ◌↔◌, ◌⊎◌, some, List, Option-cases, inl, inr, [], arith, length, take, drop,
}
use agentic_vision.Prelude.Bytes.{from_le_bytes, slice}
use agentic_vision.Vision.Types.{VisualMemoryStore}
use agentic_vision.Vision.Result.{ok, err, io, unexpected_eof, panic}
use agentic_vision.Vision.Storage.{
  Codec, SerializedStore, read_exact, alloc, read_payload, read_checked, read_from, isize_max,
  avis_magic, format_version,
}

-- The fields of a header that decide whether it is read on.
abbrev pub magic_of : List ℕ → ℕ
magic_of header = from_le_bytes (slice 0 4 header)

abbrev pub version_of : List ℕ → ℕ
version_of header = from_le_bytes (slice 4 6 header)

abbrev pub payload_len_of : List ℕ → ℕ
payload_len_of header = from_le_bytes (slice 40 48 header)

read_exact_cases :
    (bytes : List ℕ) (n : ℕ)
    → ((n ≤ length bytes) × (read_exact bytes n ≡ ok (take n bytes, drop n bytes)))
      ⊎ ((length bytes < n) × (read_exact bytes n ≡ err (io unexpected_eof)))
unfolding read_exact
read_exact_cases bytes n = ground arith

alloc_cases :
    (n : ℕ) → ((n ≤ isize_max) × (alloc n ≡ ok [])) ⊎ ((isize_max < n) × (alloc n ≡ panic))
unfolding alloc
alloc_cases n = ground arith

module _ (json : Codec) where
  read_payload-panics_iff :
      (header body : List ℕ)
      → (read_payload json header body ≡ panic) ↔ (isize_max < payload_len_of header)
  unfolding read_payload
  read_payload-panics_iff header body =
      let n = payload_len_of header in ground (arith, alloc_cases n, read_exact_cases body n)

  read_checked-panics_iff :
      (header body : List ℕ)
      → (read_checked json header body ≡ panic) ↔ (
          (magic_of header ≡ avis_magic)
          × (version_of header ≡ format_version)
          × (isize_max < payload_len_of header))
  unfolding read_checked
  read_checked-panics_iff header body = ground (arith, read_payload-panics_iff header body)

  read_checked_accepts :
      (header body : List ℕ) (store : VisualMemoryStore) (rest : List ℕ)
      → read_checked json header body ≡ ok (store, rest)
      → (s : SerializedStore) × (json.from_slice (take (payload_len_of header) body) ≡ some s)
        × (magic_of header ≡ avis_magic)
        × (version_of header ≡ format_version)
        × (payload_len_of header ≤ length body)
        × (rest ≡ drop (payload_len_of header) body)
        × (store.observations ≡ s.observations)
        × (store.next_id ≡ s.next_id)
        × (store.session_count ≡ from_le_bytes (slice 20 24 header))
  unfolding read_checked read_payload
  read_checked_accepts header body store rest h =
      let n = payload_len_of header in
      elim (Option-cases (json.from_slice (take n body))) [
        | inl e ↦ absurd (ground (arith, e, alloc_cases n, read_exact_cases body n))
        | inr (s, e) ↦
            let facts = λ (k : ℕ). alloc_cases n in
            (
              s,
              e,
              ground (arith, e, alloc_cases n, read_exact_cases body n),
              ground (arith, e, alloc_cases n, read_exact_cases body n),
              ground (arith, e, alloc_cases n, read_exact_cases body n),
              ground (arith, e, alloc_cases n, read_exact_cases body n),
              ground (arith, e, alloc_cases n, read_exact_cases body n),
              ground (arith, e, alloc_cases n, read_exact_cases body n),
              ground (arith, e, alloc_cases n, read_exact_cases body n),
            )
      ]

  module _ (bytes : List ℕ) where
    -- The reader panics exactly on 64 bytes or more whose header has the magic number and the
    -- version and announces a payload of more than isize::MAX bytes.
    pub read_from-panics_iff : (read_from json bytes ≡ panic) ↔ (
        (64 ≤ length bytes)
        × (magic_of (take 64 bytes) ≡ avis_magic)
        × (version_of (take 64 bytes) ≡ format_version)
        × (isize_max < payload_len_of (take 64 bytes)))
    unfolding read_from
    read_from-panics_iff = elim (read_exact_cases bytes 64) [
      | inl (size, e) ↦
          rw (e, read_from)
            (let iff = read_checked-panics_iff (take 64 bytes) (drop 64 bytes) in
              (λ p. let q = iff.0 p in (size, q.0, q.1, q.2), λ q. iff.1 (q.1, q.2, q.3)))
      | inr (size, e) ↦ rw (e, read_from) (λ p. absurd (cc), λ q. absurd (omega arith))
    ]

    -- Bytes that are accepted have the magic number, the version and a payload that decodes;
    -- observations and next id come from the payload, the session count from the header, and
    -- exactly the file is consumed.
    pub read_from_accepts :
        (store : VisualMemoryStore) (rest : List ℕ)
        → read_from json bytes ≡ ok (store, rest)
        → (s : SerializedStore) × (json.from_slice
              (take (payload_len_of (take 64 bytes)) (drop 64 bytes))
            ≡ some s)
          × (magic_of (take 64 bytes) ≡ avis_magic)
          × (version_of (take 64 bytes) ≡ format_version)
          × (payload_len_of (take 64 bytes) ≤ length (drop 64 bytes))
          × (rest ≡ drop (payload_len_of (take 64 bytes)) (drop 64 bytes))
          × (store.observations ≡ s.observations)
          × (store.next_id ≡ s.next_id)
          × (store.session_count ≡ from_le_bytes (slice 20 24 (take 64 bytes)))
    unfolding read_from
    read_from_accepts store rest h = elim (read_exact_cases bytes 64) [
      | inl (size, e) ↦
          read_checked_accepts (take 64 bytes) (drop 64 bytes) store rest (rw (e, read_from) at h)
      | inr (size, e) ↦ absurd (cc (let k = rw (e, read_from) at h in k))
    ]
