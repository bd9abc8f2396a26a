-- ===== src/Vision/Storage/RoundTrip.antt =====
-- Writing and reading back an .avis file (crates/agentic-vision/src/storage.rs).
use agentic_vision.Prelude.{
  ℕ, ◌+◌, ◌-◌, ◌^◌, ◌≤◌, ◌<◌, ◌≡◌, refl, sym, ◌∙◌, ap, some, List, [], ◌++◌, append_assoc,
  append-nil, arith, tests, true, false, ◌⊎◌, lt→leb_false, leb_false→lt, length, take, take-append,
  take_all, Bool-cases, ltb, ltb→lt, inl, inr, leb→le, if◌then◌else◌, length-append, length-take,
  take-append_length, drop-append_length, leb, le→leb,
}
use agentic_vision.Prelude.Bytes.{to_le_bytes, from_le_bytes, from-to_le_bytes}
use agentic_vision.Vision.Types.{VisualMemoryStore}
use agentic_vision.Vision.Result.{VisionResult, ok, err, io, unexpected_eof, write_failed}
use agentic_vision.Vision.Storage.{
  Codec, Sink, serialized, header_of, write_all, write_parts, write_to, read_exact, alloc,
  read_payload, read_from, isize_max, avis_magic, format_version,
}
use agentic_vision.Vision.Storage.Header.{
  length-header_of, magic_field, version_field, embedding_dim_field, session_count_field,
  created_at_field, updated_at_field, payload_len_field,
}

-- The fields of the header have the width of their Rust types.
pub record FitsHeader (store : VisualMemoryStore) : Type 0 where
  pub embedding_dim : store.embedding_dim < 2 ^ 32
  pub session_count : store.session_count < 2 ^ 32
  pub created_at : store.created_at < 2 ^ 64
  pub updated_at : store.updated_at < 2 ^ 64

-- `serde_json` writes this store as `payload` and reads `payload` back. (It does not where an
-- embedding holds a float that is not finite: that is written as null.)
pub record Encodes (json : Codec) (store : VisualMemoryStore) (payload : List ℕ) : Type 0 where
  pub writes : json.to_vec (serialized store) ≡ some payload
  pub reads : json.from_slice payload ≡ some (serialized store)
  pub fits : length payload ≤ isize_max

pub read_exact-append :
    (xs rest : List ℕ) (n : ℕ) → length xs ≡ n → read_exact (xs ++ rest) n ≡ ok (xs, rest)
unfolding read_exact
read_exact-append xs rest n e = rw (← e) (
    rw (
      le→leb (length xs) (length (xs ++ rest)) (omega (arith, length-append xs rest)),
      take-append_length xs rest,
      drop-append_length xs rest,
    ))

pub read_exact_short :
    (xs : List ℕ) (n : ℕ) → length xs < n → read_exact xs n ≡ err (io unexpected_eof)
unfolding read_exact
read_exact_short xs n h = ground arith

-- A field of `n` bytes at its place, decoded.
read_field :
    (n val : ℕ) {bytes : List ℕ}
    → bytes ≡ to_le_bytes n val
    → val < 256 ^ n
    → from_le_bytes bytes ≡ val
read_field n val e h = ap from_le_bytes e ∙ from-to_le_bytes n val h

alloc_fits : (n : ℕ) → n ≤ isize_max → alloc n ≡ ok []
unfolding alloc
alloc_fits n h = rw (le→leb n isize_max h)

module _ (json : Codec) (store : VisualMemoryStore) (payload : List ℕ) where
  abbrev pub file_of : List ℕ
  file_of = header_of store payload ++ payload

  module _ (widths : FitsHeader store) (codec : Encodes json store payload) where
    read_payload_lem :
        (rest : List ℕ)
        → read_payload json (header_of store payload) (payload ++ rest) ≡ ok (store, rest)
    unfolding read_payload
    read_payload_lem rest =
        rw
          (
            read_field 8 (length payload) (payload_len_field store payload)
                (omega (arith, codec.fits)),
            alloc_fits (length payload) codec.fits,
            read_exact-append payload rest (length payload) refl,
            codec.reads,
            read_field 4 store.embedding_dim (embedding_dim_field store payload)
                widths.embedding_dim,
            read_field 4 store.session_count (session_count_field store payload)
                widths.session_count,
            read_field 8 store.created_at (created_at_field store payload) widths.created_at,
            read_field 8 store.updated_at (updated_at_field store payload) widths.updated_at,
          )
          (unfold serialized in refl)

    -- A complete file is read back as the store, and what follows it is left.
    pub read_from-file :
        (rest : List ℕ)
        → read_from json (header_of store payload ++ (payload ++ rest)) ≡ ok (store, rest)
    unfolding read_from
    read_from-file rest =
        rw
          (
            read_exact-append (header_of store payload) (payload ++ rest) 64
                (length-header_of store payload),
            read_field 4 avis_magic (magic_field store payload) (omega arith),
            read_field 2 format_version (version_field store payload) (omega arith),
          )
          (read_payload_lem rest)

write_all_fits :
    (sink : Sink) (bytes : List ℕ)
    → leb (length bytes) sink.room ≡ true
    → write_all sink bytes
      ≡ (record { written = sink.written ++ bytes; room = sink.room - length bytes }, ok tt)
unfolding write_all
write_all_fits sink bytes h = rw h

write_all_short :
    (sink : Sink) (bytes : List ℕ)
    → leb (length bytes) sink.room ≡ false
    → write_all sink bytes
      ≡ (record { written = sink.written ++ take sink.room bytes; room = 0 }, err (io write_failed))
unfolding write_all
write_all_short sink bytes h = rw h

-- The file as it is written to a sink that takes `room` bytes more.
module _ (sink : Sink) (header payload : List ℕ) where
  whole_fits :
      leb (length header) sink.room ≡ true
      → leb (length payload) (sink.room - length header) ≡ true
      → leb (length (header ++ payload)) sink.room ≡ true
  whole_fits e f = le→leb _ _ (omega (tests, length-append header payload))

  whole_too_long :
      (leb (length header) sink.room ≡ false)
        ⊎ (leb (length payload) (sink.room - length header) ≡ false)
      → leb (length (header ++ payload)) sink.room ≡ false
  whole_too_long (inl e) =
      lt→leb_false _ _ (omega (arith, leb_false→lt _ _ e, length-append header payload))
  whole_too_long (inr e) =
      lt→leb_false _ _ (omega (arith, leb_false→lt _ _ e, length-append header payload))

  no_room : leb (length header) sink.room ≡ false → sink.room - length header ≡ 0
  no_room e = omega (arith, leb_false→lt _ _ e)

  abbrev after_header : Sink
  after_header = record { written = sink.written ++ header; room = sink.room - length header }

  write_parts_lem :
      ((write_parts sink header payload).0.written
        ≡ sink.written ++ take sink.room (header ++ payload))
      × ((write_parts sink header payload).1
          ≡ (if leb (length (header ++ payload)) sink.room then ok tt else err (io write_failed)))
  unfolding write_parts
  write_parts_lem = elim (Bool-cases (leb (length header) sink.room)) [
    | inl e ↦ elim (Bool-cases (leb (length payload) (sink.room - length header))) [
      | inl f ↦
          rw
            (
              write_all_fits sink header e,
              write_parts,
              write_all_fits sink header e,
              write_all_fits after_header payload f,
              whole_fits e f,
              take-append sink.room header payload,
              take_all sink.room header (leb→le _ _ e),
              take_all _ payload (leb→le _ _ f),
            )
            (append_assoc sink.written header payload, refl)
      | inr f ↦
          rw
            (
              write_all_fits sink header e,
              write_parts,
              write_all_fits sink header e,
              write_all_short after_header payload f,
              whole_too_long (inr f),
              take-append sink.room header payload,
              take_all sink.room header (leb→le _ _ e),
            )
            (append_assoc sink.written header _, refl)
    ]
    | inr e ↦
        rw
          (
            write_all_short sink header e,
            write_parts,
            write_all_short sink header e,
            whole_too_long (inl e),
            take-append sink.room header payload,
            no_room e,
          )
          (ap (λ t. sink.written ++ t) (sym (append-nil (take sink.room header))), refl)
  ]

module _ (json : Codec) (store : VisualMemoryStore) (payload : List ℕ) where
  module _ (widths : FitsHeader store) (codec : Encodes json store payload) where
    read_payload_short :
        (bytes : List ℕ)
        → length bytes < length payload
        → read_payload json (header_of store payload) bytes ≡ err (io unexpected_eof)
    unfolding read_payload
    read_payload_short bytes h =
        rw
          (
            read_field 8 (length payload) (payload_len_field store payload)
                (omega (arith, codec.fits)),
            alloc_fits (length payload) codec.fits,
            read_exact_short bytes (length payload) h,
          )
          refl

    read_from_header :
        (bytes : List ℕ)
        → read_from json (header_of store payload ++ bytes)
          ≡ read_payload json (header_of store payload) bytes
    unfolding read_from
    read_from_header bytes =
        rw
          (
            read_exact-append (header_of store payload) bytes 64 (length-header_of store payload),
            read_field 4 avis_magic (magic_field store payload) (omega arith),
            read_field 2 format_version (version_field store payload) (omega arith),
          )
          refl

    read_from_few :
        (bytes : List ℕ) → length bytes < 64 → read_from json bytes ≡ err (io unexpected_eof)
    unfolding read_from
    read_from_few bytes h = rw (read_exact_short bytes 64 h) refl

    -- Every proper prefix of a file is refused with the reader's end-of-file error.
    pub read_from-prefix :
        (n : ℕ)
        → n < length (file_of json store payload)
        → read_from json (take n (file_of json store payload)) ≡ err (io unexpected_eof)
    read_from-prefix n h =
        let header = header_of store payload in
        let size : length header ≡ 64 = length-header_of store payload in
        elim (Bool-cases (ltb n 64)) [
          | inl few ↦
              read_from_few (take n (header ++ payload))
                (omega (arith, length-take n (header ++ payload), ltb→lt n 64 few))
          | inr many ↦
              let enough : 64 ≤ n = ground arith in
              rw (take-append n header payload, take_all n header (omega (arith, size)), size)
                (read_from_header (take (n - 64) payload)
                  ∙ read_payload_short (take (n - 64) payload)
                      (omega (arith, length-take (n - 64) payload, length-append header payload)))
        ]

    write_to_lem :
        (sink : Sink)
        → write_to json store sink ≡ write_parts sink (header_of store payload) payload
    unfolding write_to
    write_to_lem sink = rw (codec.writes, write_to) refl

    module _ (room : ℕ) where
      abbrev outcome : Sink × VisionResult (Unit {0})
      outcome = write_to json store (record { written = []; room = room })

      size_of : length (file_of json store payload) ≡ 64 + length payload
      size_of =
          omega
            (arith, length-append (header_of store payload) payload, length-header_of store payload)

      -- For a store whose fields fit the header's and whose payload serde_json writes and reads
      -- back in isize::MAX bytes at most: written to an empty sink that has room for the file, it
      -- is read back, and what stands behind the file is left to the reader.
      pub write-read :
          64 + length payload ≤ room
          → (rest : List ℕ)
          → (outcome.1 ≡ ok tt) × (read_from json (outcome.0.written ++ rest) ≡ ok (store, rest))
      write-read enough rest =
          let file = file_of json store payload in
          let (bytes, result) =
            write_parts_lem (record { written = []; room = room }) (header_of store payload)
              payload in
          rw write_to_lem (
            rw (result, le→leb (length file) room (omega (arith, size_of))) refl,
            rw
                (
                  bytes,
                  take_all room file (omega (arith, size_of)),
                  append_assoc (header_of store payload) payload rest,
                )
                (read_from-file json store payload widths codec rest),
          )

      -- Under the hypotheses of write-read, but with less room than the file needs, the write
      -- fails, and what it left behind is refused as cut short.
      pub write_short-read :
          room < 64 + length payload
          → (outcome.1 ≡ err (io write_failed))
            × (read_from json outcome.0.written ≡ err (io unexpected_eof))
      write_short-read less =
          let file = file_of json store payload in
          let (bytes, result) =
            write_parts_lem (record { written = []; room = room }) (header_of store payload)
              payload in
          rw write_to_lem (
            rw (result, lt→leb_false (length file) room (omega (arith, size_of))) refl,
            rw bytes (read_from-prefix room (omega (arith, size_of))),
          )
