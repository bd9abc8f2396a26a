-- ===== src/Mcp/Session/Reopen.antt =====
-- Managers that are opened on what an earlier one left
-- (crates/agentic-vision-mcp/src/session/manager.rs).
use agentic_vision.Prelude.{
  ◌%◌, ℕ, ◌+◌, ◌<◌, ◌≡◌, refl, Option, none, some, List, [], Bool, true, false, arith, Bool-cases,
  inl, inr, length, leb, ◌&&◌, ◌-◌, ◌∙◌, ap,
}
use agentic_vision.Vision.Types.{F32, VisualObservation, VisualMemoryStore, u32_mod, u64_mod}
use agentic_vision.Vision.Result
use agentic_vision.Vision.Result.{VisionResult, io, unexpected_eof, write_failed}
use agentic_vision.Vision.Store
use agentic_vision.Vision.Store.Ids.{new-IsWellFormed}
use agentic_vision.Vision.Storage.{Codec, serialized, write_to, read_from}
use agentic_vision.Vision.Storage.RoundTrip.{FitsHeader, write_short-read}
use agentic_vision.Vision.Files.{FileSystem, write_to_file, read_from_file}
use agentic_vision.Vision.Files.Durable.{IsFaithful, AllFinite, encodes, write_to_file_ok}
use agentic_vision.Mcp.Types.{ok, err, vision_error}
use agentic_vision.Mcp.Session.{
  VisionSessionManager, World, CaptureResult, save, maybe_auto_save, open_store, open_manager,
  manager_of, auto_save_interval, embedding_dim, start_session, session_id_of, end_session,
  add_capture,
}
use agentic_vision.Mcp.Session.Saving.{
  then_do-left, ok-cases, save_clean, save_ok, save_err, save_panic,
}
use agentic_vision.Mcp.Session.Invariant.{IsOpen, IsStored}

module _ (json : Codec) where
  opened :
      (w : World) (memory : VisualMemoryStore)
      → open_store json w ≡ ok memory
      → open_manager json (Result.ok tt) w ≡ ok (manager_of json w memory)
  unfolding open_manager
  opened w memory e = rw (e, open_manager) refl

  read_back :
      (fs : FileSystem) (bytes : List ℕ) (memory : VisualMemoryStore)
      → fs.disk ≡ some bytes
      → read_from json bytes ≡ Result.ok (memory, [])
      → read_from_file json fs ≡ Result.ok memory
  unfolding read_from_file
  read_back fs bytes memory at_path reads = rw (at_path, read_from_file, reads) refl

  read_damaged :
      (fs : FileSystem) (bytes : List ℕ) (e : Result.VisionError)
      → fs.disk ≡ some bytes
      → read_from json bytes ≡ Result.err e
      → read_from_file json fs ≡ Result.err e
  unfolding read_from_file
  read_damaged fs bytes e at_path reads = rw (at_path, read_from_file, reads) refl

  open_file :
      (w : World) (bytes : List ℕ) (memory : VisualMemoryStore)
      → w.fs.disk ≡ some bytes
      → read_from json bytes ≡ Result.ok (memory, [])
      → open_manager json (Result.ok tt) w ≡ ok (manager_of json w memory)
  unfolding open_store
  open_file w bytes memory at_path reads =
      opened w memory (rw (at_path, open_store, read_back w.fs bytes memory at_path reads) refl)

  open_damaged :
      (w : World) (bytes : List ℕ) (e : Result.VisionError)
      → w.fs.disk ≡ some bytes
      → read_from json bytes ≡ Result.err e
      → open_manager json (Result.ok tt) w
        ≡ err (vision_error "Failed to read vision file" (some e))
  unfolding open_manager open_store
  open_damaged w bytes e at_path reads =
      let damaged : open_store json w ≡ err (vision_error "Failed to read vision file" (some e)) =
        rw (at_path, open_store, read_damaged w.fs bytes e at_path reads) refl in
      rw (damaged, open_manager) refl

  -- Without a file, where the directory can be made and the clock is below 2^64, opening starts
  -- an open manager with an empty store.
  pub open_manager-IsOpen :
      (is_finite : F32 → Bool) (w : World)
      → w.fs.disk ≡ none
      → w.fs.mkdir_succeeds ≡ true
      → w.time < u64_mod
      → (open_manager json (Result.ok tt) w
          ≡ ok (manager_of json w (Store.new embedding_dim w.time)))
        × IsOpen json is_finite (manager_of json w (Store.new embedding_dim w.time), w)
  unfolding open_store manager_of Store.new
  open_manager-IsOpen is_finite w fresh made clock = (
    opened w _ (rw (fresh, open_store, made) refl),
    record {
      well_formed = unfold Store.new in new-IsWellFormed embedding_dim w.time;
      fits = record {
        embedding_dim = omega arith;
        session_count = omega arith;
        created_at = clock;
        updated_at = clock;
      };
      finite = tt;
      session = omega arith;
      clock = clock;
      synced = λ _. rw fresh refl;
    },
  )

  -- An open manager that is not dirty and has a file can be given up without loss: the file
  -- opens, and the new manager has the same store up to the count of the sessions.
  pub reopen_clean :
      (is_finite : F32 → Bool) (m : VisionSessionManager) (w : World) (bytes : List ℕ)
      → IsOpen json is_finite (m, w)
      → m.dirty ≡ false
      → w.fs.disk ≡ some bytes
      → (m' : VisionSessionManager) × (open_manager json (Result.ok tt) w ≡ ok m')
        × (m.store ≡ record m'.store { session_count = m.store.session_count })
  reopen_clean is_finite m w bytes h clean at_path =
      let found : IsStored json m.store bytes = rw at_path at (h.synced clean) in
      (
        manager_of json w found.stored,
        open_file w bytes found.stored at_path found.reads,
        unfold manager_of in found.same,
      )

  module _ (is_finite : F32 → Bool) (faithful : IsFaithful json is_finite)
      (m : VisionSessionManager) (w : World) (fits : FitsHeader m.store)
      (finite : AllFinite is_finite m.store) (dirty : m.dirty ≡ true) where
    -- If serde_json reads back what it writes of stores with finite embeddings, and a dirty
    -- manager's store has such and fits the header: a save that succeeds can be opened again. The
    -- new manager has the same store, its session is the number of sessions that the store counts
    -- and one more, with the wrap-around of a u32, and neither it nor the old manager is dirty.
    pub save-open :
        (save json m w).result ≡ ok tt
        → (m' : VisionSessionManager) × (open_manager json (Result.ok tt) (save json m w).world
            ≡ ok m')
          × (m'.store ≡ m.store)
          × (m'.current_session ≡ (m.store.session_count + 1) % u32_mod)
          × (m'.dirty ≡ false)
          × ((save json m w).manager.dirty ≡ false)
    save-open h = elim (ok-cases (write_to_file json m.store w.fs).1) [
      | inl (u, e) ↦
          let (bytes, on_disk, reads) =
            write_to_file_ok json is_finite faithful m.store fits finite w.fs e in
          rw (save_ok json m w dirty e) (
            manager_of json (record w { fs = (write_to_file json m.store w.fs).0 }) m.store,
            open_file (record w { fs = (write_to_file json m.store w.fs).0 }) bytes m.store on_disk
                reads,
            unfold manager_of in refl,
            unfold manager_of in refl,
            unfold manager_of in refl,
            refl,
          )
      | inr (inl (f, e)) ↦ absurd (cc (let k = rw (save_err json m w f dirty e) at h in k))
      | inr (inr e) ↦ absurd (cc (let k = rw (save_panic json m w dirty e) at h in k))
    ]

    cut_short :
        (payload : List ℕ)
        → w.fs.mkdir_succeeds ≡ true
        → w.fs.create_succeeds ≡ true
        → json.to_vec (serialized m.store) ≡ some payload
        → w.fs.room < 64 + length payload
        → (bytes : List ℕ) × ((write_to_file json m.store w.fs).1 ≡ Result.err (io write_failed))
          × ((write_to_file json m.store w.fs).0.disk ≡ some bytes)
          × (read_from json bytes ≡ Result.err (io unexpected_eof))
    unfolding write_to_file
    cut_short payload made created e less =
        let (fails, reads) =
          write_short-read json m.store payload fits
            (encodes json is_finite faithful m.store fits finite payload e) w.fs.room less in
        (
          (write_to json m.store (record { written = []; room = w.fs.room })).0.written,
          simp (made, created, fails),
          simp (made, created),
          reads,
        )

    -- Under the same hypotheses, a save that finds the directory and creates the file but has no
    -- room for it fails. The manager stays dirty with its store, but whatever the file held
    -- before is gone: what is there now is cut short, and opening it fails.
    pub save_short-open :
        (payload : List ℕ)
        → w.fs.mkdir_succeeds ≡ true
        → w.fs.create_succeeds ≡ true
        → json.to_vec (serialized m.store) ≡ some payload
        → w.fs.room < 64 + length payload
        → ((save json m w).manager ≡ m)
          × ((save json m w).result
              ≡ err (vision_error "Failed to write vision file" (some (io write_failed))))
          × (open_manager json (Result.ok tt) (save json m w).world
              ≡ err (vision_error "Failed to read vision file" (some (io unexpected_eof))))
    save_short-open payload made created e less =
        let (bytes, fails, on_disk, reads) = cut_short payload made created e less in
        rw (save_err json m w (io write_failed) dirty fails) (
          refl,
          refl,
          open_damaged (record w { fs = (write_to_file json m.store w.fs).0 }) bytes
              (io unexpected_eof) on_disk reads,
        )

  -- A session that is started and ended on a manager that is not dirty leaves no trace in the
  -- world: both calls succeed, and nothing is written.
  pub start-end_world :
      (m : VisionSessionManager) (w : World) (id : Option ℕ)
      → m.dirty ≡ false
      → ((start_session json m w id).result ≡ ok (session_id_of json m id))
        × ((end_session json (start_session json m w id).manager w).result
            ≡ ok (session_id_of json m id))
        × ((end_session json (start_session json m w id).manager w).world ≡ w)
  unfolding start_session end_session
  start-end_world m w id clean =
      rw (save_clean json (start_session json m w id).manager w clean) (refl, refl, refl)

  save-store : (m : VisionSessionManager) (w : World) → (save json m w).manager.store ≡ m.store
  unfolding save
  save-store m w = elim (Bool-cases m.dirty) [
    | inr clean ↦ rw (save_clean json m w clean) refl
    | inl d ↦ elim (ok-cases (write_to_file json m.store w.fs).1) [
      | inl (u, e) ↦ rw (save_ok json m w d e) refl
      | inr (inl (f, e)) ↦ rw (save_err json m w f d e) refl
      | inr (inr e) ↦ rw (save_panic json m w d e) refl
    ]
  ]

  maybe_auto_save-store :
      (m : VisionSessionManager) (w : World) → (maybe_auto_save json m w).manager.store ≡ m.store
  unfolding maybe_auto_save
  maybe_auto_save-store m w =
      elim (Bool-cases (m.dirty && leb auto_save_interval (w.instant - m.last_save))) [
        | inl e ↦ rw e (save-store m w)
        | inr e ↦ rw e refl
      ]

  -- The capture is in the store whatever becomes of the automatic save: with its error, too.
  pub add_capture-store :
      (m : VisionSessionManager) (w : World) (obs : VisualObservation) (dimensions : ℕ × ℕ)
      → (add_capture json m w obs dimensions).manager.store ≡ (Store.add m.store obs w.time).0
  unfolding add_capture
  add_capture-store m w obs dimensions =
      let (memory, id) = Store.add m.store obs w.time in
      let added = record m { store = memory; dirty = true } in
      ap (λ (t : VisionSessionManager). t.store)
        (then_do-left {B = CaptureResult} (maybe_auto_save json added w) (λ _. ok (record {
          capture_id = id;
          timestamp = w.time;
          width = dimensions.0;
          height = dimensions.1;
          embedding_dims = embedding_dim;
        }))).0
      ∙ maybe_auto_save-store added w
