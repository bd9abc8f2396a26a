-- ===== src/Mcp/Session/Invariant.antt =====
-- The invariant of a session manager (crates/agentic-vision-mcp/src/session/manager.rs): a manager
-- that is not dirty has on disk what it holds.
use agentic_vision.Prelude.{
  ℕ, ◌+◌, ◌<◌, ◌≡◌, refl, Option, none, some, List, [], ◌∷◌, Bool, true, false, arith, Bool-cases,
  inl, inr, leb, ◌&&◌, ◌-◌, String, All, All-append, ◌==◌, ap, Option-cases,
}
use agentic_vision.Vision.Types.{
  F32, CaptureSource, VisualObservation, VisualMemoryStore, u32_mod, u64_mod,
}
use agentic_vision.Vision.Result
use agentic_vision.Vision.Result.{VisionResult}
use agentic_vision.Vision.Store
use agentic_vision.Vision.Store.Ids.{IsWellFormed, add-IsWellFormed, get_mut-IsWellFormed}
use agentic_vision.Vision.Storage.{Codec, read_from}
use agentic_vision.Vision.Storage.RoundTrip.{FitsHeader}
use agentic_vision.Vision.Files.{write_to_file}
use agentic_vision.Vision.Files.Durable.{IsFaithful, AllFinite, write_to_file_ok}
use agentic_vision.Mcp.Types.{ok}
use agentic_vision.Mcp.Session.{
  VisionSessionManager, World, Outcome, Picture, CaptureResult, save, maybe_auto_save,
  auto_save_interval, embedding_dim, start_session, session_id_of, end_session, add_capture,
  observation_of, store_capture, link,
}
use agentic_vision.Mcp.Session.Saving.{
  then_do-left, ok-cases, save_clean, save_ok, save_err, save_panic,
}

-- A call of the manager, or what the world does between two calls.
pub data Operation : Type 0 where
  start : Option ℕ → Operation
  end : Operation
  store : Picture → CaptureSource → List String → Option String → Operation
  link_to : (capture_id memory_node_id : ℕ) → Operation
  pass : (instant time : ℕ) (mkdir_succeeds create_succeeds : Bool) (room : ℕ) → Operation

abbrev pub State : Type 0
State = VisionSessionManager × World

abbrev pub left_by {ℓ} : {A : Type ℓ} → Outcome A → State
left_by o = (o.manager, o.world)

-- What stands in the file, up to the count of the sessions.
pub record IsStored (json : Codec) (memory : VisualMemoryStore) (bytes : List ℕ) : Type 0 where
  pub stored : VisualMemoryStore
  pub reads : read_from json bytes ≡ Result.ok (stored, [])
  pub same : memory ≡ record stored { session_count = memory.session_count }

abbrev linked_to : ℕ → VisualObservation → VisualObservation
linked_to node o = record o { memory_link = some node }

All-updated :
    (P : VisualObservation → Type 0) (f : VisualObservation → VisualObservation)
    → ((o : VisualObservation) → P o → P (f o))
    → (id : ℕ) (os : List VisualObservation) → All P os
    → All P (Store.update_first f id os)
unfolding Store.update_first
All-updated P f keeps id [] h = tt
All-updated P f keeps id (o ∷ os) h = elim (Bool-cases (o.id == id)) [
  | inl e ↦ rw e (keeps o h.0, h.1)
  | inr e ↦ rw e (h.0, All-updated P f keeps id os h.1)
]

module _ (json : Codec) where
  unfoldable pub run : Operation → State → State
  run (start id) s = left_by (start_session json s.0 s.1 id)
  run end s = left_by (end_session json s.0 s.1)
  run (store img source labels description) s =
      left_by (store_capture json s.0 s.1 img source labels description)
  run (link_to capture_id node) s = left_by (link json s.0 s.1 capture_id node)
  run (pass instant time mkdir create room) s = (
    s.0,
    record s.1 {
      fs = record s.1.fs { mkdir_succeeds = mkdir; create_succeeds = create; room = room };
      instant = instant;
      time = time;
    },
  )

  unfoldable pub run_all : List Operation → State → State
  run_all [] s = s
  run_all (o ∷ os) s = run_all os (run o s)

  module _ (is_finite : F32 → Bool) where
    -- What the Rust types of the arguments promise, and that the model returns finite numbers.
    abbrev pub InRange : Operation → Type 0
    InRange (start none) = Unit
    InRange (start (some id)) = id < u32_mod
    InRange end = Unit
    InRange (store img source labels description) =
        (e : List F32) → img.embedded ≡ Result.ok e → All (λ x. is_finite x ≡ true) e
    InRange (link_to capture_id node) = Unit
    InRange (pass instant time mkdir create room) = time < u64_mod

    -- The file holds the store, or there is no file and nothing was captured.
    abbrev pub OnDisk : VisualMemoryStore → Option (List ℕ) → Type 0
    OnDisk memory none = memory.observations ≡ []
    OnDisk memory (some bytes) = IsStored json memory bytes

    pub record IsOpen (s : State) : Type 0 where
      pub well_formed : IsWellFormed s.0.store
      pub fits : FitsHeader s.0.store
      pub finite : AllFinite is_finite s.0.store
      pub session : s.0.current_session < u32_mod
      pub clock : s.1.time < u64_mod
      pub synced : s.0.dirty ≡ false → OnDisk s.0.store s.1.fs.disk

    -- At each state on the way the arguments are in range and an id is left.
    abbrev pub Within : List Operation → State → Type 0
    Within [] s = Unit
    Within (o ∷ os) s = InRange o × (s.0.store.next_id + 1 < u64_mod) × Within os (run o s)

    OnDisk-counted :
        (memory : VisualMemoryStore) (n : ℕ) (disk : Option (List ℕ))
        → OnDisk memory disk
        → OnDisk (record memory { session_count = n }) disk
    OnDisk-counted memory n none h = h
    OnDisk-counted memory n (some bytes) h = record {
      stored = h.stored;
      reads = h.reads;
      same = ap (λ (t : VisualMemoryStore). record t { session_count = n }) h.same;
    }

    session_id_of-InRange :
        (m : VisionSessionManager) (id : Option ℕ)
        → InRange (start id)
        → session_id_of json m id < u32_mod
    unfolding session_id_of
    session_id_of-InRange m none r = omega arith
    session_id_of-InRange m (some id) r = r

    module _ (faithful : IsFaithful json is_finite) where
      save-IsOpen :
          (m : VisionSessionManager) (w : World) → IsOpen (m, w) → IsOpen (left_by (save json m w))
      save-IsOpen m w h = elim (Bool-cases m.dirty) [
        | inr clean ↦ rw (save_clean json m w clean) h
        | inl d ↦ elim (ok-cases (write_to_file json m.store w.fs).1) [
          | inl (u, e) ↦
              let (bytes, on_disk, reads) =
                write_to_file_ok json is_finite faithful m.store h.fits h.finite w.fs e in
              rw (save_ok json m w d e) (record {
                well_formed = h.well_formed;
                fits = h.fits;
                finite = h.finite;
                session = h.session;
                clock = h.clock;
                synced = λ _. rw on_disk (record { stored = m.store; reads = reads; same = refl });
              })
          | inr (inl (f, e)) ↦ rw (save_err json m w f d e) (record {
            well_formed = h.well_formed;
            fits = h.fits;
            finite = h.finite;
            session = h.session;
            clock = h.clock;
            synced = λ c. absurd (cc (c, d));
          })
          | inr (inr e) ↦ rw (save_panic json m w d e) (record {
            well_formed = h.well_formed;
            fits = h.fits;
            finite = h.finite;
            session = h.session;
            clock = h.clock;
            synced = λ c. absurd (cc (c, d));
          })
        ]
      ]

      start-IsOpen :
          (m : VisionSessionManager) (w : World) (id : Option ℕ)
          → InRange (start id)
          → IsOpen (m, w)
          → IsOpen (left_by (start_session json m w id))
      unfolding start_session
      start-IsOpen m w id r h =
          let next : session_id_of json m id < u32_mod = session_id_of-InRange m id r in
          record {
            well_formed = record {
              positive = h.well_formed.positive;
              bounded = h.well_formed.bounded;
              increasing = h.well_formed.increasing;
              next_positive = h.well_formed.next_positive;
            };
            fits = record {
              embedding_dim = h.fits.embedding_dim;
              session_count = omega (arith, h.fits.session_count, next);
              created_at = h.fits.created_at;
              updated_at = h.fits.updated_at;
            };
            finite = h.finite;
            session = next;
            clock = h.clock;
            synced = λ c. OnDisk-counted m.store _ w.fs.disk (h.synced c);
          }

      end-IsOpen :
          (m : VisionSessionManager) (w : World)
          → IsOpen (m, w)
          → IsOpen (left_by (end_session json m w))
      unfolding end_session
      end-IsOpen m w h =
          let (at_manager, at_world) = then_do-left (save json m w) (λ _. ok m.current_session) in
          rw (at_manager, at_world) (save-IsOpen m w h)

      maybe_auto_save-IsOpen :
          (m : VisionSessionManager) (w : World)
          → IsOpen (m, w)
          → IsOpen (left_by (maybe_auto_save json m w))
      unfolding maybe_auto_save
      maybe_auto_save-IsOpen m w h =
          elim (Bool-cases (m.dirty && leb auto_save_interval (w.instant - m.last_save))) [
            | inl e ↦ rw e (save-IsOpen m w h)
            | inr e ↦ rw e h
          ]

      -- The manager with the observation, before the automatic save.
      added-IsOpen :
          (m : VisionSessionManager) (w : World) (obs : VisualObservation)
          → All (λ x. is_finite x ≡ true) obs.embedding
          → m.store.next_id + 1 < u64_mod
          → IsOpen (m, w)
          → IsOpen (record m { store = (Store.add m.store obs w.time).0; dirty = true }, w)
      unfolding Store.add
      added-IsOpen m w obs finite room h = record {
        well_formed = unfold Store.add in add-IsWellFormed m.store obs w.time h.well_formed room;
        fits = record {
          embedding_dim = h.fits.embedding_dim;
          session_count = h.fits.session_count;
          created_at = h.fits.created_at;
          updated_at = h.clock;
        };
        finite = All-append _ m.store.observations _ h.finite (finite, tt);
        session = h.session;
        clock = h.clock;
        synced = λ c. absurd (cc c);
      }

      add_capture-IsOpen :
          (m : VisionSessionManager) (w : World) (obs : VisualObservation) (dimensions : ℕ × ℕ)
          → All (λ x. is_finite x ≡ true) obs.embedding
          → m.store.next_id + 1 < u64_mod
          → IsOpen (m, w)
          → IsOpen (left_by (add_capture json m w obs dimensions))
      unfolding add_capture
      add_capture-IsOpen m w obs dimensions finite room h =
          let (memory, id) = Store.add m.store obs w.time in
          let (at_manager, at_world) =
            then_do-left {B = CaptureResult}
              (maybe_auto_save json (record m { store = memory; dirty = true }) w)
              (λ _. ok (record {
                capture_id = id;
                timestamp = w.time;
                width = dimensions.0;
                height = dimensions.1;
                embedding_dims = embedding_dim;
              })) in
          rw (at_manager, at_world)
            (maybe_auto_save-IsOpen (record m { store = memory; dirty = true }) w
              (added-IsOpen m w obs finite room h))

      store-IsOpen :
          (m : VisionSessionManager) (w : World) (img : Picture) (source : CaptureSource)
          (labels : List String) (description : Option String)
          → InRange (store img source labels description)
          → m.store.next_id + 1 < u64_mod
          → IsOpen (m, w)
          → IsOpen (left_by (store_capture json m w img source labels description))
      unfolding store_capture
      store-IsOpen m w img source labels description r room h =
          elim (Option-cases img.thumbnail_dimensions) [
            | inl e ↦ rw (e, store_capture) h
            | inr (thumb, e) ↦ elim (ok-cases img.embedded) [
              | inl (embedding, f) ↦
                  rw (e, f, store_capture)
                    (add_capture-IsOpen m w
                      (observation_of json m w img source labels description thumb embedding)
                      img.dimensions (unfold observation_of in r embedding f) room h)
              | inr (inl (err', f)) ↦ rw (e, f, store_capture) h
              | inr (inr f) ↦ rw (e, f, store_capture) h
            ]
          ]

      link-IsOpen :
          (m : VisionSessionManager) (w : World) (capture_id node : ℕ)
          → IsOpen (m, w)
          → IsOpen (left_by (link json m w capture_id node))
      unfolding link
      link-IsOpen m w capture_id node h = elim (Option-cases (Store.get m.store capture_id)) [
        | inl e ↦ rw (e, link) h
        | inr (obs, e) ↦
            rw (e, link)
              (record {
                well_formed =
                    get_mut-IsWellFormed (linked_to node) (λ o. refl) capture_id m.store
                      h.well_formed;
                fits =
                    unfold Store.get_mut in
                    (record {
                      embedding_dim = h.fits.embedding_dim;
                      session_count = h.fits.session_count;
                      created_at = h.fits.created_at;
                      updated_at = h.fits.updated_at;
                    });
                finite =
                    unfold Store.get_mut in
                    All-updated _ (linked_to node) (λ o p. p) capture_id m.store.observations
                      h.finite;
                session = h.session;
                clock = h.clock;
                synced = λ c. absurd (cc c);
              })
      ]

      run-IsOpen :
          (o : Operation) (s : State)
          → InRange o
          → s.0.store.next_id + 1 < u64_mod
          → IsOpen s
          → IsOpen (run o s)
      unfolding run
      run-IsOpen (start id) (m, w) r room h = start-IsOpen m w id r h
      run-IsOpen end (m, w) r room h = end-IsOpen m w h
      run-IsOpen (store img source labels description) (m, w) r room h =
          store-IsOpen m w img source labels description r room h
      run-IsOpen (link_to capture_id node) (m, w) r room h = link-IsOpen m w capture_id node h
      run-IsOpen (pass instant time mkdir create room') (m, w) r room h = record {
        well_formed = h.well_formed;
        fits = h.fits;
        finite = h.finite;
        session = h.session;
        clock = r;
        synced = h.synced;
      }

      -- If serde_json reads back what it writes of stores with finite embeddings, any sequence of
      -- sessions, captures, links, ends and changes of the world keeps the invariant of an open
      -- manager, also when a write to the disk fails part of the way, as long as the arguments
      -- are in the range of their types, the model returns finite embeddings and the ids do not
      -- run out. The invariant: ids are distinct and below the next one, and a manager that is
      -- not dirty has on disk what it holds, up to the count of the sessions, or there is no file
      -- and nothing was captured.
      pub run_all-IsOpen :
          (os : List Operation) (s : State) → Within os s → IsOpen s → IsOpen (run_all os s)
      unfolding run_all
      run_all-IsOpen [] s r h = h
      run_all-IsOpen (o ∷ os) s r h = run_all-IsOpen os (run o s) (r.2) (run-IsOpen o s r.0 r.1 h)
