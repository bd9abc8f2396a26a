-- ===== src/Mcp/Session/Examples.antt =====
-- Tests of the session manager (crates/agentic-vision-mcp/src/session/manager.rs), and the theorems
-- at concrete inputs.
use agentic_vision.Prelude.{
  ℕ, ◌+◌, ◌%◌, ◌≡◌, refl, All, Option, none, some, List, [], ◌∷◌, Bool, true, false, arith, retain,
  ◌==◌, if◌then◌else◌,
}
use agentic_vision.Prelude.Bytes.{to_le_bytes}
use agentic_vision.Vision.Types.{VisualObservation, VisualMemoryStore, clipboard, u32_mod}
use agentic_vision.Vision.Result
use agentic_vision.Vision.Result.{io, unexpected_eof, write_failed}
use agentic_vision.Vision.Store
use agentic_vision.Vision.Store.Ids.{IsWellFormed}
use agentic_vision.Vision.Diff.{GrayImage, compute_diff}
use agentic_vision.Vision.Diff.Examples.{grey_images, permille, stripe}
use agentic_vision.Vision.Similarity.{find_similar}
use agentic_vision.Vision.Similarity.Ranking.{other_observation}
use agentic_vision.Vision.Similarity.Examples.{whole, whole-FloatOrder, corpus}
use agentic_vision.Vision.Storage.{serialized, write_to, write_parts, write_all, header_of}
use agentic_vision.Vision.Storage.RoundTrip.{FitsHeader}
use agentic_vision.Vision.Files.{write_to_file}
use agentic_vision.Vision.Files.Plain.{plain, plain_codec, plain_codec-IsFaithful}
use agentic_vision.Mcp.Types.{ok, err, vision_error, capture_not_found}
use agentic_vision.Mcp.Session.{
  VisionSessionManager, World, Picture, done, save, open_manager, manager_of, start_session,
  session_id_of, end_session, add_capture, link, maybe_auto_save, store_capture, observation_of,
}
use agentic_vision.Mcp.Session.Reads.{similar_captures, both, diff_thumbnails, diff_captures}
use agentic_vision.Mcp.Session.Invariant.{
  Operation, start, end, store, link_to, State, run, run_all, IsOpen, Within, run_all-IsOpen,
}
use agentic_vision.Mcp.Session.Reopen.{
  open_manager-IsOpen, reopen_clean, save-open, save_short-open, start-end_world, add_capture-store,
}
use agentic_vision.Mcp.Session.Queries.{
  similar_captures-find_similar, link-get, diff_captures_symmetric,
}

abbrev any_float : ℕ → Bool
any_float x = true

abbrev world : Option (List ℕ) → ℕ → World
world disk room = record {
  fs = record { disk = disk; mkdir_succeeds = true; create_succeeds = true; room = room };
  instant = 5000;
  time = 1708345678;
}

abbrev shot_store : VisualMemoryStore
shot_store = record {
  observations = plain 1 100 1 512 288 1920 1080 0 ∷ [];
  embedding_dim = 512;
  next_id = 2;
  session_count = 1;
  created_at = 90;
  updated_at = 100;
}

abbrev manager : Bool → VisionSessionManager
manager dirty = record { store = shot_store; current_session = 1; dirty = dirty; last_save = 0 }

abbrev fresh : VisionSessionManager
fresh = record {
  store = record {
    observations = [];
    embedding_dim = 512;
    next_id = 1;
    session_count = 0;
    created_at = 1708345678;
    updated_at = 1708345678;
  };
  current_session = 1;
  dirty = false;
  last_save = 5000;
}

abbrev picture : Picture
picture = record {
  dimensions = (1920, 1080);
  thumbnail = [];
  thumbnail_dimensions = some (512, 288);
  embedded = Result.ok [];
}

abbrev calls : List Operation
calls = start none ∷ store picture clipboard [] none ∷ link_to 1 7 ∷ end ∷ []

shot_store-FitsHeader : FitsHeader shot_store
shot_store-FitsHeader = omega arith

fresh-IsOpen : IsOpen plain_codec any_float (fresh, world none 1000)
unfolding manager_of Store.new
fresh-IsOpen =
    (open_manager-IsOpen plain_codec any_float (world none 1000) refl refl (omega arith)).1

All-any : (xs : List ℕ) → All (λ x. any_float x ≡ true) xs
All-any [] = tt
All-any (x ∷ xs) = (refl, All-any xs)

calls-Within : Within plain_codec any_float calls (fresh, world none 1000)
unfolding run start_session end_session store_capture add_capture observation_of link
    maybe_auto_save save Store.add Store.get Store.get_mut Store.update_first
calls-Within =
    (tt, omega arith, ((λ e _. All-any e), omega arith, (tt, omega arith, (tt, omega arith, tt))))

abbrev after_calls : State
after_calls = run_all plain_codec calls (fresh, world none 1000)

reopen_clean_example :
    (m' : VisionSessionManager) × (open_manager plain_codec (Result.ok tt) after_calls.1 ≡ ok m')
    × (after_calls.0.store ≡ record m'.store { session_count = after_calls.0.store.session_count })
unfolding run_all run start_session end_session store_capture add_capture observation_of link
    maybe_auto_save save Store.add Store.get Store.get_mut Store.update_first write_to_file write_to
    write_parts write_all header_of serialized to_le_bytes
reopen_clean_example =
    reopen_clean plain_codec any_float after_calls.0 after_calls.1 _
      (run_all-IsOpen plain_codec any_float (plain_codec-IsFaithful any_float) calls
        (fresh, world none 1000) calls-Within fresh-IsOpen)
      refl refl

run_all-IsOpen_example :
    IsOpen plain_codec any_float (run_all plain_codec calls (fresh, world none 1000))
run_all-IsOpen_example =
    run_all-IsOpen plain_codec any_float (plain_codec-IsFaithful any_float) calls
      (fresh, world none 1000) calls-Within fresh-IsOpen

save-open_example :
    (m' : VisionSessionManager) × (open_manager plain_codec
        (Result.ok tt)
        (save plain_codec (manager true) (world none 1000)).world
      ≡ ok m')
    × (m'.store ≡ shot_store)
    × (m'.current_session ≡ (shot_store.session_count + 1) % u32_mod)
    × (m'.dirty ≡ false)
    × ((save plain_codec (manager true) (world none 1000)).manager.dirty ≡ false)
unfolding save write_to_file write_to write_parts write_all header_of serialized to_le_bytes
save-open_example =
    save-open plain_codec any_float (plain_codec-IsFaithful any_float) (manager true)
      (world none 1000) shot_store-FitsHeader (tt, tt) refl refl

save_short-open_example :
    ((save plain_codec (manager true) (world none 70)).manager ≡ manager true)
    × ((save plain_codec (manager true) (world none 70)).result
        ≡ err (vision_error "Failed to write vision file" (some (io write_failed))))
    × (open_manager plain_codec
          (Result.ok tt)
          (save plain_codec (manager true) (world none 70)).world
        ≡ err (vision_error "Failed to read vision file" (some (io unexpected_eof))))
unfolding serialized
save_short-open_example =
    save_short-open plain_codec any_float (plain_codec-IsFaithful any_float) (manager true)
      (world none 70) shot_store-FitsHeader (tt, tt) refl _ refl refl refl (omega arith)

start-end_world_example :
    ((start_session plain_codec (manager false) (world none 1000) none).result
      ≡ ok (session_id_of plain_codec (manager false) none))
    × ((end_session plain_codec
          (start_session plain_codec (manager false) (world none 1000) none).manager
          (world none 1000)).result
        ≡ ok (session_id_of plain_codec (manager false) none))
    × ((end_session plain_codec
          (start_session plain_codec (manager false) (world none 1000) none).manager
          (world none 1000)).world
        ≡ world none 1000)
start-end_world_example = start-end_world plain_codec (manager false) (world none 1000) none refl

add_capture-store_example :
    (add_capture plain_codec
      (manager true)
      (world none 10)
      (plain 0 300 1 1 1 1 1 0)
      (1, 1)).manager.store
    ≡ (Store.add shot_store (plain 0 300 1 1 1 1 1 0) 1708345678).0
add_capture-store_example =
    add_capture-store plain_codec (manager true) (world none 10) (plain 0 300 1 1 1 1 1 0) (1, 1)

abbrev corpus_manager : VisionSessionManager
corpus_manager = record (manager true) {
  store = record shot_store { observations = corpus; next_id = 5 };
}

corpus-IsWellFormed : IsWellFormed corpus_manager.store
corpus-IsWellFormed = omega arith

similar_captures-find_similar_example :
    similar_captures whole corpus_manager 1 2 10
    ≡ ok (find_similar whole (1 ∷ 0 ∷ []) (retain (other_observation 1) corpus) 2 10)
unfolding Store.get
similar_captures-find_similar_example =
    similar_captures-find_similar whole whole-FloatOrder corpus_manager 1 2 10 _ corpus-IsWellFormed
      (omega arith) refl

link-get_example :
    (Store.get shot_store 1 ≡ none
      → link plain_codec (manager false) (world none 1000) 1 7
        ≡ done (manager false) (world none 1000) (err (capture_not_found 1)))
    × ((obs : VisualObservation)
        → Store.get shot_store 1 ≡ some obs
        → ((link plain_codec (manager false) (world none 1000) 1 7).result ≡ ok tt)
          × ((link plain_codec (manager false) (world none 1000) 1 7).manager.dirty ≡ true)
          × (Store.get (link plain_codec (manager false) (world none 1000) 1 7).manager.store 2 ≡ (
              if 1 == 2
              then some (record obs { memory_link = some 7 })
              else Store.get shot_store 2)))
link-get_example = link-get plain_codec (manager false) (world none 1000) 1 7 2

abbrev two_captures : VisionSessionManager
two_captures = record (manager false) {
  store = record shot_store {
    observations =
        plain 1 100 1 512 288 1920 1080 0
        ∷ record (plain 2 120 1 512 288 1920 1080 0) { thumbnail = 1 ∷ [] }
        ∷ [];
  };
}

-- A thumbnail of one byte is a striped image, another is plain.
abbrev load_stripes : List ℕ → Option GrayImage
load_stripes [] = some (stripe 100 8 50)
load_stripes (b ∷ bs) = some (stripe 90 8 60)

diff_captures_symmetric_example :
    diff_captures grey_images permille load_stripes two_captures 2 1
    ≡ ok (record (compute_diff grey_images permille 1 2 (stripe 100 8 50) (stripe 90 8 60)) {
      before_id = 2;
      after_id = 1;
    })
unfolding diff_captures diff_thumbnails both Store.get
diff_captures_symmetric_example =
    diff_captures_symmetric grey_images permille load_stripes two_captures 1 2
      (compute_diff grey_images permille 1 2 (stripe 100 8 50) (stripe 90 8 60)) refl
