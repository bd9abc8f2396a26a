-- ===== src/Mcp/Session/Saving.antt =====
-- What `save` and the methods that call it leave behind
-- (crates/agentic-vision-mcp/src/session/manager.rs).
use agentic_vision.Prelude.{◌≡◌, refl, some, true, false, inl, inr, ◌⊎◌}
use agentic_vision.Vision.Result
use agentic_vision.Vision.Result.{VisionResult, io, unexpected_eof, write_failed}
use agentic_vision.Vision.Storage.{Codec}
use agentic_vision.Vision.Files.{FileSystem, write_to_file}
use agentic_vision.Mcp.Types.{McpResult, ok, err, panic, vision_error}
use agentic_vision.Mcp.Session.{VisionSessionManager, World, Outcome, done, then_do, save}

-- A method that only reports after a save leaves what the save left.
then_do_left {ℓ} :
    {A : Type ℓ} {B : Type 0} (m : VisionSessionManager) (w : World) (r : McpResult A)
    (g : A → McpResult B)
    → ((then_do (done m w r) (λ a m' w'. done m' w' (g a))).manager ≡ m)
      × ((then_do (done m w r) (λ a m' w'. done m' w' (g a))).world ≡ w)
then_do_left m w (ok a) g = (refl, refl)
then_do_left m w (err e) g = (refl, refl)
then_do_left m w panic g = (refl, refl)

pub then_do-left {ℓ} :
    {A : Type ℓ} {B : Type 0} (o : Outcome A) (g : A → McpResult B)
    → ((then_do o (λ a m' w'. done m' w' (g a))).manager ≡ o.manager)
      × ((then_do o (λ a m' w'. done m' w' (g a))).world ≡ o.world)
then_do-left o g = then_do_left o.manager o.world o.result g

pub ok-cases {ℓ} :
    {A : Type ℓ} (r : VisionResult A)
    → ((a : A) × (r ≡ Result.ok a))
      ⊎ ((e : Result.VisionError) × (r ≡ Result.err e))
      ⊎ (r ≡ Result.panic)
ok-cases (Result.ok a) = inl (a, refl)
ok-cases (Result.err e) = inr (inl (e, refl))
ok-cases Result.panic = inr (inr refl)

module _ (json : Codec) (m : VisionSessionManager) (w : World) where
  abbrev written : FileSystem
  written = (write_to_file json m.store w.fs).0

  abbrev cleaned : VisionSessionManager
  cleaned = record m { dirty = false; last_save = w.instant }

  pub save_clean : m.dirty ≡ false → save json m w ≡ done m w (ok tt)
  unfolding save
  save_clean e = rw e refl

  pub save_ok :
      m.dirty ≡ true
      → (write_to_file json m.store w.fs).1 ≡ Result.ok tt
      → save json m w ≡ done cleaned (record w { fs = written }) (ok tt)
  unfolding save
  save_ok d e = rw (d, e) refl

  pub save_err :
      (e : Result.VisionError)
      → m.dirty ≡ true
      → (write_to_file json m.store w.fs).1 ≡ Result.err e
      → save json m w
        ≡ done m
            (record w { fs = written })
            (err (vision_error "Failed to write vision file" (some e)))
  unfolding save
  save_err e' d e = simp (d, e)

  pub save_panic :
      m.dirty ≡ true
      → (write_to_file json m.store w.fs).1 ≡ Result.panic
      → save json m w ≡ done m (record w { fs = written }) panic
  unfolding save
  save_panic d e = simp (d, e)
