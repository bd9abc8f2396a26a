-- ===== src/Vision/Storage/Header.antt =====
-- The header of an .avis file (crates/agentic-vision/src/storage.rs): each field stands at its
-- offset, whatever was written to the others.
use agentic_vision.Prelude.{ℕ, ◌≡◌, refl, List, length}
use agentic_vision.Prelude.Bytes.{to_le_bytes, slice}
use agentic_vision.Vision.Types.{VisualMemoryStore}
use agentic_vision.Vision.Storage.{header_of, avis_magic, format_version}

module _ (store : VisualMemoryStore) (payload : List ℕ) where
  pub length-header_of : length (header_of store payload) ≡ 64
  unfolding header_of to_le_bytes
  length-header_of = refl

  pub magic_field : slice 0 4 (header_of store payload) ≡ to_le_bytes 4 avis_magic
  unfolding header_of to_le_bytes
  magic_field = refl

  pub version_field : slice 4 6 (header_of store payload) ≡ to_le_bytes 2 format_version
  unfolding header_of to_le_bytes
  version_field = refl

  pub embedding_dim_field :
      slice 16 20 (header_of store payload) ≡ to_le_bytes 4 store.embedding_dim
  unfolding header_of to_le_bytes
  embedding_dim_field = refl

  pub session_count_field :
      slice 20 24 (header_of store payload) ≡ to_le_bytes 4 store.session_count
  unfolding header_of to_le_bytes
  session_count_field = refl

  pub created_at_field : slice 24 32 (header_of store payload) ≡ to_le_bytes 8 store.created_at
  unfolding header_of to_le_bytes
  created_at_field = refl

  pub updated_at_field : slice 32 40 (header_of store payload) ≡ to_le_bytes 8 store.updated_at
  unfolding header_of to_le_bytes
  updated_at_field = refl

  pub payload_len_field : slice 40 48 (header_of store payload) ≡ to_le_bytes 8 (length payload)
  unfolding header_of to_le_bytes
  payload_len_field = refl
