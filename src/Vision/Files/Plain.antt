-- ===== src/Vision/Files/Plain.antt =====
-- A codec for tests of what is saved (crates/agentic-vision/src/storage.rs): it writes stores whose
-- observations come from the clipboard and have no embedding, no thumbnail, no labels and no
-- description, eight numbers each, and refuses the others.
use agentic_vision.Prelude.{
  ℕ, zero, suc, ◌≤◌, ◌≡◌, refl, subst, String, Option, none, some, List, [], ◌∷◌, Bool, true, false,
  arith, Bool-cases, inl, inr, if◌then◌else◌, ◌&&◌, leb, length, leb→le, ap,
}
use mathlib.Core.Option
use agentic_vision.Vision.Types.{F32, CaptureSource, clipboard, VisualObservation}
use agentic_vision.Vision.Storage.{Codec, SerializedStore, serialized, isize_max}
use agentic_vision.Vision.Files.Durable.{IsFaithful}

abbrev pub is_plain_of : CaptureSource → List F32 → List ℕ → List String → Option String → Bool
is_plain_of clipboard [] [] [] none = true
is_plain_of _ _ _ _ _ = false

abbrev pub is_plain : VisualObservation → Bool
is_plain o = is_plain_of o.source o.embedding o.thumbnail o.metadata.labels o.metadata.description

abbrev pub are_plain : List VisualObservation → Bool
are_plain [] = true
are_plain (o ∷ os) = is_plain o && are_plain os

abbrev pub link_number : Option ℕ → ℕ
link_number none = 0
link_number (some n) = suc n

abbrev pub link_of : ℕ → Option ℕ
link_of zero = none
link_of (suc n) = some n

abbrev pub encode : List VisualObservation → List ℕ
encode [] = []
encode (o ∷ os) =
    o.id
    ∷ o.timestamp
    ∷ o.session_id
    ∷ o.metadata.width
    ∷ o.metadata.height
    ∷ o.metadata.original_width
    ∷ o.metadata.original_height
    ∷ link_number o.memory_link
    ∷ encode os

abbrev pub plain : ℕ → ℕ → ℕ → ℕ → ℕ → ℕ → ℕ → ℕ → VisualObservation
plain id timestamp session_id width height original_width original_height link = record {
  id = id;
  timestamp = timestamp;
  session_id = session_id;
  source = clipboard;
  embedding = [];
  thumbnail = [];
  metadata = record {
    width = width;
    height = height;
    original_width = original_width;
    original_height = original_height;
    labels = [];
    description = none;
  };
  memory_link = link_of link;
}

abbrev pub decode : List ℕ → Option (List VisualObservation)
decode [] = some []
decode (a ∷ b ∷ c ∷ d ∷ e ∷ f ∷ g ∷ l ∷ rest) =
    Option.map (λ os. plain a b c d e f g l ∷ os) (decode rest)
decode (_ ∷ _) = none

abbrev pub with_observations : ℕ → ℕ → ℕ → ℕ → ℕ → List VisualObservation → SerializedStore
with_observations dim next sessions created updated os = record {
  observations = os;
  embedding_dim = dim;
  next_id = next;
  session_count = sessions;
  created_at = created;
  updated_at = updated;
}

abbrev pub from_bytes : List ℕ → Option SerializedStore
from_bytes (dim ∷ next ∷ sessions ∷ created ∷ updated ∷ rest) =
    Option.map (with_observations dim next sessions created updated) (decode rest)
from_bytes _ = none

abbrev pub bytes_of : SerializedStore → List ℕ
bytes_of s =
    s.embedding_dim
    ∷ s.next_id
    ∷ s.session_count
    ∷ s.created_at
    ∷ s.updated_at
    ∷ encode s.observations

abbrev pub to_bytes : SerializedStore → Option (List ℕ)
to_bytes s =
    if are_plain s.observations && leb (length (bytes_of s)) isize_max
    then some (bytes_of s)
    else none

abbrev pub plain_codec : Codec
plain_codec = record { to_vec = to_bytes; from_slice = from_bytes }

link_of-link_number : (l : Option ℕ) → link_of (link_number l) ≡ l
link_of-link_number none = refl
link_of-link_number (some n) = refl

plain_parts :
    (source : CaptureSource) (embedding : List F32) (thumbnail : List ℕ) (labels : List String)
    (description : Option String)
    → is_plain_of source embedding thumbnail labels description ≡ true
    → (source ≡ clipboard)
      × (embedding ≡ [])
      × (thumbnail ≡ [])
      × (labels ≡ [])
      × (description ≡ none)
plain_parts source embedding thumbnail labels description h = ground arith

plain_again :
    (o : VisualObservation)
    → is_plain o ≡ true
    → plain o.id o.timestamp o.session_id o.metadata.width o.metadata.height
        o.metadata.original_width o.metadata.original_height
        (link_number o.memory_link)
      ≡ o
plain_again o h =
    let (source, embedding, thumbnail, labels, description) = plain_parts _ _ _ _ _ h in
    cc (source, embedding, thumbnail, labels, description, link_of-link_number o.memory_link)

decode-encode : (os : List VisualObservation) → are_plain os ≡ true → decode (encode os) ≡ some os
decode-encode [] h = refl
decode-encode (o ∷ os) h = elim (Bool-cases (is_plain o)) [
  | inl e ↦ rw (decode-encode os (rw e at h)) (ap (λ p. some (p ∷ os)) (plain_again o e))
  | inr e ↦ absurd (cc (let k = rw e at h in k))
]

to_bytes-some :
    (s : SerializedStore) (payload : List ℕ)
    → to_bytes s ≡ some payload
    → (are_plain s.observations ≡ true)
      × (leb (length (bytes_of s)) isize_max ≡ true)
      × (bytes_of s ≡ payload)
to_bytes-some s payload h = ground arith

pub plain_codec-IsFaithful : (is_finite : F32 → Bool) → IsFaithful plain_codec is_finite
unfolding serialized
plain_codec-IsFaithful is_finite = record {
  reads = λ store payload _ h.
      let (plain_ones, size, bytes) = to_bytes-some (serialized store) payload h in
      subst (λ b. from_bytes b ≡ some (serialized store)) bytes
        (rw (decode-encode store.observations plain_ones) refl);
  fits = λ store payload h.
      let (plain_ones, size, bytes) = to_bytes-some (serialized store) payload h in
      subst (λ b. length b ≤ isize_max) bytes (leb→le _ _ size);
}
