-- ===== src/Map/Utf8.antt =====
-- The standard library's `String::from_utf8` and `String::from_utf8_lossy`, which
-- runtime/src/map/deserializer.rs reads strings with.
use agentic_vision.Prelude.{
  ℕ, zero, suc, ◌≡◌, ap, Option, none, some, List, [], ◌∷◌, ◌++◌, append_assoc, Bool, true, false,
  ◌&&◌, leb, if◌then◌else◌, Bool-cases, inl, inr, Option-cases, append-nil, sym, ◌∙◌,
}

-- How many bytes continue the character, and the range of the next of them.
pub record Lead : Type 0 where
  pub more : ℕ
  pub lo : ℕ
  pub hi : ℕ

abbrev within : ℕ → ℕ → ℕ → Bool
within lo hi b = leb lo b && leb b hi

abbrev lead_of : ℕ → ℕ → ℕ → Option Lead
lead_of more lo hi = some (record { more = more; lo = lo; hi = hi })

-- The first byte of a character, if it can be one.
unfoldable pub lead : ℕ → Option Lead
lead b =
    if leb b 0x7F
    then lead_of 0 0 0
    else if within 0xC2 0xDF b
    then lead_of 1 0x80 0xBF
    else if within 0xE0 0xE0 b
    then lead_of 2 0xA0 0xBF
    else if within 0xED 0xED b
    then lead_of 2 0x80 0x9F
    else if within 0xE1 0xEF b
    then lead_of 2 0x80 0xBF
    else if within 0xF0 0xF0 b
    then lead_of 3 0x90 0xBF
    else if within 0xF1 0xF3 b
    then lead_of 3 0x80 0xBF
    else if within 0xF4 0xF4 b
    then lead_of 3 0x80 0x8F
    else none

-- Whether the bytes are UTF-8, where `more` bytes are to continue the character before them.
unfoldable pub valid_from : ℕ → ℕ → ℕ → List ℕ → Bool
valid_from zero lo hi [] = true
valid_from (suc more) lo hi [] = false
valid_from zero lo hi (b ∷ bs) = elim (lead b) [
  | none ↦ false
  | some l ↦ valid_from l.more l.lo l.hi bs
]
valid_from (suc more) lo hi (b ∷ bs) = within lo hi b && valid_from more 0x80 0xBF bs

abbrev pub from_utf8 : List ℕ → Bool
from_utf8 bytes = valid_from 0 0 0 bytes

abbrev replacement : List ℕ → List ℕ
replacement rest = 0xEF ∷ 0xBF ∷ 0xBD ∷ rest

-- The bytes with a replacement character for each part that is not UTF-8; `pending` are those of
-- the character that is still to be completed.
unfoldable pub lossy_from : ℕ → ℕ → ℕ → List ℕ → List ℕ → List ℕ
lossy_from zero lo hi pending [] = pending
lossy_from (suc more) lo hi pending [] = replacement []
lossy_from zero lo hi pending (b ∷ bs) = pending ++ elim (lead b) [
  | none ↦ replacement (lossy_from 0 0 0 [] bs)
  | some l ↦ lossy_from l.more l.lo l.hi (b ∷ []) bs
]
lossy_from (suc more) lo hi pending (b ∷ bs) =
    if within lo hi b
    then lossy_from more 0x80 0xBF (pending ++ b ∷ []) bs
    else replacement (elim (lead b) [
      | none ↦ replacement (lossy_from 0 0 0 [] bs)
      | some l ↦ lossy_from l.more l.lo l.hi (b ∷ []) bs
    ])

abbrev pub from_utf8_lossy : List ℕ → List ℕ
from_utf8_lossy bytes = lossy_from 0 0 0 [] bytes

lossy_from_valid :
    (more lo hi : ℕ) (pending bytes : List ℕ)
    → valid_from more lo hi bytes ≡ true
    → lossy_from more lo hi pending bytes ≡ pending ++ bytes
unfolding valid_from lossy_from
lossy_from_valid zero lo hi pending [] h = sym (append-nil pending)
lossy_from_valid (suc more) lo hi pending [] h = absurd (cc h)
lossy_from_valid zero lo hi pending (b ∷ bs) h = elim (Option-cases (lead b)) [
  | inl e ↦ absurd (cc (rw (e, valid_from) at h))
  | inr (l, e) ↦ rw e (
      ap (λ t. pending ++ t)
        (lossy_from_valid l.more l.lo l.hi (b ∷ []) bs (rw (e, valid_from) at h)))
]
lossy_from_valid (suc more) lo hi pending (b ∷ bs) h = elim (Bool-cases (within lo hi b)) [
  | inl e ↦ rw e (
      lossy_from_valid more 0x80 0xBF (pending ++ b ∷ []) bs (rw (e, valid_from) at h)
      ∙ append_assoc pending (b ∷ []) bs)
  | inr e ↦ absurd (cc (rw (e, valid_from) at h))
]

-- What is UTF-8 is read as it is.
pub from_utf8_lossy_valid :
    (bytes : List ℕ) → from_utf8 bytes ≡ true → from_utf8_lossy bytes ≡ bytes
from_utf8_lossy_valid bytes h = lossy_from_valid 0 0 0 [] bytes h
