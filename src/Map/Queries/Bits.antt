-- ===== src/Map/Queries/Bits.antt =====
-- The flags of a query of runtime/src/map/reader.rs, bit by bit.
use native.Mathlib.Nat.{pow-suc}
use agentic_vision.Prelude.{
  ℕ, zero, suc, ◌/◌, ◌%◌, ◌^◌, ◌≡◌, ◌<◌, ◌↔◌, ◌⊎◌, refl, inl, inr, ◌==◌, ==_iff, arith, Bool-cases,
}
use agentic_vision.Map.Queries.{bit_and}

-- Of the `w` low bits, those that are set in `req` are set in `flags`.
abbrev pub HasBits : ℕ → ℕ → ℕ → Type 0
HasBits zero flags req = Unit
HasBits (suc w) flags req = ((req % 2 ≡ 0) ⊎ (flags % 2 ≡ 1)) × HasBits w (flags / 2) (req / 2)

-- Of the `w` low bits, those that are set in `exc` are not set in `flags`.
abbrev pub HasNoBits : ℕ → ℕ → ℕ → Type 0
HasNoBits zero flags exc = Unit
HasNoBits (suc w) flags exc = ((exc % 2 ≡ 0) ⊎ (flags % 2 ≡ 0)) × HasNoBits w (flags / 2) (exc / 2)

bit_cases : (n : ℕ) → (n % 2 ≡ 0) ⊎ (n % 2 ≡ 1)
bit_cases n = elim (Bool-cases (n % 2 == 0)) [
  | inl e ↦ inl ((==_iff (n % 2) 0).0 e)
  | inr e ↦ inr (ground arith)
]

pub HasBits-iff :
    (w flags req : ℕ) → req < 2 ^ w → (bit_and w flags req ≡ req) ↔ HasBits w flags req
unfolding bit_and
HasBits-iff zero flags req h = (λ e. tt, λ k. omega arith)
HasBits-iff (suc w) flags req h =
    let (to, from) = HasBits-iff w (flags / 2) (req / 2) (omega (arith, pow-suc 2 w)) in
    elim (bit_cases flags) [
      | inl e ↦ (
        λ k. let k' = rw e at k in (inl (omega arith), to (omega arith)),
        λ k. elim k.0 [ inl z ↦ rw e (omega (arith, z, from k.1)) | inr o ↦ absurd (omega arith) ],
      )
      | inr e ↦ (
        λ k. let k' = rw e at k in (inr e, to (omega arith)),
        λ k. rw e (omega (arith, from k.1)),
      )
    ]

pub HasNoBits-iff : (w flags exc : ℕ) → (bit_and w flags exc ≡ 0) ↔ HasNoBits w flags exc
unfolding bit_and
HasNoBits-iff zero flags exc = (λ e. tt, λ k. refl)
HasNoBits-iff (suc w) flags exc =
    let (to, from) = HasNoBits-iff w (flags / 2) (exc / 2) in
    elim (bit_cases flags) [
      | inl e ↦ (
        λ k. let k' = rw e at k in (inr e, to (omega arith)),
        λ k. rw e (omega (arith, from k.1)),
      )
      | inr e ↦ (
        λ k. let k' = rw e at k in (inl (omega arith), to (omega arith)),
        λ k. elim k.0 [
          | inl z ↦ rw (e, z) (omega (arith, from k.1))
          | inr o ↦ absurd (omega arith)
        ],
      )
    ]
