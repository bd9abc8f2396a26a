-- ===== src/Map/Bytes.antt =====
-- The reader and the writer of runtime/src/map/serializer.rs and deserializer.rs: what `byteorder`
-- reads and writes of integers, and the loops over records. A reader is the bytes that are left; a
-- writer puts its bytes in front of those that are written after it.
use agentic_vision.Prelude.{
  ℕ, zero, suc, ◌+◌, ◌-◌, ◌*◌, ◌%◌, ◌/◌, ◌^◌, ◌≡◌, ◌<◌, refl, String, List, [], ◌∷◌, ◌++◌, map,
  length, take, drop, leb, ltb, if◌then◌else◌, arith, All, ap, le→leb, length-append,
  take-append_length, drop-append_length,
}
use native.Mathlib.Nat.{pow-suc}
use agentic_vision.Prelude.Bytes.{to_le_bytes}
use agentic_vision.Prelude.Int.{ℤ, pos, negsuc}

pub data LoadError : Type 0 where
  too_small : (len : ℕ) → LoadError
  checksum_mismatch : (stored computed : ℕ) → LoadError
  invalid_magic : (found : ℕ) → LoadError
  unsupported_version : (found : ℕ) → LoadError
  unexpected_eof : LoadError
  invalid_utf8 : LoadError
  context : (what : String) → LoadError → LoadError

pub data Loaded {ℓ} (A : Type ℓ) : Type ℓ where
  ok : A → Loaded A
  fail : LoadError → Loaded A
  panic : Loaded A

infixl 5 ◌>>=◌
abbrev pub ◌>>=◌ {ℓ κ} : {A : Type ℓ} {B : Type κ} → Loaded A → (A → Loaded B) → Loaded B
ok a >>= f = f a
fail e >>= f = fail e
panic >>= f = panic

-- `anyhow`'s `context`.
abbrev pub with_context {ℓ} : {A : Type ℓ} → String → Loaded A → Loaded A
with_context what (ok a) = ok a
with_context what (fail e) = fail (context what e)
with_context what panic = panic

-- An unsigned integer of `n` bytes.
unfoldable pub read_uint : ℕ → List ℕ → Loaded (ℕ × List ℕ)
read_uint zero r = ok (0, r)
read_uint (suc n) [] = fail unexpected_eof
read_uint (suc n) (b ∷ r) = do (v, r) ← read_uint n r; ok (b + 256 * v, r)

abbrev pub write_uint : ℕ → ℕ → List ℕ → List ℕ
write_uint n val rest = to_le_bytes n val ++ rest

unfoldable pub i32_bits : ℤ → ℕ
i32_bits (pos n) = n
i32_bits (negsuc n) = (2 ^ 32 - 1) - n

unfoldable pub i32_of_bits : ℕ → ℤ
i32_of_bits v = if ltb v (2 ^ 31) then pos v else negsuc ((2 ^ 32 - 1) - v)

unfoldable pub read_i32 : List ℕ → Loaded (ℤ × List ℕ)
read_i32 r = do (v, r) ← read_uint 4 r; ok (i32_of_bits v, r)

unfoldable pub read_exact : ℕ → List ℕ → Loaded (List ℕ × List ℕ)
read_exact n r = if leb n (length r) then ok (take n r, drop n r) else fail unexpected_eof

module _ {A : Type 0} where
  -- `for _ in 0..n`.
  unfoldable pub read_many : (List ℕ → Loaded (A × List ℕ)) → ℕ → List ℕ → Loaded (List A × List ℕ)
  read_many read zero r = ok ([], r)
  read_many read (suc n) r = do (x, r) ← read r; (xs, r) ← read_many read n r; ok (x ∷ xs, r)

  unfoldable pub write_many : (A → List ℕ → List ℕ) → List A → List ℕ → List ℕ
  write_many write [] rest = rest
  write_many write (x ∷ xs) rest = write x (write_many write xs rest)

  -- A value of `P` that is written is read back as `f` of it, and what follows is left.
  pub record Restores (read : List ℕ → Loaded (A × List ℕ)) (write : A → List ℕ → List ℕ)
      (P : A → Type 0) (f : A → A) : Type 0 where
    pub back : (x : A) (rest : List ℕ) → P x → read (write x rest) ≡ ok (f x, rest)

  pub read_many-write_many :
      {read : List ℕ → Loaded (A × List ℕ)} {write : A → List ℕ → List ℕ} {P : A → Type 0}
      {f : A → A}
      → Restores read write P f
      → (n : ℕ) (xs : List A) (rest : List ℕ) → length xs ≡ n
      → All P xs
      → read_many read n (write_many write xs rest) ≡ ok (map f xs, rest)
  unfolding read_many write_many
  read_many-write_many one zero [] rest e h = refl
  read_many-write_many one (suc n) [] rest e h = absurd (omega arith)
  read_many-write_many one zero (x ∷ xs) rest e h = absurd (omega arith)
  read_many-write_many {read} {write} one (suc n) (x ∷ xs) rest e h =
      rw
        (
          one.back x (write_many write xs rest) h.0,
          read_many-write_many one n xs rest (omega arith) h.1,
        )
        refl

pub map_same : {A : Type 0} (xs : List A) → map (λ x. x) xs ≡ xs
map_same [] = refl
map_same (x ∷ xs) = ap (λ t. x ∷ t) (map_same xs)

abbrev pub FitsBytes : ℕ → ℕ → Type 0
FitsBytes n v = v < 256 ^ n

pub read_uint-write_uint :
    (n v : ℕ) (rest : List ℕ) → FitsBytes n v → read_uint n (write_uint n v rest) ≡ ok (v, rest)
unfolding read_uint to_le_bytes
read_uint-write_uint zero v rest h = let e : v ≡ 0 = omega arith in rw e refl
read_uint-write_uint (suc n) v rest h =
    let e : v % 256 + 256 * (v / 256) ≡ v = omega arith in
    rw (read_uint-write_uint n (v / 256) rest (omega (arith, pow-suc 256 n)), e) refl

abbrev pub FitsI32 : ℤ → Type 0
FitsI32 (pos n) = n < 2 ^ 31
FitsI32 (negsuc n) = n < 2 ^ 31

pub i32_bits-FitsBytes : (i : ℤ) → FitsI32 i → FitsBytes 4 (i32_bits i)
unfolding i32_bits
i32_bits-FitsBytes (pos n) h = omega arith
i32_bits-FitsBytes (negsuc n) h = omega arith

i32_of_bits-i32_bits : (i : ℤ) → FitsI32 i → i32_of_bits (i32_bits i) ≡ i
unfolding i32_bits i32_of_bits
i32_of_bits-i32_bits (pos n) h = ground arith
i32_of_bits-i32_bits (negsuc n) h =
    let e : (2 ^ 32 - 1) - ((2 ^ 32 - 1) - n) ≡ n = omega arith in ground arith

pub read_i32_lem :
    (i : ℤ) (rest : List ℕ) → FitsI32 i → read_i32 (write_uint 4 (i32_bits i) rest) ≡ ok (i, rest)
unfolding read_i32
read_i32_lem i rest h =
    rw (read_uint-write_uint 4 (i32_bits i) rest (i32_bits-FitsBytes i h), i32_of_bits-i32_bits i h)
      refl

pub read_exact-append :
    (xs rest : List ℕ) (n : ℕ) → length xs ≡ n → read_exact n (xs ++ rest) ≡ ok (xs, rest)
unfolding read_exact
read_exact-append xs rest n e = rw (← e) (
    rw (
      le→leb (length xs) (length (xs ++ rest)) (omega (arith, length-append xs rest)),
      take-append_length xs rest,
      drop-append_length xs rest,
    ))
