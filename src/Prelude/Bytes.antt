-- ===== src/Prelude/Bytes.antt =====
-- Little-endian integers in a byte buffer: `to_le_bytes`, `from_le_bytes` and `copy_from_slice`.
use mathlib.Core.Path.{◌≡◌, refl, ap}
use mathlib.Core.List.{List, [], ◌∷◌, ◌++◌}
use native.Mathlib.Omega.{arith}
use native.Mathlib.Nat.{pow-suc}
use Prim.Native.Nat.{ℕ, zero, suc, ◌+◌, ◌*◌, ◌/◌, ◌%◌, ◌^◌, ◌-◌, ◌<◌}
use agentic_vision.Prelude.Lists.{length, take, drop}

-- The `n` low bytes of `val`, the lowest first.
unfoldable pub to_le_bytes : ℕ → ℕ → List ℕ
to_le_bytes zero val = []
to_le_bytes (suc n) val = (val % 256) ∷ to_le_bytes n (val / 256)

unfoldable pub from_le_bytes : List ℕ → ℕ
from_le_bytes [] = 0
from_le_bytes (b ∷ bs) = b + 256 * from_le_bytes bs

pub length-to_le_bytes : (n val : ℕ) → length (to_le_bytes n val) ≡ n
unfolding to_le_bytes
length-to_le_bytes zero val = refl
length-to_le_bytes (suc n) val = ap suc (length-to_le_bytes n (val / 256))

-- A value that fits is read back.
pub from-to_le_bytes : (n val : ℕ) → val < 256 ^ n → from_le_bytes (to_le_bytes n val) ≡ val
unfolding to_le_bytes from_le_bytes
from-to_le_bytes zero val h = omega arith
from-to_le_bytes (suc n) val h =
    omega (arith, from-to_le_bytes n (val / 256) (omega (arith, pow-suc 256 n)))

-- `buf[off..off + bytes.len()].copy_from_slice(bytes)`.
abbrev pub copy_at : ℕ → List ℕ → List ℕ → List ℕ
copy_at off bytes buf = take off buf ++ (bytes ++ drop (off + length bytes) buf)

-- `buf[lo..hi]`.
abbrev pub slice : ℕ → ℕ → List ℕ → List ℕ
slice lo hi buf = take (hi - lo) (drop lo buf)
