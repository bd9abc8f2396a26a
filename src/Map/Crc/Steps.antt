-- ===== src/Map/Crc/Steps.antt =====
-- One step of the checksum of runtime/src/map/serializer.rs can be undone: the table has a different
-- high byte in each entry.
use agentic_vision.Prelude.{
  ℕ, zero, suc, ◌+◌, ◌*◌, ◌/◌, ◌%◌, ◌^◌, ◌<◌, ◌≡◌, refl, ap, ◌∙◌, sym, List, [], ◌∷◌, ◌==◌, Bool,
  true, ◌&&◌, arith, get_or, subst,
}
use native.Mathlib.Nat.{pow-suc}
use agentic_vision.Map.Crc.{bit_xor, bit_xor-lt, crc32_table, crc32_table-lt}

pub bit_xor_comm : (w a b : ℕ) → bit_xor w a b ≡ bit_xor w b a
unfolding bit_xor
bit_xor_comm zero a b = refl
bit_xor_comm (suc w) a b = omega (arith, bit_xor_comm w (a / 2) (b / 2))

pub bit_xor_cancel : (w a m n : ℕ) → m < 2 ^ w → n < 2 ^ w → bit_xor w a m ≡ bit_xor w a n → m ≡ n
unfolding bit_xor
bit_xor_cancel zero a m n hm hn e = omega arith
bit_xor_cancel (suc w) a m n hm hn e =
    let halves : m / 2 ≡ n / 2 =
      bit_xor_cancel w (a / 2) (m / 2) (n / 2) (omega (arith, pow-suc 2 w))
        (omega (arith, pow-suc 2 w)) (omega arith) in
    omega (arith, halves)

bit_xor_zero : (w a : ℕ) → a < 2 ^ w → bit_xor w a 0 ≡ a
unfolding bit_xor
bit_xor_zero zero a h = omega arith
bit_xor_zero (suc w) a h =
    let half : bit_xor w (a / 2) (0 / 2) ≡ a / 2 =
      bit_xor_zero w (a / 2) (omega (arith, pow-suc 2 w)) in
    omega (arith, half)

double : (k q : ℕ) → 2 ^ suc k * q ≡ 2 * (2 ^ k * q)
double k q = rw (pow-suc 2 k) (omega arith)

-- The low bits and the high bits are xored apart.
bit_xor_split :
    (k w r q s p : ℕ)
    → r < 2 ^ k
    → s < 2 ^ k
    → bit_xor (k + w) (r + 2 ^ k * q) (s + 2 ^ k * p) ≡ bit_xor k r s + 2 ^ k * bit_xor w q p
unfolding bit_xor
bit_xor_split zero w r q s p hr hs =
    let er : r + 1 * q ≡ q = omega arith in
    let es : s + 1 * p ≡ p = omega arith in
    let ew : 0 + w ≡ w = omega arith in rw (er, es, ew) (omega arith)
bit_xor_split (suc k) w r q s p hr hs =
    let er : (r + 2 ^ suc k * q) / 2 ≡ r / 2 + 2 ^ k * q = omega (arith, double k q) in
    let es : (s + 2 ^ suc k * p) / 2 ≡ s / 2 + 2 ^ k * p = omega (arith, double k p) in
    let low : ((r + 2 ^ suc k * q) + (s + 2 ^ suc k * p)) % 2 ≡ (r + s) % 2 =
      omega (arith, double k q, double k p) in
    let ih =
      bit_xor_split k w (r / 2) q (s / 2) p (omega (arith, pow-suc 2 k))
        (omega (arith, pow-suc 2 k)) in
    let ew : suc k + w ≡ suc (k + w) = omega arith in
    rw (ew, er, es, low, ih) (omega (arith, double k (bit_xor w q p)))

-- A byte changes only the low byte of the state.
state_split :
    (crc byte : ℕ)
    → crc < 2 ^ 32
    → byte < 256
    → bit_xor 32 crc byte ≡ bit_xor 8 (crc % 256) byte + 256 * (crc / 256)
state_split crc byte h k =
    let whole : crc % 256 + 2 ^ 8 * (crc / 256) ≡ crc = omega arith in
    let small : byte + 2 ^ 8 * 0 ≡ byte = omega arith in
    let split = bit_xor_split 8 24 (crc % 256) (crc / 256) byte 0 (omega arith) (omega arith) in
    let high = bit_xor_zero 24 (crc / 256) (omega arith) in
    let split_here = rw (whole, small, high) at split in split_here

-- The high byte of a step is that of the entry in the table.
entry_split :
    (entry m : ℕ) → entry < 2 ^ 32 → m < 2 ^ 24 → bit_xor 32 entry m / 2 ^ 24 ≡ entry / 2 ^ 24
entry_split entry m h k =
    let whole : entry % 2 ^ 24 + 2 ^ 24 * (entry / 2 ^ 24) ≡ entry = omega arith in
    let small : m + 2 ^ 24 * 0 ≡ m = omega arith in
    let split = bit_xor_split 24 8 (entry % 2 ^ 24) (entry / 2 ^ 24) m 0 (omega arith) k in
    let high = bit_xor_zero 8 (entry / 2 ^ 24) (omega arith) in
    let low = bit_xor-lt 24 (entry % 2 ^ 24) m in
    let split_here : bit_xor 32 entry m
        ≡ bit_xor 24 (entry % 2 ^ 24) m + 2 ^ 24 * (entry / 2 ^ 24) =
      rw (whole, small, high) at split in
    omega (arith, split_here, low)

-- The index of the entry that has a high byte.
abbrev index_of_high : List ℕ
index_of_high =
    0 ∷ 65 ∷ 195 ∷ 130 ∷ 134 ∷ 199 ∷ 69 ∷ 4 ∷ 77 ∷ 12 ∷ 142 ∷ 207 ∷ 203 ∷ 138 ∷ 8 ∷ 73 ∷ 154 ∷ 219
    ∷ 89 ∷ 24 ∷ 28 ∷ 93 ∷ 223 ∷ 158 ∷ 215 ∷ 150 ∷ 20 ∷ 85 ∷ 81 ∷ 16 ∷ 146 ∷ 211 ∷ 117 ∷ 52 ∷ 182
    ∷ 247 ∷ 243 ∷ 178 ∷ 48 ∷ 113 ∷ 56 ∷ 121 ∷ 251 ∷ 186 ∷ 190 ∷ 255 ∷ 125 ∷ 60 ∷ 239 ∷ 174 ∷ 44
    ∷ 109 ∷ 105 ∷ 40 ∷ 170 ∷ 235 ∷ 162 ∷ 227 ∷ 97 ∷ 32 ∷ 36 ∷ 101 ∷ 231 ∷ 166 ∷ 234 ∷ 171 ∷ 41 ∷ 104
    ∷ 108 ∷ 45 ∷ 175 ∷ 238 ∷ 167 ∷ 230 ∷ 100 ∷ 37 ∷ 33 ∷ 96 ∷ 226 ∷ 163 ∷ 112 ∷ 49 ∷ 179 ∷ 242 ∷ 246
    ∷ 183 ∷ 53 ∷ 116 ∷ 61 ∷ 124 ∷ 254 ∷ 191 ∷ 187 ∷ 250 ∷ 120 ∷ 57 ∷ 159 ∷ 222 ∷ 92 ∷ 29 ∷ 25 ∷ 88
    ∷ 218 ∷ 155 ∷ 210 ∷ 147 ∷ 17 ∷ 80 ∷ 84 ∷ 21 ∷ 151 ∷ 214 ∷ 5 ∷ 68 ∷ 198 ∷ 135 ∷ 131 ∷ 194 ∷ 64
    ∷ 1 ∷ 72 ∷ 9 ∷ 139 ∷ 202 ∷ 206 ∷ 143 ∷ 13 ∷ 76 ∷ 149 ∷ 212 ∷ 86 ∷ 23 ∷ 19 ∷ 82 ∷ 208 ∷ 145 ∷ 216
    ∷ 153 ∷ 27 ∷ 90 ∷ 94 ∷ 31 ∷ 157 ∷ 220 ∷ 15 ∷ 78 ∷ 204 ∷ 141 ∷ 137 ∷ 200 ∷ 74 ∷ 11 ∷ 66 ∷ 3 ∷ 129
    ∷ 192 ∷ 196 ∷ 133 ∷ 7 ∷ 70 ∷ 224 ∷ 161 ∷ 35 ∷ 98 ∷ 102 ∷ 39 ∷ 165 ∷ 228 ∷ 173 ∷ 236 ∷ 110 ∷ 47
    ∷ 43 ∷ 106 ∷ 232 ∷ 169 ∷ 122 ∷ 59 ∷ 185 ∷ 248 ∷ 252 ∷ 189 ∷ 63 ∷ 126 ∷ 55 ∷ 118 ∷ 244 ∷ 181
    ∷ 177 ∷ 240 ∷ 114 ∷ 51 ∷ 127 ∷ 62 ∷ 188 ∷ 253 ∷ 249 ∷ 184 ∷ 58 ∷ 123 ∷ 50 ∷ 115 ∷ 241 ∷ 176
    ∷ 180 ∷ 245 ∷ 119 ∷ 54 ∷ 229 ∷ 164 ∷ 38 ∷ 103 ∷ 99 ∷ 34 ∷ 160 ∷ 225 ∷ 168 ∷ 233 ∷ 107 ∷ 42 ∷ 46
    ∷ 111 ∷ 237 ∷ 172 ∷ 10 ∷ 75 ∷ 201 ∷ 136 ∷ 140 ∷ 205 ∷ 79 ∷ 14 ∷ 71 ∷ 6 ∷ 132 ∷ 197 ∷ 193 ∷ 128
    ∷ 2 ∷ 67 ∷ 144 ∷ 209 ∷ 83 ∷ 18 ∷ 22 ∷ 87 ∷ 213 ∷ 148 ∷ 221 ∷ 156 ∷ 30 ∷ 95 ∷ 91 ∷ 26 ∷ 152 ∷ 217
    ∷ []

finds : ℕ → Bool
finds i = get_or index_of_high (crc32_table i / 2 ^ 24) 0 == i

abbrev all_below : ℕ → Bool
all_below zero = true
all_below (suc n) = finds n && all_below n

all_found : all_below 256 ≡ true
unfolding finds crc32_table bit_xor
all_found = refl

below_found : (n i : ℕ) → all_below n ≡ true → i < n → finds i ≡ true
below_found zero i h k = absurd (omega arith)
below_found (suc n) i h k = ground (arith, below_found n i)

found_index : (k : ℕ) → finds k ≡ true → get_or index_of_high (crc32_table k / 2 ^ 24) 0 ≡ k
unfolding finds
found_index k h = let found = get_or index_of_high (crc32_table k / 2 ^ 24) 0 in ground (arith, h)

-- The table has 256 different high bytes.
index_unique :
    (i j : ℕ) → i < 256 → j < 256 → crc32_table i / 2 ^ 24 ≡ crc32_table j / 2 ^ 24 → i ≡ j
index_unique i j hi hj e =
    let found_i : finds i ≡ true = below_found 256 i all_found hi in
    let found_j : finds j ≡ true = below_found 256 j all_found hj in
    let same : get_or index_of_high (crc32_table i / 2 ^ 24) 0
        ≡ get_or index_of_high (crc32_table j / 2 ^ 24) 0 =
      ap (λ t. get_or index_of_high t 0) e in
    sym (found_index i found_i) ∙ same ∙ found_index j found_j

-- One step of the checksum, on the state that the byte has been put into.
abbrev pub step : ℕ → ℕ → ℕ
step crc byte = bit_xor 32 (crc32_table (bit_xor 32 crc byte % 256)) (crc / 256)

pub step-lt : (crc byte : ℕ) → step crc byte < 2 ^ 32
step-lt crc byte = bit_xor-lt 32 _ _

-- Two steps with one outcome had one index and the same high bits.
step_unique :
    (crc crc' byte byte' : ℕ)
    → crc < 2 ^ 32
    → crc' < 2 ^ 32
    → step crc byte ≡ step crc' byte'
    → (bit_xor 32 crc byte % 256 ≡ bit_xor 32 crc' byte' % 256) × (crc / 256 ≡ crc' / 256)
step_unique crc crc' byte byte' h h' e =
    let i = bit_xor 32 crc byte % 256 in
    let j = bit_xor 32 crc' byte' % 256 in
    let high_i =
      entry_split (crc32_table i) (crc / 256) (crc32_table-lt i (omega arith)) (omega arith) in
    let high_j =
      entry_split (crc32_table j) (crc' / 256) (crc32_table-lt j (omega arith)) (omega arith) in
    let high = sym high_i ∙ ap (λ t. t / 2 ^ 24) e ∙ high_j in
    let index : i ≡ j = index_unique i j (omega arith) (omega arith) high in
    let here : bit_xor 32 (crc32_table j) (crc / 256) ≡ bit_xor 32 (crc32_table j) (crc' / 256) =
      subst (λ k. bit_xor 32 (crc32_table k) (crc / 256) ≡ step crc' byte') index e in
    (
      index,
      bit_xor_cancel 32 (crc32_table j) (crc / 256) (crc' / 256) (omega arith) (omega arith) here,
    )

-- The low byte of the state that is looked up.
low_index :
    (crc byte : ℕ)
    → crc < 2 ^ 32
    → byte < 256
    → bit_xor 32 crc byte % 256 ≡ bit_xor 8 (crc % 256) byte
low_index crc byte h k = omega (arith, state_split crc byte h k, bit_xor-lt 8 (crc % 256) byte)

pub step_state :
    (crc crc' byte : ℕ)
    → crc < 2 ^ 32
    → crc' < 2 ^ 32
    → byte < 256
    → step crc byte ≡ step crc' byte
    → crc ≡ crc'
step_state crc crc' byte h h' k e =
    let (index, high) = step_unique crc crc' byte byte h h' e in
    let low : bit_xor 8 byte (crc % 256) ≡ bit_xor 8 byte (crc' % 256) =
      bit_xor_comm 8 byte (crc % 256)
      ∙ sym (low_index crc byte h k)
      ∙ index
      ∙ low_index crc' byte h' k
      ∙ bit_xor_comm 8 (crc' % 256) byte in
    let same = bit_xor_cancel 8 byte (crc % 256) (crc' % 256) (omega arith) (omega arith) low in
    omega (arith, same, high)

pub step_byte :
    (crc byte byte' : ℕ)
    → crc < 2 ^ 32
    → byte < 256
    → byte' < 256
    → step crc byte ≡ step crc byte'
    → byte ≡ byte'
step_byte crc byte byte' h k k' e =
    let (index, high) = step_unique crc crc byte byte' h h e in
    let low : bit_xor 8 (crc % 256) byte ≡ bit_xor 8 (crc % 256) byte' =
      sym (low_index crc byte h k) ∙ index ∙ low_index crc byte' h k' in
    bit_xor_cancel 8 (crc % 256) byte byte' (omega arith) (omega arith) low
