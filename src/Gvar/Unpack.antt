-- ===== src/Gvar/Unpack.antt =====
-- src/libgvar/unpack10.cpp: every five bytes are four words of ten bits.
-- `w` is the width of `uint32`, which src/libgvar/types.h makes an `unsigned long`.
pub mod Wide
use qjhart_geostreams.Prelude.{
  ℕ, zero, suc, ◌+◌, ◌-◌, ◌*◌, ◌/◌, ◌%◌, ◌^◌, ◌<◌, ◌≡◌, refl, List, [], ◌∷◌, arith, ltb, length,
  if◌then◌else◌,
}

-- The bytes are promoted to `int`, so the sum is negative from 2 ^ 31 on, and `unsigned long`
-- extends its sign.
unfoldable pub four_bytes : ℕ → ℕ → ℕ → ℕ → ℕ → ℕ
four_bytes w a b c d =
    let n = a * 2 ^ 24 + b * 2 ^ 16 + c * 2 ^ 8 + d in
    if ltb n (2 ^ 31) then n else n + 2 ^ w - 2 ^ 32

abbrev pub uint16 : ℕ → ℕ
uint16 n = n % 2 ^ 16

-- f << k >> 22, in `w` bits.
abbrev pub shifted : ℕ → ℕ → ℕ → ℕ
shifted w f k = f * 2 ^ k % 2 ^ w / 2 ^ 22

-- The array `in` is the list of its `len` bytes; what is left of fewer than five is not looked at.
unfoldable pub unpack10 : ℕ → List ℕ → List ℕ
unpack10 w (a ∷ b ∷ c ∷ d ∷ one_byte ∷ rest) =
    let f = four_bytes w a b c d in
    uint16 (f / 2 ^ 22)
    ∷ uint16 (shifted w f 10)
    ∷ uint16 (shifted w f 20)
    ∷ uint16 (shifted w f 30 + one_byte)
    ∷ unpack10 w rest
unpack10 w bytes = []

-- Words of ten bits, four in five bytes, with the high bits first.
unfoldable pub pack10 : List ℕ → List ℕ
pack10 (p ∷ q ∷ r ∷ s ∷ rest) =
    (p / 4)
    ∷ (p % 4 * 64 + q / 16)
    ∷ (q % 16 * 16 + r / 64)
    ∷ (r % 64 * 4 + s / 256)
    ∷ (s % 256)
    ∷ pack10 rest
pack10 words = []

abbrev pub AllBelow : ℕ → List ℕ → Type 0
AllBelow k [] = Unit
AllBelow k (x ∷ xs) = (x < k) × AllBelow k xs

four_bytes-pack :
    (p q r s : ℕ)
    → p < 1024
    → q < 1024
    → r < 1024
    → s < 1024
    → four_bytes 32 (p / 4) (p % 4 * 64 + q / 16) (q % 16 * 16 + r / 64) (r % 64 * 4 + s / 256)
      ≡ p * 2 ^ 22 + q * 2 ^ 12 + r * 4 + s / 256
unfolding four_bytes
four_bytes-pack p q r s a b c d = ground arith

words_of :
    (p q r s : ℕ)
    → p < 1024
    → q < 1024
    → r < 1024
    → s < 1024
    → (let f = p * 2 ^ 22 + q * 2 ^ 12 + r * 4 + s / 256 in
        (uint16 (f / 2 ^ 22) ≡ p)
        × (uint16 (shifted 32 f 10) ≡ q)
        × (uint16 (shifted 32 f 20) ≡ r)
        × (uint16 (shifted 32 f 30 + s % 256) ≡ s))
words_of p q r s a b c d = (omega arith, omega arith, omega arith, omega arith)

-- unpack10 gives back every sequence of words of ten bits, a multiple of four of them, from its
-- bytes, where `unsigned long` has 32 bits.
pub unpack10-pack10 :
    (words : List ℕ)
    → AllBelow 1024 words
    → length words % 4 ≡ 0
    → unpack10 32 (pack10 words) ≡ words
unfolding unpack10 pack10
unpack10-pack10 [] h k = refl
unpack10-pack10 (p ∷ []) h k = absurd (omega arith)
unpack10-pack10 (p ∷ q ∷ []) h k = absurd (omega arith)
unpack10-pack10 (p ∷ q ∷ r ∷ []) h k = absurd (omega arith)
unpack10-pack10 (p ∷ q ∷ r ∷ s ∷ rest) h k =
    let a = h.0 in
    let b = h.1.0 in
    let c = h.1.1.0 in
    let d = h.1.1.1.0 in
    let later = unpack10-pack10 rest h.1.1.1.1 (omega arith) in
    let (e1, e2, e3, e4) = words_of p q r s a b c d in
    rw (four_bytes-pack p q r s a b c d, later) (rw (e1, e2, e3, e4) refl)
