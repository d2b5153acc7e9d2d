-- ===== src/Gvar/Unpack/Wide.antt =====
-- src/libgvar/unpack10.cpp where `unsigned long`, its `uint32`, has 64 bits.
use qjhart_geostreams.Prelude.{ℕ, ◌+◌, ◌*◌, ◌/◌, ◌%◌, ◌^◌, ◌<◌, ◌≡◌, refl, [], ◌∷◌, arith}
use qjhart_geostreams.Gvar.Unpack.{four_bytes, uint16, shifted, unpack10, pack10}

four_bytes-wide :
    (p q r s : ℕ)
    → p < 512
    → q < 1024
    → r < 1024
    → s < 1024
    → four_bytes 64 (p / 4) (p % 4 * 64 + q / 16) (q % 16 * 16 + r / 64) (r % 64 * 4 + s / 256)
      ≡ p * 2 ^ 22 + q * 2 ^ 12 + r * 4 + s / 256
unfolding four_bytes
four_bytes-wide p q r s a b c d = ground arith

wide_words :
    (p q r s : ℕ)
    → p < 512
    → q < 1024
    → r < 1024
    → s < 1024
    → (let f = p * 2 ^ 22 + q * 2 ^ 12 + r * 4 + s / 256 in
        (uint16 (f / 2 ^ 22) ≡ p)
        × (uint16 (shifted 64 f 10) ≡ p % 64 * 1024 + q)
        × (uint16 (shifted 64 f 20) ≡ q % 64 * 1024 + r)
        × (uint16 (shifted 64 f 30 + s % 256) ≡ r % 64 * 1024 + s))
wide_words p q r s a b c d = (omega arith, omega arith, omega arith, omega arith)

-- Where `unsigned long` has 64 bits the shift to the left drops nothing: the second, the third and
-- the fourth word of a group keep the low six bits of the word before them, so they come out right
-- only where those are 0. This is stated of a group whose first word is below 512, the sign of the
-- `int` sum being positive.
pub unpack10_wide :
    (p q r s : ℕ)
    → p < 512
    → q < 1024
    → r < 1024
    → s < 1024
    → unpack10 64 (pack10 (p ∷ q ∷ r ∷ s ∷ []))
      ≡ p ∷ (p % 64 * 1024 + q) ∷ (q % 64 * 1024 + r) ∷ (r % 64 * 1024 + s) ∷ []
unfolding unpack10 pack10
unpack10_wide p q r s a b c d =
    let (e1, e2, e3, e4) = wide_words p q r s a b c d in
    rw (four_bytes-wide p q r s a b c d) (rw (e1, e2, e3, e4) refl)
