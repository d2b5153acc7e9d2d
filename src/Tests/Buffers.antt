-- ===== src/Tests/Buffers.antt =====
-- A buffer of eight bytes.
use qjhart_geostreams.Prelude.{arith, true, none, [], ◌∷◌}
use qjhart_geostreams.Buffer.{Buffer}
use qjhart_geostreams.Buffer.Fifo.{IsPlain}

-- Two bytes are left to be read.
abbrev eight : Buffer
eight = record {
  rewindable = true;
  scratch = none;
  mem = 65 ∷ 66 ∷ 67 ∷ 0 ∷ 0 ∷ 0 ∷ 0 ∷ 0 ∷ [];
  r = 1;
  w = 3;
}

eight-IsPlain : IsPlain eight
eight-IsPlain = record { r_le_w = omega arith; w_le_size = omega arith }
