-- ===== src/SkipList/Numbers.antt =====
-- The instance of the template of src/dct/skip_list/SkipList.h whose keys are numbers, as the trees
-- of regions use it.
use qjhart_geostreams.Prelude.{ℕ, ◌≡◌, true, false, ltb, ◌==◌, arith}
use qjhart_geostreams.SkipList.{KeyOrder}

pub less_total : (a b : ℕ) → ltb a b ≡ false → (a == b) ≡ false → ltb b a ≡ true
less_total a b h k = ground arith

pub less_trans : (a b c : ℕ) → ltb a b ≡ true → ltb b c ≡ true → ltb a c ≡ true
less_trans a b c h k = ground arith

pub less_irrefl : (a : ℕ) → ltb a a ≡ false
less_irrefl a = ground arith

pub same→eq : (a b : ℕ) → (a == b) ≡ true → a ≡ b
same→eq a b h = ground arith

pub same_refl : (a : ℕ) → (a == a) ≡ true
same_refl a = ground arith

abbrev pub number_order : KeyOrder ℕ
number_order = record {
  less = ltb;
  same = ◌==◌;
  same_refl = same_refl;
  same→eq = same→eq;
  less_irrefl = less_irrefl;
  less_trans = less_trans;
  less_total = less_total;
}
