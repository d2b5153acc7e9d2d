-- ===== src/Fifo/Ring.antt =====
-- Places in the ring of src/geostreamd/fifo.h, and lists that grow at the end.
use native.Mathlib.Nat.{mod-add-mod}
use qjhart_geostreams.Prelude.{
  ℕ, zero, suc, ◌+◌, ◌%◌, ◌<◌, ◌≡◌, ◌≢◌, refl, arith, List, [], ◌∷◌, ◌++◌, length, get_or,
}

pub mod_step : (w n : ℕ) → (w % n + 1) % n ≡ (w + 1) % n
mod_step w n = mod-add-mod w n 1

-- Two places less than a round apart are different.
pub mod_apart : (k w n : ℕ) → k < w → w < k + n → k % n ≢ w % n
mod_apart k w n h i = grind arith

pub get_or-before :
    (xs : List ℕ) (x k : ℕ) → k < length xs → get_or (xs ++ x ∷ []) k 0 ≡ get_or xs k 0
get_or-before [] x k h = absurd (omega arith)
get_or-before (y ∷ ys) x zero h = refl
get_or-before (y ∷ ys) x (suc k) h = get_or-before ys x k (omega arith)

pub get_or-last : (xs : List ℕ) (x k : ℕ) → k ≡ length xs → get_or (xs ++ x ∷ []) k 0 ≡ x
get_or-last [] x k h = rw h refl
get_or-last (y ∷ ys) x zero h = absurd (omega arith)
get_or-last (y ∷ ys) x (suc k) h = get_or-last ys x k (omega arith)
