-- ===== src/RwLock/Counts.antt =====
-- How a change of one thread changes the counts of threads.
use qjhart_geostreams.Prelude.{
  ℕ, zero, suc, ◌+◌, ◌≤◌, ◌≡◌, ◌≢◌, some, List, [], ◌∷◌, arith, get_elem?, set,
}
use qjhart_geostreams.RwLock.System.{Pc, count}

module _ (w : Pc → ℕ) where
  pub count-set :
      (ps : List Pc) (i : ℕ) (p q : Pc)
      → get_elem? ps i ≡ some p
      → count w (set ps i q) + w p ≡ count w ps + w q
  unfolding count
  count-set [] i p q h = cc
  count-set (x ∷ ps) zero p q h = ground arith
  count-set (x ∷ ps) (suc i) p q h = omega (arith, count-set ps i p q h)

  pub le-count : (ps : List Pc) (i : ℕ) (p : Pc) → get_elem? ps i ≡ some p → w p ≤ count w ps
  unfolding count
  le-count [] i p h = cc
  le-count (x ∷ ps) zero p h = ground arith
  le-count (x ∷ ps) (suc i) p h = omega (arith, le-count ps i p h)

  -- Two different threads both count.
  pub add-le-count :
      (ps : List Pc) (i j : ℕ) (p q : Pc)
      → get_elem? ps i ≡ some p
      → get_elem? ps j ≡ some q
      → i ≢ j
      → w p + w q ≤ count w ps
  unfolding count
  add-le-count [] i j p q hi hj ne = cc
  add-le-count (x ∷ ps) zero zero p q hi hj ne = absurd (omega arith)
  add-le-count (x ∷ ps) zero (suc j) p q hi hj ne = ground (arith, le-count ps j q)
  add-le-count (x ∷ ps) (suc i) zero p q hi hj ne = ground (arith, le-count ps i p)
  add-le-count (x ∷ ps) (suc i) (suc j) p q hi hj ne =
      omega (arith, add-le-count ps i j p q hi hj (λ e. ne (omega arith)))
