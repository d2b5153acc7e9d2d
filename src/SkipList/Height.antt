-- ===== src/SkipList/Height.antt =====
-- `RandomHeight::newLevel` of src/dct/skip_list/RandomHeight.cpp, and the loop that raises a list of
-- src/dct/skip_list/SkipList.h to a new height.
use qjhart_geostreams.Prelude.{
  ℕ, zero, suc, ◌+◌, ◌-◌, ◌≤◌, ◌<◌, ◌≡◌, inl, inr, Bool-cases, ◌==◌, Bool, true, false, ◌&&◌, leb,
  ltb, arith, if◌then◌else◌,
}
use qjhart_geostreams.SkipList.{Ptr, update, new_level, new_level_from, raise}

-- The height is the first level at which the draw is not below the probability, or the greatest.
new_level_from_lem :
    (r t : ℕ) (draws : ℕ → Bool)
    → (t ≤ new_level_from r t draws)
      × (new_level_from r t draws ≤ t + r)
      × ((j : ℕ) → t ≤ j → j < new_level_from r t draws → draws j ≡ true)
      × (new_level_from r t draws < t + r → draws (new_level_from r t draws) ≡ false)
unfolding new_level_from
new_level_from_lem zero t draws =
    (omega arith, omega arith, λ j a b. absurd (omega arith), λ a. absurd (omega arith))
new_level_from_lem (suc r) t draws = elim (Bool-cases (draws t)) [
  | inl e ↦
      let (a, b, c, d) = new_level_from_lem r (suc t) draws in
      rw e (
        omega arith,
        omega arith,
        λ j p q. elim (Bool-cases (j == t)) [
          | inl f ↦ let f' : j ≡ t = ground arith in rw f' e
          | inr f ↦ c j (ground arith) q
        ],
        λ p. d (omega arith),
      )
  | inr e ↦ rw e (omega arith, omega arith, λ j a b. absurd (omega arith), λ a. e)
]

-- The height drawn for a node lies between one and the list's greatest height. It is the first
-- level whose draw is not below the probability, where one below the greatest height has such a
-- draw.
pub new_level_lem :
    (m : ℕ) (draws : ℕ → Bool)
    → 1 ≤ m
    → (1 ≤ new_level m draws)
      × (new_level m draws ≤ m)
      × ((j : ℕ) → 1 ≤ j → j < new_level m draws → draws j ≡ true)
      × (new_level m draws < m → draws (new_level m draws) ≡ false)
unfolding new_level
new_level_lem m draws h =
    let (a, b, c, d) = new_level_from_lem (m - 1) 1 draws in
    (a, omega arith, c, λ p. d (omega arith))

-- The raised levels start at the head, and the others keep their nodes.
pub raise_lem :
    (r i : ℕ) (head : Ptr) (vec : ℕ → Ptr) (j : ℕ)
    → raise r i head vec j ≡ (if leb i j && ltb j (i + r) then head else vec j)
unfolding raise
raise_lem zero i head vec j = ground arith
raise_lem (suc r) i head vec j = ground (arith, raise_lem r (suc i) head (update vec i head) j)
