-- ===== src/SkipList/Cut.antt =====
-- The loop of `remove` of src/dct/skip_list/SkipList.h that takes a node out, level by level, until
-- a level does not have it.
use qjhart_geostreams.Prelude.{
  ℕ, zero, suc, ◌+◌, ◌≤◌, ◌<◌, ◌≡◌, inl, inr, refl, ◌∙◌, true, false, some, ◌==◌, ◌&&◌, leb, ltb,
  arith, Bool-cases, ==_refl,
}
use qjhart_geostreams.SkipList.{Ptr, SkipList, reaches, update, update_at, unlink_levels}

-- Level `j` of the loop, where the node `t` has the level.
abbrev pub IsLoose : SkipList → Ptr → (ℕ → Ptr) → ℕ → Type 0
IsLoose s t vec j =
    (reaches s j t ≡ true)
    × (reaches s j (vec j) ≡ true)
    × (s.fwd j (vec j) ≡ t)
    × (reaches s j (s.fwd j t) ≡ true)
    × ((t == vec j) ≡ false)

-- And where it does not.
abbrev pub IsClear : SkipList → Ptr → (ℕ → Ptr) → ℕ → Type 0
IsClear s t vec j = (reaches s j (vec j) ≡ true) × ((s.fwd j (vec j) == t) ≡ false)

-- The links of `s` with `t` taken out on the levels from `i` on, `r` of them, that it has.
pub record Cuts (s : SkipList) (t : Ptr) (vec : ℕ → Ptr) (r i : ℕ) (f b : ℕ → Ptr → Ptr)
    : Type 0 where
  pub inside :
      (j : ℕ)
      → i ≤ j
      → j < i + r
      → j ≤ s.height t
      → (f j ≡ update (s.fwd j) (vec j) (s.fwd j t)) × (b j ≡ update (s.bck j) (s.fwd j t) (vec j))
  pub outside :
      (j : ℕ)
      → (leb i j && ltb j (i + r) && leb j (s.height t)) ≡ false
      → (f j ≡ s.fwd j) × (b j ≡ s.bck j)

module _ (i : ℕ) (t : Ptr) (vec : ℕ → Ptr) (s : SkipList) where
  abbrev after_round : SkipList
  after_round = record s {
    fwd = update_at s.fwd i (vec i) (s.fwd i t);
    bck = update_at s.bck i (s.fwd i t) (vec i);
  }

  round_lem :
      (r : ℕ)
      → IsLoose s t vec i
      → unlink_levels (suc r) i t vec s ≡ unlink_levels r (suc i) t vec after_round
  unfolding unlink_levels
  round_lem r (a, b, c, d, e) =
      rw b (rw c (rw (==_refl t) (rw a (rw (==_refl i) (rw e (rw d refl))))))

  stop_lem : (r : ℕ) → IsClear s t vec i → unlink_levels (suc r) i t vec s ≡ some s
  unfolding unlink_levels
  stop_lem r (a, b) = rw a (rw b refl)

  round-other :
      (j : ℕ) → (j == i) ≡ false → (after_round.fwd j ≡ s.fwd j) × (after_round.bck j ≡ s.bck j)
  round-other j e = (rw e refl, rw e refl)

  round-here :
      (after_round.fwd i ≡ update (s.fwd i) (vec i) (s.fwd i t))
      × (after_round.bck i ≡ update (s.bck i) (s.fwd i t) (vec i))
  round-here = (rw (==_refl i) refl, rw (==_refl i) refl)

  round-IsLoose : (j : ℕ) → (j == i) ≡ false → IsLoose s t vec j → IsLoose after_round t vec j
  round-IsLoose j h (a, b, c, d, e) = let o = round-other j h in (a, b, rw (o.0) c, rw (o.0) d, e)

  round-IsClear : (j : ℕ) → (j == i) ≡ false → IsClear s t vec j → IsClear after_round t vec j
  round-IsClear j h (a, b) = let o = round-other j h in (a, rw (o.0) b)

pub unlink_lem :
    (r i : ℕ) (t : Ptr) (vec : ℕ → Ptr) (s : SkipList)
    → ((j : ℕ) → i ≤ j → j < i + r → j ≤ s.height t → IsLoose s t vec j)
    → ((j : ℕ) → i ≤ j → j < i + r → s.height t < j → IsClear s t vec j)
    → (f : ℕ → Ptr → Ptr) × (b : ℕ → Ptr → Ptr) × (unlink_levels r i t vec s
        ≡ some (record s { fwd = f; bck = b }))
      × Cuts s t vec r i f b
unfolding unlink_levels
unlink_lem zero i t vec s loose clear = (
  s.fwd,
  s.bck,
  refl,
  record { inside = λ j a b. absurd (omega arith); outside = λ j a. (refl, refl) },
)
unlink_lem (suc r) i t vec s loose clear = elim (Bool-cases (leb i (s.height t))) [
  | inl e ↦
      let (f, b, run, rest) =
        unlink_lem r (suc i) t vec (after_round i t vec s)
          (λ j a c d.
            round-IsLoose i t vec s j (ground arith) (loose j (omega arith) (omega arith) d))
          (λ j a c d.
            round-IsClear i t vec s j (ground arith) (clear j (omega arith) (omega arith) d)) in
      let other = round-other i t vec s in
      let here = round-here i t vec s in
      let top = rest.outside i (ground arith) in
      (
        f,
        b,
        round_lem i t vec s r (loose i (omega arith) (omega arith) (ground arith)) ∙ run,
        record {
          inside = λ j a c d. elim (Bool-cases (j == i)) [
            | inl g ↦ let g' : j ≡ i = ground arith in rw g' (top.0 ∙ here.0, top.1 ∙ here.1)
            | inr g ↦
                let u = rest.inside j (ground arith) (omega arith) d in
                let w = other j g in (rw (← w.0) (u.0), rw (← w.0) (rw (← w.1) (u.1)))
          ];
          outside = λ j a.
              let u = rest.outside j (ground arith) in
              let w = other j (ground arith) in (u.0 ∙ w.0, u.1 ∙ w.1);
        },
      )
  | inr e ↦ (
    s.fwd,
    s.bck,
    stop_lem i t vec s r (clear i (omega arith) (omega arith) (ground arith)),
    record { inside = λ j a b d. absurd (ground arith); outside = λ j a. (refl, refl) },
  )
]
