-- ===== src/SkipList/Splice.antt =====
-- The loop of `insert` of src/dct/skip_list/SkipList.h that links a node in, level by level.
use qjhart_geostreams.Prelude.{
  ℕ, zero, suc, ◌+◌, ◌≤◌, ◌<◌, ◌≡◌, inl, inr, refl, ◌∙◌, true, false, some, ◌==◌, ◌&&◌, leb, ltb,
  arith, Bool-cases, ==_refl,
}
use qjhart_geostreams.SkipList.{Ptr, SkipList, reaches, update_at, link_levels}
use qjhart_geostreams.SkipList.Line.{spliced_fwd, spliced_bck}

-- Where the loop may link `p` in on level `j`.
abbrev pub IsReady : SkipList → Ptr → (ℕ → Ptr) → ℕ → Type 0
IsReady s p vec j =
    (reaches s j p ≡ true)
    × (reaches s j (vec j) ≡ true)
    × (reaches s j (s.fwd j (vec j)) ≡ true)
    × ((vec j == p) ≡ false)

-- The links of `s` on the levels from `i` on, `r` of them, with `p` after the nodes of `vec`.
pub record Splices (s : SkipList) (p : Ptr) (vec : ℕ → Ptr) (r i : ℕ) (f b : ℕ → Ptr → Ptr)
    : Type 0 where
  pub inside_fwd :
      (j : ℕ) → i ≤ j → j < i + r → f j ≡ spliced_fwd (s.fwd j) p (vec j) (s.fwd j (vec j))
  pub inside_bck :
      (j : ℕ) → i ≤ j → j < i + r → b j ≡ spliced_bck (s.bck j) p (vec j) (s.fwd j (vec j))
  pub outside : (j : ℕ) → (leb i j && ltb j (i + r)) ≡ false → (f j ≡ s.fwd j) × (b j ≡ s.bck j)

-- The links after one round.
abbrev round_fwd : SkipList → Ptr → (ℕ → Ptr) → ℕ → ℕ → Ptr → Ptr
round_fwd s p vec i = update_at (update_at s.fwd i p (s.fwd i (vec i))) i (vec i) p

abbrev round_bck : SkipList → Ptr → (ℕ → Ptr) → ℕ → ℕ → Ptr → Ptr
round_bck s p vec i = update_at (update_at s.bck i (s.fwd i (vec i)) p) i p (vec i)

round_lem :
    (r i : ℕ) (p : Ptr) (vec : ℕ → Ptr) (s : SkipList)
    → IsReady s p vec i
    → link_levels (suc r) i p vec s
      ≡ link_levels r
          (suc i)
          p
          vec
          (record s { fwd = round_fwd s p vec i; bck = round_bck s p vec i })
unfolding link_levels
round_lem r i p vec s (a, b, c, d) =
    rw b (rw a (rw b (rw (==_refl i) (rw d (rw c (rw b (rw a refl)))))))

module _ (i : ℕ) (p : Ptr) (vec : ℕ → Ptr) (s : SkipList) where
  abbrev after_round : SkipList
  after_round = record s { fwd = round_fwd s p vec i; bck = round_bck s p vec i }

  -- A round leaves the other levels alone.
  round-other :
      (j : ℕ) → (j == i) ≡ false → (after_round.fwd j ≡ s.fwd j) × (after_round.bck j ≡ s.bck j)
  round-other j e = (rw e refl, rw e refl)

  round-IsReady : (j : ℕ) → (j == i) ≡ false → IsReady s p vec j → IsReady after_round p vec j
  round-IsReady j e (a, b, c, d) = (a, b, rw ((round-other j e).0) c, d)

  round-here :
      (after_round.fwd i ≡ spliced_fwd (s.fwd i) p (vec i) (s.fwd i (vec i)))
      × (after_round.bck i ≡ spliced_bck (s.bck i) p (vec i) (s.fwd i (vec i)))
  round-here = (rw (==_refl i) refl, rw (==_refl i) refl)

pub link_lem :
    (r i : ℕ) (p : Ptr) (vec : ℕ → Ptr) (s : SkipList)
    → ((j : ℕ) → i ≤ j → j < i + r → IsReady s p vec j)
    → (f : ℕ → Ptr → Ptr) × (b : ℕ → Ptr → Ptr) × (link_levels r i p vec s
        ≡ some (record s { fwd = f; bck = b }))
      × Splices s p vec r i f b
unfolding link_levels
link_lem zero i p vec s ready = (
  s.fwd,
  s.bck,
  refl,
  record {
    inside_fwd = λ j a b. absurd (omega arith);
    inside_bck = λ j a b. absurd (omega arith);
    outside = λ j a. (refl, refl);
  },
)
link_lem (suc r) i p vec s ready =
    let (f, b, run, rest) =
      link_lem r (suc i) p vec (after_round i p vec s)
        (λ j a c. round-IsReady i p vec s j (ground arith) (ready j (omega arith) (omega arith))) in
    let other = round-other i p vec s in
    let here = round-here i p vec s in
    let top = rest.outside i (ground arith) in
    (
      f,
      b,
      round_lem r i p vec s (ready i (omega arith) (omega arith)) ∙ run,
      record {
        inside_fwd = λ j a c. elim (Bool-cases (j == i)) [
          | inl e ↦ let e' : j ≡ i = ground arith in rw e' (top.0 ∙ here.0)
          | inr e ↦ rest.inside_fwd j (ground arith) (omega arith) ∙ rw ((other j e).0) refl
        ];
        inside_bck = λ j a c. elim (Bool-cases (j == i)) [
          | inl e ↦ let e' : j ≡ i = ground arith in rw e' (top.1 ∙ here.1)
          | inr e ↦
              rest.inside_bck j (ground arith) (omega arith)
              ∙ rw ((other j e).0, (other j e).1) refl
        ];
        outside = λ j a.
            let u = rest.outside j (ground arith) in
            let w = other j (ground arith) in (u.0 ∙ w.0, u.1 ∙ w.1);
      },
    )
