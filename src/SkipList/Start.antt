-- ===== src/SkipList/Start.antt =====
-- The constructor of src/dct/skip_list/SkipList.h makes an empty skip list.
use qjhart_geostreams.Prelude.{
  ℕ, zero, suc, ◌+◌, ◌≤◌, ◌<◌, ◌≡◌, inl, inr, refl, ◌∙◌, true, false, some, [], ◌==◌, ◌&&◌, leb,
  ltb, arith, Bool-cases, ==_refl,
}
use qjhart_geostreams.SkipList.{
  Ptr, null, KeyOrder, SkipList, reaches, update, update_at, attach, new, new_node, no_nodes,
}
use qjhart_geostreams.SkipList.Shape.{key_at, IsSkip}

-- The links of `s` with head and tail linked on the levels from `i` on, `r` of them.
record Attached (s : SkipList) (r i : ℕ) (f b : ℕ → Ptr → Ptr) : Type 0 where
  pub inside :
      (j : ℕ)
      → i ≤ j
      → j < i + r
      → (f j ≡ update (s.fwd j) s.head s.tail) × (b j ≡ update (s.bck j) s.tail s.head)
  pub outside : (j : ℕ) → (leb i j && ltb j (i + r)) ≡ false → (f j ≡ s.fwd j) × (b j ≡ s.bck j)

module _ (i : ℕ) (s : SkipList) where
  abbrev after_round : SkipList
  after_round = record s {
    fwd = update_at s.fwd i s.head s.tail;
    bck = update_at s.bck i s.tail s.head;
  }

  round-other :
      (j : ℕ) → (j == i) ≡ false → (after_round.fwd j ≡ s.fwd j) × (after_round.bck j ≡ s.bck j)
  round-other j e = (rw e refl, rw e refl)

  round-here :
      (after_round.fwd i ≡ update (s.fwd i) s.head s.tail)
      × (after_round.bck i ≡ update (s.bck i) s.tail s.head)
  round-here = (rw (==_refl i) refl, rw (==_refl i) refl)

attach_lem :
    (r i : ℕ) (s : SkipList)
    → ((j : ℕ) → i ≤ j → j < i + r → (reaches s j s.head ≡ true) × (reaches s j s.tail ≡ true))
    → (f : ℕ → Ptr → Ptr) × (b : ℕ → Ptr → Ptr) × (attach r i s
        ≡ some (record s { fwd = f; bck = b }))
      × Attached s r i f b
unfolding attach
attach_lem zero i s ends = (
  s.fwd,
  s.bck,
  refl,
  record { inside = λ j a b. absurd (omega arith); outside = λ j a. (refl, refl) },
)
attach_lem (suc r) i s ends =
    let (f, b, run, rest) =
      attach_lem r (suc i) (after_round i s) (λ j a c. ends j (omega arith) (omega arith)) in
    let other = round-other i s in
    let here = round-here i s in
    let top = rest.outside i (ground arith) in
    let now = ends i (omega arith) (omega arith) in
    (
      f,
      b,
      rw (now.0) (rw (now.1) run),
      record {
        inside = λ j a c. elim (Bool-cases (j == i)) [
          | inl g ↦ let g' : j ≡ i = ground arith in rw g' (top.0 ∙ here.0, top.1 ∙ here.1)
          | inr g ↦
              let u = rest.inside j (ground arith) (omega arith) in
              let w = other j g in (rw (← w.0) (u.0), rw (← w.1) (u.1))
        ];
        outside = λ j a.
            let u = rest.outside j (ground arith) in
            let w = other j (ground arith) in (u.0 ∙ w.0, u.1 ∙ w.1);
      },
    )

-- A list for at least one level is made without a fault, and is an empty skip list with the key
-- that it is given on its tail.
pub new_lem {ℓ} :
    {K : Type ℓ} (o : KeyOrder K) (val : Ptr → K) (m : ℕ) (k : Ptr)
    → 1 ≤ m
    → (k == null) ≡ false
    → (s : SkipList) × (new m k ≡ some s) × IsSkip o val s [] × (key_at val s s.tail ≡ val k)
unfolding new new_node
new_lem o val m k h kn =
    let s0 = new_node k null m (new_node null null m (no_nodes m)) in
    let (f, b, run, at) = attach_lem m 1 s0 (λ j a c. (ground arith, ground arith)) in
    (
      record s0 { fwd = f; bck = b },
      run,
      record {
        linked = λ j a c.
            let links = at.inside j a (omega arith) in (rw (links.0) refl, rw (links.1) refl);
        distinct = (refl, (refl, tt));
        ascending = tt;
        below_tail = tt;
        nodes = tt;
        head_end = (refl, refl, omega arith, refl);
        tail_end = (refl, refl, omega arith, refl);
        tail_key = kn;
        last = λ j. elim (Bool-cases (leb 1 j && ltb j (1 + m))) [
          | inl e ↦ rw ((at.inside j (ground arith) (ground arith)).0) refl
          | inr e ↦ rw ((at.outside j e).0) refl
        ];
        low = omega arith;
        high = h;
      },
      refl,
    )
