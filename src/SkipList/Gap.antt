-- ===== src/SkipList/Gap.antt =====
-- The place of a key in a list of src/dct/skip_list/SkipList.h: the two nodes round it on each level.
use qjhart_geostreams.Prelude.{
  ℕ, ◌≤◌, ◌<◌, ◌≡◌, refl, sym, subst, true, false, List, [], ◌∷◌, ◌++◌, ◌==◌, leb, arith,
}
use qjhart_geostreams.SkipList.{Ptr, KeyOrder, SkipList}
use qjhart_geostreams.SkipList.Line.{
  has, Distinct, last_or, first_or, line, Linked, has-append, Linked-next,
}
use qjhart_geostreams.SkipList.Level.{All, All-imp, All-split, at_level}
use qjhart_geostreams.SkipList.Ordered.{below-from}
use qjhart_geostreams.SkipList.Shape.{key_at, IsSkip, IsNode, first_or-All, last_or-All, All-level}
use qjhart_geostreams.SkipList.Search.{lows, highs, level_split}
use qjhart_geostreams.SkipList.Retrieve.{IsBelow, not_less_tail}

-- A bound on the items of a list that one item misses.
all_lt-out : (p : ℕ) (xs : List Ptr) → All (λ x. x < p) xs → has p xs ≡ false
all_lt-out p [] a = refl
all_lt-out p (x ∷ xs) a = ground (arith, all_lt-out p xs)

pub at_level-high :
    (height : Ptr → ℕ) (c h : ℕ) (xs : List Ptr)
    → c < h
    → All (λ x. height x ≤ c) xs
    → at_level height h xs ≡ []
at_level-high height c h [] l a = refl
at_level-high height c h (x ∷ xs) l a = ground (arith, at_level-high height c h xs)

-- The end of a line is none of the nodes before it.
pub Distinct-end :
    (xs : List Ptr) (t : Ptr) → Distinct (xs ++ t ∷ []) → All (λ x. (x == t) ≡ false) xs
Distinct-end [] t d = tt
Distinct-end (x ∷ xs) t d = (ground (arith, has-append x xs (t ∷ [])), Distinct-end xs t d.1)

module _ {ℓ} {K : Type ℓ} (o : KeyOrder K) (val : Ptr → K) (s : SkipList) (k : Ptr) (ns : List Ptr)
    (v : IsSkip o val s ns) (b : IsBelow o val s k) where
  abbrev pub lo : List Ptr
  lo = lows o val s k ns

  abbrev pub hi : List Ptr
  hi = highs o val s k ns

  -- The node before the place of `*k` on level `j`, and the one after it.
  abbrev pub before : ℕ → Ptr
  before j = last_or s.head (at_level s.height j lo)

  abbrev pub after : ℕ → Ptr
  after j = first_or (at_level s.height j hi) s.tail

  abbrev pub Reaches : ℕ → Ptr → Type 0
  Reaches j x = (s.live x ≡ true) × (leb j (s.height x) ≡ true) × (x < s.top)

  pub both : (P : Ptr → Type 0) → All P ns → All P lo × All P hi
  both P a = All-split P lo hi (subst (All P) (sym (below-from o (key_at val s) (val k) ns)) a)

  pub top-out : has s.top (line s.head ns s.tail) ≡ false
  top-out = ground (
    arith,
    has-append s.top ns (s.tail ∷ []),
    all_lt-out s.top ns (All-imp ns (λ x h n. n.4) v.nodes),
    v.head_end,
    v.tail_end,
  )

  pub before-Reaches : (j : ℕ) → j ≤ s.max_height → Reaches j (before j)
  before-Reaches j h =
      last_or-All (Reaches j) s.head (at_level s.height j lo) (ground (arith, v.head_end)) (
        All-imp (at_level s.height j lo) (λ x e p. (p.1.0, p.0, p.1.4))
          (All-level s.height j (IsNode s) lo (both (IsNode s) v.nodes).0))

  pub after-Reaches : (j : ℕ) → j ≤ s.max_height → Reaches j (after j)
  after-Reaches j h =
      first_or-All (Reaches j) (at_level s.height j hi) s.tail
        (All-imp (at_level s.height j hi) (λ x e p. (p.1.0, p.0, p.1.4))
          (All-level s.height j (IsNode s) hi (both (IsNode s) v.nodes).1))
        (ground (arith, v.tail_end))

  pub level-Linked :
      (j : ℕ)
      → 1 ≤ j
      → j ≤ s.max_height
      → Linked (s.fwd j) (s.bck j) s.head (at_level s.height j lo ++ at_level s.height j hi) s.tail
  level-Linked j a c =
      subst (λ l. Linked (s.fwd j) (s.bck j) s.head l s.tail)
        (level_split o val s k ns v (not_less_tail o val s k b) j) (v.linked j a c)

  pub before-after : (j : ℕ) → 1 ≤ j → j ≤ s.max_height → s.fwd j (before j) ≡ after j
  before-after j a c =
      Linked-next (s.fwd j) (s.bck j) s.head (at_level s.height j lo) (at_level s.height j hi)
        s.tail (level-Linked j a c)

  pub before-apart : (j : ℕ) → (before j == s.tail) ≡ false
  before-apart j =
      let r = Distinct-end (s.head ∷ ns) s.tail v.distinct in
      last_or-All (λ x. (x == s.tail) ≡ false) s.head (at_level s.height j lo) r.0
        (All-imp (at_level s.height j lo) (λ x e p. p.1)
          (All-level s.height j (λ x. (x == s.tail) ≡ false) lo
            (both (λ x. (x == s.tail) ≡ false) r.1).0))
