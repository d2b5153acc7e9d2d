-- ===== src/SkipList/Search.antt =====
-- The search of src/dct/skip_list/SkipList.h: on each level it stops at the last node with a key
-- less than the one sought, and what it ends at is the first node from that key on.
use qjhart_geostreams.Prelude.{
  ℕ, zero, suc, ◌≤◌, ◌<◌, ◌≡◌, inl, inr, ap, sym, ◌∙◌, subst, true, false, some, List, [], ◌∷◌,
  ◌++◌, ◌-◌, ◌==◌, arith, length, length-append, Bool-cases,
}
use qjhart_geostreams.SkipList.{
  Ptr, null, KeyOrder, SkipList, reaches, get_fwd, update, walk, search_down, locate,
}
use qjhart_geostreams.SkipList.Line.{has, last_or, first_or, Linked, Linked-next}
use qjhart_geostreams.SkipList.Level.{
  All, All-imp, All-split, All-zip, at_level, at_level-append, at_level-one, length-at_level,
  last_or-level,
}
use qjhart_geostreams.SkipList.Ordered.{below_key, from_key, below-from, All-below, All-from}
use qjhart_geostreams.SkipList.Shape.{key_at, IsSkip, first_or-All, last_or-All, All-level}

module _ {ℓ} {K : Type ℓ} (o : KeyOrder K) (val : Ptr → K) (s : SkipList) (k : Ptr) where
  abbrev pub Passes : ℕ → Ptr → Type 0
  Passes h x =
      (reaches s h x ≡ true)
      × ((s.key x == null) ≡ false)
      × (o.less (key_at val s x) (val k) ≡ true)

  abbrev pub Stops : Ptr → Type 0
  Stops x =
      (s.live x ≡ true) × ((s.key x == null) ≡ false) × (o.less (key_at val s x) (val k) ≡ false)

  abbrev pub Inside : Ptr → Type 0
  Inside x =
      (s.live x ≡ true) × ((s.key x == null) ≡ false) × (o.less (key_at val s x) (val k) ≡ true)

  -- The nodes with keys less than `*k`, and the others.
  abbrev pub lows : List Ptr → List Ptr
  lows = below_key o (key_at val s) (val k)

  abbrev pub highs : List Ptr → List Ptr
  highs = from_key o (key_at val s) (val k)

  -- From any node that the search may have come to, the inner loop leads to the last node that
  -- passes.
  pub walk_lem :
      (f h a : ℕ) (xs ys : List Ptr) (t m : Ptr)
      → Linked (s.fwd h) (s.bck h) a (xs ++ ys) t
      → reaches s h a ≡ true
      → All (Passes h) xs
      → Stops (first_or ys t)
      → length xs < f
      → has m (a ∷ xs) ≡ true
      → walk o val f s h k m ≡ some (last_or a xs)
  unfolding walk
  walk_lem zero h a xs ys t m l r p q n i = absurd (omega arith)
  walk_lem (suc f) h a [] ys t m l r p q n i =
      let e : m ≡ a = ground arith in
      let g : get_fwd s h m ≡ some (first_or ys t) =
        ground (arith, Linked-next (s.fwd h) (s.bck h) a [] ys t l) in
      rw g (rw q.0 (rw q.1 (rw q.2 (ap some e))))
  walk_lem (suc f) h a (x ∷ xs) ys t m l r p q n i = elim (Bool-cases (m == a)) [
    | inl e ↦
        let g : get_fwd s h m ≡ some x = ground arith in
        let live : s.live x ≡ true = ground arith in
        rw g (
          rw live (
            rw (p.0.1)
              (rw (p.0.2) (walk_lem f h x xs ys t x l.2 p.0.0 p.1 q (omega arith) (ground arith)))))
    | inr e ↦ walk_lem (suc f) h x xs ys t m l.2 p.0.0 p.1 q (omega arith) (ground arith)
  ]

  -- The inner loop where the search comes down to a level: from a node of the level among those
  -- less than `*k`, in the lists that the level holds.
  module _ (ns : List Ptr) (v : IsSkip o val s ns)
      (in_range : o.less (key_at val s s.tail) (val k) ≡ false) where
    pub parts : All Inside (lows ns) × All Stops (highs ns)
    parts =
        let here = key_at val s in
        let all =
          All-imp {Q = λ x. (s.live x ≡ true) × ((s.key x == null) ≡ false)} ns
            (λ x h n. (n.0, n.3)) v.nodes in
        let r =
          All-split _ (lows ns) (highs ns)
            (subst (All _) (sym (below-from o here (val k) ns)) all) in
        (
          All-zip _ _ _ (lows ns) r.0 (All-below o here (val k) ns),
          All-zip _ _ _ (highs ns) r.1 (All-from o here (val k) ns v.ascending),
        )

    pub level_split :
        (h : ℕ)
        → at_level s.height h ns ≡ at_level s.height h (lows ns) ++ at_level s.height h (highs ns)
    level_split h =
        ap (at_level s.height h) (sym (below-from o (key_at val s) (val k) ns))
        ∙ at_level-append s.height h (lows ns) (highs ns)

    tail_Stops : Stops s.tail
    tail_Stops = (v.tail_end.0, v.tail_key, in_range)

    length-lows : length (lows ns) ≤ length ns
    length-lows = omega (
      arith,
      ap length (below-from o (key_at val s) (val k) ns),
      length-append {0} (lows ns) (highs ns),
    )

    pub walk_level :
        (f h m : ℕ)
        → 1 ≤ h
        → h ≤ s.max_height
        → length ns < f
        → has m (s.head ∷ at_level s.height h (lows ns)) ≡ true
        → walk o val f s h k m ≡ some (last_or s.head (at_level s.height h (lows ns)))
    walk_level f h m a b n i =
        walk_lem f h s.head (at_level s.height h (lows ns)) (at_level s.height h (highs ns)) s.tail
          m
          (subst (λ l. Linked (s.fwd h) (s.bck h) s.head l s.tail) (level_split h) (v.linked h a b))
          (ground (arith, v.head_end))
          (All-imp {Q = Passes h} (at_level s.height h (lows ns))
            (λ x e p. (ground arith, p.1.1, p.1.2)) (All-level s.height h Inside (lows ns) parts.0))
          (first_or-All Stops (at_level s.height h (highs ns)) s.tail
            (All-imp {Q = Stops} (at_level s.height h (highs ns)) (λ x e p. p.1)
              (All-level s.height h Stops (highs ns) parts.1))
            tail_Stops)
          (omega (arith, length-at_level s.height h (lows ns), length-lows)) i

    -- What a search leaves in `updateVec` up to a level.
    abbrev pub IsTrail : ℕ → (ℕ → Ptr) → Type 0
    IsTrail h vec = (j : ℕ) → 1 ≤ j → j ≤ h → vec j ≡ last_or s.head (at_level s.height j (lows ns))

    -- From level `suc h` down to the lowest.
    search_lem :
        (f h tmp : ℕ) (vec : ℕ → Ptr)
        → suc h ≤ s.max_height
        → length ns < f
        → has tmp (s.head ∷ at_level s.height (suc h) (lows ns)) ≡ true
        → (vec' : ℕ → Ptr) × (search_down o val f s k (suc h) tmp vec
            ≡ some (last_or s.head (at_level s.height 1 (lows ns)), vec'))
          × IsTrail (suc h) vec'
          × ((j : ℕ) → suc h < j → vec' j ≡ vec j)
    unfolding search_down
    search_lem f zero tmp vec b n i = (
      update vec 1 (last_or s.head (at_level s.height 1 (lows ns))),
      rw (walk_level f 1 tmp (omega arith) b n i),
      λ j p q. let e : j ≡ 1 = omega arith in rw e,
      λ j p. ground arith,
    )
    search_lem f (suc h) tmp vec b n i =
        let t = last_or s.head (at_level s.height (suc (suc h)) (lows ns)) in
        let (vec', run, trail, rest) =
          search_lem f h t (update vec (suc (suc h)) t) (omega arith) n
            (last_or-level s.height (suc h) s.head (lows ns)) in
        (
          vec',
          rw (walk_level f (suc (suc h)) tmp (omega arith) b n i) run,
          λ j p q. elim (Bool-cases (j == suc (suc h))) [
            | inl e ↦
                let e' : j ≡ suc (suc h) = ground arith in
                rest j (ground arith)
                ∙ ((ground arith)
                    ∙ ap (λ z. last_or s.head (at_level s.height z (lows ns))) (sym e'))
            | inr e ↦ trail j p (ground arith)
          ],
          λ j p. rest j (omega arith) ∙ ground arith,
        )

    -- From the level that the list has reached.
    search_all :
        (f : ℕ)
        → length ns < f
        → (vec : ℕ → Ptr) × (search_down o val f s k s.cur_height s.head (λ _. null)
            ≡ some (last_or s.head (at_level s.height 1 (lows ns)), vec))
          × IsTrail s.cur_height vec
    search_all f n =
        let e : suc (s.cur_height - 1) ≡ s.cur_height = omega (arith, v.low) in
        let (vec, run, trail, _) =
          search_lem f (s.cur_height - 1) s.head (λ _. null) (omega (arith, v.low, v.high)) n
            (ground arith) in
        (
          vec,
          subst
              (λ h.
                search_down o val f s k h s.head (λ _. null)
                ≡ some (last_or s.head (at_level s.height 1 (lows ns)), vec))
              e run,
          λ j p q. trail j p (omega arith),
        )

    -- The lowest level after the last node with a smaller key.
    get_fwd-last :
        get_fwd s 1 (last_or s.head (at_level s.height 1 (lows ns)))
        ≡ some (first_or (highs ns) s.tail)
    get_fwd-last =
        let t = last_or s.head (at_level s.height 1 (lows ns)) in
        let there : reaches s 1 t ≡ true =
          last_or-All (λ x. reaches s 1 x ≡ true) s.head (at_level s.height 1 (lows ns))
            (ground (arith, v.head_end, v.low, v.high))
            (All-imp {Q = λ x. reaches s 1 x ≡ true} (at_level s.height 1 (lows ns))
              (λ x e p. ground arith) (All-level s.height 1 Inside (lows ns) parts.0)) in
        let all = All-imp {Q = λ x. 1 ≤ s.height x} ns (λ x h p. p.1) v.nodes in
        let high =
          (All-split _ (lows ns) (highs ns)
            (subst (All _) (sym (below-from o (key_at val s) (val k) ns)) all)).1 in
        let next =
          Linked-next (s.fwd 1) (s.bck 1) s.head (at_level s.height 1 (lows ns))
            (at_level s.height 1 (highs ns)) s.tail
            (subst (λ l. Linked (s.fwd 1) (s.bck 1) s.head l s.tail) (level_split 1)
              (v.linked 1 (omega arith) (omega (arith, v.low, v.high)))) in
        rw there
          (ap some (next ∙ ap (λ l. first_or l s.tail) (at_level-one s.height (highs ns) high)))

    -- The node that the search ends at.
    pub locate_lem :
        (f : ℕ)
        → length ns < f
        → (vec : ℕ → Ptr) × (locate o val f s k
            ≡ some (
              first_or (highs ns) s.tail,
              vec,
              o.same (key_at val s (first_or (highs ns) s.tail)) (val k),
            ))
          × IsTrail s.cur_height vec
    unfolding locate
    locate_lem f n =
        let (vec, run, trail) = search_all f n in
        let end = first_or-All Stops (highs ns) s.tail parts.1 tail_Stops in
        (vec, rw run (rw get_fwd-last (rw end.0 (rw end.1))), trail)
