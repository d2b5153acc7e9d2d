-- ===== src/SkipList/Grown.antt =====
-- The lines of a list of src/dct/skip_list/SkipList.h when `insert` links a node in on its levels.
use qjhart_geostreams.Prelude.{
  ℕ, suc, ◌+◌, ◌-◌, ◌≤◌, ◌<◌, ◌≡◌, inl, inr, refl, ap, sym, ◌∙◌, subst, false, List, [], ◌∷◌, ◌++◌,
  ◌==◌, leb, ltb, arith, Bool-cases, ==_refl, if◌then◌else◌,
}
use qjhart_geostreams.SkipList.{Ptr, KeyOrder, SkipList, update, new_node, raise}
use qjhart_geostreams.SkipList.Line.{
  has, Distinct, last_or, line, Linked, has-append, Linked-frame, Linked-splice, spliced_fwd,
  spliced_bck, has-apart,
}
use qjhart_geostreams.SkipList.Level.{
  All-imp, at_level, at_level-append, at_level-update, out-line, at_level-Distinct,
}
use qjhart_geostreams.SkipList.Ordered.{below-from}
use qjhart_geostreams.SkipList.Shape.{key_at, IsSkip, IsNode}
use qjhart_geostreams.SkipList.Height.{raise_lem}
use qjhart_geostreams.SkipList.Search.{IsTrail, level_split}
use qjhart_geostreams.SkipList.Retrieve.{IsBelow, not_less_tail}
use qjhart_geostreams.SkipList.Splice.{IsReady, Splices}
use qjhart_geostreams.SkipList.Gap.{
  lo, hi, before, after, both, top-out, before-Reaches, after-Reaches, level-Linked, before-after,
  at_level-high,
}

-- The list with a new node of height `lvl`, which no node points to yet.
abbrev pub grown : SkipList → Ptr → Ptr → ℕ → SkipList
grown s k w lvl =
    new_node k w lvl (record s { cur_height = if ltb s.cur_height lvl then lvl else s.cur_height })

module _ {ℓ} {K : Type ℓ} (o : KeyOrder K) (val : Ptr → K) (s : SkipList) (k : Ptr) (ns : List Ptr)
    (v : IsSkip o val s ns) (b : IsBelow o val s k) where
  -- The nodes after which the new one is linked in, on the levels above the old list too.
  pub raised :
      (lvl : ℕ) (vec : ℕ → Ptr)
      → IsTrail o val s k ns v (not_less_tail o val s k b) s.cur_height vec
      → (j : ℕ) → 1 ≤ j
      → j ≤ lvl
      → (if ltb s.cur_height lvl
            then raise (lvl - s.cur_height) (suc s.cur_height) s.head vec
            else vec)
          j
        ≡ before o val s k ns v b j
  raised lvl vec trail j a c =
      let empty : s.cur_height < j → s.head ≡ before o val s k ns v b j = λ h. sym (
        ap (last_or s.head) (
          at_level-high s.height s.cur_height j (lo o val s k ns v b) h (
            All-imp {Q = λ x. s.height x ≤ s.cur_height} (lo o val s k ns v b) (λ x m n. n.2)
              (both o val s k ns v b (IsNode s) v.nodes).0))) in
      elim (Bool-cases (leb j s.cur_height)) [
        | inl e ↦ ground (
          arith,
          trail j a (ground arith),
          raise_lem (lvl - s.cur_height) (suc s.cur_height) s.head vec j,
        )
        | inr e ↦ ground (
          arith,
          empty (ground arith),
          raise_lem (lvl - s.cur_height) (suc s.cur_height) s.head vec j,
        )
      ]

  module _ (w lvl : ℕ) (high : lvl ≤ s.max_height) where
    -- The levels of the new node are ready for it.
    pub ready :
        (vec : ℕ → Ptr)
        → ((j : ℕ) → 1 ≤ j → j ≤ lvl → vec j ≡ before o val s k ns v b j)
        → (j : ℕ) → 1 ≤ j
        → j < 1 + lvl
        → IsReady (grown s k w lvl) s.top vec j
    unfolding new_node
    ready vec trail j a c =
        let e = trail j a (omega arith) in
        let there = before-Reaches o val s k ns v b j (omega arith) in
        let next = after-Reaches o val s k ns v b j (omega arith) in
        rw e (
          ground arith,
          ground arith,
          ground (arith, before-after o val s k ns v b j a (omega arith)),
          ground arith,
        )

    -- What the new node is put between, on a level.
    abbrev old_line : ℕ → List Ptr
    old_line j =
        at_level s.height j (lo o val s k ns v b) ++ at_level s.height j (hi o val s k ns v b)

    split : (j : ℕ) → at_level s.height j ns ≡ old_line j
    split = level_split o val s k ns v (not_less_tail o val s k b)

    old-out : (j : ℕ) → has s.top (line s.head (old_line j) s.tail) ≡ false
    old-out j =
        subst (λ l. has s.top (line s.head l s.tail) ≡ false) (split j)
          (out-line s.height j s.head ns s.tail s.top (top-out o val s k ns v b))

    old-Distinct : (j : ℕ) → Distinct (line s.head (old_line j) s.tail)
    old-Distinct j =
        subst (λ l. Distinct (line s.head l s.tail)) (split j)
          (at_level-Distinct s.height j s.head ns s.tail v.distinct)

    -- The new node's own links are not on the old lines.
    grown-Linked :
        (j : ℕ)
        → 1 ≤ j
        → j ≤ s.max_height
        → Linked ((grown s k w lvl).fwd j) ((grown s k w lvl).bck j) s.head (old_line j) s.tail
    unfolding new_node
    grown-Linked j a c =
        Linked-frame (s.fwd j) (s.bck j) _ _ s.head (old_line j) s.tail
          (λ z h. ground (
            arith,
            old-out j,
            has-append z (old_line j) (s.tail ∷ []),
            has-apart s.top z (line s.head (old_line j) s.tail),
          ))
          (λ z h. ground (arith, old-out j, has-apart s.top z (line s.head (old_line j) s.tail)))
          (level-Linked o val s k ns v b j a c)

    parts-out :
        (has s.top (lo o val s k ns v b) ≡ false) × (has s.top (hi o val s k ns v b) ≡ false)
    parts-out =
        let e = ap (has s.top) (below-from o (key_at val s) (val k) ns) in
        let out = top-out o val s k ns v b in
        let both_parts = has-append s.top (lo o val s k ns v b) (hi o val s k ns v b) in
        let whole = has-append s.top ns (s.tail ∷ []) in (ground arith, ground arith)

    -- The nodes of a level with the new one.
    grown-level :
        (j : ℕ)
        → at_level ((grown s k w lvl).height) j (lo o val s k ns v b ++ s.top ∷ hi o val s k ns v b)
          ≡ (if leb j lvl
              then at_level s.height j (lo o val s k ns v b)
                ++ s.top ∷ at_level s.height j (hi o val s k ns v b)
              else old_line j)
    unfolding new_node
    grown-level j =
        at_level-append (update s.height s.top lvl) j (lo o val s k ns v b)
          (s.top ∷ hi o val s k ns v b)
        ∙ rw (at_level-update s.height j s.top lvl (lo o val s k ns v b) parts-out.0) (
            rw (at_level-update s.height j s.top lvl (hi o val s k ns v b) parts-out.1)
              (rw (==_refl s.top) (ground arith)))

    -- In the list with the new node each level leads over its place as before.
    grown-next :
        (j : ℕ)
        → 1 ≤ j
        → j ≤ s.max_height
        → (grown s k w lvl).fwd j (before o val s k ns v b j) ≡ after o val s k ns v b j
    unfolding new_node
    grown-next j a c =
        let there = before-Reaches o val s k ns v b j c in
        ground (arith, before-after o val s k ns v b j a c)

    pub spliced-Linked :
        (vec : ℕ → Ptr) (f b' : ℕ → Ptr → Ptr)
        → ((j : ℕ) → 1 ≤ j → j ≤ lvl → vec j ≡ before o val s k ns v b j)
        → Splices (grown s k w lvl) s.top vec lvl 1 f b'
        → (j : ℕ) → 1 ≤ j
        → j ≤ s.max_height
        → Linked
            (f j)
            (b' j)
            s.head
            (at_level
              ((grown s k w lvl).height)
              j
              (lo o val s k ns v b ++ s.top ∷ hi o val s k ns v b))
            s.tail
    spliced-Linked vec f b' trail sp j a c = elim (Bool-cases (leb j lvl)) [
      | inl e ↦
          let e' : j ≤ lvl = ground arith in
          let u = trail j a e' in
          let ef : f j
              ≡ spliced_fwd ((grown s k w lvl).fwd j) s.top (before o val s k ns v b j)
                  (after o val s k ns v b j) =
            sp.inside_fwd j a (omega arith) ∙ rw u (rw (grown-next j a c) refl) in
          let eb : b' j
              ≡ spliced_bck ((grown s k w lvl).bck j) s.top (before o val s k ns v b j)
                  (after o val s k ns v b j) =
            sp.inside_bck j a (omega arith) ∙ rw u (rw (grown-next j a c) refl) in
          rw (grown-level j) (
            rw e (
              rw (ef, eb)
                (Linked-splice ((grown s k w lvl).fwd j) ((grown s k w lvl).bck j) s.top s.head
                  (at_level s.height j (lo o val s k ns v b))
                  (at_level s.height j (hi o val s k ns v b)) s.tail (old-Distinct j) (old-out j)
                  (grown-Linked j a c))))
      | inr e ↦
          let same = sp.outside j (ground arith) in
          rw (grown-level j) (rw e (rw (same.0, same.1) (grown-Linked j a c)))
    ]

    -- The nodes that were there keep their fields.
    pub kept :
        (z : Ptr)
        → (z == s.top) ≡ false
        → ((grown s k w lvl).live z ≡ s.live z)
          × ((grown s k w lvl).height z ≡ s.height z)
          × ((grown s k w lvl).key z ≡ s.key z)
          × ((grown s k w lvl).obj z ≡ s.obj z)
    unfolding new_node
    kept z h = (rw h refl, rw h refl, rw h refl, rw h refl)
