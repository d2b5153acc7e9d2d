-- ===== src/SkipList/Insert.antt =====
-- `insert` of src/dct/skip_list/SkipList.h keeps the list a skip list.
use qjhart_geostreams.Prelude.{
  ℕ, suc, ◌-◌, ◌<◌, ◌≡◌, ◌⊎◌, inl, inr, refl, ap, ◌≢◌, Bool, true, false, none, some, List, ◌==◌,
  ltb, arith, length, Bool-cases, if◌then◌else◌,
}
use qjhart_geostreams.SkipList.{
  Ptr, null, KeyOrder, SkipList, new_node, new_level, raise, insert, ◌>>=◌,
}
use qjhart_geostreams.SkipList.Ordered.{find, put}
use qjhart_geostreams.SkipList.Shape.{key_at, IsSkip, contents}
use qjhart_geostreams.SkipList.Height.{new_level_lem}
use qjhart_geostreams.SkipList.Search.{locate_lem}
use qjhart_geostreams.SkipList.Retrieve.{IsBelow, not_less_tail, goal, find-hit, find-miss}
use qjhart_geostreams.SkipList.Splice.{link_lem}
use qjhart_geostreams.SkipList.Grown.{grown, raised, ready}
use qjhart_geostreams.SkipList.Inserted.{
  linked_in, new_nodes, same_key, tail_apart, linked_in-IsSkip, linked_in-contents,
}

module _ {ℓ} {K : Type ℓ} (o : KeyOrder K) (val : Ptr → K) (s : SkipList) (k : Ptr) (ns : List Ptr)
    (v : IsSkip o val s ns) (b : IsBelow o val s k) where
  module _ (f w : ℕ) (draws : ℕ → Bool) (fuel : length ns < f) (kn : (k == null) ≡ false) where
    -- A key that the list has is not inserted again.
    insert-hit :
        o.same (key_at val s (goal o val s k ns v b)) (val k) ≡ true
        → insert o val f s k w draws ≡ some (false, s)
    unfolding insert
    insert-hit h =
        let (vec, run, trail) = locate_lem o val s k ns v (not_less_tail o val s k b) f fuel in
        rw run (rw h refl)

    insert-miss :
        o.same (key_at val s (goal o val s k ns v b)) (val k) ≡ false
        → (s' : SkipList) × (ns' : List Ptr) × (insert o val f s k w draws ≡ some (true, s'))
          × IsSkip o val s' ns'
          × (contents val s' ns' ≡ put o (val k) w (contents val s ns))
          × (key_at val s' s'.tail ≡ key_at val s s.tail)
    unfolding insert new_node
    insert-miss h =
        let (vec, run, trail) = locate_lem o val s k ns v (not_less_tail o val s k b) f fuel in
        let lvl = new_level s.max_height draws in
        let drawn = new_level_lem s.max_height draws (omega (arith, v.low, v.high)) in
        let vec1 =
          if ltb s.cur_height lvl
          then raise (lvl - s.cur_height) (suc s.cur_height) s.head vec
          else vec in
        let on_trail = raised o val s k ns v b lvl vec trail in
        let (g, b', linked, sp) =
          link_lem lvl 1 s.top vec1 (grown s k w lvl)
            (ready o val s k ns v b w lvl drawn.1 vec1 on_trail) in
        (
          linked_in o val s k ns v b w lvl drawn.1 g b',
          new_nodes o val s k ns v b w lvl drawn.1 kn drawn.0 h vec1 on_trail g b' sp,
          rw run (rw h (ap (λ m. m >>= λ s2. some (true, s2)) linked)),
          linked_in-IsSkip o val s k ns v b w lvl drawn.1 kn drawn.0 h vec1 on_trail g b' sp,
          linked_in-contents o val s k ns v b w lvl drawn.1 kn drawn.0 h vec1 on_trail g b' sp,
          same_key o val s k ns v b w lvl drawn.1 kn drawn.0 h vec1 on_trail g b' sp s.tail
              (tail_apart o val s k ns v b w lvl drawn.1 kn drawn.0 h vec1 on_trail g b' sp),
        )

  -- The list refused the key and is as before, or it took it and holds the map's entries.
  abbrev pub InsertOutcome : ℕ → Ptr → (ℕ → Bool) → Type ℓ
  InsertOutcome f w draws =
      ((find o (val k) (contents val s ns) ≢ none) × (insert o val f s k w draws ≡ some (false, s)))
      ⊎ (find o (val k) (contents val s ns) ≡ none)
        × ((s' : SkipList) × (ns' : List Ptr) × (insert o val f s k w draws ≡ some (true, s'))
            × IsSkip o val s' ns'
            × (contents val s' ns' ≡ put o (val k) w (contents val s ns))
            × (key_at val s' s'.tail ≡ key_at val s s.tail))

  -- An insertion of a key below the tail's ends without a fault, whatever height is drawn. It
  -- returns whether the list lacked the key; if it did, the list is a skip list again, with the
  -- entries of the ordered map after `put` and the tail's key as before, and otherwise nothing
  -- has changed.
  pub insert_lem :
      (f w : ℕ) (draws : ℕ → Bool) → length ns < f → (k == null) ≡ false → InsertOutcome f w draws
  insert_lem f w draws fuel kn =
      elim (Bool-cases (o.same (key_at val s (goal o val s k ns v b)) (val k))) [
        | inl e ↦
            inl ((λ n. ground (arith, find-hit o val s k ns v b e)), insert-hit f w draws fuel kn e)
        | inr e ↦ inr (find-miss o val s k ns v b e, insert-miss f w draws fuel kn e)
      ]
