-- ===== src/SkipList/Remove.antt =====
-- `remove` of src/dct/skip_list/SkipList.h keeps the list a skip list.
use qjhart_geostreams.Prelude.{
  ℕ, ◌<◌, ◌≡◌, ◌⊎◌, inl, inr, refl, ◌≢◌, true, false, none, some, List, ◌++◌, arith, length,
  Bool-cases,
}
use qjhart_geostreams.SkipList.{Ptr, KeyOrder, SkipList, remove}
use qjhart_geostreams.SkipList.Ordered.{find, delete}
use qjhart_geostreams.SkipList.Shape.{key_at, IsSkip, contents}
use qjhart_geostreams.SkipList.Search.{lows, locate_lem}
use qjhart_geostreams.SkipList.Retrieve.{
  IsBelow, not_less_tail, goal, hit_split, find-hit, find-miss,
}
use qjhart_geostreams.SkipList.Cut.{unlink_lem}
use qjhart_geostreams.SkipList.Lower.{lower_lem}
use qjhart_geostreams.SkipList.Out.{loose, clear}
use qjhart_geostreams.SkipList.Taken.{taken, taken-IsSkip, taken-contents}

module _ {ℓ} {K : Type ℓ} (o : KeyOrder K) (val : Ptr → K) (s : SkipList) (k : Ptr) (ns : List Ptr)
    (v : IsSkip o val s ns) (b : IsBelow o val s k) where
  module _ (f : ℕ) (fuel : length ns < f) where
    remove-hit :
        o.same (key_at val s (goal o val s k ns v b)) (val k) ≡ true
        → (s' : SkipList) × (ns' : List Ptr) × (remove o val f s k ≡ some (true, s'))
          × IsSkip o val s' ns'
          × (contents val s' ns' ≡ delete o (val k) (contents val s ns))
          × (key_at val s' s'.tail ≡ key_at val s s.tail)
    unfolding remove
    remove-hit h =
        let (vec, run, trail) = locate_lem o val s k ns v (not_less_tail o val s k b) f fuel in
        let (ys, highs_eq, whole) = hit_split o val s k ns v b h in
        let (g, b', unlinked, cut) =
          unlink_lem s.cur_height 1 (goal o val s k ns v b) vec s
            (loose o val s k ns v b ys highs_eq whole vec trail)
            (clear o val s k ns v b ys highs_eq whole vec trail) in
        let (c', lowered, w) =
          lower_lem o val (taken o val s k ns v b ys highs_eq whole vec trail g b' cut)
            (lows o val s k ns ++ ys)
            (taken-IsSkip o val s k ns v b ys highs_eq whole vec trail g b' cut) in
        (
          record (taken o val s k ns v b ys highs_eq whole vec trail g b' cut) { cur_height = c' },
          lows o val s k ns ++ ys,
          rw run (rw h (rw unlinked (rw lowered refl))),
          w,
          taken-contents o val s k ns v b ys highs_eq whole vec trail g b' cut h,
          refl,
        )

    remove-miss :
        o.same (key_at val s (goal o val s k ns v b)) (val k) ≡ false
        → remove o val f s k ≡ some (false, s)
    unfolding remove
    remove-miss h =
        let (vec, run, trail) = locate_lem o val s k ns v (not_less_tail o val s k b) f fuel in
        rw run (rw h refl)

    -- A removal of a key below the tail's ends without a fault. It returns whether the list had
    -- the key; if it did, the list is a skip list again, with the entries of the ordered map after
    -- `delete`, and the tail's key as before, and otherwise nothing has changed.
    pub remove_lem :
        ((find o (val k) (contents val s ns) ≡ none) × (remove o val f s k ≡ some (false, s)))
        ⊎ (find o (val k) (contents val s ns) ≢ none)
          × ((s' : SkipList) × (ns' : List Ptr) × (remove o val f s k ≡ some (true, s'))
              × IsSkip o val s' ns'
              × (contents val s' ns' ≡ delete o (val k) (contents val s ns))
              × (key_at val s' s'.tail ≡ key_at val s s.tail))
    remove_lem = elim (Bool-cases (o.same (key_at val s (goal o val s k ns v b)) (val k))) [
      | inl e ↦
          let r = remove-hit e in
          inr ((λ n. ground (arith, find-hit o val s k ns v b e)), (r.0, r.1, r.2, r.3, r.4, r.5))
      | inr e ↦ inl (find-miss o val s k ns v b e, remove-miss e)
    ]
