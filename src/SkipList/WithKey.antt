-- ===== src/SkipList/WithKey.antt =====
-- `removeWithKey` of src/dct/skip_list/SkipList.h is `remove`, and deletes the key that the list
-- held.
use qjhart_geostreams.Prelude.{
  ℕ, ◌<◌, ◌≡◌, ◌⊎◌, inl, inr, refl, true, Option, none, some, List, length, Bool-cases,
}
use qjhart_geostreams.SkipList.{Ptr, KeyOrder, SkipList, remove, ◌>>=◌}
use qjhart_geostreams.SkipList.Ordered.{find}
use qjhart_geostreams.SkipList.Shape.{key_at, IsSkip, contents}
use qjhart_geostreams.SkipList.Search.{locate_lem}
use qjhart_geostreams.SkipList.Retrieve.{IsBelow, not_less_tail, goal, find-miss}
use qjhart_geostreams.SkipList.Traverse.{remove_with_key}

-- Whatever `remove` does, `removeWithKey` does; the key that it deletes is the stored one that
-- equals `*k`, and it deletes none if the list has none.
pub remove_with_key_lem {ℓ} :
    {K : Type ℓ} (o : KeyOrder K) (val : Ptr → K) (s : SkipList) (k : Ptr) (ns : List Ptr) (f : ℕ)
    → IsSkip o val s ns
    → IsBelow o val s k
    → length ns < f
    → (deleted : Option Ptr) × (remove_with_key o val f s k
        ≡ (remove o val f s k >>= λ r. some (r.0, deleted, r.1)))
      × (((deleted ≡ none) × (find o (val k) (contents val s ns) ≡ none))
          ⊎ ((p : Ptr) × (deleted ≡ some p) × (o.same (val p) (val k) ≡ true)))
unfolding remove_with_key
remove_with_key_lem o val s k ns f v b n =
    let (vec, run, _) = locate_lem o val s k ns v (not_less_tail o val s k b) f n in
    let end = goal o val s k ns v b in
    elim (Bool-cases (o.same (key_at val s end) (val k))) [
      | inl e ↦ (some (s.key end), rw run (rw e refl), inr (s.key end, refl, e))
      | inr e ↦ (none, rw run (rw e refl), inl (refl, find-miss o val s k ns v b e))
    ]
