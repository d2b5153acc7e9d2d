-- ===== src/SkipList/Iterate.antt =====
-- The iteration of src/dct/skip_list/SkipList.h, as the trees of regions step through a list.
use qjhart_geostreams.Prelude.{◌≡◌, true, false, some, List, [], ◌∷◌, ◌++◌, ◌==◌, arith}
use qjhart_geostreams.SkipList.{Ptr, KeyOrder, SkipList, reaches}
use qjhart_geostreams.SkipList.Line.{last_or, Linked, Linked-next}
use qjhart_geostreams.SkipList.Level.{All-imp, All-split}
use qjhart_geostreams.SkipList.Shape.{IsSkip, last_or-All}
use qjhart_geostreams.SkipList.Traverse.{Between, between, line_lem, ends_apart, get_next, get_prev}

Linked-prev :
    (f b : Ptr → Ptr) (x a : Ptr) (xs ys : List Ptr) (t : Ptr)
    → Linked f b a (xs ++ x ∷ ys) t
    → b x ≡ last_or a xs
Linked-prev f b x a [] ys t l = l.1
Linked-prev f b x a (y ∷ xs) ys t l = Linked-prev f b x y xs ys t l.2

-- From the node before a node, or from the head, `getNext` leads to it, and `getPrev` leads back.
pub next-prev {ℓ} :
    {K : Type ℓ} (o : KeyOrder K) (val : Ptr → K) (s : SkipList) (xs ys : List Ptr) (x : Ptr)
    → IsSkip o val s (xs ++ x ∷ ys)
    → (get_next s (last_or s.head xs) ≡ some x) × (get_prev s x ≡ some (last_or s.head xs))
unfolding get_next get_prev
next-prev o val s xs ys x v =
    let (before, here) = All-split (Between s) xs (x ∷ ys) (between o val s (xs ++ x ∷ ys) v) in
    let chain = line_lem o val s (xs ++ x ∷ ys) v in
    let from : (reaches s 1 (last_or s.head xs) ≡ true) × ((last_or s.head xs == s.tail) ≡ false) =
      last_or-All (λ z. (reaches s 1 z ≡ true) × ((z == s.tail) ≡ false)) s.head xs
        (ground (arith, v.head_end, v.low, v.high), ends_apart o val s (xs ++ x ∷ ys) v)
        (All-imp {Q = λ z. (reaches s 1 z ≡ true) × ((z == s.tail) ≡ false)} xs
          (λ z h b. (ground arith, b.3)) before) in
    (
      ground (arith, Linked-next (s.fwd 1) (s.bck 1) s.head xs (x ∷ ys) s.tail chain),
      ground (arith, Linked-prev (s.fwd 1) (s.bck 1) x s.head xs ys s.tail chain),
    )
