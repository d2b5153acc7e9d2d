-- ===== src/Ll/ToHead.antt =====
-- ll_tohead of src/gvar/geostreamd/ll.c against lists, and what it does to the last item.
use qjhart_geostreams.Prelude.{◌≡◌, ◌≢◌, sym, subst, false, List, [], ◌∷◌, ◌++◌, arith}
use qjhart_geostreams.Ll.{Ptr, null, Mem, update, tohead}
use qjhart_geostreams.Ll.Chain.{
  has, Fwd, Bwd, IsList, Spares, Returns, Returns-mono, has-append, Fwd-update, Bwd-update,
  Bwd-last,
}
use qjhart_geostreams.Ll.Split.{Fwd-ne_null, Bwd-retarget}
use qjhart_geostreams.Ll.Unlink.{parts, joined}

-- ll_tohead of the first item leaves the list as it is.
pub tohead_first :
    {m : Mem} (c : Ptr) (ys : List Ptr)
    → IsList m (c ∷ ys)
    → Returns (λ _ n. IsList n (c ∷ ys) × Spares [] m n) (tohead c m)
unfolding tohead
tohead_first c ys v = ground arith

-- ll_tohead of an item that is neither first nor last moves it to the front, keeps the order of
-- the others, and writes nothing outside the list.
pub tohead_inner :
    {m : Mem} (x : Ptr) (xs : List Ptr) (c y : Ptr) (ys : List Ptr)
    → IsList m (x ∷ xs ++ c ∷ y ∷ ys)
    → Returns
        (λ _ n. IsList n (c ∷ x ∷ xs ++ y ∷ ys) × Spares (x ∷ xs ++ c ∷ y ∷ ys) m n)
        (tohead c m)
unfolding tohead
tohead_inner {m} x xs c y ys v =
    let w = parts m (x ∷ xs) c (y ∷ ys) v in
    let j = joined m x xs c y ys w in
    let p = m.items.prev c in
    let n = m.items.next c in
    let h = m.ll.head in
    let t = m.ll.tail in
    let rest = xs ++ y ∷ ys in
    let prev1 = update m.items.prev n p in
    let out : has c (x ∷ rest) ≡ false =
      ground (arith, has-append c (x ∷ xs) (y ∷ ys), w.out_xs, w.out_ys) in
    let f = Fwd-update (update m.items.next p n) c h h (x ∷ rest) null j.forward out in
    let b1 : Bwd (update prev1 h c) c (x ∷ rest) t =
      subst (λ k. Bwd (update prev1 k c) c (x ∷ rest) t) (sym w.fs.0)
        (Bwd-retarget prev1 null x rest t c j.backward w.dxy) in
    let b = Bwd-update (update prev1 h c) c null c (x ∷ rest) t b1 out in
    ground (
      arith,
      has-append p (x ∷ xs) (c ∷ y ∷ ys),
      has-append n (x ∷ xs) (c ∷ y ∷ ys),
      has-append c (x ∷ xs) (c ∷ y ∷ ys),
    )

last_ends :
    (next prev : Ptr → Ptr) (f b z : Ptr) (zs : List Ptr) (l : Ptr)
    → Fwd next f (z ∷ zs) null
    → Bwd prev b (z ∷ zs) l
    → next l ≡ null
last_ends next prev f b z [] l c d = ground arith
last_ends next prev f b z (y ∷ ys) l c d = last_ends next prev (next z) z y ys l c.2 d.1

tail_ends :
    {n : Mem} (zs : List Ptr) → IsList n zs → n.ll.tail ≢ null → n.items.next n.ll.tail ≡ null
tail_ends [] v ne = absurd (ne v.backward)
tail_ends {n} (z ∷ zs) v ne =
    last_ends n.items.next n.items.prev n.ll.head null z zs n.ll.tail v.forward v.backward

tohead_last :
    {m : Mem} (x : Ptr) (xs : List Ptr) (c : Ptr)
    → IsList m (x ∷ xs ++ c ∷ [])
    → Returns
        (λ _ n. (n.ll.tail ≡ c) × (n.ll.head ≡ c) × (c ≢ null) × (n.items.next c ≢ null))
        (tohead c m)
unfolding tohead
tohead_last {m} x xs c v =
    let w = parts m (x ∷ xs) c [] v in
    let p_in = Bwd-last m.items.prev null x xs (m.items.prev c) w.bs in
    let p_ne = Fwd-ne_null m.items.next m.ll.head (x ∷ xs) c (m.items.prev c) w.fs p_in in
    ground arith

-- ll_tohead of the last item of a list of at least two items leaves `tail` at that item, which is
-- now the head and has a successor: the result represents no list, whatever its items.
pub tohead_last_breaks :
    {m : Mem} (x : Ptr) (xs : List Ptr) (c : Ptr)
    → IsList m (x ∷ xs ++ c ∷ [])
    → Returns
        (λ _ n. (n.ll.tail ≡ c) × (n.ll.head ≡ c) × ((zs : List Ptr) → ¬ IsList n zs))
        (tohead c m)
tohead_last_breaks {m} x xs c v =
    Returns-mono _ _ (tohead c m) (tohead_last x xs c v)
      λ _ n (t, h, ne, next_ne). (t, h, λ zs l. next_ne (rw t at (tail_ends zs l (rw t ne))))
