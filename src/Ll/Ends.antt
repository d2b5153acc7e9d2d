-- ===== src/Ll/Ends.antt =====
-- ll_shift, ll_unshift, ll_link and ll_pop of src/gvar/geostreamd/ll.c against lists.
use qjhart_geostreams.Prelude.{◌≡◌, ◌≢◌, refl, sym, subst, false, List, [], ◌∷◌, ◌++◌, arith}
use qjhart_geostreams.Ll.{Ptr, null, Mem, update, shift, unshift, pop, link}
use qjhart_geostreams.Ll.Split.{
  Fwd-ne_null, Fwd-retarget, Fwd-split, Bwd-split, Bwd-append, Distinct-split, Distinct-prefix,
  Distinct-snoc,
}
use qjhart_geostreams.Ll.Chain.{
  has, Distinct, Bwd, IsList, Spares, Detached, Returns, has-append, Fwd-append, Fwd-update,
  Bwd-update, Bwd-last,
}

-- ll_shift on an empty list returns NULL and leaves it empty.
pub shift-nil :
    {m : Mem} → IsList m [] → Returns (λ p n. (p ≡ null) × IsList n [] × Spares [] m n) (shift m)
unfolding shift
shift-nil v = ground arith

-- ll_shift of a list that is not empty returns its first item, takes it out of the list, clears its
-- fields, and writes nothing outside the list.
pub shift-cons :
    {m : Mem} {x : Ptr} {xs : List Ptr}
    → IsList m (x ∷ xs)
    → Returns (λ p n. (p ≡ x) × IsList n xs × Detached n x × Spares (x ∷ xs) m n) (shift m)
unfolding shift
shift-cons {xs = []} v = ground arith
shift-cons {m} {x} {xs = y ∷ ys} v =
    let h = m.ll.head in
    ground (
      arith,
      Fwd-update m.items.next h null (m.items.next y) ys null,
      Bwd-update m.items.prev h null y ys m.ll.tail,
      Bwd-update (update m.items.prev h null) (m.items.next h) null y ys m.ll.tail,
      Bwd-last m.items.prev x y ys m.ll.tail v.backward.1,
    )

-- ll_unshift of an item that is not in the list puts it in front, and writes nothing but the item
-- and the list.
pub unshift_lem :
    {m : Mem} {xs : List Ptr} (c : Ptr)
    → IsList m xs
    → c ≢ null
    → has c xs ≡ false
    → Returns (λ _ n. IsList n (c ∷ xs) × Spares (c ∷ xs) m n) (unshift c m)
unfolding unshift
unshift_lem {xs = []} c v ne out = ground arith
unshift_lem {m} {xs = y ∷ ys} c v ne out = ground (
  arith,
  Fwd-update m.items.next c y (m.items.next y) ys null,
  Bwd-update m.items.prev c null y ys m.ll.tail,
  Bwd-update (update m.items.prev c null) y c y ys m.ll.tail,
)

-- ll_pop of an empty list returns NULL and leaves it empty.
pub pop-nil :
    {m : Mem} → IsList m [] → Returns (λ p n. (p ≡ null) × IsList n [] × Spares [] m n) (pop m)
unfolding pop
pop-nil v = ground arith

-- ll_pop of a list that is not empty returns its last item, takes it out of the list, clears its
-- fields, and writes nothing outside the list.
pub pop-snoc :
    {m : Mem} (xs : List Ptr) (c : Ptr)
    → IsList m (xs ++ c ∷ [])
    → Returns (λ p n. (p ≡ c) × IsList n xs × Detached n c × Spares (xs ++ c ∷ []) m n) (pop m)
unfolding pop
pop-snoc [] c v = ground arith
pop-snoc {m} (x ∷ xs) c v =
    let t = m.ll.tail in
    let (fs, ne, fe) = Fwd-split m.items.next m.ll.head (x ∷ xs) c [] null v.forward in
    let (bs, be) = Bwd-split m.items.prev null (x ∷ xs) c [] t v.backward in
    let (nc, _, _) = Distinct-split (x ∷ xs) c [] v.distinct in
    let d : Distinct (x ∷ xs) = Distinct-prefix (x ∷ xs) (c ∷ []) v.distinct in
    let l = m.items.prev t in
    let bs' : Bwd m.items.prev null (x ∷ xs) l =
      subst (λ k. Bwd m.items.prev null (x ∷ xs) (m.items.prev k)) (sym be) bs in
    let last = Bwd-last m.items.prev null x xs l bs' in
    let fwd = Fwd-retarget m.items.next m.items.prev m.ll.head null x xs c l null fs bs' d in
    let bwd =
      Bwd-update m.items.prev t null null (x ∷ xs) l bs'
        (subst (λ k. has k (x ∷ xs) ≡ false) (sym be) nc) in
    let ne_l = Fwd-ne_null m.items.next m.ll.head (x ∷ xs) c l fs last in
    ground (arith, has-append l (x ∷ xs) (c ∷ []), has-append c (x ∷ xs) (c ∷ []))

-- ll_link of an item that is not in the list puts it at the end, and writes nothing but the item
-- and the list.
pub link_lem :
    {m : Mem} (xs : List Ptr) (c : Ptr)
    → IsList m xs
    → c ≢ null
    → has c xs ≡ false
    → Returns (λ _ n. IsList n (xs ++ c ∷ []) × Spares (xs ++ c ∷ []) m n) (link c m)
unfolding link
link_lem [] c v ne out = ground arith
link_lem {m} (x ∷ xs) c v ne out =
    let t = m.ll.tail in
    let next' = update m.items.next c null in
    let last = Bwd-last m.items.prev null x xs t v.backward in
    let ne_t = Fwd-ne_null m.items.next m.ll.head (x ∷ xs) null t v.forward last in
    let f0 = Fwd-update m.items.next c null m.ll.head (x ∷ xs) null v.forward out in
    let f1 =
      Fwd-retarget next' m.items.prev m.ll.head null x xs null t c f0 v.backward v.distinct in
    let b0 = Bwd-update m.items.prev c t null (x ∷ xs) t v.backward out in
    let f2 =
      Fwd-append (update next' t c) m.ll.head (x ∷ xs) c (c ∷ []) null f1
        (refl, ne, ground arith) in
    let b2 =
      Bwd-append (update m.items.prev c t) null (x ∷ xs) t (c ∷ []) c b0 (ground arith, refl) in
    let d2 = Distinct-snoc (x ∷ xs) c v.distinct out in
    ground (arith, has-append t (x ∷ xs) (c ∷ []), has-append c (x ∷ xs) (c ∷ []))
