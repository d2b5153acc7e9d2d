-- ===== src/Ll/Unlink.antt =====
-- ll_unlink of src/gvar/geostreamd/ll.c against lists.
use qjhart_geostreams.Prelude.{
  ◌≡◌, ◌≢◌, sym, subst, append-nil, true, false, List, [], ◌∷◌, ◌++◌, arith,
}
use qjhart_geostreams.Ll.{Ptr, null, Mem, update, unlink}
use qjhart_geostreams.Ll.Chain.{
  has, Distinct, Fwd, Bwd, IsList, Spares, Detached, Returns, has-append, Fwd-append, Fwd-update,
  Bwd-update, Bwd-last,
}
use qjhart_geostreams.Ll.Split.{
  Fwd-ne_null, Fwd-retarget, Fwd-split, Bwd-split, Bwd-append, Bwd-retarget, Distinct-split,
  Distinct-apart, Distinct-prefix, Distinct-suffix,
}

-- What the chains of `xs ++ c ∷ ys` say about the parts, with `p` and `n` for the neighbours of `c`.
pub record Parts (m : Mem) (xs : List Ptr) (c : Ptr) (ys : List Ptr) : Type 0 where
  pub ne : c ≢ null
  pub fs : Fwd m.items.next m.ll.head xs c
  pub fe : Fwd m.items.next (m.items.next c) ys null
  pub bs : Bwd m.items.prev null xs (m.items.prev c)
  pub be : Bwd m.items.prev c ys m.ll.tail
  pub out_xs : has c xs ≡ false
  pub out_ys : has c ys ≡ false
  pub dxy : Distinct (xs ++ ys)
  pub dx : Distinct xs
  pub dy : Distinct ys

pub parts :
    (m : Mem) (xs : List Ptr) (c : Ptr) (ys : List Ptr) → IsList m (xs ++ c ∷ ys) → Parts m xs c ys
parts m xs c ys v =
    let (fs, ne, fe) = Fwd-split m.items.next m.ll.head xs c ys null v.forward in
    let (bs, be) = Bwd-split m.items.prev null xs c ys m.ll.tail v.backward in
    let (ox, oy, d) = Distinct-split xs c ys v.distinct in
    record {
      ne = ne;
      fs = fs;
      fe = fe;
      bs = bs;
      be = be;
      out_xs = ox;
      out_ys = oy;
      dxy = d;
      dx = Distinct-prefix xs (c ∷ ys) v.distinct;
      dy = Distinct-suffix xs ys d;
    }

-- The chains round an item between two others, with the neighbours joined.
module _ (m : Mem) (x : Ptr) (xs : List Ptr) (c y : Ptr) (ys : List Ptr)
    (v : Parts m (x ∷ xs) c (y ∷ ys)) where
  pub record Joined : Type 0 where
    pub p_in : has (m.items.prev c) (x ∷ xs) ≡ true
    pub p_ne : m.items.prev c ≢ null
    pub p_out : has (m.items.prev c) (y ∷ ys) ≡ false
    pub n_out : has (m.items.next c) (x ∷ xs) ≡ false
    pub t_in : has m.ll.tail (y ∷ ys) ≡ true
    pub forward :
        Fwd
          (update m.items.next (m.items.prev c) (m.items.next c))
          m.ll.head
          (x ∷ xs ++ y ∷ ys)
          null
    pub backward :
        Bwd
          (update m.items.prev (m.items.next c) (m.items.prev c))
          null
          (x ∷ xs ++ y ∷ ys)
          m.ll.tail

  pub joined : Joined
  joined =
      let p = m.items.prev c in
      let n = m.items.next c in
      let p_in = Bwd-last m.items.prev null x xs p v.bs in
      let p_out = Distinct-apart (x ∷ xs) (y ∷ ys) p v.dxy p_in in
      let n_out : has n (x ∷ xs) ≡ false =
        ground (arith, v.fe.0, Distinct-apart (x ∷ xs) (y ∷ ys) n v.dxy) in
      let f1 = Fwd-retarget m.items.next m.items.prev m.ll.head null x xs c p n v.fs v.bs v.dx in
      let f2 = Fwd-update m.items.next p n n (y ∷ ys) null v.fe p_out in
      let b1 = Bwd-update m.items.prev n p null (x ∷ xs) p v.bs n_out in
      let b2 : Bwd (update m.items.prev n p) p (y ∷ ys) m.ll.tail =
        subst (λ k. Bwd (update m.items.prev k p) p (y ∷ ys) m.ll.tail) (sym v.fe.0)
          (Bwd-retarget m.items.prev c y ys m.ll.tail p v.be v.dy) in
      record {
        p_in = p_in;
        p_ne = Fwd-ne_null m.items.next m.ll.head (x ∷ xs) c p v.fs p_in;
        p_out = p_out;
        n_out = n_out;
        t_in = Bwd-last m.items.prev c y ys m.ll.tail v.be;
        forward = Fwd-append (update m.items.next p n) m.ll.head (x ∷ xs) n (y ∷ ys) null f1 f2;
        backward = Bwd-append (update m.items.prev n p) null (x ∷ xs) p (y ∷ ys) m.ll.tail b1 b2;
      }

unlink_inner :
    {m : Mem} (x : Ptr) (xs : List Ptr) (c y : Ptr) (ys : List Ptr)
    → IsList m (x ∷ xs ++ c ∷ y ∷ ys)
    → Returns
        (λ _ n. IsList n (x ∷ xs ++ y ∷ ys) × Detached n c × Spares (x ∷ xs ++ c ∷ y ∷ ys) m n)
        (unlink c m)
unfolding unlink
unlink_inner {m} x xs c y ys v =
    let w = parts m (x ∷ xs) c (y ∷ ys) v in
    let j = joined m x xs c y ys w in
    let p = m.items.prev c in
    let n = m.items.next c in
    let all = x ∷ xs ++ y ∷ ys in
    let out : has c all ≡ false =
      ground (arith, has-append c (x ∷ xs) (y ∷ ys), w.out_xs, w.out_ys) in
    let f = Fwd-update (update m.items.next p n) c null m.ll.head all null j.forward out in
    let b = Bwd-update (update m.items.prev n p) c null null all m.ll.tail j.backward out in
    ground (
      arith,
      has-append p (x ∷ xs) (c ∷ y ∷ ys),
      has-append n (x ∷ xs) (c ∷ y ∷ ys),
      has-append c (x ∷ xs) (c ∷ y ∷ ys),
    )

unlink_first :
    {m : Mem} (c : Ptr) (ys : List Ptr)
    → IsList m (c ∷ ys)
    → Returns (λ _ n. IsList n ys × Detached n c × Spares (c ∷ ys) m n) (unlink c m)
unfolding unlink
unlink_first c [] v = ground arith
unlink_first {m} c (y ∷ ys) v =
    let n = m.items.next c in
    let t = m.ll.tail in
    let t_in = Bwd-last m.items.prev c y ys t v.backward.1 in
    let f = Fwd-update m.items.next c null n (y ∷ ys) null v.forward.2 v.distinct.0 in
    ground (
      arith,
      Bwd-update m.items.prev n (m.items.prev c) y ys t,
      Bwd-update (update m.items.prev n (m.items.prev c)) c null y ys t,
    )

unlink_last :
    {m : Mem} (x : Ptr) (xs : List Ptr) (c : Ptr)
    → IsList m (x ∷ xs ++ c ∷ [])
    → Returns
        (λ _ n. IsList n (x ∷ xs ++ []) × Detached n c × Spares (x ∷ xs ++ c ∷ []) m n)
        (unlink c m)
unfolding unlink
unlink_last {m} x xs c v =
    let w = parts m (x ∷ xs) c [] v in
    let p = m.items.prev c in
    let n = m.items.next c in
    let p_in = Bwd-last m.items.prev null x xs p w.bs in
    let p_ne = Fwd-ne_null m.items.next m.ll.head (x ∷ xs) c p w.fs p_in in
    let f0 = Fwd-retarget m.items.next m.items.prev m.ll.head null x xs c p n w.fs w.bs w.dx in
    let f = Fwd-update (update m.items.next p n) c null m.ll.head (x ∷ xs) n f0 w.out_xs in
    let b = Bwd-update m.items.prev c null null (x ∷ xs) p w.bs w.out_xs in
    ground
      (arith, append-nil (x ∷ xs), has-append p (x ∷ xs) (c ∷ []), has-append c (x ∷ xs) (c ∷ []))

-- ll_unlink of an item of the list takes it out, wherever it stands: the others keep their order,
-- the item's own fields are cleared, and nothing outside the list is written.
pub unlink_lem :
    {m : Mem} (xs : List Ptr) (c : Ptr) (ys : List Ptr)
    → IsList m (xs ++ c ∷ ys)
    → Returns (λ _ n. IsList n (xs ++ ys) × Detached n c × Spares (xs ++ c ∷ ys) m n) (unlink c m)
unlink_lem [] c ys v = unlink_first c ys v
unlink_lem (x ∷ xs) c [] v = unlink_last x xs c v
unlink_lem (x ∷ xs) c (y ∷ ys) v = unlink_inner x xs c y ys v

-- ll_unlink of a detached item that is not in the list changes nothing, as the comment of
-- cache_get_cfile counts on.
pub unlink-Detached :
    {m : Mem} (xs : List Ptr) (c : Ptr)
    → IsList m xs
    → c ≢ null
    → has c xs ≡ false
    → Detached m c
    → Returns (λ _ n. IsList n xs × Detached n c × Spares [] m n) (unlink c m)
unfolding unlink
unlink-Detached [] c v ne out d = ground arith
unlink-Detached {m} (x ∷ xs) c v ne out d =
    let t_in = Bwd-last m.items.prev null x xs m.ll.tail v.backward in
    let f = Fwd-update m.items.next c null m.ll.head (x ∷ xs) null v.forward out in
    let b = Bwd-update m.items.prev c null null (x ∷ xs) m.ll.tail v.backward out in ground arith
