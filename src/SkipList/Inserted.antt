-- ===== src/SkipList/Inserted.antt =====
-- What `insert` of src/dct/skip_list/SkipList.h makes of a skip list: one with the new node.
use qjhart_geostreams.Prelude.{
  ℕ, ◌+◌, ◌≤◌, ◌≡◌, inl, inr, refl, append_assoc, ap, sym, ◌∙◌, subst, true, false, List, [], ◌∷◌,
  ◌++◌, ◌==◌, ◌&&◌, leb, ltb, arith, Bool-cases, ==_refl,
}
use qjhart_geostreams.SkipList.{Ptr, null, KeyOrder, SkipList, new_node}
use qjhart_geostreams.SkipList.Line.{has, Distinct, line, has-append, Distinct-put, has-apart}
use qjhart_geostreams.SkipList.Level.{All, All-imp, All-both, All-append}
use qjhart_geostreams.SkipList.Ordered.{
  Ascending, put, below-from, All-below, All-from, All-apart, put-skip, Ascending-put,
  Ascending-frame, entries-frame, entries-append,
}
use qjhart_geostreams.SkipList.Shape.{key_at, IsSkip, IsNode, contents}
use qjhart_geostreams.SkipList.Retrieve.{IsBelow, goal}
use qjhart_geostreams.SkipList.Splice.{Splices}
use qjhart_geostreams.SkipList.Gap.{lo, hi, before, both, top-out, before-apart}
use qjhart_geostreams.SkipList.Grown.{grown, spliced-Linked, kept}

module _ {ℓ} {K : Type ℓ} (o : KeyOrder K) (val : Ptr → K) (s : SkipList) (k : Ptr) (ns : List Ptr)
    (v : IsSkip o val s ns) (b : IsBelow o val s k) where
  module _ (w lvl : ℕ) (high : lvl ≤ s.max_height) where
    -- The list with the node linked in.
    abbrev pub linked_in : (f b' : ℕ → Ptr → Ptr) → SkipList
    linked_in f b' = record (grown s k w lvl) { fwd = f; bck = b' }

    module _ (kn : (k == null) ≡ false) (low : 1 ≤ lvl)
        (miss : o.same (key_at val s (goal o val s k ns v b)) (val k) ≡ false) (vec : ℕ → Ptr)
        (trail : (j : ℕ) → 1 ≤ j → j ≤ lvl → vec j ≡ before o val s k ns v b j)
        (f b' : ℕ → Ptr → Ptr) (sp : Splices (grown s k w lvl) s.top vec lvl 1 f b') where
      abbrev pub new_nodes : List Ptr
      new_nodes = lo o val s k ns v b ++ s.top ∷ hi o val s k ns v b

      whole : lo o val s k ns v b ++ hi o val s k ns v b ≡ ns
      whole = below-from o (key_at val s) (val k) ns

      -- A property of the old nodes and of the new one.
      All-new : (P : Ptr → Type 0) → All P ns → P s.top → All P new_nodes
      All-new P a n =
          let r = both o val s k ns v b P a in
          All-append P (lo o val s k ns v b) (s.top ∷ hi o val s k ns v b) r.0 (n, r.1)

      pub same_key :
          (z : Ptr) → (z == s.top) ≡ false → key_at val (linked_in f b') z ≡ key_at val s z
      same_key z h = ap val ((kept o val s k ns v b w lvl high z h).2)

      new_key : key_at val (linked_in f b') s.top ≡ val k
      unfolding new_node
      new_key = rw (==_refl s.top) refl

      old_apart : (z : Ptr) → has z ns ≡ true → (z == s.top) ≡ false
      old_apart z h =
          has-apart s.top z (line s.head ns s.tail) (top-out o val s k ns v b)
            (ground (arith, has-append z ns (s.tail ∷ [])))

      parts_apart :
          (z : Ptr)
          → has z (lo o val s k ns v b ++ hi o val s k ns v b) ≡ true
          → (z == s.top) ≡ false
      parts_apart z h = old_apart z (subst (λ l. has z l ≡ true) whole h)

      pub tail_apart : (s.tail == s.top) ≡ false
      tail_apart = ground (arith, v.tail_end)

      -- The key lies above those before the new node and below those after it.
      above_key : All (λ y. o.less (val k) (key_at val s y) ≡ true) (hi o val s k ns v b)
      above_key =
          All-imp {Q = λ y. o.less (val k) (key_at val s y) ≡ true} (hi o val s k ns v b)
            (λ y h p. o.less_total (key_at val s y) (val k) p.0 p.1)
            (All-both _ _ (hi o val s k ns v b) (All-from o (key_at val s) (val k) ns v.ascending)
              (both o val s k ns v b (λ y. o.same (key_at val s y) (val k) ≡ false)
                (All-apart o (key_at val s) (val k) s.obj s.tail ns v.ascending miss)).1)

      linked_in-Ascending : Ascending o (key_at val (linked_in f b')) new_nodes
      linked_in-Ascending =
          let here = key_at val (linked_in f b') in
          Ascending-put o here s.top (lo o val s k ns v b) (hi o val s k ns v b)
            (Ascending-frame o (key_at val s) here (lo o val s k ns v b ++ hi o val s k ns v b)
              (λ z h. same_key z (parts_apart z h))
              (subst (Ascending o (key_at val s)) (sym whole) v.ascending))
            (All-imp {Q = λ x. o.less (here x) (here s.top) ≡ true} (lo o val s k ns v b)
              (λ x h p.
                rw
                  (
                    new_key,
                    same_key x (
                        parts_apart x (
                          ground
                            (arith, has-append x (lo o val s k ns v b) (hi o val s k ns v b)))),
                  )
                  p)
              (All-below o (key_at val s) (val k) ns))
            (All-imp {Q = λ y. o.less (here s.top) (here y) ≡ true} (hi o val s k ns v b)
              (λ y h p.
                rw
                  (
                    new_key,
                    same_key y (
                        parts_apart y (
                          ground
                            (arith, has-append y (lo o val s k ns v b) (hi o val s k ns v b)))),
                  )
                  p)
              above_key)

      linked_in-last : (h : ℕ) → f h s.tail ≡ null
      unfolding new_node
      linked_in-last h = elim (Bool-cases (leb 1 h && ltb h (1 + lvl))) [
        | inl e ↦
            let u = trail h (ground arith) (ground arith) in
            rw (sp.inside_fwd h (ground arith) (ground arith))
              (rw u (ground (arith, tail_apart, before-apart o val s k ns v b h, v.last h)))
        | inr e ↦ rw ((sp.outside h e).0) (ground (arith, tail_apart, v.last h))
      ]

      new_obj : (linked_in f b').obj s.top ≡ w
      unfolding new_node
      new_obj = rw (==_refl s.top) refl

      linked_in-Distinct : Distinct (line s.head new_nodes s.tail)
      linked_in-Distinct =
          let end = s.tail ∷ [] in
          let regroup = append_assoc (lo o val s k ns v b) (hi o val s k ns v b) end in
          let flat : Distinct (s.head ∷ (lo o val s k ns v b ++ (hi o val s k ns v b ++ end))) =
            subst (λ l. Distinct (s.head ∷ l)) (ap (λ l. l ++ end) (sym whole) ∙ regroup)
              v.distinct in
          let out : has s.top (s.head ∷ (lo o val s k ns v b ++ (hi o val s k ns v b ++ end)))
              ≡ false =
            subst (λ l. has s.top (s.head ∷ l) ≡ false) (ap (λ l. l ++ end) (sym whole) ∙ regroup)
              (top-out o val s k ns v b) in
          subst (λ l. Distinct (s.head ∷ l))
            (sym (append_assoc (lo o val s k ns v b) (s.top ∷ hi o val s k ns v b) end))
            (Distinct-put s.top (s.head ∷ lo o val s k ns v b) (hi o val s k ns v b ++ end) out
              flat)

      -- The entries are those of the ordered map.
      pub linked_in-contents :
          contents val (linked_in f b') new_nodes ≡ put o (val k) w (contents val s ns)
      linked_in-contents =
          let here = key_at val (linked_in f b') in
          let old = key_at val s in
          let same_entry : (z : Ptr)
              → has z ns ≡ true
              → (here z ≡ old z) × ((linked_in f b').obj z ≡ s.obj z) =
            λ z h. (
              same_key z (old_apart z h),
              (kept o val s k ns v b w lvl high z (old_apart z h)).3,
            ) in
          let lows_same =
            entries-frame o old here s.obj ((linked_in f b').obj) (lo o val s k ns v b) (λ z h.
              same_entry z (
                subst (λ l. has z l ≡ true) whole
                  (ground (arith, has-append z (lo o val s k ns v b) (hi o val s k ns v b))))) in
          let highs_same =
            entries-frame o old here s.obj ((linked_in f b').obj) (hi o val s k ns v b) (λ z h.
              same_entry z (
                subst (λ l. has z l ≡ true) whole
                  (ground (arith, has-append z (lo o val s k ns v b) (hi o val s k ns v b))))) in
          entries-append here ((linked_in f b').obj) (lo o val s k ns v b)
            (s.top ∷ hi o val s k ns v b)
          ∙ (rw (lows_same, highs_same, new_key, new_obj)
                (sym (
                  put-skip o old (val k) s.obj w (lo o val s k ns v b) (hi o val s k ns v b)
                    (All-below o old (val k) ns) (All-from o old (val k) ns v.ascending)))
              ∙ ap (λ l. put o (val k) w (contents val s l)) whole)

      pub linked_in-IsSkip : IsSkip o val (linked_in f b') new_nodes
      unfolding new_node
      linked_in-IsSkip = record {
        linked = spliced-Linked o val s k ns v b w lvl high vec f b' trail sp;
        distinct = linked_in-Distinct;
        ascending = linked_in-Ascending;
        below_tail =
            All-new
              (λ n.
                o.less (key_at val (linked_in f b') n) (key_at val (linked_in f b') s.tail) ≡ true)
              (All-imp
                {Q = λ n.
                  o.less (key_at val (linked_in f b') n) (key_at val (linked_in f b') s.tail)
                  ≡ true}
                ns (λ z h l. rw (same_key z (old_apart z h), same_key s.tail tail_apart) l)
                v.below_tail)
              (rw (new_key, same_key s.tail tail_apart) b);
        nodes =
            All-new (IsNode (linked_in f b'))
              (All-imp {Q = IsNode (linked_in f b')} ns
                (λ z h n. ground (arith, old_apart z h, kept o val s k ns v b w lvl high z))
                v.nodes)
              (ground (arith, v.head_end));
        head_end = ground (arith, v.head_end);
        tail_end = ground (arith, v.tail_end);
        tail_key = ground (arith, tail_apart, v.tail_key);
        last = linked_in-last;
        low = ground (arith, v.low);
        high = ground (arith, v.high);
      }
