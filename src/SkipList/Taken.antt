-- ===== src/SkipList/Taken.antt =====
-- What `remove` of src/dct/skip_list/SkipList.h makes of a skip list: one without the node.
use qjhart_geostreams.Prelude.{
  ℕ, ◌+◌, ◌≤◌, ◌≡◌, inl, inr, refl, append_assoc, ap, sym, ◌∙◌, subst, true, false, List, [], ◌∷◌,
  ◌++◌, ◌==◌, ◌&&◌, leb, ltb, arith, Bool-cases,
}
use qjhart_geostreams.SkipList.{Ptr, null, KeyOrder, SkipList, update, free}
use qjhart_geostreams.SkipList.Line.{has, Distinct, first_or, line, Linked, has-append, Linked-cut}
use qjhart_geostreams.SkipList.Level.{
  All, All-imp, All-split, All-append, at_level, at_level-append, at_level-Distinct,
}
use qjhart_geostreams.SkipList.Ordered.{Ascending, delete, All-below, delete-skip, Ascending-take}
use qjhart_geostreams.SkipList.Shape.{key_at, IsSkip, IsNode, contents}
use qjhart_geostreams.SkipList.Search.{lows, highs}
use qjhart_geostreams.SkipList.Retrieve.{IsBelow, goal}
use qjhart_geostreams.SkipList.Gap.{before, before-apart}
use qjhart_geostreams.SkipList.Cut.{Cuts}
use qjhart_geostreams.SkipList.Out.{
  out-IsNode, rest-Distinct, out-apart, whole-level, clear-level, out-Linked, next-out, tail_there,
}

module _ {ℓ} {K : Type ℓ} (o : KeyOrder K) (val : Ptr → K) (s : SkipList) (k : Ptr) (ns : List Ptr)
    (v : IsSkip o val s ns) (b : IsBelow o val s k) where
  module _ (ys : List Ptr) (highs_eq : highs o val s k ns ≡ goal o val s k ns v b ∷ ys)
      (whole : ns ≡ lows o val s k ns ++ goal o val s k ns v b ∷ ys) where
    abbrev out : Ptr
    out = goal o val s k ns v b

    abbrev before_out : List Ptr
    before_out = lows o val s k ns

    module _ (vec : ℕ → Ptr)
        (trail : (j : ℕ) → 1 ≤ j → j ≤ s.cur_height → vec j ≡ before o val s k ns v b j) where
      module _ (f b' : ℕ → Ptr → Ptr) (cut : Cuts s out vec s.cur_height 1 f b') where
        -- The list without the node.
        abbrev pub taken : SkipList
        taken = free (record s { fwd = f; bck = b' }) out

        taken-Linked :
            (j : ℕ)
            → 1 ≤ j
            → j ≤ s.max_height
            → Linked (f j) (b' j) s.head (at_level s.height j (before_out ++ ys)) s.tail
        taken-Linked j a c = elim (Bool-cases (leb j (s.height out))) [
          | inl e ↦
              let h : j ≤ s.height out = ground arith in
              let n = (out-IsNode o val s k ns v b ys highs_eq whole).0 in
              let u = trail j a (omega arith) in
              let links = cut.inside j a (omega arith) h in
              let ef : f j
                  ≡ update (s.fwd j) (before o val s k ns v b j)
                      (first_or (at_level s.height j ys) s.tail) =
                links.0 ∙ rw (u, next-out o val s k ns v b ys highs_eq whole j a c h) refl in
              let eb : b' j
                  ≡ update (s.bck j) (first_or (at_level s.height j ys) s.tail)
                      (before o val s k ns v b j) =
                links.1 ∙ rw (u, next-out o val s k ns v b ys highs_eq whole j a c h) refl in
              rw (at_level-append s.height j before_out ys) (
                rw (ef, eb)
                  (Linked-cut (s.fwd j) (s.bck j) out s.head (at_level s.height j before_out)
                    (at_level s.height j ys) s.tail
                    (subst (λ l. Distinct (line s.head l s.tail))
                      (whole-level o val s k ns v b ys highs_eq whole j h)
                      (at_level-Distinct s.height j s.head ns s.tail v.distinct))
                    (out-Linked o val s k ns v b ys highs_eq whole j a c h)))
          | inr e ↦
              let same = cut.outside j (ground arith) in
              rw (same.0, same.1)
                (subst (λ l. Linked (s.fwd j) (s.bck j) s.head l s.tail)
                  (clear-level o val s k ns v b ys highs_eq whole j e) (v.linked j a c))
        ]

        -- A property of the nodes of the list, for those that are left.
        All-rest : (P : Ptr → Type 0) → All P ns → All P (before_out ++ ys)
        All-rest P a =
            let r = All-split P before_out (out ∷ ys) (subst (All P) whole a) in
            All-append P before_out ys r.0 r.1.1

        rest_apart : (z : Ptr) → has z (before_out ++ ys) ≡ true → (z == out) ≡ false
        rest_apart z h = out-apart o val s k ns v b ys highs_eq whole z (
            ground (
              arith,
              has-append z before_out ys,
              has-append z before_out (ys ++ s.tail ∷ []),
              has-append z ys (s.tail ∷ []),
            ))

        taken-last : (h : ℕ) → f h s.tail ≡ null
        taken-last h =
            elim (Bool-cases (leb 1 h && ltb h (1 + s.cur_height) && leb h (s.height out))) [
              | inl e ↦ rw ((cut.inside h (ground arith) (ground arith) (ground arith)).0) (
                  rw (trail h (ground arith) (ground arith))
                    (ground (arith, before-apart o val s k ns v b h, v.last h)))
              | inr e ↦ rw ((cut.outside h e).0) (v.last h)
            ]

        pub taken-IsSkip : IsSkip o val taken (before_out ++ ys)
        taken-IsSkip = record {
          linked = taken-Linked;
          distinct =
              subst (λ l. Distinct (s.head ∷ l)) (sym (append_assoc before_out ys (s.tail ∷ [])))
                (rest-Distinct o val s k ns v b ys highs_eq whole).0;
          ascending =
              Ascending-take o (key_at val s) out before_out ys
                (subst (Ascending o (key_at val s)) whole v.ascending);
          below_tail = All-rest _ v.below_tail;
          nodes =
              All-imp {Q = IsNode taken} (before_out ++ ys)
                (λ z h n. ground (arith, rest_apart z h)) (All-rest (IsNode s) v.nodes);
          head_end =
              ground (arith, v.head_end, out-apart o val s k ns v b ys highs_eq whole s.head);
          tail_end = ground (
            arith,
            v.tail_end,
            out-apart o val s k ns v b ys highs_eq whole s.tail
                (tail_there o val s k ns v b ys highs_eq whole),
          );
          tail_key = v.tail_key;
          last = taken-last;
          low = v.low;
          high = v.high;
        }

        pub taken-contents :
            o.same (key_at val s out) (val k) ≡ true
            → contents val taken (before_out ++ ys) ≡ delete o (val k) (contents val s ns)
        taken-contents e = sym (
            ap (λ l. delete o (val k) (contents val s l)) whole
            ∙ delete-skip o (key_at val s) (val k) s.obj out before_out ys
                (All-below o (key_at val s) (val k) ns) e)
