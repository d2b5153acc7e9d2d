-- ===== src/SkipList/Lower.antt =====
-- The loop of `remove` of src/dct/skip_list/SkipList.h that lowers the list while its highest level
-- is empty.
use qjhart_geostreams.Prelude.{
  ℕ, zero, suc, ◌≤◌, ◌≡◌, ◌⊎◌, inl, inr, refl, sym, ◌∙◌, subst, true, false, false≢true, some, List,
  [], ◌∷◌, ◌==◌, arith, Bool-cases, ==_refl,
}
use qjhart_geostreams.SkipList.{Ptr, KeyOrder, SkipList, get_fwd, lower}
use qjhart_geostreams.SkipList.Line.{first_or, Linked-next}
use qjhart_geostreams.SkipList.Level.{All, All-imp, All-both, at_level}
use qjhart_geostreams.SkipList.Shape.{key_at, IsSkip, IsNode, first_or-All, All-level}

-- The highest level holds nobody, or its first node is not the tail.
List-cases : (xs : List Ptr) → (xs ≡ []) ⊎ ((x : Ptr) × (ys : List Ptr) × (xs ≡ x ∷ ys))
List-cases [] = inl refl
List-cases (x ∷ xs) = inr (x, xs, refl)

at_level-empty :
    (height : Ptr → ℕ) (h : ℕ) (xs : List Ptr)
    → at_level height (suc h) xs ≡ []
    → All (λ x. height x ≤ h) xs
at_level-empty height h [] e = tt
at_level-empty height h (x ∷ xs) e = ground (arith, at_level-empty height h xs)

abbrev at_height : SkipList → ℕ → SkipList
at_height s c = record s { cur_height = c }

module _ {ℓ} {K : Type ℓ} (o : KeyOrder K) (val : Ptr → K) (s : SkipList) (ns : List Ptr) where
  -- A node of the list has another key than the tail.
  key_apart :
      (x : Ptr)
      → o.less (key_at val s x) (key_at val s s.tail) ≡ true
      → (s.key x == s.key s.tail) ≡ false
  key_apart x l = elim (Bool-cases (s.key x == s.key s.tail)) [
    | inl e ↦
        let e' : s.key x ≡ s.key s.tail = ground arith in
        absurd (
          false≢true (
            sym (o.less_irrefl (key_at val s s.tail))
            ∙ subst (λ a. o.less (val a) (key_at val s s.tail) ≡ true) e' l))
    | inr e ↦ e
  ]

  abbrev First : ℕ → Ptr
  First h = first_or (at_level s.height h ns) s.tail

  module _ (c : ℕ) (v : IsSkip o val (at_height s (suc (suc c))) ns) where
    get_fwd-head :
        get_fwd (at_height s (suc (suc c))) (suc (suc c)) s.head ≡ some (First (suc (suc c)))
    get_fwd-head =
        let next =
          Linked-next (s.fwd (suc (suc c))) (s.bck (suc (suc c))) s.head []
            (at_level s.height (suc (suc c)) ns) s.tail
            (v.linked (suc (suc c)) (omega arith) v.high) in
        ground (arith, v.head_end, v.high)

    First-live : s.live (First (suc (suc c))) ≡ true
    First-live =
        first_or-All (λ x. s.live x ≡ true) (at_level s.height (suc (suc c)) ns) s.tail
          (All-imp {Q = λ x. s.live x ≡ true} (at_level s.height (suc (suc c)) ns) (λ x e p. p.1)
            (All-level s.height (suc (suc c)) (λ x. s.live x ≡ true) ns
              (All-imp {Q = λ x. s.live x ≡ true} ns (λ x h n. n.0) v.nodes)))
          (v.tail_end.0)

    lower-IsSkip : at_level s.height (suc (suc c)) ns ≡ [] → IsSkip o val (at_height s (suc c)) ns
    lower-IsSkip e = record {
      linked = v.linked;
      distinct = v.distinct;
      ascending = v.ascending;
      below_tail = v.below_tail;
      nodes =
          All-imp {Q = IsNode (at_height s (suc c))} ns
            (λ x h p. (p.0.0, p.0.1, p.1, p.0.3, p.0.4, p.0.5))
            (All-both _ _ ns v.nodes (at_level-empty s.height (suc c) ns e));
      head_end = v.head_end;
      tail_end = v.tail_end;
      tail_key = v.tail_key;
      last = v.last;
      low = omega arith;
      high = omega (arith, v.high);
    }

  -- The list is lowered to some height, and is still a skip list.
  lower_from :
      (c : ℕ)
      → IsSkip o val (at_height s c) ns
      → (c' : ℕ) × (lower c (at_height s c) ≡ some (at_height s c'))
        × IsSkip o val (at_height s c') ns
  unfolding lower
  lower_from zero v = absurd (omega (arith, v.low))
  lower_from (suc zero) v = (1, refl, v)
  lower_from (suc (suc c)) v = elim (List-cases (at_level s.height (suc (suc c)) ns)) [
    | inl e ↦
        let (c', run, w) = lower_from (suc c) (lower-IsSkip c v e) in
        (
          c',
          rw (get_fwd-head c v)
              (rw (First-live c v) (rw (v.tail_end.0) (rw e (rw (==_refl (s.key s.tail)) run)))),
          w,
        )
    | inr (x, ys, e) ↦
        let below =
          All-imp {Q = λ y. o.less (key_at val s y) (key_at val s s.tail) ≡ true}
            (at_level s.height (suc (suc c)) ns) (λ y h p. p.1)
            (All-level s.height (suc (suc c)) _ ns v.below_tail) in
        let first =
          subst (All (λ y. o.less (key_at val s y) (key_at val s s.tail) ≡ true)) e below in
        (
          suc (suc c),
          rw (get_fwd-head c v)
              (rw (First-live c v) (rw (v.tail_end.0) (rw e (rw (key_apart x first.0) refl)))),
          v,
        )
  ]

  pub lower_lem :
      IsSkip o val s ns
      → (c' : ℕ) × (lower s.cur_height s ≡ some (record s { cur_height = c' }))
        × IsSkip o val (record s { cur_height = c' }) ns
  lower_lem v = lower_from s.cur_height v
