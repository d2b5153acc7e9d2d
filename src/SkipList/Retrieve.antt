-- ===== src/SkipList/Retrieve.antt =====
-- `retrieve` of src/dct/skip_list/SkipList.h against the ordered map.
use qjhart_geostreams.Prelude.{
  ℕ, ◌<◌, ◌≡◌, inl, inr, refl, ap, sym, ◌∙◌, subst, true, false, false≢true, Option, none, some,
  List, [], ◌∷◌, ◌++◌, ◌==◌, arith, length, Bool-cases, if◌then◌else◌,
}
use qjhart_geostreams.SkipList.{Ptr, null, KeyOrder, SkipList, retrieve}
use qjhart_geostreams.SkipList.Line.{has, first_or, has-append}
use qjhart_geostreams.SkipList.Level.{All-has}
use qjhart_geostreams.SkipList.Ordered.{
  find, below-from, All-below, find-skip, find-none, All-apart,
}
use qjhart_geostreams.SkipList.Shape.{key_at, IsSkip, contents}
use qjhart_geostreams.SkipList.Search.{lows, highs, locate_lem}

module _ {ℓ} {K : Type ℓ} (o : KeyOrder K) (val : Ptr → K) (s : SkipList) (k : Ptr) where
  -- A key below that of the tail, as the constructor asks for.
  abbrev pub IsBelow : Type 0
  IsBelow = o.less (val k) (key_at val s s.tail) ≡ true

  pub not_less_tail : IsBelow → o.less (key_at val s s.tail) (val k) ≡ false
  not_less_tail b = elim (Bool-cases (o.less (key_at val s s.tail) (val k))) [
    | inl e ↦ absurd (false≢true (sym (o.less_irrefl (val k)) ∙ o.less_trans _ _ _ b e))
    | inr e ↦ e
  ]

  not_same_tail : IsBelow → o.same (key_at val s s.tail) (val k) ≡ false
  not_same_tail b = elim (Bool-cases (o.same (key_at val s s.tail) (val k))) [
    | inl e ↦ absurd (
        false≢true
          (sym (o.less_irrefl (val k)) ∙ subst (λ c. o.less (val k) c ≡ true) (o.same→eq _ _ e) b))
    | inr e ↦ e
  ]

  module _ (ns : List Ptr) (v : IsSkip o val s ns) (b : IsBelow) where
    -- The node that the search ends at.
    abbrev pub goal : Ptr
    goal = first_or (highs o val s k ns) s.tail

    split_highs :
        (xs : List Ptr)
        → o.same (key_at val s (first_or xs s.tail)) (val k) ≡ true
        → (ys : List Ptr) × (xs ≡ first_or xs s.tail ∷ ys)
    split_highs [] h = absurd (false≢true (sym (not_same_tail b) ∙ h))
    split_highs (x ∷ xs) h = (xs, refl)

    -- On a hit it is a node of the list.
    pub hit_split :
        o.same (key_at val s goal) (val k) ≡ true
        → (ys : List Ptr) × (highs o val s k ns ≡ goal ∷ ys) × (ns ≡ lows o val s k ns ++ goal ∷ ys)
    hit_split h =
        let (ys, e) = split_highs (highs o val s k ns) h in
        (ys, e, sym (below-from o (key_at val s) (val k) ns) ∙ ap (λ l. lows o val s k ns ++ l) e)

    pub hit_has : o.same (key_at val s goal) (val k) ≡ true → has goal ns ≡ true
    hit_has h =
        let (ys, _, e) = hit_split h in
        subst (λ l. has goal l ≡ true) (sym e)
          (ground (arith, has-append goal (lows o val s k ns) (goal ∷ ys)))

    pub find-hit :
        o.same (key_at val s goal) (val k) ≡ true
        → find o (val k) (contents val s ns) ≡ some (s.obj goal)
    find-hit h =
        let (ys, _, e) = hit_split h in
        ap (λ l. find o (val k) (contents val s l)) e
        ∙ (find-skip o (key_at val s) (val k) s.obj (lows o val s k ns) (goal ∷ ys)
              (All-below o (key_at val s) (val k) ns)
            ∙ rw h)

    pub find-miss :
        o.same (key_at val s goal) (val k) ≡ false → find o (val k) (contents val s ns) ≡ none
    find-miss h =
        find-none o (key_at val s) (val k) s.obj ns
          (All-apart o (key_at val s) (val k) s.obj s.tail ns v.ascending h)

-- What a caller reads through the node that `retrieve` gives.
abbrev pub object : SkipList → Ptr → Option Ptr
object s n = if n == null then none else some (s.obj n)

module _ {ℓ} {K : Type ℓ} (o : KeyOrder K) (val : Ptr → K) (s : SkipList) (k : Ptr) where
  -- A search for a key below the tail's, with more rounds on a level than the list has nodes, ends
  -- without a fault, with the node of that key if the list has one, and otherwise with NULL: what
  -- the node holds is what the ordered map holds under the key.
  pub retrieve_lem :
      (ns : List Ptr) (f : ℕ)
      → IsSkip o val s ns
      → IsBelow o val s k
      → length ns < f
      → (n : Ptr) × (retrieve o val f s k ≡ some n)
        × (object s n ≡ find o (val k) (contents val s ns))
  unfolding retrieve
  retrieve_lem ns f v b n =
      let (vec, run, _) = locate_lem o val s k ns v (not_less_tail o val s k b) f n in
      let end = goal o val s k ns v b in
      elim (Bool-cases (o.same (key_at val s end) (val k))) [
        | inl e ↦
            let node = All-has _ ns end (hit_has o val s k ns v b e) v.nodes in
            (end, rw run (rw e refl), rw (node.5) (sym (find-hit o val s k ns v b e)))
        | inr e ↦ (null, rw run (rw e refl), sym (find-miss o val s k ns v b e))
      ]
