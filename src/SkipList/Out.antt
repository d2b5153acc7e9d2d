-- ===== src/SkipList/Out.antt =====
-- The node that `remove` of src/dct/skip_list/SkipList.h takes out, on each level of the list.
use qjhart_geostreams.Prelude.{
  ℕ, ◌+◌, ◌≤◌, ◌<◌, ◌≡◌, append_assoc, ap, sym, ◌∙◌, subst, true, false, List, [], ◌∷◌, ◌++◌, ◌==◌,
  leb, arith,
}
use qjhart_geostreams.SkipList.{Ptr, KeyOrder, SkipList}
use qjhart_geostreams.SkipList.Line.{
  has, Distinct, first_or, Linked, has-append, Linked-after, Distinct-take, has-apart,
}
use qjhart_geostreams.SkipList.Level.{All, All-imp, All-split, at_level, at_level-append}
use qjhart_geostreams.SkipList.Shape.{IsSkip, IsNode, first_or-All, last_or-All, All-level}
use qjhart_geostreams.SkipList.Search.{lows, highs}
use qjhart_geostreams.SkipList.Retrieve.{IsBelow, goal}
use qjhart_geostreams.SkipList.Gap.{before, Reaches, both, before-Reaches, before-after}
use qjhart_geostreams.SkipList.Cut.{IsLoose, IsClear}

module _ {ℓ} {K : Type ℓ} (o : KeyOrder K) (val : Ptr → K) (s : SkipList) (k : Ptr) (ns : List Ptr)
    (v : IsSkip o val s ns) (b : IsBelow o val s k) where
  module _ (ys : List Ptr) (highs_eq : highs o val s k ns ≡ goal o val s k ns v b ∷ ys)
      (whole : ns ≡ lows o val s k ns ++ goal o val s k ns v b ∷ ys) where
    -- The node that is taken out.
    abbrev pub out : Ptr
    out = goal o val s k ns v b

    abbrev pub before_out : List Ptr
    before_out = lows o val s k ns

    pub out-IsNode : IsNode s out × All (IsNode s) ys
    out-IsNode =
        (All-split (IsNode s) before_out (out ∷ ys) (subst (All (IsNode s)) whole v.nodes)).1

    -- The line with the node between the parts.
    whole-Distinct : Distinct (s.head ∷ (before_out ++ out ∷ (ys ++ s.tail ∷ [])))
    whole-Distinct =
        subst (λ l. Distinct (s.head ∷ l))
          (ap (λ l. l ++ s.tail ∷ []) whole ∙ append_assoc before_out (out ∷ ys) (s.tail ∷ []))
          v.distinct

    pub rest-Distinct :
        Distinct (s.head ∷ (before_out ++ (ys ++ s.tail ∷ [])))
        × (has out (s.head ∷ (before_out ++ (ys ++ s.tail ∷ []))) ≡ false)
    rest-Distinct = Distinct-take out (s.head ∷ before_out) (ys ++ s.tail ∷ []) whole-Distinct

    -- No other node of the line is the one taken out.
    pub out-apart :
        (z : Ptr) → has z (s.head ∷ (before_out ++ (ys ++ s.tail ∷ []))) ≡ true → (z == out) ≡ false
    out-apart z h = has-apart out z (s.head ∷ (before_out ++ (ys ++ s.tail ∷ []))) rest-Distinct.1 h

    -- The nodes of a level that has the node.
    pub whole-level :
        (j : ℕ)
        → j ≤ s.height out
        → at_level s.height j ns ≡ at_level s.height j before_out ++ out ∷ at_level s.height j ys
    whole-level j h =
        ap (at_level s.height j) whole
        ∙ (at_level-append s.height j before_out (out ∷ ys) ∙ ground arith)

    -- And of one that does not.
    pub clear-level :
        (j : ℕ)
        → leb j (s.height out) ≡ false
        → at_level s.height j ns ≡ at_level s.height j (before_out ++ ys)
    clear-level j h =
        ap (at_level s.height j) whole
        ∙ (at_level-append s.height j before_out (out ∷ ys)
            ∙ (rw h (sym (at_level-append s.height j before_out ys))))

    pub out-Linked :
        (j : ℕ)
        → 1 ≤ j
        → j ≤ s.max_height
        → j ≤ s.height out
        → Linked
            (s.fwd j)
            (s.bck j)
            s.head
            (at_level s.height j before_out ++ out ∷ at_level s.height j ys)
            s.tail
    out-Linked j a c h =
        subst (λ l. Linked (s.fwd j) (s.bck j) s.head l s.tail) (whole-level j h) (v.linked j a c)

    before-ne : (j : ℕ) → (out == before o val s k ns v b j) ≡ false
    before-ne j =
        let low_nodes = (both o val s k ns v b (IsNode s) v.nodes).0 in
        let apart =
          All-imp {Q = λ z. (out == z) ≡ false} before_out
            (λ z h n. ground (arith, out-apart z, has-append z before_out (ys ++ s.tail ∷ [])))
            low_nodes in
        last_or-All (λ z. (out == z) ≡ false) s.head (at_level s.height j before_out)
          (ground (arith, out-apart s.head))
          (All-imp {Q = λ z. (out == z) ≡ false} (at_level s.height j before_out) (λ z h p. p.1)
            (All-level s.height j (λ z. (out == z) ≡ false) before_out apart))

    -- What follows the place of the key on a level.
    over :
        (j : ℕ)
        → 1 ≤ j
        → j ≤ s.max_height
        → s.fwd j (before o val s k ns v b j) ≡ first_or (at_level s.height j (out ∷ ys)) s.tail
    over j a c =
        before-after o val s k ns v b j a c
        ∙ ap (λ l. first_or (at_level s.height j l) s.tail) highs_eq

    -- What follows the node itself.
    next-Reaches :
        (j : ℕ)
        → j ≤ s.max_height
        → Reaches o val s k ns v b j (first_or (at_level s.height j ys) s.tail)
    next-Reaches j h =
        first_or-All (Reaches o val s k ns v b j) (at_level s.height j ys) s.tail
          (All-imp {Q = Reaches o val s k ns v b j} (at_level s.height j ys)
            (λ x e p. (p.1.0, p.0, p.1.4)) (All-level s.height j (IsNode s) ys out-IsNode.1))
          (ground (arith, v.tail_end))

    pub next-out :
        (j : ℕ)
        → 1 ≤ j
        → j ≤ s.max_height
        → j ≤ s.height out
        → s.fwd j out ≡ first_or (at_level s.height j ys) s.tail
    next-out j a c h =
        Linked-after (s.fwd j) (s.bck j) out s.head (at_level s.height j before_out)
          (at_level s.height j ys) s.tail (out-Linked j a c h)

    pub tail_there : has s.tail (s.head ∷ (before_out ++ (ys ++ s.tail ∷ []))) ≡ true
    tail_there = ground (
      arith,
      has-append s.tail before_out (ys ++ s.tail ∷ []),
      has-append s.tail ys (s.tail ∷ []),
    )

    next-ne : (j : ℕ) → (first_or (at_level s.height j ys) s.tail == out) ≡ false
    next-ne j =
        first_or-All (λ z. (z == out) ≡ false) (at_level s.height j ys) s.tail
          (All-imp {Q = λ z. (z == out) ≡ false} (at_level s.height j ys) (λ z h p. p.1)
            (All-level s.height j (λ z. (z == out) ≡ false) ys
              (All-imp {Q = λ z. (z == out) ≡ false} ys
                (λ z h n. out-apart z (
                  ground (
                    arith,
                    has-append z before_out (ys ++ s.tail ∷ []),
                    has-append z ys (s.tail ∷ []),
                  )))
                out-IsNode.1)))
          (out-apart s.tail tail_there)

    module _ (vec : ℕ → Ptr)
        (trail : (j : ℕ) → 1 ≤ j → j ≤ s.cur_height → vec j ≡ before o val s k ns v b j) where
      pub loose : (j : ℕ) → 1 ≤ j → j < 1 + s.cur_height → j ≤ s.height out → IsLoose s out vec j
      loose j a c h =
          let below_max : j ≤ s.max_height = omega (arith, v.high) in
          let there = before-Reaches o val s k ns v b j below_max in
          let next = next-Reaches j below_max in
          rw (trail j a (omega arith)) (
            ground (arith, out-IsNode.0),
            ground arith,
            over j a below_max ∙ ground arith,
            rw (next-out j a below_max h) (ground arith),
            before-ne j,
          )

      pub clear : (j : ℕ) → 1 ≤ j → j < 1 + s.cur_height → s.height out < j → IsClear s out vec j
      clear j a c h =
          let below_max : j ≤ s.max_height = omega (arith, v.high) in
          let there = before-Reaches o val s k ns v b j below_max in
          let e : s.fwd j (before o val s k ns v b j) ≡ first_or (at_level s.height j ys) s.tail =
            over j a below_max ∙ ground arith in
          rw (trail j a (omega arith)) (ground arith, rw e (next-ne j))
