-- ===== src/Cascade/Grow.antt =====
-- The two loops of src/dct/skip_list/CascadeNode.h that grow a window: for one region, which stands
-- in the list under the key `c`.
use qjhart_geostreams.Prelude.{
  ℕ, ◌≤◌, ◌≡◌, inl, inr, refl, ◌∙◌, Bool, true, false, ◌&&◌, ◌||◌, some, List, [], ◌∷◌, leb, ltb,
  arith, Bool-cases, if◌then◌else◌,
}
use qjhart_geostreams.Cascade.{
  Region, Entry, Place, at_head, at_node, at_tail, Moved, inserts, after_calls, grow_max_from,
  grow_max, grow_min_from, grow_min,
}
use qjhart_geostreams.Cascade.Effect.{effect, effect-append, inserts_lem}
use qjhart_geostreams.Cascade.Keyed.{
  IsSplit, IsSplit-back, IsSplit-on, keyed, keyed_lt, keyed_gt, upto, behind, before, from,
}
use qjhart_geostreams.Cascade.Shrink.{NotTail, NotHead}

module _ (test : Region → Bool) (max_dim wmax : ℕ) (r : Region) (c : ℕ) where
  -- From `p` up to the pointer and `a` behind it to the place of `m`.
  abbrev pub GrowsMax : List Entry → List Entry → Moved → Type 0
  GrowsMax p a m =
      NotTail m.0
      × IsSplit r c (upto m.0) (behind m.0)
      × (keyed c (upto m.0) ≡ (keyed c p || (keyed c a && ltb c wmax)))
      × (keyed c (behind m.0) ≡ (keyed c a && leb wmax c))
      × ((b : Bool) → effect m.1 r.id b ≡ (if (keyed c a && ltb c wmax) && test r then true else b))

  -- The pointer stays before a key that the window does not reach.
  stays :
      (p : List Entry) (f : Entry) (a : List Entry)
      → IsSplit r c p (f ∷ a)
      → ltb f.0 wmax ≡ false
      → (keyed c (f ∷ a) && ltb c wmax) ≡ false
  stays p f a s h =
      let high : c ≤ f.0 → keyed c a ≡ false = λ g. keyed_gt c f.0 a s.rising.0 g in ground arith

  grow_max_from_lem :
      (p : List Entry) (e : Entry) (a : List Entry)
      → wmax ≤ max_dim
      → IsSplit r c (e ∷ p) a
      → (m : Moved) × (grow_max_from test max_dim wmax p e a ≡ some m) × GrowsMax (e ∷ p) a m
  unfolding grow_max_from
  grow_max_from_lem p e [] n s =
      ((at_node p e [], []), ground arith, (tt, s, ground arith, ground arith, (λ b. refl)))
  grow_max_from_lem p e (f ∷ a) n s = elim (Bool-cases (ltb f.0 wmax)) [
    | inl h ↦
        let (m, run, (t, sp, l, g, calls)) =
          grow_max_from_lem (e ∷ p) f a n (IsSplit-on r c f (e ∷ p) a s) in
        (
          after_calls (inserts test f.1) m,
          rw h (rw run refl),
          (
            t,
            sp,
            l ∙ ground arith,
            g ∙ ground arith,
            (λ b.
                effect-append (inserts test f.1) m.1 r.id b
                ∙ (calls (effect (inserts test f.1) r.id b)
                    ∙ rw (inserts_lem test r f.1 b (s.files_a.0.1))
                        (rw (s.files_a.0.0) (ground arith)))),
          ),
        )
    | inr h ↦
        let out = stays (e ∷ p) f a s h in
        (
          (at_node p e (f ∷ a), []),
          rw h refl,
          (tt, s, ground arith, ground arith, (λ b. ground arith)),
        )
  ]

  -- "max is growing" ends without reading the tail, with the keys below the window's maximum up to
  -- the pointer.
  pub grow_max_lem :
      (l : Place)
      → NotTail l
      → wmax ≤ max_dim
      → IsSplit r c (upto l) (behind l)
      → (m : Moved) × (grow_max test max_dim wmax l ≡ some m) × GrowsMax (upto l) (behind l) m
  unfolding grow_max
  grow_max_lem (at_head []) t n s =
      ((at_head [], []), ground arith, (tt, s, refl, refl, (λ b. refl)))
  grow_max_lem (at_head (f ∷ a)) t n s = elim (Bool-cases (ltb f.0 wmax)) [
    | inl h ↦
        let (m, run, (t, sp, l, g, calls)) = grow_max_from_lem [] f a n (IsSplit-on r c f [] a s) in
        (
          after_calls (inserts test f.1) m,
          rw h (rw run refl),
          (
            t,
            sp,
            l ∙ ground arith,
            g ∙ ground arith,
            (λ b.
                effect-append (inserts test f.1) m.1 r.id b
                ∙ (calls (effect (inserts test f.1) r.id b)
                    ∙ rw (inserts_lem test r f.1 b (s.files_a.0.1))
                        (rw (s.files_a.0.0) (ground arith)))),
          ),
        )
    | inr h ↦
        let out = stays [] f a s h in
        ((at_head (f ∷ a), []), rw h refl, (tt, s, ground arith, ground arith, (λ b. ground arith)))
  ]
  grow_max_lem (at_node p e a) t n s = grow_max_from_lem p e a n s
  grow_max_lem (at_tail p) t n s = absurd t

module _ (test : Region → Bool) (wmin : ℕ) (r : Region) (c : ℕ) where
  abbrev pub GrowsMin : List Entry → List Entry → Moved → Type 0
  GrowsMin p a m =
      NotHead m.0
      × IsSplit r c (before m.0) (from m.0)
      × (keyed c (before m.0) ≡ (keyed c p && leb c wmin))
      × (keyed c (from m.0) ≡ (keyed c a || (keyed c p && ltb wmin c)))
      × ((b : Bool) → effect m.1 r.id b ≡ (if (keyed c p && ltb wmin c) && test r then true else b))

  -- The pointer stays behind a key that the window has.
  stays_behind :
      (f : Entry) (p a : List Entry)
      → IsSplit r c (f ∷ p) a
      → ltb wmin f.0 ≡ false
      → (keyed c (f ∷ p) && ltb wmin c) ≡ false
  stays_behind f p a s h =
      let low : f.0 ≤ c → keyed c p ≡ false = λ g. keyed_lt c f.0 p s.falling.0 g in ground arith

  grow_min_from_lem :
      (p : List Entry) (e : Entry) (a : List Entry)
      → IsSplit r c p (e ∷ a)
      → GrowsMin p (e ∷ a) (grow_min_from test wmin p e a)
  unfolding grow_min_from
  grow_min_from_lem [] e a s = (tt, s, refl, ground arith, (λ b. refl))
  grow_min_from_lem (f ∷ p) e a s = elim (Bool-cases (ltb wmin f.0)) [
    | inl h ↦
        let (t, sp, l, g, calls) = grow_min_from_lem p f (e ∷ a) (IsSplit-back r c f p (e ∷ a) s) in
        rw h (
          t,
          sp,
          l ∙ ground arith,
          g ∙ ground arith,
          (λ b.
              effect-append (inserts test f.1) (grow_min_from test wmin p f (e ∷ a)).1 r.id b
              ∙ (calls (effect (inserts test f.1) r.id b)
                  ∙ rw (inserts_lem test r f.1 b (s.files_p.0.1))
                      (rw (s.files_p.0.0) (ground arith)))),
        )
    | inr h ↦
        let out = stays_behind f p (e ∷ a) s h in
        rw h (tt, s, ground arith, ground arith, (λ b. ground arith))
  ]

  -- "min is growing" ends with the keys up to the window's minimum before the pointer.
  pub grow_min_lem :
      (l : Place)
      → NotHead l
      → IsSplit r c (before l) (from l)
      → (m : Moved) × (grow_min test wmin l ≡ some m) × GrowsMin (before l) (from l) m
  unfolding grow_min
  grow_min_lem (at_head a) t s = absurd t
  grow_min_lem (at_node p e a) t s =
      (grow_min_from test wmin p e a, refl, grow_min_from_lem p e a s)
  grow_min_lem (at_tail []) t s = ((at_tail [], []), refl, (tt, s, refl, refl, (λ b. refl)))
  grow_min_lem (at_tail (f ∷ p)) t s = elim (Bool-cases (ltb wmin f.0)) [
    | inl h ↦
        let (t, sp, l, g, calls) = grow_min_from_lem p f [] (IsSplit-back r c f p [] s) in
        (
          after_calls (inserts test f.1) (grow_min_from test wmin p f []),
          rw h refl,
          (
            t,
            sp,
            l ∙ ground arith,
            g ∙ ground arith,
            (λ b.
                effect-append (inserts test f.1) (grow_min_from test wmin p f []).1 r.id b
                ∙ (calls (effect (inserts test f.1) r.id b)
                    ∙ rw (inserts_lem test r f.1 b (s.files_p.0.1))
                        (rw (s.files_p.0.0) (ground arith)))),
          ),
        )
    | inr h ↦
        let out = stays_behind f p [] s h in
        ((at_tail (f ∷ p), []), rw h refl, (tt, s, ground arith, ground arith, (λ b. ground arith)))
  ]
