-- ===== src/Cascade/ShrinkMin.antt =====
-- The loop of src/dct/skip_list/CascadeNode.h that shrinks a window from below: for one region, which
-- stands in the list under the key `c`.
use qjhart_geostreams.Prelude.{
  ℕ, ◌≤◌, ◌<◌, ◌≡◌, ◌≢◌, inl, inr, refl, ◌∙◌, Bool, true, false, not, ◌&&◌, ◌||◌, some, List, [],
  ◌∷◌, ◌==◌, leb, ltb, arith, Bool-cases, if◌then◌else◌,
}
use qjhart_geostreams.Cascade.{
  Region, Entry, Place, at_head, at_node, at_tail, Moved, deletes, after_calls, shrink_min_from,
  shrink_min_head, shrink_min,
}
use qjhart_geostreams.Cascade.Effect.{effect, effect-append, deletes_lem}
use qjhart_geostreams.Cascade.Keyed.{
  IsSplit, IsSplit-on, keyed, keyed_gt, AllKeys-imp, before, from,
}
use qjhart_geostreams.Cascade.Shrink.{NotHead}

module _ (test : Region → Bool) (wmin : ℕ) (r : Region) (c : ℕ) where
  -- For the other list the sides change their roles.
  abbrev Passes : Place → Moved → Bool → Type 0
  Passes l m moved =
      NotHead m.0
      × IsSplit r c (before m.0) (from m.0)
      × (keyed c (before m.0) ≡ (keyed c (before l) || moved))
      × (keyed c (from m.0) ≡ (keyed c (from l) && not moved))
      × ((b : Bool) → effect m.1 r.id b ≡ (if moved && test r then false else b))
      × (moved ≡ true → keyed c (from l) ≡ true)
      × (keyed c (from m.0) ≡ true → ltb wmin c ≡ true)

  shrink_min_from_lem :
      (p : List Entry) (e : Entry) (a : List Entry)
      → IsSplit r c p (e ∷ a)
      → Passes (at_node p e a) (shrink_min_from test wmin p e a) (keyed c (e ∷ a) && leb c wmin)
  unfolding shrink_min_from
  shrink_min_from_lem p e [] s = elim (Bool-cases (leb e.0 wmin)) [
    | inl h ↦ rw h (
      tt,
      IsSplit-on r c e p [] s,
      ground arith,
      ground arith,
      (λ b. deletes_lem test r e.1 b (s.files_a.0.1) ∙ rw (s.files_a.0.0) (ground arith)),
      (λ q. ground arith),
      (λ q. ground arith),
    )
    | inr h ↦ rw h (
      tt,
      s,
      ground arith,
      ground arith,
      (λ b. ground arith),
      (λ q. ground arith),
      (λ q. ground arith),
    )
  ]
  shrink_min_from_lem p e (f ∷ a) s = elim (Bool-cases (leb e.0 wmin)) [
    | inl h ↦
        let (t, sp, l, g, calls, only, enough) =
          shrink_min_from_lem (e ∷ p) f a (IsSplit-on r c e p (f ∷ a) s) in
        rw h (
          t,
          sp,
          l ∙ ground arith,
          g ∙ ground arith,
          (λ b.
              effect-append (deletes test e.1) (shrink_min_from test wmin (e ∷ p) f a).1 r.id b
              ∙ (calls (effect (deletes test e.1) r.id b)
                  ∙ rw (deletes_lem test r e.1 b (s.files_a.0.1))
                      (rw (s.files_a.0.0) (ground arith)))),
          (λ q. ground arith),
          enough,
        )
    | inr h ↦
        let high : c ≤ wmin → keyed c (f ∷ a) ≡ false = λ g.
          keyed_gt c wmin (f ∷ a)
            (AllKeys-imp (λ k. e.0 < k) (λ k. wmin < k) (f ∷ a) (λ k q. ground arith) s.rising.0)
            g in
        rw h (
          tt,
          s,
          ground arith,
          ground arith,
          (λ b. ground arith),
          (λ q. ground arith),
          (λ q. ground arith),
        )
  ]

  -- "min is shrinking", from a list with a node at or after the pointer where that is the head. All
  -- keys from the new place on lie above the window's minimum.
  pub shrink_min_lem :
      (l : Place)
      → l ≢ at_head []
      → IsSplit r c (before l) (from l)
      → (m : Moved) × (shrink_min test wmin l ≡ some m) × ((moved : Bool) × Passes l m moved)
  unfolding shrink_min shrink_min_head
  shrink_min_lem (at_head []) n s = absurd (n refl)
  shrink_min_lem (at_head (e ∷ [])) n s = (
    (at_tail (e ∷ []), deletes test e.1),
    refl,
    (
      e.0 == c,
      (
        tt,
        IsSplit-on r c e [] [] s,
        ground arith,
        ground arith,
        (λ b. deletes_lem test r e.1 b (s.files_a.0.1) ∙ rw (s.files_a.0.0) refl),
        (λ q. ground arith),
        (λ q. cc),
      ),
    ),
  )
  shrink_min_lem (at_head (e ∷ f ∷ a)) n s =
      let (t, sp, l, g, calls, only, enough) =
        shrink_min_from_lem (e ∷ []) f a (IsSplit-on r c e [] (f ∷ a) s) in
      let apart : e.0 ≡ c → keyed c (f ∷ a) ≡ false =
        λ q. keyed_gt c e.0 (f ∷ a) s.rising.0 (omega arith) in
      (
        after_calls (deletes test e.1) (shrink_min_from test wmin (e ∷ []) f a),
        refl,
        (
          (e.0 == c) || (keyed c (f ∷ a) && leb c wmin),
          (
            t,
            sp,
            l ∙ ground arith,
            g ∙ ground arith,
            (λ b.
                effect-append (deletes test e.1) (shrink_min_from test wmin (e ∷ []) f a).1 r.id b
                ∙ (calls (effect (deletes test e.1) r.id b)
                    ∙ rw (deletes_lem test r e.1 b (s.files_a.0.1))
                        (rw (s.files_a.0.0) (ground arith)))),
            (λ q. ground arith),
            enough,
          ),
        ),
      )
  shrink_min_lem (at_node p e a) n s = (
    shrink_min_from test wmin p e a,
    refl,
    (keyed c (e ∷ a) && leb c wmin, shrink_min_from_lem p e a s),
  )
  shrink_min_lem (at_tail p) n s = (
    (at_tail p, []),
    refl,
    (false, (tt, s, ground arith, refl, (λ b. refl), (λ q. cc), (λ q. cc))),
  )
