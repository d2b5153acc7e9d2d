-- ===== src/Cascade/Shrink.antt =====
-- The loop of src/dct/skip_list/CascadeNode.h that shrinks a window from above: for one region, which
-- stands in the list under the key `c`.
use qjhart_geostreams.Prelude.{
  ℕ, ◌≤◌, ◌<◌, ◌≡◌, inl, inr, refl, ◌∙◌, Bool, false, not, ◌&&◌, ◌||◌, some, List, [], ◌∷◌, leb,
  arith, Bool-cases, if◌then◌else◌,
}
use qjhart_geostreams.Cascade.{
  Region, Entry, Place, at_head, at_node, at_tail, Call, Moved, deletes, shrink_max_from,
  shrink_max,
}
use qjhart_geostreams.Cascade.Effect.{effect, effect-append, deletes_lem}
use qjhart_geostreams.Cascade.Keyed.{
  IsSplit, IsSplit-back, keyed, keyed_lt, AllKeys-imp, upto, behind,
}

abbrev pub NotTail : Place → Type 0
NotTail (at_head a) = Unit
NotTail (at_node p e a) = Unit
NotTail (at_tail p) = ⊥

abbrev pub NotHead : Place → Type 0
NotHead (at_head a) = ⊥
NotHead (at_node p e a) = Unit
NotHead (at_tail p) = Unit

-- The pointer came from `from_p`, `from_a` to a place with `p` up to it and `a` behind it, and the
-- region went over if `moved`.
pub record Moves (test : Region → Bool) (r : Region) (c : ℕ) (old_p old_a p a : List Entry)
    (cs : List Call) (moved : Bool) : Type 0 where
  pub split : IsSplit r c p a
  pub left : keyed c p ≡ (keyed c old_p && not moved)
  pub gained : keyed c a ≡ (keyed c old_a || moved)
  pub calls : (b : Bool) → effect cs r.id b ≡ (if moved && test r then false else b)

module _ (test : Region → Bool) (wmax : ℕ) (r : Region) (c : ℕ) where
  shrink_max_from_lem :
      (p : List Entry) (e : Entry) (a : List Entry)
      → IsSplit r c (e ∷ p) a
      → NotTail (shrink_max_from test wmax p e a).0
        × Moves test r c
            (e ∷ p)
            a
            (upto (shrink_max_from test wmax p e a).0)
            (behind (shrink_max_from test wmax p e a).0)
            (shrink_max_from test wmax p e a).1
            (keyed c (e ∷ p) && leb wmax c)
  unfolding shrink_max_from
  shrink_max_from_lem [] e a s = elim (Bool-cases (leb wmax e.0)) [
    | inl h ↦ rw h (
      tt,
      record {
        split = IsSplit-back r c e [] a s;
        left = ground arith;
        gained = ground arith;
        calls = λ b. deletes_lem test r e.1 b (s.files_p.0.1) ∙ rw (s.files_p.0.0) (ground arith);
      },
    )
    | inr h ↦ rw h (
      tt,
      record { split = s; left = ground arith; gained = ground arith; calls = λ b. ground arith },
    )
  ]
  shrink_max_from_lem (f ∷ p) e a s = elim (Bool-cases (leb wmax e.0)) [
    | inl h ↦
        let (t, m) = shrink_max_from_lem p f (e ∷ a) (IsSplit-back r c e (f ∷ p) a s) in
        rw h (
          t,
          record {
            split = m.split;
            left = m.left ∙ ground arith;
            gained = m.gained ∙ ground arith;
            calls = λ b.
                effect-append (deletes test e.1) (shrink_max_from test wmax p f (e ∷ a)).1 r.id b
                ∙ (m.calls (effect (deletes test e.1) r.id b)
                    ∙ rw (deletes_lem test r e.1 b (s.files_p.0.1))
                        (rw (s.files_p.0.0) (ground arith)));
          },
        )
    | inr h ↦
        let low : wmax ≤ c → keyed c (f ∷ p) ≡ false = λ g.
          keyed_lt c wmax (f ∷ p)
            (AllKeys-imp (λ k. k < e.0) (λ k. k < wmax) (f ∷ p) (λ k q. ground arith) s.falling.0)
            g in
        rw h (
          tt,
          record {
            split = s;
            left = ground arith;
            gained = ground arith;
            calls = λ b. ground arith;
          },
        )
  ]

  -- "max is shrinking" ends with the keys below the window's maximum behind the pointer.
  pub shrink_max_lem :
      (l : Place)
      → NotTail l
      → IsSplit r c (upto l) (behind l)
      → (m : Moved) × (shrink_max test wmax l ≡ some m)
        × NotTail m.0
        × Moves test r c
            (upto l)
            (behind l)
            (upto m.0)
            (behind m.0)
            m.1
            (keyed c (upto l) && leb wmax c)
  unfolding shrink_max
  shrink_max_lem (at_head a) n s = (
    (at_head a, []),
    refl,
    tt,
    record { split = s; left = refl; gained = ground arith; calls = λ b. refl },
  )
  shrink_max_lem (at_node p e a) n s =
      let (t, m) = shrink_max_from_lem p e a s in (shrink_max_from test wmax p e a, refl, t, m)
  shrink_max_lem (at_tail p) n s = absurd n
