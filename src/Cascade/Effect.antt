-- ===== src/Cascade/Effect.antt =====
-- What the calls of a node of src/dct/skip_list/CascadeNode.h make of one region in the next node.
use qjhart_geostreams.Prelude.{
  ℕ, ◌≡◌, inl, inr, refl, ap, Bool, true, false, ◌&&◌, ◌||◌, List, [], ◌∷◌, ◌++◌, ◌==◌, arith,
  Bool-cases, if◌then◌else◌,
}
use qjhart_geostreams.Cascade.{Region, Call, cascade_insert, cascade_delete, deletes, inserts}

-- Whether the region of an identifier is in the next node after the calls, where it was before.
abbrev pub effect : List Call → ℕ → Bool → Bool
effect [] i b = b
effect (cascade_insert r ∷ cs) i b = effect cs i (if r.id == i then true else b)
effect (cascade_delete r ∷ cs) i b = effect cs i (if r.id == i then false else b)

pub effect-append :
    (cs ds : List Call) (i : ℕ) (b : Bool) → effect (cs ++ ds) i b ≡ effect ds i (effect cs i b)
effect-append [] ds i b = refl
effect-append (cascade_insert r ∷ cs) ds i b = effect-append cs ds i (if r.id == i then true else b)
effect-append (cascade_delete r ∷ cs) ds i b =
    effect-append cs ds i (if r.id == i then false else b)

abbrev pub has_id : ℕ → List Region → Bool
has_id i [] = false
has_id i (r ∷ rs) = r.id == i || has_id i rs

-- The identifier of `r` is its own.
abbrev pub IsOnly : Region → List Region → Type 0
IsOnly r [] = Unit
IsOnly r (q ∷ rs) = ((q.id == r.id) ≡ true → q ≡ r) × IsOnly r rs

module _ (test : Region → Bool) (r : Region) where
  pub deletes_lem :
      (rs : List Region) (b : Bool)
      → IsOnly r rs
      → effect (deletes test rs) r.id b ≡ (if has_id r.id rs && test r then false else b)
  unfolding deletes
  deletes_lem [] b o = refl
  deletes_lem (q ∷ rs) b o = elim (Bool-cases (q.id == r.id)) [
    | inl e ↦
        let same = ap test (o.0 e) in ground (arith, deletes_lem rs b o.1, deletes_lem rs false o.1)
    | inr e ↦ ground (arith, deletes_lem rs b o.1)
  ]

  pub inserts_lem :
      (rs : List Region) (b : Bool)
      → IsOnly r rs
      → effect (inserts test rs) r.id b ≡ (if has_id r.id rs && test r then true else b)
  unfolding inserts
  inserts_lem [] b o = refl
  inserts_lem (q ∷ rs) b o = elim (Bool-cases (q.id == r.id)) [
    | inl e ↦
        let same = ap test (o.0 e) in ground (arith, inserts_lem rs b o.1, inserts_lem rs true o.1)
    | inr e ↦ ground (arith, inserts_lem rs b o.1)
  ]
