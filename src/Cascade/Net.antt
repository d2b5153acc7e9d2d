-- ===== src/Cascade/Net.antt =====
-- The question whether a region is in the next node, through the loops of a window query of
-- src/dct/skip_list/CascadeNode.h.
use qjhart_geostreams.Prelude.{
  ℕ, ◌≡◌, refl, ap, sym, ◌∙◌, Bool, true, false, false≢true, not, ◌&&◌, ◌||◌, Option, none, some,
  leb, ltb, arith, if◌then◌else◌,
}
use qjhart_geostreams.Cascade.{Region, above_old, below_old}

-- Whether a region meets a window in a dimension, touching sides not counted.
abbrev pub meets : ℕ → ℕ → ℕ → Region → Bool
meets d wmin wmax r = ltb (r.mins d) wmax && ltb wmin (r.maxs d)

-- What the last query left in the next node: nothing before the first one.
abbrev pub seen : ℕ → Option ℕ → Option ℕ → Region → Bool
seen d none omax r = false
seen d (some omin) none r = false
seen d (some omin) (some omax) r = meets d omin omax r

-- Where a region under `c` and `m` stands after the last query: up to the first pointer, behind it,
-- before the second pointer, and from it on. `filed` tells whether the node has the region.
abbrev pub Stands : Bool → (u b p f : Bool) → (c m : ℕ) → Option ℕ → Option ℕ → Type 0
Stands filed u b p f c m none none = (u ≡ false) × (b ≡ filed) × (p ≡ false) × (f ≡ filed)
Stands filed u b p f c m (some omin) (some omax) =
    (u ≡ (filed && ltb c omax))
    × (b ≡ (filed && leb omax c))
    × (p ≡ (filed && leb m omin))
    × (f ≡ (filed && ltb omin m))
Stands filed u b p f c m none (some omax) = ⊥
Stands filed u b p f c m (some omin) none = ⊥

-- The four loops one after the other, on the question whether a region is in the next node: `u` and
-- `b` tell on which side of the first pointer it stands, `p` and `f` of the second.
abbrev pub net : (u b p moved above below : Bool) (c m wmin wmax : ℕ) → Bool → Bool
net u b p moved above below c m wmin wmax x =
    if ((p || moved) && ltb wmin m) && ltb c wmax
    then true
    else if ((b || (u && leb wmax c)) && ltb c wmax) && ltb wmin m
    then true
    else if moved && below
    then false
    else if (u && leb wmax c) && above
    then false
    else x

net-first :
    (filed moved : Bool) (c m wmin wmax : ℕ)
    → (moved ≡ true → filed ≡ true)
    → net false filed false moved true true c m wmin wmax (filed && false)
      ≡ (filed && (ltb c wmax && ltb wmin m))
net-first false false c m wmin wmax h = refl
net-first false true c m wmin wmax h = absurd (false≢true (h refl))
net-first true moved c m wmin wmax h = ground arith

net-later :
    (filed moved : Bool) (c m wmin wmax omin omax : ℕ)
    → (moved ≡ true → (filed && ltb omin m) ≡ true)
    → (((filed && ltb omin m) && not moved) ≡ true → ltb wmin m ≡ true)
    → net
        (filed && ltb c omax)
        (filed && leb omax c)
        (filed && leb m omin)
        moved
        (ltb omin m)
        (leb c omax)
        c
        m
        wmin
        wmax
        (filed && (ltb c omax && ltb omin m))
      ≡ (filed && (ltb c wmax && ltb wmin m))
net-later false false c m wmin wmax omin omax h k = refl
net-later false true c m wmin wmax omin omax h k = absurd (false≢true (h refl))
net-later true moved c m wmin wmax omin omax h k = ground arith

-- On which side it stands, it is in the list if it is filed.
Stands-filed :
    (filed u b p f : Bool) (c m : ℕ) (omin omax : Option ℕ)
    → Stands filed u b p f c m omin omax
    → ((u || b) ≡ filed) × ((p || f) ≡ filed)
Stands-filed filed u b p f c m none none s = (ground arith, ground arith)
Stands-filed filed u b p f c m none (some omax) s = absurd s
Stands-filed filed u b p f c m (some omin) none s = absurd s
Stands-filed filed u b p f c m (some omin) (some omax) s = (ground arith, ground arith)

module _ (d : ℕ) (r : Region) (filed u b p f moved : Bool) (wmin wmax : ℕ)
    (only : moved ≡ true → f ≡ true)
    (enough : (f && not moved) ≡ true → ltb wmin (r.maxs d) ≡ true) where
  pub net_lem :
      (omin omax : Option ℕ)
      → Stands filed u b p f (r.mins d) (r.maxs d) omin omax
      → net u b p moved
          (above_old d omin r)
          (below_old d omax r)
          (r.mins d)
          (r.maxs d)
          wmin
          wmax
          (filed && seen d omin omax r)
        ≡ (filed && meets d wmin wmax r)
  net_lem none none s =
      rw (s.0, s.1, s.2)
        (net-first filed moved (r.mins d) (r.maxs d) wmin wmax (λ e. sym s.3 ∙ only e))
  net_lem none (some omax) s = absurd s
  net_lem (some omin) none s = absurd s
  net_lem (some omin) (some omax) s =
      rw (s.0, s.1, s.2)
        (net-later filed moved (r.mins d) (r.maxs d) wmin wmax omin omax (λ e. sym s.3 ∙ only e)
          (λ e. enough (ap (λ x. x && not moved) s.3 ∙ e)))

  pub new-Stands :
      (omin omax : Option ℕ)
      → Stands filed u b p f (r.mins d) (r.maxs d) omin omax
      → Stands filed
          ((u && not (u && leb wmax (r.mins d)))
            || ((b || (u && leb wmax (r.mins d))) && ltb (r.mins d) wmax))
          ((b || (u && leb wmax (r.mins d))) && leb wmax (r.mins d))
          ((p || moved) && leb (r.maxs d) wmin)
          ((f && not moved) || ((p || moved) && ltb wmin (r.maxs d)))
          (r.mins d)
          (r.maxs d)
          (some wmin)
          (some wmax)
  new-Stands omin omax s =
      let sides = Stands-filed filed u b p f (r.mins d) (r.maxs d) omin omax s in
      (ground arith, ground arith, ground arith, ground arith)
