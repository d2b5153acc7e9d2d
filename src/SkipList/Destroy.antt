-- ===== src/SkipList/Destroy.antt =====
-- The destructor of src/dct/skip_list/SkipList.h.
use qjhart_geostreams.Prelude.{
  ℕ, zero, suc, ◌<◌, ◌≡◌, refl, true, false, Option, none, some, List, [], ◌∷◌, ◌==◌, arith, length,
  length-append, if◌then◌else◌,
}
use qjhart_geostreams.SkipList.{Ptr, null, KeyOrder, SkipList, reaches, get_fwd, free, ◌>>=◌}
use qjhart_geostreams.SkipList.Line.{has, Distinct, first_or, line, Linked, has-apart}
use qjhart_geostreams.SkipList.Level.{All, All-imp, All-append}
use qjhart_geostreams.SkipList.Shape.{IsSkip}
use qjhart_geostreams.SkipList.Traverse.{line_lem}

-- The loop of the destructor.
unfoldable pub destroy : ℕ → SkipList → Ptr → Option SkipList
destroy zero s tmp = none
destroy (suc f) s tmp =
    if tmp == null then some s else do nxt ← get_fwd s 1 tmp; destroy f (free s tmp) nxt

-- Nodes of which each leads to the next one, and the last to NULL.
abbrev Leads : (Ptr → Ptr) → List Ptr → Type 0
Leads f [] = Unit
Leads f (x ∷ xs) = (f x ≡ first_or xs null) × Leads f xs

Leads-line :
    (f b : Ptr → Ptr) (a : Ptr) (xs : List Ptr) (t : Ptr)
    → Linked f b a xs t
    → f t ≡ null
    → Leads f (line a xs t)
Leads-line f b a [] t l e = (l.0, (e, tt))
Leads-line f b a (x ∷ xs) t l e = (l.0, Leads-line f b x xs t l.2 e)

destroy-from :
    (f : ℕ) (s : SkipList) (xs : List Ptr)
    → Leads (s.fwd 1) xs
    → Distinct xs
    → All (λ x. (reaches s 1 x ≡ true) × ((x == null) ≡ false)) xs
    → length xs < f
    → (s' : SkipList) × (destroy f s (first_or xs null) ≡ some s')
      × ((z : Ptr) → s'.live z ≡ (if has z xs then false else s.live z))
unfolding destroy
destroy-from zero s xs l d p n = absurd (omega arith)
destroy-from (suc f) s [] l d p n = (s, refl, λ z. refl)
destroy-from (suc f) s (x ∷ xs) l d p n =
    let g : get_fwd s 1 x ≡ some (first_or xs null) = ground arith in
    let (s', run, dead) =
      destroy-from f (free s x) xs l.1 d.1
        (All-imp {Q = λ y. (reaches (free s x) 1 y ≡ true) × ((y == null) ≡ false)} xs
          (λ y h q. (ground (arith, has-apart x y xs d.0 h), q.1)) p.1)
        (omega arith) in
    (s', rw (p.0.1) (rw g run), λ z. ground (arith, dead z))

module _ {ℓ} {K : Type ℓ} (o : KeyOrder K) (val : Ptr → K) (s : SkipList) (ns : List Ptr)
    (v : IsSkip o val s ns) where
  -- The destructor ends without a fault, and of the nodes that were allocated it leaves exactly
  -- those that are not of the list, its two ends included.
  pub destroy_lem :
      (f : ℕ)
      → suc (suc (length ns)) < f
      → (s' : SkipList) × (destroy f s s.head ≡ some s')
        × ((z : Ptr) → s'.live z ≡ (if has z (line s.head ns s.tail) then false else s.live z))
  destroy_lem f n =
      destroy-from f s (line s.head ns s.tail)
        (Leads-line (s.fwd 1) (s.bck 1) s.head ns s.tail (line_lem o val s ns v) (v.last 1))
        v.distinct
        (
          (ground (arith, v.head_end, v.low, v.high), v.head_end.3),
          All-append _ ns (s.tail ∷ [])
              (All-imp {Q = λ x. (reaches s 1 x ≡ true) × ((x == null) ≡ false)} ns
                (λ x h n. (ground arith, n.5)) v.nodes)
              ((ground (arith, v.tail_end, v.low, v.high), v.tail_end.3), tt),
        )
        (omega (arith, length-append {0} ns (s.tail ∷ [])))
