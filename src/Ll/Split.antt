-- ===== src/Ll/Split.antt =====
-- Chains taken apart at an item, and put together without it.
use qjhart_geostreams.Prelude.{◌≡◌, ◌≢◌, refl, subst, true, false, List, [], ◌∷◌, ◌++◌, arith}
use qjhart_geostreams.Ll.{Ptr, null, update}
use qjhart_geostreams.Ll.Chain.{has, Distinct, Fwd, Bwd, has-append, Bwd-update, Bwd-last}

pub Fwd-ne_null :
    (next : Ptr → Ptr) (f : Ptr) (xs : List Ptr) (stop p : Ptr)
    → Fwd next f xs stop
    → has p xs ≡ true
    → p ≢ null
Fwd-ne_null next f [] stop p c i = cc
Fwd-ne_null next f (x ∷ xs) stop p c i = ground (arith, Fwd-ne_null next (next x) xs stop p)

-- A write of the last item's `next` changes only where the chain stops.
pub Fwd-retarget :
    (next prev : Ptr → Ptr) (f b x : Ptr) (xs : List Ptr) (stop l q : Ptr)
    → Fwd next f (x ∷ xs) stop
    → Bwd prev b (x ∷ xs) l
    → Distinct (x ∷ xs)
    → Fwd (update next l q) f (x ∷ xs) q
Fwd-retarget next prev f b x [] stop l q c d e = ground arith
Fwd-retarget next prev f b x (y ∷ ys) stop l q c d e =
    ground (
      arith,
      Fwd-retarget next prev (next x) x y ys stop l q c.2 d.1 e.1,
      Bwd-last prev x y ys l d.1,
    )

-- A write of the first item's `prev` changes only where the chain leads back to.
pub Bwd-retarget :
    (prev : Ptr → Ptr) (b x : Ptr) (xs : List Ptr) (l q : Ptr)
    → Bwd prev b (x ∷ xs) l
    → Distinct (x ∷ xs)
    → Bwd (update prev x q) q (x ∷ xs) l
Bwd-retarget prev b x xs l q c e = ground (arith, Bwd-update prev x q x xs l)

pub Fwd-split :
    (next : Ptr → Ptr) (f : Ptr) (xs : List Ptr) (c : Ptr) (ys : List Ptr) (stop : Ptr)
    → Fwd next f (xs ++ c ∷ ys) stop
    → Fwd next f xs c × (c ≢ null) × Fwd next (next c) ys stop
Fwd-split next f [] c ys stop h = h
Fwd-split next f (x ∷ xs) c ys stop h =
    let (a, n, r) = Fwd-split next (next x) xs c ys stop h.2 in ((h.0, h.1, a), n, r)

pub Bwd-split :
    (prev : Ptr → Ptr) (b : Ptr) (xs : List Ptr) (c : Ptr) (ys : List Ptr) (l : Ptr)
    → Bwd prev b (xs ++ c ∷ ys) l
    → Bwd prev b xs (prev c) × Bwd prev c ys l
Bwd-split prev b [] c ys l h = h
Bwd-split prev b (x ∷ xs) c ys l h = let (a, r) = Bwd-split prev x xs c ys l h.1 in ((h.0, a), r)

pub Bwd-append :
    (prev : Ptr → Ptr) (b : Ptr) (xs : List Ptr) (m : Ptr) (ys : List Ptr) (l : Ptr)
    → Bwd prev b xs m
    → Bwd prev m ys l
    → Bwd prev b (xs ++ ys) l
Bwd-append prev b [] m ys l c d = subst (λ t. Bwd prev t ys l) c d
Bwd-append prev b (x ∷ xs) m ys l c d = (c.0, Bwd-append prev x xs m ys l c.1 d)

pub Distinct-split :
    (xs : List Ptr) (c : Ptr) (ys : List Ptr)
    → Distinct (xs ++ c ∷ ys)
    → (has c xs ≡ false) × (has c ys ≡ false) × Distinct (xs ++ ys)
Distinct-split [] c ys h = (refl, h.0, h.1)
Distinct-split (x ∷ xs) c ys h =
    ground (arith, Distinct-split xs c ys h.1, has-append x xs ys, has-append x xs (c ∷ ys))

-- The two halves of a list without repetitions share no item.
pub Distinct-apart :
    (xs ys : List Ptr) (p : Ptr) → Distinct (xs ++ ys) → has p xs ≡ true → has p ys ≡ false
Distinct-apart [] ys p h i = cc
Distinct-apart (x ∷ xs) ys p h i = ground (arith, Distinct-apart xs ys p h.1, has-append x xs ys)

pub Distinct-prefix : (xs ys : List Ptr) → Distinct (xs ++ ys) → Distinct xs
Distinct-prefix [] ys h = tt
Distinct-prefix (x ∷ xs) ys h = ground (arith, Distinct-prefix xs ys h.1, has-append x xs ys)

pub Distinct-suffix : (xs ys : List Ptr) → Distinct (xs ++ ys) → Distinct ys
Distinct-suffix [] ys h = h
Distinct-suffix (x ∷ xs) ys h = Distinct-suffix xs ys h.1

pub Distinct-snoc :
    (xs : List Ptr) (c : Ptr) → Distinct xs → has c xs ≡ false → Distinct (xs ++ c ∷ [])
Distinct-snoc [] c h out = (refl, tt)
Distinct-snoc (x ∷ xs) c h out = ground (arith, Distinct-snoc xs c h.1, has-append x xs (c ∷ []))
