-- ===== src/SkipList/Line.antt =====
-- One level of a skip list of src/dct/skip_list/SkipList.h: a chain of nodes between two others,
-- linked both ways.
use qjhart_geostreams.Prelude.{
  ◌≡◌, refl, ◌∙◌, append_assoc, Bool, true, false, ◌||◌, List, [], ◌∷◌, ◌++◌, ◌==◌, arith,
}
use qjhart_geostreams.SkipList.{Ptr, update}

abbrev pub has : Ptr → List Ptr → Bool
has a [] = false
has a (x ∷ xs) = (a == x) || has a xs

abbrev pub Distinct : List Ptr → Type 0
Distinct [] = Unit
Distinct (x ∷ xs) = (has x xs ≡ false) × Distinct xs

abbrev pub last_or : Ptr → List Ptr → Ptr
last_or a [] = a
last_or a (x ∷ xs) = last_or x xs

abbrev pub first_or : List Ptr → Ptr → Ptr
first_or [] t = t
first_or (x ∷ xs) t = x

-- From `a` the links lead through `xs` to `t`, and back.
abbrev pub Linked : (Ptr → Ptr) → (Ptr → Ptr) → Ptr → List Ptr → Ptr → Type 0
Linked f b a [] t = (f a ≡ t) × (b t ≡ a)
Linked f b a (x ∷ xs) t = (f a ≡ x) × (b x ≡ a) × Linked f b x xs t

-- The nodes of a level with the two ends.
abbrev pub line : Ptr → List Ptr → Ptr → List Ptr
line a xs t = a ∷ (xs ++ t ∷ [])

pub has-append : (a : Ptr) (xs ys : List Ptr) → has a (xs ++ ys) ≡ (has a xs || has a ys)
has-append a [] ys = refl
has-append a (x ∷ xs) ys = ground (arith, has-append a xs ys)

-- Distinctness of a list into which an item is put.
pub Distinct-put :
    (p : Ptr) (xs ys : List Ptr)
    → has p (xs ++ ys) ≡ false
    → Distinct (xs ++ ys)
    → Distinct (xs ++ p ∷ ys)
Distinct-put p [] ys out d = (out, d)
Distinct-put p (x ∷ xs) ys out d = (
  ground (arith, has-append x xs ys, has-append x xs (p ∷ ys)),
  Distinct-put p xs ys (ground arith) d.1,
)

-- And of one from which an item is taken, which then lacks it.
pub Distinct-take :
    (p : Ptr) (xs ys : List Ptr)
    → Distinct (xs ++ p ∷ ys)
    → Distinct (xs ++ ys) × (has p (xs ++ ys) ≡ false)
Distinct-take p [] ys d = (d.1, d.0)
Distinct-take p (x ∷ xs) ys d =
    let (r, out) = Distinct-take p xs ys d.1 in
    (
      (ground (arith, has-append x xs ys, has-append x xs (p ∷ ys)), r),
      ground (arith, has-append x xs (p ∷ ys)),
    )

pub last_or-has : (a : Ptr) (xs : List Ptr) → has (last_or a xs) (a ∷ xs) ≡ true
last_or-has a [] = ground arith
last_or-has a (x ∷ xs) = ground (arith, last_or-has x xs)

pub first_or-has : (xs : List Ptr) (t : Ptr) → has (first_or xs t) (xs ++ t ∷ []) ≡ true
first_or-has [] t = ground arith
first_or-has (x ∷ xs) t = ground arith

-- Where a chain has passed `xs`, it goes on to what follows.
pub Linked-next :
    (f b : Ptr → Ptr) (a : Ptr) (xs ys : List Ptr) (t : Ptr)
    → Linked f b a (xs ++ ys) t
    → f (last_or a xs) ≡ first_or ys t
Linked-next f b a [] [] t c = c.0
Linked-next f b a [] (y ∷ ys) t c = c.0
Linked-next f b a (x ∷ xs) ys t c = Linked-next f b x xs ys t c.2

pub Linked-after :
    (f b : Ptr → Ptr) (q a : Ptr) (xs ys : List Ptr) (t : Ptr)
    → Linked f b a (xs ++ q ∷ ys) t
    → f q ≡ first_or ys t
Linked-after f b q a [] [] t l = l.2.0
Linked-after f b q a [] (y ∷ ys) t l = l.2.0
Linked-after f b q a (x ∷ xs) ys t l = Linked-after f b q x xs ys t l.2

-- A chain depends on the links of its nodes only.
pub Linked-frame :
    (f b g c : Ptr → Ptr) (a : Ptr) (xs : List Ptr) (t : Ptr)
    → ((z : Ptr) → has z (a ∷ xs) ≡ true → g z ≡ f z)
    → ((z : Ptr) → has z (xs ++ t ∷ []) ≡ true → c z ≡ b z)
    → Linked f b a xs t
    → Linked g c a xs t
Linked-frame f b g c a [] t hf hb l = (hf a (ground arith) ∙ l.0, hb t (ground arith) ∙ l.1)
Linked-frame f b g c a (x ∷ xs) t hf hb l = (
  hf a (ground arith) ∙ l.0,
  hb x (ground arith) ∙ l.1,
  Linked-frame f b g c x xs t (λ z h. hf z (ground arith)) (λ z h. hb z (ground arith)) l.2,
)

-- Two members of a list with distinct items on its two sides are distinct.
pub has-apart : (x z : Ptr) (l : List Ptr) → has x l ≡ false → has z l ≡ true → (z == x) ≡ false
has-apart x z [] out h = cc
has-apart x z (y ∷ l) out h = ground (arith, has-apart x z l)

-- `p` linked in between `u` and `n`.
abbrev pub spliced_fwd : (Ptr → Ptr) → Ptr → Ptr → Ptr → Ptr → Ptr
spliced_fwd f p u n = update (update f p n) u p

abbrev pub spliced_bck : (Ptr → Ptr) → Ptr → Ptr → Ptr → Ptr → Ptr
spliced_bck b p u n = update (update b n p) p u

-- The two ends of a gap are on the line.
first_or-line : (xs ys : List Ptr) (t : Ptr) → has (first_or ys t) ((xs ++ ys) ++ t ∷ []) ≡ true
first_or-line [] ys t = first_or-has ys t
first_or-line (x ∷ xs) ys t = ground (arith, first_or-line xs ys t)

last_or-line :
    (x : Ptr) (xs ys : List Ptr) (t : Ptr) → has (last_or x xs) (x ∷ ((xs ++ ys) ++ t ∷ [])) ≡ true
last_or-line x [] ys t = ground arith
last_or-line x (y ∷ xs) ys t = ground (arith, last_or-line y xs ys t)

-- A node that is not on the level, linked in after `xs`.
pub Linked-splice :
    (f b : Ptr → Ptr) (p a : Ptr) (xs ys : List Ptr) (t : Ptr)
    → Distinct (line a (xs ++ ys) t)
    → has p (line a (xs ++ ys) t) ≡ false
    → Linked f b a (xs ++ ys) t
    → Linked
        (spliced_fwd f p (last_or a xs) (first_or ys t))
        (spliced_bck b p (last_or a xs) (first_or ys t))
        a
        (xs ++ p ∷ ys)
        t
Linked-splice f b p a [] [] t d out l = (ground arith, ground arith, (ground arith, ground arith))
Linked-splice f b p a [] (y ∷ ys) t d out l = (
  ground arith,
  ground arith,
  (
    ground arith,
    ground arith,
    Linked-frame f b _ _ y ys t
        (λ z h. ground (
          arith,
          has-apart a z (y ∷ (ys ++ t ∷ [])),
          has-append z ys (t ∷ []),
          has-apart p z (y ∷ ys ++ t ∷ []),
        ))
        (λ z h. ground (arith, has-apart y z (ys ++ t ∷ []), has-apart p z (ys ++ t ∷ []))) l.2,
  ),
)
Linked-splice f b p a (x ∷ xs) ys t d out l = (
  ground (arith, last_or-line x xs ys t, has-apart a (last_or x xs) (x ∷ ((xs ++ ys) ++ t ∷ []))),
  ground (arith, first_or-line xs ys t, has-apart x (first_or ys t) ((xs ++ ys) ++ t ∷ [])),
  Linked-splice f b p x xs ys t d.1 (ground arith) l.2,
)

-- A node of the level, taken out.
pub Linked-cut :
    (f b : Ptr → Ptr) (q a : Ptr) (xs ys : List Ptr) (t : Ptr)
    → Distinct (line a (xs ++ q ∷ ys) t)
    → Linked f b a (xs ++ q ∷ ys) t
    → Linked
        (update f (last_or a xs) (first_or ys t))
        (update b (first_or ys t) (last_or a xs))
        a
        (xs ++ ys)
        t
Linked-cut f b q a [] [] t d l = (ground arith, ground arith)
Linked-cut f b q a [] (y ∷ ys) t d l = (
  ground arith,
  ground arith,
  Linked-frame f b _ _ y ys t
      (λ z h. ground (arith, has-apart a z (y ∷ (ys ++ t ∷ [])), has-append z ys (t ∷ [])))
      (λ z h. ground (arith, has-apart y z (ys ++ t ∷ []))) l.2.2,
)
Linked-cut f b q a (x ∷ xs) ys t d l = (
  ground (
    arith,
    last_or-line x xs (q ∷ ys) t,
    has-apart a (last_or x xs) (x ∷ ((xs ++ q ∷ ys) ++ t ∷ [])),
  ),
  ground (
    arith,
    first_or-line (xs ++ q ∷ []) ys t,
    append_assoc xs (q ∷ []) ys,
    has-apart x (first_or ys t) ((xs ++ q ∷ ys) ++ t ∷ []),
  ),
  Linked-cut f b q x xs ys t d.1 l.2,
)
