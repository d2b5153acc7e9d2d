-- ===== src/SkipList/Level.antt =====
-- The nodes of the list of src/dct/skip_list/SkipList.h that a level holds: those that are at least
-- as high as it.
use qjhart_geostreams.Prelude.{
  ℕ, suc, ◌≤◌, ◌≡◌, inl, inr, refl, subst, Bool-cases, true, false, List, [], ◌∷◌, ◌++◌, ◌==◌, leb,
  arith, length, if◌then◌else◌,
}
use qjhart_geostreams.SkipList.{Ptr, update}
use qjhart_geostreams.SkipList.Line.{has, Distinct, last_or, line, has-append}

abbrev pub All {ℓ} : (Ptr → Type ℓ) → List Ptr → Type ℓ
All P [] = Unit
All P (x ∷ xs) = P x × All P xs

pub All-append {ℓ} : (P : Ptr → Type ℓ) (xs ys : List Ptr) → All P xs → All P ys → All P (xs ++ ys)
All-append P [] ys a b = b
All-append P (x ∷ xs) ys a b = (a.0, All-append P xs ys a.1 b)

pub All-split {ℓ} : (P : Ptr → Type ℓ) (xs ys : List Ptr) → All P (xs ++ ys) → All P xs × All P ys
All-split P [] ys a = (tt, a)
All-split P (x ∷ xs) ys a = let r = All-split P xs ys a.1 in ((a.0, r.0), r.1)

-- From each member to each member.
pub All-imp {ℓ κ} :
    {P : Ptr → Type ℓ} {Q : Ptr → Type κ} (xs : List Ptr)
    → ((x : Ptr) → has x xs ≡ true → P x → Q x)
    → All P xs
    → All Q xs
All-imp [] f a = tt
All-imp (x ∷ xs) f a = (f x (ground arith) a.0, All-imp xs (λ y h. f y (ground arith)) a.1)

pub All-has {ℓ} : (P : Ptr → Type ℓ) (xs : List Ptr) (x : Ptr) → has x xs ≡ true → All P xs → P x
All-has P [] x h a = cc
All-has P (y ∷ xs) x h a = elim (Bool-cases (x == y)) [
  | inl e ↦ subst P (ground arith) a.0
  | inr e ↦ All-has P xs x (ground arith) a.1
]

pub All-both {ℓ κ} :
    (A : Ptr → Type ℓ) (B : Ptr → Type κ) (xs : List Ptr)
    → All A xs
    → All B xs
    → All (λ x. A x × B x) xs
All-both A B [] a b = tt
All-both A B (x ∷ xs) a b = ((a.0, b.0), All-both A B xs a.1 b.1)

pub All-zip {ℓ κ μ} :
    (A : Ptr → Type ℓ) (B : Ptr → Type κ) (C : Ptr → Type μ) (xs : List Ptr)
    → All (λ x. A x × B x) xs
    → All C xs
    → All (λ x. A x × B x × C x) xs
All-zip A B C [] a c = tt
All-zip A B C (x ∷ xs) a c = ((a.0.0, a.0.1, c.0), All-zip A B C xs a.1 c.1)

abbrev pub at_level : (Ptr → ℕ) → ℕ → List Ptr → List Ptr
at_level height h [] = []
at_level height h (x ∷ xs) =
    if leb h (height x) then x ∷ at_level height h xs else at_level height h xs

module _ (height : Ptr → ℕ) where
  pub at_level-append :
      (h : ℕ) (xs ys : List Ptr)
      → at_level height h (xs ++ ys) ≡ at_level height h xs ++ at_level height h ys
  at_level-append h [] ys = refl
  at_level-append h (x ∷ xs) ys = ground (arith, at_level-append h xs ys)

  pub at_level-has :
      (h : ℕ) (xs : List Ptr) (z : Ptr)
      → has z (at_level height h xs) ≡ true
      → (has z xs ≡ true) × (leb h (height z) ≡ true)
  at_level-has h [] z m = cc
  at_level-has h (x ∷ xs) z m = ground (arith, at_level-has h xs z)

  pub at_level-out :
      (h : ℕ) (xs : List Ptr) (z : Ptr) → has z xs ≡ false → has z (at_level height h xs) ≡ false
  at_level-out h [] z m = refl
  at_level-out h (x ∷ xs) z m = ground (arith, at_level-out h xs z)

  at_level-Distinct_end :
      (h : ℕ) (xs : List Ptr) (t : Ptr)
      → Distinct (xs ++ t ∷ [])
      → Distinct (at_level height h xs ++ t ∷ [])
  at_level-Distinct_end h [] t d = d
  at_level-Distinct_end h (x ∷ xs) t d = elim (Bool-cases (leb h (height x))) [
    | inl e ↦ rw e (
      ground (
        arith,
        has-append x xs (t ∷ []),
        has-append x (at_level height h xs) (t ∷ []),
        at_level-out h xs x,
      ),
      at_level-Distinct_end h xs t d.1,
    )
    | inr e ↦ rw e (at_level-Distinct_end h xs t d.1)
  ]

  pub out-line :
      (h : ℕ) (a : Ptr) (xs : List Ptr) (t p : Ptr)
      → has p (line a xs t) ≡ false
      → has p (line a (at_level height h xs) t) ≡ false
  out-line h a xs t p out = ground (
    arith,
    has-append p xs (t ∷ []),
    has-append p (at_level height h xs) (t ∷ []),
    at_level-out h xs p,
  )

  pub at_level-Distinct :
      (h : ℕ) (a : Ptr) (xs : List Ptr) (t : Ptr)
      → Distinct (line a xs t)
      → Distinct (line a (at_level height h xs) t)
  at_level-Distinct h a xs t d = (
    ground (
      arith,
      has-append a xs (t ∷ []),
      has-append a (at_level height h xs) (t ∷ []),
      at_level-out h xs a,
    ),
    at_level-Distinct_end h xs t d.1,
  )

  -- Every node is on the lowest level.
  pub at_level-one : (xs : List Ptr) → All (λ x. 1 ≤ height x) xs → at_level height 1 xs ≡ xs
  at_level-one [] a = refl
  at_level-one (x ∷ xs) a = ground (arith, at_level-one xs a.1)

  -- Where a search leaves a level it is on the level below.
  pub last_or-level :
      (h : ℕ) (a : Ptr) (xs : List Ptr)
      → has (last_or a (at_level height (suc h) xs)) (a ∷ at_level height h xs) ≡ true
  last_or-level h a [] = ground arith
  last_or-level h a (x ∷ xs) = ground (arith, last_or-level h a xs, last_or-level h x xs)

pub length-at_level :
    (height : Ptr → ℕ) (h : ℕ) (xs : List Ptr) → length (at_level height h xs) ≤ length xs
length-at_level height h [] = omega arith
length-at_level height h (x ∷ xs) = ground (arith, length-at_level height h xs)

-- The height of a node that is not in the list is of no account.
pub at_level-update :
    (height : Ptr → ℕ) (h p k : ℕ) (xs : List Ptr)
    → has p xs ≡ false
    → at_level (update height p k) h xs ≡ at_level height h xs
at_level-update height h p k [] out = refl
at_level-update height h p k (x ∷ xs) out = ground (arith, at_level-update height h p k xs)
