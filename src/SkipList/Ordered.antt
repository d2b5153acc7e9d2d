-- ===== src/SkipList/Ordered.antt =====
-- The ordered map that a list of src/dct/skip_list/SkipList.h promises to be: its entries in
-- ascending order of their keys.
use qjhart_geostreams.Prelude.{
  ◌≡◌, false≢true, subst, sym, ◌∙◌, refl, ap, true, false, Option, none, some, List, [], ◌∷◌, ◌++◌,
  arith, if◌then◌else◌, inl, inr, Bool-cases,
}
use qjhart_geostreams.SkipList.{Ptr, KeyOrder}
use qjhart_geostreams.SkipList.Line.{first_or, has}
use qjhart_geostreams.SkipList.Level.{All, All-imp, All-split, All-append}

module _ {ℓ κ} {K : Type ℓ} {V : Type κ} (o : KeyOrder K) where
  abbrev pub find : K → List (K × V) → Option V
  find k [] = none
  find k ((c, w) ∷ m) = if o.same c k then some w else find k m

  abbrev pub put : K → V → List (K × V) → List (K × V)
  put k w [] = (k, w) ∷ []
  put k w ((c, d) ∷ m) = if o.less c k then (c, d) ∷ put k w m else (k, w) ∷ (c, d) ∷ m

  abbrev pub delete : K → List (K × V) → List (K × V)
  delete k [] = []
  delete k ((c, d) ∷ m) = if o.same c k then m else (c, d) ∷ delete k m

module _ {ℓ} {K : Type ℓ} (key_of : Ptr → K) (obj : Ptr → Ptr) where
  -- The entries that nodes hold.
  abbrev pub entries : List Ptr → List (K × Ptr)
  entries [] = []
  entries (x ∷ xs) = (key_of x, obj x) ∷ entries xs

module _ {ℓ} {K : Type ℓ} (o : KeyOrder K) (key_of : Ptr → K) where
  abbrev pub Ascending : List Ptr → Type 0
  Ascending [] = Unit
  Ascending (x ∷ xs) = All (λ y. o.less (key_of x) (key_of y) ≡ true) xs × Ascending xs

  module _ (k : K) where
    -- The nodes with a key less than `k`, and the others.
    abbrev pub below_key : List Ptr → List Ptr
    below_key [] = []
    below_key (x ∷ xs) = if o.less (key_of x) k then x ∷ below_key xs else []

    abbrev pub from_key : List Ptr → List Ptr
    from_key [] = []
    from_key (x ∷ xs) = if o.less (key_of x) k then from_key xs else x ∷ xs

    pub below-from : (xs : List Ptr) → below_key xs ++ from_key xs ≡ xs
    below-from [] = refl
    below-from (x ∷ xs) = ground (arith, below-from xs)

    pub All-below : (xs : List Ptr) → All (λ x. o.less (key_of x) k ≡ true) (below_key xs)
    All-below [] = tt
    All-below (x ∷ xs) = ground (arith, All-below xs)

    -- A key that is not less than `k` has none less than `k` above it.
    pub not_less_above : (a b : K) → o.less a k ≡ false → o.less a b ≡ true → o.less b k ≡ false
    not_less_above a b h l = elim (Bool-cases (o.less b k)) [
      | inl e ↦ absurd (false≢true (sym h ∙ o.less_trans a b k l e))
      | inr e ↦ e
    ]

    pub All-from :
        (xs : List Ptr) → Ascending xs → All (λ x. o.less (key_of x) k ≡ false) (from_key xs)
    All-from [] a = tt
    All-from (x ∷ xs) a = elim (Bool-cases (o.less (key_of x) k)) [
      | inl e ↦ rw e (All-from xs a.1)
      | inr e ↦ rw e (e, All-imp xs (λ y h l. not_less_above (key_of x) (key_of y) e l) a.0)
    ]

    module _ (obj : Ptr → Ptr) where
      -- A smaller key is another one.
      less→apart : (a : K) → o.less a k ≡ true → o.same a k ≡ false
      less→apart a l = elim (Bool-cases (o.same a k)) [
        | inl e ↦ absurd (
            false≢true (sym (o.less_irrefl k) ∙ subst (λ c. o.less c k ≡ true) (o.same→eq a k e) l))
        | inr e ↦ e
      ]

      pub find-skip :
          (lo ys : List Ptr)
          → All (λ x. o.less (key_of x) k ≡ true) lo
          → find o k (entries key_of obj (lo ++ ys)) ≡ find o k (entries key_of obj ys)
      find-skip [] ys a = refl
      find-skip (x ∷ lo) ys a = rw (less→apart (key_of x) a.0) (find-skip lo ys a.1)

      pub put-skip :
          (w : Ptr) (lo ys : List Ptr)
          → All (λ x. o.less (key_of x) k ≡ true) lo
          → All (λ x. o.less (key_of x) k ≡ false) ys
          → put o k w (entries key_of obj (lo ++ ys))
            ≡ entries key_of obj lo ++ (k, w) ∷ entries key_of obj ys
      put-skip w [] [] a b = refl
      put-skip w [] (y ∷ ys) a b = rw b.0
      put-skip w (x ∷ lo) ys a b = rw a.0 (ap (λ m. (key_of x, obj x) ∷ m) (put-skip w lo ys a.1 b))

      pub delete-skip :
          (y : Ptr) (lo ys : List Ptr)
          → All (λ x. o.less (key_of x) k ≡ true) lo
          → o.same (key_of y) k ≡ true
          → delete o k (entries key_of obj (lo ++ y ∷ ys)) ≡ entries key_of obj (lo ++ ys)
      delete-skip y [] ys a e = rw e
      delete-skip y (x ∷ lo) ys a e =
          rw (less→apart (key_of x) a.0)
            (ap (λ m. (key_of x, obj x) ∷ m) (delete-skip y lo ys a.1 e))

      -- Above a key that is neither less than `k` nor `k` itself, no key is `k`.
      apart_above :
          (a b : K)
          → o.less a k ≡ false
          → o.same a k ≡ false
          → o.less a b ≡ true
          → o.same b k ≡ false
      apart_above a b h s l = elim (Bool-cases (o.same b k)) [
        | inl e ↦ absurd (false≢true (sym h ∙ subst (λ c. o.less a c ≡ true) (o.same→eq b k e) l))
        | inr e ↦ e
      ]

      pub find-none :
          (ys : List Ptr)
          → All (λ y. o.same (key_of y) k ≡ false) ys
          → find o k (entries key_of obj ys) ≡ none
      find-none [] a = refl
      find-none (y ∷ ys) a = rw a.0 (find-none ys a.1)

      pub delete-none :
          (ys : List Ptr)
          → All (λ y. o.same (key_of y) k ≡ false) ys
          → delete o k (entries key_of obj ys) ≡ entries key_of obj ys
      delete-none [] a = refl
      delete-none (y ∷ ys) a = rw a.0 (ap (λ m. (key_of y, obj y) ∷ m) (delete-none ys a.1))

      -- Where the first key from `k` on is not `k`, none of the list is.
      pub All-apart :
          (t : Ptr) (xs : List Ptr)
          → Ascending xs
          → o.same (key_of (first_or (from_key xs) t)) k ≡ false
          → All (λ y. o.same (key_of y) k ≡ false) xs
      All-apart t [] a s = tt
      All-apart t (x ∷ xs) a s = elim (Bool-cases (o.less (key_of x) k)) [
        | inl e ↦ (less→apart (key_of x) e, All-apart t xs a.1 (rw e at s))
        | inr e ↦
            let s' : o.same (key_of x) k ≡ false = rw e at s in
            (s', All-imp xs (λ y h l. apart_above (key_of x) (key_of y) e s' l) a.0)
      ]

  -- A new node between two parts.
  pub Ascending-put :
      (p : Ptr) (xs ys : List Ptr)
      → Ascending (xs ++ ys)
      → All (λ x. o.less (key_of x) (key_of p) ≡ true) xs
      → All (λ y. o.less (key_of p) (key_of y) ≡ true) ys
      → Ascending (xs ++ p ∷ ys)
  Ascending-put p [] ys a b c = (c, a)
  Ascending-put p (x ∷ xs) ys a b c =
      let r = All-split _ xs ys a.0 in
      (All-append _ xs (p ∷ ys) r.0 (b.0, r.1), Ascending-put p xs ys a.1 b.1 c)

  pub Ascending-take :
      (p : Ptr) (xs ys : List Ptr) → Ascending (xs ++ p ∷ ys) → Ascending (xs ++ ys)
  Ascending-take p [] ys a = a.1
  Ascending-take p (x ∷ xs) ys a =
      let r = All-split _ xs (p ∷ ys) a.0 in
      (All-append _ xs ys r.0 r.1.1, Ascending-take p xs ys a.1)

-- The order and the entries depend on the nodes of the list only.
module _ {ℓ} {K : Type ℓ} (o : KeyOrder K) (f g : Ptr → K) where
  pub Ascending-frame :
      (xs : List Ptr)
      → ((z : Ptr) → has z xs ≡ true → g z ≡ f z)
      → Ascending o f xs
      → Ascending o g xs
  Ascending-frame [] h a = tt
  Ascending-frame (x ∷ xs) h a = (
    All-imp xs (λ y m l. rw (h x (ground arith), h y (ground (arith, m))) l) a.0,
    Ascending-frame xs (λ z m. h z (ground arith)) a.1,
  )

  pub entries-frame :
      (v w : Ptr → Ptr) (xs : List Ptr)
      → ((z : Ptr) → has z xs ≡ true → (g z ≡ f z) × (w z ≡ v z))
      → entries g w xs ≡ entries f v xs
  entries-frame v w [] h = refl
  entries-frame v w (x ∷ xs) h =
      let e = h x (ground arith) in
      rw (e.0, e.1) (ap (λ m. (f x, v x) ∷ m) (entries-frame v w xs (λ z m. h z (ground arith))))

pub entries-append {ℓ} :
    {K : Type ℓ} (f : Ptr → K) (v : Ptr → Ptr) (xs ys : List Ptr)
    → entries f v (xs ++ ys) ≡ entries f v xs ++ entries f v ys
entries-append f v [] ys = refl
entries-append f v (x ∷ xs) ys = ap (λ m. (f x, v x) ∷ m) (entries-append f v xs ys)
