-- ===== src/Ll/Chain.antt =====
-- What a list of src/gvar/geostreamd/ll.c stands for: the addresses of its items in order.
use qjhart_geostreams.Prelude.{
  ◌≡◌, ◌≢◌, refl, sym, ap₂, ◌∙◌, subst, Bool, true, false, List, [], ◌∷◌, ◌++◌, ◌||◌, ◌==◌, arith,
}
use qjhart_geostreams.RwLock.{RwLock}
use qjhart_geostreams.Ll.{Ptr, null, Mem, Run, ok, blocked, fault, update}

abbrev pub has : Ptr → List Ptr → Bool
has a [] = false
has a (x ∷ xs) = (a == x) || has a xs

abbrev pub Distinct : List Ptr → Type 0
Distinct [] = Unit
Distinct (x ∷ xs) = (has x xs ≡ false) × Distinct xs

-- From `f` the `next` fields lead through `xs`, none of them NULL, to `stop`.
abbrev pub Fwd : (Ptr → Ptr) → Ptr → List Ptr → Ptr → Type 0
Fwd next f [] stop = f ≡ stop
Fwd next f (x ∷ xs) stop = (f ≡ x) × (x ≢ null) × Fwd next (next x) xs stop

-- The `prev` fields of `xs` lead back from `l`, the last of them, to `b`.
abbrev pub Bwd : (Ptr → Ptr) → Ptr → List Ptr → Ptr → Type 0
Bwd prev b [] l = l ≡ b
Bwd prev b (x ∷ xs) l = (prev x ≡ b) × Bwd prev x xs l

pub record IsFree (l : RwLock) : Type 0 where
  pub no_readers : l.readers_reading ≡ 0
  pub no_writers : l.writers_writing ≡ 0

pub record IsList (m : Mem) (xs : List Ptr) : Type 0 where
  pub forward : Fwd m.items.next m.ll.head xs null
  pub backward : Bwd m.items.prev null xs m.ll.tail
  pub distinct : Distinct xs
  pub unlocked : IsFree m.ll.rwlock

-- No write outside the addresses of `xs`.
abbrev pub Spares : List Ptr → Mem → Mem → Type 0
Spares xs m n =
    (a : Ptr)
    → has a xs ≡ false
    → (n.items.next a ≡ m.items.next a) × (n.items.prev a ≡ m.items.prev a)

abbrev pub Detached : Mem → Ptr → Type 0
Detached m p = (m.items.next p ≡ null) × (m.items.prev p ≡ null)

-- The run neither waits nor faults, and its result meets `P`.
abbrev pub Returns : {A : Type 0} → (A → Mem → Type 0) → Run A → Type 0
Returns P (ok a m) = P a m
Returns P blocked = ⊥
Returns P fault = ⊥

pub has-append : (a : Ptr) (xs ys : List Ptr) → has a (xs ++ ys) ≡ (has a xs || has a ys)
has-append a [] ys = refl
has-append a (x ∷ xs) ys = ground (arith, has-append a xs ys)

pub Fwd-update :
    (next : Ptr → Ptr) (p q f : Ptr) (xs : List Ptr) (stop : Ptr)
    → Fwd next f xs stop
    → has p xs ≡ false
    → Fwd (update next p q) f xs stop
Fwd-update next p q f [] stop c out = c
Fwd-update next p q f (x ∷ xs) stop c out =
    (c.0, c.1, ground (arith, Fwd-update next p q (next x) xs stop))

pub Bwd-update :
    (prev : Ptr → Ptr) (p q b : Ptr) (xs : List Ptr) (l : Ptr)
    → Bwd prev b xs l
    → has p xs ≡ false
    → Bwd (update prev p q) b xs l
Bwd-update prev p q b [] l c out = c
Bwd-update prev p q b (x ∷ xs) l c out =
    (ground arith, Bwd-update prev p q x xs l c.1 (ground arith))

pub Fwd-append :
    (next : Ptr → Ptr) (f : Ptr) (xs : List Ptr) (m : Ptr) (ys : List Ptr) (stop : Ptr)
    → Fwd next f xs m
    → Fwd next m ys stop
    → Fwd next f (xs ++ ys) stop
Fwd-append next f [] m ys stop c d = subst (λ t. Fwd next t ys stop) (sym c) d
Fwd-append next f (x ∷ xs) m ys stop c d = (c.0, c.1, Fwd-append next (next x) xs m ys stop c.2 d)

-- The last item of a list that is not empty is one of its items.
pub Bwd-last :
    (prev : Ptr → Ptr) (b x : Ptr) (xs : List Ptr) (l : Ptr)
    → Bwd prev b (x ∷ xs) l
    → has l (x ∷ xs) ≡ true
Bwd-last prev b x [] l c = ground arith
Bwd-last prev b x (y ∷ ys) l c = ground (arith, Bwd-last prev x y ys l c.1)

pub Returns-mono :
    {A : Type 0} (P Q : A → Mem → Type 0) (r : Run A)
    → Returns P r
    → ((a : A) (n : Mem) → P a n → Q a n)
    → Returns Q r
Returns-mono P Q (ok a n) p h = h a n p
Returns-mono P Q blocked p h = p
Returns-mono P Q fault p h = p

-- The items of a list are determined by its memory.
Fwd-unique :
    (next : Ptr → Ptr) (f : Ptr) (xs ys : List Ptr)
    → Fwd next f xs null
    → Fwd next f ys null
    → xs ≡ ys
Fwd-unique next f [] [] c d = refl
Fwd-unique next f [] (y ∷ ys) c d = absurd (d.1 (sym d.0 ∙ c))
Fwd-unique next f (x ∷ xs) [] c d = absurd (c.1 (sym c.0 ∙ d))
Fwd-unique next f (x ∷ xs) (y ∷ ys) c d =
    let e : x ≡ y = sym c.0 ∙ d.0 in ap₂ ◌∷◌ e (Fwd-unique next (next x) xs ys c.2 (rw e d.2))

pub IsList-unique : {m : Mem} (xs ys : List Ptr) → IsList m xs → IsList m ys → xs ≡ ys
IsList-unique {m} xs ys v w = Fwd-unique m.items.next m.ll.head xs ys v.forward w.forward
