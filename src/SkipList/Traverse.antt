-- ===== src/SkipList/Traverse.antt =====
-- The traversals of src/dct/skip_list/SkipList.h: its iteration and the two print functions; and
-- `removeWithKey`.
use mathlib.Core.List.{reverse, reverse-cons, reverse-reverse}
use qjhart_geostreams.Prelude.{
  ℕ, zero, suc, ◌≤◌, ◌<◌, ◌≡◌, refl, ap, sym, ◌∙◌, subst, Bool, true, false, Option, none, some,
  List, [], ◌∷◌, ◌++◌, ◌==◌, leb, arith, length, length-append, ◌↔◌, false≢true, ==_refl,
  if◌then◌else◌,
}
use qjhart_geostreams.SkipList.{
  Ptr, null, KeyOrder, SkipList, reaches, get_fwd, get_bck, get_key, locate, remove, ◌>>=◌,
}
use qjhart_geostreams.SkipList.Line.{first_or, Linked, Linked-next, has-append, has-apart}
use qjhart_geostreams.SkipList.Level.{All, All-imp, All-both, All-append, at_level-one}
use qjhart_geostreams.SkipList.Shape.{IsSkip, IsNode}
use qjhart_geostreams.SkipList.Gap.{Distinct-end}

unfoldable pub is_empty : SkipList → Option Bool
is_empty s = do x ← get_fwd s 1 s.head; some (x == s.tail)

unfoldable pub get_next : SkipList → Ptr → Option Ptr
get_next s n = if n == s.tail then some null else get_fwd s 1 n

unfoldable pub get_prev : SkipList → Ptr → Option Ptr
get_prev s n = if n == s.head then some null else get_bck s 1 n

-- The keys that `printFwd` prints from `tmp` on.
unfoldable pub print_fwd : ℕ → SkipList → Ptr → Option (List Ptr)
print_fwd zero s tmp = none
print_fwd (suc f) s tmp = if tmp == s.tail then some [] else do
  k ← get_key s tmp
  n ← get_fwd s 1 tmp
  rest ← print_fwd f s n
  some (if tmp == s.head then rest else k ∷ rest)

-- The keys that `printBck` prints from `tmp` on.
unfoldable pub print_bck : ℕ → SkipList → Ptr → Option (List Ptr)
print_bck zero s tmp = none
print_bck (suc f) s tmp = if tmp == s.head then some [] else do
  k ← get_key s tmp
  n ← get_bck s 1 tmp
  rest ← print_bck f s n
  some (if tmp == s.tail then rest else k ∷ rest)

module _ {ℓ} {K : Type ℓ} (o : KeyOrder K) (val : Ptr → K) where
  -- `removeWithKey`, with the key object that it deletes.
  unfoldable pub remove_with_key : ℕ → SkipList → Ptr → Option (Bool × Option Ptr × SkipList)
  remove_with_key f s k = do
    (t, vec, hit) ← locate o val f s k
    (b, s1) ← remove o val f s k
    some (b, if hit then some (s.key t) else none, s1)

abbrev pub keys : SkipList → List Ptr → List Ptr
keys s [] = []
keys s (x ∷ xs) = s.key x ∷ keys s xs

-- A node between the ends, on the lowest level.
abbrev pub Between : SkipList → Ptr → Type 0
Between s x =
    (s.live x ≡ true)
    × (leb 1 (s.height x) ≡ true)
    × ((x == s.head) ≡ false)
    × ((x == s.tail) ≡ false)

print_fwd-from :
    (s : SkipList) (f a : ℕ) (xs : List Ptr)
    → Linked (s.fwd 1) (s.bck 1) a xs s.tail
    → reaches s 1 a ≡ true
    → (a == s.tail) ≡ false
    → All (Between s) xs
    → suc (length xs) < f
    → print_fwd f s a ≡ some (if a == s.head then keys s xs else s.key a ∷ keys s xs)
unfolding print_fwd
print_fwd-from s zero a xs l r e p n = absurd (omega arith)
print_fwd-from s (suc zero) a [] l r e p n = absurd (omega arith)
print_fwd-from s (suc (suc f)) a [] l r e p n =
    let k : get_key s a ≡ some (s.key a) = ground arith in
    let g : get_fwd s 1 a ≡ some s.tail = ground arith in
    rw e (rw k (rw g (rw (==_refl s.tail) refl)))
print_fwd-from s (suc f) a (x ∷ xs) l r e p n =
    let k : get_key s a ≡ some (s.key a) = ground arith in
    let g : get_fwd s 1 a ≡ some x = ground arith in
    let rest : print_fwd f s x ≡ some (s.key x ∷ keys s xs) =
      print_fwd-from s f x xs l.2 (ground arith) p.0.3 p.1 (omega arith) ∙ ground arith in
    rw e (rw k (rw g (rw rest refl)))

-- The last node of a chain, taken off.
Linked-snoc :
    (f b : Ptr → Ptr) (a : Ptr) (xs : List Ptr) (x t : Ptr)
    → Linked f b a (xs ++ x ∷ []) t
    → Linked f b a xs x × (b t ≡ x)
Linked-snoc f b a [] x t l = ((l.0, l.1), l.2.1)
Linked-snoc f b a (y ∷ xs) x t l = let (r, e) = Linked-snoc f b y xs x t l.2 in ((l.0, l.1, r), e)

-- The same, for a list that is read backwards.
print_bck-from :
    (s : SkipList) (f t : ℕ) (ys : List Ptr)
    → Linked (s.fwd 1) (s.bck 1) s.head (reverse ys) t
    → reaches s 1 t ≡ true
    → (t == s.head) ≡ false
    → All (Between s) ys
    → suc (length ys) < f
    → print_bck f s t ≡ some (if t == s.tail then keys s ys else s.key t ∷ keys s ys)
unfolding print_bck
print_bck-from s zero t ys l r e p n = absurd (omega arith)
print_bck-from s (suc zero) t [] l r e p n = absurd (omega arith)
print_bck-from s (suc (suc f)) t [] l r e p n =
    let l' : Linked (s.fwd 1) (s.bck 1) s.head [] t = l in
    let k : get_key s t ≡ some (s.key t) = ground arith in
    let g : get_bck s 1 t ≡ some s.head = ground arith in
    rw e (rw k (rw g (rw (==_refl s.head) refl)))
print_bck-from s (suc f) t (y ∷ ys) l r e p n =
    let (l', b) =
      Linked-snoc (s.fwd 1) (s.bck 1) s.head (reverse ys) y t
        (subst (λ m. Linked (s.fwd 1) (s.bck 1) s.head m t) (reverse-cons y ys) l) in
    let k : get_key s t ≡ some (s.key t) = ground arith in
    let g : get_bck s 1 t ≡ some y = ground arith in
    let rest : print_bck f s y ≡ some (s.key y ∷ keys s ys) =
      print_bck-from s f y ys l' (ground arith) p.0.2 p.1 (omega arith) ∙ ground arith in
    rw e (rw k (rw g (rw rest refl)))

All-reverse : (P : Ptr → Type 0) (xs : List Ptr) → All P xs → All P (reverse xs)
All-reverse P [] a = tt
All-reverse P (x ∷ xs) a =
    subst (All P) (sym (reverse-cons x xs))
      (All-append P (reverse xs) (x ∷ []) (All-reverse P xs a.1) (a.0, tt))

length-reverse : (xs : List Ptr) → length (reverse xs) ≡ length xs
length-reverse [] = refl
length-reverse (x ∷ xs) = omega (
  arith,
  ap length (reverse-cons x xs),
  length-append {0} (reverse xs) (x ∷ []),
  length-reverse xs,
)

empty_iff :
    (s : SkipList) (xs : List Ptr)
    → All (Between s) xs
    → ((first_or xs s.tail == s.tail) ≡ true) ↔ (xs ≡ [])
empty_iff s [] a = ((λ h. refl), (λ h. ==_refl s.tail))
empty_iff s (x ∷ xs) a = ((λ h. absurd (false≢true (sym a.0.3 ∙ h))), (λ h. cc))

module _ {ℓ} {K : Type ℓ} (o : KeyOrder K) (val : Ptr → K) (s : SkipList) (ns : List Ptr)
    (v : IsSkip o val s ns) where
  pub line_lem : Linked (s.fwd 1) (s.bck 1) s.head ns s.tail
  line_lem =
      subst (λ l. Linked (s.fwd 1) (s.bck 1) s.head l s.tail)
        (at_level-one s.height ns (All-imp {Q = λ x. 1 ≤ s.height x} ns (λ x h n. n.1) v.nodes))
        (v.linked 1 (omega arith) (omega (arith, v.low, v.high)))

  pub between : All (Between s) ns
  between =
      let ends = Distinct-end (s.head ∷ ns) s.tail v.distinct in
      All-imp {Q = Between s} ns
        (λ x h n. (
          n.0.0,
          ground arith,
          ground (arith, v.distinct.0, has-apart s.head x ns, has-append s.head ns (s.tail ∷ [])),
          n.1,
        ))
        (All-both (IsNode s) (λ x. (x == s.tail) ≡ false) ns v.nodes ends.1)

  pub ends_apart : (s.head == s.tail) ≡ false
  ends_apart = (Distinct-end (s.head ∷ ns) s.tail v.distinct).0

  -- `printFwd` prints the keys in the order of the list and ends, and `printBck` prints the same
  -- keys in the opposite order.
  pub print_lem :
      (f : ℕ)
      → suc (length ns) < f
      → (print_fwd f s s.head ≡ some (keys s ns))
        × (print_bck f s s.tail ≡ some (keys s (reverse ns)))
  print_lem f n = (
    print_fwd-from s f s.head ns line_lem (ground (arith, v.head_end, v.low, v.high)) ends_apart
          between n
        ∙ rw (==_refl s.head) refl,
    print_bck-from s f s.tail (reverse ns)
          (subst (λ l. Linked (s.fwd 1) (s.bck 1) s.head l s.tail) (sym (reverse-reverse ns))
            line_lem)
          (ground (arith, v.tail_end, v.low, v.high)) (ground (arith, ends_apart))
          (All-reverse (Between s) ns between) (omega (arith, length-reverse ns))
        ∙ rw (==_refl s.tail) refl,
  )

  -- `isEmpty` holds exactly when the list has no node between its ends.
  pub is_empty_lem : (b : Bool) × (is_empty s ≡ some b) × ((b ≡ true) ↔ (ns ≡ []))
  unfolding is_empty
  is_empty_lem =
      let g : get_fwd s 1 s.head ≡ some (first_or ns s.tail) = ground (
        arith,
        v.head_end,
        v.low,
        v.high,
        Linked-next (s.fwd 1) (s.bck 1) s.head [] ns s.tail line_lem,
      ) in
      (first_or ns s.tail == s.tail, rw g refl, empty_iff s ns between)
