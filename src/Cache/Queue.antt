-- ===== src/Cache/Queue.antt =====
-- The free list of src/gvar/geostreamd/cache.c as it is used: a chain of `next` fields from the
-- head to the tail. cache_file_get links an evicted file twice, which leaves the last file's `next`
-- at the file itself, so a queue may end in such a loop, and its `prev` fields say nothing.
use qjhart_geostreams.Prelude.{
  ◌≡◌, ◌≢◌, ◌⊎◌, inl, inr, refl, true, false, List, [], ◌∷◌, ◌++◌, arith,
}
use qjhart_geostreams.Ll.{Ptr, null, Ll, Mem, update, shift, unlink, link}
use qjhart_geostreams.Ll.Frame.{mem, Apart}
use qjhart_geostreams.Ll.Split.{Distinct-snoc}
use qjhart_geostreams.Ll.Chain.{has, Distinct, IsFree, Spares, Detached, Returns, has-append}

-- From `h` the `next` fields lead through the list, and the last of them is NULL or its own item.
abbrev pub Walk : (Ptr → Ptr) → Ptr → List Ptr → Type 0
Walk next h [] = h ≡ null
Walk next h (x ∷ []) = (h ≡ x) × (x ≢ null) × ((next x ≡ null) ⊎ (next x ≡ x))
Walk next h (x ∷ y ∷ ys) = (h ≡ x) × (x ≢ null) × Walk next (next x) (y ∷ ys)

abbrev pub last_of : List Ptr → Ptr
last_of [] = null
last_of (x ∷ []) = x
last_of (x ∷ y ∷ ys) = last_of (y ∷ ys)

pub record IsQueue (m : Mem) (xs : List Ptr) : Type 0 where
  pub walk : Walk m.items.next m.ll.head xs
  pub last : m.ll.tail ≡ last_of xs
  pub distinct : Distinct xs
  pub unlocked : IsFree m.ll.rwlock

pub Walk-same :
    (next next' : Ptr → Ptr) (h : Ptr) (xs : List Ptr)
    → Walk next h xs
    → ((a : Ptr) → has a xs ≡ true → next' a ≡ next a)
    → Walk next' h xs
Walk-same next next' h [] w e = w
Walk-same next next' h (x ∷ []) w e = ground (arith, e x)
Walk-same next next' h (x ∷ y ∷ ys) w e = (
  w.0,
  w.1,
  rw (e x (ground arith)) (Walk-same next next' (next x) (y ∷ ys) w.2 λ a i. e a (ground arith)),
)

pub Walk-update :
    (next : Ptr → Ptr) (p q h : Ptr) (xs : List Ptr)
    → Walk next h xs
    → has p xs ≡ false
    → Walk (update next p q) h xs
Walk-update next p q h xs w out = Walk-same next (update next p q) h xs w λ a i. ground arith

pub last-has : (x : Ptr) (xs : List Ptr) → has (last_of (x ∷ xs)) (x ∷ xs) ≡ true
last-has x [] = ground arith
last-has x (y ∷ ys) = ground (arith, last-has y ys)

pub last-snoc : (xs : List Ptr) (c : Ptr) → last_of (xs ++ c ∷ []) ≡ c
last-snoc [] c = refl
last-snoc (x ∷ []) c = refl
last-snoc (x ∷ y ∷ ys) c = last-snoc (y ∷ ys) c

pub Walk-head : (next : Ptr → Ptr) (h x : Ptr) (xs : List Ptr) → Walk next h (x ∷ xs) → h ≡ x
Walk-head next h x [] w = w.0
Walk-head next h x (y ∷ ys) w = w.0

pub Walk-ne_null :
    (next : Ptr → Ptr) (h : Ptr) (xs : List Ptr) (p : Ptr)
    → Walk next h xs
    → has p xs ≡ true
    → p ≢ null
Walk-ne_null next h [] p w i = cc
Walk-ne_null next h (x ∷ []) p w i = ground arith
Walk-ne_null next h (x ∷ y ∷ ys) p w i = ground (arith, Walk-ne_null next (next x) (y ∷ ys) p w.2)

-- A queue whose last `next` is set to another item goes on with it.
pub Walk-snoc :
    (next : Ptr → Ptr) (h x : Ptr) (xs : List Ptr) (c : Ptr)
    → Walk next h (x ∷ xs)
    → Distinct (x ∷ xs)
    → has c (x ∷ xs) ≡ false
    → c ≢ null
    → (next c ≡ null) ⊎ (next c ≡ c)
    → Walk (update next (last_of (x ∷ xs)) c) h (x ∷ xs ++ c ∷ [])
Walk-snoc next h x [] c w d out ne l = ground arith
Walk-snoc next h x (y ∷ ys) c w d out ne l =
    let rest = Walk-snoc next (next x) y ys c w.2 d.1 (ground arith) ne l in
    ground (arith, last-has y ys)

-- A write of the last item's own `next` keeps the queue if it writes NULL or the item.
pub Walk-loop :
    (next : Ptr → Ptr) (h : Ptr) (xs : List Ptr) (c q : Ptr)
    → Walk next h (xs ++ c ∷ [])
    → has c xs ≡ false
    → (q ≡ null) ⊎ (q ≡ c)
    → Walk (update next c q) h (xs ++ c ∷ [])
Walk-loop next h [] c q w out l = ground arith
Walk-loop next h (x ∷ []) c q w out l = ground arith
Walk-loop next h (x ∷ y ∷ ys) c q w out l =
    let rest = Walk-loop next (next x) (y ∷ ys) c q w.2 (ground arith) l in ground arith

-- ll_shift and then ll_unlink of its result, as cache_get_cfile calls them: the first takes the
-- item, and the second clears the head where the item's `next` led back to itself.
pub record IsTaken (m : Mem) (x : Ptr) (xs : List Ptr) : Type 0 where
  pub detached : Detached m x
  pub ne : x ≢ null
  pub out : has x xs ≡ false
  pub rest :
      ((xs ≡ []) × ((m.ll.head ≡ null) ⊎ (m.ll.head ≡ x)) × (m.ll.tail ≡ null) × IsFree m.ll.rwlock)
      ⊎ ((m.ll.head ≢ x) × IsQueue m xs)

pub shift-IsTaken :
    {m : Mem} (x : Ptr) (xs : List Ptr)
    → IsQueue m (x ∷ xs)
    → Returns (λ p n. (p ≡ x) × IsTaken n x xs × Spares (x ∷ xs) m n) (shift m)
unfolding shift
shift-IsTaken x [] v = ground arith
shift-IsTaken {m} x (y ∷ ys) v =
    let w = Walk-update m.items.next m.ll.head null (m.items.next x) (y ∷ ys) v.walk.2 in
    let i = last-has y ys in
    let e = Walk-head m.items.next (m.items.next x) y ys v.walk.2 in
    let z = Walk-ne_null m.items.next (m.items.next x) (y ∷ ys) y v.walk.2 (ground arith) in
    ground arith

pub shift_none :
    {m : Mem} → IsQueue m [] → Returns (λ p n. (p ≡ null) × IsQueue n [] × Spares [] m n) (shift m)
unfolding shift
shift_none v = ground arith

pub unlink-IsTaken :
    {m : Mem} (x : Ptr) (xs : List Ptr)
    → IsTaken m x xs
    → Returns (λ _ n. IsQueue n xs × Detached n x × Spares (x ∷ []) m n) (unlink x m)
unfolding unlink
unlink-IsTaken x [] v = ground arith
unlink-IsTaken {m} x (y ∷ ys) v = elim v.rest [
  | inl e ↦ cc
  | inr q ↦
      let w = Walk-update m.items.next x null m.ll.head (y ∷ ys) q.1.walk v.out in
      let i = last-has y ys in ground arith
]

-- ll_unlink of a new item from an empty queue.
pub unlink_new :
    {m : Mem} (x : Ptr)
    → IsQueue m []
    → Detached m x
    → x ≢ null
    → Returns (λ _ n. IsQueue n [] × Detached n x × Spares (x ∷ []) m n) (unlink x m)
unfolding unlink
unlink_new x v d ne = ground arith

pub link-IsQueue :
    {m : Mem} (xs : List Ptr) (c : Ptr)
    → IsQueue m xs
    → c ≢ null
    → has c xs ≡ false
    → Returns (λ _ n. IsQueue n (xs ++ c ∷ []) × Spares (xs ++ c ∷ []) m n) (link c m)
unfolding link
link-IsQueue [] c v ne out = ground arith
link-IsQueue {m} (x ∷ xs) c v ne out =
    let next' = update m.items.next c null in
    let w0 = Walk-update m.items.next c null m.ll.head (x ∷ xs) v.walk out in
    let w = Walk-snoc next' m.ll.head x xs c w0 v.distinct out ne (inl (ground arith)) in
    let i = last-has x xs in
    let z = Walk-ne_null m.items.next m.ll.head (x ∷ xs) (last_of (x ∷ xs)) v.walk i in
    let d = Distinct-snoc (x ∷ xs) c v.distinct out in
    let l = last-snoc (x ∷ xs) c in
    ground (arith, has-append (last_of (x ∷ xs)) (x ∷ xs) (c ∷ []), has-append c (x ∷ xs) (c ∷ []))

-- ll_link of the item that is the last already: only its own `next` becomes a loop.
pub link_again-IsQueue :
    {m : Mem} (xs : List Ptr) (c : Ptr)
    → IsQueue m (xs ++ c ∷ [])
    → c ≢ null
    → has c xs ≡ false
    → Returns (λ _ n. IsQueue n (xs ++ c ∷ []) × Spares (xs ++ c ∷ []) m n) (link c m)
unfolding link
link_again-IsQueue {m} xs c v ne out =
    let next' = update m.items.next c null in
    let l = last-snoc xs c in
    let w0 = Walk-loop m.items.next m.ll.head xs c null v.walk out (inl refl) in
    let w = Walk-loop next' m.ll.head xs c c w0 out (inr refl) in
    ground (arith, v.last, has-append c xs (c ∷ []))

pub IsQueue-frame :
    {l : Ll} {xs : List Ptr} (ys : List Ptr) (m n : Mem)
    → IsQueue (mem l m.items) xs
    → Spares ys m n
    → Apart xs ys
    → IsQueue (mem l n.items) xs
IsQueue-frame {l} {xs} ys m n v same apart = record {
  walk = Walk-same m.items.next n.items.next l.head xs v.walk λ a i. (same a (apart a i)).0;
  last = v.last;
  distinct = v.distinct;
  unlocked = v.unlocked;
}
