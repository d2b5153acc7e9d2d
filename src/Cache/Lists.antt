-- ===== src/Cache/Lists.antt =====
-- The lists of the cache in src/gvar/geostreamd/cache.c: a queue of free files and a list of busy
-- ones, and what each list operation makes of the two.
use qjhart_geostreams.Prelude.{◌≡◌, ◌≢◌, refl, false, List, [], ◌∷◌, ◌++◌, arith, ℤ, ℕ}
use qjhart_geostreams.Ll
use qjhart_geostreams.Ll.{Ptr, null, Ll, Mem, ok, blocked, fault}
use qjhart_geostreams.Ll.Chain.{has, IsList, Returns, has-append}
use qjhart_geostreams.Ll.Frame.{mem, Apart, IsList-frame}
use qjhart_geostreams.Ll.Ends.{unshift_lem}
use qjhart_geostreams.Server.Pool.{Apart-sym}
use qjhart_geostreams.Cache.{
  CFile, Cache, Run, done, stuck, and_then, free_result, busy_result, on_free, on_busy,
}
use qjhart_geostreams.Cache.Queue.{
  IsQueue, IsTaken, shift-IsTaken, unlink-IsTaken, link-IsQueue, link_again-IsQueue, IsQueue-frame,
}

-- The free files `xs` and the busy files `ys`, in their lists' order.
pub record IsCache (s : Cache) (xs ys : List Ptr) : Type 0 where
  pub free_queue : IsQueue (mem s.free s.items) xs
  pub busy_list : IsList (mem s.busy s.items) ys
  pub apart : Apart xs ys

-- What no list operation touches.
abbrev pub Rest : Type 0
Rest = (Ptr → CFile) × ℤ × ℤ × List ℕ

abbrev pub rest : Cache → Rest
rest s = (s.files, s.current_size, s.maximum_size, s.open_fds)

-- The run ends, in a result and a state that meet `P`.
abbrev pub Ends : {A : Type 0} → (A → Cache → Type 0) → Run A → Type 0
Ends P (done a s) = P a s
Ends P stuck = ⊥

pub free-Ends :
    {A : Type 0} (s : Cache) (o : Ll.Run A) (P : A → Mem → Type 0) (Q : A → Cache → Type 0)
    → Returns P o
    → ((a : A) (m : Mem) → P a m → Q a (record s { free = m.ll; items = m.items }))
    → Ends Q (free_result s o)
free-Ends s (ok a m) P Q p h = h a m p
free-Ends s blocked P Q p h = p
free-Ends s fault P Q p h = p

pub busy-Ends :
    {A : Type 0} (s : Cache) (o : Ll.Run A) (P : A → Mem → Type 0) (Q : A → Cache → Type 0)
    → Returns P o
    → ((a : A) (m : Mem) → P a m → Q a (record s { busy = m.ll; items = m.items }))
    → Ends Q (busy_result s o)
busy-Ends s (ok a m) P Q p h = h a m p
busy-Ends s blocked P Q p h = p
busy-Ends s fault P Q p h = p

pub bind-Ends :
    {A B : Type 0} (o : Run A) (k : A → Cache → Run B) (P : A → Cache → Type 0)
    (Q : B → Cache → Type 0)
    → Ends P o
    → ((a : A) (s : Cache) → P a s → Ends Q (k a s))
    → Ends Q (and_then o k)
bind-Ends (done a s) k P Q p h = h a s p
bind-Ends stuck k P Q p h = p

pub Ends-mono :
    {A : Type 0} (o : Run A) (P Q : A → Cache → Type 0)
    → Ends P o
    → ((a : A) (s : Cache) → P a s → Q a s)
    → Ends Q o
Ends-mono (done a s) P Q p h = h a s p
Ends-mono stuck P Q p h = p

-- A file that ll_shift has taken from the queue.
pub record IsPicked (s : Cache) (x : Ptr) (xs ys : List Ptr) : Type 0 where
  pub taken : IsTaken (mem s.free s.items) x xs
  pub busy_list : IsList (mem s.busy s.items) ys
  pub apart : Apart (x ∷ xs) ys

pub shift-IsPicked :
    {s : Cache} (x : Ptr) (xs ys : List Ptr)
    → IsCache s (x ∷ xs) ys
    → Ends (λ f t. (f ≡ x) × IsPicked t x xs ys × (rest t ≡ rest s)) (on_free Ll.shift s)
shift-IsPicked {s} x xs ys v =
    let m = mem s.free s.items in
    free-Ends s (Ll.shift m) _ _ (shift-IsTaken x xs v.free_queue) λ f n (e, l, same). (
      e,
      record {
        taken = l;
        busy_list = IsList-frame (x ∷ xs) m n v.busy_list same (Apart-sym (x ∷ xs) ys v.apart);
        apart = v.apart;
      },
      refl,
    )

pub unlink_picked-IsCache :
    {s : Cache} (x : Ptr) (xs ys : List Ptr)
    → IsPicked s x xs ys
    → Ends (λ _ t. IsCache t xs ys × (rest t ≡ rest s)) (on_free (Ll.unlink x) s)
unlink_picked-IsCache {s} x xs ys v =
    let m = mem s.free s.items in
    let out : Apart (x ∷ []) ys = λ a i. v.apart a (ground arith) in
    free-Ends s (Ll.unlink x m) _ _ (unlink-IsTaken x xs v.taken) λ _ n (q, _, same). (
      record {
        free_queue = q;
        busy_list = IsList-frame (x ∷ []) m n v.busy_list same (Apart-sym (x ∷ []) ys out);
        apart = λ a i. v.apart a (ground arith);
      },
      refl,
    )

pub unshift-IsCache :
    {s : Cache} (x : Ptr) (xs ys : List Ptr)
    → IsCache s xs ys
    → x ≢ null
    → has x xs ≡ false
    → has x ys ≡ false
    → Ends (λ _ t. IsCache t xs (x ∷ ys) × (rest t ≡ rest s)) (on_busy (Ll.unshift x) s)
unshift-IsCache {s} x xs ys v ne ox oy =
    let m = mem s.busy s.items in
    let apart : Apart xs (x ∷ ys) = λ a i. ground (arith, v.apart a) in
    busy-Ends s (Ll.unshift x m) _ _ (unshift_lem x v.busy_list ne oy) λ _ n (l, same). (
      record {
        free_queue = IsQueue-frame (x ∷ ys) m n v.free_queue same apart;
        busy_list = l;
        apart = apart;
      },
      refl,
    )

pub link_free-IsCache :
    {s : Cache} (c : Ptr) (xs ys : List Ptr)
    → IsCache s xs ys
    → c ≢ null
    → has c xs ≡ false
    → has c ys ≡ false
    → Ends (λ _ t. IsCache t (xs ++ c ∷ []) ys × (rest t ≡ rest s)) (on_free (Ll.link c) s)
link_free-IsCache {s} c xs ys v ne ox oy =
    let m = mem s.free s.items in
    let apart : Apart (xs ++ c ∷ []) ys =
      λ a i. ground (arith, has-append a xs (c ∷ []), v.apart a) in
    free-Ends s (Ll.link c m) _ _ (link-IsQueue xs c v.free_queue ne ox) λ _ n (q, same). (
      record {
        free_queue = q;
        busy_list =
            IsList-frame (xs ++ c ∷ []) m n v.busy_list same (Apart-sym (xs ++ c ∷ []) ys apart);
        apart = apart;
      },
      refl,
    )

-- The second ll_link of an evicted file.
pub link_again-IsCache :
    {s : Cache} (c : Ptr) (xs ys : List Ptr)
    → IsCache s (xs ++ c ∷ []) ys
    → c ≢ null
    → has c xs ≡ false
    → Ends (λ _ t. IsCache t (xs ++ c ∷ []) ys × (rest t ≡ rest s)) (on_free (Ll.link c) s)
link_again-IsCache {s} c xs ys v ne ox =
    let m = mem s.free s.items in
    let all = xs ++ c ∷ [] in
    free-Ends s (Ll.link c m) _ _ (link_again-IsQueue xs c v.free_queue ne ox) λ _ n (q, same). (
      record {
        free_queue = q;
        busy_list = IsList-frame all m n v.busy_list same (Apart-sym all ys v.apart);
        apart = v.apart;
      },
      refl,
    )
