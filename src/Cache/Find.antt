-- ===== src/Cache/Find.antt =====
-- cache_exisiting_file of src/gvar/geostreamd/cache.c against the names of the busy files.
use qjhart_geostreams.Prelude.{
  ◌≡◌, refl, ap, ℕ, zero, suc, ◌<◌, Bool, true, false, Option, none, some, List, [], ◌∷◌, ◌++◌,
  arith, length, same,
}
use qjhart_geostreams.Ll
use qjhart_geostreams.Ll.{Ptr, null}
use qjhart_geostreams.Ll.Chain.{Fwd, IsList, Fwd-append}
use qjhart_geostreams.Ll.Frame.{mem}
use qjhart_geostreams.Ll.Split.{Fwd-split}
use qjhart_geostreams.Ll.ToHead.{tohead_first, tohead_last_breaks}
use qjhart_geostreams.Cache.{
  CFile, Cache, done, pure, ◌>>◌, on_busy, named, search, cache_exisiting_file,
}
use qjhart_geostreams.Cache.Lists.{IsCache, rest, Ends, bind-Ends, busy-Ends}
use qjhart_geostreams.Cache.Queue.{IsQueue-frame}
use qjhart_geostreams.Cache.Busy.{tohead-IsCache}
use qjhart_geostreams.Cache.Files.{ne_null}

-- Whether the comparison of a file's name, which is not NULL, comes out as `b`.
abbrev pub Compares : Option (List ℕ) → List ℕ → Bool → Type 0
Compares none fn b = ⊥
Compares (some t) fn b = same t fn ≡ b

abbrev pub Others : (Ptr → CFile) → List ℕ → List Ptr → Type 0
Others files fn [] = Unit
Others files fn (y ∷ ys) = Compares (files y).fn fn false × Others files fn ys

named-Compares :
    (o : Option (List ℕ)) (fn : List ℕ) (b : Bool) (s : Cache)
    → Compares o fn b
    → named o fn s ≡ done b s
named-Compares none fn b s h = absurd h
named-Compares (some t) fn b s h = ap (λ c. done c s) h

search-miss :
    (n : ℕ) (fn : List ℕ) (f : Ptr) (ys : List Ptr) (s : Cache)
    → Fwd s.items.next f ys null
    → Others s.files fn ys
    → length ys < n
    → search n fn f s ≡ done null s
unfolding search
search-miss zero fn f ys s w o h = absurd (omega arith)
search-miss (suc n) fn f [] s w o h = rw w refl
search-miss (suc n) fn f (y ∷ ys) s w o h =
    rw (w.0, ne_null y w.1)
      (rw (ne_null y w.1, named-Compares (s.files y).fn fn false s o.0)
        (rw (ne_null y w.1) (search-miss n fn (s.items.next y) ys s w.2 o.1 (omega arith))))

search-hit :
    (n : ℕ) (fn : List ℕ) (f : Ptr) (ys : List Ptr) (c stop : Ptr) (s : Cache)
    → Fwd s.items.next f (ys ++ c ∷ []) stop
    → Others s.files fn ys
    → Compares (s.files c).fn fn true
    → length ys < n
    → search n fn f s ≡ (on_busy (Ll.tohead c) >> pure c) s
unfolding search
search-hit zero fn f ys c stop s w o i h = absurd (omega arith)
search-hit (suc n) fn f [] c stop s w o i h =
    rw (w.0, ne_null c w.1) (rw (ne_null c w.1, named-Compares (s.files c).fn fn true s i) refl)
search-hit (suc n) fn f (y ∷ ys) c stop s w o i h =
    rw (w.0, ne_null y w.1)
      (rw (ne_null y w.1, named-Compares (s.files y).fn fn false s o.0)
        (rw (ne_null y w.1) (search-hit n fn (s.items.next y) ys c stop s w.2 o.1 i (omega arith))))

-- The run once the file is found, whatever stands behind it.
exisiting-hit :
    {s : Cache} (n : ℕ) (fn : List ℕ) (xs ys : List Ptr) (c : Ptr) (zs : List Ptr)
    → IsCache s xs (ys ++ c ∷ zs)
    → Others s.files fn ys
    → Compares (s.files c).fn fn true
    → length ys < n
    → cache_exisiting_file n fn s ≡ (on_busy (Ll.tohead c) >> pure c) s
unfolding cache_exisiting_file
exisiting-hit {s} n fn xs ys c zs v o i h =
    let next = s.items.next in
    let (a, ne, _) = Fwd-split next s.busy.head ys c zs null v.busy_list.forward in
    search-hit n fn s.busy.head ys c (next c) s
      (Fwd-append next s.busy.head ys c (c ∷ []) (next c) a (refl, ne, refl)) o i h

-- With more rounds than there are busy files, cache_exisiting_file of a name that none of them
-- has returns NULL and changes nothing. The names are not NULL.
pub cache_exisiting_file-none :
    {s : Cache} (n : ℕ) (fn : List ℕ) (xs ys : List Ptr)
    → IsCache s xs ys
    → Others s.files fn ys
    → length ys < n
    → cache_exisiting_file n fn s ≡ done null s
unfolding cache_exisiting_file
cache_exisiting_file-none {s} n fn xs ys v o h =
    search-miss n fn s.busy.head ys s v.busy_list.forward o h

-- cache_exisiting_file returns the first busy file of the name, and moves it to the front if it is
-- not the last; the others keep their order, and nothing else changes.
pub cache_exisiting_file-found :
    {s : Cache} (n : ℕ) (fn : List ℕ) (xs ys : List Ptr) (c z : Ptr) (zs : List Ptr)
    → IsCache s xs (ys ++ c ∷ z ∷ zs)
    → Others s.files fn ys
    → Compares (s.files c).fn fn true
    → length ys < n
    → Ends
        (λ f t. (f ≡ c) × IsCache t xs (c ∷ ys ++ z ∷ zs) × (rest t ≡ rest s))
        (cache_exisiting_file n fn s)
cache_exisiting_file-found {s} n fn xs ys c z zs v o i h =
    rw (exisiting-hit n fn xs ys c (z ∷ zs) v o i h) (
      bind-Ends (on_busy (Ll.tohead c) s) (λ _. pure c) _ _ (tohead-IsCache xs ys c z zs v)
        λ _ t (w, e). (refl, w, e))

-- cache_exisiting_file of the name of the first busy file returns it and changes no list.
pub cache_exisiting_file-first :
    {s : Cache} (n : ℕ) (fn : List ℕ) (xs : List Ptr) (c : Ptr) (zs : List Ptr)
    → IsCache s xs (c ∷ zs)
    → Compares (s.files c).fn fn true
    → 0 < n
    → Ends
        (λ f t. (f ≡ c) × IsCache t xs (c ∷ zs) × (rest t ≡ rest s))
        (cache_exisiting_file n fn s)
cache_exisiting_file-first {s} n fn xs c zs v i h =
    let m = mem s.busy s.items in
    rw (exisiting-hit n fn xs [] c zs v tt i h) (
      bind-Ends (on_busy (Ll.tohead c) s) (λ _. pure c)
        (λ _ t. IsCache t xs (c ∷ zs) × (rest t ≡ rest s)) _
        (busy-Ends s (Ll.tohead c m) _ _ (tohead_first c zs v.busy_list) λ _ k (l, same). (
          record {
            free_queue = IsQueue-frame [] m k v.free_queue same (λ a i. refl);
            busy_list = l;
            apart = v.apart;
          },
          refl,
        ))
        λ _ t (w, e). (refl, w, e))

-- cache_exisiting_file of the name of the last of several busy files returns it, and leaves the
-- busy list one that stands for no items: its `tail` is the file that is now its head.
pub cache_exisiting_file_last_breaks :
    {s : Cache} (n : ℕ) (fn : List ℕ) (xs : List Ptr) (y : Ptr) (ys : List Ptr) (c : Ptr)
    → IsCache s xs (y ∷ ys ++ c ∷ [])
    → Others s.files fn (y ∷ ys)
    → Compares (s.files c).fn fn true
    → length (y ∷ ys) < n
    → Ends
        (λ f t. (f ≡ c) × (t.busy.tail ≡ c) × ((zs : List Ptr) → ¬ IsList (mem t.busy t.items) zs))
        (cache_exisiting_file n fn s)
cache_exisiting_file_last_breaks {s} n fn xs y ys c v o i h =
    let m = mem s.busy s.items in
    rw (exisiting-hit n fn xs (y ∷ ys) c [] v o i h) (
      bind-Ends (on_busy (Ll.tohead c) s) (λ _. pure c)
        (λ _ t. (t.busy.tail ≡ c) × ((zs : List Ptr) → ¬ IsList (mem t.busy t.items) zs)) _
        (busy-Ends s (Ll.tohead c m) _ _ (tohead_last_breaks y ys c v.busy_list)
          λ _ k (e, _, breaks). (e, breaks))
        λ _ t (e, breaks). (refl, e, breaks))
