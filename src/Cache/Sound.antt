-- ===== src/Cache/Sound.antt =====
-- cache_file_get of src/gvar/geostreamd/cache.c as a whole keeps the two lists.
use qjhart_geostreams.Prelude.{
  ◌⊎◌, ◌≡◌, ◌≢◌, refl, ℕ, suc, ◌<◌, ◌+◌, Bool, Bool-cases, inl, inr, true, false, not, none, some,
  List, [], ◌∷◌, ◌++◌, arith, length, length-append, if◌then◌else◌, ◌==◌, ltb,
}
use qjhart_geostreams.Ll.{Ptr, null}
use qjhart_geostreams.Ll.Chain.{has, has-append}
use qjhart_geostreams.Request.{Method}
use qjhart_geostreams.Cache.{
  CFile, Cache, pure, ◌>>◌, ◌>>=◌, set_file, cache_get_cfile, cache_free_cfile,
  cache_exisiting_file,
}
use qjhart_geostreams.Cache.Get.{
  Errno, Answers, Opened, opened, failed, open_code, stat_file, open_file, set_name, load_file,
  cache_file_get,
}
use qjhart_geostreams.Cache.Lists.{bind-Ends, IsCache}
use qjhart_geostreams.Cache.Queue.{Walk-ne_null}
use qjhart_geostreams.Cache.Find.{
  Others, Compares, cache_exisiting_file-none, cache_exisiting_file-found,
  cache_exisiting_file-first,
}
use qjhart_geostreams.Cache.Files.{ne_null, IsCache-rest, cache_get_cfile-first}
use qjhart_geostreams.Cache.Fresh.{cache_get_cfile-new, cache_get_cfile-null}
use qjhart_geostreams.Cache.Invariant.{
  Kept, Sound, Holds, sound, either-Ends, set_file-Holds, free-Sound, stat_file-Sound,
}

Opened-cases : (o : Opened) → ((e : Errno) × (o ≡ failed e)) ⊎ ((d : ℕ) × (o ≡ opened d))
Opened-cases (opened d) = inr (d, refl)
Opened-cases (failed e) = inl (e, refl)

open_file-Sound :
    {zs : List Ptr} {s : Cache} (n : ℕ) (a : Answers) (x : Ptr) (m : Method) (rc : ℕ)
    (xs ys : List Ptr)
    → IsCache s xs (x ∷ ys)
    → Kept zs xs (x ∷ ys)
    → x ≢ null
    → length (x ∷ ys) < n
    → Sound zs (open_file n a x m rc s)
unfolding open_file
open_file-Sound {zs} {s} n a x m rc xs ys v k ne h = elim (Opened-cases a.open_fd) [
  | inl (e, i) ↦
      rw (ne_null x ne, i)
        (bind-Ends (set_file x (record (s.files x) { fd = none }) s)
          (λ _. cache_free_cfile x >> pure (null, open_code e rc)) _ _
          (set_file-Holds x (record (s.files x) { fd = none }) xs (x ∷ ys) v ne)
          λ _ t w. free-Sound x xs ys (null, open_code e rc) w k ne)
  | inr (d, i) ↦
      rw (ne_null x ne, i)
        (bind-Ends (set_file x (record (s.files x) { fd = some d }) s)
          (λ _ t. stat_file n a x m rc (record t { open_fds = d ∷ t.open_fds })) _ _
          (set_file-Holds x (record (s.files x) { fd = some d }) xs (x ∷ ys) v ne)
          λ _ t w.
            stat_file-Sound n a x m rc xs ys
              (IsCache-rest t.files t.current_size (d ∷ t.open_fds) w) k ne h)
]

set_name-Holds :
    {s : Cache} (b : Bool) (x : Ptr) (fn : List ℕ) (xs ys : List Ptr)
    → IsCache s xs ys
    → x ≢ null
    → Holds xs ys (set_name b x fn s)
unfolding set_name
set_name-Holds {s} b x fn xs ys v ne =
    let g = s.files x in
    let write = λ (k : CFile) (c : Bool).
      bind-Ends (set_file x k s) (λ _. pure c) _ (λ _ t. IsCache t xs ys)
        (set_file-Holds x k xs ys v ne) λ _ t w. w in
    rw (ne_null x ne) (
      either-Ends (not (ltb g.fn_z (length fn + 128))) _ _ _ s
        (write (record g { fn = some fn }) true)
        (either-Ends b _ _ _ s (write (record g { fn = some fn; fn_z = length fn + 128 }) true)
          (write (record g { fn = none }) false)))

-- Where a search for the name ends well: no busy file has the name, or the first that has it is
-- not the last, or it is the only one. The names that are compared are not NULL.
pub data Lookup (files : Ptr → CFile) (fn : List ℕ) : List Ptr → Type 0 where
  absent : (ys : List Ptr) → Others files fn ys → Lookup files fn ys
  found :
      (ys : List Ptr) (c z : Ptr) (zs : List Ptr)
      → Others files fn ys
      → Compares (files c).fn fn true
      → Lookup files fn (ys ++ c ∷ z ∷ zs)
  only : (c : Ptr) → Compares (files c).fn fn true → Lookup files fn (c ∷ [])

-- What the first part of cache_file_get finds a file for, is opened.
prepare-Sound :
    {zs : List Ptr} {u : Cache} (n : ℕ) (a : Answers) (x : Ptr) (fn : List ℕ) (m : Method) (rc : ℕ)
    (xs ys : List Ptr)
    → IsCache u xs (x ∷ ys)
    → Kept zs xs (x ∷ ys)
    → x ≢ null
    → length (x ∷ ys) < n
    → Sound zs (
        (do
          ready ← set_name a.realloc x fn
          if ready then open_file n a x m rc else pure (null, 500))
          u)
prepare-Sound {zs} {u} n a x fn m rc xs ys v k ne h =
    bind-Ends (set_name a.realloc x fn u) _ _ _ (set_name-Holds a.realloc x fn xs (x ∷ ys) v ne)
      λ ready t w.
        either-Ends ready _ _ _ t (open_file-Sound n a x m rc xs ys w k ne h)
          (sound xs (x ∷ ys) w k)

-- A file that goes from the front of the queue to the front of the busy list is not lost, nor is one
-- that is busy afterwards for the first time.
first-Kept : (x : Ptr) (xs ys : List Ptr) → Kept ((x ∷ xs) ++ ys) xs (x ∷ ys)
first-Kept x xs ys = record { there = λ a i. ground (arith, has-append a xs ys) }

new-Kept : (x : Ptr) (ys : List Ptr) → Kept ys [] (x ∷ ys)
new-Kept x ys = record { there = λ a i. ground arith }

all-Kept : (xs ys : List Ptr) → Kept (xs ++ ys) xs ys
all-Kept xs ys = record { there = λ a i. ground (arith, has-append a xs ys) }

load_file-Sound :
    {s : Cache} (n : ℕ) (a : Answers) (fn : List ℕ) (m : Method) (rc : ℕ) (xs ys : List Ptr)
    → IsCache s xs ys
    → has a.block ys ≡ false
    → suc (length ys) < n
    → Sound (xs ++ ys) (load_file n a fn m rc s)
unfolding load_file
load_file-Sound {s} n a fn m rc (x ∷ xs) ys v out h =
    let ne = Walk-ne_null s.items.next s.free.head (x ∷ xs) x v.free_queue.walk (ground arith) in
    bind-Ends (cache_get_cfile a.block s) _ _ _ (cache_get_cfile-first a.block x xs ys v)
      λ f u (e, w, _).
        rw (e, ne_null x ne) (prepare-Sound n a x fn m rc xs ys w (first-Kept x xs ys) ne h)
load_file-Sound {s} n a fn m rc [] ys v out h = elim (Bool-cases (a.block == null)) [
  | inl e ↦
      let none : a.block ≡ null = ground arith in
      rw none (
        bind-Ends (cache_get_cfile null s) _ _ _ (cache_get_cfile-null ys v)
          λ f u (e, w, _). rw e (sound [] ys w (all-Kept [] ys)))
  | inr e ↦
      let ne : a.block ≢ null = ground arith in
      bind-Ends (cache_get_cfile a.block s) _ _ _ (cache_get_cfile-new a.block ys v ne out)
        λ f u (e', w, _).
          rw (e', e) (prepare-Sound n a a.block fn m rc [] ys w (new-Kept a.block ys) ne h)
]

-- Moving a busy file to the front of its list loses none.
moved-Kept :
    (xs ys : List Ptr) (c : Ptr) (ws : List Ptr) → Kept (xs ++ (ys ++ c ∷ ws)) xs (c ∷ ys ++ ws)
moved-Kept xs ys c ws = record {
  there = λ a i.
      ground (arith, has-append a xs (ys ++ c ∷ ws), has-append a ys (c ∷ ws), has-append a ys ws);
}

-- cache_file_get returns without a fault, whatever open, fstat, mmap, malloc and realloc answer and
-- the method is, over any evictions, if the search for the name ends well: no busy file has it, or
-- the first that has it is not the last one of several. Afterwards the free queue and the busy list
-- are a queue and a list without a common file again, and every file that was in one of them still
-- is. The names compared are not NULL, malloc does not return a busy file, and the loops have
-- two rounds more than there are busy files.
pub cache_file_get-Sound :
    {s : Cache} (n : ℕ) (a : Answers) (fn : List ℕ) (m : Method) (rc : ℕ) (xs ys : List Ptr)
    → IsCache s xs ys
    → Lookup s.files fn ys
    → has a.block ys ≡ false
    → suc (length ys) < n
    → Sound (xs ++ ys) (cache_file_get n a fn m rc s)
unfolding cache_file_get
cache_file_get-Sound {s} n a fn m rc xs ys v (absent _ o) out h =
    rw (cache_exisiting_file-none n fn xs ys v o (omega arith))
      (load_file-Sound n a fn m rc xs ys v out h)
cache_file_get-Sound {s} n a fn m rc xs _ v (found ys c z zs o i) out h =
    bind-Ends (cache_exisiting_file n fn s) _ _ _
      (cache_exisiting_file-found n fn xs ys c z zs v o i
        (omega (arith, length-append ys (c ∷ z ∷ zs))))
      λ f t (e, w, _).
        rw (e, ne_null c w.busy_list.forward.1)
          (sound xs (c ∷ ys ++ z ∷ zs) w (moved-Kept xs ys c (z ∷ zs)))
cache_file_get-Sound {s} n a fn m rc xs _ v (only c i) out h =
    bind-Ends (cache_exisiting_file n fn s) _ _ _
      (cache_exisiting_file-first n fn xs c [] v i (omega arith))
      λ f t (e, w, _).
        rw (e, ne_null c v.busy_list.forward.1) (sound xs (c ∷ []) w (all-Kept xs (c ∷ [])))
