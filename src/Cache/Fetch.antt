-- ===== src/Cache/Fetch.antt =====
-- A file that cache_file_get of src/gvar/geostreamd/cache.c takes into the cache, and finds again.
use qjhart_geostreams.Prelude.{
  ◌≡◌, ◌≢◌, refl, ◌∙◌, ap, ℕ, suc, ◌<◌, true, false, List, ◌∷◌, arith, length, same_self, ltb_ℤ,
  ◌+ℤ◌, pos,
}
use qjhart_geostreams.Ll.{Ptr, null}
use qjhart_geostreams.Request.{Method}
use qjhart_geostreams.Cache.{Cache, without, cache_exisiting_file, cache_get_cfile}
use qjhart_geostreams.Cache.Get.{Answers, is_head, load_file, cache_file_get}
use qjhart_geostreams.Cache.Lists.{Ends, Ends-mono, bind-Ends, IsCache, rest}
use qjhart_geostreams.Cache.Queue.{Walk-ne_null}
use qjhart_geostreams.Cache.Find.{
  Others, Compares, cache_exisiting_file-none, cache_exisiting_file-first,
}
use qjhart_geostreams.Cache.Files.{ne_null, cache_get_cfile-first}
use qjhart_geostreams.Cache.Load.{answers, loaded, IsLoaded, prepare, load_rest}

-- What the lists are and what is loaded say together.
IsLoaded-IsCache :
    {s t : Cache} {x : Ptr} {fn : List ℕ} {d size : ℕ} {p : Ptr} (xs ys : List Ptr)
    → IsLoaded s t x fn d size p
    → IsCache s xs ys
    → IsCache t xs ys
IsLoaded-IsCache {s} {t} xs ys l v = record {
  free_queue = rw (l.free, l.items) v.free_queue;
  busy_list = rw (l.busy, l.items) v.busy_list;
  apart = v.apart;
}

-- A file with the answers for a regular file that fits: the first free file is loaded with it and
-- moves to the front of the busy list.
pub record IsFetched (s t : Cache) (x : Ptr) (xs ys : List Ptr) (fn : List ℕ) (d size : ℕ) (p : Ptr)
    : Type 0 where
  pub cache : IsCache t xs (x ∷ ys)
  pub file : t.files x ≡ loaded (s.files x) fn size p
  pub others : (y : Ptr) → y ≢ x → t.files y ≡ s.files y
  pub current_size : t.current_size ≡ s.current_size +ℤ pos size
  pub maximum_size : t.maximum_size ≡ s.maximum_size
  pub open_fds : t.open_fds ≡ without d (d ∷ s.open_fds)

fetched :
    {s u t : Cache} {x : Ptr} {fn : List ℕ} {d size : ℕ} {p : Ptr} (xs ys : List Ptr)
    → IsCache u xs (x ∷ ys)
    → rest u ≡ rest s
    → IsLoaded u t x fn d size p
    → IsFetched s t x xs ys fn d size p
fetched {x = x} {fn = fn} {d = d} {size = size} {p = p} xs ys w r l = record {
  cache = IsLoaded-IsCache xs (x ∷ ys) l w;
  file = l.file ∙ ap (λ r. loaded (r.0 x) fn size p) r;
  others = λ y h. l.others y h ∙ ap (λ r. r.0 y) r;
  current_size = l.current_size ∙ ap (λ r. r.1 +ℤ pos size) r;
  maximum_size = l.maximum_size ∙ ap (λ r. r.2) r;
  open_fds = l.open_fds ∙ ap (λ r. without d (d ∷ r.3)) r;
}

module _ {s : Cache} (n : ℕ) (fn : List ℕ) (x : Ptr) (xs ys : List Ptr) (block d size : ℕ) (p : Ptr)
    (m : Method) (rc : ℕ) (v : IsCache s (x ∷ xs) ys) (o : Others s.files fn ys)
    (k : length ys < suc n) (h : is_head m ≡ false)
    (room : ltb_ℤ (s.current_size +ℤ pos size) s.maximum_size ≡ true) where
  load_file-IsFetched :
      Ends
        (λ r t. (r ≡ (x, rc)) × IsFetched s t x xs ys fn d size p)
        (load_file (suc n) (answers block d size p) fn m rc s)
  unfolding load_file
  load_file-IsFetched =
      let ne = Walk-ne_null s.items.next s.free.head (x ∷ xs) x v.free_queue.walk (ground arith) in
      bind-Ends (cache_get_cfile block s) _ _ _ (cache_get_cfile-first block x xs ys v)
        λ f u (e, w, r).
          rw (e, ne_null x ne)
            (Ends-mono (prepare u x n fn block d size p m rc) _ _
              (load_rest u x n fn block d size p m rc ne h
                (ap (λ r. ltb_ℤ (r.1 +ℤ pos size) r.2) r ∙ room))
              λ r' t (e', l). (e', fetched xs ys w r l))

  -- cache_file_get, for a method other than HEAD, of a name that no busy file has, while a file is
  -- free and the file opens, is regular, fits beside what is mapped and is mapped: the first free
  -- file comes to the front of the busy list with the name, the mapping and the size, `count` goes
  -- up by one, its size is added to `current_size`, its descriptor is closed again, `*rc` stays as
  -- it is, and the other files stay as they are.
  pub cache_file_get-loads :
      Ends
        (λ r t. (r ≡ (x, rc)) × IsFetched s t x xs ys fn d size p)
        (cache_file_get (suc n) (answers block d size p) fn m rc s)
  unfolding cache_file_get
  cache_file_get-loads =
      rw (cache_exisiting_file-none (suc n) fn (x ∷ xs) ys v o k) load_file-IsFetched

-- A file that has been loaded so is found again under its name, by any method and whatever the
-- calls would return: the same file comes back, `*rc` is RES_WORKING, and nothing changes. In
-- particular `count` stays as it is, so it does not count those who hold the file.
pub cache_file_get-again :
    {s t : Cache} (n : ℕ) (x : Ptr) (xs ys : List Ptr) (fn : List ℕ) (d size : ℕ) (p : Ptr)
    (a : Answers) (m : Method) (rc : ℕ)
    → IsFetched s t x xs ys fn d size p
    → x ≢ null
    → Ends
        (λ r u. (r ≡ (x, 0)) × IsCache u xs (x ∷ ys) × (rest u ≡ rest t))
        (cache_file_get (suc n) a fn m rc t)
unfolding cache_file_get
cache_file_get-again {s} {t} n x xs ys fn d size p a m rc v ne =
    let found : Compares (t.files x).fn fn true = rw (v.file) (same_self fn) in
    bind-Ends (cache_exisiting_file (suc n) fn t) _ _ _
      (cache_exisiting_file-first (suc n) fn xs x ys v.cache found (omega arith))
      λ f u (e, w, r). rw (e, ne_null x ne) (refl, w, r)
