-- ===== src/Cache/Failures.antt =====
-- A file that cache_file_get of src/gvar/geostreamd/cache.c cannot serve, and what it leaves behind.
use qjhart_geostreams.Prelude.{
  ◌≡◌, ◌≢◌, refl, ◌∙◌, ap, ℕ, ◌<◌, ◌+◌, true, false, none, some, List, [], ◌∷◌, ◌++◌, arith, length,
  ltb, if◌then◌else◌,
}
use qjhart_geostreams.Ll.{Ptr, null}
use qjhart_geostreams.Request.{Method}
use qjhart_geostreams.Cache.{
  CFile, Cache, Run, pure, ◌>>◌, ◌>>=◌, set_at, cache_get_cfile, cache_free_cfile,
}
use qjhart_geostreams.Cache.Get.{
  Errno, Answers, opened, failed, open_code, stat_file, open_file, set_name, load_file,
  cache_file_get,
}
use qjhart_geostreams.Cache.Lists.{Ends, Ends-mono, bind-Ends, IsCache, rest}
use qjhart_geostreams.Cache.Queue.{Walk-ne_null}
use qjhart_geostreams.Cache.Find.{Others, cache_exisiting_file-none}
use qjhart_geostreams.Cache.Files.{
  ne_null, freed, IsCache-rest, cache_get_cfile-first, cache_free_cfile-busy,
}
use qjhart_geostreams.Cache.Load.{set_name-done, put}

pub open_code-always : (e : Errno) (rc : ℕ) → open_code e rc ≡ 500
unfolding open_code
open_code-always e rc = ground arith

-- The file is free again with the fields `g`, and its size is taken off if it holds a mapping.
pub record IsReturned (s t : Cache) (x : Ptr) (g : CFile) (xs ys : List Ptr) : Type 0 where
  pub cache : IsCache t (xs ++ x ∷ []) ys
  pub file : t.files x ≡ g
  pub others : (y : Ptr) → y ≢ x → t.files y ≡ s.files y
  pub current_size : t.current_size ≡ freed g s.current_size

set_at_same : (files : Ptr → CFile) (x : Ptr) (g : CFile) → set_at files x g x ≡ g
set_at_same files x g = ground arith

set_at_other :
    (files : Ptr → CFile) (x : Ptr) (g : CFile) (y : Ptr) → y ≢ x → set_at files x g y ≡ files y
set_at_other files x g y h = ground arith

-- cache_free_cfile of the first busy file after its fields are set to `g`.
free_put :
    {s : Cache} (x : Ptr) (g : CFile) (fds : List ℕ) (xs ys : List Ptr)
    → IsCache s xs (x ∷ ys)
    → x ≢ null
    → Ends
        (λ _ t. IsReturned s t x g xs ys × (t.open_fds ≡ fds))
        (cache_free_cfile x (record s { files = set_at s.files x g; open_fds = fds }))
free_put {s} x g fds xs ys v ne =
    let u = record s { files = set_at s.files x g; open_fds = fds } in
    let same = set_at_same s.files x g in
    Ends-mono (cache_free_cfile x u) _ _
      (cache_free_cfile-busy xs [] x ys (IsCache-rest (set_at s.files x g) s.current_size fds v) ne)
      λ _ t (w, r). (
        record {
          cache = w;
          file = ap (λ r. r.0 x) r ∙ same;
          others = λ y h. ap (λ r. r.0 y) r ∙ set_at_other s.files x g y h;
          current_size = ap (λ r. r.1) r ∙ ap (λ g. freed g s.current_size) same;
        },
        ap (λ r. r.3) r,
      )

-- What set_name and the failed open make of the fields.
abbrev pub renamed : CFile → List ℕ → CFile
renamed g fn = record g {
  fn = some fn;
  fn_z = if ltb g.fn_z (length fn + 128) then length fn + 128 else g.fn_z;
}

-- Two writes of a file's fields, the second from what the first wrote.
set_at_again :
    (files : Ptr → CFile) (x : Ptr) (g : CFile) (k : CFile → CFile)
    → set_at (set_at files x g) x (k (set_at files x g x)) ≡ set_at files x (k g)
set_at_again files x g k =
    let same = set_at_same files x g in
    let last : (a : Ptr) → set_at (set_at files x g) x (k g) a ≡ set_at files x (k g) a =
      λ a. ground arith in
    ap (λ h. set_at (set_at files x g) x (k h)) same ∙ (λ i a. last a i)

abbrev pub name_and_open :
    (u : Cache) (x : Ptr) (n : ℕ) (fn : List ℕ) (a : Answers) (m : Method) (rc : ℕ) → Run (Ptr × ℕ)
name_and_open u x n fn a m rc =
    (do ready ← set_name a.realloc x fn; if ready then open_file n a x m rc else pure (null, 500)) u

-- What is left to do of a file that cannot be opened, and of one that is not regular.
module _ (u : Cache) (x : Ptr) (n : ℕ) (fn : List ℕ) (a : Answers) (m : Method) (rc : ℕ)
    (ne : x ≢ null) (ready : a.realloc ≡ true) where
  failed_run :
      (e : Errno)
      → a.open_fd ≡ failed e
      → name_and_open u x n fn a m rc
        ≡ (cache_free_cfile x >> pure (null, 500))
            (put u x (record (renamed (u.files x) fn) { fd = none }))
  unfolding open_file
  failed_run e h =
      let g = renamed (u.files x) fn in
      let again = set_at_again u.files x g (λ g. record g { fd = none }) in
      rw (ready) (
        rw (set_name-done u x fn ne) (
          rw (ne_null x ne, h)
            (rw (ne_null x ne, open_code-always e rc)
              (ap (λ files. (cache_free_cfile x >> pure (null, 500)) (record u { files = files }))
                again))))

  irregular_run :
      (d size : ℕ)
      → a.open_fd ≡ opened d
      → a.fstat ≡ some (record { regular = false; size = size })
      → name_and_open u x n fn a m rc
        ≡ (cache_free_cfile x >> pure (null, 404)) (record u {
          files =
              set_at u.files x (record (renamed (u.files x) fn) { fd = some d; st_size = size });
          open_fds = d ∷ u.open_fds;
        })
  unfolding open_file stat_file
  irregular_run d size h i =
      let g = renamed (u.files x) fn in
      let k1 : CFile → CFile = λ g. record g { fd = some d } in
      let k2 : CFile → CFile = λ g. record g { st_size = size } in
      let again =
        ap (λ files. set_at files x (k2 (files x))) (set_at_again u.files x g k1)
        ∙ set_at_again u.files x (k1 g) k2 in
      rw (ready) (
        rw (set_name-done u x fn ne) (
          rw (ne_null x ne, h)
            (rw (ne_null x ne) (
              rw (ne_null x ne, i)
                (rw (ne_null x ne) (
                  ap
                    (λ files.
                      (cache_free_cfile x >> pure (null, 404))
                        (record u { files = files; open_fds = d ∷ u.open_fds }))
                    again))))))

-- Behind cache_get_cfile, and then behind a search that finds nothing.
module _ {s : Cache} (n : ℕ) (fn : List ℕ) (x : Ptr) (xs ys : List Ptr) (a : Answers) (m : Method)
    (rc : ℕ) (v : IsCache s (x ∷ xs) ys) (o : Others s.files fn ys) (k : length ys < n)
    (ready : a.realloc ≡ true) where
  loads :
      (Q : Ptr × ℕ → Cache → Type 0)
      → ((u : Cache)
          → IsCache u xs (x ∷ ys)
          → rest u ≡ rest s
          → x ≢ null
          → Ends Q (name_and_open u x n fn a m rc))
      → Ends Q (cache_file_get n a fn m rc s)
  unfolding cache_file_get load_file
  loads Q next =
      let ne = Walk-ne_null s.items.next s.free.head (x ∷ xs) x v.free_queue.walk (ground arith) in
      rw (cache_exisiting_file-none n fn (x ∷ xs) ys v o k) (
        bind-Ends (cache_get_cfile a.block s) _ _ _ (cache_get_cfile-first a.block x xs ys v)
          λ f u (e, w, r). rw (e, ne_null x ne) (next u w r ne))

  returned :
      (u : Cache) (g : CFile → CFile) (fds : List ℕ → List ℕ) (code : ℕ)
      → IsCache u xs (x ∷ ys)
      → rest u ≡ rest s
      → x ≢ null
      → Ends {A = Ptr × ℕ}
          (λ r t.
            (r ≡ (null, code))
            × IsReturned s t x (g (s.files x)) xs ys
            × (t.open_fds ≡ fds s.open_fds))
          ((cache_free_cfile x >> pure (null, code))
            (record u { files = set_at u.files x (g (u.files x)); open_fds = fds u.open_fds }))
  returned u g fds code w r ne =
      bind-Ends
        (cache_free_cfile x
          (record u { files = set_at u.files x (g (u.files x)); open_fds = fds u.open_fds }))
        (λ _. pure (null, code)) _ _ (free_put x (g (u.files x)) (fds u.open_fds) xs ys w ne)
        λ _ t (b, e). (
          refl,
          record {
            cache = b.cache;
            file = b.file ∙ ap (λ q. g (q.0 x)) r;
            others = λ y h. b.others y h ∙ ap (λ q. q.0 y) r;
            current_size = b.current_size ∙ ap (λ q. freed (g (q.0 x)) q.1) r;
          },
          e ∙ ap (λ q. fds q.3) r,
        )

  -- cache_file_get of a name that no busy file has, while a file is free and realloc does not
  -- fail, where open fails: whatever `errno` says the answer is NULL with 500. The first free file
  -- goes to the end of the queue under the new name, the descriptors are those of before, and if
  -- the file still holds the mapping that it had before it was freed, that mapping's size is taken
  -- off `current_size` once more.
  pub cache_file_get-failed :
      (e : Errno)
      → a.open_fd ≡ failed e
      → Ends
          (λ r t.
            (r ≡ (null, 500))
            × IsReturned s t x (record (renamed (s.files x) fn) { fd = none }) xs ys
            × (t.open_fds ≡ s.open_fds))
          (cache_file_get n a fn m rc s)
  cache_file_get-failed e h = loads _ λ u w r ne.
      rw (failed_run u x n fn a m rc ne ready e h)
        (returned u (λ g. record (renamed g fn) { fd = none }) (λ fds. fds) 500 w r ne)

  -- cache_file_get of a name that no busy file has, while a file is free and realloc does not
  -- fail, of a file that opens and is not regular: the answer is NULL with 404, the first free file
  -- goes to the end of the queue, and its descriptor stays open.
  pub cache_file_get_leaks :
      (d size : ℕ)
      → a.open_fd ≡ opened d
      → a.fstat ≡ some (record { regular = false; size = size })
      → Ends
          (λ r t.
            (r ≡ (null, 404))
            × IsReturned s t x
                (record (renamed (s.files x) fn) { fd = some d; st_size = size })
                xs
                ys
            × (t.open_fds ≡ d ∷ s.open_fds))
          (cache_file_get n a fn m rc s)
  cache_file_get_leaks d size h i = loads _ λ u w r ne.
      rw (irregular_run u x n fn a m rc ne ready d size h i) (
        returned u (λ g. record (renamed g fn) { fd = some d; st_size = size }) (λ fds. d ∷ fds) 404
          w r ne)
