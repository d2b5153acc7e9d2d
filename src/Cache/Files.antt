-- ===== src/Cache/Files.antt =====
-- Files between the lists of src/gvar/geostreamd/cache.c: cache_get_cfile and cache_free_cfile.
use qjhart_geostreams.Prelude.{
  ◌≡◌, ◌≢◌, refl, ◌∙◌, Bool-cases, inl, inr, false, List, [], ◌∷◌, ◌++◌, arith, ◌==◌, if◌then◌else◌,
  ℤ, pos, ◌-ℤ◌, ℕ,
}
use qjhart_geostreams.Ll
use qjhart_geostreams.Ll.{Ptr, null}
use qjhart_geostreams.Cache.{
  CFile, Cache, Cmd, skip, ◌>>◌, set_size, on_free, on_busy, cache_get_cfile, cache_free_cfile,
}
use qjhart_geostreams.Cache.Lists.{
  IsCache, rest, Ends, Ends-mono, bind-Ends, shift-IsPicked, unlink_picked-IsCache, unshift-IsCache,
  link_free-IsCache,
}
use qjhart_geostreams.Cache.Busy.{unlink_busy-IsLoose}

pub ne_null : (x : Ptr) → x ≢ null → (x == null) ≡ false
ne_null x h = ground arith

-- What the lists are does not depend on the other fields.
pub IsCache-rest :
    {s : Cache} {xs ys : List Ptr} (files : Ptr → CFile) (z : ℤ) (fds : List ℕ)
    → IsCache s xs ys
    → IsCache (record s { files = files; current_size = z; open_fds = fds }) xs ys
IsCache-rest files z fds v = record {
  free_queue = v.free_queue;
  busy_list = v.busy_list;
  apart = v.apart;
}

-- cache_get_cfile while a file is free: the first of the queue moves to the front of the busy list,
-- and nothing else changes. That holds for a queue that ends in a loop, too.
pub cache_get_cfile-first :
    {s : Cache} (block : Ptr) (x : Ptr) (xs ys : List Ptr)
    → IsCache s (x ∷ xs) ys
    → Ends (λ f t. (f ≡ x) × IsCache t xs (x ∷ ys) × (rest t ≡ rest s)) (cache_get_cfile block s)
unfolding cache_get_cfile
cache_get_cfile-first {s} block x xs ys v =
    bind-Ends (on_free Ll.shift s) _ _ _ (shift-IsPicked x xs ys v) λ f t (e, p, r).
      let ne = ne_null x p.taken.ne in
      rw (e, ne)
        (rw ne (
          bind-Ends (on_free (Ll.unlink x) t) _ _ _ (unlink_picked-IsCache x xs ys p) λ _ u (q, r').
            bind-Ends (on_busy (Ll.unshift x) u) _ _ _
              (unshift-IsCache x xs ys q p.taken.ne p.taken.out (p.apart x (ground arith)))
              λ _ w (l, r''). (refl, l, r'' ∙ r' ∙ r)))

-- What freeing the file makes of `current_size`.
abbrev pub freed : CFile → ℤ → ℤ
freed g z = if g.mmap == null then z else z -ℤ pos g.st_size

abbrev pub unmap : CFile → Cmd (Unit {0})
unmap g = if g.mmap == null then skip else λ s. set_size (s.current_size -ℤ pos g.st_size) s

pub unmap-Ends :
    {s : Cache} {xs ys : List Ptr}
    → IsCache s xs ys
    → (g : CFile)
    → Ends
        (λ _ t.
          IsCache t xs ys
          × (rest t ≡ (s.files, freed g s.current_size, s.maximum_size, s.open_fds)))
        (unmap g s)
unmap-Ends {s} v g = elim (Bool-cases (g.mmap == null)) [
  | inl e ↦ rw e (v, refl)
  | inr e ↦ rw e (IsCache-rest s.files (s.current_size -ℤ pos g.st_size) s.open_fds v, refl)
]

release-Ends :
    {s : Cache} (xs ys : List Ptr) (c : Ptr) (zs : List Ptr)
    → IsCache s xs (ys ++ c ∷ zs)
    → Ends
        (λ _ t. IsCache t (xs ++ c ∷ []) (ys ++ zs) × (rest t ≡ rest s))
        ((on_busy (Ll.unlink c) >> on_free (Ll.link c)) s)
release-Ends {s} xs ys c zs v =
    bind-Ends (on_busy (Ll.unlink c) s) _ _ _ (unlink_busy-IsLoose xs ys c zs v) λ _ t (l, e).
      Ends-mono (on_free (Ll.link c) t) _ _
        (link_free-IsCache c xs (ys ++ zs) l.cache l.ne l.not_free l.not_busy)
        λ _ u (q, e'). (q, e' ∙ e)

-- cache_free_cfile of a busy file moves it to the end of the queue, and takes its size off
-- `current_size` if it is mapped. The file's own fields stay as they are, `mmap` too.
pub cache_free_cfile-busy :
    {s : Cache} (xs ys : List Ptr) (c : Ptr) (zs : List Ptr)
    → IsCache s xs (ys ++ c ∷ zs)
    → c ≢ null
    → Ends
        (λ _ t.
          IsCache t (xs ++ c ∷ []) (ys ++ zs)
          × (rest t ≡ (s.files, freed (s.files c) s.current_size, s.maximum_size, s.open_fds)))
        (cache_free_cfile c s)
unfolding cache_free_cfile
cache_free_cfile-busy {s} xs ys c zs v ne = rw (ne_null c ne) (
    bind-Ends (unmap (s.files c) s) (λ _. on_busy (Ll.unlink c) >> on_free (Ll.link c)) _ _
      (unmap-Ends v (s.files c))
      λ _ t (p, e).
        Ends-mono ((on_busy (Ll.unlink c) >> on_free (Ll.link c)) t) _ _ (release-Ends xs ys c zs p)
          λ _ u (q, e'). (q, e' ∙ e))
