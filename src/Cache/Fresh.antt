-- ===== src/Cache/Fresh.antt =====
-- A new file from cfile_new in cache_get_cfile of src/gvar/geostreamd/cache.c.
use qjhart_geostreams.Prelude.{◌≡◌, ◌≢◌, refl, ◌∙◌, ap, false, List, [], ◌∷◌, arith}
use qjhart_geostreams.Ll
use qjhart_geostreams.Ll.{Ptr, null, update}
use qjhart_geostreams.Ll.Chain.{has, Detached, Fwd-update, Bwd-update}
use qjhart_geostreams.Ll.Frame.{mem, IsList-frame}
use qjhart_geostreams.Cache.{Cache, set_at, zeroed, on_free, on_busy, cfile_new, cache_get_cfile}
use qjhart_geostreams.Cache.Queue.{Walk-update, shift_none, unlink_new}
use qjhart_geostreams.Cache.Lists.{IsCache, rest, Ends, bind-Ends, free-Ends, unshift-IsCache}
use qjhart_geostreams.Cache.Files.{ne_null}

shift_none-IsCache :
    {s : Cache} (ys : List Ptr)
    → IsCache s [] ys
    → Ends (λ f t. (f ≡ null) × IsCache t [] ys × (rest t ≡ rest s)) (on_free Ll.shift s)
shift_none-IsCache {s} ys v =
    let m = mem s.free s.items in
    free-Ends s (Ll.shift m) _ _ (shift_none v.free_queue) λ f n (e, q, same). (
      e,
      record {
        free_queue = q;
        busy_list = IsList-frame [] m n v.busy_list same (λ a i. refl);
        apart = v.apart;
      },
      refl,
    )

-- The state behind cfile_new of a block that is not NULL.
abbrev pub with_new : Cache → Ptr → Cache
with_new s block = record s {
  items = record { prev = update s.items.prev block null; next = update s.items.next block null };
  files = set_at s.files block zeroed;
}

pub new-IsCache :
    {s : Cache} (block : Ptr) (xs ys : List Ptr)
    → IsCache s xs ys
    → has block xs ≡ false
    → has block ys ≡ false
    → IsCache (with_new s block) xs ys
new-IsCache {s} block xs ys v free out = record {
  free_queue = record {
    walk = Walk-update s.items.next block null s.free.head xs v.free_queue.walk free;
    last = v.free_queue.last;
    distinct = v.free_queue.distinct;
    unlocked = v.free_queue.unlocked;
  };
  busy_list = record {
    forward = Fwd-update s.items.next block null s.busy.head ys null v.busy_list.forward out;
    backward = Bwd-update s.items.prev block null null ys s.busy.tail v.busy_list.backward out;
    distinct = v.busy_list.distinct;
    unlocked = v.busy_list.unlocked;
  };
  apart = v.apart;
}

unlink_new-IsCache :
    {s : Cache} (x : Ptr) (ys : List Ptr)
    → IsCache s [] ys
    → Detached (mem s.free s.items) x
    → x ≢ null
    → has x ys ≡ false
    → Ends (λ _ t. IsCache t [] ys × (rest t ≡ rest s)) (on_free (Ll.unlink x) s)
unlink_new-IsCache {s} x ys v d ne out =
    let m = mem s.free s.items in
    free-Ends s (Ll.unlink x m) _ _ (unlink_new x v.free_queue d ne) λ _ n (q, _, same). (
      record {
        free_queue = q;
        busy_list = IsList-frame (x ∷ []) m n v.busy_list same (λ a i. ground arith);
        apart = v.apart;
      },
      refl,
    )

-- cache_get_cfile while no file is free: the block that malloc returns, which no busy file has,
-- becomes a file with all fields zero at the front of the busy list.
pub cache_get_cfile-new :
    {s : Cache} (block : Ptr) (ys : List Ptr)
    → IsCache s [] ys
    → block ≢ null
    → has block ys ≡ false
    → Ends
        (λ f t.
          (f ≡ block)
          × IsCache t [] (block ∷ ys)
          × (rest t ≡ (set_at s.files block zeroed, s.current_size, s.maximum_size, s.open_fds)))
        (cache_get_cfile block s)
unfolding cache_get_cfile cfile_new
cache_get_cfile-new {s} block ys v ne out =
    bind-Ends (on_free Ll.shift s) _ _ _ (shift_none-IsCache ys v) λ f t (e, w, r).
      rw (e, ne_null block ne)
        (rw (ne_null block ne) (
          bind-Ends (on_free (Ll.unlink block) (with_new t block)) _ _ _
            (unlink_new-IsCache block ys (new-IsCache block [] ys w refl out)
              (ground arith, ground arith) ne out)
            λ _ u (w', r').
              bind-Ends (on_busy (Ll.unshift block) u) _ _ _
                (unshift-IsCache block [] ys w' ne refl out)
                λ _ k (w'', r'').
                  (refl, w'', r'' ∙ r' ∙ ap (λ q. (set_at q.0 block zeroed, q.1, q.2, q.3)) r)))

-- cache_get_cfile while no file is free and malloc fails: NULL, and nothing changes.
pub cache_get_cfile-null :
    {s : Cache} (ys : List Ptr)
    → IsCache s [] ys
    → Ends (λ f t. (f ≡ null) × IsCache t [] ys × (rest t ≡ rest s)) (cache_get_cfile null s)
unfolding cache_get_cfile cfile_new
cache_get_cfile-null {s} ys v =
    bind-Ends (on_free Ll.shift s) _ _ _ (shift_none-IsCache ys v)
      λ f t (e, w, r). rw e (refl, w, r)
