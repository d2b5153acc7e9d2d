-- ===== src/Cache/Busy.antt =====
-- What the operations on the busy list of src/gvar/geostreamd/cache.c make of the cache's lists.
use qjhart_geostreams.Prelude.{◌≡◌, ◌≢◌, refl, true, false, List, [], ◌∷◌, ◌++◌, arith}
use qjhart_geostreams.Ll
use qjhart_geostreams.Ll.{Ptr, null}
use qjhart_geostreams.Ll.Chain.{has, Detached, has-append}
use qjhart_geostreams.Ll.Frame.{mem, Apart}
use qjhart_geostreams.Ll.Ends.{pop-nil, pop-snoc, link_lem}
use qjhart_geostreams.Ll.Unlink.{unlink_lem, unlink-Detached, parts}
use qjhart_geostreams.Ll.ToHead.{tohead_first, tohead_inner}
use qjhart_geostreams.Server.Pool.{Apart-sym}
use qjhart_geostreams.Cache.{Cache, on_busy}
use qjhart_geostreams.Cache.Queue.{IsQueue-frame}
use qjhart_geostreams.Cache.Lists.{IsCache, Ends, busy-Ends, rest}

-- A file that is on neither list.
pub record IsLoose (s : Cache) (c : Ptr) (xs ys : List Ptr) : Type 0 where
  pub cache : IsCache s xs ys
  pub ne : c ≢ null
  pub not_free : has c xs ≡ false
  pub not_busy : has c ys ≡ false

pub unlink_busy-IsLoose :
    {s : Cache} (xs ys : List Ptr) (c : Ptr) (zs : List Ptr)
    → IsCache s xs (ys ++ c ∷ zs)
    → Ends (λ _ t. IsLoose t c xs (ys ++ zs) × (rest t ≡ rest s)) (on_busy (Ll.unlink c) s)
unlink_busy-IsLoose {s} xs ys c zs v =
    let m = mem s.busy s.items in
    let w = parts m ys c zs v.busy_list in
    let all = ys ++ c ∷ zs in
    let in_all : has c all ≡ true = ground (arith, has-append c ys (c ∷ zs)) in
    busy-Ends s (Ll.unlink c m) _ _ (unlink_lem ys c zs v.busy_list) λ _ n (l, _, same). (
      record {
        cache = record {
          free_queue = IsQueue-frame all m n v.free_queue same v.apart;
          busy_list = l;
          apart = λ a i. ground (arith, v.apart a i, has-append a ys (c ∷ zs), has-append a ys zs);
        };
        ne = w.ne;
        not_free = Apart-sym xs all v.apart c in_all;
        not_busy = ground (arith, has-append c ys zs, w.out_xs, w.out_ys);
      },
      refl,
    )

pub pop_none-IsCache :
    {s : Cache} (xs : List Ptr)
    → IsCache s xs []
    → Ends (λ c t. (c ≡ null) × IsCache t xs [] × (rest t ≡ rest s)) (on_busy Ll.pop s)
pop_none-IsCache {s} xs v =
    let m = mem s.busy s.items in
    busy-Ends s (Ll.pop m) _ _ (pop-nil v.busy_list) λ c n (e, l, same). (
      e,
      record {
        free_queue = IsQueue-frame [] m n v.free_queue same v.apart;
        busy_list = l;
        apart = v.apart;
      },
      refl,
    )

pub pop-IsLoose :
    {s : Cache} (xs ys : List Ptr) (c : Ptr)
    → IsCache s xs (ys ++ c ∷ [])
    → Ends
        (λ p t. (p ≡ c) × IsLoose t c xs ys × Detached (mem t.busy t.items) c × (rest t ≡ rest s))
        (on_busy Ll.pop s)
pop-IsLoose {s} xs ys c v =
    let m = mem s.busy s.items in
    let all = ys ++ c ∷ [] in
    let w = parts m ys c [] v.busy_list in
    let in_all : has c all ≡ true = ground (arith, has-append c ys (c ∷ [])) in
    busy-Ends s (Ll.pop m) _ _ (pop-snoc ys c v.busy_list) λ p n (e, l, d, same). (
      e,
      record {
        cache = record {
          free_queue = IsQueue-frame all m n v.free_queue same v.apart;
          busy_list = l;
          apart = λ a i. ground (arith, v.apart a i, has-append a ys (c ∷ []));
        };
        ne = w.ne;
        not_free = Apart-sym xs all v.apart c in_all;
        not_busy = w.out_xs;
      },
      d,
      refl,
    )

-- ll_unlink from the busy list of a file that ll_pop has taken off it.
pub unlink_again-IsLoose :
    {s : Cache} (xs ys : List Ptr) (c : Ptr)
    → IsLoose s c xs ys
    → Detached (mem s.busy s.items) c
    → Ends (λ _ t. IsLoose t c xs ys × (rest t ≡ rest s)) (on_busy (Ll.unlink c) s)
unlink_again-IsLoose {s} xs ys c v d =
    let m = mem s.busy s.items in
    let w = v.cache in
    busy-Ends s (Ll.unlink c m) _ _ (unlink-Detached ys c w.busy_list v.ne v.not_busy d)
      λ _ n (l, _, same). (
        record {
          cache = record {
            free_queue = IsQueue-frame [] m n w.free_queue same (λ a i. refl);
            busy_list = l;
            apart = w.apart;
          };
          ne = v.ne;
          not_free = v.not_free;
          not_busy = v.not_busy;
        },
        refl,
      )

pub link_busy-IsCache :
    {s : Cache} (c : Ptr) (xs ys : List Ptr)
    → IsLoose s c xs ys
    → Ends (λ _ t. IsCache t xs (ys ++ c ∷ []) × (rest t ≡ rest s)) (on_busy (Ll.link c) s)
link_busy-IsCache {s} c xs ys v =
    let m = mem s.busy s.items in
    let w = v.cache in
    let apart : Apart xs (ys ++ c ∷ []) =
      λ a i. ground (arith, has-append a ys (c ∷ []), w.apart a, v.not_free) in
    busy-Ends s (Ll.link c m) _ _ (link_lem ys c w.busy_list v.ne v.not_busy) λ _ n (l, same). (
      record {
        free_queue = IsQueue-frame (ys ++ c ∷ []) m n w.free_queue same apart;
        busy_list = l;
        apart = apart;
      },
      refl,
    )

-- ll_tohead of a busy file behind which another one stands.
pub tohead-IsCache :
    {s : Cache} (xs ys : List Ptr) (c z : Ptr) (zs : List Ptr)
    → IsCache s xs (ys ++ c ∷ z ∷ zs)
    → Ends (λ _ t. IsCache t xs (c ∷ ys ++ z ∷ zs) × (rest t ≡ rest s)) (on_busy (Ll.tohead c) s)
tohead-IsCache {s} xs [] c z zs v =
    let m = mem s.busy s.items in
    busy-Ends s (Ll.tohead c m) _ _ (tohead_first c (z ∷ zs) v.busy_list) λ _ n (l, same). (
      record {
        free_queue = IsQueue-frame [] m n v.free_queue same (λ a i. refl);
        busy_list = l;
        apart = v.apart;
      },
      refl,
    )
tohead-IsCache {s} xs (y ∷ ys) c z zs v =
    let m = mem s.busy s.items in
    let all = y ∷ ys ++ c ∷ z ∷ zs in
    busy-Ends s (Ll.tohead c m) _ _ (tohead_inner y ys c z zs v.busy_list) λ _ n (l, same). (
      record {
        free_queue = IsQueue-frame all m n v.free_queue same v.apart;
        busy_list = l;
        apart = λ a i.
            ground (arith, v.apart a i, has-append a ys (c ∷ z ∷ zs), has-append a ys (z ∷ zs));
      },
      refl,
    )
