-- ===== src/Cache/Start.antt =====
-- cache_new of src/gvar/geostreamd/cache.c.
use qjhart_geostreams.Prelude.{
  ◌≡◌, ◌≢◌, refl, sym, ◌∙◌, ap, subst, ℕ, false, List, [], ◌∷◌, ◌++◌, append-nil, append_assoc, ℤ,
  pos,
}
use qjhart_geostreams.Ll
use qjhart_geostreams.Ll.{Ptr, null, Items}
use qjhart_geostreams.Ll.Chain.{has}
use qjhart_geostreams.Cache.{CFile, Cache, on_free, cfile_new, fill, cache_new, set_at, zeroed}
use qjhart_geostreams.Cache.Lists.{IsCache, rest, Ends, Ends-mono, bind-Ends, link_free-IsCache}
use qjhart_geostreams.Cache.Files.{ne_null}
use qjhart_geostreams.Cache.Fresh.{with_new, new-IsCache}

-- The blocks are not NULL, and none of them is twice in the list or among `xs`.
abbrev pub AllNew : List Ptr → List Ptr → Type 0
AllNew [] xs = Unit
AllNew (c ∷ cs) xs = (c ≢ null) × (has c xs ≡ false) × AllNew cs (xs ++ c ∷ [])

abbrev pub clear : List Ptr → (Ptr → CFile) → Ptr → CFile
clear [] files = files
clear (c ∷ cs) files = clear cs (set_at files c zeroed)

fill-IsCache :
    (cs xs : List Ptr) (s : Cache)
    → IsCache s xs []
    → AllNew cs xs
    → Ends
        (λ _ t.
          IsCache t (xs ++ cs) []
          × (rest t ≡ (clear cs s.files, s.current_size, s.maximum_size, s.open_fds)))
        (fill cs s)
unfolding fill cfile_new
fill-IsCache [] xs s v n = (subst (λ l. IsCache s l []) (sym (append-nil xs)) v, refl)
fill-IsCache (c ∷ cs) xs s v n = rw (ne_null c n.0) (
    bind-Ends (on_free (Ll.link c) (with_new s c)) (λ _. fill cs) _ _
      (link_free-IsCache c xs [] (new-IsCache c xs [] v n.1 refl) n.0 n.1 refl)
      λ _ t (p, e).
        Ends-mono (fill cs t) _ _ (fill-IsCache cs (xs ++ c ∷ []) t p n.2) λ _ u (q, e'). (
          subst (λ l. IsCache u l []) (append_assoc xs (c ∷ []) cs) q,
          e' ∙ ap (λ r. (clear cs r.0, r.1, r.2, r.3)) e,
        ))

-- cache_new, where malloc returns a new block for every file, makes all the files free, in the
-- order of their allocation and with all fields zero, and none busy; nothing is mapped.
pub cache_new-IsCache :
    (maximum_size : ℤ) (blocks : List Ptr) (items : Items) (files : Ptr → CFile) (fds : List ℕ)
    → AllNew blocks []
    → Ends
        (λ _ t. IsCache t blocks [] × (rest t ≡ (clear blocks files, pos 0, maximum_size, fds)))
        (cache_new maximum_size blocks items files fds)
unfolding cache_new Ll.new
cache_new-IsCache maximum_size blocks items files fds n =
    fill-IsCache blocks [] _
      (record {
        free_queue = record {
          walk = refl;
          last = refl;
          distinct = tt;
          unlocked = record { no_readers = refl; no_writers = refl };
        };
        busy_list = record {
          forward = refl;
          backward = refl;
          distinct = tt;
          unlocked = record { no_readers = refl; no_writers = refl };
        };
        apart = λ a i. cc;
      })
      n
