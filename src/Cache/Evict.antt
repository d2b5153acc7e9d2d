-- ===== src/Cache/Evict.antt =====
-- The eviction loop of cache_file_get in src/gvar/geostreamd/cache.c against a plan over lists.
use qjhart_geostreams.Prelude.{
  ◌≡◌, ◌≢◌, refl, sym, ◌∙◌, ap, subst, ℕ, zero, suc, ◌<◌, Bool, Bool-cases, inl, inr, ◌⊎◌, true,
  false, not, List, [], ◌∷◌, ◌++◌, append_assoc, append-nil, arith, ◌==◌, if◌then◌else◌, length, ℤ,
  pos, ◌+ℤ◌, ◌-ℤ◌, ltb_ℤ,
}
use qjhart_geostreams.Ll
use qjhart_geostreams.Ll.{Ptr, null}
use qjhart_geostreams.Ll.Chain.{Detached}
use qjhart_geostreams.Ll.Frame.{mem}
use qjhart_geostreams.Cache.{CFile, Cache, Run, ◌>>◌, on_free, on_busy, cache_free_cfile}
use qjhart_geostreams.Cache.Get.{evict, too_large}
use qjhart_geostreams.Cache.Lists.{
  IsCache, Rest, rest, Ends, Ends-mono, bind-Ends, link_free-IsCache, link_again-IsCache,
}
use qjhart_geostreams.Cache.Busy.{
  IsLoose, pop-IsLoose, pop_none-IsCache, unlink_again-IsLoose, link_busy-IsCache,
}
use qjhart_geostreams.Cache.Files.{ne_null, freed, unmap, IsCache-rest}

-- A list of busy files from its end.
abbrev pub backwards : List Ptr → List Ptr
backwards [] = []
backwards (c ∷ cs) = backwards cs ++ c ∷ []

-- What is to be freed for a file of size `need`, in the order in which it goes; what stays busy,
-- from the end; and `current_size` afterwards.
pub record Plan : Type 0 where
  pub gone : List Ptr
  pub left : List Ptr
  pub size : ℤ

abbrev stop : List Ptr → ℤ → Plan
stop cs z = record { gone = []; left = cs; size = z }

abbrev go : Ptr → Plan → Plan
go c p = record { gone = c ∷ p.gone; left = p.left; size = p.size }

-- From the end, every file that nobody holds is freed while the new one does not fit.
abbrev pub plan : (Ptr → CFile) → ℤ → ℕ → ℤ → List Ptr → Plan
plan files maximum need z [] = stop [] z
plan files maximum need z (c ∷ cs) =
    let later = plan files maximum need (freed (files c) z) cs in
    if not (ltb_ℤ maximum (z +ℤ pos need))
    then stop (c ∷ cs) z
    else if ltb_ℤ (pos 0) (files c).count
    then stop (c ∷ cs) z
    else go c later

-- The plan in a state's terms, for the file `f`.
abbrev pub plan_for : Ptr → Rest → List Ptr → Plan
plan_for f (files, z, maximum, fds) cs = plan files maximum (files f).st_size z cs

-- The lists and the size are what the plan says, from the free files `xs`.
abbrev pub Follows : List Ptr → Plan → Rest → Unit {0} → Cache → Type 0
Follows xs p r u t =
    IsCache t (xs ++ p.gone) (backwards p.left) × (rest t ≡ (r.0, p.size, r.2, r.3))

unmap-IsLoose :
    {s : Cache} (xs ys : List Ptr) (c : Ptr)
    → IsLoose s c xs ys
    → Detached (mem s.busy s.items) c
    → (g : CFile)
    → Ends
        (λ _ t.
          IsLoose t c xs ys
          × Detached (mem t.busy t.items) c
          × (rest t ≡ (s.files, freed g s.current_size, s.maximum_size, s.open_fds)))
        (unmap g s)
unmap-IsLoose {s} xs ys c v d g = elim (Bool-cases (g.mmap == null)) [
  | inl e ↦ rw e (v, d, refl)
  | inr e ↦ rw e (
    record {
      cache = IsCache-rest s.files (s.current_size -ℤ pos g.st_size) s.open_fds v.cache;
      ne = v.ne;
      not_free = v.not_free;
      not_busy = v.not_busy;
    },
    d,
    refl,
  )
]

release_loose-Ends :
    {s : Cache} (xs ys : List Ptr) (c : Ptr)
    → IsLoose s c xs ys
    → Detached (mem s.busy s.items) c
    → Ends
        (λ _ t. IsCache t (xs ++ c ∷ []) ys × (rest t ≡ rest s))
        ((on_busy (Ll.unlink c) >> on_free (Ll.link c)) s)
release_loose-Ends {s} xs ys c v d =
    bind-Ends (on_busy (Ll.unlink c) s) (λ _. on_free (Ll.link c)) _ _
      (unlink_again-IsLoose xs ys c v d)
      λ _ t (l, e).
        Ends-mono (on_free (Ll.link c) t) _ _
          (link_free-IsCache c xs ys l.cache l.ne l.not_free l.not_busy) λ _ u (q, e'). (q, e' ∙ e)

free_loose-Ends :
    {s : Cache} (xs ys : List Ptr) (c : Ptr)
    → IsLoose s c xs ys
    → Detached (mem s.busy s.items) c
    → Ends
        (λ _ t.
          IsCache t (xs ++ c ∷ []) ys
          × (rest t ≡ (s.files, freed (s.files c) s.current_size, s.maximum_size, s.open_fds)))
        (cache_free_cfile c s)
unfolding cache_free_cfile
free_loose-Ends {s} xs ys c v d = rw (ne_null c v.ne) (
    bind-Ends (unmap (s.files c) s) (λ _. on_busy (Ll.unlink c) >> on_free (Ll.link c)) _ _
      (unmap-IsLoose xs ys c v d (s.files c))
      λ _ t (l, d', e).
        Ends-mono ((on_busy (Ll.unlink c) >> on_free (Ll.link c)) t) _ _
          (release_loose-Ends xs ys c l d') λ _ u (q, e'). (q, e' ∙ e))

-- The last busy file, and what the plan does with it.
module _ (f : Ptr) (r : Rest) (c : Ptr) (cs : List Ptr) where
  abbrev full : Bool
  full = ltb_ℤ r.2 (r.1 +ℤ pos (r.0 f).st_size)

  abbrev held : Bool
  held = ltb_ℤ (pos 0) (r.0 c).count

  abbrev after : Rest
  after = (r.0, freed (r.0 c) r.1, r.2, r.3)

  plan_for-room : full ≡ false → plan_for f r (c ∷ cs) ≡ stop (c ∷ cs) r.1
  plan_for-room e = rw e refl

  plan_for-held : full ≡ true → held ≡ true → plan_for f r (c ∷ cs) ≡ stop (c ∷ cs) r.1
  plan_for-held e h = rw (e, h) refl

  plan_for-goes : full ≡ true → held ≡ false → plan_for f r (c ∷ cs) ≡ go c (plan_for f after cs)
  plan_for-goes e h = rw (e, h) refl

  outcomes : (full ≡ false) ⊎ (((full ≡ true) × (held ≡ true)) ⊎ ((full ≡ true) × (held ≡ false)))
  outcomes = ground arith

stays : {t : Cache} {xs ys : List Ptr} → IsCache t xs ys → IsCache t (xs ++ []) ys
stays {t} {xs} {ys} v = rw (append-nil xs) v

-- The rounds after the last busy file has gone.
goes_on :
    (xs : List Ptr) (c : Ptr) (p : Plan) (r : Rest) (o : Run (Unit {0})) (z : ℤ)
    → Ends (Follows (xs ++ c ∷ []) p (r.0, z, r.2, r.3)) o
    → Ends (Follows xs (go c p) r) o
goes_on xs c p r o z h = Ends-mono o _ _ h λ _ u (v, e).
    (subst (λ l. IsCache u l (backwards p.left)) (append_assoc xs (c ∷ []) p.gone) v, e)

-- A file is freed and linked again, and then the loop goes on.
evict_later :
    (n : ℕ) (f c : Ptr) (cs : List Ptr) (s : Cache) {t : Cache} (xs : List Ptr)
    → IsLoose t c xs (backwards cs)
    → Detached (mem t.busy t.items) c
    → rest t ≡ rest s
    → ((u : Cache)
        → IsCache u (xs ++ c ∷ []) (backwards cs)
        → Ends (Follows (xs ++ c ∷ []) (plan_for f (rest u) cs) (rest u)) (evict n f u))
    → Ends
        (Follows (xs ++ c ∷ []) (plan_for f (after f (rest s) c cs) cs) (after f (rest s) c cs))
        ((do cache_free_cfile c; on_free (Ll.link c); evict n f) t)
evict_later n f c cs s {t} xs l d same ih =
    bind-Ends (cache_free_cfile c t) (λ _. on_free (Ll.link c) >> evict n f) _ _
      (free_loose-Ends xs (backwards cs) c l d)
      λ _ u (q, e).
        bind-Ends (on_free (Ll.link c) u) (λ _. evict n f) _ _
          (link_again-IsCache c xs (backwards cs) q l.ne l.not_free)
          λ _ w (q', e').
            subst (λ r. Ends (Follows (xs ++ c ∷ []) (plan_for f r cs) r) (evict n f w))
              (e' ∙ e ∙ ap (λ r. after f r c cs) same) (ih w q')

-- With more rounds than there are busy files the loop of cache_file_get comes to an end, and does
-- what the plan says.
pub evict-plan :
    (n : ℕ) (f : Ptr) (cs : List Ptr) {s : Cache} (xs : List Ptr)
    → IsCache s xs (backwards cs)
    → f ≢ null
    → length cs < n
    → Ends (Follows xs (plan_for f (rest s) cs) (rest s)) (evict n f s)
unfolding evict too_large
evict-plan zero f cs xs v ne h = absurd (omega arith)
evict-plan (suc n) f [] {s} xs v ne h = elim (Bool-cases (full f (rest s) f [])) [
  | inl e ↦
      rw (ne_null f ne, e)
        (bind-Ends (on_busy Ll.pop s) _ _ _ (pop_none-IsCache xs v)
          λ p t (e', q, r). rw e' (stays q, r))
  | inr e ↦ rw (ne_null f ne, e) (stays v, refl)
]
evict-plan (suc n) f (c ∷ cs) {s} xs v ne h =
    let r = rest s in
    let run = evict (suc n) f s in
    elim (outcomes f r c cs) [
      | inl e ↦
          subst (λ p. Ends (Follows xs p r) run) (sym (plan_for-room f r c cs e))
            (rw (ne_null f ne, e) (stays v, refl))
      | inr (inl (e, i)) ↦
          subst (λ p. Ends (Follows xs p r) run) (sym (plan_for-held f r c cs e i))
            (rw (ne_null f ne, e)
              (bind-Ends (on_busy Ll.pop s) _ _ _ (pop-IsLoose xs (backwards cs) c v)
                λ p t (e', l, d, same).
                  rw (e', ne_null c l.ne)
                    (rw (ne_null c l.ne, ap (λ r. held f r c cs) same ∙ i)
                      (Ends-mono (on_busy (Ll.link c) t) _ _
                        (link_busy-IsCache c xs (backwards cs) l)
                        λ _ u (q, e''). (stays q, e'' ∙ same)))))
      | inr (inr (e, i)) ↦
          subst (λ p. Ends (Follows xs p r) run) (sym (plan_for-goes f r c cs e i))
            (rw (ne_null f ne, e)
              (bind-Ends (on_busy Ll.pop s) _ _ _ (pop-IsLoose xs (backwards cs) c v)
                λ p t (e', l, d, same).
                  rw (e', ne_null c l.ne)
                    (rw (ne_null c l.ne, ap (λ r. held f r c cs) same ∙ i)
                      (goes_on xs c (plan_for f (after f r c cs) cs) r _ (after f r c cs).1 (
                        evict_later n f c cs s xs l d same
                          λ u q. evict-plan n f cs (xs ++ c ∷ []) q ne (omega arith))))))
    ]
