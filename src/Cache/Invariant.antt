-- ===== src/Cache/Invariant.antt =====
-- The lists of src/gvar/geostreamd/cache.c stay lists over a whole cache_file_get.
use qjhart_geostreams.Prelude.{
  Option-cases, Bool-cases, ℤ, ltb_ℤ, ◌+ℤ◌, pos, ◌≡◌, ◌≢◌, refl, sym, ◌∙◌, ap, subst, ℕ, ◌<◌, Bool,
  ◌||◌, inl, inr, true, false, not, Option, none, some, List, [], ◌∷◌, ◌++◌, arith, length,
  length-append, if◌then◌else◌,
}
use qjhart_geostreams.Ll.{Ptr, null}
use qjhart_geostreams.Ll.Chain.{has, has-append}
use qjhart_geostreams.Request.{Method}
use qjhart_geostreams.Cache.{
  CFile, Cache, Run, pure, ◌>>◌, set_file, set_size, close, cache_free_cfile, set_at,
}
use qjhart_geostreams.Cache.Get.{Answers, is_head, evict, fits, map_answer, map_file, stat_file}
use qjhart_geostreams.Cache.Lists.{Rest, rest, Ends, Ends-mono, bind-Ends, IsCache}
use qjhart_geostreams.Cache.Files.{ne_null, freed, IsCache-rest, cache_free_cfile-busy}
use qjhart_geostreams.Cache.Evict.{backwards, plan, plan_for, evict-plan}

-- No file of `zs` is lost: it is free or busy.
pub record Kept (zs xs ys : List Ptr) : Type 0 where
  pub there : (a : Ptr) → has a zs ≡ true → (has a xs || has a ys) ≡ true

-- The two lists are lists, and all files of `zs` are in them.
pub record IsSound (zs : List Ptr) (s : Cache) : Type 0 where
  pub xs : List Ptr
  pub ys : List Ptr
  pub cache : IsCache s xs ys
  pub kept : Kept zs xs ys

abbrev pub sound :
    {zs : List Ptr} {s : Cache} (xs ys : List Ptr) → IsCache s xs ys → Kept zs xs ys → IsSound zs s
sound xs ys v k = record { xs = xs; ys = ys; cache = v; kept = k }

abbrev pub Sound : {A : Type 0} → List Ptr → Run A → Type 0
Sound zs = Ends (λ _ t. IsSound zs t)

-- A file that goes from the front of the busy list to the end of the queue is not lost.
pub freed-Kept :
    {zs : List Ptr} (x : Ptr) (xs ys : List Ptr) → Kept zs xs (x ∷ ys) → Kept zs (xs ++ x ∷ []) ys
freed-Kept x xs ys k = record {
  there = λ a i. ground (arith, k.there a i, has-append a xs (x ∷ []));
}

-- What only writes fields keeps the two lists.
abbrev pub Holds : {A : Type 0} (xs ys : List Ptr) → Run A → Type 0
Holds xs ys = Ends (λ _ t. IsCache t xs ys)

pub set_file-Holds :
    {s : Cache} (x : Ptr) (g : CFile) (xs ys : List Ptr)
    → IsCache s xs ys
    → x ≢ null
    → Holds xs ys (set_file x g s)
set_file-Holds {s} x g xs ys v ne =
    rw (ne_null x ne) (IsCache-rest (set_at s.files x g) s.current_size s.open_fds v)

close-Holds :
    {s : Cache} (d : Option ℕ) (xs ys : List Ptr) → IsCache s xs ys → Holds xs ys (close d s)
close-Holds none xs ys v = v
close-Holds {s} (some d) xs ys v = IsCache-rest s.files s.current_size _ v

map_answer-Holds :
    {s : Cache} (a : Option Ptr) (x : Ptr) (xs ys : List Ptr)
    → IsCache s xs ys
    → x ≢ null
    → Holds xs ys (map_answer a x s)
map_answer-Holds {s} none x xs ys v ne =
    rw (ne_null x ne) (set_file-Holds x (record (s.files x) { mmap = null }) xs ys v ne)
map_answer-Holds {s} (some p) x xs ys v ne =
    let g = s.files x in
    let last = set_file x (record g { mmap = p; fd = none }) in
    rw (ne_null x ne) (
      bind-Ends (set_file x (record g { mmap = p }) s) (λ _. close g.fd >> last) _ _
        (set_file-Holds x (record g { mmap = p }) xs ys v ne)
        λ _ t w.
          bind-Ends (close g.fd t) (λ _. last) _ _ (close-Holds g.fd xs ys w)
            λ _ u w'. set_file-Holds x (record g { mmap = p; fd = none }) xs ys w' ne)

backwards_snoc : (cs : List Ptr) (c : Ptr) → backwards (cs ++ c ∷ []) ≡ c ∷ backwards cs
backwards_snoc [] c = refl
backwards_snoc (d ∷ cs) c = ap (λ l. l ++ d ∷ []) (backwards_snoc cs c)

backwards_twice : (ys : List Ptr) → backwards (backwards ys) ≡ ys
backwards_twice [] = refl
backwards_twice (y ∷ ys) = backwards_snoc (backwards ys) y ∙ ap (λ l. y ∷ l) (backwards_twice ys)

length-backwards : (ys : List Ptr) → length (backwards ys) ≡ length ys
length-backwards [] = refl
length-backwards (y ∷ ys) =
    omega (arith, length-append (backwards ys) (y ∷ []), length-backwards ys)

has-backwards : (a : Ptr) (ys : List Ptr) → has a (backwards ys) ≡ has a ys
has-backwards a [] = refl
has-backwards a (y ∷ ys) = ground (arith, has-append a (backwards ys) (y ∷ []), has-backwards a ys)

-- The plan of the eviction only takes the list apart.
plan-has :
    (a : Ptr) (files : Ptr → CFile) (maximum : ℤ) (need : ℕ) (z : ℤ) (cs : List Ptr)
    → let p = plan files maximum need z cs in (has a p.gone || has a p.left) ≡ has a cs
plan-has a files maximum need z [] = refl
plan-has a files maximum need z (c ∷ cs) =
    let later = plan-has a files maximum need (freed (files c) z) cs in
    elim (Bool-cases (ltb_ℤ maximum (z +ℤ pos need))) [
      | inr e ↦ rw e refl
      | inl e ↦ elim (Bool-cases (ltb_ℤ (pos 0) (files c).count)) [
        | inl h ↦ rw (e, h) refl
        | inr h ↦ rw (e, h) (ground (arith, later))
      ]
    ]

evict-Kept :
    {zs : List Ptr} (f : Ptr) (r : Rest) (xs ys : List Ptr)
    → Kept zs xs ys
    → let p = plan_for f r (backwards ys) in Kept zs (xs ++ p.gone) (backwards p.left)
evict-Kept f (files, z, maximum, fds) xs ys k = record {
  there = λ a i.
      let p = plan files maximum (files f).st_size z (backwards ys) in
      ground (
        arith,
        k.there a i,
        has-append a xs p.gone,
        has-backwards a p.left,
        has-backwards a ys,
        plan-has a files maximum (files f).st_size z (backwards ys),
      );
}

evict-Sound :
    {zs : List Ptr} {s : Cache} (n : ℕ) (f : Ptr) (xs ys : List Ptr)
    → IsCache s xs ys
    → Kept zs xs ys
    → f ≢ null
    → length ys < n
    → Sound zs (evict n f s)
evict-Sound {zs} {s} n f xs ys v k ne h =
    Ends-mono (evict n f s) _ _
      (evict-plan n f (backwards ys) xs (subst (λ l. IsCache s xs l) (sym (backwards_twice ys)) v)
        ne (omega (arith, length-backwards ys)))
      λ _ t (w, _). sound _ _ w (evict-Kept f (rest s) xs ys k)

pub either-Ends :
    {A : Type 0} (b : Bool) (c d : Cache → Run A) (P : A → Cache → Type 0) (s : Cache)
    → Ends P (c s)
    → Ends P (d s)
    → Ends P ((if b then c else d) s)
either-Ends true c d P s h k = h
either-Ends false c d P s h k = k

map_file-Sound :
    {zs : List Ptr} {s : Cache} (n : ℕ) (a : Option Ptr) (x : Ptr) (xs ys : List Ptr)
    → IsCache s xs ys
    → Kept zs xs ys
    → x ≢ null
    → length ys < n
    → Sound zs (map_file n a x s)
unfolding map_file fits
map_file-Sound {zs} {s} n a x xs ys v kept ne h =
    bind-Ends (evict n x s) _ _ _ (evict-Sound n x xs ys v kept ne h) λ _ t w.
      let g = t.files x in
      let up = record g { count = g.count +ℤ pos 1 } in
      let add = λ (u : Cache). set_size (u.current_size +ℤ pos g.st_size) u in
      rw (ne_null x ne) (
        rw (ne_null x ne) (
          either-Ends (ltb_ℤ (t.current_size +ℤ pos g.st_size) t.maximum_size) _ _ _ t
            (bind-Ends (set_file x up t) (λ _. add >> map_answer a x) _ _
              (set_file-Holds x up w.xs w.ys w.cache ne)
              λ _ u w'.
                Ends-mono
                  (map_answer a x (record u { current_size = u.current_size +ℤ pos g.st_size })) _ _
                  (map_answer-Holds a x w.xs w.ys (IsCache-rest u.files _ u.open_fds w') ne)
                  λ _ k z. sound w.xs w.ys z w.kept)
            (Ends-mono (set_file x (record g { mmap = null }) t) _ _
              (set_file-Holds x (record g { mmap = null }) w.xs w.ys w.cache ne)
              λ _ k z. sound w.xs w.ys z w.kept)))

-- A file that goes back to the queue on an error.
pub free-Sound :
    {B : Type 0} {zs : List Ptr} {s : Cache} (x : Ptr) (xs ys : List Ptr) (b : B)
    → IsCache s xs (x ∷ ys)
    → Kept zs xs (x ∷ ys)
    → x ≢ null
    → Sound zs ((cache_free_cfile x >> pure b) s)
free-Sound {s = s} x xs ys b v k ne =
    bind-Ends (cache_free_cfile x s) (λ _. pure b) _ _ (cache_free_cfile-busy xs [] x ys v ne)
      λ _ t (w, _). sound _ _ w (freed-Kept x xs ys k)

pub stat_file-Sound :
    {zs : List Ptr} {s : Cache} (n : ℕ) (a : Answers) (x : Ptr) (m : Method) (rc : ℕ)
    (xs ys : List Ptr)
    → IsCache s xs (x ∷ ys)
    → Kept zs xs (x ∷ ys)
    → x ≢ null
    → length (x ∷ ys) < n
    → Sound zs (stat_file n a x m rc s)
unfolding stat_file
stat_file-Sound {zs} {s} n a x m rc xs ys v k ne h = elim (Option-cases a.fstat) [
  | inl e ↦
      rw (ne_null x ne, e)
        (bind-Ends (cache_free_cfile x s) (λ _. close (s.files x).fd >> pure (null, 500)) _ _
          (cache_free_cfile-busy xs [] x ys v ne)
          λ _ t (w, _).
            bind-Ends (close (s.files x).fd t) (λ _. pure (null, 500)) _ _
              (close-Holds (s.files x).fd _ _ w) λ _ u w'. sound _ _ w' (freed-Kept x xs ys k))
  | inr (st, e) ↦
      let g = record (s.files x) { st_size = st.size } in
      rw (ne_null x ne, e)
        (bind-Ends (set_file x g s) _ _ _ (set_file-Holds x g xs (x ∷ ys) v ne) λ _ t w.
          either-Ends (not st.regular) _ _ _ t (free-Sound x xs ys (null, 404) w k ne) (
            bind-Ends ((if is_head m then close (s.files x).fd else map_file n a.mmap x) t)
              (λ _. pure (x, rc)) _ _
              (either-Ends (is_head m) _ _ (λ _ u. IsSound zs u) t
                (Ends-mono (close (s.files x).fd t) _ _ (close-Holds (s.files x).fd xs (x ∷ ys) w)
                  λ _ u w'. sound xs (x ∷ ys) w' k)
                (map_file-Sound n a.mmap x xs (x ∷ ys) w k ne h))
              λ _ u w'. w'))
]
