-- ===== src/Cache/Load.antt =====
-- A file that cache_file_get of src/gvar/geostreamd/cache.c opens, and what becomes of it.
use qjhart_geostreams.Prelude.{
  ◌≡◌, ◌≢◌, refl, ◌∙◌, ℕ, suc, ◌+◌, true, false, none, some, List, ◌∷◌, arith, length, ltb,
  if◌then◌else◌, ltb_ℤ, ◌+ℤ◌, pos,
}
use qjhart_geostreams.Ll.{Ptr, null}
use qjhart_geostreams.Request.{Method}
use qjhart_geostreams.Cache.{CFile, Cache, Run, done, pure, ◌>>◌, ◌>>=◌, set_at, without}
use qjhart_geostreams.Cache.Get.{
  Answers, opened, is_head, evict, too_large, fits, map_file, stat_file, open_file, set_name,
}
use qjhart_geostreams.Cache.Lists.{Ends, bind-Ends}
use qjhart_geostreams.Cache.Files.{ne_null}

-- The two tests of the room agree where there is some.
room_for :
    (u : Cache) (x : Ptr) (n : ℕ)
    → x ≢ null
    → ltb_ℤ (u.current_size +ℤ pos (u.files x).st_size) u.maximum_size ≡ true
    → (evict (suc n) x u ≡ done tt u) × (fits x u ≡ done true u)
unfolding evict too_large fits
room_for u x n ne r = ground arith

-- What a whole answer of the calls is: the file opens as `d`, is regular and of size `size`, and
-- is mapped at `p`.
abbrev pub answers : Ptr → ℕ → ℕ → Ptr → Answers
answers block d size p = record {
  block = block;
  realloc = true;
  open_fd = opened d;
  fstat = some (record { regular = true; size = size });
  mmap = some p;
}

abbrev pub loaded : CFile → List ℕ → ℕ → Ptr → CFile
loaded g fn size p = record {
  fn = some fn;
  fn_z = if ltb g.fn_z (length fn + 128) then length fn + 128 else g.fn_z;
  fd = none;
  mmap = p;
  st_size = size;
  count = g.count +ℤ pos 1;
}

-- `t` is `s` with the file `x` loaded.
pub record IsLoaded (s t : Cache) (x : Ptr) (fn : List ℕ) (d size : ℕ) (p : Ptr) : Type 0 where
  pub free : t.free ≡ s.free
  pub busy : t.busy ≡ s.busy
  pub items : t.items ≡ s.items
  pub file : t.files x ≡ loaded (s.files x) fn size p
  pub others : (y : Ptr) → y ≢ x → t.files y ≡ s.files y
  pub current_size : t.current_size ≡ s.current_size +ℤ pos size
  pub maximum_size : t.maximum_size ≡ s.maximum_size
  pub open_fds : t.open_fds ≡ without d (d ∷ s.open_fds)

abbrev counted : CFile → Ptr → CFile
counted g p = record {
  fn = g.fn;
  fn_z = g.fn_z;
  fd = none;
  mmap = p;
  st_size = g.st_size;
  count = g.count +ℤ pos 1;
}

pub record IsMapped (s t : Cache) (x : Ptr) (d : ℕ) (p : Ptr) : Type 0 where
  pub free : t.free ≡ s.free
  pub busy : t.busy ≡ s.busy
  pub items : t.items ≡ s.items
  pub file : t.files x ≡ counted (s.files x) p
  pub others : (y : Ptr) → y ≢ x → t.files y ≡ s.files y
  pub current_size : t.current_size ≡ s.current_size +ℤ pos (s.files x).st_size
  pub maximum_size : t.maximum_size ≡ s.maximum_size
  pub open_fds : t.open_fds ≡ without d s.open_fds

map_file-room :
    (u : Cache) (x : Ptr) (n d : ℕ) (p : Ptr)
    → x ≢ null
    → (u.files x).fd ≡ some d
    → ltb_ℤ (u.current_size +ℤ pos (u.files x).st_size) u.maximum_size ≡ true
    → Ends (λ _ t. IsMapped u t x d p) (map_file (suc n) (some p) x u)
unfolding map_file
map_file-room u x n d p ne o r = let (e, f) = room_for u x n ne r in rw e (rw f (ground arith))

abbrev pub put : Cache → Ptr → CFile → Cache
put u x g = record u { files = set_at u.files x g }

pub set_name-done :
    (u : Cache) (x : Ptr) (fn : List ℕ)
    → x ≢ null
    → set_name true x fn u
      ≡ done true (
          put u x (record (u.files x) {
            fn = some fn;
            fn_z =
                if ltb (u.files x).fn_z (length fn + 128)
                then length fn + 128
                else (u.files x).fn_z;
          }))
unfolding set_name
set_name-done u x fn ne = ground arith

open_file-done :
    (u : Cache) (x : Ptr) (n block d size : ℕ) (p : Ptr) (m : Method) (rc : ℕ)
    → x ≢ null
    → open_file n (answers block d size p) x m rc u
      ≡ stat_file n (answers block d size p) x m rc (record u {
        files = set_at u.files x (record (u.files x) { fd = some d });
        open_fds = d ∷ u.open_fds;
      })
unfolding open_file
open_file-done u x n block d size p m rc ne = rw (ne_null x ne) (rw (ne_null x ne) refl)

stat_file-done :
    (u : Cache) (x : Ptr) (n block d size : ℕ) (p : Ptr) (m : Method) (rc : ℕ)
    → x ≢ null
    → is_head m ≡ false
    → stat_file n (answers block d size p) x m rc u
      ≡ (map_file n (some p) x >> pure (x, rc)) (put u x (record (u.files x) { st_size = size }))
unfolding stat_file
stat_file-done u x n block d size p m rc ne h = rw (ne_null x ne) (rw (ne_null x ne, h) refl)

abbrev pub prepare :
    (u : Cache) (x : Ptr) (n : ℕ) (fn : List ℕ) (block d size : ℕ) (p : Ptr) (m : Method) (rc : ℕ)
    → Run (Ptr × ℕ)
prepare u x n fn block d size p m rc =
    (do
      ready ← set_name true x fn
      if ready then open_file (suc n) (answers block d size p) x m rc else pure (null, 500))
      u

pub load_rest :
    (u : Cache) (x : Ptr) (n : ℕ) (fn : List ℕ) (block d size : ℕ) (p : Ptr) (m : Method) (rc : ℕ)
    → x ≢ null
    → is_head m ≡ false
    → ltb_ℤ (u.current_size +ℤ pos size) u.maximum_size ≡ true
    → Ends
        (λ r t. (r ≡ (x, rc)) × IsLoaded u t x fn d size p)
        (prepare u x n fn block d size p m rc)
load_rest u x n fn block d size p m rc ne h room =
    let g = u.files x in
    let u1 = put u x (record g {
      fn = some fn;
      fn_z = if ltb g.fn_z (length fn + 128) then length fn + 128 else g.fn_z;
    }) in
    let u2 = record u1 {
      files = set_at u1.files x (record (u1.files x) { fd = some d });
      open_fds = d ∷ u1.open_fds;
    } in
    let u3 = put u2 x (record (u2.files x) { st_size = size }) in
    let e =
      open_file-done u1 x (suc n) block d size p m rc ne
      ∙ stat_file-done u2 x (suc n) block d size p m rc ne h in
    rw (set_name-done u x fn ne) (
      rw e (
        bind-Ends (map_file (suc n) (some p) x u3) (λ _. pure (x, rc)) _ _
          (map_file-room u3 x n d p ne (ground arith) (ground arith))
          λ _ t w. (
            refl,
            record {
              free = w.free;
              busy = w.busy;
              items = w.items;
              file = w.file ∙ ground arith;
              others = λ y h'. w.others y h' ∙ ground arith;
              current_size = w.current_size ∙ ground arith;
              maximum_size = w.maximum_size;
              open_fds = w.open_fds;
            },
          )))
