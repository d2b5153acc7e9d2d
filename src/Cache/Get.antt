-- ===== src/Cache/Get.antt =====
-- cache_file_get of src/gvar/geostreamd/cache.c, with its eviction loop and its errno switch.
use qjhart_geostreams.Prelude.{
  ℕ, zero, suc, ◌+◌, Bool, true, false, not, Option, none, some, List, ◌∷◌, ◌==◌, length, ltb,
  if◌then◌else◌, pos, ◌+ℤ◌, ltb_ℤ,
}
use qjhart_geostreams.Ll
use qjhart_geostreams.Ll.{Ptr, null}
use qjhart_geostreams.Request.{Method, head}
use qjhart_geostreams.Cache.{
  done, Cmd, pure, skip, give_up, ◌>>=◌, ◌>>◌, on_free, on_busy, get_file, set_file, set_size,
  close, cache_free_cfile, cache_get_cfile, cache_exisiting_file,
}

-- The values of `errno` that the switch tells apart.
pub data Errno : Type 0 where
  eacces enoent enotdir enxio efault other_errno : Errno

pub data Opened : Type 0 where
  opened : ℕ → Opened
  failed : Errno → Opened

-- `S_ISREG` of the mode, and the size.
pub record Stat : Type 0 where
  pub regular : Bool
  pub size : ℕ

-- What the calls return: malloc's block, whether realloc succeeds, and `none` for the failure of
-- fstat or mmap.
pub record Answers : Type 0 where
  pub block : Ptr
  pub realloc : Bool
  pub open_fd : Opened
  pub fstat : Option Stat
  pub mmap : Option Ptr

-- The switch on `errno`: each case falls through to those below it.
abbrev pub case_default : ℕ → ℕ
case_default rc = 500

abbrev pub case_missing : ℕ → ℕ
case_missing rc = case_default 404

abbrev pub case_eacces : ℕ → ℕ
case_eacces rc = case_missing 403

unfoldable pub open_code : Errno → ℕ → ℕ
open_code eacces rc = case_eacces rc
open_code enoent rc = case_missing rc
open_code enotdir rc = case_missing rc
open_code enxio rc = case_missing rc
open_code efault rc = case_missing rc
open_code other_errno rc = case_default rc

-- Whether the file `f` does not fit beside what is mapped.
unfoldable pub too_large : Ptr → Cmd Bool
too_large f = do
  g ← get_file f
  λ s. done (ltb_ℤ s.maximum_size (s.current_size +ℤ pos g.st_size)) s

unfoldable pub fits : Ptr → Cmd Bool
fits f = do g ← get_file f; λ s. done (ltb_ℤ (s.current_size +ℤ pos g.st_size) s.maximum_size) s

-- The loop that frees cache space for `f`.
unfoldable pub evict : ℕ → Ptr → Cmd (Unit {0})
evict zero f = give_up
evict (suc n) f = do
  full ← too_large f
  if not full then skip else do
    del ← on_busy Ll.pop
    if del == null then skip else do
      d ← get_file del
      if ltb_ℤ (pos 0) d.count
          then on_busy (Ll.link del)
          else do cache_free_cfile del; on_free (Ll.link del); evict n f

abbrev pub map_answer : Option Ptr → Ptr → Cmd (Unit {0})
map_answer none f = do g ← get_file f; set_file f (record g { mmap = null })
map_answer (some p) f = do
  g ← get_file f
  set_file f (record g { mmap = p })
  close g.fd
  set_file f (record g { mmap = p; fd = none })

-- The branch of a method other than HEAD.
unfoldable pub map_file : ℕ → Option Ptr → Ptr → Cmd (Unit {0})
map_file n answer f = do
  evict n f
  room ← fits f
  g ← get_file f
  if room
      then (do
        set_file f (record g { count = g.count +ℤ pos 1 })
        (λ s. set_size (s.current_size +ℤ pos g.st_size) s)
        map_answer answer f)
      else set_file f (record g { mmap = null })

abbrev pub is_head : Method → Bool
is_head head = true
is_head m = false

-- From `fstat` on. The result is the file and what `*rc` holds.
unfoldable pub stat_file : ℕ → Answers → Ptr → Method → ℕ → Cmd (Ptr × ℕ)
stat_file n a f m rc = do
  g ← get_file f
  elim a.fstat [
    | none ↦ (do cache_free_cfile f; close g.fd; pure (null, 500))
    | some st ↦ (do
      set_file f (record g { st_size = st.size })
      if not st.regular
          then (cache_free_cfile f >> pure (null, 404))
          else ((if is_head m then close g.fd else map_file n a.mmap f) >> pure (f, rc)))
  ]

unfoldable pub open_file : ℕ → Answers → Ptr → Method → ℕ → Cmd (Ptr × ℕ)
open_file n a f m rc = do
  g ← get_file f
  elim a.open_fd [
    | failed e ↦ (do
      set_file f (record g { fd = none })
      cache_free_cfile f
      pure (null, open_code e rc))
    | opened d ↦ (do
      set_file f (record g { fd = some d })
      (λ s. done tt (record s { open_fds = d ∷ s.open_fds }))
      stat_file n a f m rc)
  ]

-- The name's block grows where it is too small; `false` where realloc fails.
unfoldable pub set_name : Bool → Ptr → List ℕ → Cmd Bool
set_name realloc f fn = do
  g ← get_file f
  let fn_z = length fn + 128 in
      if not (ltb g.fn_z fn_z)
      then set_file f (record g { fn = some fn }) >> pure true
      else if realloc
      then set_file f (record g { fn = some fn; fn_z = fn_z }) >> pure true
      else set_file f (record g { fn = none }) >> pure false

-- A file that is not in the cache.
unfoldable pub load_file : ℕ → Answers → List ℕ → Method → ℕ → Cmd (Ptr × ℕ)
load_file n a fn m rc = do
  f ← cache_get_cfile a.block
  if f == null then pure (null, 500) else do
    ready ← set_name a.realloc f fn
    if ready then open_file n a f m rc else pure (null, 500)

-- The rounds of the two loops are at most `n`; RES_WORKING is 0.
unfoldable pub cache_file_get : ℕ → Answers → List ℕ → Method → ℕ → Cmd (Ptr × ℕ)
cache_file_get n a fn m rc = do
  f ← cache_exisiting_file n fn
  if f == null then load_file n a fn m rc else pure (f, 0)
