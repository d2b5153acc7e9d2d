-- ===== src/Cache.antt =====
-- The cache of mapped files in src/gvar/geostreamd/cache.c: two lists over one store of items, the
-- files' own fields, and the bytes that are mapped.
-- What malloc, realloc, open, fstat and mmap return is an argument. `stuck` is a wait for a list's
-- lock, an access through NULL, or the end of the fuel.
pub mod Lists
pub mod Queue
pub mod Busy
pub mod Files
pub mod Get
pub mod Evict
pub mod Find
pub mod Load
pub mod Fetch
pub mod Failures
pub mod Fresh
pub mod Invariant
pub mod Sound
pub mod Start
use qjhart_geostreams.Prelude.{
  ℕ, zero, suc, ◌+◌, Bool, true, false, not, Option, none, some, List, [], ◌∷◌, ◌==◌, same, length,
  if◌then◌else◌, ℤ, pos, negsuc, ◌+ℤ◌, ◌-ℤ◌, ltb_ℤ,
}
use qjhart_geostreams.Ll
use qjhart_geostreams.Ll.{Ptr, null, Ll, Items, Mem, ok, blocked, fault, update}
use qjhart_geostreams.Ll.Frame.{mem}

-- `struct cfile`, less its place in a list. `none` of `fn` is NULL, `none` of `fd` is -1, and
-- `st_size` is the field of `finfo` that the cache reads.
pub record CFile : Type 0 where
  pub fn : Option (List ℕ)
  pub fn_z : ℕ
  pub fd : Option ℕ
  pub mmap : Ptr
  pub st_size : ℕ
  pub count : ℤ

-- `struct cache`, the files at their addresses, and the descriptors that the process has open.
pub record Cache : Type 0 where
  pub free : Ll
  pub busy : Ll
  pub items : Items
  pub files : Ptr → CFile
  pub current_size : ℤ
  pub maximum_size : ℤ
  pub open_fds : List ℕ

pub data Run (A : Type 0) : Type 0 where
  done : A → Cache → Run A
  stuck : Run A

abbrev pub Cmd : Type 0 → Type 0
Cmd A = Cache → Run A

abbrev pub pure : {A : Type 0} → A → Cmd A
pure = done

abbrev pub skip : Cmd (Unit {0})
skip = done tt

abbrev pub give_up : {A : Type 0} → Cmd A
give_up s = stuck

module _ {A B : Type 0} where
  abbrev pub and_then : Run A → (A → Cmd B) → Run B
  and_then (done a s) k = k a s
  and_then stuck k = stuck

  infixl 5 ◌>>=◌ ◌>>◌
  abbrev pub ◌>>=◌ : Cmd A → (A → Cmd B) → Cmd B
  c >>= k = λ s. and_then (c s) k

  abbrev pub ◌>>◌ : Cmd A → Cmd B → Cmd B
  c >> d = c >>= λ _. d

-- A list operation on one of the two lists.
abbrev pub free_result : {A : Type 0} → Cache → Ll.Run A → Run A
free_result s (ok a m) = done a (record s { free = m.ll; items = m.items })
free_result s blocked = stuck
free_result s fault = stuck

abbrev pub busy_result : {A : Type 0} → Cache → Ll.Run A → Run A
busy_result s (ok a m) = done a (record s { busy = m.ll; items = m.items })
busy_result s blocked = stuck
busy_result s fault = stuck

abbrev pub on_free : {A : Type 0} → Ll.Cmd A → Cmd A
on_free c s = free_result s (c (mem s.free s.items))

abbrev pub on_busy : {A : Type 0} → Ll.Cmd A → Cmd A
on_busy c s = busy_result s (c (mem s.busy s.items))

abbrev pub set_at : (Ptr → CFile) → Ptr → CFile → Ptr → CFile
set_at files p g a = if a == p then g else files a

-- `f->...`, read and written.
abbrev pub get_file : Ptr → Cmd CFile
get_file f s = if f == null then stuck else done (s.files f) s

abbrev pub set_file : Ptr → CFile → Cmd (Unit {0})
set_file f g s = if f == null then stuck else done tt (record s { files = set_at s.files f g })

abbrev pub get_next : Ptr → Cmd Ptr
get_next f s = if f == null then stuck else done (s.items.next f) s

abbrev pub set_size : ℤ → Cmd (Unit {0})
set_size z s = done tt (record s { current_size = z })

abbrev pub without : ℕ → List ℕ → List ℕ
without d [] = []
without d (e ∷ es) = if d == e then without d es else e ∷ without d es

-- `close`, of -1 too, which closes nothing.
abbrev pub close : Option ℕ → Cmd (Unit {0})
close none s = done tt s
close (some d) s = done tt (record s { open_fds = without d s.open_fds })

abbrev pub zeroed : CFile
zeroed = record { fn = none; fn_z = 0; fd = some 0; mmap = null; st_size = 0; count = pos 0 }

-- `block` is what malloc returns.
unfoldable pub cfile_new : Ptr → Cmd Ptr
cfile_new block s =
    if block == null
    then done null s
    else done block (record s {
      items = record {
        prev = update s.items.prev block null;
        next = update s.items.next block null;
      };
      files = set_at s.files block zeroed;
    })

-- The loop of `cache_new`, over the blocks that malloc returns. A NULL is linked all the same.
unfoldable pub fill : List Ptr → Cmd (Unit {0})
unfolding cfile_new
fill [] = skip
fill (block ∷ blocks) = do f ← cfile_new block; on_free (Ll.link f); fill blocks

-- `cache_new`, where the allocations of the cache and its lists do not fail.
unfoldable pub cache_new : ℤ → List Ptr → Items → (Ptr → CFile) → List ℕ → Run (Unit {0})
cache_new maximum_size blocks items files open_fds = fill blocks (record {
  free = Ll.new;
  busy = Ll.new;
  items = items;
  files = files;
  current_size = pos 0;
  maximum_size = maximum_size;
  open_fds = open_fds;
})

unfoldable pub cache_free_cfile : Ptr → Cmd (Unit {0})
cache_free_cfile f = do
  g ← get_file f
  if g.mmap == null then skip else λ s. set_size (s.current_size -ℤ pos g.st_size) s
  on_busy (Ll.unlink f)
  on_free (Ll.link f)

unfoldable pub cache_get_cfile : Ptr → Cmd Ptr
cache_get_cfile block = do
  first ← on_free Ll.shift
  f ← if first == null then cfile_new block else pure first
  if f == null then pure null else do on_free (Ll.unlink f); on_busy (Ll.unshift f); pure f

-- The loop of `cache_exisiting_file`, from the file `f`. `strcmp` on a NULL name faults.
abbrev pub named : Option (List ℕ) → List ℕ → Cmd Bool
named none fn s = stuck
named (some t) fn s = done (same t fn) s

unfoldable pub search : ℕ → List ℕ → Ptr → Cmd Ptr
search zero fn f = give_up
search (suc n) fn f = if f == null then pure null else do
  g ← get_file f
  found ← named g.fn fn
  if found then on_busy (Ll.tohead f) >> pure f else do next ← get_next f; search n fn next

unfoldable pub cache_exisiting_file : ℕ → List ℕ → Cmd Ptr
cache_exisiting_file n fn = do f ← on_busy Ll.get_head; search n fn f

unfoldable pub cache_file_done : Ptr → Cmd (Unit {0})
cache_file_done f =
    if f == null
    then skip
    else do g ← get_file f; set_file f (record g { count = g.count -ℤ pos 1 })
