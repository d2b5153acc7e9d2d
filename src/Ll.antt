-- ===== src/Ll.antt =====
-- The doubly linked lists of src/gvar/geostreamd/ll.c, over an explicit heap of items.
-- An item's `prev` and `next` are two functions of its address, so a write of one field plainly
-- leaves the other alone. An operation that touches the list takes its writer lock first and gives
-- it back last; `blocked` is a wait for the lock, `fault` an access through NULL.
pub mod Chain
pub mod Split
pub mod Ends
pub mod Unlink
pub mod ToHead
pub mod Frame
use qjhart_geostreams.Prelude.{ℕ, Bool, none, some, ◌==◌, if◌then◌else◌}
use qjhart_geostreams.RwLock
use qjhart_geostreams.RwLock.{RwLock}

abbrev pub Ptr : Type 0
Ptr = ℕ

abbrev pub null : Ptr
null = 0

-- `struct ll_item` at every address.
pub record Items : Type 0 where
  pub prev : Ptr → Ptr
  pub next : Ptr → Ptr

-- `struct ll`.
pub record Ll : Type 0 where
  pub head : Ptr
  pub tail : Ptr
  pub rwlock : RwLock

-- What an operation sees: the list that it is given, and the items.
pub record Mem : Type 0 where
  pub ll : Ll
  pub items : Items

pub data Run (A : Type 0) : Type 0 where
  ok : A → Mem → Run A
  blocked : Run A
  fault : Run A

abbrev pub Cmd : Type 0 → Type 0
Cmd A = Mem → Run A

abbrev pub pure : {A : Type 0} → A → Cmd A
pure = ok

abbrev pub skip : Cmd (Unit {0})
skip = ok tt

module _ {A B : Type 0} where
  abbrev pub and_then : Run A → (A → Cmd B) → Run B
  and_then (ok a m) k = k a m
  and_then blocked k = blocked
  and_then fault k = fault

  infixl 5 ◌>>=◌ ◌>>◌
  abbrev pub ◌>>=◌ : Cmd A → (A → Cmd B) → Cmd B
  c >>= k = λ m. and_then (c m) k

  abbrev pub ◌>>◌ : Cmd A → Cmd B → Cmd B
  c >> d = c >>= λ _. d

abbrev pub update : (Ptr → Ptr) → Ptr → Ptr → Ptr → Ptr
update f p q a = if a == p then q else f a

abbrev pub get_head : Cmd Ptr
get_head m = ok m.ll.head m

abbrev pub get_tail : Cmd Ptr
get_tail m = ok m.ll.tail m

abbrev pub set_head : Ptr → Cmd (Unit {0})
set_head p m = ok tt (record m { ll = record (m.ll) { head = p } })

abbrev pub set_tail : Ptr → Cmd (Unit {0})
set_tail p m = ok tt (record m { ll = record (m.ll) { tail = p } })

-- `p->prev` and `p->next`, read and written.
abbrev pub get_prev : Ptr → Cmd Ptr
get_prev p m = if p == null then fault else ok (m.items.prev p) m

abbrev pub get_next : Ptr → Cmd Ptr
get_next p m = if p == null then fault else ok (m.items.next p) m

abbrev pub set_prev : Ptr → Ptr → Cmd (Unit {0})
set_prev p q m =
    if p == null
    then fault
    else ok tt (record m { items = record (m.items) { prev = update m.items.prev p q } })

abbrev pub set_next : Ptr → Ptr → Cmd (Unit {0})
set_next p q m =
    if p == null
    then fault
    else ok tt (record m { items = record (m.items) { next = update m.items.next p q } })

-- Between `pthread_rdwr_wlock_np` and `pthread_rdwr_wunlock_np` of the list's lock.
abbrev pub lock : Cmd (Unit {0})
lock m = elim (RwLock.wlock m.ll.rwlock) [
  | none ↦ blocked
  | some l ↦ ok tt (record m { ll = record (m.ll) { rwlock = l } })
]

abbrev pub unlock : Cmd (Unit {0})
unlock m = ok tt (record m { ll = record (m.ll) { rwlock = (RwLock.wunlock m.ll.rwlock).lock } })

-- `ll_new`, where `malloc` does not fail.
unfoldable pub new : Ll
unfolding RwLock.init
new = record { head = null; tail = null; rwlock = RwLock.init }

unfoldable pub empty : Ll → Bool
empty l = l.head == null

unfoldable pub shift : Cmd Ptr
unfolding RwLock.wlock RwLock.wunlock
shift = do
  lock
  h ← get_head
  if h == null then skip else do
    set_prev h null
    set_head (← get_next h)
    n ← get_head
    if n == null then skip else set_prev n null
    set_next h null
    t ← get_tail
    if t == h then set_tail null else skip
  unlock
  pure h

unfoldable pub unshift : Ptr → Cmd (Unit {0})
unfolding RwLock.wlock RwLock.wunlock
unshift c = do
  lock
  t ← get_head
  set_next c t
  set_prev c null
  if t == null then set_tail c else set_prev t c
  set_head c
  unlock

unfoldable pub pop : Cmd Ptr
unfolding RwLock.wlock RwLock.wunlock
pop = do
  lock
  t ← get_tail
  if t == null then skip else do
    set_tail (← get_prev t)
    set_prev t null
    l ← get_tail
    if l == null then skip else set_next l null
    h ← get_head
    if h == t then set_head null else skip
  unlock
  pure t

unfoldable pub unlink : Ptr → Cmd (Unit {0})
unfolding RwLock.wlock RwLock.wunlock
unlink c = do
  lock
  p ← get_prev c
  n ← get_next c
  if p == null then skip else set_next p n
  if n == null then skip else set_prev n p
  set_prev c null
  set_next c null
  h ← get_head
  if c == h then set_head n else skip
  t ← get_tail
  if c == t then set_tail p else skip
  unlock

unfoldable pub link : Ptr → Cmd (Unit {0})
unfolding RwLock.wlock RwLock.wunlock
link c = do
  lock
  t ← get_tail
  set_prev c t
  set_next c null
  if t == null then set_head c else set_next t c
  set_tail c
  unlock

unfoldable pub tohead : Ptr → Cmd (Unit {0})
unfolding RwLock.wlock RwLock.wunlock
tohead c = do
  lock
  t ← get_head
  p ← get_prev c
  if p == null then skip else do
    set_next p (← get_next c)
    n ← get_next c
    if n == null then skip else do set_prev n (← get_prev c)
    set_prev t c
    set_next c t
    set_prev c null
    set_head c
  unlock
