-- ===== src/RwLock/System.antt =====
-- Threads over one lock of src/gvar/geostreamd/rwlock.c, interleaved in any order: each step is
-- the part of a function between taking the mutex and giving it back or waiting.
use qjhart_geostreams.Prelude.{
  ℕ, ◌+◌, ◌≡◌, true, false, Bool, Option, none, some, List, [], ◌∷◌, get_elem?, set,
}
use qjhart_geostreams.RwLock.{RwLock, rlock, wlock, runlock, wunlock}

-- Where a thread stands. `testing_*` is at the head of the `while` loop, `waiting_*` is in
-- `pthread_cond_wait`.
pub data Pc : Type 0 where
  idle testing_read waiting_read reading testing_write waiting_write writing : Pc

pub record Sys : Type 0 where
  pub lock : RwLock
  pub threads : List Pc

abbrev pub waits : Pc → ℕ
waits waiting_read = 1
waits waiting_write = 1
waits _ = 0

abbrev pub tests : Pc → ℕ
tests testing_read = 1
tests testing_write = 1
tests _ = 0

abbrev pub reads : Pc → ℕ
reads reading = 1
reads _ = 0

abbrev pub writes : Pc → ℕ
writes writing = 1
writes _ = 0

abbrev pub woken : Pc → Option Pc
woken waiting_read = some testing_read
woken waiting_write = some testing_write
woken _ = none

unfoldable pub count : (Pc → ℕ) → List Pc → ℕ
count w [] = 0
count w (p ∷ ps) = w p + count w ps

-- `pthread_cond_signal` wakes one of the waiting threads, if there is one.
pub data Wake (ps : List Pc) (signalled : Bool) : List Pc → Type 0 where
  quiet : signalled ≡ false → Wake ps signalled ps
  nobody : signalled ≡ true → count waits ps ≡ 0 → Wake ps signalled ps
  one :
      (j : ℕ) {p q : Pc}
      → signalled ≡ true
      → get_elem? ps j ≡ some p
      → woken p ≡ some q
      → Wake ps signalled (set ps j q)

pub data Step (s : Sys) : Sys → Type 0 where
  call_rlock :
      (i : ℕ)
      → get_elem? s.threads i ≡ some idle
      → Step s (record s { threads = set s.threads i testing_read })
  call_wlock :
      (i : ℕ)
      → get_elem? s.threads i ≡ some idle
      → Step s (record s { threads = set s.threads i testing_write })
  got_rlock :
      (i : ℕ) {l : RwLock}
      → get_elem? s.threads i ≡ some testing_read
      → rlock s.lock ≡ some l
      → Step s (record { lock = l; threads = set s.threads i reading })
  got_wlock :
      (i : ℕ) {l : RwLock}
      → get_elem? s.threads i ≡ some testing_write
      → wlock s.lock ≡ some l
      → Step s (record { lock = l; threads = set s.threads i writing })
  wait_rlock :
      (i : ℕ)
      → get_elem? s.threads i ≡ some testing_read
      → rlock s.lock ≡ none
      → Step s (record s { threads = set s.threads i waiting_read })
  wait_wlock :
      (i : ℕ)
      → get_elem? s.threads i ≡ some testing_write
      → wlock s.lock ≡ none
      → Step s (record s { threads = set s.threads i waiting_write })
  -- a wakeup that no signal caused, which POSIX allows
  spurious :
      (i : ℕ) {p q : Pc}
      → get_elem? s.threads i ≡ some p
      → woken p ≡ some q
      → Step s (record s { threads = set s.threads i q })
  call_runlock :
      (i : ℕ) {ps : List Pc}
      → get_elem? s.threads i ≡ some reading
      → Wake (set s.threads i idle) (runlock s.lock).signalled ps
      → Step s (record { lock = (runlock s.lock).lock; threads = ps })
  call_wunlock :
      (i : ℕ) {ps : List Pc}
      → get_elem? s.threads i ≡ some writing
      → Wake (set s.threads i idle) (wunlock s.lock).signalled ps
      → Step s (record { lock = (wunlock s.lock).lock; threads = ps })

pub data Reach (s : Sys) : Sys → Type 0 where
  here : Reach s s
  later : {t u : Sys} → Reach s t → Step t u → Reach s u
