-- ===== src/RwLock.antt =====
-- The readers-writer lock of src/gvar/geostreamd/rwlock.c and rwlock.h.
-- Each function runs under the lock's mutex, so it is one atomic step. A function that would wait
-- on the condition variable returns `none`: the thread waits and retests when it is woken.
pub mod System
pub mod Counts
pub mod Safety
use qjhart_geostreams.Prelude.{
  ℕ, ◌+◌, ◌-◌, Bool, true, false, Option, none, some, ltb, ◌==◌, ◌||◌, if◌then◌else◌,
}

-- `pthread_rdwr_t`, less the mutex and the condition variable.
pub record RwLock : Type 0 where
  pub readers_reading : ℕ
  pub writers_writing : ℕ

-- What an unlock returns: its status (`true` is 0, `false` is -1), whether it signals
-- `lock_free`, and the lock.
pub record Unlocked : Type 0 where
  pub done : Bool
  pub signalled : Bool
  pub lock : RwLock

unfoldable pub init : RwLock
init = record { readers_reading = 0; writers_writing = 0 }

unfoldable pub rlock : RwLock → Option RwLock
rlock l =
    if ltb 0 l.writers_writing
    then none
    else some (record l { readers_reading = l.readers_reading + 1 })

unfoldable pub wlock : RwLock → Option RwLock
wlock l =
    if ltb 0 l.writers_writing || ltb 0 l.readers_reading
    then none
    else some (record l { writers_writing = l.writers_writing + 1 })

unfoldable pub runlock : RwLock → Unlocked
runlock l =
    if l.readers_reading == 0
    then record { done = false; signalled = false; lock = l }
    else record {
      done = true;
      signalled = (l.readers_reading - 1) == 0;
      lock = record l { readers_reading = l.readers_reading - 1 };
    }

unfoldable pub wunlock : RwLock → Unlocked
wunlock l =
    if l.writers_writing == 0
    then record { done = false; signalled = false; lock = l }
    else record { done = true; signalled = true; lock = record l { writers_writing = 0 } }
