-- ===== src/Tests/Locks.antt =====
-- A lock with three threads.
use qjhart_geostreams.Prelude.{◌≢◌, ◌<◌, ◌+◌, refl, arith, [], ◌∷◌}
use qjhart_geostreams.RwLock.{init, wlock, rlock}
use qjhart_geostreams.RwLock.System.{
  Sys, Reach, here, later, call_wlock, call_rlock, got_wlock, wait_rlock, idle, writing,
  waiting_read, reading, reads, writes, tests, count,
}
use qjhart_geostreams.RwLock.Safety.{start, writer_excludes, no_lost_wakeup}

-- The first thread writes, the second waits to read.
abbrev held : Sys
held = record {
  lock = record { readers_reading = 0; writers_writing = 1 };
  threads = writing ∷ waiting_read ∷ idle ∷ [];
}

held-Reach : Reach (start 3) held
unfolding init wlock rlock
held-Reach =
    later
      (later (later (later here (call_wlock 0 refl)) (got_wlock 0 refl refl)) (call_rlock 1 refl))
      (wait_rlock 1 refl refl)

writer_excludes_example : (waiting_read ≢ writing) × (waiting_read ≢ reading)
writer_excludes_example = writer_excludes 3 0 1 waiting_read held-Reach refl refl (omega arith)

no_lost_wakeup_example :
    0 < count reads held.threads + count writes held.threads + count tests held.threads
no_lost_wakeup_example = no_lost_wakeup 3 1 waiting_read held-Reach refl refl
