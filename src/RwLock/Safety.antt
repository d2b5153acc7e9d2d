-- ===== src/RwLock/Safety.antt =====
-- Mutual exclusion and no lost wakeup, for src/gvar/geostreamd/rwlock.c.
use qjhart_geostreams.Prelude.{
  inl, inr, true, false, sym, ℕ, zero, suc, ◌+◌, ◌≤◌, ◌<◌, ◌≡◌, ◌≢◌, ◌⊎◌, refl, Bool, some, List,
  [], ◌∷◌, arith, get_elem?, set,
}
use qjhart_geostreams.RwLock.{RwLock, init, rlock, wlock, runlock, wunlock}
use qjhart_geostreams.RwLock.System.{
  Pc, idle, testing_read, testing_write, waiting_read, waiting_write, reading, writing, Sys, waits,
  tests, reads, writes, count, Wake, quiet, nobody, one, Step, call_rlock, call_wlock, got_rlock,
  got_wlock, wait_rlock, wait_wlock, spurious, call_runlock, call_wunlock, Reach, here, later,
}
use qjhart_geostreams.RwLock.Counts.{count-set, le-count, add-le-count}

pub record Inv (l : RwLock) (ps : List Pc) : Type 0 where
  pub readers : l.readers_reading ≡ count reads ps
  pub writers : l.writers_writing ≡ count writes ps
  pub alone : (l.writers_writing ≡ 0) ⊎ ((l.writers_writing ≡ 1) × (l.readers_reading ≡ 0))
  pub awake : (count waits ps ≡ 0) ⊎ (0 < count reads ps + count writes ps + count tests ps)

module _ (ps : List Pc) (i : ℕ) (p q : Pc) (at : get_elem? ps i ≡ some p) where
  -- The counts after thread `i` moved from `p` to `q`.
  pub record Moved : Type 0 where
    pub reading_count : count reads (set ps i q) + reads p ≡ count reads ps + reads q
    pub writing_count : count writes (set ps i q) + writes p ≡ count writes ps + writes q
    pub waiting_count : count waits (set ps i q) + waits p ≡ count waits ps + waits q
    pub testing_count : count tests (set ps i q) + tests p ≡ count tests ps + tests q

  moved : Moved
  moved = record {
    reading_count = count-set reads ps i p q at;
    writing_count = count-set writes ps i p q at;
    waiting_count = count-set waits ps i p q at;
    testing_count = count-set tests ps i p q at;
  }

-- What a signal does to the counts.
record Awoken (ps : List Pc) (b : Bool) (qs : List Pc) : Type 0 where
  same_reads : count reads qs ≡ count reads ps
  same_writes : count writes qs ≡ count writes ps
  same_when_quiet :
      b ≡ false → (count waits qs ≡ count waits ps) × (count tests qs ≡ count tests ps)
  some_woken : b ≡ true → (count waits qs ≡ 0) ⊎ (0 < count tests qs)

Wake-Awoken : {ps qs : List Pc} {b : Bool} → Wake ps b qs → Awoken ps b qs
Wake-Awoken (quiet e) = record {
  same_reads = refl;
  same_writes = refl;
  same_when_quiet = λ _. (refl, refl);
  some_woken = λ t. cc;
}
Wake-Awoken (nobody e z) = record {
  same_reads = refl;
  same_writes = refl;
  same_when_quiet = λ f. cc;
  some_woken = λ t. inl z;
}
Wake-Awoken {ps} (one j {p} {q} e at w) =
    let m = moved ps j p q at in
    record {
      same_reads = ground arith;
      same_writes = ground arith;
      same_when_quiet = λ f. cc;
      some_woken = λ t. inr (ground (arith, le-count waits ps j p at));
    }

-- Every step of a thread keeps the invariant.
pub Step-Inv : {s t : Sys} → Step s t → Inv s.lock s.threads → Inv t.lock t.threads
unfolding rlock wlock runlock wunlock
Step-Inv {s} (call_rlock i at) v = let m = moved s.threads i idle testing_read at in ground arith
Step-Inv {s} (call_wlock i at) v = let m = moved s.threads i idle testing_write at in ground arith
Step-Inv {s} (got_rlock i at e) v =
    let m = moved s.threads i testing_read reading at in ground arith
Step-Inv {s} (got_wlock i at e) v =
    let m = moved s.threads i testing_write writing at in ground arith
Step-Inv {s} (wait_rlock i at e) v =
    let m = moved s.threads i testing_read waiting_read at in ground arith
Step-Inv {s} (wait_wlock i at e) v =
    let m = moved s.threads i testing_write waiting_write at in ground arith
Step-Inv {s} (spurious i {p} {q} at w) v = let m = moved s.threads i p q at in ground arith
Step-Inv {s} (call_runlock i at w) v =
    let m = moved s.threads i reading idle at in
    let a = Wake-Awoken w in
    let some_reader : 1 ≤ count reads s.threads = le-count reads s.threads i reading at in
    ground arith
Step-Inv {s} (call_wunlock i at w) v =
    let m = moved s.threads i writing idle at in
    let a = Wake-Awoken w in
    let some_writer : 1 ≤ count writes s.threads = le-count writes s.threads i writing at in
    ground arith

pub Reach-Inv : {s t : Sys} → Inv s.lock s.threads → Reach s t → Inv t.lock t.threads
Reach-Inv v here = v
Reach-Inv v (later r st) = Step-Inv st (Reach-Inv v r)

-- Threads that have not called the lock yet.
abbrev pub all_idle : ℕ → List Pc
all_idle zero = []
all_idle (suc n) = idle ∷ all_idle n

abbrev pub start : ℕ → Sys
start n = record { lock = init; threads = all_idle n }

count-all_idle : (w : Pc → ℕ) (n : ℕ) → w idle ≡ 0 → count w (all_idle n) ≡ 0
unfolding count
count-all_idle w zero h = refl
count-all_idle w (suc n) h = omega (arith, count-all_idle w n h)

start-Inv : (n : ℕ) → Inv (start n).lock (start n).threads
unfolding init
start-Inv n = record {
  readers = sym (count-all_idle reads n refl);
  writers = sym (count-all_idle writes n refl);
  alone = inl refl;
  awake = inl (count-all_idle waits n refl);
}

-- From a lock that `pthread_rdwr_init_np` has set up, over any interleaving of any number of
-- threads: while one thread holds the lock for writing, no other thread holds it, for reading or
-- for writing.
pub writer_excludes :
    (n : ℕ) {s : Sys} (i j : ℕ) (p : Pc)
    → Reach (start n) s
    → get_elem? s.threads i ≡ some writing
    → get_elem? s.threads j ≡ some p
    → i ≢ j
    → (p ≢ writing) × (p ≢ reading)
writer_excludes n {s} i j p r at_i at_j ne =
    let v = Reach-Inv (start-Inv n) r in
    let one_writer = le-count writes s.threads i writing at_i in
    let both = add-le-count writes s.threads i j writing p at_i at_j ne in
    let reader = le-count reads s.threads j p at_j in (λ e. ground arith, λ e. ground arith)

-- No wakeup is lost: in every reachable state, if some thread waits on the condition variable,
-- then some thread holds the lock or is about to retest it. So the waiting threads are never left
-- behind by a lock that is free.
pub no_lost_wakeup :
    (n : ℕ) {s : Sys} (i : ℕ) (p : Pc)
    → Reach (start n) s
    → get_elem? s.threads i ≡ some p
    → waits p ≡ 1
    → 0 < count reads s.threads + count writes s.threads + count tests s.threads
no_lost_wakeup n {s} i p r at w =
    let v = Reach-Inv (start-Inv n) r in ground (arith, le-count waits s.threads i p at)

-- In every reachable state the two counters of the lock are the numbers of threads that hold it
-- for reading and for writing, at most one writes, and none reads while one writes.
pub counters_exact :
    (n : ℕ) {s : Sys}
    → Reach (start n) s
    → (s.lock.readers_reading ≡ count reads s.threads)
      × (s.lock.writers_writing ≡ count writes s.threads)
      × (s.lock.writers_writing ≤ 1)
      × ((s.lock.writers_writing ≡ 0) ⊎ (s.lock.readers_reading ≡ 0))
counters_exact n r =
    let v = Reach-Inv (start-Inv n) r in (v.readers, v.writers, ground arith, ground arith)
