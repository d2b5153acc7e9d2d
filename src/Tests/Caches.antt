-- ===== src/Tests/Caches.antt =====
-- A cache with two free files and two busy ones.
use qjhart_geostreams.Prelude.{
  ◌≡◌, refl, arith, ℕ, false, none, some, List, [], ◌∷◌, codes, ◌==◌, if◌then◌else◌, ℤ, pos, ◌+ℤ◌,
  ◌-ℤ◌,
}
use qjhart_geostreams.RwLock
use qjhart_geostreams.Ll.{Ptr, null}
use qjhart_geostreams.Ll.Chain.{IsList}
use qjhart_geostreams.Ll.Frame.{mem}
use qjhart_geostreams.Request.{get, head}
use qjhart_geostreams.Cache.{CFile, Cache, cache_exisiting_file, zeroed}
use qjhart_geostreams.Cache.Get.{Answers, failed, eacces, evict, cache_file_get}
use qjhart_geostreams.Cache.Lists.{IsCache, rest, Ends}
use qjhart_geostreams.Cache.Evict.{plan_for, Follows, evict-plan}
use qjhart_geostreams.Cache.Find.{cache_exisiting_file_last_breaks}
use qjhart_geostreams.Cache.Files.{IsCache-rest}
use qjhart_geostreams.Cache.Load.{answers, loaded}
use qjhart_geostreams.Cache.Fetch.{IsFetched, cache_file_get-loads, cache_file_get-again}
use qjhart_geostreams.Cache.Failures.{IsReturned, renamed, cache_file_get-failed}
use qjhart_geostreams.Cache.Sound.{found, cache_file_get-Sound}
use qjhart_geostreams.Cache.Invariant.{Sound}

abbrev unlocked : RwLock.RwLock
unlocked = record { readers_reading = 0; writers_writing = 0 }

abbrev held : List ℕ → ℤ → CFile
held fn count = record {
  fn = some fn;
  fn_z = 200;
  fd = none;
  mmap = 4096;
  st_size = 10;
  count = count;
}

-- The files 1 and 2 are free, 3 and 4 are busy; 1 still holds its old mapping.
abbrev small : Cache
small = record {
  free = record { head = 1; tail = 2; rwlock = unlocked };
  busy = record { head = 3; tail = 4; rwlock = unlocked };
  items = record {
    prev = λ a. if a == 2 then 1 else if a == 4 then 3 else 0;
    next = λ a. if a == 1 then 2 else if a == 3 then 4 else 0;
  };
  files = λ a.
      if a == 1
      then held (codes "old") (pos 0)
      else if a == 3
      then held (codes "a") (pos 1)
      else if a == 4
      then held (codes "b") (pos 0)
      else zeroed;
  current_size = pos 20;
  maximum_size = pos 100;
  open_fds = 7 ∷ [];
}

small-IsCache : IsCache small (1 ∷ 2 ∷ []) (3 ∷ 4 ∷ [])
small-IsCache = record {
  free_queue = record {
    walk = ground arith;
    last = refl;
    distinct = ground arith;
    unlocked = record { no_readers = refl; no_writers = refl };
  };
  busy_list = record {
    forward = ground arith;
    backward = ground arith;
    distinct = ground arith;
    unlocked = record { no_readers = refl; no_writers = refl };
  };
  apart = λ a i. ground arith;
}

-- A file of 90 bytes does not fit; 4 is not held and goes, 3 is held and stays.
abbrev wants : Cache
wants = record small {
  files = λ a. if a == 2 then record zeroed { st_size = 90 } else small.files a;
}

wants-IsCache : IsCache wants (1 ∷ 2 ∷ []) (3 ∷ 4 ∷ [])
wants-IsCache = IsCache-rest wants.files (pos 20) (7 ∷ []) small-IsCache

evict-plan_example :
    Ends
      (Follows (1 ∷ 2 ∷ []) (plan_for 2 (rest wants) (4 ∷ 3 ∷ [])) (rest wants))
      (evict 3 2 wants)
evict-plan_example =
    evict-plan 3 2 (4 ∷ 3 ∷ []) (1 ∷ 2 ∷ []) wants-IsCache (omega arith) (omega arith)

-- The plan takes the last file and keeps the one that is held.
plan_wants :
    plan_for 2 (rest wants) (4 ∷ 3 ∷ []) ≡ record { gone = 4 ∷ []; left = 3 ∷ []; size = pos 10 }
unfolding ◌+ℤ◌ ◌-ℤ◌
plan_wants = refl

cache_exisiting_file_last_breaks_example :
    Ends
      (λ f t. (f ≡ 4) × (t.busy.tail ≡ 4) × ((zs : List Ptr) → ¬ IsList (mem t.busy t.items) zs))
      (cache_exisiting_file 3 (codes "b") small)
cache_exisiting_file_last_breaks_example =
    cache_exisiting_file_last_breaks 3 (codes "b") (1 ∷ 2 ∷ []) 3 [] 4 small-IsCache (refl, tt) refl
      (omega arith)

cache_file_get-loads_example :
    Ends
      (λ r t. (r ≡ (1, 200)) × IsFetched small t 1 (2 ∷ []) (3 ∷ 4 ∷ []) (codes "c") 8 50 8192)
      (cache_file_get 3 (answers 9 8 50 8192) (codes "c") get 200 small)
unfolding ◌+ℤ◌
cache_file_get-loads_example =
    cache_file_get-loads 2 (codes "c") 1 (2 ∷ []) (3 ∷ 4 ∷ []) 9 8 50 8192 get 200 small-IsCache
      (refl, (refl, tt)) (omega arith) refl refl

abbrev denied : Answers
denied = record (answers 9 8 50 8192) { open_fd = failed eacces }

cache_file_get-failed_example :
    Ends
      (λ r t.
        (r ≡ (null, 500))
        × IsReturned small t 1
            (record (renamed (small.files 1) (codes "c")) { fd = none })
            (2 ∷ [])
            (3 ∷ 4 ∷ [])
        × (t.open_fds ≡ 7 ∷ []))
      (cache_file_get 3 denied (codes "c") get 200 small)
cache_file_get-failed_example =
    cache_file_get-failed 3 (codes "c") 1 (2 ∷ []) (3 ∷ 4 ∷ []) denied get 200 small-IsCache
      (refl, (refl, tt)) (omega arith) refl eacces refl

abbrev directory : Answers
directory = record (answers 9 8 50 8192) { fstat = some (record { regular = false; size = 512 }) }

cache_file_get-Sound_example :
    Sound (1 ∷ 2 ∷ 3 ∷ 4 ∷ []) (cache_file_get 4 denied (codes "a") get 200 small)
cache_file_get-Sound_example =
    cache_file_get-Sound 4 denied (codes "a") get 200 (1 ∷ 2 ∷ []) (3 ∷ 4 ∷ []) small-IsCache
      (found [] 3 4 [] tt refl) refl (omega arith)

-- The cache with the file 1 loaded.
abbrev after : Cache
after = record {
  free = record { head = 2; tail = 2; rwlock = unlocked };
  busy = record { head = 1; tail = 4; rwlock = unlocked };
  items = record {
    prev = λ a. if a == 3 then 1 else if a == 4 then 3 else 0;
    next = λ a. if a == 1 then 3 else if a == 3 then 4 else 0;
  };
  files = λ a. if a == 1 then loaded (small.files 1) (codes "c") 50 8192 else small.files a;
  current_size = small.current_size +ℤ pos 50;
  maximum_size = pos 100;
  open_fds = 7 ∷ [];
}

after-IsFetched : IsFetched small after 1 (2 ∷ []) (3 ∷ 4 ∷ []) (codes "c") 8 50 8192
after-IsFetched = record {
  cache = record {
    free_queue = record {
      walk = ground arith;
      last = refl;
      distinct = ground arith;
      unlocked = record { no_readers = refl; no_writers = refl };
    };
    busy_list = record {
      forward = ground arith;
      backward = ground arith;
      distinct = ground arith;
      unlocked = record { no_readers = refl; no_writers = refl };
    };
    apart = λ a i. ground arith;
  };
  file = refl;
  others = λ y h. ground arith;
  current_size = refl;
  maximum_size = refl;
  open_fds = refl;
}

cache_file_get-again_example :
    Ends
      (λ r u. (r ≡ (1, 0)) × IsCache u (2 ∷ []) (1 ∷ 3 ∷ 4 ∷ []) × (rest u ≡ rest after))
      (cache_file_get 5 denied (codes "c") head 200 after)
cache_file_get-again_example =
    cache_file_get-again 4 1 (2 ∷ []) (3 ∷ 4 ∷ []) (codes "c") 8 50 8192 denied head 200
      after-IsFetched (omega arith)
