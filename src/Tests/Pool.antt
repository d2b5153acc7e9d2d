-- ===== src/Tests/Pool.antt =====
-- A server with two clients.
use qjhart_geostreams.Prelude.{
  ◌≡◌, refl, arith, none, some, false, [], ◌∷◌, ◌==◌, if◌then◌else◌, true,
}
use qjhart_geostreams.RwLock
use qjhart_geostreams.Ll
use qjhart_geostreams.Ll.{Ptr, null, Items, empty}
use qjhart_geostreams.Server.{
  Server, Run, done, stuck, event_server_new_clients, server_free_client, free_known,
}
use qjhart_geostreams.Server.Pool.{IsPool, Ends}
use qjhart_geostreams.Server.Events.{new_clients-free, free_client_lem}
use qjhart_geostreams.Server.Runs.{
  Running, note, begun, connection, asks, frees, Reach, here, later, Orderly, begins, goes_on,
  Serves, pool_always-Serves,
}
use qjhart_geostreams.Ll.Chain.{IsList}
use qjhart_geostreams.Ll.Frame.{mem}

abbrev unlocked : RwLock.RwLock
unlocked = record { readers_reading = 0; writers_writing = 0 }

-- The clients 1 and 2 are free, and 3 is busy.
abbrev two_free : Server
two_free = record {
  free_clients = record { head = 1; tail = 2; rwlock = unlocked };
  busy_clients = record { head = 3; tail = 3; rwlock = unlocked };
  items = record { prev = λ a. if a == 2 then 1 else 0; next = λ a. if a == 1 then 2 else 0 };
  pending = true;
}

two_free-IsPool : IsPool two_free (1 ∷ 2 ∷ []) (3 ∷ [])
two_free-IsPool = record {
  free_list = record {
    forward = ground arith;
    backward = ground arith;
    distinct = ground arith;
    unlocked = record { no_readers = refl; no_writers = refl };
  };
  busy_list = record {
    forward = ground arith;
    backward = ground arith;
    distinct = ground arith;
    unlocked = record { no_readers = refl; no_writers = refl };
  };
  apart = λ a i. ground arith;
}

-- All three free, before the first connection.
abbrev two : Server
two = record {
  free_clients = record { head = 1; tail = 2; rwlock = unlocked };
  busy_clients = record { head = null; tail = null; rwlock = unlocked };
  items = record { prev = λ a. if a == 2 then 1 else 0; next = λ a. if a == 1 then 2 else 0 };
  pending = true;
}

two-IsPool : IsPool two (1 ∷ 2 ∷ []) []
two-IsPool = record {
  free_list = record {
    forward = ground arith;
    backward = ground arith;
    distinct = ground arith;
    unlocked = record { no_readers = refl; no_writers = refl };
  };
  busy_list = record {
    forward = refl;
    backward = refl;
    distinct = tt;
    unlocked = record { no_readers = refl; no_writers = refl };
  };
  apart = λ a i. refl;
}

-- The server behind a run.
unfoldable behind : Run (Unit {0}) → Server → Server
behind (done u t) s = t
behind stuck s = s

unfoldable connected : Server
connected = behind (event_server_new_clients true two) two

connected-Orderly : Orderly two (record (begun two) { server = connected })
unfolding connected behind event_server_new_clients Ll.shift Ll.link
connected-Orderly = goes_on begins (connection true refl refl) tt

-- The freeing of the client 1 begins while 2 is free, and ends before it is taken.
unfoldable freed : Server
freed = behind (free_known false 1 connected) connected

abbrev freed_1 : Running
freed_1 = record {
  server = freed;
  asked = note 1 none (note 1 (some (empty connected.free_clients)) (λ a. none));
}

connected-IsList : IsList (mem connected.busy_clients connected.items) (1 ∷ [])
unfolding connected behind event_server_new_clients Ll.shift Ll.link
connected-IsList = record {
  forward = ground arith;
  backward = ground arith;
  distinct = ground arith;
  unlocked = record { no_readers = refl; no_writers = refl };
}

freed-Orderly : Orderly two freed_1
unfolding freed connected behind event_server_new_clients free_known empty Ll.shift Ll.link
    Ll.unlink
freed-Orderly =
    goes_on (goes_on connected-Orderly (asks 1 (1 ∷ []) connected-IsList refl) tt)
      (frees 1 false (1 ∷ []) refl connected-IsList refl refl) refl

pool_always-Serves_example : Serves 2 freed
pool_always-Serves_example = pool_always-Serves (1 ∷ 2 ∷ []) two-IsPool refl freed-Orderly

-- Out of turn: before it comes to the rest, 2 is taken, and a connection finds no client. Then the
-- client 1 is free, and the event is not pending.
unfoldable all_busy : Server
all_busy = behind (event_server_new_clients true connected) connected

unfoldable refused : Server
refused = behind (event_server_new_clients true all_busy) all_busy

unfoldable late : Server
late = behind (free_known false 1 refused) refused

refused-IsList : IsList (mem refused.busy_clients refused.items) (1 ∷ 2 ∷ [])
unfolding refused all_busy connected behind event_server_new_clients Ll.shift Ll.link
refused-IsList = record {
  forward = ground arith;
  backward = ground arith;
  distinct = ground arith;
  unlocked = record { no_readers = refl; no_writers = refl };
}

abbrev late_1 : Running
late_1 = record {
  server = late;
  asked = note 1 none (note 1 (some (empty connected.free_clients)) (λ a. none));
}

late-Reach : Reach two late_1
unfolding late refused all_busy connected behind event_server_new_clients free_known empty Ll.shift
    Ll.link Ll.unlink
late-Reach =
    later
      (later
        (later
          (later (later here (connection true refl refl)) (asks 1 (1 ∷ []) connected-IsList refl))
          (connection true refl refl))
        (connection true refl refl))
      (frees 1 false (1 ∷ 2 ∷ []) refl refused-IsList refl refl)

late-deaf : (late.free_clients.head ≡ 1) × (late.pending ≡ false)
unfolding late refused all_busy connected behind event_server_new_clients free_known Ll.shift
    Ll.link Ll.unlink
late-deaf = (refl, refl)

new_clients-free_example :
    Ends
      (λ _ t. IsPool t (2 ∷ []) (3 ∷ 1 ∷ []) × (t.pending ≡ true))
      (event_server_new_clients true two_free)
new_clients-free_example = new_clients-free true 1 (2 ∷ []) (3 ∷ []) two_free-IsPool

free_client_lem_example :
    Ends
      (λ _ t.
        IsPool t (1 ∷ 2 ∷ 3 ∷ []) []
        × (t.pending ≡ (if empty two_free.free_clients then true else two_free.pending)))
      (server_free_client 3 two_free)
free_client_lem_example = free_client_lem (1 ∷ 2 ∷ []) [] 3 [] two_free-IsPool
