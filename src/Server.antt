-- ===== src/Server.antt =====
-- The pool of clients of src/gvar/geostreamd/server.c: two lists over one store of items, and
-- whether the listening event is pending. The clients' other fields stand in `Client`.
pub mod Pool
pub mod Events
pub mod Runs
use qjhart_geostreams.Prelude.{
  ℕ, zero, suc, ◌+◌, Bool, true, false, Option, none, some, List, [], ◌∷◌, ◌==◌, if◌then◌else◌,
}
use qjhart_geostreams.Ll
use qjhart_geostreams.Ll.{Ptr, null, Ll, Items, Mem, ok, blocked, fault}
use qjhart_geostreams.Ll.Frame.{mem}

-- `struct server`, the fields that serve the pool. `pending` says that `event_p` is added.
pub record Server : Type 0 where
  pub free_clients : Ll
  pub busy_clients : Ll
  pub items : Items
  pub pending : Bool

pub data Run (A : Type 0) : Type 0 where
  done : A → Server → Run A
  stuck : Run A

abbrev pub and_then : {A B : Type 0} → Run A → (A → Server → Run B) → Run B
and_then (done a s) k = k a s
and_then stuck k = stuck

-- A list operation on one of the two lists. `stuck` is a wait for its lock, or an access through
-- NULL.
abbrev pub free_result : {A : Type 0} → Server → Ll.Run A → Run A
free_result s (ok a m) = done a (record s { free_clients = m.ll; items = m.items })
free_result s blocked = stuck
free_result s fault = stuck

abbrev pub busy_result : {A : Type 0} → Server → Ll.Run A → Run A
busy_result s (ok a m) = done a (record s { busy_clients = m.ll; items = m.items })
busy_result s blocked = stuck
busy_result s fault = stuck

abbrev pub on_free : {A : Type 0} → Ll.Cmd A → Server → Run A
on_free c s = free_result s (c (mem s.free_clients s.items))

abbrev pub on_busy : {A : Type 0} → Ll.Cmd A → Server → Run A
on_busy c s = busy_result s (c (mem s.busy_clients s.items))

abbrev pub event_add : Server → Server
event_add s = record s { pending = true }

-- The `for` loop of `server_init`, over the clients that `client_new` returns.
unfoldable pub link_clients : List Ptr → Server → Run (Unit {0})
link_clients [] s = done tt s
link_clients (c ∷ cs) s = and_then (on_free (Ll.link c) s) (λ _ s'. link_clients cs s')

-- `server_init`, where the allocations do not fail.
unfoldable pub server_init : List Ptr → Items → Run (Unit {0})
server_init clients items =
    link_clients clients
      (record { free_clients = Ll.new; busy_clients = Ll.new; items = items; pending = false })

-- `event_server_new_clients`. The event that called it is no longer pending. `accepted` says
-- whether `client_accept` returns a descriptor; a thread that it starts does not free the client
-- before the client is busy.
unfoldable pub event_server_new_clients : Bool → Server → Run (Unit {0})
event_server_new_clients accepted s =
    and_then (on_free Ll.shift (record s { pending = false })) λ c s1.
      if c == null
      then done tt s1
      else let s2 = event_add s1 in
        if accepted then on_busy (Ll.link c) s2 else on_free (Ll.link c) s2

-- `server_free_client` behind its first line, which has read `was_empty` without a lock. In a style of
-- THREADS it runs in a client's thread, so other steps may come between.
unfoldable pub free_known : Bool → Ptr → Server → Run (Unit {0})
free_known was_empty c s = and_then (on_busy (Ll.unlink c) s) λ _ s1.
    and_then (on_free (Ll.link c) s1)
      λ _ s2. if was_empty then done tt (event_add s2) else done tt s2

-- The whole function, where nothing comes between.
unfoldable pub server_free_client : Ptr → Server → Run (Unit {0})
unfolding free_known
server_free_client c s = free_known (Ll.empty s.free_clients) c s
