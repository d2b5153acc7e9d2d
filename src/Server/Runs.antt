-- ===== src/Server/Runs.antt =====
-- Any run of the pool of src/gvar/geostreamd/server.c from a server that listens.
use qjhart_geostreams.Prelude.{
  ℕ, ◌+◌, ◌≡◌, ◌≢◌, ◌⊎◌, refl, sym, ap, subst, ◌∙◌, append-nil, append_assoc, Bool, true, false,
  false≢true, not, ◌||◌, Option, none, some, List, [], ◌∷◌, ◌++◌, arith, ◌==◌, Bool-cases, inl, inr,
  if◌then◌else◌, length, length-append,
}
use qjhart_geostreams.Ll
use qjhart_geostreams.Ll.{Ptr, null, Items, empty}
use qjhart_geostreams.Ll.Chain.{has, IsList, IsList-unique}
use qjhart_geostreams.Ll.Frame.{mem}
use qjhart_geostreams.Server.{
  Server, done, on_free, link_clients, server_init, event_server_new_clients, free_known,
}
use qjhart_geostreams.Server.Pool.{IsPool, Ends, bind-Ends, Ends-mono, Ends-done, link_free-IsPool}
use qjhart_geostreams.Server.Events.{new_clients-free, new_clients-busy, free_known_lem}

abbrev pub AllNew : List Ptr → List Ptr → Type 0
AllNew [] xs = Unit
AllNew (c ∷ cs) xs = (c ≢ null) × (has c xs ≡ false) × AllNew cs (xs ++ c ∷ [])

link_clients-IsPool :
    (cs xs : List Ptr) (s : Server)
    → IsPool s xs []
    → AllNew cs xs
    → Ends (λ _ t. IsPool t (xs ++ cs) []) (link_clients cs s)
unfolding link_clients
link_clients-IsPool [] xs s v n = subst (λ l. IsPool s l []) (sym (append-nil xs)) v
link_clients-IsPool (c ∷ cs) xs s v n =
    bind-Ends (on_free (Ll.link c) s) _ _ _ (link_free-IsPool c xs [] v n.0 n.1 refl) λ _ t (p, _).
      subst (λ l. Ends (λ _ u. IsPool u l []) (link_clients cs t)) (append_assoc xs (c ∷ []) cs)
        (link_clients-IsPool cs (xs ++ c ∷ []) t p n.2)

-- server_init makes all the clients that it is given free, in their order, and none busy.
pub server_init-IsPool :
    (clients : List Ptr) (items : Items)
    → AllNew clients []
    → Ends (λ _ s. IsPool s clients []) (server_init clients items)
unfolding server_init Ll.new
server_init-IsPool clients items n =
    link_clients-IsPool clients [] _
      (record {
        free_list = record {
          forward = refl;
          backward = refl;
          distinct = tt;
          unlocked = record { no_readers = refl; no_writers = refl };
        };
        busy_list = record {
          forward = refl;
          backward = refl;
          distinct = tt;
          unlocked = record { no_readers = refl; no_writers = refl };
        };
        apart = λ a i. cc;
      })
      n

-- A server that runs, and for each client what the call of server_free_client that is under way for
-- it has read as `was_empty`.
pub record Running : Type 0 where
  pub server : Server
  pub asked : Ptr → Option Bool

abbrev pub note : Ptr → Option Bool → (Ptr → Option Bool) → Ptr → Option Bool
note c o f a = if a == c then o else f a

-- What may happen, in any order: a connection comes in while the event is pending, the freeing of a
-- busy client begins with the test of the free list, or it comes to the rest.
pub data Step (s : Running) : Running → Type 0 where
  connection :
      (accepted : Bool) {t : Server}
      → s.server.pending ≡ true
      → event_server_new_clients accepted s.server ≡ done tt t
      → Step s (record s { server = t })
  asks :
      (c : Ptr) (ys : List Ptr)
      → IsList (mem s.server.busy_clients s.server.items) ys
      → has c ys ≡ true
      → Step s (record s { asked = note c (some (empty s.server.free_clients)) s.asked })
  frees :
      (c : Ptr) (was_empty : Bool) (ys : List Ptr) {t : Server}
      → s.asked c ≡ some was_empty
      → IsList (mem s.server.busy_clients s.server.items) ys
      → has c ys ≡ true
      → free_known was_empty c s.server ≡ done tt t
      → Step s (record { server = t; asked = note c none s.asked })

abbrev pub begun : Server → Running
begun s = record { server = s; asked = λ a. none }

pub data Reach (s : Server) : Running → Type 0 where
  here : Reach s (begun s)
  later : {t u : Running} → Reach s t → Step t u → Reach s u

-- A client is not freed on the strength of a free list that had clients and has none any more. In
-- the style EVENTS every handler runs to its end in the one thread of the event loop, so a test is
-- always of the list as it is; in the style THREADS nothing in the source sees to it.
abbrev pub InTurn : {s t : Running} → Step s t → Type 0
InTurn (connection accepted p e) = Unit
InTurn (asks c ys l i) = Unit
InTurn {s} (frees c was_empty ys a l i e) = (was_empty || not (empty s.server.free_clients)) ≡ true

-- The runs in which that holds of every step.
pub data Orderly (s : Server) : Running → Type 0 where
  begins : Orderly s (begun s)
  goes_on : {t u : Running} → Orderly s t → (st : Step t u) → InTurn st → Orderly s u

pub record Serves (n : ℕ) (s : Server) : Type 0 where
  pub free : List Ptr
  pub busy : List Ptr
  pub pool : IsPool s free busy
  pub listens : (free ≡ []) ⊎ (s.pending ≡ true)
  pub all_there : length free + length busy ≡ n

has-split :
    (c : Ptr) (ys : List Ptr)
    → has c ys ≡ true
    → (ps : List Ptr) × (qs : List Ptr) × (ys ≡ ps ++ c ∷ qs)
has-split c [] h = cc
has-split c (y ∷ ys) h = elim (Bool-cases (c == y)) [
  | inl e ↦ ([], ys, ground arith)
  | inr e ↦ let (p, q, r) = has-split c ys (rw e at h) in (y ∷ p, q, ap (λ t. y ∷ t) r)
]

new_clients-Serves :
    {n : ℕ} (accepted : Bool) {s : Server} (free busy : List Ptr)
    → IsPool s free busy
    → length free + length busy ≡ n
    → Ends (λ _ t. Serves n t) (event_server_new_clients accepted s)
new_clients-Serves accepted {s} [] busy v e =
    Ends-mono (event_server_new_clients accepted s) _ _ (new_clients-busy accepted busy v)
      λ _ t (p, q). record { free = []; busy = busy; pool = p; listens = inl refl; all_there = e }
new_clients-Serves true {s} (x ∷ xs) busy v e =
    Ends-mono (event_server_new_clients true s) _ _ (new_clients-free true x xs busy v)
      λ _ t (p, q). record {
        free = xs;
        busy = busy ++ x ∷ [];
        pool = p;
        listens = inr q;
        all_there = omega (arith, length-append busy (x ∷ []));
      }
new_clients-Serves false {s} (x ∷ xs) busy v e =
    Ends-mono (event_server_new_clients false s) _ _ (new_clients-free false x xs busy v)
      λ _ t (p, q). record {
        free = xs ++ x ∷ [];
        busy = busy;
        pool = p;
        listens = inr q;
        all_there = omega (arith, length-append xs (x ∷ []));
      }

still_listens :
    {s : Server} (was_empty : Bool) (free busy : List Ptr)
    → IsPool s free busy
    → (free ≡ []) ⊎ (s.pending ≡ true)
    → (was_empty || not (empty s.free_clients)) ≡ true
    → (if was_empty then true else s.pending) ≡ true
unfolding empty
still_listens true free busy v l t = refl
still_listens false [] busy v l t = absurd (false≢true (rw v.free_list.forward at t))
still_listens false (x ∷ xs) busy v (inl e) t = cc
still_listens false (x ∷ xs) busy v (inr e) t = e

free_known-Serves :
    {n : ℕ} (was_empty : Bool) (c : Ptr) {s : Server} (free ps qs : List Ptr)
    → IsPool s free (ps ++ c ∷ qs)
    → (free ≡ []) ⊎ (s.pending ≡ true)
    → length free + length (ps ++ c ∷ qs) ≡ n
    → (was_empty || not (empty s.free_clients)) ≡ true
    → Ends (λ _ t. Serves n t) (free_known was_empty c s)
free_known-Serves was_empty c {s} free ps qs v l e turn =
    Ends-mono (free_known was_empty c s) _ _ (free_known_lem was_empty free ps c qs v) λ _ t (p, q).
      record {
        free = free ++ c ∷ [];
        busy = ps ++ qs;
        pool = p;
        listens = inr (q ∙ still_listens was_empty free (ps ++ c ∷ qs) v l turn);
        all_there =
            omega
              (arith, length-append free (c ∷ []), length-append ps qs, length-append ps (c ∷ qs));
      }

Step-Serves :
    {n : ℕ} {s t : Running} (st : Step s t) → InTurn st → Serves n s.server → Serves n t.server
Step-Serves {n} {s} (connection accepted {t} p e) turn v =
    Ends-done (event_server_new_clients accepted s.server) _ tt t
      (new_clients-Serves accepted v.free v.busy v.pool v.all_there) e
Step-Serves {n} {s} (asks c ys l i) turn v = v
Step-Serves {n} {s} (frees c was_empty ys {t} a l i e) turn v =
    let same : ys ≡ v.busy = IsList-unique ys v.busy l v.pool.busy_list in
    let (ps, qs, split) = has-split c v.busy (subst (λ k. has c k ≡ true) same i) in
    Ends-done (free_known was_empty c s.server) _ tt t
      (free_known-Serves was_empty c v.free ps qs
        (subst (λ k. IsPool s.server v.free k) split v.pool) v.listens
        (subst (λ k. length v.free + length k ≡ n) split v.all_there) turn)
      e

-- Over any run of connections, tests and frees from a server with `n` free clients that listens,
-- in which no client is freed on the strength of a free list that had clients and has none any
-- more: the two lists stay lists without a common item, they hold `n` clients together, and
-- whenever a client is free the listening event is pending. A client is freed only while it is in
-- the busy list, and a handler that takes or links clients is one step. All of that is so in the
-- style EVENTS, where one thread runs every handler to its end; a style of THREADS does not ensure it.
pub pool_always-Serves :
    {s : Server} {t : Running} (clients : List Ptr)
    → IsPool s clients []
    → s.pending ≡ true
    → Orderly s t
    → Serves (length clients) t.server
pool_always-Serves clients v p begins = record {
  free = clients;
  busy = [];
  pool = v;
  listens = inr p;
  all_there = omega arith;
}
pool_always-Serves clients v p (goes_on r st turn) =
    Step-Serves st turn (pool_always-Serves clients v p r)
