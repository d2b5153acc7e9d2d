-- ===== src/Server/Events.antt =====
-- The handlers of src/gvar/geostreamd/server.c over the pool of clients.
use qjhart_geostreams.Prelude.{
  ◌≡◌, refl, ◌∙◌, Bool, true, false, List, [], ◌∷◌, ◌++◌, arith, ◌==◌, Bool-cases, inl, inr,
  if◌then◌else◌,
}
use qjhart_geostreams.Ll
use qjhart_geostreams.Ll.{Ptr, null, empty}
use qjhart_geostreams.Server.{
  Server, on_free, on_busy, event_server_new_clients, server_free_client, free_known,
}
use qjhart_geostreams.Server.Pool.{
  IsPool, Ends, bind-Ends, shift-IsPool, link_free-IsPool, link_busy-IsPool, shift_empty-IsPool,
  unlink-IsPool,
}

IsPool-pending :
    {s : Server} {xs ys : List Ptr} (b : Bool)
    → IsPool s xs ys
    → IsPool (record s { pending = b }) xs ys
IsPool-pending b v = record { free_list = v.free_list; busy_list = v.busy_list; apart = v.apart }

-- A new connection while a client is free: the first free client goes to the end of the busy list
-- if the connection is accepted, and else to the end of the free list; the event is pending again.
pub new_clients-free :
    {s : Server} (accepted : Bool) (x : Ptr) (xs ys : List Ptr)
    → IsPool s (x ∷ xs) ys
    → Ends
        (λ _ t.
          IsPool t (if accepted then xs else xs ++ x ∷ []) (if accepted then ys ++ x ∷ [] else ys)
          × (t.pending ≡ true))
        (event_server_new_clients accepted s)
unfolding event_server_new_clients
new_clients-free {s} true x xs ys v =
    let ne : (x == null) ≡ false = ground (arith, v.free_list.forward.1) in
    bind-Ends (on_free Ll.shift (record s { pending = false })) _ _ _
      (shift-IsPool x xs ys (IsPool-pending false v))
      λ c t (e, p, out, _).
        rw (e, ne)
          (link_busy-IsPool x xs ys (IsPool-pending true p) v.free_list.forward.1
            v.free_list.distinct.0 out)
new_clients-free {s} false x xs ys v =
    let ne : (x == null) ≡ false = ground (arith, v.free_list.forward.1) in
    bind-Ends (on_free Ll.shift (record s { pending = false })) _ _ _
      (shift-IsPool x xs ys (IsPool-pending false v))
      λ c t (e, p, out, _).
        rw (e, ne)
          (link_free-IsPool x xs ys (IsPool-pending true p) v.free_list.forward.1
            v.free_list.distinct.0 out)

-- A new connection while no client is free changes neither list, and the event is not pending.
pub new_clients-busy :
    {s : Server} (accepted : Bool) (ys : List Ptr)
    → IsPool s [] ys
    → Ends (λ _ t. IsPool t [] ys × (t.pending ≡ false)) (event_server_new_clients accepted s)
unfolding event_server_new_clients
new_clients-busy {s} accepted ys v =
    let s0 = record s { pending = false } in
    bind-Ends (on_free Ll.shift s0) _ _ _ (shift_empty-IsPool ys (IsPool-pending false v))
      λ c t (e, p, q). rw e (p, q)

-- The part of server_free_client behind its test, whatever the test has said.
pub free_known_lem :
    {s : Server} (was_empty : Bool) (xs ys : List Ptr) (c : Ptr) (zs : List Ptr)
    → IsPool s xs (ys ++ c ∷ zs)
    → Ends
        (λ _ t.
          IsPool t (xs ++ c ∷ []) (ys ++ zs)
          × (t.pending ≡ (if was_empty then true else s.pending)))
        (free_known was_empty c s)
unfolding free_known
free_known_lem {s} was_empty xs ys c zs v =
    bind-Ends (on_busy (Ll.unlink c) s) _ _ _ (unlink-IsPool xs ys c zs v)
      λ _ t (p, ne, out_x, out, same).
        bind-Ends (on_free (Ll.link c) t) _ _ _ (link_free-IsPool c xs (ys ++ zs) p ne out_x out)
          λ _ u (q, same'). elim (Bool-cases was_empty) [
            | inl e ↦ rw e (IsPool-pending true q, refl)
            | inr e ↦ rw e (q, same' ∙ same)
          ]

-- A busy client that is freed goes to the end of the free list, and the others keep their order.
-- The event becomes pending if no client was free, and else stays as it is.
pub free_client_lem :
    {s : Server} (xs ys : List Ptr) (c : Ptr) (zs : List Ptr)
    → IsPool s xs (ys ++ c ∷ zs)
    → Ends
        (λ _ t.
          IsPool t (xs ++ c ∷ []) (ys ++ zs)
          × (t.pending ≡ (if empty s.free_clients then true else s.pending)))
        (server_free_client c s)
unfolding server_free_client
free_client_lem {s} xs ys c zs v = free_known_lem (empty s.free_clients) xs ys c zs v
