-- ===== src/Client/Continues.antt =====
-- How a connection of src/gvar/geostreamd/client.c goes on after each of its handlers.
use qjhart_geostreams.Prelude.{
  ℕ, ◌+◌, ◌≡◌, ◌∙◌, refl, Bool, true, false, Option, none, some, List, [], ◌∷◌, ◌++◌, arith,
}
use qjhart_geostreams.Buffer.{Buffer, write_to_fd}
use qjhart_geostreams.Client.Handlers.{
  events, FileFd, unset, mapped, opened, Conn, Call, event_add, create_sendfile_thread, free_client,
  cache_file_done, file_calls, keep_calls, drop_calls, client_reset_or_free, on_request,
  response_sent, after_write, on_send_response, Sent, again, error, count, on_sendfile,
  sendfile_thread,
}

-- Whether a call lets the connection go on, or gives it up.
abbrev pub goes_on : Call → ℕ
goes_on event_add = 1
goes_on create_sendfile_thread = 1
goes_on free_client = 1
goes_on _ = 0

abbrev pub frees : Call → ℕ
frees free_client = 1
frees _ = 0

abbrev pub releases : Call → ℕ
releases cache_file_done = 1
releases _ = 0

abbrev pub total : (Call → ℕ) → List Call → ℕ
total f [] = 0
total f (x ∷ xs) = f x + total f xs

pub total-append : (f : Call → ℕ) (xs ys : List Call) → total f (xs ++ ys) ≡ total f xs + total f ys
total-append f [] ys = omega arith
total-append f (x ∷ xs) ys = omega (arith, total-append f xs ys)

file_calls-goes_on : (o : Option FileFd) → total goes_on (file_calls o) ≡ 0
unfolding file_calls
file_calls-goes_on none = refl
file_calls-goes_on (some unset) = refl
file_calls-goes_on (some mapped) = refl
file_calls-goes_on (some (opened n)) = refl

drop_calls-goes_on : (fd : ℕ) → total goes_on (drop_calls fd) ≡ 1
unfolding drop_calls
drop_calls-goes_on fd = ground arith

-- A reset with a client in the style EVENTS waits for the next request or frees the client.
reset-goes_on :
    (c : Conn) (keep : Bool)
    → c.req_style ≡ events
    → total goes_on (client_reset_or_free c keep).0 ≡ 1
unfolding client_reset_or_free
reset-goes_on c true h =
    total-append goes_on (file_calls c.file) (keep_calls c.req_style)
    ∙ unfold keep_calls in rw (file_calls-goes_on c.file, h)
reset-goes_on c false h =
    total-append goes_on (file_calls c.file) (drop_calls c.fd)
    ∙ rw (file_calls-goes_on c.file, drop_calls-goes_on c.fd)

-- A call from libevent or, for `thread`, a thread that pthread_create started, with what the calls
-- in it return.
pub data Invocation : Type 0 where
  request : ℕ → Buffer → Invocation
  send_response : Option ℕ → Invocation
  sendfile : Sent → Invocation
  thread : Sent → Invocation

unfoldable pub handle : Invocation → Conn → List Call × Conn
handle (request response prepared) c = on_request c response prepared
handle (send_response accepted) c = on_send_response c accepted
handle (sendfile sent) c = on_sendfile c sent
handle (thread sent) c = sendfile_thread c sent

response_sent-goes_on : (c : Conn) → c.req_style ≡ events → total goes_on (response_sent c).0 ≡ 1
unfolding response_sent
response_sent-goes_on c h = ground (arith, reset-goes_on c c.keep_alive h)

after_write-goes_on :
    (c : Conn) (o : Option ℕ) → c.req_style ≡ events → total goes_on (after_write c o).0 ≡ 1
unfolding after_write
after_write-goes_on c none h = reset-goes_on c false h
after_write-goes_on c (some n) h = ground (arith, response_sent-goes_on c h)

-- Whatever the calls in it return, each of event_client_request, event_client_send_response,
-- event_client_sendfile and pthread_client_sendfile lets a client in the style EVENTS go on in
-- exactly one way: it adds one event, starts one thread, or frees the client, once.
pub handle-goes_on :
    (i : Invocation) (c : Conn) → c.req_style ≡ events → total goes_on (handle i c).0 ≡ 1
unfolding handle on_request on_send_response on_sendfile sendfile_thread
handle-goes_on (request response prepared) c h =
    ground (arith, reset-goes_on (record c { response = response }) false h)
handle-goes_on (send_response accepted) c h =
    after_write-goes_on _ (write_to_fd c.buffer accepted).0 h
handle-goes_on (sendfile again) c h = refl
handle-goes_on (sendfile error) c h = omega (arith, reset-goes_on c false h)
handle-goes_on (sendfile (count n)) c h =
    ground (arith, reset-goes_on (record c { of_offset = c.of_offset + n }) c.keep_alive h)
handle-goes_on (thread again) c h =
    omega (arith, reset-goes_on (record c { keep_alive = false }) false h)
handle-goes_on (thread error) c h =
    omega (arith, reset-goes_on (record c { keep_alive = false }) false h)
handle-goes_on (thread (count n)) c h = omega (arith, reset-goes_on c c.keep_alive h)
