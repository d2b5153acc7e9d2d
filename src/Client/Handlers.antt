-- ===== src/Client/Handlers.antt =====
-- The handlers of src/gvar/geostreamd/client.c, in the styles EVENTS and THREADS, as the calls that
-- they make of libevent, pthread, the cache and the server.
use qjhart_geostreams.Prelude.{
  ℕ, ◌+◌, Bool, true, false, Option, none, some, List, [], ◌∷◌, ◌++◌, ◌&&◌, ◌||◌, ◌==◌,
  if◌then◌else◌,
}
use qjhart_geostreams.Buffer
use qjhart_geostreams.Buffer.{Buffer, write_to_fd}
use qjhart_geostreams.Request.{Method, get, Request, request_close}
use qjhart_geostreams.Request.Parse.{minus_one}
use qjhart_geostreams.Client.Read.{working, closed}

-- `enum multi_type`.
pub data Style : Type 0 where
  threads events : Style

-- `fd` of `struct cfile`: 0, -1 once the file is mapped and closed, or a descriptor.
pub data FileFd : Type 0 where
  unset mapped : FileFd
  opened : ℕ → FileFd

-- The fields of `struct client` that the handlers work on. `file` is `cfile`, none for NULL.
pub record Conn : Type 0 where
  pub request : Request
  pub buffer : Buffer
  pub keep_alive : Bool
  pub response : ℕ
  pub fd : ℕ
  pub file : Option FileFd
  pub content_length : ℕ
  pub of_offset : ℕ
  pub write_style : Style
  pub req_style : Style

pub data Handler : Type 0 where
  request_handler response_handler sendfile_handler : Handler

-- The calls. `prepare_headers` is the call of client_prepare_headers, which `Headers` has; here the
-- buffer that it leaves is an argument.
pub data Call : Type 0 where
  close_file : FileFd → Call
  close : ℕ → Call
  cache_file_done : Call
  event_set : Handler → Call
  event_add : Call
  create_sendfile_thread : Call
  free_client : Call
  client_cork : Bool → Call
  prepare_headers : Call
  send_file : Call

-- The first part of client_reset_or_free.
unfoldable pub file_calls : Option FileFd → List Call
file_calls none = []
file_calls (some unset) = cache_file_done ∷ []
file_calls (some fd) = close_file fd ∷ cache_file_done ∷ []

unfoldable pub keep_calls : Style → List Call
keep_calls events = event_set request_handler ∷ event_add ∷ []
keep_calls threads = []

unfoldable pub drop_calls : ℕ → List Call
drop_calls fd = if fd == 0 then free_client ∷ [] else close fd ∷ free_client ∷ []

-- `c->cfile->fd = 0`.
abbrev pub forget_fd : Option FileFd → Option FileFd
forget_fd none = none
forget_fd (some fd) = some unset

unfoldable pub client_reset_or_free : Conn → Bool → List Call × Conn
unfolding file_calls keep_calls drop_calls
client_reset_or_free c keep = (
  file_calls c.file ++ (if keep then keep_calls c.req_style else drop_calls c.fd),
  record c {
    buffer = Buffer.reset c.buffer;
    request = request_close c.request;
    content_length = 0;
    of_offset = 0;
    file = forget_fd c.file;
  },
)

-- `response` is the value of client_request, `c` the client that it left, and `prepared` the buffer
-- that client_prepare_headers leaves.
unfoldable pub on_request : Conn → ℕ → Buffer → List Call × Conn
on_request c response prepared =
    let c' = record c { response = response } in
    if response == closed
    then client_reset_or_free c' false
    else if response == minus_one || response == working
    then (event_add ∷ [], c')
    else (
      prepare_headers ∷ event_set response_handler ∷ event_add ∷ [],
      record c' { buffer = prepared },
    )

abbrev pub is_get : Method → Bool
is_get get = true
is_get _ = false

unfoldable pub response_sent : Conn → List Call × Conn
response_sent c =
    if is_get c.request.method && c.response == 200
    then elim c.write_style [
      | events ↦ (client_cork true ∷ event_set sendfile_handler ∷ event_add ∷ [], c)
      | threads ↦ (create_sendfile_thread ∷ [], c)
    ]
    else client_reset_or_free c c.keep_alive

-- Behind buffer_write_to_fd.
unfoldable pub after_write : Conn → Option ℕ → List Call × Conn
unfolding response_sent
after_write c none = client_reset_or_free c false
after_write c (some n) =
    if Buffer.empty c.buffer
    then response_sent c
    else (event_set response_handler ∷ event_add ∷ [], c)

-- `accepted` is what `write` answers.
unfoldable pub on_send_response : Conn → Option ℕ → List Call × Conn
unfolding after_write
on_send_response c accepted =
    let (count, out, b) = write_to_fd c.buffer accepted in
    after_write (record c { buffer = b }) count

-- What client_sendfile comes to: an EAGAIN, another error, or a count, which it has added to
-- `of_offset`.
pub data Sent : Type 0 where
  again error : Sent
  count : ℕ → Sent

unfoldable pub on_sendfile : Conn → Sent → List Call × Conn
on_sendfile c again = (event_add ∷ [], c)
on_sendfile c error =
    let (calls, c') = client_reset_or_free c false in (client_cork false ∷ calls, c')
on_sendfile c (count n) =
    let c1 = record c { of_offset = c.of_offset + n } in
    if c1.of_offset == c1.content_length
    then (let (calls, c') = client_reset_or_free c1 c.keep_alive in (client_cork false ∷ calls, c'))
    else (event_add ∷ [], c1)

abbrev pub failed : Sent → Bool
failed (count n) = false
failed _ = true

-- `pthread_client_sendfile`.
unfoldable pub sendfile_thread : Conn → Sent → List Call × Conn
sendfile_thread c sent =
    let c1 = if failed sent then record c { keep_alive = false } else c in
    let (calls, c') = client_reset_or_free c1 c1.keep_alive in
    (client_cork true ∷ send_file ∷ client_cork false ∷ calls, c')

-- The inner loop of `pthread_client_request`, over what `write` answers, with one entry for each
-- call of buffer_write_to_fd, read or not: whether it ends in -1.
-- `none` is a loop that has not come to its end when the answers are used up.
unfoldable pub send_headers : List (Option ℕ) → Buffer → Option (Bool × Buffer)
send_headers [] b = none
send_headers (answer ∷ answers) b =
    let (n, out, b') = write_to_fd b answer in
    let rest = send_headers answers b' in
    elim n [ none ↦ some (true, b') | some k ↦ if k == 0 then some (false, b') else rest ]

-- One round of the outer loop: what client_request does, which is its value and the client it
-- leaves, the buffer that client_prepare_headers leaves, and the answers of `write`.
pub record Round : Type 0 where
  pub request : Conn → ℕ × Conn
  pub prepared : Buffer
  pub writes : List (Option ℕ)

unfoldable pub file_sent : Conn → List Call
file_sent c =
    if is_get c.request.method && c.response == 200
    then client_cork true ∷ send_file ∷ client_cork false ∷ []
    else []

-- The calls of a thread, and whether it has come to its end: it has not when a call of `read` or
-- `write` has not returned, which is where the rounds or the answers end.
unfoldable pub thread_end : Conn → List Call × Bool
thread_end c = ((client_reset_or_free c false).0, true)

-- Behind the reset: the next round, or the end.
abbrev pub next_calls : (Conn → List Call × Bool) → Bool → Conn → List Call × Bool
next_calls next keep c = if keep then next c else thread_end c

unfoldable pub after_headers :
    (Conn → List Call × Bool) → Conn → Option (Bool × Buffer) → List Call × Bool
unfolding thread_end
after_headers next c none = (prepare_headers ∷ [], false)
after_headers next c (some (true, b)) =
    let (calls, ended) = thread_end (record c { buffer = b }) in (prepare_headers ∷ calls, ended)
after_headers next c (some (false, b)) =
    let (calls, c') = client_reset_or_free (record c { buffer = b }) true in
    let (calls', ended) = next_calls next c.keep_alive c' in
    (prepare_headers ∷ (file_sent c ++ (calls ++ calls')), ended)

-- `pthread_client_request`.
unfoldable pub on_request_thread : List Round → Conn → List Call × Bool
unfolding after_headers thread_end
on_request_thread [] c = ([], false)
on_request_thread (x ∷ xs) c =
    let (response, c1) = x.request c in
    let c2 = record c1 { response = response } in
    if response == closed || response == minus_one
    then thread_end c2
    else after_headers (on_request_thread xs) (record c2 { buffer = x.prepared })
        (send_headers x.writes x.prepared)
