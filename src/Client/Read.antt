-- ===== src/Client/Read.antt =====
-- client_request of src/gvar/geostreamd/client.c: the bytes of a request come in, and once it is
-- whole it is parsed and served. The NULs that request_parse writes into the buffer's memory are
-- left out here: the buffer is reset before it is read again, save where `realloc` fails.
use qjhart_geostreams.Prelude.{ℕ, Bool, Option, none, some, List, ◌||◌, ◌==◌, if◌then◌else◌, drop}
use qjhart_geostreams.Buffer.{Buffer, rewind, read_from_fd}
use qjhart_geostreams.Request.{State, Request}
use qjhart_geostreams.Request.Scan.{request_scan}
use qjhart_geostreams.Request.Parse.{
  Outcome, returned, out_of_fuel, request_parse, good_request, minus_one, bad_request,
}
use qjhart_geostreams.Client.Serve.{Host, Env, Answer, client_request_serv}

-- The codes that never reach a client.
abbrev pub working : ℕ
working = 0

abbrev pub closed : ℕ
closed = 1

abbrev pub buffer_size : ℕ
buffer_size = 2048

-- The fields of `struct client` that a request works on.
pub record Client : Type 0 where
  pub request : Request
  pub buffer : Buffer
  pub keep_alive : Bool

-- What the call comes to: a code, or the answer that client_request_serv chose.
pub data Result : Type 0 where
  status : ℕ → Client → Result
  answered : Answer → Client → Result
  fault : Result
  stuck : Result

-- What the process and its libraries answer: `canonical` is `uri_realloc`, `block` a `realloc`.
pub record World : Type 0 where
  pub env : Env
  pub canonical : List ℕ → Bool
  pub block : Bool

-- Behind request_parse.
unfoldable pub parsed : World → Host → List Host → Client → Outcome → Result
parsed w s others c Outcome.fault = fault
parsed w s others c out_of_fuel = stuck
parsed w s others c (returned rc r) =
    if rc == good_request
    then answered (client_request_serv w.env s others r)
        (record c { request = r; keep_alive = r.keep_alive || c.keep_alive })
    else status rc (record c { request = r })

-- The buffer of a whole request, rewound.
unfoldable pub rewound : World → Host → List Host → Client → Option Buffer → Result
rewound w s others c none = status 414 c
rewound w s others c (some b) =
    parsed w s others (record c { buffer = b })
      (request_parse w.canonical w.block c.request (drop b.r b.mem))

-- Behind request_scan.
unfoldable pub scanned : World → Host → List Host → Client → State → Result
scanned w s others c State.err = status bad_request c
scanned w s others c State.req = rewound w s others c (rewind c.buffer)
scanned w s others c _ = status working c

unfoldable pub after_scan :
    World → Host → List Host → Client → Option (State × Request × Buffer) → Result
after_scan w s others c none = stuck
after_scan w s others c (some (st, r, b)) =
    scanned w s others (record c { request = r; buffer = b }) st

-- Behind buffer_read_from_fd.
unfoldable pub after_read : World → Host → List Host → Client → Option ℕ → Result
after_read w s others c none = status minus_one c
after_read w s others c (some n) =
    if n == 0
    then status closed c
    else if n == buffer_size
    then status 414 c
    else after_scan w s others c (request_scan c.request c.buffer)

-- `input` is what `read` delivers, `none` for -1.
unfoldable pub client_request : World → Host → List Host → Client → Option (List ℕ) → Result
client_request w s others c input =
    let (count, b) = read_from_fd c.buffer input in
    after_read w s others (record c { buffer = b }) count
