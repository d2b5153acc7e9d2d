-- ===== src/Tests/Clients.antt =====
-- A client with a buffer of 2048 bytes, and a host among two.
use qjhart_geostreams.Prelude.{
  zero, suc, ℕ, ◌≡◌, ◌<◌, inl, refl, arith, true, false, Bool, none, some, List, [], ◌∷◌, codes,
  replicate, length-replicate, ◌==◌,
}
use qjhart_geostreams.Buffer.{Buffer, write_to_fd, can_read}
use qjhart_geostreams.Request.{Request, State, Method}
use qjhart_geostreams.Request.Grammar.{request_text}
use qjhart_geostreams.Request.Parse.{method_named, store_status}
use qjhart_geostreams.Request.Parse.Accepts.{apply_headers, with_words}
use qjhart_geostreams.Client.Read.{Client, World, client_request, parsed}
use qjhart_geostreams.Client.Whole.{IsWaiting, scanned_client, client_request-request}
use qjhart_geostreams.Client.Serve.{Host, Redirects, client_request_serv, serv-Redirects}
use qjhart_geostreams.Client.Send.{Transfer, send_events, reset, send_events-file}
use qjhart_geostreams.Client.Handlers.{events, mapped, Conn, on_request_thread, Round}
use qjhart_geostreams.Client.Continues.{request, handle, total, goes_on, frees, handle-goes_on}
use qjhart_geostreams.Client.Thread.{freed, on_request_thread-frees}
use qjhart_geostreams.Client.Headers.{Printing}
use qjhart_geostreams.Buffer

abbrev fresh : Request
fresh = record {
  state = State.start;
  method = Method.not_set;
  uri = [];
  version = none;
  version_major = 0;
  version_minor = 0;
  status_line = none;
  status_line_z = 0;
  keep_alive = false;
  from = [];
  host = [];
  user_agent = [];
}

abbrev waiting : Client
waiting = record {
  request = fresh;
  buffer = record { rewindable = true; scratch = none; mem = replicate 2048 0; r = 0; w = 0 };
  keep_alive = false;
}

waiting-IsWaiting : IsWaiting waiting
waiting-IsWaiting = record {
  start = refl;
  rewindable = refl;
  r = refl;
  w = refl;
  block = length-replicate {A = ℕ} 2048 0;
}

abbrev line : List (ℕ × List ℕ)
line = (b'H', codes "ost: x") ∷ []

abbrev other_host : Host
other_host = record {
  files = codes "/b";
  hostname = codes "other";
  port = 81;
  document_root = codes "/srv";
}

abbrev this_host : Host
this_host = record {
  files = codes "/c";
  hostname = codes "this";
  port = 80;
  document_root = codes "/var/www";
}

abbrev first_byte : List ℕ → List ℕ → Bool
first_byte (x ∷ y ∷ ys) (z ∷ w ∷ zs) = y == w
first_byte _ _ = false

abbrev world : World
world = record {
  env = record { matches = first_byte; path = λ u. u; pick = λ n. 0; lookup = λ fn m. inl 10 };
  canonical = λ u. true;
  block = true;
}

abbrev copied : Request
copied = record fresh {
  state = State.req;
  status_line = some (codes "GET /b HTTP/1.1");
  status_line_z = 95;
}

client_request-request_example :
    (b' : Buffer) × (client_request world this_host
        (other_host ∷ [])
        waiting
        (some (request_text b'G' (codes "ET") (codes "/b") (codes "HTTP/1.1") line []))
      ≡ parsed world this_host
          (other_host ∷ [])
          (scanned_client waiting b')
          (apply_headers line (with_words copied Method.get (codes "/b") (codes "HTTP/1.1")) []))
client_request-request_example =
    client_request-request world this_host (other_host ∷ []) waiting copied b'G' (codes "ET")
      (codes "/b") (codes "HTTP/1.1") line Method.get waiting-IsWaiting (omega arith) (ground arith)
      (ground arith) (ground arith) (ground arith) (unfold method_named in refl) refl refl refl
      (unfold store_status in refl)

abbrev asking : Request
asking = record fresh { method = Method.get; uri = codes "/b" }

pick_below : (n : ℕ) → 0 < n → world.env.pick n < n
pick_below n h = h

serv-Redirects_example :
    Redirects world.env
      (codes "/b")
      (other_host ∷ [])
      (client_request_serv world.env this_host (other_host ∷ []) asking)
serv-Redirects_example =
    serv-Redirects world.env this_host (other_host ∷ []) asking pick_below (omega arith) (inl refl)
      refl

abbrev transfer : Transfer
transfer = record {
  file = codes "abcdef";
  mapped = false;
  open_fd = true;
  content_length = 6;
  of_offset = 0;
}

send_events-file_example : send_events true (2 ∷ 4 ∷ []) transfer ≡ (reset true, codes "abcdef")
send_events-file_example =
    send_events-file true (2 ∷ 4 ∷ []) transfer refl refl refl refl (omega arith) (ground arith)

abbrev conn : Conn
conn = record {
  request = record fresh { method = Method.get };
  buffer = record { rewindable = true; scratch = none; mem = 65 ∷ 66 ∷ 67 ∷ []; r = 0; w = 2 };
  keep_alive = false;
  response = 200;
  fd = 7;
  file = some mapped;
  content_length = 6;
  of_offset = 0;
  write_style = events;
  req_style = events;
}

handle-goes_on_example : total goes_on (handle (request 200 conn.buffer) conn).0 ≡ 1
handle-goes_on_example = handle-goes_on (request 200 conn.buffer) conn refl

abbrev round : Round
round = record { request = λ c. (200, conn); prepared = conn.buffer; writes = some 2 ∷ some 0 ∷ [] }

on_request_thread-frees_example :
    total frees (on_request_thread (round ∷ []) conn).0
    ≡ freed (on_request_thread (round ∷ []) conn).1
on_request_thread-frees_example = on_request_thread-frees (round ∷ []) conn

abbrev sent_buffer : Buffer
sent_buffer = record { rewindable = true; scratch = none; mem = 65 ∷ 66 ∷ 67 ∷ []; r = 2; w = 2 }

abbrev format : Printing
format = record {
  time_str = codes "Thu, 01 Jan 2004 00:00:00 GMT";
  uri_uri = codes "/a";
  stale = false;
  block = true;
}

abbrev zeros : ℕ → List ℕ
zeros zero = []
zeros (suc n) = 0 ∷ zeros n

abbrev roomy : Conn
roomy = record conn {
  buffer = record { rewindable = true; scratch = none; mem = zeros 400; r = 4; w = 9 };
}
