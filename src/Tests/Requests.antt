-- ===== src/Tests/Requests.antt =====
-- The request `GET /a HTTP/1.1` with one header line.
use qjhart_geostreams.Prelude.{
  ℕ, ◌≡◌, ◌≢◌, refl, arith, true, false, none, some, List, [], ◌∷◌, ◌++◌, codes,
}
use qjhart_geostreams.Buffer.{Buffer}
use qjhart_geostreams.Buffer.Fifo.{IsPlain, contents}
use qjhart_geostreams.Request.{Request, State, Method}
use qjhart_geostreams.Request.Scan.{request_scan, walk}
use qjhart_geostreams.Request.Grammar.{request_text, request_scan-walk, walk-request}
use qjhart_geostreams.Request.HeaderList.{connection_loop}
use qjhart_geostreams.Request.HeaderList.Tokens.{
  more_tokens, settled, asked, connection_loop-tokens,
}
use qjhart_geostreams.Request.Parse.{request_parse, store_status, out_of_fuel, method_named}
use qjhart_geostreams.Request.Parse.Accepts.{apply_headers, with_words, request_parse-request}
use qjhart_geostreams.Request.Parse.Faults.{request_parse_ends}

abbrev line : List (ℕ × List ℕ)
line = (b'H', codes "ost: x") ∷ []

abbrev text : List ℕ → List ℕ
text rest = request_text b'G' (codes "ET") (codes "/a") (codes "HTTP/1.1") line rest

walk-request_example : walk State.start (text (b'x' ∷ b'y' ∷ [])) ≡ (State.req, b'y' ∷ [])
walk-request_example =
    walk-request b'G' (codes "ET") (codes "/a") (codes "HTTP/1.1") line (b'x' ∷ b'y' ∷ []) refl
      (ground arith) (ground arith) (ground arith) (ground arith)

abbrev held : Buffer
held = record {
  rewindable = true;
  scratch = none;
  mem = b'G' ∷ b'E' ∷ b'T' ∷ b' ' ∷ [];
  r = 0;
  w = 4;
}

abbrev fresh : Request
fresh = record {
  state = State.start;
  method = Method.not_set;
  uri = [];
  version = none;
  version_major = 0;
  version_minor = 0;
  status_line = none;
  status_line_z = 0;
  keep_alive = false;
  from = [];
  host = [];
  user_agent = [];
}

request_scan-walk_example :
    (b' : Buffer) × (request_scan fresh held
      ≡ some (
        (walk State.start (contents held)).0,
        record fresh { state = (walk State.start (contents held)).0 },
        b',
      ))
    × (contents b' ≡ (walk State.start (contents held)).1)
    × IsPlain b'
    × (b'.mem ≡ held.mem)
    × (b'.rewindable ≡ true)
request_scan-walk_example =
    request_scan-walk fresh held (record { r_le_w = omega arith; w_le_size = omega arith })

-- The request after the copy of the request line.
abbrev copied : Request
copied = record fresh { status_line = some (codes "GET /a HTTP/1.1"); status_line_z = 95 }

request_parse-request_example :
    request_parse (λ u. true) true fresh (text (b'x' ∷ []))
    ≡ apply_headers line (with_words copied Method.get (codes "/a") (codes "HTTP/1.1")) []
request_parse-request_example =
    request_parse-request (λ u. true) true fresh copied b'G' (codes "ET") (codes "/a")
      (codes "HTTP/1.1") line (b'x' ∷ []) Method.get (ground arith) (ground arith) (ground arith)
      (ground arith) (unfold method_named in refl) refl refl refl (unfold store_status in refl)

connection_loop-tokens_example :
    connection_loop 40 true (codes "keep-alive" ++ more_tokens (codes "Close" ∷ [])) false
    ≡ some (settled false (asked true (codes "keep-alive" ∷ codes "Close" ∷ [])))
connection_loop-tokens_example =
    connection_loop-tokens 40 true (codes "keep-alive") (codes "Close" ∷ []) false (ground arith)
      (omega arith)

request_parse_ends_example :
    request_parse (λ u. true) true fresh (codes "GET /a HTTP/1.1") ≢ out_of_fuel
request_parse_ends_example = request_parse_ends (λ u. true) true fresh (codes "GET /a HTTP/1.1")
