-- ===== src/Request/Parse.antt =====
-- request_parse of src/gvar/geostreamd/request.c. The input is what is left of the memory from the
-- pointer `input` on: bytes that were consumed are written but not read again. A text cut off by a
-- NUL that the code writes is a list of its own. `fault` is an access before or behind the memory.
pub mod Accepts
pub mod Faults
use qjhart_geostreams.Prelude.{
  ℕ, zero, suc, ◌+◌, ◌-◌, ◌%◌, ◌^◌, Bool, true, false, not, Option, none, some, List, [], ◌∷◌, ◌&&◌,
  ◌||◌, ltb, ◌==◌, if◌then◌else◌, length, get_or, take, drop, same, codes,
}
use qjhart_geostreams.Request.{Method, Request}
use qjhart_geostreams.Request.HeaderList.{connection_loop}
use qjhart_geostreams.Request.Scan.{cr, lf}

-- The codes that request_parse returns.
abbrev pub bad_request : ℕ
bad_request = 400

abbrev pub method_not_allowed : ℕ
method_not_allowed = 405

abbrev pub good_request : ℕ
good_request = 2

-- -1 as a `response_code`.
abbrev pub minus_one : ℕ
minus_one = 2 ^ 32 - 1

pub data Outcome : Type 0 where
  returned : ℕ → Request → Outcome
  fault : Outcome
  out_of_fuel : Outcome

-- `strchr` on memory of which it is not known where the next NUL is: what stands before the byte
-- and what behind it, no such byte before the NUL, or a run past the end of the memory.
pub data Found : Type 0 where
  at : List ℕ → List ℕ → Found
  nowhere : Found
  past_end : Found

abbrev pub found_behind : ℕ → Found → Found
found_behind x (at before behind) = at (x ∷ before) behind
found_behind x nowhere = nowhere
found_behind x past_end = past_end

unfoldable pub find : ℕ → List ℕ → Found
find c [] = past_end
find c (x ∷ xs) =
    if x == c then at [] xs else if x == 0 then nowhere else found_behind x (find c xs)

-- `strchr` on a text.
unfoldable pub cut : ℕ → List ℕ → Option (List ℕ × List ℕ)
cut c [] = none
cut c (x ∷ xs) =
    if x == c
    then some ([], xs)
    else elim (cut c xs) [ none ↦ none | some (before, behind) ↦ some (x ∷ before, behind) ]

-- The line before `\n` as a text: its last byte, CR or not, is overwritten by a NUL.
unfoldable pub chop : List ℕ → List ℕ
chop [] = []
chop (x ∷ []) = []
chop (x ∷ y ∷ ys) = x ∷ chop (y ∷ ys)

-- The copy of the request line into the block at `status_line`. `block` says whether `realloc`
-- succeeds.
unfoldable pub store_status : Bool → Request → List ℕ → Outcome
store_status block r text =
    if ltb (r.status_line_z + 1) (length text)
    then if block
      then returned good_request
          (record r { status_line = some text; status_line_z = length text + 80 })
      else returned minus_one (record r { status_line = none })
    else if ltb r.status_line_z (length text + 1)
    then fault
    else returned good_request (record r { status_line = some text })

-- The ladder of `strcmp`: the method, or the code of the refusal.
pub data Named : Type 0 where
  method : Method → Named
  refused : ℕ → Named

unfoldable pub method_named : List ℕ → Named
method_named name =
    if same name (codes "HEAD")
    then method Method.head
    else if same name (codes "GET")
    then method Method.get
    else if same name (codes "POST")
    then method Method.post
    else if same name (codes "OPTIONS")
        || same name (codes "PUT")
        || same name (codes "DELETE")
        || same name (codes "TRACE")
        || same name (codes "CONNECT")
    then refused method_not_allowed
    else refused 501

-- `*(s + k) - 0x30`, an `int`; a `char` is signed.
abbrev pub digit : ℕ → ℕ
digit c = ((if ltb c 128 then c else c + 2 ^ 32 - 256) + 2 ^ 32 - 48) % 2 ^ 32

-- `while (*s == ' ') s++`.
unfoldable pub skip_blanks : List ℕ → List ℕ
skip_blanks [] = []
skip_blanks (c ∷ s) = if c == b' ' then skip_blanks s else c ∷ s

abbrev pub header_length : ℕ
header_length = 80

abbrev pub is_http11 : Request → Bool
is_http11 r = r.version_major == 1 && r.version_minor == 1

-- The `switch` on the length of a header's name. `strncpy` keeps the first 80 bytes.
unfoldable pub set_header : Request → List ℕ → List ℕ → Option Request
set_header r name value =
    if same name (codes "From")
    then some (record r { from = take header_length value })
    else if same name (codes "Host")
    then some (record r { host = take header_length value })
    else if same name (codes "User-Agent")
    then some (record r { user_agent = take header_length value })
    else if same name (codes "Connection")
    then elim (connection_loop (suc (length value)) (is_http11 r) value r.keep_alive) [
      | none ↦ none
      | some k ↦ some (record r { keep_alive = k })
    ]
    else some r

-- The name and the value of one header line, `none` where it has no colon.
unfoldable pub parse_header : Request → List ℕ → Option (List ℕ × List ℕ)
parse_header r text = elim (cut b':' text) [
  | none ↦ none
  | some (name, value) ↦ some (name, skip_blanks value)
]

-- The rest of one round of the loop, with the rounds that follow as `continue`.
unfoldable pub with_request : (Request → List ℕ → Outcome) → List ℕ → Option Request → Outcome
with_request continue next none = out_of_fuel
with_request continue next (some r) = continue r next

unfoldable pub with_header :
    (Request → List ℕ → Outcome) → Request → List ℕ → Option (List ℕ × List ℕ) → Outcome
with_header continue r next none = returned bad_request r
with_header continue r next (some (name, value)) =
    with_request continue next (set_header r name value)

-- It ends at an empty line, where the NUL goes to the byte before the line, which is consumed, and
-- at a line of one byte.
unfoldable pub header_round : (Request → List ℕ → Outcome) → Request → Found → Outcome
header_round continue r nowhere = returned good_request r
header_round continue r past_end = fault
header_round continue r (at [] next) = returned good_request r
header_round continue r (at (x ∷ []) next) = returned good_request r
header_round continue r (at (x ∷ y ∷ ys) next) =
    with_header continue r next (parse_header r (chop (x ∷ y ∷ ys)))

-- The `while` loop over the header lines.
unfoldable pub parse_headers : ℕ → Request → List ℕ → Outcome
parse_headers zero r input = out_of_fuel
parse_headers (suc fuel) r input = header_round (parse_headers fuel) r (find lf input)

-- The version word: its length, its prefix and its two digits are looked at.
unfoldable pub parse_version : Request → List ℕ → List ℕ → Outcome
parse_version r0 v next =
    let r = record r0 { version = some v } in
    let major = digit (get_or v 5 0) in
    let minor = digit (get_or v 7 0) in
    if not (length v == 8) || not (same (take 5 v) (codes "HTTP/"))
    then returned bad_request r
    else parse_headers (suc (length next))
        (record r {
          version_major = major;
          version_minor = minor;
          keep_alive = if major == 1 && minor == 1 then true else r.keep_alive;
        })
        next

-- What stands behind the method, cut at the first blank: with none this is a simple request.
-- `canonical` is the answer of `uri_realloc` of the uri library.
unfoldable pub parse_uri :
    (List ℕ → Bool) → Request → List ℕ → List ℕ → Option (List ℕ × List ℕ) → Outcome
parse_uri canonical r words next none =
    if canonical words
    then returned good_request
        (record r { uri = words; version = none; version_major = 0; version_minor = 0 })
    else returned bad_request (record r { uri = words })
parse_uri canonical r words next (some (u, v)) =
    if canonical u
    then parse_version (record r { uri = u }) v next
    else returned bad_request (record r { uri = u })

unfoldable pub parse_method : (List ℕ → Bool) → Request → List ℕ → List ℕ → Named → Outcome
parse_method canonical r words next (refused code) = returned code r
parse_method canonical r words next (method m) =
    parse_uri canonical (record r { method = m }) words next (cut b' ' words)

-- The request line, cut at the first blank.
unfoldable pub parse_words : (List ℕ → Bool) → Request → List ℕ → Option (List ℕ × List ℕ) → Outcome
parse_words canonical r next none = returned bad_request r
parse_words canonical r next (some (name, words)) =
    parse_method canonical r words next (method_named name)

-- The request line behind the copy at `status_line`.
unfoldable pub parse_text : (List ℕ → Bool) → List ℕ → List ℕ → Outcome → Outcome
parse_text canonical text next fault = fault
parse_text canonical text next out_of_fuel = out_of_fuel
parse_text canonical text next (returned code r) =
    if code == good_request then parse_words canonical r next (cut b' ' text) else returned code r

-- An empty first line makes `*--next` read and write before the memory.
unfoldable pub parse_line : (List ℕ → Bool) → Bool → Request → Found → Outcome
parse_line canonical block r nowhere = returned bad_request r
parse_line canonical block r past_end = fault
parse_line canonical block r (at [] next) = fault
parse_line canonical block r (at (x ∷ xs) next) =
    let text = chop (x ∷ xs) in parse_text canonical text next (store_status block r text)

unfoldable pub request_parse : (List ℕ → Bool) → Bool → Request → List ℕ → Outcome
request_parse canonical block r input = parse_line canonical block r (find lf input)
