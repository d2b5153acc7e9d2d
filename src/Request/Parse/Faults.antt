-- ===== src/Request/Parse/Faults.antt =====
-- Where request_parse of src/gvar/geostreamd/request.c ends, and where it leaves its memory.
use qjhart_geostreams.Prelude.{
  ℕ, zero, suc, ◌<◌, ◌≡◌, ◌≢◌, Bool, not, Option, none, some, List, [], ◌∷◌, ◌||◌, ◌==◌, length,
  take, same, codes, arith, Bool-cases, inl, inr, subst, Option-cases,
}
use qjhart_geostreams.Request.{Request}
use qjhart_geostreams.Request.HeaderList.Elements.{connection_loop_ends}
use qjhart_geostreams.Request.Scan.{lf}
use qjhart_geostreams.Request.Parse.{
  good_request, Outcome, returned, fault, out_of_fuel, Found, at, nowhere, past_end, find,
  found_behind, chop, store_status, Named, method, refused, set_header, parse_headers, with_request,
  with_header, header_round, parse_method, parse_text, parse_line, parse_version, parse_uri,
  parse_words, request_parse, is_http11,
}

abbrev pub Ends : Outcome → Type 0
Ends out_of_fuel = ⊥
Ends _ = Unit

set_header_ends : (r : Request) (name value : List ℕ) → set_header r name value ≢ none
unfolding set_header
set_header_ends r name value = ground (
  arith,
  connection_loop_ends (suc (length value)) (is_http11 r) value r.keep_alive (omega arith),
)

-- What `find` leaves behind the byte is shorter than what it was given.
abbrev ShorterThan : ℕ → Found → Type 0
ShorterThan n nowhere = Unit
ShorterThan n past_end = Unit
ShorterThan n (at before behind) = length behind < n

found_behind-ShorterThan :
    (x n : ℕ) (o : Found) → ShorterThan n o → ShorterThan (suc n) (found_behind x o)
found_behind-ShorterThan x n nowhere h = tt
found_behind-ShorterThan x n past_end h = tt
found_behind-ShorterThan x n (at before behind) h = omega arith

find-ShorterThan : (c : ℕ) (xs : List ℕ) → ShorterThan (length xs) (find c xs)
unfolding find
find-ShorterThan c [] = tt
find-ShorterThan c (x ∷ xs) = elim (Bool-cases (x == c)) [
  | inl here ↦ rw here (omega arith)
  | inr more ↦ elim (Bool-cases (x == 0)) [
    | inl nul ↦ rw (more, nul) tt
    | inr go ↦
        rw (more, go) (found_behind-ShorterThan x (length xs) (find c xs) (find-ShorterThan c xs))
  ]
]

with_header-Ends :
    (k : Request → List ℕ → Outcome) (r : Request) (next : List ℕ) (o : Option (List ℕ × List ℕ))
    → ((r : Request) → Ends (k r next))
    → Ends (with_header k r next o)
unfolding with_header with_request
with_header-Ends k r next none h = tt
with_header-Ends k r next (some (name, value)) h = elim (Option-cases (set_header r name value)) [
  | inl e ↦ absurd (set_header_ends r name value e)
  | inr (r', e) ↦ rw e (h r')
]

header_round-Ends :
    (k : Request → List ℕ → Outcome) (r : Request) (n : ℕ) (o : Found)
    → ShorterThan n o
    → ((r : Request) (next : List ℕ) → length next < n → Ends (k r next))
    → Ends (header_round k r o)
unfolding header_round
header_round-Ends k r n nowhere s h = tt
header_round-Ends k r n past_end s h = tt
header_round-Ends k r n (at [] next) s h = tt
header_round-Ends k r n (at (x ∷ []) next) s h = tt
header_round-Ends k r n (at (x ∷ y ∷ ys) next) s h = with_header-Ends k r next _ (λ r'. h r' next s)

parse_headers-Ends :
    (fuel : ℕ) (r : Request) (input : List ℕ)
    → length input < fuel
    → Ends (parse_headers fuel r input)
unfolding parse_headers
parse_headers-Ends zero r input h = absurd (omega arith)
parse_headers-Ends (suc fuel) r input h =
    header_round-Ends (parse_headers fuel) r (length input) (find lf input)
      (find-ShorterThan lf input) (λ r' next s. parse_headers-Ends fuel r' next (omega arith))

parse_version-Ends : (r : Request) (v next : List ℕ) → Ends (parse_version r v next)
unfolding parse_version
parse_version-Ends r v next =
    elim (Bool-cases (not (length v == 8) || not (same (take 5 v) (codes "HTTP/")))) [
      | inl bad ↦ rw bad tt
      | inr ok ↦ rw ok (parse_headers-Ends (suc (length next)) _ next (omega arith))
    ]

parse_uri-Ends :
    (canonical : List ℕ → Bool) (r : Request) (words next : List ℕ) (o : Option (List ℕ × List ℕ))
    → Ends (parse_uri canonical r words next o)
unfolding parse_uri
parse_uri-Ends canonical r words next none = ground arith
parse_uri-Ends canonical r words next (some (u, v)) = elim (Bool-cases (canonical u)) [
  | inl good ↦ rw good (parse_version-Ends _ v next)
  | inr bad ↦ rw bad tt
]

parse_method-Ends :
    (canonical : List ℕ → Bool) (r : Request) (words next : List ℕ) (n : Named)
    → Ends (parse_method canonical r words next n)
unfolding parse_method
parse_method-Ends canonical r words next (refused code) = tt
parse_method-Ends canonical r words next (method m) = parse_uri-Ends canonical _ words next _

parse_words-Ends :
    (canonical : List ℕ → Bool) (r : Request) (next : List ℕ) (o : Option (List ℕ × List ℕ))
    → Ends (parse_words canonical r next o)
unfolding parse_words
parse_words-Ends canonical r next none = tt
parse_words-Ends canonical r next (some (name, words)) = parse_method-Ends canonical r words next _

store_status-Ends : (block : Bool) (r : Request) (text : List ℕ) → Ends (store_status block r text)
unfolding store_status
store_status-Ends block r text = ground arith

parse_text-Ends :
    (canonical : List ℕ → Bool) (text next : List ℕ) (o : Outcome)
    → Ends o
    → Ends (parse_text canonical text next o)
unfolding parse_text
parse_text-Ends canonical text next fault h = tt
parse_text-Ends canonical text next out_of_fuel h = h
parse_text-Ends canonical text next (returned code r) h = elim (Bool-cases (code == good_request)) [
  | inl good ↦ rw good (parse_words-Ends canonical r next _)
  | inr bad ↦ rw bad tt
]

parse_line-Ends :
    (canonical : List ℕ → Bool) (block : Bool) (r : Request) (o : Found)
    → Ends (parse_line canonical block r o)
unfolding parse_line
parse_line-Ends canonical block r nowhere = tt
parse_line-Ends canonical block r past_end = tt
parse_line-Ends canonical block r (at [] next) = tt
parse_line-Ends canonical block r (at (x ∷ xs) next) =
    parse_text-Ends canonical _ next _ (store_status-Ends block r (chop (x ∷ xs)))

-- request_parse ends on every input: no loop over the header lines, nor over the elements of a
-- Connection header, runs out of the rounds that the model gives it.
pub request_parse_ends :
    (canonical : List ℕ → Bool) (block : Bool) (r : Request) (input : List ℕ)
    → request_parse canonical block r input ≢ out_of_fuel
unfolding request_parse
request_parse_ends canonical block r input e =
    subst Ends e (parse_line-Ends canonical block r (find lf input))

-- Where the copy neither faults nor fails, the stored status line is the request line, and its
-- block holds it with its NUL.
pub store_status-fits :
    (r r1 : Request) (block : Bool) (text : List ℕ)
    → store_status block r text ≡ returned good_request r1
    → (r1.status_line ≡ some text) × (length text < r1.status_line_z)
unfolding store_status
store_status-fits r r1 block text h = ground arith
