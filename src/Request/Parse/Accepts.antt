-- ===== src/Request/Parse/Accepts.antt =====
-- request_parse of src/gvar/geostreamd/request.c on well-formed requests.
use qjhart_geostreams.Prelude.{
  ℕ, zero, suc, ◌<◌, ◌≡◌, refl, ap, ◌∙◌, Bool, true, false, Option, none, some, List, [], ◌∷◌, ◌++◌,
  ◌&&◌, ◌||◌, ◌==◌, if◌then◌else◌, length, length-append, get_or, take, codes, arith, append_assoc,
}
use qjhart_geostreams.Request.{Method, Request}
use qjhart_geostreams.Request.Scan.{cr, lf}
use qjhart_geostreams.Request.Grammar.{Free, header_text, request_text, ends_word, ends_line}
use qjhart_geostreams.Request.Parse.{
  good_request, Outcome, returned, at, find, cut, chop, store_status, method, method_named, digit,
  set_header, parse_header, parse_headers, with_request, with_header, header_round, parse_method,
  parse_text, parse_line, parse_version, parse_uri, parse_words, request_parse,
}

-- A byte that does not belong in a word, or in a line, of a request that is handled as C text.
abbrev pub bad_word : ℕ → Bool
bad_word c = ends_word c || c == 0

abbrev pub bad_line : ℕ → Bool
bad_line c = ends_line c || c == 0

abbrev pub GoodLines : List (ℕ × List ℕ) → Type 0
GoodLines [] = Unit
GoodLines ((x, xs) ∷ hs) = (bad_line x ≡ false) × Free bad_line xs × GoodLines hs

find-line :
    (xs rest : List ℕ) → Free bad_line xs → find lf (xs ++ cr ∷ lf ∷ rest) ≡ at (xs ++ cr ∷ []) rest
unfolding find
find-line [] rest f = refl
find-line (x ∷ xs) rest f = ground (arith, find-line xs rest f.1)

chop-snoc : (xs : List ℕ) (c : ℕ) → chop (xs ++ c ∷ []) ≡ xs
unfolding chop
chop-snoc [] c = refl
chop-snoc (x ∷ []) c = refl
chop-snoc (x ∷ y ∷ ys) c = ap (λ t. x ∷ t) (chop-snoc (y ∷ ys) c)

cut-word : (xs ys : List ℕ) → Free bad_word xs → cut b' ' (xs ++ b' ' ∷ ys) ≡ some (xs, ys)
unfolding cut
cut-word [] ys f = refl
cut-word (x ∷ xs) ys f = ground (arith, cut-word xs ys f.1)

-- What the header lines do to a request, one after the other.
unfoldable pub apply_headers : List (ℕ × List ℕ) → Request → List ℕ → Outcome
apply_headers [] r next = returned good_request r
apply_headers ((x, xs) ∷ hs) r next =
    with_header (apply_headers hs) r next (parse_header r (x ∷ xs))

with_request-cong :
    (k k' : Request → List ℕ → Outcome) (n n' : List ℕ) (o : Option Request)
    → ((r : Request) → k r n ≡ k' r n')
    → with_request k n o ≡ with_request k' n' o
unfolding with_request
with_request-cong k k' n n' none h = refl
with_request-cong k k' n n' (some r) h = h r

with_header-cong :
    (k k' : Request → List ℕ → Outcome) (r : Request) (n n' : List ℕ) (o : Option (List ℕ × List ℕ))
    → ((r : Request) → k r n ≡ k' r n')
    → with_header k r n o ≡ with_header k' r n' o
unfolding with_header
with_header-cong k k' r n n' none h = refl
with_header-cong k k' r n n' (some (name, value)) h =
    with_request-cong k k' n n' (set_header r name value) h

header_round-line :
    (k : Request → List ℕ → Outcome) (r : Request) (x : ℕ) (xs next : List ℕ)
    → header_round k r (at (x ∷ (xs ++ cr ∷ [])) next)
      ≡ with_header k r next (parse_header r (x ∷ xs))
unfolding header_round chop
header_round-line k r x [] next = refl
header_round-line k r x (y ∷ ys) next =
    ap (λ t. with_header k r next (parse_header r (x ∷ t))) (chop-snoc (y ∷ ys) cr)

parse_headers-apply :
    (fuel : ℕ) (r : Request) (hs : List (ℕ × List ℕ)) (rest : List ℕ)
    → GoodLines hs
    → length (header_text hs rest) < fuel
    → parse_headers fuel r (header_text hs rest) ≡ apply_headers hs r []
unfolding parse_headers apply_headers
parse_headers-apply zero r hs rest g h = absurd (omega arith)
parse_headers-apply (suc fuel) r [] rest g h = unfold find header_round in refl
parse_headers-apply (suc fuel) r ((x, xs) ∷ hs) rest g h =
    rw (find-line (x ∷ xs) (header_text hs rest) (g.0, g.1)) (
      header_round-line (parse_headers fuel) r x xs (header_text hs rest)
      ∙ with_header-cong (parse_headers fuel) (apply_headers hs) r (header_text hs rest) []
          (parse_header r (x ∷ xs))
          λ r'.
            parse_headers-apply fuel r' hs rest g.2
              (omega (arith, length-append xs (cr ∷ lf ∷ header_text hs rest))))

-- The request that the header lines are applied to.
abbrev pub with_words : Request → Method → List ℕ → List ℕ → Request
with_words r m u v = record r {
  method = m;
  uri = u;
  version = some v;
  version_major = digit (get_or v 5 0);
  version_minor = digit (get_or v 7 0);
  keep_alive =
      if digit (get_or v 5 0) == 1 && digit (get_or v 7 0) == 1 then true else r.keep_alive;
}

-- The text of a request line.
abbrev pub line_text : ℕ → List ℕ → List ℕ → List ℕ → List ℕ
line_text m ms u v = m ∷ (ms ++ b' ' ∷ (u ++ b' ' ∷ v))

Free-append : (bad : ℕ → Bool) (xs ys : List ℕ) → Free bad xs → Free bad ys → Free bad (xs ++ ys)
Free-append bad [] ys f g = g
Free-append bad (x ∷ xs) ys f g = (f.0, Free-append bad xs ys f.1 g)

Free-word-line : (xs : List ℕ) → Free bad_word xs → Free bad_line xs
Free-word-line [] f = tt
Free-word-line (x ∷ xs) f = ground (arith, Free-word-line xs f.1)

line-good :
    (m : ℕ) (ms u v : List ℕ)
    → Free bad_word (m ∷ ms)
    → Free bad_word u
    → Free bad_line v
    → Free bad_line (line_text m ms u v)
line-good m ms u v fm fu fv =
    let inner = Free-append bad_line u (b' ' ∷ v) (Free-word-line u fu) (refl, fv) in
    let f = Free-word-line (m ∷ ms) fm in
    (f.0, Free-append bad_line ms (b' ' ∷ (u ++ b' ' ∷ v)) f.1 (refl, inner))

request_text-line :
    (m : ℕ) (ms u v : List ℕ) (hs : List (ℕ × List ℕ)) (rest : List ℕ)
    → request_text m ms u v hs rest ≡ line_text m ms u v ++ cr ∷ lf ∷ header_text hs rest
request_text-line m ms u v hs rest = simp append_assoc

-- request_parse of a well-formed request, when the copy of the request line succeeds: it stores the
-- method, the URI and the version, and then does what the header lines say, in their order. What
-- follows the request is not looked at. Well formed: the method is one that is served, the URI
-- canonical, the version word of the form that is wanted, no header line is empty, and no word or
-- line holds a NUL, a line end or an EOF byte.
pub request_parse-request :
    (canonical : List ℕ → Bool) (block : Bool) (r r1 : Request) (m : ℕ) (ms u v : List ℕ)
    (hs : List (ℕ × List ℕ)) (rest : List ℕ) (name : Method)
    → Free bad_word (m ∷ ms)
    → Free bad_word u
    → Free bad_line v
    → GoodLines hs
    → method_named (m ∷ ms) ≡ method name
    → canonical u ≡ true
    → length v ≡ 8
    → take 5 v ≡ codes "HTTP/"
    → store_status block r (line_text m ms u v) ≡ returned good_request r1
    → request_parse canonical block r (request_text m ms u v hs rest)
      ≡ apply_headers hs (with_words r1 name u v) []
unfolding request_parse parse_line parse_text parse_words parse_method parse_uri parse_version
request_parse-request canonical block r r1 m ms u v hs rest name fm fu fv g en ec el ev es =
    rw
      (
        request_text-line m ms u v hs rest,
        find-line (line_text m ms u v) (header_text hs rest) (line-good m ms u v fm fu fv),
        chop-snoc (line_text m ms u v) cr,
        es,
        cut-word (m ∷ ms) (u ++ b' ' ∷ v) fm,
        en,
        cut-word u v fu,
        ec,
        el,
        ev,
      )
      (parse_headers-apply (suc (length (header_text hs rest))) (with_words r1 name u v) hs rest g
        (omega arith))
