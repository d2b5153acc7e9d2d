-- ===== src/Client/Reason.antt =====
-- The status line of client_prepare_headers in src/gvar/geostreamd/client.c.
use qjhart_geostreams.Prelude.{
  ℕ, zero, suc, ◌+◌, ◌-◌, ◌≤◌, ◌<◌, ◌≡◌, ◌↔◌, ◌⊎◌, inl, inr, refl, Option, none, some, List, [],
  ◌∷◌, ◌&&◌, arith, leb, if◌then◌else◌, get_elem?, codes, length,
}

-- The tables of reasons. 306 has no entry, and the entry of 307 stands in its place.
abbrev pub res_info : List (List ℕ)
res_info = codes "Continue" ∷ codes "Switching Protocols" ∷ []

abbrev pub res_success : List (List ℕ)
res_success =
    codes "OK"
    ∷ codes "Created"
    ∷ codes "Accepted"
    ∷ codes "Non Authoritative Information"
    ∷ codes "No Content"
    ∷ codes "Reset Content"
    ∷ codes "Partial Content"
    ∷ []

abbrev pub res_redirection : List (List ℕ)
res_redirection =
    codes "Multiple Choices"
    ∷ codes "Moved Permanently"
    ∷ codes "Found"
    ∷ codes "See Other"
    ∷ codes "Not Modified"
    ∷ codes "Use Proxy"
    ∷ codes "Temporary Redirect"
    ∷ []

abbrev pub res_client_error : List (List ℕ)
res_client_error =
    codes "Bad Request"
    ∷ codes "Unauthorized"
    ∷ codes "Payment Required"
    ∷ codes "Forbidden"
    ∷ codes "Not Found"
    ∷ codes "Method Not Allowed"
    ∷ codes "Not Acceptable"
    ∷ codes "Proxy Authentication Required"
    ∷ codes "Request Timeout"
    ∷ codes "Conflict"
    ∷ codes "Gone"
    ∷ codes "Length Required"
    ∷ codes "Precondition Failed"
    ∷ codes "Request Entity Too Large"
    ∷ codes "Request URI Too Large"
    ∷ codes "Unsupported Media Type"
    ∷ codes "Requested range not satisfiable"
    ∷ codes "Expectation Failed"
    ∷ []

abbrev pub res_server_error : List (List ℕ)
res_server_error =
    codes "Internal Server Error"
    ∷ codes "Not Implemented"
    ∷ codes "Bad Gateway"
    ∷ codes "Service Unavailable"
    ∷ codes "Gateway Timeout"
    ∷ codes "HTTP Version not supported"
    ∷ []

-- One rung of the ladder over the response code, with the rungs below it; `none` is a read behind
-- the end of a table.
unfoldable pub look_up : ℕ → ℕ → List (List ℕ) → ℕ → Option (List ℕ) → Option (List ℕ)
look_up lo hi table rc below = if leb lo rc && leb rc hi then get_elem? table (rc - lo) else below

unfoldable pub reason : ℕ → Option (List ℕ)
reason rc = look_up 100 101 res_info rc (
    look_up 200 206 res_success rc (
      look_up 300 307 res_redirection rc (
        look_up 400 417 res_client_error rc
          (look_up 500 505 res_server_error rc (some (codes "UNKNOWN"))))))

get_elem?-lt : (xs : List (List ℕ)) (i : ℕ) → get_elem? xs i ≡ none → length xs ≤ i
get_elem?-lt [] i e = omega arith
get_elem?-lt (x ∷ xs) zero e = cc
get_elem?-lt (x ∷ xs) (suc i) e = omega (arith, get_elem?-lt xs i e)

look_up-none :
    (lo hi : ℕ) (table : List (List ℕ)) (rc : ℕ) (below : Option (List ℕ))
    → look_up lo hi table rc below ≡ none
    → ((lo + length table ≤ rc) × (rc ≤ hi)) ⊎ (below ≡ none)
unfolding look_up
look_up-none lo hi table rc below e = ground (arith, get_elem?-lt table (rc - lo))

-- A rung whose table is long enough for its range is not the one that fails.
look_up-safe :
    (lo hi : ℕ) (table : List (List ℕ)) (rc : ℕ) (below : Option (List ℕ))
    → hi < lo + length table
    → look_up lo hi table rc below ≡ none
    → below ≡ none
look_up-safe lo hi table rc below h e = elim (look_up-none lo hi table rc below e) [
  | inl p ↦ absurd (omega arith)
  | inr q ↦ q
]

reason-none_only : (rc : ℕ) → reason rc ≡ none → rc ≡ 307
unfolding reason
reason-none_only rc e =
    let e1 = look_up-safe 100 101 res_info rc _ (omega arith) e in
    let e2 = look_up-safe 200 206 res_success rc _ (omega arith) e1 in
    elim (look_up-none 300 307 res_redirection rc _ e2) [
      | inl p ↦ omega arith
      | inr e3 ↦
          let e4 = look_up-safe 400 417 res_client_error rc _ (omega arith) e3 in
          let e5 = look_up-safe 500 505 res_server_error rc _ (omega arith) e4 in cc
    ]

reason-none_307 : reason 307 ≡ none
unfolding reason look_up
reason-none_307 = refl

-- The reason of a response is looked up inside its table for every code but 307, for which the
-- table of redirections is one entry too short.
pub reason-none : (rc : ℕ) → (reason rc ≡ none) ↔ (rc ≡ 307)
reason-none rc = (reason-none_only rc, λ e. rw e reason-none_307)
