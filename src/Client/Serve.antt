-- ===== src/Client/Serve.antt =====
-- client_request_serv of src/gvar/geostreamd/client.c: this host answers, or sends the client to
-- another host that serves the file. The file name's block is large enough: its `realloc` does not
-- fail.
use qjhart_geostreams.Prelude.{
  ℕ, zero, suc, ◌≤◌, ◌<◌, ◌≡◌, ◌⊎◌, inl, inr, refl, Bool, true, false, not, Option, none, some,
  List, [], ◌∷◌, ◌++◌, ◌&&◌, ◌||◌, arith, ltb, ◌==◌, if◌then◌else◌, length, get_elem?, Bool-cases,
}
use native.Mathlib.Nat.{suc-le-suc_iff}
use qjhart_geostreams.Request.{Method, Request}

-- The fields of `struct server` that the choice reads.
pub record Host : Type 0 where
  pub files : List ℕ
  pub hostname : List ℕ
  pub port : ℕ
  pub document_root : List ℕ

-- What the libraries and the cache answer. `matches` is `fnmatch` of a pattern and a path with
-- FNM_PATHNAME, `path` is `uri_path`, `pick n` the number that `rand` gives below `n`, and `lookup`
-- the cache's answer for a file name: its size, or the response code where there is no file.
pub record Env : Type 0 where
  pub matches : List ℕ → List ℕ → Bool
  pub path : List ℕ → List ℕ
  pub pick : ℕ → ℕ
  pub lookup : List ℕ → Method → ℕ ⊎ ℕ

-- The answer: a response code with what goes with it.
pub data Answer : Type 0 where
  -- another host is to be asked: 302
  redirect : List ℕ → ℕ → Answer
  -- the file and its size: 200
  file : List ℕ → ℕ → Answer
  failed : ℕ → Answer
  -- a write behind the 255 entries of `okay`, or a read of an entry that was not written
  fault : Answer

abbrev pub code : Answer → Option ℕ
code (redirect h p) = some 302
code (file fn size) = some 200
code (failed rc) = some rc
code fault = none

abbrev pub is_empty : List ℕ → Bool
is_empty [] = true
is_empty (c ∷ cs) = false

length-zero : {A : Type 0} (xs : List A) → length xs ≡ 0 → xs ≡ []
length-zero [] h = refl
length-zero (x ∷ xs) h = absurd (omega arith)

module _ (env : Env) where
  -- Whether a host serves a path.
  abbrev pub serves : List ℕ → Host → Bool
  serves furi h = is_empty h.files || env.matches h.files furi

  -- The `while` loop over the other hosts of the ring.
  unfoldable pub okay_hosts : List ℕ → List Host → List Host
  okay_hosts furi [] = []
  okay_hosts furi (h ∷ hs) = if serves furi h then h ∷ okay_hosts furi hs else okay_hosts furi hs

  abbrev pub redirect_to : Option Host → Answer
  redirect_to none = fault
  redirect_to (some h) = redirect h.hostname h.port

  -- The choice among the hosts that serve the path. Their ports are taken to fit the ten bytes that
  -- the source prints one into.
  unfoldable pub choose_host : List Host → Answer
  choose_host okay =
      if length okay == 0
      then failed 404
      else if ltb 255 (length okay)
      then fault
      else redirect_to (get_elem? okay (if length okay == 1 then 0 else env.pick (length okay)))

  abbrev pub from_cache : List ℕ → ℕ ⊎ ℕ → Answer
  from_cache fn (inl size) = file fn size
  from_cache fn (inr rc) = failed rc

  -- `others` are the hosts of the ring behind this one, in the ring's order.
  unfoldable pub serve_path : Host → List Host → Method → List ℕ → Answer
  serve_path s others m furi =
      if not (is_empty s.files) && not (env.matches s.files furi)
      then choose_host (okay_hosts furi others)
      else let fn = s.document_root ++ (b'/' ∷ furi) in from_cache fn (env.lookup fn m)

  -- The test of the method.
  unfoldable pub serve_method : Host → List Host → List ℕ → Method → Answer
  serve_method s others furi Method.head = serve_path s others Method.head furi
  serve_method s others furi Method.get = serve_path s others Method.get furi
  serve_method s others furi _ = failed 501

  unfoldable pub client_request_serv : Host → List Host → Request → Answer
  client_request_serv s others r = serve_method s others (env.path r.uri) r.method

  -- Some host of the list serves the path.
  abbrev pub SomeServes : List ℕ → List Host → Type 0
  SomeServes furi [] = ⊥
  SomeServes furi (h ∷ hs) = (serves furi h ≡ true) ⊎ SomeServes furi hs

  abbrev pub IsAmong : Host → List Host → Type 0
  IsAmong h [] = ⊥
  IsAmong h (g ∷ gs) = (h ≡ g) ⊎ IsAmong h gs

  okay_hosts-nil : (furi : List ℕ) (hs : List Host) → okay_hosts furi hs ≡ [] → ¬ SomeServes furi hs
  unfolding okay_hosts
  okay_hosts-nil furi [] e s = s
  okay_hosts-nil furi (h ∷ hs) e (inl t) = ground (arith, t)
  okay_hosts-nil furi (h ∷ hs) e (inr s) = okay_hosts-nil furi hs (ground arith) s

  length-okay_hosts : (furi : List ℕ) (hs : List Host) → length (okay_hosts furi hs) ≤ length hs
  unfolding okay_hosts
  length-okay_hosts furi [] = omega arith
  length-okay_hosts furi (h ∷ hs) = ground (arith, length-okay_hosts furi hs)

  okay_hosts-get :
      (furi : List ℕ) (hs : List Host) (i : ℕ)
      → i < length (okay_hosts furi hs)
      → (h : Host) × (get_elem? (okay_hosts furi hs) i ≡ some h)
        × (serves furi h ≡ true)
        × IsAmong h hs
  unfolding okay_hosts
  okay_hosts-get furi [] i lt = absurd (omega arith)
  okay_hosts-get furi (h ∷ hs) zero lt = elim (Bool-cases (serves furi h)) [
    | inl t ↦ (h, rw t, t, inl refl)
    | inr f ↦ let (g, e, s, m) = okay_hosts-get furi hs zero (rw f at lt) in (g, rw f e, s, inr m)
  ]
  okay_hosts-get furi (h ∷ hs) (suc i) lt = elim (Bool-cases (serves furi h)) [
    | inl t ↦
        let (g, e, s, m) = okay_hosts-get furi hs i (suc-le-suc_iff.0 (rw t at lt)) in
        (g, rw t e, s, inr m)
    | inr f ↦
        let (g, e, s, m) = okay_hosts-get furi hs (suc i) (rw f at lt) in (g, rw f e, s, inr m)
  ]

  -- A redirection of a path that this host does not serve.
  abbrev pub Redirects : List ℕ → List Host → Answer → Type 0
  Redirects furi others a =
      ((a ≡ failed 404) × ¬ SomeServes furi others)
      ⊎ ((h : Host) × (a ≡ redirect h.hostname h.port) × (serves furi h ≡ true) × IsAmong h others)

  choose_host-Redirects :
      (furi : List ℕ) (others : List Host)
      → ((n : ℕ) → 0 < n → env.pick n < n)
      → length others ≤ 255
      → Redirects furi others (choose_host (okay_hosts furi others))
  unfolding choose_host
  choose_host-Redirects furi others picks few =
      let okay = okay_hosts furi others in
      let len = length-okay_hosts furi others in
      elim (Bool-cases (length okay == 0)) [
        | inl none_left ↦
            inl (rw none_left refl, okay_hosts-nil furi others (length-zero okay (ground arith)))
        | inr some_left ↦
            let i = if length okay == 1 then 0 else env.pick (length okay) in
            let lt : i < length okay = ground (arith, picks (length okay)) in
            let small : ltb 255 (length okay) ≡ false = ground (arith, len) in
            let (h, e, s, m) = okay_hosts-get furi others i lt in
            inr (h, rw (some_left, small, e) refl, s, m)
      ]

  serve_path-Redirects :
      (s : Host) (others : List Host) (m : Method) (furi : List ℕ)
      → ((n : ℕ) → 0 < n → env.pick n < n)
      → length others ≤ 255
      → serves furi s ≡ false
      → Redirects furi others (serve_path s others m furi)
  unfolding serve_path
  serve_path-Redirects s others m furi picks few other =
      let split : (is_empty s.files ≡ false) × (env.matches s.files furi ≡ false) = ground arith in
      rw (split.0, split.1) (choose_host-Redirects furi others picks few)

  -- For HEAD and GET of a path that this host does not serve, in a ring of at most 256 hosts: the
  -- answer is 404 if no other host serves the path, and else a redirection to one that does.
  pub serv-Redirects :
      (s : Host) (others : List Host) (r : Request)
      → ((n : ℕ) → 0 < n → env.pick n < n)
      → length others ≤ 255
      → (r.method ≡ Method.get) ⊎ (r.method ≡ Method.head)
      → serves (env.path r.uri) s ≡ false
      → Redirects (env.path r.uri) others (client_request_serv s others r)
  unfolding client_request_serv serve_method
  serv-Redirects s others r picks few m other = elim m [
    | inl e ↦ rw e (serve_path-Redirects s others Method.get (env.path r.uri) picks few other)
    | inr e ↦ rw e (serve_path-Redirects s others Method.head (env.path r.uri) picks few other)
  ]

  -- For HEAD and GET of a path that this host serves, the answer is the cache's for the file below
  -- the document root: 200 with its size, or the cache's code.
  pub serv_file :
      (s : Host) (others : List Host) (r : Request)
      → (r.method ≡ Method.get) ⊎ (r.method ≡ Method.head)
      → serves (env.path r.uri) s ≡ true
      → client_request_serv s others r
        ≡ from_cache
            (s.document_root ++ (b'/' ∷ env.path r.uri))
            (env.lookup (s.document_root ++ (b'/' ∷ env.path r.uri)) r.method)
  unfolding client_request_serv serve_method serve_path
  serv_file s others r (inl e) here' = rw e (ground arith)
  serv_file s others r (inr e) here' = rw e (ground arith)
