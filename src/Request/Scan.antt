-- ===== src/Request/Scan.antt =====
-- request_scan of src/gvar/geostreamd/request.c: the end of a request is found byte by byte, in as
-- many calls as the bytes come in.
use qjhart_geostreams.Prelude.{
  ℕ, zero, suc, ◌+◌, Bool, true, false, Option, none, some, List, [], ◌∷◌, ◌||◌, ◌==◌,
  if◌then◌else◌,
}
use qjhart_geostreams.Buffer.{Buffer, size, eof, getc}
use qjhart_geostreams.Request.{
  State, start, method, uri, version, header, header_r, header_rn, last_r, err, req, Request,
}

abbrev pub cr : ℕ
cr = 13

abbrev pub lf : ℕ
lf = 10

abbrev pub blank : ℕ → Bool
blank ch = ch == b' ' || ch == 9

-- The outer `switch`, with one inner `switch` for each state. The default case of LAST_R has no
-- `break`, so what it sets is set again by the next case.
unfoldable pub step : State → ℕ → State
step start ch = if ch == cr || ch == lf then err else if blank ch then start else method
step method ch = if blank ch then uri else if ch == cr || ch == lf then err else method
step uri ch =
    if blank ch then version else if ch == cr then last_r else if ch == lf then req else uri
step version ch = if ch == lf then header_rn else if ch == cr then header_r else version
step header ch = if ch == cr then header_r else if ch == lf then header_rn else header
step header_r ch = if ch == lf then header_rn else err
step header_rn ch = if ch == cr then last_r else if ch == lf then req else header
step last_r ch = req
step err ch = err
step req ch = req

abbrev pub done : State → Bool
done err = true
done req = true
done _ = false

-- The `while` loop. A byte is taken before the state is tested.
unfoldable pub scan_loop : ℕ → State → Buffer → Option (State × Buffer)
unfolding step
scan_loop zero st b = none
scan_loop (suc fuel) st b =
    let (ch, b') = getc b in
    let rest = scan_loop fuel (step st ch) b' in
    if ch == eof || done st then some (st, b') else rest

-- Enough rounds for every byte of the memory, and one to see the end.
unfoldable pub request_scan : Request → Buffer → Option (State × Request × Buffer)
unfolding scan_loop
request_scan r b = elim (scan_loop (size b + 2) r.state b) [
  | none ↦ none
  | some (st, b') ↦ some (st, record r { state = st }, b')
]

-- What the loop does to a list of bytes: the state at the end, and the bytes that are left. Once
-- the state is final one more byte is dropped; a byte of value EOF ends the run and is dropped.
unfoldable pub walk : State → List ℕ → State × List ℕ
unfolding step
walk st [] = (st, [])
walk st (ch ∷ bs) =
    let rest = walk (step st ch) bs in if ch == eof || done st then (st, bs) else rest
