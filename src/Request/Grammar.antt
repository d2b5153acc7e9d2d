-- ===== src/Request/Grammar.antt =====
-- What request_scan of src/gvar/geostreamd/request.c accepts, and in which pieces.
use qjhart_geostreams.Prelude.{
  ℕ, zero, suc, ◌+◌, ◌-◌, ◌<◌, ◌≡◌, ◌≢◌, refl, ◌∙◌, Bool, true, false, Option, some, List, [], ◌∷◌,
  ◌++◌, ◌||◌, arith, ◌==◌, Bool-cases, inl, inr, length, tail, ◌⊎◌,
}
use qjhart_geostreams.Buffer.{Buffer, size, eof, getc}
use qjhart_geostreams.Buffer.Window.{length-slice}
use qjhart_geostreams.Buffer.Fifo.{IsPlain, contents, getc-cons, getc-nil}
use qjhart_geostreams.Request.{
  State, start, method, uri, version, header, header_r, header_rn, last_r, req, Request,
}
use qjhart_geostreams.Request.Scan.{cr, lf, blank, step, done, scan_loop, request_scan, walk}

-- The rest of a run, with the buffer that it leaves.
abbrev Scanned : Buffer → Option (State × Buffer) → State × List ℕ → Type 0
Scanned b0 o (st, bs) =
    (b : Buffer) × (o ≡ some (st, b))
    × (contents b ≡ bs)
    × IsPlain b
    × (b.mem ≡ b0.mem)
    × (b.rewindable ≡ b0.rewindable)

scan_loop-walk :
    (fuel : ℕ) (st : State) (b : Buffer) (bs : List ℕ)
    → IsPlain b
    → contents b ≡ bs
    → length bs < fuel
    → Scanned b (scan_loop fuel st b) (walk st bs)
unfolding scan_loop walk
scan_loop-walk zero st b bs v e h = absurd (omega arith)
scan_loop-walk (suc fuel) st b [] v e h = (b, ground (arith, getc-nil v e), e, v, refl, refl)
scan_loop-walk (suc fuel) st b (ch ∷ bs) v e h =
    let (c, left, plain, mem, kept) = getc-cons ch bs v e in
    elim (Bool-cases (ch == eof || done st)) [
      | inl stop ↦ rw (c, stop) ((getc b).1, refl, left, plain, mem, kept)
      | inr more ↦
          let (b', e', l', p', mem', kept') =
            scan_loop-walk fuel (step st ch) (getc b).1 bs plain left (omega arith) in
          rw (c, more) (b', e', l', p', mem' ∙ mem, kept' ∙ kept)
    ]

-- request_scan over a buffer that has not wrapped comes to an end: it stores the state that `walk`
-- reaches on the buffer's contents, leaves the bytes that `walk` leaves, and changes no byte of the
-- memory.
pub request_scan-walk :
    (r : Request) (b : Buffer)
    → IsPlain b
    → (b' : Buffer) × (request_scan r b
        ≡ some
            ((walk r.state (contents b)).0, record r { state = (walk r.state (contents b)).0 }, b'))
      × (contents b' ≡ (walk r.state (contents b)).1)
      × IsPlain b'
      × (b'.mem ≡ b.mem)
      × (b'.rewindable ≡ b.rewindable)
unfolding request_scan
request_scan-walk r b v =
    let len = length-slice b.r (b.w - b.r) b.mem (omega arith) in
    let (b', e, c, p, mem, kept) =
      scan_loop-walk (size b + 2) r.state b (contents b) v refl (omega (arith, len)) in
    (b', ground arith, c, p, mem, kept)

-- Bytes that all lie outside `bad`.
abbrev pub Free : (ℕ → Bool) → List ℕ → Type 0
Free bad [] = Unit
Free bad (x ∷ xs) = (bad x ≡ false) × Free bad xs

abbrev pub no_eof : ℕ → Bool
no_eof ch = ch == eof

stopped-done : (st : State) (xs : List ℕ) → done st ≡ true → done (walk st xs).0 ≢ false
unfolding walk
stopped-done st [] h e = cc
stopped-done st (x ∷ xs) h e = ground arith

-- A request may be scanned in pieces: if the first piece neither ends the request nor holds an EOF
-- byte, scanning the second from the state that the first left is scanning both at once.
pub walk-append :
    (st : State) (xs ys : List ℕ)
    → Free no_eof xs
    → done (walk st xs).0 ≡ false
    → walk st (xs ++ ys) ≡ walk (walk st xs).0 ys
unfolding walk
walk-append st [] ys f h = refl
walk-append st (x ∷ xs) ys f h = elim (Bool-cases (done st)) [
  | inl stop ↦ absurd (stopped-done st (x ∷ xs) stop h)
  | inr more ↦ rw (more, f.0) (walk-append (step st x) xs ys f.1 (rw (more, f.0) at h))
]

-- Bytes that leave the state `st` as it is.
abbrev Stays : State → List ℕ → Type 0
Stays st [] = Unit
Stays st (x ∷ xs) = (step st x ≡ st) × ((x == eof) ≡ false) × Stays st xs

walk-Stays :
    (st : State) (xs rest : List ℕ)
    → done st ≡ false
    → Stays st xs
    → walk st (xs ++ rest) ≡ walk st rest
unfolding walk
walk-Stays st [] rest h s = refl
walk-Stays st (x ∷ xs) rest h s = rw (h, s.1, s.0) (walk-Stays st xs rest h s.2)

-- One byte that moves the state on.
walk-step :
    (st st' : State) (x : ℕ) (rest : List ℕ)
    → done st ≡ false
    → (x == eof) ≡ false
    → step st x ≡ st'
    → walk st (x ∷ rest) ≡ walk st' rest
unfolding walk
walk-step st st' x rest h e s = rw (h, e, s)

-- The bytes that may not stand in a word of the request line, and in a line.
abbrev pub ends_word : ℕ → Bool
ends_word ch = blank ch || ch == cr || ch == lf || ch == eof

abbrev pub ends_line : ℕ → Bool
ends_line ch = ch == cr || ch == lf || ch == eof

method-Stays : (xs : List ℕ) → Free ends_word xs → Stays method xs
unfolding step
method-Stays [] f = tt
method-Stays (x ∷ xs) f = ground (arith, method-Stays xs)

uri-Stays : (xs : List ℕ) → Free ends_word xs → Stays uri xs
unfolding step
uri-Stays [] f = tt
uri-Stays (x ∷ xs) f = ground (arith, uri-Stays xs)

version-Stays : (xs : List ℕ) → Free ends_line xs → Stays version xs
unfolding step
version-Stays [] f = tt
version-Stays (x ∷ xs) f = ground (arith, version-Stays xs)

header-Stays : (xs : List ℕ) → Free ends_line xs → Stays header xs
unfolding step
header-Stays [] f = tt
header-Stays (x ∷ xs) f = ground (arith, header-Stays xs)

-- The header lines, each by its first byte and the others, and the empty line.
abbrev pub header_text : List (ℕ × List ℕ) → List ℕ → List ℕ
header_text [] rest = cr ∷ lf ∷ rest
header_text ((x, xs) ∷ hs) rest = x ∷ (xs ++ cr ∷ lf ∷ header_text hs rest)

abbrev pub GoodHeaders : List (ℕ × List ℕ) → Type 0
GoodHeaders [] = Unit
GoodHeaders ((x, xs) ∷ hs) = (ends_line x ≡ false) × Free ends_line xs × GoodHeaders hs

-- A request line of three words, the first given by its first byte `m`, and what follows it.
abbrev pub request_text : ℕ → List ℕ → List ℕ → List ℕ → List (ℕ × List ℕ) → List ℕ → List ℕ
request_text m ms u v hs rest =
    m ∷ (ms ++ b' ' ∷ (u ++ b' ' ∷ (v ++ cr ∷ lf ∷ header_text hs rest)))

walk-req : (rest : List ℕ) → walk req rest ≡ (req, tail rest)
unfolding walk
walk-req [] = refl
walk-req (x ∷ rest) = ground arith

walk-headers :
    (hs : List (ℕ × List ℕ)) (rest : List ℕ)
    → GoodHeaders hs
    → walk header_rn (header_text hs rest) ≡ (req, tail rest)
unfolding step
walk-headers [] rest g =
    walk-step header_rn last_r cr (lf ∷ rest) refl refl refl
    ∙ (walk-step last_r req lf rest refl refl refl ∙ walk-req rest)
walk-headers ((x, xs) ∷ hs) rest g =
    walk-step header_rn header x _ refl (ground arith) (ground arith)
    ∙ (walk-Stays header xs _ refl (header-Stays xs g.1)
        ∙ (walk-step header header_r cr _ refl refl refl
            ∙ (walk-step header_r header_rn lf _ refl refl refl ∙ walk-headers hs rest g.2)))

-- request_scan ends with REQ at the end of every request whose line is three words without blanks,
-- line ends or EOF bytes, whose header lines are not empty and hold no line ends or EOF bytes, and
-- which ends in an empty line, every line with CR and LF. It does so before it has seen what
-- follows the request, of which it drops one byte if there is one.
pub walk-request :
    (m : ℕ) (ms u v : List ℕ) (hs : List (ℕ × List ℕ)) (rest : List ℕ)
    → ends_word m ≡ false
    → Free ends_word ms
    → Free ends_word u
    → Free ends_line v
    → GoodHeaders hs
    → walk start (request_text m ms u v hs rest) ≡ (req, tail rest)
unfolding step
walk-request m ms u v hs rest fm fms fu fv g =
    walk-step start method m _ refl (ground arith) (ground arith)
    ∙ (walk-Stays method ms _ refl (method-Stays ms fms)
        ∙ (walk-step method uri b' ' _ refl refl refl
            ∙ (walk-Stays uri u _ refl (uri-Stays u fu)
                ∙ (walk-step uri version b' ' _ refl refl refl
                    ∙ (walk-Stays version v _ refl (version-Stays v fv)
                        ∙ (walk-step version header_r cr _ refl refl refl
                            ∙ (walk-step header_r header_rn lf _ refl refl refl
                                ∙ walk-headers hs rest g)))))))

-- A CR behind a URI or at the start of a header line ends the request with whatever byte comes
-- next: the LAST_R state never reports an error.
pub last_r_accepts :
    (st : State) (ch : ℕ) (rest : List ℕ)
    → (st ≡ uri) ⊎ (st ≡ header_rn)
    → ch ≢ eof
    → walk st (cr ∷ ch ∷ rest) ≡ (req, tail rest)
unfolding step
last_r_accepts st ch rest h ne =
    walk-step st last_r cr (ch ∷ rest) (ground arith) refl (ground arith)
    ∙ (walk-step last_r req ch rest refl (ground arith) refl ∙ walk-req rest)
