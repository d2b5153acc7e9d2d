-- ===== src/Client/Whole.antt =====
-- client_request of src/gvar/geostreamd/client.c, from the bytes that `read` delivers to the call of
-- client_request_serv, on a well-formed request that comes in one piece.
use qjhart_geostreams.Prelude.{
  ℕ, ◌≤◌, ◌<◌, ◌≡◌, ◌≢◌, refl, ap, ◌∙◌, true, some, List, [], ◌∷◌, ◌++◌, arith, length, take, drop,
  codes, append_assoc,
}
use qjhart_geostreams.Buffer.{Buffer, size, rewind, read_from_fd, can_write, write_at}
use qjhart_geostreams.Buffer.Window.{slice-eq-nil}
use qjhart_geostreams.Buffer.Fifo.{IsPlain, contents, read_from_fd-append}
use qjhart_geostreams.Request.{State, Method, Request}
use qjhart_geostreams.Request.Scan.{request_scan, walk, cr, lf}
use qjhart_geostreams.Request.Grammar.{
  Free, request_text, header_text, GoodHeaders, ends_word, ends_line, walk-request,
  request_scan-walk,
}
use qjhart_geostreams.Request.Parse.{
  returned, good_request, request_parse, store_status, method_named, method,
}
use qjhart_geostreams.Request.Parse.Accepts.{
  bad_word, bad_line, GoodLines, apply_headers, with_words, line_text, request_parse-request,
}
use qjhart_geostreams.Client.Serve.{Host}
use qjhart_geostreams.Client.Read.{
  Client, World, parsed, rewound, scanned, after_scan, after_read, client_request, buffer_size,
}

write_at_start : (bs m : List ℕ) → length bs ≤ length m → write_at 0 bs m ≡ bs ++ drop (length bs) m
unfolding write_at
write_at_start [] [] h = refl
write_at_start [] (x ∷ m) h = refl
write_at_start (b ∷ bs) [] h = absurd (omega arith)
write_at_start (b ∷ bs) (x ∷ m) h = ap (λ t. b ∷ t) (write_at_start bs m (omega arith))

header_text-append :
    (hs : List (ℕ × List ℕ)) (rest : List ℕ) → header_text hs [] ++ rest ≡ header_text hs rest
header_text-append [] rest = refl
header_text-append ((x, xs) ∷ hs) rest =
    ap (λ t. x ∷ t)
      (append_assoc xs _ rest ∙ ap (λ t. xs ++ cr ∷ lf ∷ t) (header_text-append hs rest))

request_text-append :
    (m : ℕ) (ms u v : List ℕ) (hs : List (ℕ × List ℕ)) (rest : List ℕ)
    → request_text m ms u v hs [] ++ rest ≡ request_text m ms u v hs rest
request_text-append m ms u v hs rest = simp (append_assoc, header_text-append)

Free-ends_word : (xs : List ℕ) → Free bad_word xs → Free ends_word xs
Free-ends_word [] f = tt
Free-ends_word (x ∷ xs) f = ground (arith, Free-ends_word xs f.1)

Free-ends_line : (xs : List ℕ) → Free bad_line xs → Free ends_line xs
Free-ends_line [] f = tt
Free-ends_line (x ∷ xs) f = ground (arith, Free-ends_line xs f.1)

GoodLines-GoodHeaders : (hs : List (ℕ × List ℕ)) → GoodLines hs → GoodHeaders hs
GoodLines-GoodHeaders [] g = tt
GoodLines-GoodHeaders ((x, xs) ∷ hs) g =
    let f = Free-ends_line (x ∷ xs) (g.0, g.1) in (f.0, f.1, GoodLines-GoodHeaders hs g.2)

-- The scan of the bytes that are in, and the parse from the start of the memory.
after_scan-request :
    (w : World) (s : Host) (others : List Host) (c : Client)
    → c.buffer.rewindable ≡ true
    → IsPlain c.buffer
    → walk c.request.state (contents c.buffer) ≡ (State.req, [])
    → (b' : Buffer) × (after_scan w s others c (request_scan c.request c.buffer)
        ≡ parsed w s others
            (record c { request = record c.request { state = State.req }; buffer = b' })
            (request_parse w.canonical w.block
              (record c.request { state = State.req })
              c.buffer.mem))
unfolding after_scan scanned rewound rewind
after_scan-request w s others c k p e =
    let (b, es, left, plain, mem, kept) = request_scan-walk c.request c.buffer p in
    (record b { r = 0 }, rw (es, e, kept, k, mem) refl)

-- The tests of the count.
after_read-some :
    (w : World) (s : Host) (others : List Host) (c : Client) (n : ℕ)
    → n ≢ 0
    → n ≢ buffer_size
    → after_read w s others c (some n) ≡ after_scan w s others c (request_scan c.request c.buffer)
unfolding after_read
after_read-some w s others c n n0 n1 = ground arith

-- What the client is after the request has been read and scanned.
abbrev pub scanned_client : Client → Buffer → Client
scanned_client c b = record c { request = record c.request { state = State.req }; buffer = b }

-- A client whose request waits to be read, with its buffer as client_new and buffer_reset leave it.
pub record IsWaiting (c : Client) : Type 0 where
  pub start : c.request.state ≡ State.start
  pub rewindable : c.buffer.rewindable ≡ true
  pub r : c.buffer.r ≡ 0
  pub w : c.buffer.w ≡ 0
  pub block : size c.buffer ≡ buffer_size

-- What `read` stores in an empty buffer.
read_from_fd-fresh :
    (b : Buffer) (bs : List ℕ)
    → b.r ≡ 0
    → b.w ≡ 0
    → length bs < size b
    → let (n, b') = read_from_fd b (some bs) in
      (n ≡ some (length bs))
      × (contents b' ≡ bs)
      × IsPlain b'
      × (b'.mem ≡ bs ++ drop (length bs) b.mem)
      × (b'.rewindable ≡ b.rewindable)
read_from_fd-fresh b bs er ew h =
    let plain : IsPlain b = record { r_le_w = omega arith; w_le_size = omega arith } in
    let (n, held, p) = read_from_fd-append bs plain (unfold can_write in ground arith) in
    let nothing : contents b ≡ [] = slice-eq-nil b.r b.w b.mem (omega arith) in
    (
      n,
      rw nothing at held,
      p,
      unfold read_from_fd in rw ew (write_at_start bs b.mem (omega arith)),
      unfold read_from_fd in refl,
    )

-- client_request on a waiting client, when one `read` delivers exactly one request that is shorter
-- than the buffer, and the copy of the request line succeeds. The request is well formed: its method
-- is one that is served, its URI canonical, its version word of the form that is wanted, no header
-- line is empty, and no word or line holds a NUL, a line end or an EOF byte. Then client_request
-- hands on the request that the request line and then the header lines make, whatever the buffer
-- held before.
pub client_request-request :
    (w : World) (s : Host) (others : List Host) (c : Client) (r1 : Request) (m : ℕ)
    (ms u v : List ℕ) (hs : List (ℕ × List ℕ)) (name : Method)
    → IsWaiting c
    → length (request_text m ms u v hs []) < buffer_size
    → Free bad_word (m ∷ ms)
    → Free bad_word u
    → Free bad_line v
    → GoodLines hs
    → method_named (m ∷ ms) ≡ method name
    → w.canonical u ≡ true
    → length v ≡ 8
    → take 5 v ≡ codes "HTTP/"
    → store_status w.block (record c.request { state = State.req }) (line_text m ms u v)
      ≡ returned good_request r1
    → (b' : Buffer) × (client_request w s others c (some (request_text m ms u v hs []))
        ≡ parsed w s others (scanned_client c b') (apply_headers hs (with_words r1 name u v) []))
unfolding client_request
client_request-request w s others c r1 m ms u v hs name ready fits fm fu fv g en ec el ev es =
    let text = request_text m ms u v hs [] in
    let rest = drop (length text) c.buffer.mem in
    let b = (read_from_fd c.buffer (some text)).1 in
    let c1 : Client = record c { buffer = b } in
    let (n, held, plain, mem, kept) =
      read_from_fd-fresh c.buffer text ready.r ready.w (rw ready.block fits) in
    let (b', e) = after_scan-request w s others c1 (kept ∙ ready.rewindable) plain (
      rw (ready.start, held)
        (walk-request m ms u v hs [] (Free-ends_word (m ∷ ms) fm).0 (Free-ends_word (m ∷ ms) fm).1
          (Free-ends_word u fu) (Free-ends_line v fv) (GoodLines-GoodHeaders hs g))) in
    let parse =
      request_parse-request w.canonical w.block (record c.request { state = State.req }) r1 m ms u v
        hs rest name fm fu fv g en ec el ev es in
    (
      b',
      rw n (
          after_read-some w s others c1 (length text) (omega arith) (omega arith)
          ∙ (e
              ∙ ap (λ o. parsed w s others (scanned_client c b') o)
                  (ap (request_parse w.canonical w.block (record c.request { state = State.req }))
                      (mem ∙ request_text-append m ms u v hs rest)
                    ∙ parse))),
    )
