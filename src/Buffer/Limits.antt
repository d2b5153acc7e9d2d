-- ===== src/Buffer/Limits.antt =====
-- Writing into the buffer of src/gvar/geostreamd/buffer.c: what fits, and what happens at its end.
use native.Mathlib.Nat.{mod-add-mod, mod-eq_of_lt, mod_self}
use native.Mathlib.Decide.{dec_lt}
use qjhart_geostreams.Prelude.{
  ℕ, zero, suc, ◌+◌, ◌-◌, ◌%◌, ◌≤◌, ◌<◌, ◌≡◌, sym, ap, ◌∙◌, Bool, true, false, some, List, [], ◌∷◌,
  ◌++◌, arith, ==_refl, ◌==◌, if◌then◌else◌, length, take, drop, length-append,
}
use qjhart_geostreams.Buffer.{
  Buffer, ok, size, can_write, can_read, write_at, reset, empty, eof, getc, read_from_fd,
  strcat_from, strcat, stored, printf, left,
}
use qjhart_geostreams.Buffer.Fifo.{IsPlain, contents, contents-at}
use qjhart_geostreams.Buffer.Window.{
  length-write_at, write_at-cons, write_at-nil, take-take, take-append_add, take-all, length-slice,
}

abbrev written : Buffer → List ℕ → Buffer
written b bs = record b { mem = write_at b.w bs b.mem; w = b.w + length bs }

strcat_from-fits :
    (n : ℕ) (b : Buffer) (str : List ℕ)
    → IsPlain b
    → b.w + length str < size b
    → strcat_from n b str ≡ ok (some (n + length str), written b str)
unfolding strcat_from
strcat_from-fits n b [] v h = ground (arith, write_at-nil b.w b.mem)
strcat_from-fits n b (c ∷ cs) v h =
    let b1 = record b { mem = write_at b.w (c ∷ []) b.mem; w = b.w + 1 } in
    ground (
      arith,
      strcat_from-fits (n + 1) b1 cs,
      length-write_at b.w (c ∷ []) b.mem,
      write_at-cons b.w c cs b.mem,
    )

-- buffer_strcat of a string that fits before the end of the memory returns its length and appends
-- it to the contents.
pub strcat-append :
    {b : Buffer} (str : List ℕ)
    → IsPlain b
    → b.w + length str < size b
    → (b' : Buffer) × (strcat b str ≡ ok (some (length str), b'))
      × (contents b' ≡ contents b ++ str)
unfolding strcat
strcat-append {b} str v h = (
  written b str,
  ground (arith, strcat_from-fits 0 b str v h),
  contents-at b.r b.w str b.mem v.r_le_w (omega arith),
)

-- The bytes of `n` that `vsnprintf` stores of a text.
length-stored : (n : ℕ) (text : List ℕ) → 0 < n → n ≤ suc (length text) → length (stored n text) ≡ n
length-stored zero text h k = absurd (omega arith)
length-stored (suc n) text h k =
    ground (arith, length-append (take n text) (0 ∷ []), length-slice 0 n text)

stored-short : (n : ℕ) (text : List ℕ) → length text < n → stored n text ≡ text ++ 0 ∷ []
stored-short zero text h = absurd (omega arith)
stored-short (suc n) text h = rw (take-all n text (omega arith))

contents-prefix :
    (r w : ℕ) (bs cs m : List ℕ)
    → r ≤ w
    → w + length bs + length cs ≤ length m
    → take (w + length bs - r) (drop r (write_at w (bs ++ cs) m)) ≡ take (w - r) (drop r m) ++ bs
contents-prefix r w bs cs m h k =
    let len = length-append bs cs in
    let all = contents-at r w (bs ++ cs) m h (omega (arith, len)) in
    sym (
      take-take (w + length bs - r) (w + length (bs ++ cs) - r) (drop r (write_at w (bs ++ cs) m))
        (omega (arith, len)))
    ∙ (ap (take (w + length bs - r)) all
        ∙ take-append_add (take (w - r) (drop r m)) bs cs (w - r) (w + length bs - r)
            (sym (length-slice r (w - r) m (omega arith))) (omega arith))

-- The buffer behind a text that fits.
abbrev pub printed : Buffer → List ℕ → Buffer
printed b text = record b {
  mem = write_at b.w (stored (can_write b) text) b.mem;
  w = b.w + length text;
}

pub printf-printed :
    {b : Buffer} (text : List ℕ) (stale block : Bool)
    → IsPlain b
    → length text < can_write b
    → (printf b (some text) stale block ≡ ok (some (length text), printed b text))
      × (contents (printed b text) ≡ contents b ++ text)
      × IsPlain (printed b text)
      × (size (printed b text) ≡ size b)
unfolding printf can_write left
printf-printed {b} text stale block v h =
    let n = can_write b in
    let room : n ≡ size b - b.w = ground arith in
    let m = write_at b.w (stored n text) b.mem in
    let len = length-write_at b.w (stored n text) b.mem in
    (
      ground arith,
      rw (stored-short n text h)
          (contents-prefix b.r b.w text (0 ∷ []) b.mem v.r_le_w (omega arith)),
      record { r_le_w = omega arith; w_le_size = omega arith },
      len,
    )

-- buffer_printf of a text shorter than the room before the end of the memory appends the text to
-- the contents and returns its length.
pub printf-append :
    {b : Buffer} (text : List ℕ) (stale block : Bool)
    → IsPlain b
    → length text < can_write b
    → (b' : Buffer) × (printf b (some text) stale block ≡ ok (some (length text), b'))
      × (contents b' ≡ contents b ++ text)
      × IsPlain b'
printf-append {b} text stale block v h =
    let (e, held, plain, _) = printf-printed text stale block v h in
    (printed b text, e, held, plain)

-- buffer_printf of a text of exactly as many bytes as there is room for reports all of them, but
-- puts a NUL in place of the last one.
pub printf_exact_fit :
    {b : Buffer} (text : List ℕ) (stale block : Bool)
    → IsPlain b
    → b.w < size b
    → length text ≡ can_write b
    → (b' : Buffer) × (printf b (some text) stale block ≡ ok (some (length text), b'))
      × (contents b' ≡ contents b ++ (take (length text - 1) text ++ 0 ∷ []))
unfolding printf
printf_exact_fit {b} text stale block v lt h =
    let n = can_write b in
    let room : n ≡ size b - b.w = ground arith in
    let e : n ≡ suc (length text - 1) = omega arith in
    let len : length (stored n text) ≡ length text =
      length-stored n text (omega arith) (omega arith) ∙ sym h in
    (
      record b { mem = write_at b.w (stored n text) b.mem; w = b.w + length text },
      ground arith,
      ap (λ k. take (b.w + k - b.r) (drop b.r (write_at b.w (stored n text) b.mem))) (sym len)
          ∙ (contents-at b.r b.w (stored n text) b.mem v.r_le_w (omega arith)
              ∙ ap (λ k. contents b ++ stored k text) e),
    )

-- buffer_read_from_fd of as many bytes as an empty buffer holds loses them all: the write pointer
-- comes round to the read pointer, and the buffer counts as empty.
pub full_read_lost :
    (b : Buffer) (bs : List ℕ)
    → length bs ≡ size b
    → let (n, b') = read_from_fd (reset b) (some bs) in
      (n ≡ some (size b)) × (empty b' ≡ true) × (can_read b' ≡ 0)
unfolding read_from_fd reset empty can_read
full_read_lost b bs h = ground (arith, length-write_at 0 bs b.mem)

-- Once the write pointer has come round and the read pointer is at the end of the memory,
-- buffer_getc returns EOF and stays there, though the buffer is not empty.
pub getc_stuck_at_end :
    {b : Buffer} → b.r ≡ size b → b.w < b.r → (getc b ≡ (eof, b)) × (empty b ≡ false)
unfolding getc empty
getc_stuck_at_end {b} h k = ground arith

next_mod : (w l m : ℕ) → w < m → ((if w + 1 == m then 0 else w + 1) + l) % m ≡ (w + suc l) % m
next_mod w l m h =
    let e : (if w + 1 == m then 0 else w + 1) ≡ (w + 1) % m = elim (dec_lt (w + 1) m) [
      | yes p ↦ rw (mod-eq_of_lt p) (ground arith)
      | no q ↦ let g : w + 1 ≡ m = omega arith in rw (g, ==_refl m, mod_self)
    ] in
    let f : w + suc l ≡ w + 1 + l = omega arith in rw (e, f) (mod-add-mod (w + 1) m l)

strcat_from-wraps :
    (n : ℕ) (b : Buffer) (str : List ℕ)
    → b.r ≡ 0
    → b.w < size b
    → (b' : Buffer) × (strcat_from n b str ≡ ok (some (n + length str), b'))
      × (b'.w ≡ (b.w + length str) % size b)
unfolding strcat_from
strcat_from-wraps n b [] h k =
    (b, ground arith, let e : b.w + 0 ≡ b.w = omega arith in rw (e, mod-eq_of_lt k))
strcat_from-wraps n b (c ∷ cs) h k =
    let w' = if b.w + 1 == size b then 0 else b.w + 1 in
    let b1 = record b { mem = write_at b.w (c ∷ []) b.mem; w = w' } in
    let len = length-write_at b.w (c ∷ []) b.mem in
    let (b', run, e) = strcat_from-wraps (n + 1) b1 cs h (ground arith) in
    (
      b',
      ground arith,
      e ∙ (ap (λ (t : ℕ). (w' + length cs) % t) len ∙ next_mod b.w (length cs) (size b) k),
    )

-- buffer_strcat into a buffer whose read pointer is at the start, as after buffer_reset, never
-- returns -1: it takes a string of any length, and its write pointer goes round and round over what
-- it wrote before.
pub strcat_never_refuses :
    (b : Buffer) (str : List ℕ)
    → b.r ≡ 0
    → b.w < size b
    → (b' : Buffer) × (strcat b str ≡ ok (some (length str), b'))
      × (b'.w ≡ (b.w + length str) % size b)
unfolding strcat
strcat_never_refuses b str h k =
    let (b', run, e) = strcat_from-wraps 0 b str h k in (b', ground arith, e)
