-- ===== src/Buffer/Fifo.antt =====
-- The buffer of src/gvar/geostreamd/buffer.c as a queue of bytes, while it does not wrap.
use qjhart_geostreams.Prelude.{
  ℕ, ◌+◌, ◌-◌, ◌≤◌, ◌<◌, ◌≡◌, ap, ◌∙◌, some, List, [], ◌∷◌, ◌++◌, arith, length, take, drop,
}
use qjhart_geostreams.Buffer.{
  Buffer, size, can_write, can_read, write_at, eof, getc, read_from_fd, write_to_fd,
}
use qjhart_geostreams.Buffer.Window.{
  length-write_at, slice-write_at, slice-eq-cons, slice-eq-nil, length-slice, take-add, drop-add,
}

pub record IsPlain (b : Buffer) : Type 0 where
  pub r_le_w : b.r ≤ b.w
  pub w_le_size : b.w ≤ size b

-- The bytes that are still to be read.
abbrev pub contents : Buffer → List ℕ
contents b = take (b.w - b.r) (drop b.r b.mem)

pub contents-at :
    (r w : ℕ) (bs m : List ℕ)
    → r ≤ w
    → w + length bs ≤ length m
    → take (w + length bs - r) (drop r (write_at w bs m)) ≡ take (w - r) (drop r m) ++ bs
contents-at r w bs m h k = slice-write_at r (w - r) bs m w _ (omega arith) k (omega arith)

-- buffer_read_from_fd appends what `read` delivers, as long as that does not fill the memory to
-- its end, and returns its length.
pub read_from_fd-append :
    {b : Buffer} (bs : List ℕ)
    → IsPlain b
    → length bs < can_write b
    → let (n, b') = read_from_fd b (some bs) in
      (n ≡ some (length bs)) × (contents b' ≡ contents b ++ bs) × IsPlain b'
unfolding read_from_fd can_write
read_from_fd-append {b} bs v h =
    ground (arith, contents-at b.r b.w bs b.mem, length-write_at b.w bs b.mem)

-- buffer_getc takes the first byte that is still to be read.
pub getc-cons :
    {b : Buffer} (x : ℕ) (xs : List ℕ)
    → IsPlain b
    → contents b ≡ x ∷ xs
    → let (c, b') = getc b in
      (c ≡ x) × (contents b' ≡ xs) × IsPlain b' × (b'.mem ≡ b.mem) × (b'.rewindable ≡ b.rewindable)
unfolding getc
getc-cons {b} x xs v e = ground (arith, slice-eq-cons b.r b.w b.mem, slice-eq-nil b.r b.w b.mem)

-- When nothing is left, buffer_getc returns EOF and changes nothing.
pub getc-nil : {b : Buffer} → IsPlain b → contents b ≡ [] → getc b ≡ (eof, b)
unfolding getc
getc-nil {b} v e = ground (arith, slice-eq-cons b.r b.w b.mem)

write-split :
    (r n k : ℕ) (m : List ℕ)
    → n ≤ k
    → take k (drop r m) ≡ take n (drop r m) ++ take (k - n) (drop (r + n) m)
write-split r n k m h =
    let e : k ≡ n + (k - n) = omega arith in
    ap (λ t. take t (drop r m)) e
    ∙ (take-add n (k - n) (drop r m)
        ∙ ap (λ t. take n (drop r m) ++ take (k - n) t) (drop-add r n m))

-- buffer_write_to_fd hands the front of the contents to `write`, while the write pointer is before
-- the end of the memory: what `write` took and what is left make up the contents, and the count of
-- what it took is returned.
pub write_to_fd-split :
    {b : Buffer} (n : ℕ)
    → IsPlain b
    → b.w < size b
    → n ≤ can_read b
    → let (k, out, b') = write_to_fd b (some n) in
      (contents b ≡ out ++ contents b') × (k ≡ some (length out)) × IsPlain b'
unfolding write_to_fd can_read
write_to_fd-split {b} n v lt h =
    let l = length-slice b.r n b.mem (ground arith) in
    ground (arith, write-split b.r n (b.w - b.r) b.mem, slice-eq-nil b.r b.w b.mem)
