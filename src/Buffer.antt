-- ===== src/Buffer.antt =====
-- The byte buffer of src/gvar/geostreamd/buffer.c. The pointers `r`, `w` and `e` are offsets from
-- `s`, and `mem` holds the bytes from `s` up to `e`. A byte is a number below 256. What `read`,
-- `write`, `malloc` and `vsnprintf` return is an argument; `fault` is an access outside the memory.
pub mod Window
pub mod Fifo
pub mod Limits
use qjhart_geostreams.Prelude.{
  ℕ, zero, suc, ◌+◌, ◌-◌, Bool, true, false, Option, none, some, List, [], ◌∷◌, ◌++◌, leb, ltb,
  ◌==◌, if◌then◌else◌, length, get_or, take, drop, ◌||◌,
}

-- `struct buffer`. `scratch` is the scratch block by its size in bytes. `scratch_size` is read once
-- and set nowhere, so its test is an argument of `printf`.
pub record Buffer : Type 0 where
  pub rewindable : Bool
  pub scratch : Option ℕ
  pub mem : List ℕ
  pub r : ℕ
  pub w : ℕ

pub data Run (A : Type 0) : Type 0 where
  ok : A → Run A
  fault : Run A

-- BUFFER_SIZE, BUFFER_CANWRITE, BUFFER_LEFT and BUFFER_CANREAD.
abbrev pub size : Buffer → ℕ
size b = length b.mem

unfoldable pub can_write : Buffer → ℕ
can_write b = if leb b.r b.w then size b - b.w else b.r - b.w - 1

unfoldable pub left : Buffer → ℕ
left b = if leb b.r b.w then size b - (b.w - b.r) else b.r - b.w - 1

unfoldable pub can_read : Buffer → ℕ
can_read b = if leb b.r b.w then b.w - b.r else size b - b.r

-- The bytes from offset `i` on are overwritten by `bs`.
unfoldable pub write_at : ℕ → List ℕ → List ℕ → List ℕ
write_at i bs [] = []
write_at zero [] (x ∷ m) = x ∷ m
write_at zero (b ∷ bs) (x ∷ m) = b ∷ write_at zero bs m
write_at (suc i) bs (x ∷ m) = x ∷ write_at i bs m

-- `buffer_malloc`, with the block that the second `malloc` returns.
unfoldable pub buffer_malloc : Option (List ℕ) → Option Buffer
buffer_malloc none = none
buffer_malloc (some block) =
    some (record { rewindable = true; scratch = none; mem = block; r = 0; w = 0 })

unfoldable pub reset : Buffer → Buffer
reset b = record b { rewindable = true; r = 0; w = 0 }

unfoldable pub empty : Buffer → Bool
empty b = b.r == b.w

-- `none` is -1.
unfoldable pub rewind : Buffer → Option Buffer
rewind b = if b.rewindable then some (record b { r = 0 }) else none

-- EOF in a `char`.
abbrev pub eof : ℕ
eof = 255

-- The test that ends `buffer_getc`.
abbrev pub wrap_past_end : Buffer → ℕ → Buffer
wrap_past_end b r' = record b { r = if ltb (size b) r' then 0 else r' }

unfoldable pub getc : Buffer → ℕ × Buffer
unfolding can_read
getc b =
    if ltb 0 (can_read b)
    then (get_or b.mem b.r 0, wrap_past_end b (b.r + 1))
    else (eof, wrap_past_end b b.r)

-- `input` is what `read` stores at `w`, or `none` where it returns -1.
unfoldable pub read_from_fd : Buffer → Option (List ℕ) → Option ℕ × Buffer
read_from_fd b none = (none, b)
read_from_fd b (some bs) =
    let w' = b.w + length bs in
    (some (length bs), record b { mem = write_at b.w bs b.mem; w = if w' == size b then 0 else w' })

-- `accepted` is what `write` returns for the bytes that it is offered, `none` for -1. The result
-- is the count returned, the bytes that `write` took, and the buffer.
unfoldable pub write_to_fd : Buffer → Option ℕ → Option ℕ × List ℕ × Buffer
unfolding can_read
write_to_fd b accepted = if can_read b == 0 then (some 0, [], b) else elim accepted [
  | none ↦ (none, [], b)
  | some n ↦
      (some n, take n (drop b.r b.mem), record b { r = if b.r + n == size b then 0 else b.r + n })
]

-- One byte of `buffer_strcat`: `*b->w++ = c`, and the wrap.
unfoldable pub put : Buffer → ℕ → Run Buffer
put b c =
    if ltb b.w (size b)
    then ok (record b {
      mem = write_at b.w (c ∷ []) b.mem;
      w = if b.w + 1 == size b then 0 else b.w + 1;
    })
    else fault

-- The `for` loop of `buffer_strcat`, with `n` bytes done; the count is `none` where it returns -1.
unfoldable pub strcat_from : ℕ → Buffer → List ℕ → Run (Option ℕ × Buffer)
unfolding left put
strcat_from n b [] = ok (some n, b)
strcat_from n b (c ∷ cs) =
    if left b == 0
    then ok (none, b)
    else elim (put b c) [ ok b' ↦ strcat_from (n + 1) b' cs | fault ↦ fault ]

unfoldable pub strcat : Buffer → List ℕ → Run (Option ℕ × Buffer)
unfolding strcat_from
strcat b str = strcat_from 0 b str

-- `buffer_strcat_n`, with its strings as a list. The count is that of the last string; with no
-- string at all the source returns an uninitialised number, and `last` stands for it.
unfoldable pub strcat_n : ℕ → Buffer → List (List ℕ) → Run (Option ℕ × Buffer)
unfolding strcat_from
strcat_n last b [] = ok (some last, b)
strcat_n last b (str ∷ strs) = elim (strcat_from 0 b str) [
  | fault ↦ fault
  | ok (none, b') ↦ ok (none, b')
  | ok (some n, b') ↦ strcat_n n b' strs
]

-- What `vsnprintf` stores of `text` in a block of `n` bytes: at most `n - 1` bytes and a NUL.
abbrev pub stored : ℕ → List ℕ → List ℕ
stored zero text = []
stored (suc n) text = take n text ++ 0 ∷ []

-- The scratch block after the tests of the expensive case. `stale` is the outcome of
-- `b->scratch_size < written`, `block` whether `malloc` succeeds.
unfoldable pub scratch_for : Option ℕ → Bool → Bool → ℕ → Option ℕ
scratch_for (some k) false block written = some k
scratch_for (some k) true block written = if block then some written else none
scratch_for none stale block written = if block then some written else none

-- The case in which `written` bytes do not fit: a second `vsnprintf` into the scratch block, and a
-- `memcpy` from behind the first `n` bytes of it to the start of the buffer.
unfoldable pub printf_wrap : Buffer → ℕ → List ℕ → Bool → Bool → Run (Option ℕ × Buffer)
unfolding scratch_for
printf_wrap b n text stale block = elim (scratch_for b.scratch stale block (length text)) [
  | none ↦ ok (none, record b { scratch = none })
  | some k ↦
      if ltb k (length text) || ltb (size b) (length text - n)
      then fault
      else ok (
        some (length text),
        record b {
          scratch = some k;
          mem = write_at 0 (drop n (stored (length text) text)) b.mem;
          w = length text - n;
        },
      )
]

-- `buffer_printf` of a format that expands to `text`; `none` where `vsnprintf` fails. The store at
-- `w` has room for `can_write` bytes.
unfoldable pub printf : Buffer → Option (List ℕ) → Bool → Bool → Run (Option ℕ × Buffer)
unfolding can_write left printf_wrap
printf b none stale block = ok (none, b)
printf b (some text) stale block =
    let n = can_write b in
    let b1 = record b { mem = write_at b.w (stored n text) b.mem } in
    if ltb (left b) (length text)
    then printf_wrap b1 n text stale block
    else ok (some (length text), record b1 { w = b.w + length text })
