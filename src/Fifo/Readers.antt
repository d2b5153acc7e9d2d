-- ===== src/Fifo/Readers.antt =====
-- What a reader of src/geostreamd/fifo.h has read and still has to read, over the steps of the fifo.
use qjhart_geostreams.Prelude.{
  ℕ, ◌+◌, ◌-◌, ◌%◌, ◌<◌, ◌≤◌, ◌≡◌, sym, ap, ◌∙◌, arith, Bool, Bool-cases, inl, inr, true, false,
  Option, none, some, List, [], ◌∷◌, ◌++◌, length, length-append, get_or, leb,
}
use qjhart_geostreams.Fifo.{Reader, post_to}
use qjhart_geostreams.Fifo.Ring.{mod_step, get_or-before, get_or-last}

abbrev pub bit : Bool → ℕ
bit true = 1
bit false = 0

abbrev pub live : Option Reader → Bool
live none = false
live (some r) = true

-- What the semaphore of a reader counts; a reader that is gone waits for nothing.
abbrev pub waiting : Option Reader → ℕ
waiting none = 0
waiting (some r) = r.count

-- The reader was created when `start` data had been written, has read `got`, a post for it is due or
-- not, and it is between the halves of a read or not: what it has read is what was written from
-- `start` on, and what it has not read is counted by its semaphore, with one for a read that has
-- begun. All of that is still in the ring.
pub record InOrder (size : ℕ) (written : List ℕ) (due between : Bool) (got : List ℕ) (start : ℕ)
    (r : Reader) : Type 0 where
  pub total : start + length got + r.count + bit due + bit between ≡ length written
  pub place : r.fifo_p ≡ (start + length got) % size
  pub small : r.count < size
  pub room : r.count + bit due + bit between ≤ size
  pub same : (j : ℕ) → j < length got → get_or got j 0 ≡ get_or written (start + j) 0

abbrev pub Follows :
    (size : ℕ) (written : List ℕ) (due between : Bool) (got : List ℕ) (start : ℕ)
    → Option Reader
    → Type 0
Follows size written due between got start none = Unit
Follows size written due between got start (some r) = InOrder size written due between got start r

pub write-Follows :
    (size : ℕ) (written : List ℕ) (between : Bool) (got : List ℕ) (start : ℕ) (o : Option Reader)
    (x : ℕ)
    → waiting o + bit between < size
    → Follows size written false between got start o
    → Follows size (written ++ x ∷ []) (live o) between got start o
write-Follows size written between got start none x t v = tt
write-Follows size written between got start (some r) x t v = record {
  total = omega (arith, length-append written (x ∷ []), v.total);
  place = v.place;
  small = v.small;
  room = omega (arith, t);
  same = λ j h. v.same j h ∙ sym (get_or-before written x (start + j) (omega (arith, v.total)));
}

pub post-Follows :
    (size : ℕ) (written : List ℕ) (between : Bool) (got : List ℕ) (start : ℕ) (o : Option Reader)
    → Follows size written true between got start o
    → Follows size written false between got start (post_to o size)
post-Follows size written between got start none v = tt
post-Follows size written between got start (some r) v =
    elim (Bool-cases (leb size (r.count + 1))) [
      | inl e ↦ rw e tt
      | inr e ↦ rw e (record {
        total = omega (arith, v.total);
        place = v.place;
        small = ground arith;
        room = omega (arith, v.room);
        same = v.same;
      })
    ]

pub wait-InOrder :
    (size : ℕ) (written : List ℕ) (due : Bool) (got : List ℕ) (start : ℕ) (r : Reader)
    → InOrder size written due false got start r
    → 0 < r.count
    → InOrder size written due true got start (record { fifo_p = r.fifo_p; count = r.count - 1 })
wait-InOrder size written due got start r v h = record {
  total = omega (arith, v.total);
  place = v.place;
  small = omega (arith, v.small);
  room = omega (arith, v.room);
  same = v.same;
}

pub fetch-InOrder :
    (size : ℕ) (written : List ℕ) (due : Bool) (got : List ℕ) (start : ℕ) (r : Reader) (x : ℕ)
    → InOrder size written due true got start r
    → x ≡ get_or written (start + length got) 0
    → InOrder size written due false
        (got ++ x ∷ [])
        start
        (record { fifo_p = (r.fifo_p + 1) % size; count = r.count })
fetch-InOrder size written due got start r x v e =
    let one : length (got ++ x ∷ []) ≡ length got + 1 = length-append got (x ∷ []) in
    record {
      total = omega (arith, one, v.total);
      place =
          rw (v.place)
            (mod_step (start + length got) size ∙ ap (λ k. k % size) (omega (arith, one)));
      small = v.small;
      room = omega (arith, v.room);
      same = λ j lt. elim (Bool-cases (leb (length got) j)) [
        | inl i ↦
            let last : j ≡ length got = ground (arith, one) in
            get_or-last got x j last ∙ e ∙ ap (λ k. get_or written (start + k) 0) (sym last)
        | inr i ↦
            let before : j < length got = ground arith in
            get_or-before got x j before ∙ v.same j before
      ];
    }

pub new-InOrder :
    (size : ℕ) (written : List ℕ)
    → 0 < size
    → InOrder size written false false []
        (length written)
        (record { fifo_p = length written % size; count = 0 })
new-InOrder size written h = record {
  total = omega arith;
  place = ap (λ k. k % size) (omega arith);
  small = h;
  room = omega arith;
  same = λ j lt. absurd (omega arith);
}
