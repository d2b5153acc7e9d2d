-- ===== src/Tests/Fifos.antt =====
-- A fifo of four places with one reader.
use qjhart_geostreams.Prelude.{ℕ, ◌≡◌, refl, arith, true, false, some, [], ◌∷◌, ◌++◌, length}
use qjhart_geostreams.Fifo.{Reader, Fifo, put, new_fifo, store, post, wait, fetch, new_reader}
use qjhart_geostreams.Fifo.System.{
  System, writes, posts, waits, fetches, creates, begin, Timely, begins, goes_on, Reach, here,
  later,
}
use qjhart_geostreams.Fifo.Readers.{InOrder, live}
use qjhart_geostreams.Fifo.Order.{reader-InOrder}

-- The reader 1 is created, 70 is written, and the reader reads it.
abbrev s0 : System
s0 = begin 4

abbrev s1 : System
s1 = record s0 {
  fifo = new_reader 1 s0.fifo;
  between = put s0.between 1 false;
  got = put s0.got 1 [];
  start = put s0.start 1 (length s0.written);
}

abbrev s2 : System
s2 = record s1 {
  fifo = store 70 s1.fifo;
  due = λ i. live (s1.fifo.readers i);
  written = s1.written ++ 70 ∷ [];
}

abbrev s3 : System
s3 = record s2 { fifo = post 1 s2.fifo; due = put s2.due 1 false }

abbrev has_read : Reader
has_read = record { fifo_p = 1; count = 0 }

abbrev f4 : Fifo
f4 = record (s3.fifo) { readers = put s3.fifo.readers 1 (some (record { fifo_p = 0; count = 0 })) }

abbrev s4 : System
s4 = record s3 { fifo = f4; between = put s3.between 1 true }

abbrev f5 : Fifo
f5 = record f4 { readers = put f4.readers 1 (some has_read) }

abbrev s5 : System
s5 = record s4 {
  fifo = f5;
  between = put s4.between 1 false;
  got = put s4.got 1 (s4.got 1 ++ 70 ∷ []);
}

s5-Timely : Timely 4 s5
unfolding begin new_fifo store post wait fetch new_reader
s5-Timely =
    goes_on
      (goes_on
        (goes_on
          (goes_on (goes_on begins (creates 1 (λ j. refl)) tt) (writes 70 (λ j. refl))
            (λ j. ground arith))
          (posts 1 refl) tt)
        (waits 1 f4 refl refl) tt)
      (fetches 1 70 f5 refl refl) tt

is_there : s5.fifo.readers 1 ≡ some has_read
is_there = refl

reader-InOrder_example :
    InOrder s5.fifo.size s5.written (s5.due 1) (s5.between 1) (s5.got 1) (s5.start 1) has_read
reader-InOrder_example = reader-InOrder 1 has_read (omega arith) s5-Timely is_there

-- What it has read is what was written.
read_70 : s5.got 1 ≡ 70 ∷ []
unfolding begin
read_70 = refl

-- In a ring of two places, a reader that has waited for 65 is overtaken: 66 and 67 are stored, 67 in
-- the slot that it then looks at.
abbrev t1 : System
t1 = record (begin 2) {
  fifo = new_reader 1 (new_fifo 2);
  between = put (begin 2).between 1 false;
  got = put (begin 2).got 1 [];
  start = put (begin 2).start 1 0;
}

abbrev stores : ℕ → System → System
stores x s = record s {
  fifo = store x s.fifo;
  due = λ i. live (s.fifo.readers i);
  written = s.written ++ x ∷ [];
}

abbrev posted : System → System
posted s = record s { fifo = post 1 s.fifo; due = put s.due 1 false }

abbrev t2 : System
t2 = posted (stores 65 t1)

abbrev t3 : System
t3 = record t2 {
  fifo = record (t2.fifo) {
    readers = put t2.fifo.readers 1 (some (record { fifo_p = 0; count = 0 }));
  };
  between = put t2.between 1 true;
}

abbrev t5 : System
t5 = stores 67 (posted (stores 66 t3))

abbrev t6 : System
t6 = record t5 {
  fifo = record (t5.fifo) {
    readers = put t5.fifo.readers 1 (some (record { fifo_p = 1; count = 1 }));
  };
  between = put t5.between 1 false;
  got = put t5.got 1 (t5.got 1 ++ 67 ∷ []);
}

t6-Reach : Reach 2 t6
unfolding begin new_fifo store post wait fetch new_reader
t6-Reach =
    later
      (later
        (later
          (later
            (later
              (later (later (later here (creates 1 (λ j. refl))) (writes 65 (λ j. ground arith)))
                (posts 1 refl))
              (waits 1 t3.fifo refl refl))
            (writes 66 (λ j. ground arith)))
          (posts 1 refl))
        (writes 67 (λ j. ground arith)))
      (fetches 1 67 t6.fifo refl refl)

reads_67 : (t6.got 1 ≡ 67 ∷ []) × (t6.written ≡ 65 ∷ 66 ∷ 67 ∷ [])
unfolding begin
reads_67 = (refl, refl)
