-- ===== src/Fifo/System.antt =====
-- The fifo of src/geostreamd/fifo.h at work: one thread writes, and any number of readers come,
-- read and go, in any order. A write is its part under the mutex and then one post for each reader,
-- a read is its wait for the semaphore and then the look at its slot; the steps of the others stand
-- anywhere between. A reader is created while no write is under way.
use qjhart_geostreams.Prelude.{
  ℕ, ◌+◌, ◌%◌, ◌<◌, ◌≤◌, ◌≡◌, Bool, true, false, some, List, [], ◌∷◌, ◌++◌, length, get_or,
}
use qjhart_geostreams.Fifo.{Fifo, put, new_fifo, store, post, wait, fetch, new_reader}
use qjhart_geostreams.Fifo.Readers.{live, waiting, bit, Follows}

-- The fifo, for each reader whether the writer's loop has still to come to it, and whether it is
-- between the two halves of a read. What has been
-- written, and for each reader what it has read and how much had been written when it was created,
-- is kept for the statements only.
pub record System : Type 0 where
  pub fifo : Fifo
  pub due : ℕ → Bool
  pub between : ℕ → Bool
  pub written : List ℕ
  pub got : ℕ → List ℕ
  pub start : ℕ → ℕ

abbrev pub AtRest : System → Type 0
AtRest s = (i : ℕ) → s.due i ≡ false

pub data Step (s : System) : System → Type 0 where
  writes :
      (x : ℕ)
      → AtRest s
      → Step s (record s {
        fifo = store x s.fifo;
        due = λ i. live (s.fifo.readers i);
        written = s.written ++ x ∷ [];
      })
  posts :
      (i : ℕ) → s.due i ≡ true → Step s (record s { fifo = post i s.fifo; due = put s.due i false })
  waits :
      (i : ℕ) (f : Fifo)
      → s.between i ≡ false
      → wait i s.fifo ≡ some f
      → Step s (record s { fifo = f; between = put s.between i true })
  fetches :
      (i x : ℕ) (f : Fifo)
      → s.between i ≡ true
      → fetch i s.fifo ≡ some (x, f)
      → Step s (record s {
        fifo = f;
        between = put s.between i false;
        got = put s.got i (s.got i ++ x ∷ []);
      })
  creates :
      (i : ℕ)
      → AtRest s
      → Step s (record s {
        fifo = new_reader i s.fifo;
        between = put s.between i false;
        got = put s.got i [];
        start = put s.start i (length s.written);
      })

unfoldable pub begin : ℕ → System
begin size = record {
  fifo = new_fifo size;
  due = λ i. false;
  between = λ i. false;
  written = [];
  got = λ i. [];
  start = λ i. 0;
}

pub data Reach (size : ℕ) : System → Type 0 where
  here : Reach size (begin size)
  later : {s t : System} → Reach size s → Step s t → Reach size t

-- Whether a write leaves alone the slot that a reader between its two halves is about to look at:
-- such a reader has no more to read, the datum of that slot counted, than the ring has places
-- besides the writer's. Nothing in the source sees to that.
abbrev pub InTime : {s t : System} → Step s t → Type 0
InTime {s} (writes x idle) = (i : ℕ) → waiting (s.fifo.readers i) + bit (s.between i) < s.fifo.size
InTime (posts i d) = Unit
InTime (waits i f b e) = Unit
InTime (fetches i x f b e) = Unit
InTime (creates i idle) = Unit

-- The runs in which every write is in time.
pub data Timely (size : ℕ) : System → Type 0 where
  begins : Timely size (begin size)
  goes_on : {s t : System} → Timely size s → (st : Step s t) → InTime st → Timely size t

-- The ring holds the last data that were written, and every reader is in order.
pub record Inv (s : System) : Type 0 where
  pub positive : 0 < s.fifo.size
  pub place : s.fifo.write_p ≡ length s.written % s.fifo.size
  pub ring :
      (k : ℕ)
      → k < length s.written
      → length s.written ≤ k + s.fifo.size
      → s.fifo.slots (k % s.fifo.size) ≡ get_or s.written k 0
  pub readers :
      (i : ℕ)
      → Follows s.fifo.size s.written
          (s.due i)
          (s.between i)
          (s.got i)
          (s.start i)
          (s.fifo.readers i)
