-- ===== src/Fifo.antt =====
-- The fifo of src/geostreamd/fifo.h: a ring of data with one writer, and readers that each have a
-- semaphore for what they have not read yet. A datum is a number, and NULL is 0.
pub mod Ring
pub mod Readers
pub mod System
pub mod Steps
pub mod Reads
pub mod Order
use qjhart_geostreams.Prelude.{
  ℕ, zero, suc, ◌+◌, ◌-◌, ◌%◌, Bool, true, false, Option, none, some, List, [], ◌∷◌, ◌++◌, ◌==◌,
  leb, if◌then◌else◌,
}

-- `FifoReader`: its place in the ring, and the value of its semaphore.
pub record Reader : Type 0 where
  pub fifo_p : ℕ
  pub count : ℕ

-- `Fifo` with its writer. The readers of its set stand at their addresses.
pub record Fifo : Type 0 where
  pub size : ℕ
  pub slots : ℕ → ℕ
  pub write_p : ℕ
  pub readers : ℕ → Option Reader

abbrev pub put {ℓ} : {A : Type ℓ} → (ℕ → A) → ℕ → A → ℕ → A
put f i v a = if a == i then v else f a

-- `Fifo(num)` and `newWriter`.
unfoldable pub new_fifo : ℕ → Fifo
new_fifo num = record { size = num; slots = λ a. 0; write_p = 0; readers = λ a. none }

-- The part of `write` under the mutex.
unfoldable pub store : ℕ → Fifo → Fifo
store datum f = record f { slots = put f.slots f.write_p datum; write_p = (f.write_p + 1) % f.size }

-- A reader after `sem_post`: gone if its semaphore has come up to the size.
abbrev pub posted : ℕ → Reader → Option Reader
posted size r = let n = r.count + 1 in if leb size n then none else some (record r { count = n })

abbrev pub post_to : Option Reader → ℕ → Option Reader
post_to none size = none
post_to (some r) size = posted size r

-- A round of the loop of `write` over the readers: the post and the test behind it are one step.
unfoldable pub post : ℕ → Fifo → Fifo
post i f = record f { readers = put f.readers i (post_to (f.readers i) f.size) }

-- The `sem_wait` of `read`; `none` is a wait for the semaphore, or a reader that is gone.
abbrev pub wait_by : ℕ → Option Reader → Fifo → Option Fifo
wait_by i none f = none
wait_by i (some r) f =
    if r.count == 0
    then none
    else some (record f {
      readers = put f.readers i (some (record { fifo_p = r.fifo_p; count = r.count - 1 }));
    })

unfoldable pub wait : ℕ → Fifo → Option Fifo
wait i f = wait_by i (f.readers i) f

-- The rest of `read`, which takes no lock.
abbrev pub fetch_by : ℕ → Option Reader → Fifo → Option (ℕ × Fifo)
fetch_by i none f = none
fetch_by i (some r) f = some (
  f.slots r.fifo_p,
  record f {
    readers = put f.readers i (some (record { fifo_p = (r.fifo_p + 1) % f.size; count = r.count }));
  },
)

unfoldable pub fetch : ℕ → Fifo → Option (ℕ × Fifo)
fetch i f = fetch_by i (f.readers i) f

-- `newReader`, at the address `i`.
unfoldable pub new_reader : ℕ → Fifo → Fifo
new_reader i f = record f {
  readers = put f.readers i (some (record { fifo_p = f.write_p; count = 0 }));
}
