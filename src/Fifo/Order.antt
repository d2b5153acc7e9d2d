-- ===== src/Fifo/Order.antt =====
-- Every reader of src/geostreamd/fifo.h stays in order over all steps of the fifo.
use qjhart_geostreams.Prelude.{ℕ, ◌<◌, ◌≡◌, subst, some}
use qjhart_geostreams.Fifo.{Reader}
use qjhart_geostreams.Fifo.Readers.{InOrder, Follows}
use qjhart_geostreams.Fifo.System.{
  System, Step, writes, posts, waits, fetches, creates, InTime, Timely, begins, goes_on, Inv,
}
use qjhart_geostreams.Fifo.Steps.{begin-Inv, writes-Inv, posts-Inv, creates-Inv}
use qjhart_geostreams.Fifo.Reads.{waits-Inv, fetches-Inv}

Step-Inv : {s t : System} (st : Step s t) → InTime st → Inv s → Inv t
Step-Inv {s} (writes x idle) timely v = writes-Inv s x idle timely v
Step-Inv {s} (posts i d) timely v = posts-Inv s i d v
Step-Inv {s} (waits i f b e) timely v = waits-Inv s i f b e v
Step-Inv {s} (fetches i x f b e) timely v = fetches-Inv s i x f b e v
Step-Inv {s} (creates i idle) timely v = creates-Inv s i idle v

Timely-Inv : {size : ℕ} {s : System} → 0 < size → Timely size s → Inv s
Timely-Inv {size} h begins = begin-Inv size h
Timely-Inv h (goes_on r st t) = Step-Inv st t (Timely-Inv h r)

-- Over any order of writes, posts, new readers, waits and looks at a slot, from an empty fifo with
-- room for something, in which no write comes to the slot that a reader between its wait and its
-- look is about to read: a reader that has not been deleted has read exactly what was written since
-- it was created, in that order, nothing lost, repeated or overwritten before it was read; and its
-- semaphore, with the post that may be due and the read that may have begun, counts what it has
-- still to read. New readers come while no write is under way.
pub reader-InOrder :
    {size : ℕ} {s : System} (i : ℕ) (r : Reader)
    → 0 < size
    → Timely size s
    → s.fifo.readers i ≡ some r
    → InOrder s.fifo.size s.written (s.due i) (s.between i) (s.got i) (s.start i) r
reader-InOrder {size} {s} i r h reach e =
    subst (Follows s.fifo.size s.written (s.due i) (s.between i) (s.got i) (s.start i)) e
      ((Timely-Inv h reach).readers i)
