-- ===== src/Fifo/Steps.antt =====
-- The writes, the posts and the new readers of src/geostreamd/fifo.h keep every reader in order.
use native.Mathlib.Nat.{zero-mod}
use qjhart_geostreams.Prelude.{
  ℕ, ◌+◌, ◌%◌, ◌<◌, ◌≡◌, ◌≢◌, refl, sym, ap, ◌∙◌, subst, arith, Bool-cases, inl, inr, true, false,
  some, [], ◌∷◌, ◌++◌, length, length-append, ◌==◌,
}
use qjhart_geostreams.Fifo.{Reader, put, new_fifo, store, post, post_to, new_reader}
use qjhart_geostreams.Fifo.Ring.{mod_step, mod_apart, get_or-before, get_or-last}
use qjhart_geostreams.Fifo.Readers.{
  bit, live, waiting, Follows, write-Follows, post-Follows, new-InOrder,
}
use qjhart_geostreams.Fifo.System.{System, AtRest, begin, Inv}

pub put_same : {A : Type 0} (f : ℕ → A) (i : ℕ) (v : A) (a : ℕ) → a ≡ i → put f i v a ≡ v
put_same f i v a e = ground arith

pub put_other : {A : Type 0} (f : ℕ → A) (i : ℕ) (v : A) (a : ℕ) → a ≢ i → put f i v a ≡ f a
put_other f i v a e = ground arith

-- A statement on every reader from the one on the reader `i` and those on the others.
pub all_readers : (P : ℕ → Type 0) (i : ℕ) → P i → ((j : ℕ) → j ≢ i → P j) → (j : ℕ) → P j
all_readers P i h k j = elim (Bool-cases (j == i)) [
  | inl e ↦ subst P (ground arith) h
  | inr e ↦ k j (ground arith)
]

pub begin-Inv : (size : ℕ) → 0 < size → Inv (begin size)
unfolding begin new_fifo
begin-Inv size h = record {
  positive = h;
  place = sym (zero-mod size);
  ring = λ k lt le. absurd (omega arith);
  readers = λ i. tt;
}

pub writes-Inv :
    (s : System) (x : ℕ)
    → AtRest s
    → ((i : ℕ) → waiting (s.fifo.readers i) + bit (s.between i) < s.fifo.size)
    → Inv s
    → Inv (record s {
      fifo = store x s.fifo;
      due = λ i. live (s.fifo.readers i);
      written = s.written ++ x ∷ [];
    })
unfolding store
writes-Inv s x idle timely v =
    let size = s.fifo.size in
    let slots = s.fifo.slots in
    let wp = s.fifo.write_p in
    let w = s.written in
    let more = length-append w (x ∷ []) in
    record {
      positive = v.positive;
      place =
          ap (λ p. (p + 1) % size) v.place
          ∙ mod_step (length w) size
          ∙ ap (λ k. k % size) (omega (arith, more));
      ring = λ k lt le. elim (Bool-cases (k == length w)) [
        | inl e ↦
            let last : k ≡ length w = ground arith in
            put_same slots wp x (k % size) (ap (λ a. a % size) last ∙ sym v.place)
            ∙ sym (get_or-last w x k last)
        | inr e ↦
            let before : k < length w = ground (arith, more) in
            let near : length w < k + size = omega (arith, more, le) in
            let apart : k % size ≢ wp =
              λ i. mod_apart k (length w) size before near (i ∙ v.place) in
            put_other slots wp x (k % size) apart
            ∙ v.ring k before (omega (arith, near))
            ∙ sym (get_or-before w x k before)
      ];
      readers = λ i.
          write-Follows size w (s.between i) (s.got i) (s.start i) (s.fifo.readers i) x (timely i) (
            subst (λ b. Follows size w b (s.between i) (s.got i) (s.start i) (s.fifo.readers i))
              (idle i) (v.readers i));
    }

pub posts-Inv :
    (s : System) (i : ℕ)
    → s.due i ≡ true
    → Inv s
    → Inv (record s { fifo = post i s.fifo; due = put s.due i false })
unfolding post
posts-Inv s i d v =
    let size = s.fifo.size in
    let w = s.written in
    let o = s.fifo.readers i in
    let here : Follows size w true (s.between i) (s.got i) (s.start i) o =
      subst (λ b. Follows size w b (s.between i) (s.got i) (s.start i) o) d (v.readers i) in
    record {
      positive = v.positive;
      place = v.place;
      ring = v.ring;
      readers =
          all_readers _ i
            (rw (put_same s.due i false i refl, put_same s.fifo.readers i (post_to o size) i refl)
              (post-Follows size w (s.between i) (s.got i) (s.start i) o here))
            λ j ne.
              rw (put_other s.due i false j ne, put_other s.fifo.readers i (post_to o size) j ne)
                (v.readers j);
    }

pub creates-Inv :
    (s : System) (i : ℕ)
    → AtRest s
    → Inv s
    → Inv (record s {
      fifo = new_reader i s.fifo;
      between = put s.between i false;
      got = put s.got i [];
      start = put s.start i (length s.written);
    })
unfolding new_reader
creates-Inv s i idle v =
    let size = s.fifo.size in
    let w = s.written in
    let new : Reader = record { fifo_p = s.fifo.write_p; count = 0 } in
    record {
      positive = v.positive;
      place = v.place;
      ring = v.ring;
      readers =
          all_readers _ i
            (rw
              (
                put_same s.between i false i refl,
                put_same s.got i [] i refl,
                put_same s.start i (length w) i refl,
                put_same s.fifo.readers i (some new) i refl,
                idle i,
                v.place,
              )
              (new-InOrder size w v.positive))
            λ j ne.
              rw
                (
                  put_other s.between i false j ne,
                  put_other s.got i [] j ne,
                  put_other s.start i (length w) j ne,
                  put_other s.fifo.readers i (some new) j ne,
                )
                (v.readers j);
    }
