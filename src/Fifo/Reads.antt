-- ===== src/Fifo/Reads.antt =====
-- Both halves of a read of src/geostreamd/fifo.h keep every reader in order.
use qjhart_geostreams.Prelude.{
  ℕ, ◌+◌, ◌-◌, ◌%◌, ◌<◌, ◌≡◌, ◌≢◌, refl, sym, ap, ◌∙◌, subst, arith, Bool-cases, inl, inr, true,
  false, Option, none, some, [], ◌∷◌, ◌++◌, length, get_or, ◌==◌,
}
use qjhart_geostreams.Fifo.{Reader, Fifo, put, wait, wait_by, fetch, fetch_by}
use qjhart_geostreams.Fifo.Readers.{InOrder, Follows, wait-InOrder, fetch-InOrder}
use qjhart_geostreams.Fifo.System.{System, Inv}
use qjhart_geostreams.Fifo.Steps.{put_same, put_other, all_readers}

none-some : {A : Type 0} (p : A) → none ≢ some p
none-some p e = cc

abbrev value {ℓ} : {A : Type ℓ} → A → Option A → A
value d none = d
value d (some p) = p

-- What a `sem_wait` that does not block does.
record IsWait (i : ℕ) (o : Option Reader) (f g : Fifo) : Type 0 where
  r : Reader
  is : o ≡ some r
  ready : 0 < r.count
  after : g ≡ record f {
    readers = put f.readers i (some (record { fifo_p = r.fifo_p; count = r.count - 1 }));
  }

wait_by-IsWait : (i : ℕ) (o : Option Reader) (f g : Fifo) → wait_by i o f ≡ some g → IsWait i o f g
wait_by-IsWait i none f g e = cc
wait_by-IsWait i (some r) f g e = elim (Bool-cases (r.count == 0)) [
  | inl z ↦ absurd (none-some g (rw z at e))
  | inr z ↦ record {
    r = r;
    is = refl;
    ready = ground arith;
    after = sym (ap (value g) (rw z at e));
  }
]

-- And what the look at the slot does.
record IsFetch (i : ℕ) (o : Option Reader) (f : Fifo) (x : ℕ) (g : Fifo) : Type 0 where
  r : Reader
  is : o ≡ some r
  datum : x ≡ f.slots r.fifo_p
  after : g ≡ record f {
    readers = put f.readers i (some (record { fifo_p = (r.fifo_p + 1) % f.size; count = r.count }));
  }

fetch_by-IsFetch :
    (i : ℕ) (o : Option Reader) (f : Fifo) (x : ℕ) (g : Fifo)
    → fetch_by i o f ≡ some (x, g)
    → IsFetch i o f x g
fetch_by-IsFetch i none f x g e = cc
fetch_by-IsFetch i (some r) f x g e =
    let pair = ap (value (x, g)) e in
    record { r = r; is = refl; datum = sym (ap (λ p. p.0) pair); after = sym (ap (λ p. p.1) pair) }

pub waits-Inv :
    (s : System) (i : ℕ) (f : Fifo)
    → s.between i ≡ false
    → wait i s.fifo ≡ some f
    → Inv s
    → Inv (record s { fifo = f; between = put s.between i true })
unfolding wait
waits-Inv s i f b e v =
    let size = s.fifo.size in
    let w = s.written in
    let d = wait_by-IsWait i (s.fifo.readers i) s.fifo f e in
    let r = d.r in
    let next : Reader = record { fifo_p = r.fifo_p; count = r.count - 1 } in
    let ordered : InOrder size w (s.due i) (s.between i) (s.got i) (s.start i) r =
      subst (Follows size w (s.due i) (s.between i) (s.got i) (s.start i)) d.is (v.readers i) in
    let out : InOrder size w (s.due i) false (s.got i) (s.start i) r =
      subst (λ c. InOrder size w (s.due i) c (s.got i) (s.start i) r) b ordered in
    rw (d.after) (record {
      positive = v.positive;
      place = v.place;
      ring = v.ring;
      readers =
          all_readers _ i
            (rw (put_same s.between i true i refl, put_same s.fifo.readers i (some next) i refl)
              (wait-InOrder size w (s.due i) (s.got i) (s.start i) r out d.ready))
            λ j ne.
              rw (put_other s.between i true j ne, put_other s.fifo.readers i (some next) j ne)
                (v.readers j);
    })

pub fetches-Inv :
    (s : System) (i x : ℕ) (f : Fifo)
    → s.between i ≡ true
    → fetch i s.fifo ≡ some (x, f)
    → Inv s
    → Inv (record s {
      fifo = f;
      between = put s.between i false;
      got = put s.got i (s.got i ++ x ∷ []);
    })
unfolding fetch
fetches-Inv s i x f b e v =
    let size = s.fifo.size in
    let w = s.written in
    let d = fetch_by-IsFetch i (s.fifo.readers i) s.fifo x f e in
    let r = d.r in
    let next : Reader = record { fifo_p = (r.fifo_p + 1) % size; count = r.count } in
    let ordered : InOrder size w (s.due i) (s.between i) (s.got i) (s.start i) r =
      subst (Follows size w (s.due i) (s.between i) (s.got i) (s.start i)) d.is (v.readers i) in
    let inside : InOrder size w (s.due i) true (s.got i) (s.start i) r =
      subst (λ c. InOrder size w (s.due i) c (s.got i) (s.start i) r) b ordered in
    let k = s.start i + length (s.got i) in
    let datum : x ≡ get_or w k 0 =
      d.datum
      ∙ ap s.fifo.slots inside.place
      ∙ v.ring k (omega (arith, inside.total)) (omega (arith, inside.total, inside.room)) in
    rw (d.after) (record {
      positive = v.positive;
      place = v.place;
      ring = v.ring;
      readers =
          all_readers _ i
            (rw
              (
                put_same s.between i false i refl,
                put_same s.got i (s.got i ++ x ∷ []) i refl,
                put_same s.fifo.readers i (some next) i refl,
              )
              (fetch-InOrder size w (s.due i) (s.got i) (s.start i) r x inside datum))
            λ j ne.
              rw
                (
                  put_other s.between i false j ne,
                  put_other s.got i (s.got i ++ x ∷ []) j ne,
                  put_other s.fifo.readers i (some next) j ne,
                )
                (v.readers j);
    })
