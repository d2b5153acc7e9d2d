-- ===== src/Buffer/Window.antt =====
-- Parts of a memory under `write_at`.
use qjhart_geostreams.Prelude.{
  ℕ, zero, suc, ◌+◌, ◌-◌, ◌≤◌, ◌<◌, ◌≡◌, refl, sym, ap, List, [], ◌∷◌, ◌++◌, arith, length, get_or,
  take, drop,
}
use qjhart_geostreams.Buffer.{write_at}

pub length-write_at : (i : ℕ) (bs m : List ℕ) → length (write_at i bs m) ≡ length m
unfolding write_at
length-write_at i bs [] = refl
length-write_at zero [] (x ∷ m) = refl
length-write_at zero (b ∷ bs) (x ∷ m) = ap suc (length-write_at zero bs m)
length-write_at (suc i) bs (x ∷ m) = ap suc (length-write_at i bs m)

take-write_at :
    (bs m : List ℕ) (k : ℕ) → length bs ≤ length m → k ≡ length bs → take k (write_at 0 bs m) ≡ bs
unfolding write_at
take-write_at [] m zero h e = refl
take-write_at [] m (suc k) h e = absurd (omega arith)
take-write_at (b ∷ bs) [] k h e = absurd (omega arith)
take-write_at (b ∷ bs) (x ∷ m) zero h e = absurd (omega arith)
take-write_at (b ∷ bs) (x ∷ m) (suc k) h e =
    ap (λ t. b ∷ t) (take-write_at bs m k (omega arith) (omega arith))

-- A write just behind a part of the memory extends that part.
pub take-write_at_behind :
    (n : ℕ) (bs m : List ℕ) (k : ℕ)
    → n + length bs ≤ length m
    → k ≡ n + length bs
    → take k (write_at n bs m) ≡ take n m ++ bs
unfolding write_at
take-write_at_behind zero bs m k h e = take-write_at bs m k (omega arith) (omega arith)
take-write_at_behind (suc n) bs [] k h e = absurd (omega arith)
take-write_at_behind (suc n) bs (x ∷ m) zero h e = absurd (omega arith)
take-write_at_behind (suc n) bs (x ∷ m) (suc k) h e =
    ap (λ t. x ∷ t) (take-write_at_behind n bs m k (omega arith) (omega arith))

pub slice-write_at :
    (i n : ℕ) (bs m : List ℕ) (j k : ℕ)
    → j ≡ i + n
    → j + length bs ≤ length m
    → k ≡ n + length bs
    → take k (drop i (write_at j bs m)) ≡ take n (drop i m) ++ bs
unfolding write_at
slice-write_at zero n bs m j k ej h ek =
    let e : j ≡ n = omega arith in rw e (take-write_at_behind n bs m k (omega arith) ek)
slice-write_at (suc i) n bs [] j k ej h ek = absurd (omega arith)
slice-write_at (suc i) n bs (x ∷ m) zero k ej h ek = absurd (omega arith)
slice-write_at (suc i) n bs (x ∷ m) (suc j) k ej h ek =
    slice-write_at i n bs m j k (omega arith) (omega arith) ek

pub drop-eq-cons : (i : ℕ) (m : List ℕ) → i < length m → drop i m ≡ get_or m i 0 ∷ drop (i + 1) m
drop-eq-cons i [] h = absurd (omega arith)
drop-eq-cons zero (x ∷ m) h = refl
drop-eq-cons (suc i) (x ∷ m) h =
    let e : suc i + 1 ≡ suc (i + 1) = omega arith in rw e (drop-eq-cons i m (omega arith))

pub slice-eq-cons :
    (r w : ℕ) (m : List ℕ)
    → r < w
    → w ≤ length m
    → take (w - r) (drop r m) ≡ get_or m r 0 ∷ take (w - (r + 1)) (drop (r + 1) m)
slice-eq-cons r w m h k =
    let e : w - r ≡ suc (w - (r + 1)) = omega arith in rw (e, drop-eq-cons r m (omega arith))

pub slice-eq-nil : (r w : ℕ) (m : List ℕ) → w ≤ r → take (w - r) (drop r m) ≡ []
slice-eq-nil r w m h = let e : w - r ≡ 0 = omega arith in rw e

take-nil : (k : ℕ) → take {A = ℕ} k [] ≡ []
take-nil zero = refl
take-nil (suc k) = refl

drop-nil : (k : ℕ) → drop {A = ℕ} k [] ≡ []
drop-nil zero = refl
drop-nil (suc k) = refl

pub take-add : (a b : ℕ) (m : List ℕ) → take (a + b) m ≡ take a m ++ take b (drop a m)
take-add zero b m = let e : 0 + b ≡ b = omega arith in rw e
take-add (suc a) b [] = let e : suc a + b ≡ suc (a + b) = omega arith in rw e (sym (take-nil b))
take-add (suc a) b (x ∷ m) =
    let e : suc a + b ≡ suc (a + b) = omega arith in rw e (ap (λ t. x ∷ t) (take-add a b m))

pub drop-add : (a b : ℕ) (m : List ℕ) → drop b (drop a m) ≡ drop (a + b) m
drop-add zero b m = let e : 0 + b ≡ b = omega arith in rw e
drop-add (suc a) b [] = let e : suc a + b ≡ suc (a + b) = omega arith in rw e (drop-nil b)
drop-add (suc a) b (x ∷ m) = let e : suc a + b ≡ suc (a + b) = omega arith in rw e (drop-add a b m)

pub length-slice : (r n : ℕ) (m : List ℕ) → r + n ≤ length m → length (take n (drop r m)) ≡ n
length-slice zero zero m h = refl
length-slice zero (suc n) [] h = absurd (omega arith)
length-slice zero (suc n) (x ∷ m) h = ap suc (length-slice zero n m (omega arith))
length-slice (suc r) n [] h = absurd (omega arith)
length-slice (suc r) n (x ∷ m) h = length-slice r n m (omega arith)

pub write_at-cons :
    (w c : ℕ) (cs m : List ℕ) → write_at (w + 1) cs (write_at w (c ∷ []) m) ≡ write_at w (c ∷ cs) m
unfolding write_at
write_at-cons w c cs [] = refl
write_at-cons zero c cs (x ∷ []) = refl
write_at-cons zero c [] (x ∷ y ∷ m) = refl
write_at-cons zero c (d ∷ cs) (x ∷ y ∷ m) = refl
write_at-cons (suc w) c cs (x ∷ m) =
    let e : suc w + 1 ≡ suc (w + 1) = omega arith in rw e (ap (λ t. x ∷ t) (write_at-cons w c cs m))

pub write_at-nil : (w : ℕ) (m : List ℕ) → write_at w [] m ≡ m
unfolding write_at
write_at-nil w [] = refl
write_at-nil zero (x ∷ m) = refl
write_at-nil (suc w) (x ∷ m) = ap (λ t. x ∷ t) (write_at-nil w m)

pub take-take : (j k : ℕ) (m : List ℕ) → j ≤ k → take j (take k m) ≡ take j m
take-take zero k m h = refl
take-take (suc j) zero m h = absurd (omega arith)
take-take (suc j) (suc k) [] h = refl
take-take (suc j) (suc k) (x ∷ m) h = ap (λ t. x ∷ t) (take-take j k m (omega arith))

take-prefix : (bs cs : List ℕ) (k : ℕ) → k ≡ length bs → take k (bs ++ cs) ≡ bs
take-prefix [] cs zero e = refl
take-prefix [] cs (suc k) e = absurd (omega arith)
take-prefix (b ∷ bs) cs zero e = absurd (omega arith)
take-prefix (b ∷ bs) cs (suc k) e = ap (λ t. b ∷ t) (take-prefix bs cs k (omega arith))

pub take-append_add :
    (xs bs cs : List ℕ) (j k : ℕ)
    → j ≡ length xs
    → k ≡ j + length bs
    → take k (xs ++ (bs ++ cs)) ≡ xs ++ bs
take-append_add [] bs cs j k h e = take-prefix bs cs k (omega arith)
take-append_add (x ∷ xs) bs cs j zero h e = absurd (omega arith)
take-append_add (x ∷ xs) bs cs j (suc k) h e =
    ap (λ t. x ∷ t) (take-append_add xs bs cs (length xs) k refl (omega arith))

pub take-all : (k : ℕ) (m : List ℕ) → length m ≤ k → take k m ≡ m
take-all zero [] h = refl
take-all zero (x ∷ m) h = absurd (omega arith)
take-all (suc k) [] h = refl
take-all (suc k) (x ∷ m) h = ap (λ t. x ∷ t) (take-all k m (omega arith))

pub length-drop : (n : ℕ) (m : List ℕ) → length (drop n m) ≡ length m - n
length-drop zero m = omega arith
length-drop (suc n) [] = omega arith
length-drop (suc n) (x ∷ m) = omega (arith, length-drop n m)

pub take-append-drop : (n : ℕ) (m : List ℕ) → take n m ++ drop n m ≡ m
take-append-drop zero m = refl
take-append-drop (suc n) [] = refl
take-append-drop (suc n) (x ∷ m) = ap (λ t. x ∷ t) (take-append-drop n m)
