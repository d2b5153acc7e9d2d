-- ===== src/SkipList/Runs.antt =====
-- Any sequence of calls of a list of src/dct/skip_list/SkipList.h, against the ordered map.
use qjhart_geostreams.Prelude.{
  ℕ, suc, ◌+◌, ◌≤◌, ◌<◌, ◌≡◌, ◌≢◌, inl, inr, refl, ap, sym, ◌∙◌, subst, Bool, true, false, Option,
  none, some, List, [], ◌∷◌, ◌==◌, arith, length, if◌then◌else◌,
}
use qjhart_geostreams.SkipList.{Ptr, null, KeyOrder, SkipList, ◌>>=◌}
use qjhart_geostreams.SkipList
use qjhart_geostreams.SkipList.Ordered
use qjhart_geostreams.SkipList.Ordered.{find, entries}
use qjhart_geostreams.SkipList.Shape.{key_at, IsSkip, contents}
use qjhart_geostreams.SkipList.Retrieve.{object, retrieve_lem}
use qjhart_geostreams.SkipList.Insert.{insert_lem}
use qjhart_geostreams.SkipList.Remove.{remove_lem}
use qjhart_geostreams.SkipList.Start.{new_lem}

-- A call, with the draws of `newLevel` where it makes any.
pub data Call : Type 0 where
  insert : Ptr → Ptr → (ℕ → Bool) → Call
  remove : Ptr → Call
  retrieve : Ptr → Call

-- What a call tells its caller.
pub data Answer : Type 0 where
  done : Bool → Answer
  found : Option Ptr → Answer

abbrev pub key_of : Call → Ptr
key_of (insert k w draws) = k
key_of (remove k) = k
key_of (retrieve k) = k

abbrev pub is_some : Option Ptr → Bool
is_some none = false
is_some (some w) = true

abbrev pub Fits {ℓ} : {K : Type ℓ} → KeyOrder K → (Ptr → K) → K → List Call → Type 0
Fits o val bound [] = Unit
Fits o val bound (c ∷ cs) =
    ((o.less (val (key_of c)) bound ≡ true) × ((key_of c == null) ≡ false)) × Fits o val bound cs

module _ {ℓ} {K : Type ℓ} (o : KeyOrder K) (val : Ptr → K) where
  unfoldable pub call : ℕ → SkipList → Call → Option (Answer × SkipList)
  call f s (insert k w draws) = do (b, s1) ← SkipList.insert o val f s k w draws; some (done b, s1)
  call f s (remove k) = do (b, s1) ← SkipList.remove o val f s k; some (done b, s1)
  call f s (retrieve k) = do n ← SkipList.retrieve o val f s k; some (found (object s n), s)

  unfoldable pub run : ℕ → SkipList → List Call → Option (List Answer × SkipList)
  run f s [] = some ([], s)
  run f s (c ∷ cs) = do (a, s1) ← call f s c; (rest, s2) ← run f s1 cs; some (a ∷ rest, s2)

  -- The same call of the ordered map.
  unfoldable pub promise : List (K × Ptr) → Call → Answer × List (K × Ptr)
  promise m (insert k w draws) =
      let old = is_some (find o (val k) m) in
      if old then (done false, m) else (done true, Ordered.put o (val k) w m)
  promise m (remove k) =
      let old = is_some (find o (val k) m) in
      if old then (done true, Ordered.delete o (val k) m) else (done false, m)
  promise m (retrieve k) = (found (find o (val k) m), m)

  unfoldable pub replay : List (K × Ptr) → List Call → List Answer × List (K × Ptr)
  replay m [] = ([], m)
  replay m (c ∷ cs) = let r = promise m c in let rest = replay r.1 cs in (r.0 ∷ rest.0, rest.1)

  pub length-entries :
      (f : Ptr → K) (v : Ptr → Ptr) (xs : List Ptr) → length (entries f v xs) ≡ length xs
  length-entries f v [] = refl
  length-entries f v (x ∷ xs) = ap suc (length-entries f v xs)

  length-put : (k : K) (w : Ptr) (m : List (K × Ptr)) → length (Ordered.put o k w m) ≤ length m + 1
  length-put k w [] = omega arith
  length-put k w ((c, d) ∷ m) = ground (arith, length-put k w m)

  length-delete : (k : K) (m : List (K × Ptr)) → length (Ordered.delete o k m) ≤ length m
  length-delete k [] = omega arith
  length-delete k ((c, d) ∷ m) = ground (arith, length-delete k m)

  abbrev After : ℕ → SkipList → List Ptr → Call → Type ℓ
  After f s ns c =
      (s' : SkipList) × (ns' : List Ptr) × (call f s c
        ≡ some ((promise (contents val s ns) c).0, s'))
      × IsSkip o val s' ns'
      × (contents val s' ns' ≡ (promise (contents val s ns) c).1)
      × (key_at val s' s'.tail ≡ key_at val s s.tail)
      × (length ns' ≤ length ns + 1)

  none-or : (m : Option Ptr) → m ≢ none → is_some m ≡ true
  none-or none h = absurd (h refl)
  none-or (some a) h = refl

  call_lem :
      (f : ℕ) (s : SkipList) (ns : List Ptr) (c : Call)
      → IsSkip o val s ns
      → o.less (val (key_of c)) (key_at val s s.tail) ≡ true
      → (key_of c == null) ≡ false
      → length ns < f
      → After f s ns c
  unfolding call promise
  call_lem f s ns (insert k w draws) v b kn fuel =
      elim (insert_lem o val s k ns v b f w draws fuel kn) [
        | inl h ↦
            let old = none-or (find o (val k) (contents val s ns)) h.0 in
            (s, ns, rw (h.1) (rw old refl), v, rw old refl, refl, omega arith)
        | inr (h, (s', ns', e, w', c, t)) ↦ (
          s',
          ns',
          rw e (rw h refl),
          w',
          rw h c,
          t,
          omega (
            arith,
            length-entries (key_at val s') s'.obj ns',
            length-entries (key_at val s) s.obj ns,
            ap length c,
            length-put (val k) w (contents val s ns),
          ),
        )
      ]
  call_lem f s ns (remove k) v b kn fuel = elim (remove_lem o val s k ns v b f fuel) [
    | inl h ↦ (s, ns, rw (h.1) (rw (h.0) refl), v, rw (h.0) refl, refl, omega arith)
    | inr (h, (s', ns', e, w', c, t)) ↦
        let old = none-or (find o (val k) (contents val s ns)) h in
        (
          s',
          ns',
          rw e (rw old refl),
          w',
          rw old c,
          t,
          omega (
            arith,
            length-entries (key_at val s') s'.obj ns',
            length-entries (key_at val s) s.obj ns,
            ap length c,
            length-delete (val k) (contents val s ns),
          ),
        )
  ]
  call_lem f s ns (retrieve k) v b kn fuel =
      let (n, e, h) = retrieve_lem o val s k ns f v b fuel in
      (s, ns, rw e (rw h refl), v, refl, refl, omega arith)

  run_lem :
      (f : ℕ) (bound : K) (cs : List Call) (s : SkipList) (ns : List Ptr)
      → IsSkip o val s ns
      → key_at val s s.tail ≡ bound
      → Fits o val bound cs
      → length ns + length cs < f
      → (s' : SkipList) × (ns' : List Ptr) × (run f s cs
          ≡ some ((replay (contents val s ns) cs).0, s'))
        × IsSkip o val s' ns'
        × (contents val s' ns' ≡ (replay (contents val s ns) cs).1)
        × (key_at val s' s'.tail ≡ bound)
  unfolding run replay
  run_lem f bound [] s ns v e fits fuel = (s, ns, refl, v, refl, e)
  run_lem f bound (c ∷ cs) s ns v e fits fuel =
      let (s1, ns1, first, v1, c1, e1, short) =
        call_lem f s ns c v (subst (λ z. o.less (val (key_of c)) z ≡ true) (sym e) fits.0.0)
          fits.0.1 (omega arith) in
      let (s', ns', rest, v', c', t) = run_lem f bound cs s1 ns1 v1 (e1 ∙ e) fits.1 (omega arith) in
      (s', ns', rw first (rw rest (rw c1 refl)), v', c' ∙ rw c1 refl, t)

  -- A list made by the constructor, for any greatest height, answers any sequence of insertions,
  -- removals and retrievals of keys below the tail's as an empty ordered map does, whatever
  -- heights are drawn, with no fault and with fuel for one more than the calls; it ends as a skip
  -- list with the map's entries and the tail's key as it was given.
  pub run-new :
      (m : ℕ) (k : Ptr) (cs : List Call) (f : ℕ)
      → 1 ≤ m
      → (k == null) ≡ false
      → Fits o val (val k) cs
      → length cs < f
      → (s' : SkipList) × (ns' : List Ptr) × ((SkipList.new m k >>= λ s. run f s cs)
          ≡ some ((replay [] cs).0, s'))
        × IsSkip o val s' ns'
        × (contents val s' ns' ≡ (replay [] cs).1)
        × (key_at val s' s'.tail ≡ val k)
  run-new m k cs f h kn fits fuel =
      let (s, made, v, e) = new_lem o val m k h kn in
      let (s', ns', ran, v', c, t) = run_lem f (val k) cs s [] v e fits (omega arith) in
      (s', ns', rw made ran, v', c, t)
