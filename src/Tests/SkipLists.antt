-- ===== src/Tests/SkipLists.antt =====
-- A list of numbers, with three calls made on it. Every key is the number of its address.
use qjhart_geostreams.Prelude.{
  ℕ, ◌≡◌, ◌≤◌, ◌<◌, refl, sym, subst, Bool, true, false, some, List, [], ◌∷◌, ◌==◌, arith, length,
  ltb, ap, ◌∙◌, if◌then◌else◌,
}
use qjhart_geostreams.SkipList
use qjhart_geostreams.SkipList.{SkipList, Ptr, null, new_level, ◌>>=◌}
use qjhart_geostreams.SkipList.Numbers.{number_order}
use qjhart_geostreams.SkipList.Line.{has, line}
use qjhart_geostreams.SkipList.Shape.{IsSkip, contents, key_at}
use qjhart_geostreams.SkipList.Height.{new_level_lem}
use qjhart_geostreams.SkipList.Runs.{
  Call, Fits, insert, retrieve, run, replay, promise, length-entries, run-new,
}
use qjhart_geostreams.SkipList.Retrieve.{object, retrieve_lem}
use qjhart_geostreams.SkipList.Ordered.{find}
use qjhart_geostreams.SkipList.Insert.{InsertOutcome, insert_lem}
use qjhart_geostreams.SkipList.Traverse.{print_fwd, print_bck, keys, print_lem}
use qjhart_geostreams.SkipList.Destroy.{destroy, destroy_lem}
use mathlib.Core.List.{reverse}

abbrev address : Ptr → ℕ
address p = p

abbrev higher : ℕ → Bool
higher t = t == 1

abbrev flat : ℕ → Bool
flat t = false

abbrev calls : List Call
calls = insert 5 50 higher ∷ insert 3 30 flat ∷ retrieve 5 ∷ []

-- What is known of the list after the calls.
abbrev Ran : Type 0
Ran =
    (s' : SkipList) × (ns' : List Ptr) × ((SkipList.new 3 99 >>= λ s.
    run number_order address 9 s calls)
      ≡ some ((replay number_order address [] calls).0, s'))
    × IsSkip number_order address s' ns'
    × (contents address s' ns' ≡ (replay number_order address [] calls).1)
    × (key_at address s' s'.tail ≡ 99)

calls_fit : Fits number_order address 99 calls
calls_fit = ((refl, refl), ((refl, refl), ((refl, refl), tt)))

ran : Ran
ran = run-new number_order address 3 99 calls 9 (omega arith) refl calls_fit (omega arith)

run-new_example : Ran
run-new_example =
    run-new number_order address 3 99 calls 9 (omega arith) refl calls_fit (omega arith)

-- What the map holds after the calls.
replay-calls : (replay number_order address [] calls).1 ≡ (3, 30) ∷ (5, 50) ∷ []
unfolding replay promise
replay-calls = refl

-- The list after the calls, its nodes, and what is known of them.
abbrev made : SkipList
made = ran.0

abbrev nodes : List Ptr
nodes = ran.1

two_nodes : length nodes ≡ 2
two_nodes =
    sym (length-entries number_order address (key_at address made) made.obj nodes)
    ∙ ap length (ran.4 ∙ replay-calls)

four-fits : ltb 4 (key_at address made made.tail) ≡ true
four-fits = subst (λ z. ltb 4 z ≡ true) (sym ran.5) refl

insert_lem_example : InsertOutcome number_order address made 4 nodes ran.3 four-fits 9 40 flat
insert_lem_example =
    insert_lem number_order address made 4 nodes ran.3 four-fits 9 40 flat
      (omega (arith, two_nodes)) refl

retrieve_lem_example :
    (n : Ptr) × (SkipList.retrieve number_order address 9 made 4 ≡ some n)
    × (object made n ≡ find number_order (address 4) (contents address made nodes))
retrieve_lem_example =
    retrieve_lem number_order address made 4 nodes 9 ran.3 four-fits (omega (arith, two_nodes))

print_lem_example :
    (print_fwd 9 made made.head ≡ some (keys made nodes))
    × (print_bck 9 made made.tail ≡ some (keys made (reverse nodes)))
print_lem_example = print_lem number_order address made nodes ran.3 9 (omega (arith, two_nodes))

destroy_lem_example :
    (s' : SkipList) × (destroy 9 made made.head ≡ some s')
    × ((z : Ptr)
        → s'.live z ≡ (if has z (line made.head nodes made.tail) then false else made.live z))
destroy_lem_example = destroy_lem number_order address made nodes ran.3 9 (omega (arith, two_nodes))

-- The first draw asks for a higher level, the second does not.
new_level_lem_example :
    (1 ≤ new_level 3 higher)
    × (new_level 3 higher ≤ 3)
    × ((j : ℕ) → 1 ≤ j → j < new_level 3 higher → higher j ≡ true)
    × (new_level 3 higher < 3 → higher (new_level 3 higher) ≡ false)
new_level_lem_example = new_level_lem 3 higher (omega arith)

new_level-higher : new_level 3 higher ≡ 2
unfolding new_level
new_level-higher = refl
