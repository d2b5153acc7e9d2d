-- ===== src/Cascade.antt =====
-- A node of the tree of regions of src/dct/skip_list/CascadeNode.h, with Region.h: the window query
-- of one dimension. The two skip lists of a node are the ordered maps that SkipList promises, the
-- identifiers and the values of a dimension are numbers, and the regions of a key stand in the
-- order of their identifiers. A pointer to a node of such a list is a place in it. What a node does
-- to the next one is the list of its calls of `cascadeInsert` and `cascadeDelete`.
pub mod Effect
pub mod Keyed
pub mod Shrink
pub mod ShrinkMin
pub mod Grow
pub mod Net
pub mod Query
pub mod Queries
pub mod Entry
use qjhart_geostreams.Prelude.{
  ℕ, ◌≡◌, Bool, true, false, not, ◌&&◌, ◌||◌, Option, none, some, List, [], ◌∷◌, ◌++◌, leb, ltb,
  ◌==◌, if◌then◌else◌,
}

pub record Region : Type 0 where
  pub id : ℕ
  pub mins : ℕ → ℕ
  pub maxs : ℕ → ℕ

-- A node of `minList` or `maxList`: its key, and the regions of its own list.
abbrev pub Entry : Type 0
Entry = ℕ × List Region

-- A list with a pointer to its head, to a node or to its tail. What the pointer has passed is read
-- backwards.
pub data Place : Type 0 where
  at_head : List Entry → Place
  at_node : List Entry → Entry → List Entry → Place
  at_tail : List Entry → Place

pub data Call : Type 0 where
  cascade_insert : Region → Call
  cascade_delete : Region → Call

pub record CascadeNode : Type 0 where
  pub dim_no : ℕ
  pub max_dim_value : ℕ
  pub curr_max_at_min_list : Place
  pub curr_min_at_max_list : Place
  pub old_min : Option ℕ
  pub old_max : Option ℕ

-- The calls for the regions of one key that pass a test.
unfoldable pub deletes : (Region → Bool) → List Region → List Call
deletes test [] = []
deletes test (r ∷ rs) =
    let rest = deletes test rs in if test r then cascade_delete r ∷ rest else rest

unfoldable pub inserts : (Region → Bool) → List Region → List Call
inserts test [] = []
inserts test (r ∷ rs) =
    let rest = inserts test rs in if test r then cascade_insert r ∷ rest else rest

-- The loops of a query answer with the pointer's new place and the calls.
abbrev pub Moved : Type 0
Moved = Place × List Call

abbrev pub after_calls : List Call → Moved → Moved
after_calls cs m = (m.0, cs ++ m.1)

module _ (test : Region → Bool) (wmax : ℕ) where
  -- "max is shrinking", from a node.
  unfoldable pub shrink_max_from : List Entry → Entry → List Entry → Moved
  unfolding deletes
  shrink_max_from [] e a =
      if leb wmax e.0 then (at_head (e ∷ a), deletes test e.1) else (at_node [] e a, [])
  shrink_max_from (f ∷ p) e a =
      let rest = shrink_max_from p f (e ∷ a) in
      if leb wmax e.0 then after_calls (deletes test e.1) rest else (at_node (f ∷ p) e a, [])

  -- From the tail, the node before it is taken whatever its key.
  shrink_max_tail : List Entry → Option Moved
  shrink_max_tail [] = none
  shrink_max_tail (e ∷ []) = some (at_head (e ∷ []), deletes test e.1)
  shrink_max_tail (e ∷ f ∷ p) = some (after_calls (deletes test e.1) (shrink_max_from p f (e ∷ [])))

  unfoldable pub shrink_max : Place → Option Moved
  unfolding shrink_max_tail
  shrink_max (at_head a) = some (at_head a, [])
  shrink_max (at_node p e a) = some (shrink_max_from p e a)
  shrink_max (at_tail p) = shrink_max_tail p

module _ (test : Region → Bool) (wmin : ℕ) where
  -- "min is shrinking", from a node.
  unfoldable pub shrink_min_from : List Entry → Entry → List Entry → Moved
  unfolding deletes
  shrink_min_from p e [] =
      if leb e.0 wmin then (at_tail (e ∷ p), deletes test e.1) else (at_node p e [], [])
  shrink_min_from p e (f ∷ a) =
      let rest = shrink_min_from (e ∷ p) f a in
      if leb e.0 wmin then after_calls (deletes test e.1) rest else (at_node p e (f ∷ a), [])

  -- From the head, the first node is taken whatever its key.
  unfoldable pub shrink_min_head : List Entry → Option Moved
  shrink_min_head [] = none
  shrink_min_head (e ∷ []) = some (at_tail (e ∷ []), deletes test e.1)
  shrink_min_head (e ∷ f ∷ a) = some (after_calls (deletes test e.1) (shrink_min_from (e ∷ []) f a))

  unfoldable pub shrink_min : Place → Option Moved
  shrink_min (at_head a) = shrink_min_head a
  shrink_min (at_node p e a) = some (shrink_min_from p e a)
  shrink_min (at_tail p) = some (at_tail p, [])

module _ (test : Region → Bool) (max_dim wmax : ℕ) where
  -- "max is growing", from a node; the tail has the greatest key, and no regions to go through.
  unfoldable pub grow_max_from : List Entry → Entry → List Entry → Option Moved
  unfolding inserts
  grow_max_from p e [] = if ltb max_dim wmax then none else some (at_node p e [], [])
  grow_max_from p e (f ∷ a) =
      let rest = grow_max_from (e ∷ p) f a in
      if ltb f.0 wmax
      then elim rest [ none ↦ none | some m ↦ some (after_calls (inserts test f.1) m) ]
      else some (at_node p e (f ∷ a), [])

  unfoldable pub grow_max : Place → Option Moved
  grow_max (at_head []) = if ltb max_dim wmax then none else some (at_head [], [])
  grow_max (at_head (f ∷ a)) =
      if ltb f.0 wmax
      then elim (grow_max_from [] f a) [
        | none ↦ none
        | some m ↦ some (after_calls (inserts test f.1) m)
      ]
      else some (at_head (f ∷ a), [])
  grow_max (at_node p e a) = grow_max_from p e a
  grow_max (at_tail p) = some (at_tail p, [])

module _ (test : Region → Bool) (wmin : ℕ) where
  -- "min is growing", over the nodes before the pointer, with what lies from the pointer on.
  unfoldable pub grow_min_from : List Entry → Entry → List Entry → Moved
  unfolding inserts
  grow_min_from [] e a = (at_node [] e a, [])
  grow_min_from (f ∷ p) e a =
      let rest = grow_min_from p f (e ∷ a) in
      if ltb wmin f.0 then after_calls (inserts test f.1) rest else (at_node (f ∷ p) e a, [])

  -- Before the head there is nothing to read a key of.
  unfoldable pub grow_min : Place → Option Moved
  grow_min (at_head a) = none
  grow_min (at_node p e a) = some (grow_min_from p e a)
  grow_min (at_tail []) = some (at_tail [], [])
  grow_min (at_tail (f ∷ p)) =
      if ltb wmin f.0
      then some (after_calls (inserts test f.1) (grow_min_from p f []))
      else some (at_tail (f ∷ p), [])

-- The tests of the four loops.
abbrev pub above_old : ℕ → Option ℕ → Region → Bool
above_old d none r = true
above_old d (some v) r = ltb v (r.maxs d)

abbrev pub below_old : ℕ → Option ℕ → Region → Bool
below_old d none r = true
below_old d (some v) r = leb (r.mins d) v

infixl 5 ◌>>=◌
abbrev pub ◌>>=◌ : {A B : Type 0} → Option A → (A → Option B) → Option B
none >>= k = none
some a >>= k = k a

-- `performWindowQuery` of a node with a dimension, with its cascaded calls in their order.
unfoldable pub perform_window_query : CascadeNode → Region → Option (CascadeNode × List Call)
perform_window_query n w = do
  let d = n.dim_no
  let wmin = w.mins d
  let wmax = w.maxs d
  m1 ← shrink_max (above_old d n.old_min) wmax n.curr_max_at_min_list
  m2 ← shrink_min (below_old d n.old_max) wmin n.curr_min_at_max_list
  m3 ← grow_max (λ r. ltb wmin (r.maxs d)) n.max_dim_value wmax m1.0
  m4 ← grow_min (λ r. ltb (r.mins d) wmax) wmin m2.0
  some (
    record n {
      curr_max_at_min_list = m3.0;
      curr_min_at_max_list = m4.0;
      old_min = some wmin;
      old_max = some wmax;
    },
    m1.1 ++ (m2.1 ++ (m3.1 ++ m4.1)),
  )
