-- ===== src/Cascade/Entry.antt =====
-- The insertion of a region into a node of src/dct/skip_list/CascadeNode.h, whose identifier lies
-- below the greatest one.
use qjhart_geostreams.Prelude.{
  ℕ, ◌≤◌, ◌<◌, ◌≡◌, refl, Bool, true, false, not, ◌&&◌, ◌||◌, Option, none, some, List, [], ◌∷◌,
  ◌++◌, leb, ltb, ◌==◌, arith, if◌then◌else◌,
}
use qjhart_geostreams.Cascade.{
  Region, Entry, Place, at_head, at_node, at_tail, CascadeNode, Call, cascade_insert, ◌>>=◌,
}
use qjhart_geostreams.Cascade.Effect.{has_id, effect}
use qjhart_geostreams.Cascade.Keyed.{before, from}
use qjhart_geostreams.Cascade.Net.{meets, seen}

-- `idList->insert (idTemp, region)`.
unfoldable pub add_region : Region → List Region → List Region
add_region r [] = r ∷ []
add_region r (q ∷ rs) =
    let rest = add_region r rs in
    if ltb q.id r.id then q ∷ rest else if q.id == r.id then q ∷ rs else r ∷ q ∷ rs

-- An entry for the key, found or inserted, among those ahead of a pointer.
unfoldable pub enter : ℕ → Region → List Entry → List Entry
unfolding add_region
enter k r [] = (k, r ∷ []) ∷ []
enter k r (e ∷ es) =
    let rest = enter k r es in
    if ltb e.0 k
    then e ∷ rest
    else if e.0 == k
    then (e.0, add_region r e.1) ∷ es
    else (k, r ∷ []) ∷ e ∷ es

-- And among those that it has passed.
unfoldable pub enter_back : ℕ → Region → List Entry → List Entry
unfolding add_region
enter_back k r [] = (k, r ∷ []) ∷ []
enter_back k r (e ∷ es) =
    let rest = enter_back k r es in
    if ltb k e.0
    then e ∷ rest
    else if e.0 == k
    then (e.0, add_region r e.1) ∷ es
    else (k, r ∷ []) ∷ e ∷ es

unfoldable pub enter_at : ℕ → Region → Place → Place
unfolding enter enter_back
enter_at k r (at_head a) = at_head (enter k r a)
enter_at k r (at_node p e a) =
    if e.0 == k
    then at_node p (e.0, add_region r e.1) a
    else if ltb k e.0
    then at_node (enter_back k r p) e a
    else at_node p e (enter k r a)
enter_at k r (at_tail p) = at_tail (enter_back k r p)

abbrev pub is_head : Place → Bool
is_head (at_head a) = true
is_head (at_node p e a) = false
is_head (at_tail p) = false

-- The key under a pointer that is not at the head.
abbrev pub key_under : ℕ → Place → ℕ
key_under top (at_head a) = 0
key_under top (at_node p e a) = e.0
key_under top (at_tail p) = top

-- `insertRegion (dimValue, idValue, region, isMin)`: the key of the tail, or one above it, leads
-- through NULL.
unfoldable pub insert_region : CascadeNode → ℕ → Region → Bool → Option (CascadeNode × List Call)
unfolding enter_at
insert_region n v r is_min =
    let mins = if is_min then enter_at v r n.curr_max_at_min_list else n.curr_max_at_min_list in
    let maxs = if is_min then n.curr_min_at_max_list else enter_at v r n.curr_min_at_max_list in
    let top = n.max_dim_value in
    let d = n.dim_no in
    let cascades =
      not (is_head mins)
      && (not (is_head maxs)
          && (ltb (key_under top maxs) (r.maxs d) && leb (r.mins d) (key_under top mins))) in
    if leb top v
    then none
    else some (
      record n { curr_max_at_min_list = mins; curr_min_at_max_list = maxs },
      if cascades then cascade_insert r ∷ [] else [],
    )

-- Both insertions of a region, for its least and its greatest value.
unfoldable pub insert_both : CascadeNode → Region → Option (CascadeNode × List Call)
unfolding insert_region
insert_both n r = do
  a ← insert_region n (r.mins n.dim_no) r true
  b ← insert_region a.0 (r.maxs n.dim_no) r false
  some (b.0, a.1 ++ b.1)

-- An insertion leaves the pointer at its key.
key_under-enter_at :
    (top k : ℕ) (r : Region) (l : Place) → key_under top (enter_at k r l) ≡ key_under top l
unfolding enter_at
key_under-enter_at top k r (at_head a) = refl
key_under-enter_at top k r (at_node p e a) = ground arith
key_under-enter_at top k r (at_tail p) = refl

-- The lists of a node after an insertion.
abbrev entered : CascadeNode → ℕ → Region → Bool → CascadeNode
entered n v r true = record n { curr_max_at_min_list = enter_at v r n.curr_max_at_min_list }
entered n v r false = record n { curr_min_at_max_list = enter_at v r n.curr_min_at_max_list }

insert_region-quiet :
    (n : CascadeNode) (v : ℕ) (r : Region) (is_min : Bool)
    → v < n.max_dim_value
    → r.maxs n.dim_no ≤ key_under n.max_dim_value n.curr_min_at_max_list
    → insert_region n v r is_min ≡ some (entered n v r is_min, [])
unfolding insert_region
insert_region-quiet n v r true low h = ground arith
insert_region-quiet n v r false low h =
    ground (arith, key_under-enter_at n.max_dim_value v r n.curr_min_at_max_list)

-- Whether a list files a region with the identifier under the key.
abbrev pub held : ℕ → ℕ → List Entry → Bool
held k i [] = false
held k i (e ∷ es) = e.0 == k && has_id i e.1 || held k i es

abbrev pub held_at : ℕ → ℕ → Place → Bool
held_at k i l = held k i (before l) || held k i (from l)

has_id-add_region : (r : Region) (rs : List Region) → has_id r.id (add_region r rs) ≡ true
unfolding add_region
has_id-add_region r [] = ground arith
has_id-add_region r (q ∷ rs) = ground (arith, has_id-add_region r rs)

held-enter : (k : ℕ) (r : Region) (es : List Entry) → held k r.id (enter k r es) ≡ true
unfolding enter
held-enter k r [] = ground arith
held-enter k r (e ∷ es) = ground (arith, held-enter k r es, has_id-add_region r e.1)

held-enter_back : (k : ℕ) (r : Region) (es : List Entry) → held k r.id (enter_back k r es) ≡ true
unfolding enter_back
held-enter_back k r [] = ground arith
held-enter_back k r (e ∷ es) = ground (arith, held-enter_back k r es, has_id-add_region r e.1)

-- An insertion files the region, wherever the pointer stands.
held_at-enter_at : (k : ℕ) (r : Region) (l : Place) → held_at k r.id (enter_at k r l) ≡ true
unfolding enter_at
held_at-enter_at k r (at_head a) = held-enter k r a
held_at-enter_at k r (at_node p e a) =
    ground (arith, held-enter_back k r p, held-enter k r a, has_id-add_region r e.1)
held_at-enter_at k r (at_tail p) = ground (arith, held-enter_back k r p)

-- A region that is inserted after a query, in both lists of the node, and that meets the window of
-- that query, so that the next node should have it: it is still not given to the next node if its
-- greatest value does not pass the key under the second pointer. The two values of the region are
-- below the greatest value of the dimension.
pub insert_both_misses :
    (n : CascadeNode) (r : Region) (omin omax : ℕ)
    → r.mins n.dim_no < n.max_dim_value
    → r.maxs n.dim_no < n.max_dim_value
    → n.old_min ≡ some omin
    → n.old_max ≡ some omax
    → meets n.dim_no omin omax r ≡ true
    → r.maxs n.dim_no ≤ key_under n.max_dim_value n.curr_min_at_max_list
    → (n' : CascadeNode) × (cs : List Call) × (insert_both n r ≡ some (n', cs))
      × (held_at (r.mins n.dim_no) r.id n'.curr_max_at_min_list ≡ true)
      × (held_at (r.maxs n.dim_no) r.id n'.curr_min_at_max_list ≡ true)
      × (seen n'.dim_no n'.old_min n'.old_max r ≡ true)
      × (effect cs r.id false ≡ false)
unfolding insert_both
insert_both_misses n r omin omax low high emin emax m h =
    let a = entered n (r.mins n.dim_no) r true in
    (
      entered a (r.maxs n.dim_no) r false,
      [],
      rw (insert_region-quiet n (r.mins n.dim_no) r true low h)
          (rw (insert_region-quiet a (r.maxs n.dim_no) r false high h) refl),
      held_at-enter_at (r.mins n.dim_no) r n.curr_max_at_min_list,
      held_at-enter_at (r.maxs n.dim_no) r n.curr_min_at_max_list,
      rw (emin, emax) m,
      refl,
    )
