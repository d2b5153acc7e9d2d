-- ===== src/Tests/Cascades.antt =====
-- A node of two regions, and two windows of which the second has moved on.
use qjhart_geostreams.Prelude.{
  ℕ, ◌≡◌, refl, true, false, ◌&&◌, Option, none, some, List, [], ◌∷◌, arith,
}
use qjhart_geostreams.Cascade.{
  Region, at_head, CascadeNode, Call, perform_window_query, at_node, shrink_max, shrink_max_from,
  shrink_min, shrink_min_from, shrink_min_head, grow_max, grow_max_from, grow_min, grow_min_from,
  deletes, inserts,
}
use qjhart_geostreams.Cascade.Effect.{effect}
use qjhart_geostreams.Cascade.Net.{seen}
use qjhart_geostreams.Cascade.Query.{Tracks}
use qjhart_geostreams.Cascade.Queries.{queries, met_last, queries_lem}
use qjhart_geostreams.Cascade.Entry.{insert_both, held_at, insert_both_misses}

abbrev region : ℕ → ℕ → ℕ → Region
region i low high = record { id = i; mins = λ d. low; maxs = λ d. high }

abbrev left : Region
left = region 1 2 5

abbrev right : Region
right = region 2 4 9

abbrev node : CascadeNode
node = record {
  dim_no = 0;
  max_dim_value = 20;
  curr_max_at_min_list = at_head ((2, left ∷ []) ∷ (4, right ∷ []) ∷ []);
  curr_min_at_max_list = at_head ((5, left ∷ []) ∷ (9, right ∷ []) ∷ []);
  old_min = none;
  old_max = none;
}

abbrev windows : List Region
windows = region 0 1 3 ∷ region 0 6 8 ∷ []

left-Tracks : Tracks node left true
left-Tracks = record {
  min_list = record {
    falling = tt;
    rising = ((omega arith, tt), (tt, tt));
    apart = tt;
    files_p = tt;
    files_a = ((refl, ((λ e. refl), tt)), ((refl, ((λ e. cc), tt)), tt));
  };
  max_list = record {
    falling = tt;
    rising = ((omega arith, tt), (tt, tt));
    apart = tt;
    files_p = tt;
    files_a = ((refl, ((λ e. refl), tt)), ((refl, ((λ e. cc), tt)), tt));
  };
  not_tail = tt;
  not_bare = λ e. ground arith;
  stands = (refl, refl, refl, refl);
}

queries_lem_example :
    (n' : CascadeNode) × (cs : List Call) × (queries node windows ≡ some (n', cs))
    × (effect cs 1 (true && seen 0 none none left) ≡ (true && met_last 0 false windows left))
    × Tracks n' left true
queries_lem_example =
    queries_lem node left true windows left-Tracks (omega arith, (omega arith, tt))

-- The first window meets the left region, and the second the right one only.
abbrev calls_of : Option (CascadeNode × List Call) → List Call
calls_of none = []
calls_of (some q) = q.1

two_windows :
    (effect (calls_of (queries node windows)) 1 false ≡ false)
    × (effect (calls_of (queries node windows)) 2 false ≡ true)
unfolding queries perform_window_query shrink_max shrink_max_from shrink_min shrink_min_from
    shrink_min_head grow_max grow_max_from grow_min grow_min_from deletes inserts
two_windows = (refl, refl)

-- After the two windows a region that meets the second one is inserted.
abbrev late : Region
late = region 3 5 7

abbrev after_windows : CascadeNode
after_windows = record node {
  curr_max_at_min_list = at_node ((2, left ∷ []) ∷ []) (4, right ∷ []) [];
  curr_min_at_max_list = at_node ((5, left ∷ []) ∷ []) (9, right ∷ []) [];
  old_min = some 6;
  old_max = some 8;
}

insert_both_misses_example :
    (n' : CascadeNode) × (cs : List Call) × (insert_both after_windows late ≡ some (n', cs))
    × (held_at 5 3 n'.curr_max_at_min_list ≡ true)
    × (held_at 7 3 n'.curr_min_at_max_list ≡ true)
    × (seen n'.dim_no n'.old_min n'.old_max late ≡ true)
    × (effect cs 3 false ≡ false)
insert_both_misses_example =
    insert_both_misses after_windows late 6 8 (omega arith) (omega arith) refl refl refl
      (omega arith)

-- A query of a node without regions reads the regions of the tail.
abbrev bare : CascadeNode
bare = record node { curr_max_at_min_list = at_head []; curr_min_at_max_list = at_head [] }

query-bare : perform_window_query bare (region 0 1 3) ≡ none
unfolding perform_window_query shrink_max shrink_min shrink_min_head
query-bare = refl
