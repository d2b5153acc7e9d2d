-- ===== src/Cascade/Queries.antt =====
-- A sequence of window queries of a node of src/dct/skip_list/CascadeNode.h.
use qjhart_geostreams.Prelude.{
  ℕ, ◌≤◌, ◌≡◌, refl, ap, sym, ◌∙◌, subst, Bool, ◌&&◌, Option, some, List, [], ◌∷◌, ◌++◌,
}
use qjhart_geostreams.Cascade.{Region, CascadeNode, Call, perform_window_query, ◌>>=◌}
use qjhart_geostreams.Cascade.Effect.{effect, effect-append}
use qjhart_geostreams.Cascade.Net.{meets, seen}
use qjhart_geostreams.Cascade.Query.{Tracks, perform_window_query_lem}

-- The queries one after the other, with all their calls.
unfoldable pub queries : CascadeNode → List Region → Option (CascadeNode × List Call)
queries n [] = some (n, [])
queries n (w ∷ ws) = do
  q ← perform_window_query n w
  rest ← queries q.0 ws
  some (rest.0, q.1 ++ rest.1)

-- No window passes the greatest value of the dimension.
abbrev pub Within : ℕ → ℕ → List Region → Type 0
Within d top [] = Unit
Within d top (w ∷ ws) = (w.maxs d ≤ top) × Within d top ws

-- What the last window of a sequence meets.
abbrev pub met_last : ℕ → Bool → List Region → Region → Bool
met_last d before [] r = before
met_last d before (w ∷ ws) r = met_last d (meets d (w.mins d) (w.maxs d) r) ws r

-- Any sequence of window queries, none of which passes the greatest value, ends without a fault.
-- For a region that the node has under both its values, the calls of all of them leave it in the
-- next node exactly if it meets the last window, whatever the windows before were; without a
-- window it is where it was. A region whose values are keys of neither list stays out.
pub queries_lem :
    (n : CascadeNode) (r : Region) (filed : Bool) (ws : List Region)
    → Tracks n r filed
    → Within n.dim_no n.max_dim_value ws
    → (n' : CascadeNode) × (cs : List Call) × (queries n ws ≡ some (n', cs))
      × (effect cs r.id (filed && seen n.dim_no n.old_min n.old_max r)
          ≡ (filed && met_last n.dim_no (seen n.dim_no n.old_min n.old_max r) ws r))
      × Tracks n' r filed
unfolding queries
queries_lem n r filed [] v fits = (n, [], refl, refl, v)
queries_lem n r filed (w ∷ ws) v fits =
    let (n1, cs, run, e, lo, hi, d, top, v1) = perform_window_query_lem n r filed w v fits.0 in
    let (n', ds, rest, e', v') = queries_lem n1 r filed ws v1 (
      subst (λ z. Within z n1.max_dim_value ws) (sym d)
        (subst (λ z. Within n.dim_no z ws) (sym top) fits.1)) in
    let here = meets n.dim_no (w.mins n.dim_no) (w.maxs n.dim_no) r in
    let now : seen n1.dim_no n1.old_min n1.old_max r ≡ here = rw (lo, hi, d) refl in
    (
      n',
      cs ++ ds,
      rw run (rw rest refl),
      effect-append cs ds r.id (filed && seen n.dim_no n.old_min n.old_max r)
          ∙ (ap (effect ds r.id) e
              ∙ (ap (λ z. effect ds r.id (filed && z)) (sym now)
                  ∙ (e'
                      ∙ (ap (λ z. filed && met_last n1.dim_no z ws r) now
                          ∙ ap (λ z. filed && met_last z here ws r) d)))),
      v',
    )
