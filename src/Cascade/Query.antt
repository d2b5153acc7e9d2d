-- ===== src/Cascade/Query.antt =====
-- The window query of a node of src/dct/skip_list/CascadeNode.h: what it makes of the next node.
use qjhart_geostreams.Prelude.{
  ◌≤◌, ◌≡◌, ◌≢◌, refl, ◌∙◌, Bool, true, not, ◌&&◌, some, List, [], ◌++◌, ltb, arith,
}
use qjhart_geostreams.Cascade.{
  Region, Place, at_head, at_node, at_tail, CascadeNode, Call, above_old, below_old,
  perform_window_query,
}
use qjhart_geostreams.Cascade.Effect.{effect, effect-append}
use qjhart_geostreams.Cascade.Keyed.{IsSplit, keyed, upto, behind, before, from}
use qjhart_geostreams.Cascade.ShrinkMin.{shrink_min_lem}
use qjhart_geostreams.Cascade.Shrink.{NotTail, NotHead, shrink_max_lem}
use qjhart_geostreams.Cascade.Grow.{grow_max_lem, grow_min_lem}
use qjhart_geostreams.Cascade.Net.{meets, seen, Stands, net_lem, new-Stands}

-- A node with its lists in order, in which the region is filed under its two values or not at all.
pub record Tracks (n : CascadeNode) (r : Region) (filed : Bool) : Type 0 where
  pub min_list :
      IsSplit r (r.mins n.dim_no) (upto n.curr_max_at_min_list) (behind n.curr_max_at_min_list)
  pub max_list :
      IsSplit r (r.maxs n.dim_no) (before n.curr_min_at_max_list) (from n.curr_min_at_max_list)
  pub not_tail : NotTail n.curr_max_at_min_list
  pub not_bare : n.curr_min_at_max_list ≢ at_head []
  pub stands :
      Stands filed
        (keyed (r.mins n.dim_no) (upto n.curr_max_at_min_list))
        (keyed (r.mins n.dim_no) (behind n.curr_max_at_min_list))
        (keyed (r.maxs n.dim_no) (before n.curr_min_at_max_list))
        (keyed (r.maxs n.dim_no) (from n.curr_min_at_max_list))
        (r.mins n.dim_no)
        (r.maxs n.dim_no)
        n.old_min
        n.old_max

NotHead-bare : (l : Place) → NotHead l → l ≢ at_head []
NotHead-bare (at_head a) h e = h
NotHead-bare (at_node p x a) h e = ground arith
NotHead-bare (at_tail p) h e = ground arith

module _ (n : CascadeNode) (r : Region) (filed : Bool) (w : Region) (v : Tracks n r filed)
    (fits : w.maxs n.dim_no ≤ n.max_dim_value) where
  -- A query whose window does not pass the greatest value ends without a fault. Applied to the next
  -- node, its calls leave the region there exactly if it meets the window, where before it was
  -- there exactly if it met the window of the last query; a region whose values are keys of
  -- neither list stays out. The node's pointers stand for the new window.
  pub perform_window_query_lem :
      (n' : CascadeNode) × (cs : List Call) × (perform_window_query n w ≡ some (n', cs))
      × (effect cs r.id (filed && seen n.dim_no n.old_min n.old_max r)
          ≡ (filed && meets n.dim_no (w.mins n.dim_no) (w.maxs n.dim_no) r))
      × (n'.old_min ≡ some (w.mins n.dim_no))
      × (n'.old_max ≡ some (w.maxs n.dim_no))
      × (n'.dim_no ≡ n.dim_no)
      × (n'.max_dim_value ≡ n.max_dim_value)
      × Tracks n' r filed
  unfolding perform_window_query
  perform_window_query_lem =
      let d = n.dim_no in
      let c = r.mins d in
      let m = r.maxs d in
      let (m1, run1, t1, s1) =
        shrink_max_lem (above_old d n.old_min) (w.maxs d) r c n.curr_max_at_min_list v.not_tail
          v.min_list in
      let (m2, run2, (moved, (t2, s2, l2, g2, c2, o2, e2))) =
        shrink_min_lem (below_old d n.old_max) (w.mins d) r m n.curr_min_at_max_list v.not_bare
          v.max_list in
      let (m3, run3, (t3, s3, l3, g3, c3)) =
        grow_max_lem (λ q. ltb (w.mins d) (q.maxs d)) n.max_dim_value (w.maxs d) r c m1.0 t1 fits
          s1.split in
      let (m4, run4, (t4, s4, l4, g4, c4)) =
        grow_min_lem (λ q. ltb (q.mins d) (w.maxs d)) (w.mins d) r m m2.0 t2 s2 in
      let before_it = filed && seen d n.old_min n.old_max r in
      let u = keyed c (upto n.curr_max_at_min_list) in
      let b = keyed c (behind n.curr_max_at_min_list) in
      let p = keyed m (before n.curr_min_at_max_list) in
      let f = keyed m (from n.curr_min_at_max_list) in
      let over : (f && not moved) ≡ true → ltb (w.mins d) m ≡ true = λ e. e2 (g2 ∙ e) in
      let total =
        net_lem d r filed u b p f moved (w.mins d) (w.maxs d) o2 over n.old_min n.old_max
          v.stands in
      let standing =
        new-Stands d r filed u b p f moved (w.mins d) (w.maxs d) o2 over n.old_min n.old_max
          v.stands in
      (
        record n {
          curr_max_at_min_list = m3.0;
          curr_min_at_max_list = m4.0;
          old_min = some (w.mins d);
          old_max = some (w.maxs d);
        },
        m1.1 ++ (m2.1 ++ (m3.1 ++ m4.1)),
        rw run1 (rw run2 (rw run3 (rw run4 refl))),
        effect-append m1.1 (m2.1 ++ (m3.1 ++ m4.1)) r.id before_it
            ∙ (effect-append m2.1 (m3.1 ++ m4.1) r.id (effect m1.1 r.id before_it)
                ∙ (effect-append m3.1 m4.1 r.id (effect m2.1 r.id (effect m1.1 r.id before_it))
                    ∙ (c4 (effect m3.1 r.id (effect m2.1 r.id (effect m1.1 r.id before_it)))
                        ∙ (rw (c3 (effect m2.1 r.id (effect m1.1 r.id before_it))) (
                            rw (c2 (effect m1.1 r.id before_it))
                              (rw (s1.calls before_it) (rw (l2, s1.gained) total))))))),
        refl,
        refl,
        refl,
        refl,
        record {
          min_list = s3;
          max_list = s4;
          not_tail = t3;
          not_bare = NotHead-bare m4.0 t4;
          stands = rw (l3, g3, l4, g4) (rw (s1.left, s1.gained, l2, g2) standing);
        },
      )
