-- ===== src/Tests/Lists.antt =====
-- A list of three items.
use qjhart_geostreams.Prelude.{refl, arith, [], ◌∷◌, ◌==◌, if◌then◌else◌}
use qjhart_geostreams.Ll.{Mem, unlink}
use qjhart_geostreams.Ll.Chain.{IsList, Spares, Detached, Returns}
use qjhart_geostreams.Ll.Unlink.{unlink_lem}

abbrev three : Mem
three = record {
  ll = record { head = 1; tail = 3; rwlock = record { readers_reading = 0; writers_writing = 0 } };
  items = record {
    prev = λ a. if a == 2 then 1 else if a == 3 then 2 else 0;
    next = λ a. if a == 1 then 2 else if a == 2 then 3 else 0;
  };
}

three-IsList : IsList three (1 ∷ 2 ∷ 3 ∷ [])
three-IsList = record {
  forward = ground arith;
  backward = ground arith;
  distinct = ground arith;
  unlocked = record { no_readers = refl; no_writers = refl };
}

unlink_lem_example :
    Returns
      (λ _ n. IsList n (1 ∷ 3 ∷ []) × Detached n 2 × Spares (1 ∷ 2 ∷ 3 ∷ []) three n)
      (unlink 2 three)
unlink_lem_example = unlink_lem (1 ∷ []) 2 (3 ∷ []) three-IsList
