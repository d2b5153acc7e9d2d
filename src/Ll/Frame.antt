-- ===== src/Ll/Frame.antt =====
-- A list of src/gvar/geostreamd/ll.c stays what it is while an operation works on another one.
use qjhart_geostreams.Prelude.{◌≡◌, ◌∙◌, true, false, List, [], ◌∷◌, arith}
use qjhart_geostreams.Ll.{Ptr, null, Ll, Items, Mem}
use qjhart_geostreams.Ll.Chain.{has, Fwd, Bwd, IsList, Spares}

pub Fwd-same :
    (next next' : Ptr → Ptr) (f : Ptr) (xs : List Ptr) (stop : Ptr)
    → Fwd next f xs stop
    → ((a : Ptr) → has a xs ≡ true → next' a ≡ next a)
    → Fwd next' f xs stop
Fwd-same next next' f [] stop c h = c
Fwd-same next next' f (x ∷ xs) stop c h = (
  c.0,
  c.1,
  rw (h x (ground arith)) (Fwd-same next next' (next x) xs stop c.2 λ a i. h a (ground arith)),
)

pub Bwd-same :
    (prev prev' : Ptr → Ptr) (b : Ptr) (xs : List Ptr) (l : Ptr)
    → Bwd prev b xs l
    → ((a : Ptr) → has a xs ≡ true → prev' a ≡ prev a)
    → Bwd prev' b xs l
Bwd-same prev prev' b [] l c h = c
Bwd-same prev prev' b (x ∷ xs) l c h =
    (h x (ground arith) ∙ c.0, Bwd-same prev prev' x xs l c.1 λ a i. h a (ground arith))

abbrev pub Apart : List Ptr → List Ptr → Type 0
Apart xs ys = (a : Ptr) → has a xs ≡ true → has a ys ≡ false

abbrev pub mem : Ll → Items → Mem
mem l i = record { ll = l; items = i }

-- The operation works on a list over `ys`, between the items of `m` and those of `n`.
pub IsList-frame :
    {l : Ll} {xs : List Ptr} (ys : List Ptr) (m n : Mem)
    → IsList (mem l m.items) xs
    → Spares ys m n
    → Apart xs ys
    → IsList (mem l n.items) xs
IsList-frame {l} {xs} ys m n v same apart = record {
  forward =
      Fwd-same m.items.next n.items.next l.head xs null v.forward λ a i. (same a (apart a i)).0;
  backward =
      Bwd-same m.items.prev n.items.prev null xs l.tail v.backward λ a i. (same a (apart a i)).1;
  distinct = v.distinct;
  unlocked = v.unlocked;
}
