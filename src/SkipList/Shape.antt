-- ===== src/SkipList/Shape.antt =====
-- When the memory of src/dct/skip_list/SkipList.h is a skip list, and which nodes it then holds.
use qjhart_geostreams.Prelude.{
  ℕ, ◌≤◌, ◌<◌, ◌≡◌, inl, inr, Bool-cases, true, false, List, [], ◌∷◌, ◌==◌, leb,
}
use qjhart_geostreams.SkipList.{Ptr, null, KeyOrder, SkipList}
use qjhart_geostreams.SkipList.Line.{Distinct, first_or, last_or, line, Linked}
use qjhart_geostreams.SkipList.Level.{All, at_level}
use qjhart_geostreams.SkipList.Ordered.{Ascending, entries}

-- The key object of a node.
abbrev pub key_at {ℓ} : {K : Type ℓ} → (Ptr → K) → SkipList → Ptr → K
key_at val s p = val (s.key p)

abbrev pub IsNode : SkipList → Ptr → Type 0
IsNode s n =
    (s.live n ≡ true)
    × (1 ≤ s.height n)
    × (s.height n ≤ s.cur_height)
    × ((s.key n == null) ≡ false)
    × (n < s.top)
    × ((n == null) ≡ false)

-- The heads of the lines: allocated, and as high as the list may become.
abbrev pub IsEnd : SkipList → Ptr → Type 0
IsEnd s e = (s.live e ≡ true) × (s.height e ≡ s.max_height) × (e < s.top) × ((e == null) ≡ false)

-- `ns` are the nodes between head and tail on the lowest level.
pub record IsSkip {ℓ} {K : Type ℓ} (o : KeyOrder K) (val : Ptr → K) (s : SkipList) (ns : List Ptr)
    : Type 0 where
  pub linked :
      (h : ℕ)
      → 1 ≤ h
      → h ≤ s.max_height
      → Linked (s.fwd h) (s.bck h) s.head (at_level s.height h ns) s.tail
  pub distinct : Distinct (line s.head ns s.tail)
  pub ascending : Ascending o (key_at val s) ns
  pub below_tail : All (λ n. o.less (key_at val s n) (key_at val s s.tail) ≡ true) ns
  pub nodes : All (IsNode s) ns
  pub head_end : IsEnd s s.head
  pub tail_end : IsEnd s s.tail
  pub tail_key : (s.key s.tail == null) ≡ false
  pub last : (h : ℕ) → s.fwd h s.tail ≡ null
  pub low : 1 ≤ s.cur_height
  pub high : s.cur_height ≤ s.max_height

-- What the list is for its users: the entries in the order of the lowest level.
abbrev pub contents {ℓ} : {K : Type ℓ} → (Ptr → K) → SkipList → List Ptr → List (K × Ptr)
contents val s ns = entries (key_at val s) s.obj ns

pub first_or-All {ℓ} :
    (P : Ptr → Type ℓ) (xs : List Ptr) (t : Ptr) → All P xs → P t → P (first_or xs t)
first_or-All P [] t a b = b
first_or-All P (x ∷ xs) t a b = a.0

pub last_or-All {ℓ} :
    (P : Ptr → Type ℓ) (a : Ptr) (xs : List Ptr) → P a → All P xs → P (last_or a xs)
last_or-All P a [] b c = b
last_or-All P a (x ∷ xs) b c = last_or-All P x xs c.0 c.1

-- A property of the nodes of a list, for those on one of its levels.
pub All-level {ℓ} :
    (height : Ptr → ℕ) (h : ℕ) (P : Ptr → Type ℓ) (xs : List Ptr)
    → All P xs
    → All (λ x. (leb h (height x) ≡ true) × P x) (at_level height h xs)
All-level height h P [] a = tt
All-level height h P (x ∷ xs) a = elim (Bool-cases (leb h (height x))) [
  | inl e ↦ rw e ((e, a.0), All-level height h P xs a.1)
  | inr e ↦ rw e (All-level height h P xs a.1)
]
