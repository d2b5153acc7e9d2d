-- ===== src/Cascade/Keyed.antt =====
-- Where a region stands in one of the lists of a node of src/dct/skip_list/CascadeNode.h.
use qjhart_geostreams.Prelude.{
  ℕ, ◌≤◌, ◌<◌, ◌≡◌, refl, Bool, false, ◌||◌, List, [], ◌∷◌, ◌==◌, arith,
}
use qjhart_geostreams.Cascade.{Region, Entry, Place, at_head, at_node, at_tail}
use qjhart_geostreams.Cascade.Effect.{has_id, IsOnly}

-- The entries are those of a list in which `r` is filed under the key `c`, and its identifier
-- under no other.
abbrev pub Files : Region → ℕ → List Entry → Type 0
Files r c [] = Unit
Files r c (e ∷ es) = ((has_id r.id e.1 ≡ (e.0 == c)) × IsOnly r e.1) × Files r c es

-- Whether one of the entries has the key `c`.
abbrev pub keyed : ℕ → List Entry → Bool
keyed c [] = false
keyed c (e ∷ es) = e.0 == c || keyed c es

abbrev pub AllKeys : (ℕ → Type 0) → List Entry → Type 0
AllKeys P [] = Unit
AllKeys P (e ∷ es) = P e.0 × AllKeys P es

-- The keys fall, as behind a pointer, or rise, as before it.
abbrev pub Falling : List Entry → Type 0
Falling [] = Unit
Falling (e ∷ es) = AllKeys (λ k. k < e.0) es × Falling es

abbrev pub Rising : List Entry → Type 0
Rising [] = Unit
Rising (e ∷ es) = AllKeys (λ k. e.0 < k) es × Rising es

-- Both sides of a pointer, each with keys on its side of every key of the other.
abbrev pub Apart : List Entry → List Entry → Type 0
Apart [] a = Unit
Apart (e ∷ p) a = AllKeys (λ k. e.0 < k) a × Apart p a

pub record IsSplit (r : Region) (c : ℕ) (p a : List Entry) : Type 0 where
  pub falling : Falling p
  pub rising : Rising a
  pub apart : Apart p a
  pub files_p : Files r c p
  pub files_a : Files r c a

pub AllKeys-imp :
    (P Q : ℕ → Type 0) (es : List Entry) → ((k : ℕ) → P k → Q k) → AllKeys P es → AllKeys Q es
AllKeys-imp P Q [] f a = tt
AllKeys-imp P Q (e ∷ es) f a = (f e.0 a.0, AllKeys-imp P Q es f a.1)

-- A key with a bound is not beyond it.
pub keyed_lt : (c n : ℕ) (es : List Entry) → AllKeys (λ k. k < n) es → n ≤ c → keyed c es ≡ false
keyed_lt c n [] a h = refl
keyed_lt c n (e ∷ es) a h = ground (arith, keyed_lt c n es)

pub keyed_gt : (c n : ℕ) (es : List Entry) → AllKeys (λ k. n < k) es → c ≤ n → keyed c es ≡ false
keyed_gt c n [] a h = refl
keyed_gt c n (e ∷ es) a h = ground (arith, keyed_gt c n es)

-- Moving the pointer over one entry keeps a split.
Apart-pop : (e : Entry) (p a : List Entry) → AllKeys (λ k. k < e.0) p → Apart p a → Apart p (e ∷ a)
Apart-pop e [] a h s = tt
Apart-pop e (f ∷ p) a h s = ((h.0, s.0), Apart-pop e p a h.1 s.1)

Apart-tail : (e : Entry) (p a : List Entry) → Apart p (e ∷ a) → Apart p a × AllKeys (λ k. k < e.0) p
Apart-tail e [] a s = (tt, tt)
Apart-tail e (f ∷ p) a s = let (r, b) = Apart-tail e p a s.1 in ((s.0.1, r), (s.0.0, b))

pub IsSplit-back :
    (r : Region) (c : ℕ) (e : Entry) (p a : List Entry)
    → IsSplit r c (e ∷ p) a
    → IsSplit r c p (e ∷ a)
IsSplit-back r c e p a s = record {
  falling = s.falling.1;
  rising = (s.apart.0, s.rising);
  apart = Apart-pop e p a s.falling.0 s.apart.1;
  files_p = s.files_p.1;
  files_a = (s.files_p.0, s.files_a);
}

pub IsSplit-on :
    (r : Region) (c : ℕ) (e : Entry) (p a : List Entry)
    → IsSplit r c p (e ∷ a)
    → IsSplit r c (e ∷ p) a
IsSplit-on r c e p a s =
    let (rest, below) = Apart-tail e p a s.apart in
    record {
      falling = (below, s.falling);
      rising = s.rising.1;
      apart = (s.rising.0, rest);
      files_p = (s.files_a.0, s.files_p);
      files_a = s.files_a.1;
    }

-- The two sides of a pointer whose node counts as passed, and of one whose node is ahead.
abbrev pub upto : Place → List Entry
upto (at_head a) = []
upto (at_node p e a) = e ∷ p
upto (at_tail p) = p

abbrev pub behind : Place → List Entry
behind (at_head a) = a
behind (at_node p e a) = a
behind (at_tail p) = []

abbrev pub before : Place → List Entry
before (at_head a) = []
before (at_node p e a) = p
before (at_tail p) = p

abbrev pub from : Place → List Entry
from (at_head a) = a
from (at_node p e a) = e ∷ a
from (at_tail p) = []
