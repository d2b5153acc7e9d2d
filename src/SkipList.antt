-- ===== src/SkipList.antt =====
-- The skip lists of src/dct/skip_list/SkipList.h and SkipNode.h, on which the trees of regions of
-- src/dct/ stand. A node has an address; each of its fields is a function of the address, the
-- arrays `fwdNodes` and `bckNodes` of the level too. `none` is an access through NULL, to a node
-- that was deleted or beyond the end of a node's arrays.
-- The class is a template: the type of the keys, `operator<` and `operator==` are the record
-- `KeyOrder`, and `val` gives the key object that an address holds.
pub mod Numbers
pub mod Line
pub mod Level
pub mod Ordered
pub mod Shape
pub mod Height
pub mod Search
pub mod Retrieve
pub mod Gap
pub mod Splice
pub mod Grown
pub mod Inserted
pub mod Insert
pub mod Cut
pub mod Lower
pub mod Out
pub mod Taken
pub mod Remove
pub mod Start
pub mod Runs
pub mod Traverse
pub mod Iterate
pub mod WithKey
pub mod Destroy
use qjhart_geostreams.Prelude.{
  ℕ, zero, suc, ◌+◌, ◌-◌, ◌≡◌, Bool, true, false, not, ◌&&◌, Option, none, some, leb, ltb, ◌==◌,
  if◌then◌else◌, List, [], ◌∷◌,
}

abbrev pub Ptr : Type 0
Ptr = ℕ

abbrev pub null : Ptr
null = 0

-- The keys of an instance of the template, with the laws that the order relies on.
pub record KeyOrder {ℓ} (K : Type ℓ) : Type ℓ where
  pub less : K → K → Bool
  pub same : K → K → Bool
  pub same_refl : (a : K) → same a a ≡ true
  pub same→eq : (a b : K) → same a b ≡ true → a ≡ b
  pub less_irrefl : (a : K) → less a a ≡ false
  pub less_trans : (a b c : K) → less a b ≡ true → less b c ≡ true → less a c ≡ true
  pub less_total : (a b : K) → less a b ≡ false → same a b ≡ false → less b a ≡ true

-- The nodes, and the fields of the list. Addresses from `top` on are not in use yet.
pub record SkipList : Type 0 where
  pub live : Ptr → Bool
  pub height : Ptr → ℕ
  pub key : Ptr → Ptr
  pub obj : Ptr → Ptr
  pub fwd : ℕ → Ptr → Ptr
  pub bck : ℕ → Ptr → Ptr
  pub top : Ptr
  pub head : Ptr
  pub tail : Ptr
  pub max_height : ℕ
  pub cur_height : ℕ

module _ {ℓ} {A : Type ℓ} where
  abbrev pub update : (ℕ → A) → ℕ → A → ℕ → A
  update f p q a = if a == p then q else f a

abbrev pub update_at : (ℕ → Ptr → Ptr) → ℕ → Ptr → Ptr → ℕ → Ptr → Ptr
update_at f h p q j = if j == h then update (f j) p q else f j

infixl 5 ◌>>=◌
abbrev pub ◌>>=◌ {ℓ κ} : {A : Type ℓ} {B : Type κ} → Option A → (A → Option B) → Option B
none >>= k = none
some a >>= k = k a

-- A node `p` that has a level `h`.
abbrev pub reaches : SkipList → ℕ → Ptr → Bool
reaches s h p = s.live p && leb h (s.height p)

abbrev pub get_fwd : SkipList → ℕ → Ptr → Option Ptr
get_fwd s h p = if reaches s h p then some (s.fwd h p) else none

abbrev pub get_bck : SkipList → ℕ → Ptr → Option Ptr
get_bck s h p = if reaches s h p then some (s.bck h p) else none

abbrev pub set_fwd : SkipList → ℕ → Ptr → Ptr → Option SkipList
set_fwd s h p q = if reaches s h p then some (record s { fwd = update_at s.fwd h p q }) else none

abbrev pub set_bck : SkipList → ℕ → Ptr → Ptr → Option SkipList
set_bck s h p q = if reaches s h p then some (record s { bck = update_at s.bck h p q }) else none

abbrev pub get_key : SkipList → Ptr → Option Ptr
get_key s p = if s.live p then some (s.key p) else none

-- `delete p`, which gives back the node with its arrays; its key and its object stay.
abbrev pub free : SkipList → Ptr → SkipList
free s p = record s { live = update s.live p false }

-- `new SkipNode (k, o, h)`, with all links NULL; the node is the address `top`.
unfoldable pub new_node : Ptr → Ptr → ℕ → SkipList → SkipList
new_node k o h s = record s {
  live = update s.live s.top true;
  height = update s.height s.top h;
  key = update s.key s.top k;
  obj = update s.obj s.top o;
  fwd = λ j. update (s.fwd j) s.top null;
  bck = λ j. update (s.bck j) s.top null;
  top = suc s.top;
}

-- The loop of the constructor, with the levels that are left from `x` on.
unfoldable pub attach : ℕ → ℕ → SkipList → Option SkipList
attach zero x s = some s
attach (suc r) x s = do
  s1 ← set_fwd s x s.head s.tail
  s2 ← set_bck s1 x s.tail s.head
  attach r (suc x) s2

-- No node is allocated.
abbrev pub no_nodes : ℕ → SkipList
no_nodes m = record {
  live = λ _. false;
  height = λ _. 0;
  key = λ _. null;
  obj = λ _. null;
  fwd = λ _ _. null;
  bck = λ _ _. null;
  top = 1;
  head = 1;
  tail = 2;
  max_height = m;
  cur_height = 1;
}

-- `SkipList (p, m, k)`.
unfoldable pub new : ℕ → Ptr → Option SkipList
unfolding attach new_node
new m k = attach m 1 (new_node k null m (new_node null null m (no_nodes m)))

-- `RandomHeight::newLevel`, with the levels that are left; `draws t` tells whether the draw at
-- level `t` came out below the probability.
new_level_from : ℕ → ℕ → (ℕ → Bool) → ℕ
new_level_from zero t draws = t
new_level_from (suc r) t draws =
    let higher = new_level_from r (suc t) draws in if draws t then higher else t

unfoldable pub new_level : ℕ → (ℕ → Bool) → ℕ
unfolding new_level_from
new_level m draws = new_level_from (m - 1) 1 draws

-- `for (int i = i0; ...) updateVec[i] = head`, for `r` levels.
pub raise : ℕ → ℕ → Ptr → (ℕ → Ptr) → ℕ → Ptr
raise zero i head vec = vec
raise (suc r) i head vec = raise r (suc i) head (update vec i head)

-- The loop of `insert` that links the node `p` in, for `r` levels from `i` on.
unfoldable pub link_levels : ℕ → ℕ → Ptr → (ℕ → Ptr) → SkipList → Option SkipList
link_levels zero i p vec s = some s
link_levels (suc r) i p vec s = do
  n ← get_fwd s i (vec i)
  s1 ← set_fwd s i p n
  n1 ← get_fwd s1 i (vec i)
  s2 ← set_bck s1 i n1 p
  s3 ← set_fwd s2 i (vec i) p
  s4 ← set_bck s3 i p (vec i)
  link_levels r (suc i) p vec s4

-- The loop of `remove` that takes the node `t` out, for `r` levels from `i` on.
unfoldable pub unlink_levels : ℕ → ℕ → Ptr → (ℕ → Ptr) → SkipList → Option SkipList
unlink_levels zero i t vec s = some s
unlink_levels (suc r) i t vec s = do
  x ← get_fwd s i (vec i)
  if not (x == t) then some s else do
    n ← get_fwd s i t
    s1 ← set_fwd s i (vec i) n
    n1 ← get_fwd s1 i t
    s2 ← set_bck s1 i n1 (vec i)
    unlink_levels r (suc i) t vec s2

-- `while (curHeight > 1 && head->fwdNodes[curHeight]->getKey () == tail->getKey ()) curHeight--`.
unfoldable pub lower : ℕ → SkipList → Option SkipList
lower zero s = some s
lower (suc zero) s = some s
lower (suc (suc c)) s = do
  x ← get_fwd s (suc (suc c)) s.head
  a ← get_key s x
  b ← get_key s s.tail
  if a == b then lower (suc c) (record s { cur_height = suc c }) else some s

module _ {ℓ} {K : Type ℓ} (o : KeyOrder K) (val : Ptr → K) where
  -- `*p->getKey ()`.
  abbrev pub value : SkipList → Ptr → Option K
  value s p = do k ← get_key s p; if k == null then none else some (val k)

  -- The inner loop of a search: along level `h` from `tmp`, while the next key is less than `*k`.
  unfoldable pub walk : ℕ → SkipList → ℕ → Ptr → Ptr → Option Ptr
  walk zero s h k tmp = none
  walk (suc f) s h k tmp = do
    n ← get_fwd s h tmp
    c ← value s n
    elim (o.less c (val k)) [ true ↦ walk f s h k n | false ↦ some tmp ]

  -- The outer loop, from level `h` down, with `updateVec`.
  unfoldable pub search_down : ℕ → SkipList → Ptr → ℕ → Ptr → (ℕ → Ptr) → Option (Ptr × (ℕ → Ptr))
  search_down f s k zero tmp vec = some (tmp, vec)
  search_down f s k (suc h) tmp vec = do
    t ← walk f s (suc h) k tmp
    search_down f s k h t (update vec (suc h) t)

  -- What the four operations begin with: the node after the search, `updateVec`, and whether the
  -- node's key is the one sought.
  unfoldable pub locate : ℕ → SkipList → Ptr → Option (Ptr × (ℕ → Ptr) × Bool)
  locate f s k = do
    (t, vec) ← search_down f s k s.cur_height s.head (λ _. null)
    n ← get_fwd s 1 t
    c ← value s n
    some (n, vec, o.same c (val k))

  unfoldable pub retrieve : ℕ → SkipList → Ptr → Option Ptr
  retrieve f s k = do (n, vec, hit) ← locate f s k; some (if hit then n else null)

  -- `draws` are the draws of `newLevel`.
  unfoldable pub insert : ℕ → SkipList → Ptr → Ptr → (ℕ → Bool) → Option (Bool × SkipList)
  unfolding raise
  insert f s k v draws = do
    (n, vec, dup) ← locate f s k
    let lvl = new_level s.max_height draws
    let cur = s.cur_height
    let vec1 = if ltb cur lvl then raise (lvl - cur) (suc cur) s.head vec else vec
    let s1 = record s { cur_height = if ltb cur lvl then lvl else cur }
    elim dup [
      | true ↦ some (false, s)
      | false ↦ do s2 ← link_levels lvl 1 s.top vec1 (new_node k v lvl s1); some (true, s2)
    ]

  unfoldable pub remove : ℕ → SkipList → Ptr → Option (Bool × SkipList)
  remove f s k = do
    (t, vec, hit) ← locate f s k
    elim hit [
      | true ↦ do
        s1 ← unlink_levels s.cur_height 1 t vec s
        s2 ← lower s1.cur_height (free s1 t)
        some (true, s2)
      | false ↦ some (false, s)
    ]
