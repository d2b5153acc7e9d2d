-- ===== src/Config/Ring.antt =====
-- The ring of servers that src/gvar/geostreamd/config.c builds.
use qjhart_geostreams.Prelude.{
  ℕ, zero, suc, ◌≡◌, ◌≢◌, refl, sym, ap, subst, ◌∙◌, none, some, List, [], ◌∷◌, ◌++◌, same,
  if◌then◌else◌, length, arith, Option-cases, ◌<◌, inl, inr,
}
use qjhart_geostreams.Config.{
  GsConfig, set_at, link_behind, link_server, select_head, chosen, select_from, select_server,
}

-- Each server points to the one behind it and back, and the last to the head `h` and back.
abbrev pub Links : (ℕ → ℕ) → (ℕ → ℕ) → ℕ → List ℕ → Type 0
Links next prev h [] = Unit
Links next prev h (x ∷ []) = (next x ≡ h) × (prev h ≡ x)
Links next prev h (x ∷ y ∷ ys) = (next x ≡ y) × (prev y ≡ x) × Links next prev h (y ∷ ys)

abbrev pub Fresh : ℕ → List ℕ → Type 0
Fresh y [] = Unit
Fresh y (x ∷ xs) = (y ≢ x) × Fresh y xs

abbrev pub AllFresh : List ℕ → Type 0
AllFresh [] = Unit
AllFresh (x ∷ xs) = Fresh x xs × AllFresh xs

-- The servers of the ring, in their order.
abbrev pub IsRing : GsConfig → List ℕ → Type 0
IsRing c [] = c.servers ≡ none
IsRing c (x ∷ xs) = (c.servers ≡ some x) × Links c.next c.prev x (x ∷ xs) × AllFresh (x ∷ xs)

Fresh-last :
    (next prev : ℕ → ℕ) (h y x : ℕ) (xs : List ℕ)
    → Fresh y (x ∷ xs)
    → Links next prev h (x ∷ xs)
    → y ≢ prev h
Fresh-last next prev h y x [] f l = ground arith
Fresh-last next prev h y x (z ∷ zs) f l = Fresh-last next prev h y z zs f.1 l.2

Links-snoc :
    (next prev : ℕ → ℕ) (h new y : ℕ) (ys : List ℕ)
    → Links next prev h (y ∷ ys)
    → AllFresh (y ∷ ys)
    → Fresh h ys
    → Fresh new (y ∷ ys)
    → new ≢ h
    → Links
        (set_at (set_at next (prev h) new) new h)
        (set_at (set_at prev new (prev h)) h new)
        h
        (y ∷ (ys ++ new ∷ []))
Links-snoc next prev h new y [] l d fh fn ne = ground arith
Links-snoc next prev h new y (z ∷ zs) l d fh fn ne =
    let last = Fresh-last next prev h y z zs d.0 l.2 in
    let more = Links-snoc next prev h new z zs l.2 d.1 fh.1 fn.1 ne in ground (arith, last, more)

Fresh-snoc : (new x : ℕ) (xs : List ℕ) → Fresh x xs → x ≢ new → Fresh x (xs ++ new ∷ [])
Fresh-snoc new x [] f ne = (ne, tt)
Fresh-snoc new x (y ∷ ys) f ne = (f.0, Fresh-snoc new x ys f.1 ne)

all-Fresh-snoc : (new : ℕ) (xs : List ℕ) → AllFresh xs → Fresh new xs → AllFresh (xs ++ new ∷ [])
all-Fresh-snoc new [] d f = (tt, tt)
all-Fresh-snoc new (x ∷ xs) d f =
    (Fresh-snoc new x xs d.0 (ground (arith, f.0)), all-Fresh-snoc new xs d.1 f.1)

-- `d` is `c` with the server `new` behind the servers `ids`, of the settings of the default.
abbrev pub IsExtended : GsConfig → List ℕ → ℕ → GsConfig → Type 0
IsExtended c ids new d =
    IsRing d (ids ++ new ∷ [])
    × (d.server new ≡ c.server c.def)
    × ((j : ℕ) → j ≢ new → d.server j ≡ c.server j)

-- A new section puts its server behind those of the sections before it, and leaves their settings
-- as they are; the new server starts with the settings of the default.
pub link_server-ring :
    (c : GsConfig) (ids : List ℕ) (new : ℕ)
    → IsRing c ids
    → Fresh new ids
    → IsExtended c ids new (link_server new c)
unfolding link_server link_behind
link_server-ring c [] new r f =
    subst (λ o. IsExtended c [] new (link_behind new c o)) (sym r)
      ((refl, ground arith, (tt, tt)), ground arith, λ j ne. ground arith)
link_server-ring c (x ∷ xs) new r f =
    let links = Links-snoc c.next c.prev x new x xs r.1 r.2 r.2.0 f f.0 in
    subst (λ o. IsExtended c (x ∷ xs) new (link_behind new c o)) (sym r.0)
      ((r.0, links, all-Fresh-snoc new (x ∷ xs) r.2 f), ground arith, λ j ne. ground arith)

-- The reference: the first server of the name, or the default.
unfoldable pub first_named : GsConfig → List ℕ → List ℕ → ℕ
first_named c hostname [] = c.def
first_named c hostname (x ∷ xs) = elim (c.server x).host [
  | none ↦ c.def
  | some host ↦ if same host hostname then x else first_named c hostname xs
]

abbrev pub AllNamed : GsConfig → List ℕ → Type 0
AllNamed c [] = Unit
AllNamed c (x ∷ xs) = ((c.server x).host ≢ none) × AllNamed c xs

select_from-first :
    (fuel : ℕ) (c : GsConfig) (hostname : List ℕ) (h x : ℕ) (xs : List ℕ)
    → length xs < fuel
    → Links c.next c.prev h (x ∷ xs)
    → Fresh h xs
    → AllNamed c (x ∷ xs)
    → select_from fuel c hostname h x ≡ chosen (first_named c hostname (x ∷ xs))
unfolding select_from first_named
select_from-first zero c hostname h x xs k l f n = absurd (omega arith)
select_from-first (suc fuel) c hostname h x [] k l f n = elim (Option-cases (c.server x).host) [
  | inl e ↦ absurd (n.0 e)
  | inr (host, e) ↦ ground arith
]
select_from-first (suc fuel) c hostname h x (y ∷ ys) k l f n =
    elim (Option-cases (c.server x).host) [
      | inl e ↦ absurd (n.0 e)
      | inr (host, e) ↦
          let rest = select_from-first fuel c hostname h y ys (omega arith) l.2 f.1 n.1 in
          ground (arith, rest)
    ]

-- The loop of main over a ring whose servers all have a host, with as much fuel as there are
-- servers, comes to an end: it chooses the first server whose host is the name that was asked for,
-- in the order of the ring, and the default where there is none.
pub select_server-first :
    (c : GsConfig) (hostname : List ℕ) (x : ℕ) (xs : List ℕ)
    → IsRing c (x ∷ xs)
    → AllNamed c (x ∷ xs)
    → select_server (length (x ∷ xs)) c hostname ≡ chosen (first_named c hostname (x ∷ xs))
unfolding select_server select_head
select_server-first c hostname x xs r n =
    ap (select_head (length (x ∷ xs)) c hostname) r.0
    ∙ select_from-first (length (x ∷ xs)) c hostname x x xs (omega arith) r.1 r.2.0 n
