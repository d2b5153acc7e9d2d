-- ===== src/Server/Pool.antt =====
-- The pool of src/gvar/geostreamd/server.c against two lists of clients.
use qjhart_geostreams.Prelude.{
  ◌≡◌, ◌≢◌, refl, sym, ◌∙◌, subst, false≢true, true, false, List, [], ◌∷◌, ◌++◌, arith, Bool-cases,
  inl, inr,
}
use qjhart_geostreams.Ll
use qjhart_geostreams.Ll.{Ptr, null, Ll, Mem, ok, blocked, fault}
use qjhart_geostreams.Ll.Chain.{has, IsList, Returns, has-append}
use qjhart_geostreams.Ll.Frame.{mem, Apart, IsList-frame}
use qjhart_geostreams.Ll.Ends.{shift-nil, shift-cons, link_lem}
use qjhart_geostreams.Ll.Unlink.{unlink_lem, parts}
use qjhart_geostreams.Server.{
  Server, Run, done, stuck, and_then, free_result, busy_result, on_free, on_busy,
}

pub Apart-sym : (xs ys : List Ptr) → Apart xs ys → Apart ys xs
Apart-sym xs ys h a i = elim (Bool-cases (has a xs)) [
  | inl e ↦ absurd (false≢true (sym (h a e) ∙ i))
  | inr e ↦ e
]

-- The free clients `xs` and the busy clients `ys`, in their lists' order.
pub record IsPool (s : Server) (xs ys : List Ptr) : Type 0 where
  pub free_list : IsList (mem s.free_clients s.items) xs
  pub busy_list : IsList (mem s.busy_clients s.items) ys
  pub apart : Apart xs ys

abbrev pub Ends : {A : Type 0} → (A → Server → Type 0) → Run A → Type 0
Ends P (done a s) = P a s
Ends P stuck = ⊥

pub free-Ends :
    {A : Type 0} (s : Server) (o : Ll.Run A) (P : A → Mem → Type 0) (Q : A → Server → Type 0)
    → Returns P o
    → ((a : A) (m : Mem) → P a m → Q a (record s { free_clients = m.ll; items = m.items }))
    → Ends Q (free_result s o)
free-Ends s (ok a m) P Q p h = h a m p
free-Ends s blocked P Q p h = p
free-Ends s fault P Q p h = p

pub busy-Ends :
    {A : Type 0} (s : Server) (o : Ll.Run A) (P : A → Mem → Type 0) (Q : A → Server → Type 0)
    → Returns P o
    → ((a : A) (m : Mem) → P a m → Q a (record s { busy_clients = m.ll; items = m.items }))
    → Ends Q (busy_result s o)
busy-Ends s (ok a m) P Q p h = h a m p
busy-Ends s blocked P Q p h = p
busy-Ends s fault P Q p h = p

pub bind-Ends :
    {A B : Type 0} (o : Run A) (k : A → Server → Run B) (P : A → Server → Type 0)
    (Q : B → Server → Type 0)
    → Ends P o
    → ((a : A) (s : Server) → P a s → Ends Q (k a s))
    → Ends Q (and_then o k)
bind-Ends (done a s) k P Q p h = h a s p
bind-Ends stuck k P Q p h = p

-- A client taken from the free list, or put on a list.
pub shift-IsPool :
    {s : Server} (x : Ptr) (xs ys : List Ptr)
    → IsPool s (x ∷ xs) ys
    → Ends
        (λ c t. (c ≡ x) × IsPool t xs ys × (has x ys ≡ false) × (t.pending ≡ s.pending))
        (on_free Ll.shift s)
shift-IsPool {s} x xs ys v =
    let m = mem s.free_clients s.items in
    free-Ends s (Ll.shift m) _ _ (shift-cons v.free_list) λ c n (e, l, _, same). (
      e,
      record {
        free_list = l;
        busy_list = IsList-frame (x ∷ xs) m n v.busy_list same (Apart-sym (x ∷ xs) ys v.apart);
        apart = λ a i. v.apart a (ground arith);
      },
      v.apart x (ground arith),
      refl,
    )

pub link_free-IsPool :
    {s : Server} (c : Ptr) (xs ys : List Ptr)
    → IsPool s xs ys
    → c ≢ null
    → has c xs ≡ false
    → has c ys ≡ false
    → Ends (λ _ t. IsPool t (xs ++ c ∷ []) ys × (t.pending ≡ s.pending)) (on_free (Ll.link c) s)
link_free-IsPool {s} c xs ys v ne ox oy =
    let m = mem s.free_clients s.items in
    let apart : Apart (xs ++ c ∷ []) ys =
      λ a i. ground (arith, has-append a xs (c ∷ []), v.apart a) in
    free-Ends s (Ll.link c m) _ _ (link_lem xs c v.free_list ne ox) λ _ n (l, same). (
      record {
        free_list = l;
        busy_list =
            IsList-frame (xs ++ c ∷ []) m n v.busy_list same (Apart-sym (xs ++ c ∷ []) ys apart);
        apart = apart;
      },
      refl,
    )

pub link_busy-IsPool :
    {s : Server} (c : Ptr) (xs ys : List Ptr)
    → IsPool s xs ys
    → c ≢ null
    → has c xs ≡ false
    → has c ys ≡ false
    → Ends (λ _ t. IsPool t xs (ys ++ c ∷ []) × (t.pending ≡ s.pending)) (on_busy (Ll.link c) s)
link_busy-IsPool {s} c xs ys v ne ox oy =
    let m = mem s.busy_clients s.items in
    let apart : Apart xs (ys ++ c ∷ []) =
      λ a i. ground (arith, has-append a ys (c ∷ []), v.apart a) in
    busy-Ends s (Ll.link c m) _ _ (link_lem ys c v.busy_list ne oy) λ _ n (l, same). (
      record {
        free_list = IsList-frame (ys ++ c ∷ []) m n v.free_list same apart;
        busy_list = l;
        apart = apart;
      },
      refl,
    )

pub shift_empty-IsPool :
    {s : Server} (ys : List Ptr)
    → IsPool s [] ys
    → Ends (λ c t. (c ≡ null) × IsPool t [] ys × (t.pending ≡ s.pending)) (on_free Ll.shift s)
shift_empty-IsPool {s} ys v =
    let m = mem s.free_clients s.items in
    free-Ends s (Ll.shift m) _ _ (shift-nil v.free_list) λ c n (e, l, same). (
      e,
      record {
        free_list = l;
        busy_list = IsList-frame [] m n v.busy_list same (λ a i. refl);
        apart = λ a i. cc;
      },
      refl,
    )

pub unlink-IsPool :
    {s : Server} (xs ys : List Ptr) (c : Ptr) (zs : List Ptr)
    → IsPool s xs (ys ++ c ∷ zs)
    → Ends
        (λ _ t.
          IsPool t xs (ys ++ zs)
          × (c ≢ null)
          × (has c xs ≡ false)
          × (has c (ys ++ zs) ≡ false)
          × (t.pending ≡ s.pending))
        (on_busy (Ll.unlink c) s)
unlink-IsPool {s} xs ys c zs v =
    let m = mem s.busy_clients s.items in
    let w = parts m ys c zs v.busy_list in
    let all = ys ++ c ∷ zs in
    let in_all : has c all ≡ true = ground (arith, has-append c ys (c ∷ zs)) in
    let others : Apart xs (ys ++ zs) =
      λ a i. ground (arith, v.apart a i, has-append a ys (c ∷ zs), has-append a ys zs) in
    busy-Ends s (Ll.unlink c m) _ _ (unlink_lem ys c zs v.busy_list) λ _ n (l, _, same). (
      record {
        free_list = IsList-frame all m n v.free_list same v.apart;
        busy_list = l;
        apart = others;
      },
      w.ne,
      Apart-sym xs all v.apart c in_all,
      ground (arith, has-append c ys zs, w.out_xs, w.out_ys),
      refl,
    )

pub Ends-mono :
    {A : Type 0} (o : Run A) (P Q : A → Server → Type 0)
    → Ends P o
    → ((a : A) (s : Server) → P a s → Q a s)
    → Ends Q o
Ends-mono (done a s) P Q p h = h a s p
Ends-mono stuck P Q p h = p

-- What an operation ends in, where its result is known.
pub Ends-done :
    {A : Type 0} (o : Run A) (P : A → Server → Type 0) (a : A) (s : Server)
    → Ends P o
    → o ≡ done a s
    → P a s
Ends-done o P a s p e = subst (Ends P) e p
