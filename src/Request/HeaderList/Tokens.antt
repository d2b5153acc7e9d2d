-- ===== src/Request/HeaderList/Tokens.antt =====
-- The loop over the value of a Connection header in src/gvar/geostreamd/request.c against the texts
-- of its tokens.
use qjhart_geostreams.Prelude.{
  ℕ, zero, suc, ◌+◌, ◌<◌, ◌≡◌, ◌≢◌, refl, sym, ap, ◌∙◌, Bool, true, false, not, Option, none, some,
  List, [], ◌∷◌, ◌++◌, ◌&&◌, ◌||◌, ◌==◌, if◌then◌else◌, leb, same, codes, length, length-append,
  get_or, take, drop, arith, Bool-cases, inl, inr,
}
use qjhart_geostreams.Request.HeaderList.{
  skip_separators, token_length, trim, header_list_next, connection_token, connection_loop,
  same_nocase,
}

-- A token as clients write it: not empty, with no comma, blank or double quote.
abbrev pub plain : ℕ → Bool
plain c = not (c == b',' || c == b' ' || c == 34)

abbrev pub Plain : List ℕ → Type 0
Plain [] = Unit
Plain (c ∷ cs) = (plain c ≡ true) × Plain cs

abbrev pub PlainTokens : List (List ℕ) → Type 0
PlainTokens [] = Unit
PlainTokens (t ∷ ts) = (t ≢ []) × Plain t × PlainTokens ts

-- The tokens of a header's value behind its first, each after a comma and a blank.
abbrev pub more_tokens : List (List ℕ) → List ℕ
more_tokens [] = []
more_tokens (t ∷ ts) = b',' ∷ b' ' ∷ (t ++ more_tokens ts)

-- What one token asks for, by its text alone: `none` for a token that says nothing.
abbrev small : ℕ → ℕ
small c = if leb 65 c && leb c 90 then c + 32 else c

abbrev pub in_small : List ℕ → List ℕ
in_small [] = []
in_small (c ∷ cs) = small c ∷ in_small cs

abbrev pub asks : Bool → List ℕ → Option Bool
asks http11 t =
    if same (in_small t) (codes "keep-alive")
    then (if http11 then some true else none)
    else if same (in_small t) (codes "close")
    then some false
    else none

-- The last token that asks for something is the one that counts.
abbrev pub last_word : Option Bool → Option Bool → Option Bool
last_word first none = first
last_word first (some b) = some b

abbrev pub asked : Bool → List (List ℕ) → Option Bool
asked http11 [] = none
asked http11 (t ∷ ts) = last_word (asks http11 t) (asked http11 ts)

abbrev pub settled : Bool → Option Bool → Bool
settled keep_alive none = keep_alive
settled keep_alive (some b) = b

same_nocase-same : (t d : List ℕ) → same_nocase t d ≡ same (in_small t) d
unfolding same_nocase
same_nocase-same [] [] = refl
same_nocase-same [] (x ∷ d) = refl
same_nocase-same (c ∷ t) [] = refl
same_nocase-same (c ∷ t) (x ∷ d) = ap (λ b. small c == x && b) (same_nocase-same t d)

length-same : (t d : List ℕ) → same (in_small t) d ≡ true → length t ≡ length d
length-same [] [] h = refl
length-same [] (x ∷ d) h = cc
length-same (c ∷ t) [] h = cc
length-same (c ∷ t) (x ∷ d) h = ap suc (length-same t d (ground arith))

says_keep_alive :
    (http11 k b : Bool)
    → (if http11 then true else if b then false else k)
      ≡ settled k (if http11 then some true else if b then some false else none)
says_keep_alive true k b = refl
says_keep_alive false k true = refl
says_keep_alive false k false = refl

connection_token-asks :
    (http11 k : Bool) (t : List ℕ) → connection_token http11 k t ≡ settled k (asks http11 t)
unfolding connection_token
connection_token-asks http11 k t =
    rw (same_nocase-same t (codes "keep-alive"), same_nocase-same t (codes "close"))
      (elim (Bool-cases (same (in_small t) (codes "keep-alive"))) [
        | inl keep ↦ let n = length-same t (codes "keep-alive") keep in ground (arith, n)
        | inr other ↦ elim (Bool-cases (same (in_small t) (codes "close"))) [
          | inl close ↦ let n = length-same t (codes "close") close in ground (arith, n)
          | inr neither ↦ ground arith
        ]
      ])

connection_token-settled :
    (http11 k : Bool) (t : List ℕ) (rest : Option Bool)
    → settled (connection_token http11 k t) rest ≡ settled k (last_word (asks http11 t) rest)
connection_token-settled http11 k t none = connection_token-asks http11 k t
connection_token-settled http11 k t (some b) = refl

token_length-Plain :
    (lastc : ℕ) (t : List ℕ) (ts : List (List ℕ))
    → Plain t
    → token_length lastc false (t ++ more_tokens ts) ≡ length t
unfolding token_length
token_length-Plain lastc [] [] p = refl
token_length-Plain lastc [] (u ∷ ts) p = refl
token_length-Plain lastc (c ∷ t) ts p = ground (arith, token_length-Plain c t ts p.1)

get_or-append :
    (t rest : List ℕ) (l : ℕ)
    → Plain t
    → length t ≡ suc l
    → (get_or (t ++ rest) l 0 == b' ') ≡ false
get_or-append [] rest l p e = absurd (omega arith)
get_or-append (c ∷ t) rest zero p e = ground arith
get_or-append (c ∷ t) rest (suc l) p e = get_or-append t rest l p.1 (omega arith)

trim-Plain : (t rest : List ℕ) (l : ℕ) → Plain t → l ≡ length t → trim (t ++ rest) l ≡ l
unfolding trim
trim-Plain t rest zero p e = refl
trim-Plain t rest (suc l) p e = rw (get_or-append t rest l p (sym e))

next-Plain :
    (c : ℕ) (t : List ℕ) (ts : List (List ℕ))
    → Plain (c ∷ t)
    → header_list_next (c ∷ (t ++ more_tokens ts)) ≡ (c ∷ (t ++ more_tokens ts), suc (length t))
unfolding header_list_next
next-Plain c t ts p =
    let skip : skip_separators (c ∷ (t ++ more_tokens ts)) ≡ c ∷ (t ++ more_tokens ts) =
      ground arith in
    rw (
      skip,
      token_length-Plain 0 (c ∷ t) ts p,
      trim-Plain (c ∷ t) (more_tokens ts) (suc (length t)) p refl,
    )

next-separated : (s : List ℕ) → header_list_next (b',' ∷ b' ' ∷ s) ≡ header_list_next s
unfolding header_list_next
next-separated s = refl

take-token : (t rest : List ℕ) → take (length t) (t ++ rest) ≡ t
take-token [] rest = refl
take-token (c ∷ t) rest = ap (λ k. c ∷ k) (take-token t rest)

drop-token : (t rest : List ℕ) → drop (length t) (t ++ rest) ≡ rest
drop-token [] rest = refl
drop-token (c ∷ t) rest = drop-token t rest

suc_not_zero : (n : ℕ) → (suc n == 0) ≡ false
suc_not_zero n = ground arith

more_loop :
    (fuel : ℕ) (http11 : Bool) (ts : List (List ℕ)) (keep_alive : Bool)
    → PlainTokens ts
    → length (more_tokens ts) < fuel
    → connection_loop fuel http11 (more_tokens ts) keep_alive
      ≡ some (settled keep_alive (asked http11 ts))
unfolding connection_loop
more_loop zero http11 ts k p h = absurd (omega arith)
more_loop (suc fuel) http11 [] k p h = unfold header_list_next in refl
more_loop (suc fuel) http11 ([] ∷ ts) k p h = absurd (p.0 refl)
more_loop (suc fuel) http11 ((c ∷ t) ∷ ts) k p h =
    rw
      (
        next-separated ((c ∷ t) ++ more_tokens ts),
        next-Plain c t ts p.1,
        take-token t (more_tokens ts),
        drop-token t (more_tokens ts),
        suc_not_zero (length t),
      )
      (more_loop fuel http11 ts (connection_token http11 k (c ∷ t)) p.2
          (omega (arith, length-append t (more_tokens ts)))
        ∙ ap some (connection_token-settled http11 k (c ∷ t) (asked http11 ts)))

-- The loop over the value of a Connection header leaves what its last telling token asks for, where
-- the tokens are plain words with a comma and a blank between them: in any case of the letters
-- `close` asks for the end of the connection, and `keep-alive` for its life if the version is 1.1.
-- A token of another text says nothing, and where none asks for anything the flag stays.
pub connection_loop-tokens :
    (fuel : ℕ) (http11 : Bool) (t : List ℕ) (ts : List (List ℕ)) (keep_alive : Bool)
    → PlainTokens (t ∷ ts)
    → length (t ++ more_tokens ts) < fuel
    → connection_loop fuel http11 (t ++ more_tokens ts) keep_alive
      ≡ some (settled keep_alive (asked http11 (t ∷ ts)))
unfolding connection_loop
connection_loop-tokens zero http11 t ts k p h = absurd (omega arith)
connection_loop-tokens (suc fuel) http11 [] ts k p h = absurd (p.0 refl)
connection_loop-tokens (suc fuel) http11 (c ∷ t) ts k p h =
    rw
      (
        next-Plain c t ts p.1,
        take-token t (more_tokens ts),
        drop-token t (more_tokens ts),
        suc_not_zero (length t),
      )
      (more_loop fuel http11 ts (connection_token http11 k (c ∷ t)) p.2
          (omega (arith, length-append t (more_tokens ts)))
        ∙ ap some (connection_token-settled http11 k (c ∷ t) (asked http11 ts)))
