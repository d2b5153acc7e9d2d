-- ===== src/Request/HeaderList.antt =====
-- header_list_next of src/gvar/geostreamd/request.c, and the loop over a Connection header that
-- calls it. A text is the list of its bytes without the NUL, a pointer into it what is left of it.
pub mod Elements
pub mod Tokens
use qjhart_geostreams.Prelude.{
  ℕ, zero, suc, ◌+◌, ◌-◌, Bool, true, false, not, Option, none, some, List, [], ◌∷◌, ◌&&◌, ◌||◌,
  ltb, leb, ◌==◌, if◌then◌else◌, length, get_or, take, drop, same, codes,
}

abbrev pub separates : ℕ → Bool
separates c = c == b',' || c == b' '

-- The first loop: leading commas and blanks.
unfoldable pub skip_separators : List ℕ → List ℕ
skip_separators [] = []
skip_separators (c ∷ s) = if separates c then skip_separators s else c ∷ s

-- The second loop: the number of bytes up to a comma outside a quoted string.
unfoldable pub token_length : ℕ → Bool → List ℕ → ℕ
token_length lastc inquotedstring [] = 0
token_length lastc inquotedstring (c ∷ s) =
    if c == b',' && not inquotedstring
    then 0
    else suc (
        token_length c
          (if c == 34 && (not inquotedstring || not (lastc == 92))
            then not inquotedstring
            else inquotedstring)
          s)

-- The third loop: trailing blanks are not counted.
unfoldable pub trim : List ℕ → ℕ → ℕ
trim s zero = zero
trim s (suc l) = if get_or s l 0 == b' ' then trim s l else suc l

-- The start of the next element, and its length.
unfoldable pub header_list_next : List ℕ → List ℕ × ℕ
unfolding skip_separators token_length trim
header_list_next s = let s' = skip_separators s in (s', trim s' (token_length 0 false s'))

-- `strncasecmp` of a whole token and a text in lower case.
abbrev pub to_lower : ℕ → ℕ
to_lower c = if leb b'A' c && leb c b'Z' then c + 32 else c

unfoldable pub same_nocase : List ℕ → List ℕ → Bool
same_nocase [] [] = true
same_nocase [] (d ∷ ds) = false
same_nocase (c ∷ cs) [] = false
same_nocase (c ∷ cs) (d ∷ ds) = to_lower c == d && same_nocase cs ds

abbrev pub keep_alive_token : List ℕ
keep_alive_token = codes "keep-alive"

abbrev pub close_token : List ℕ
close_token = codes "close"

-- What one token of the header does to `keep_alive`; `http11` says that the version is 1.1.
unfoldable pub connection_token : Bool → Bool → List ℕ → Bool
unfolding same_nocase
connection_token http11 keep_alive token =
    if length token == 10 && (same_nocase token keep_alive_token && http11)
    then true
    else if length token == 5 && same_nocase token close_token
    then false
    else keep_alive

-- The `while (1)` loop over the elements of the header's value.
unfoldable pub connection_loop : ℕ → Bool → List ℕ → Bool → Option Bool
connection_loop zero http11 value keep_alive = none
connection_loop (suc fuel) http11 value keep_alive =
    let (s, token_z) = header_list_next value in
    let rest =
      connection_loop fuel http11 (drop token_z s)
        (connection_token http11 keep_alive (take token_z s)) in
    if token_z == 0 then some keep_alive else rest
