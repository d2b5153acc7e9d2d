-- ===== src/Gvar/Lines.antt =====
-- The lines of a block of src/libgvar/Block1or2.cpp, read back from their words.
use qjhart_geostreams.Prelude.{
  ℕ, zero, suc, ◌+◌, ◌-◌, ◌*◌, ◌≤◌, ◌<◌, ◌≡◌, refl, sym, ap, ◌∙◌, arith, ltb, true, false, some,
  List, [], ◌∷◌, ◌++◌, append_assoc, length, length-append, take, drop,
}
use qjhart_geostreams.Buffer.Window.{drop-add}
use qjhart_geostreams.Gvar.LineDoc.{
  LineDoc, lpixls, lwords, max_block_sz, from_words, line_doc_at, line_docs, words_of,
}

-- The counts of a line say what it holds: its pixels, and all its words.
pub record IsLine (d : LineDoc) (pad : List ℕ) : Type 0 where
  pub pixels : lpixls d ≡ length d.data_words
  pub all : lwords d ≡ length (words_of d pad)

pub take-prefix : (xs ys : List ℕ) (n : ℕ) → n ≡ length xs → take n (xs ++ ys) ≡ xs
take-prefix [] ys n e = rw e refl
take-prefix (x ∷ xs) ys zero e = absurd (omega arith)
take-prefix (x ∷ xs) ys (suc n) e = ap (λ l. x ∷ l) (take-prefix xs ys n (omega arith))

drop-prefix : (xs ys : List ℕ) (n : ℕ) → n ≡ length xs → drop n (xs ++ ys) ≡ ys
drop-prefix [] ys n e = rw e refl
drop-prefix (x ∷ xs) ys zero e = absurd (omega arith)
drop-prefix (x ∷ xs) ys (suc n) e = drop-prefix xs ys n (omega arith)

from_words-words :
    (room : ℕ) (d : LineDoc) (pad rest : List ℕ)
    → IsLine d pad
    → lpixls d ≤ room
    → from_words room (words_of d pad ++ rest) ≡ some d
unfolding from_words words_of lpixls
from_words-words room d pad rest v h =
    let fits : ltb room (d.lpixls_msb * 1024 + d.lpixls_lsb) ≡ false = ground arith in
    let e = take-prefix d.data_words (pad ++ rest) (lpixls d) v.pixels in
    rw (fits, append_assoc d.data_words pad rest, e) refl

line_doc_at-words :
    (old : LineDoc) (unpacked : List ℕ) (start : ℕ) (d : LineDoc) (pad rest : List ℕ)
    → IsLine d pad
    → drop start unpacked ≡ words_of d pad ++ rest
    → start + 16 + lpixls d ≤ max_block_sz
    → start + 16 < max_block_sz
    → line_doc_at old unpacked start ≡ some d
unfolding line_doc_at
line_doc_at-words old unpacked start d pad rest v e h k =
    let fits : ltb (start + 16) max_block_sz ≡ true = ground arith in
    rw (fits, e) (from_words-words (max_block_sz - start - 16) d pad rest v (omega arith))

length-words : (d : LineDoc) (pad : List ℕ) → IsLine d pad → 16 + lpixls d ≤ length (words_of d pad)
unfolding words_of
length-words d pad v = omega (arith, v.pixels, length-append d.data_words pad)

-- Lines with their padding, and the words that they are one behind the other.
abbrev pub AllLines : List (LineDoc × List ℕ) → Type 0
AllLines [] = Unit
AllLines (l ∷ ls) = IsLine (l.0) (l.1) × AllLines ls

abbrev pub all_words : List (LineDoc × List ℕ) → List ℕ
all_words [] = []
all_words (l ∷ ls) = words_of (l.0) (l.1) ++ all_words ls

abbrev pub docs_of : List (LineDoc × List ℕ) → List LineDoc
docs_of [] = []
docs_of (l ∷ ls) = l.0 ∷ docs_of ls

-- The loop of Block1or2 reads back any lines that stand one behind the other in the array, and end
-- before its end: every line's fields, and exactly its pixels. What stands behind them is not
-- looked at.
pub line_docs-words :
    (ls : List (LineDoc × List ℕ)) (old : LineDoc) (unpacked : List ℕ) (temp : ℕ) (rest : List ℕ)
    → AllLines ls
    → drop temp unpacked ≡ all_words ls ++ rest
    → temp + length (all_words ls) < max_block_sz
    → line_docs (length ls) old unpacked temp ≡ some (docs_of ls)
unfolding line_docs
line_docs-words [] old unpacked temp rest v e h = refl
line_docs-words ((d, pad) ∷ ls) old unpacked temp rest v e h =
    let w = words_of d pad in
    let rest' = all_words ls ++ rest in
    let here : drop temp unpacked ≡ w ++ rest' = e ∙ append_assoc w (all_words ls) rest in
    let sizes = length-append w (all_words ls) in
    let long = length-words d pad v.0 in
    let first =
      line_doc_at-words old unpacked temp d pad rest' v.0 here (omega arith) (omega arith) in
    let next : drop (temp + lwords d) unpacked ≡ rest' =
      sym (drop-add temp (lwords d) unpacked)
      ∙ ap (drop (lwords d)) here
      ∙ drop-prefix w rest' (lwords d) v.0.all in
    let later =
      line_docs-words ls old unpacked (temp + lwords d) rest v.1 next (omega (arith, v.0.all)) in
    rw first (rw later refl)
