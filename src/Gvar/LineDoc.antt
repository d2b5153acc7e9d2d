-- ===== src/Gvar/LineDoc.antt =====
-- src/libgvar/LineDoc.cpp and the loop of Block1or2.cpp: lines of the imager in unpacked words.
-- Uninitialised memory is an argument: `old` for the fields of an object, and what the array holds
-- behind the words that unpack10 wrote.
use qjhart_geostreams.Prelude.{
  ℕ, zero, suc, ◌+◌, ◌-◌, ◌*◌, ltb, Option, none, some, List, [], ◌∷◌, ◌++◌, take, drop, ◌==◌,
  if◌then◌else◌,
}

abbrev pub max_block_sz : ℕ
max_block_sz = 52348

-- `class LineDoc`.
pub record LineDoc : Type 0 where
  pub spcid : ℕ
  pub spsid : ℕ
  pub lside : ℕ
  pub lidet : ℕ
  pub licha : ℕ
  pub risct_msb : ℕ
  pub risct_lsb : ℕ
  pub l1scan : ℕ
  pub l2scan : ℕ
  pub lpixls_msb : ℕ
  pub lpixls_lsb : ℕ
  pub lwords_msb : ℕ
  pub lwords_lsb : ℕ
  pub lzcor : ℕ
  pub llag : ℕ
  pub lspar : ℕ
  pub data_words : List ℕ

unfoldable pub lpixls : LineDoc → ℕ
lpixls d = d.lpixls_msb * 1024 + d.lpixls_lsb

unfoldable pub lwords : LineDoc → ℕ
lwords d = d.lwords_msb * 1024 + d.lwords_lsb

-- A line without pixels.
abbrev pub no_pixels : LineDoc → LineDoc
no_pixels d = record d {
  lpixls_msb = 0;
  lpixls_lsb = 0;
  lwords_msb = 0;
  lwords_lsb = 0;
  data_words = [];
}

-- The fields from the words at `startpos`, with `room` words behind them in the array. `none` is a
-- read behind the array.
unfoldable pub from_words : ℕ → List ℕ → Option LineDoc
unfolding lpixls
from_words room (a ∷ b ∷ c ∷ d ∷ e ∷ f ∷ g ∷ h ∷ i ∷ j ∷ k ∷ l ∷ m ∷ n ∷ o ∷ p ∷ rest) =
    let doc : LineDoc = record {
      spcid = a;
      spsid = b;
      lside = c;
      lidet = d;
      licha = e;
      risct_msb = f;
      risct_lsb = g;
      l1scan = h;
      l2scan = i;
      lpixls_msb = j;
      lpixls_lsb = k;
      lwords_msb = l;
      lwords_lsb = m;
      lzcor = n;
      llag = o;
      lspar = p;
      data_words = take (j * 1024 + k) rest;
    } in
    if ltb room (j * 1024 + k) then some (no_pixels doc) else some doc
from_words room words = none

-- `LineDoc(uint16*, int)`.
unfoldable pub line_doc_at : LineDoc → List ℕ → ℕ → Option LineDoc
line_doc_at old unpacked startpos =
    if ltb (startpos + 16) max_block_sz
    then from_words (max_block_sz - startpos - 16) (drop startpos unpacked)
    else some (no_pixels old)

abbrev cons_doc : LineDoc → Option (List LineDoc) → Option (List LineDoc)
cons_doc d none = none
cons_doc d (some ds) = some (d ∷ ds)

abbrev next_doc : Option LineDoc → (LineDoc → Option (List LineDoc)) → Option (List LineDoc)
next_doc none k = none
next_doc (some d) k = cons_doc d (k d)

-- The loop of the constructor of `Block1or2`, from the word `temp`.
unfoldable pub line_docs : ℕ → LineDoc → List ℕ → ℕ → Option (List LineDoc)
line_docs zero old unpacked temp = some []
line_docs (suc count) old unpacked temp =
    next_doc (line_doc_at old unpacked temp) λ d. line_docs count old unpacked (temp + lwords d)

-- `numOfLineDocs`.
unfoldable pub num_of_line_docs : ℕ → ℕ
num_of_line_docs block_id = if block_id == 1 then 4 else 3

-- The words of a line, with `pad` behind its pixels.
unfoldable pub words_of : LineDoc → List ℕ → List ℕ
words_of d pad =
    d.spcid
    ∷ d.spsid
    ∷ d.lside
    ∷ d.lidet
    ∷ d.licha
    ∷ d.risct_msb
    ∷ d.risct_lsb
    ∷ d.l1scan
    ∷ d.l2scan
    ∷ d.lpixls_msb
    ∷ d.lpixls_lsb
    ∷ d.lwords_msb
    ∷ d.lwords_lsb
    ∷ d.lzcor
    ∷ d.llag
    ∷ d.lspar
    ∷ (d.data_words ++ pad)
