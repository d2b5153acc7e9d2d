-- ===== src/Gvar/Block.antt =====
-- A whole block of the imager, as the constructor of src/libgvar/Block1or2.cpp takes it apart.
use qjhart_geostreams.Prelude.{
  ℕ, ◌+◌, ◌-◌, ◌*◌, ◌/◌, ◌%◌, ◌<◌, ◌≡◌, refl, sym, ap, ◌∙◌, arith, Option, some, List, [], ◌∷◌,
  ◌++◌, length, take, drop,
}
use qjhart_geostreams.Gvar.Unpack.{unpack10, pack10, AllBelow, unpack10-pack10}
use qjhart_geostreams.Gvar.LineDoc.{LineDoc, max_block_sz, line_docs, num_of_line_docs}
use qjhart_geostreams.Gvar.Lines.{AllLines, all_words, docs_of, line_docs-words, take-prefix}
use qjhart_geostreams.Gvar.Header.{block_id, word_count, create_header, block_data, unpacked_bytes}

-- The constructor of `Block1or2`, over the bytes of a block. The array holds `memory` where
-- unpack10 does not write, and `old` is what the fields of a line without words hold. A word count
-- above 52353, with which unpack10 writes behind the array, is no fault here.
unfoldable pub block1or2 : ℕ → LineDoc → List ℕ → List ℕ → Option (List LineDoc)
block1or2 w old memory buff =
    let h = create_header buff in
    let words = unpack10 w (take (unpacked_bytes (word_count h)) (block_data buff)) in
    line_docs (num_of_line_docs (block_id h)) old (words ++ drop (length words) memory) 0

length-pack10 :
    (words : List ℕ) → length words % 4 ≡ 0 → length (pack10 words) ≡ length words * 10 / 8
unfolding pack10
length-pack10 [] h = refl
length-pack10 (p ∷ []) h = absurd (omega arith)
length-pack10 (p ∷ q ∷ []) h = absurd (omega arith)
length-pack10 (p ∷ q ∷ r ∷ []) h = absurd (omega arith)
length-pack10 (p ∷ q ∷ r ∷ s ∷ rest) h = omega (arith, length-pack10 rest (omega arith))

-- Block1or2 takes a whole block apart, where `unsigned long` has 32 bits: if the bytes behind the
-- three headers are those of the words of as many lines as the block's number says, each line says
-- truly how many pixels and words it has, the header counts the words and the two of the check sum,
-- and the words fill whole groups of four and less than the array, then it returns exactly those
-- lines with their pixels, whatever follows and whatever the memory held.
pub block1or2-lines :
    (old : LineDoc) (memory buff : List ℕ) (ls : List (LineDoc × List ℕ)) (more : List ℕ)
    → AllLines ls
    → AllBelow 1024 (all_words ls)
    → length (all_words ls) % 4 ≡ 0
    → length (all_words ls) < max_block_sz
    → length ls ≡ num_of_line_docs (block_id (create_header buff))
    → word_count (create_header buff) ≡ length (all_words ls) + 2
    → block_data buff ≡ pack10 (all_words ls) ++ more
    → block1or2 32 old memory buff ≡ some (docs_of ls)
unfolding block1or2 unpacked_bytes
block1or2-lines old memory buff ls more v below whole small number count bytes =
    let ws = all_words ls in
    let n = (word_count (create_header buff) - 2) * 10 / 8 in
    let size : n ≡ length (pack10 ws) = omega (arith, count, length-pack10 ws whole) in
    let taken : take n (block_data buff) ≡ pack10 ws =
      ap (take n) bytes ∙ take-prefix (pack10 ws) more n size in
    let words = unpack10-pack10 ws below whole in
    let lines =
      line_docs-words ls old (ws ++ drop (length ws) memory) 0 (drop (length ws) memory) v refl
        (omega arith) in
    rw (taken, words, sym number) lines
