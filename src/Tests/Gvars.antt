-- ===== src/Tests/Gvars.antt =====
-- Words, times and lines of a GVAR block.
use qjhart_geostreams.Prelude.{
  ℕ, ◌≡◌, refl, arith, ◌+◌, ◌≤◌, ◌↔◌, some, List, [], ◌∷◌, ◌++◌, length,
}
use qjhart_geostreams.Prelude.{replicate}
use qjhart_geostreams.Gvar.Unpack.{unpack10, pack10, unpack10-pack10}
use qjhart_geostreams.Gvar.Time.{
  set_time, tag, year, day, hrs, min, sec, msec, time_code_generator_state, Fits, set_time-tag,
}
use qjhart_geostreams.Gvar.Time.Calendar.{
  num_of_days_in_month, month, dayofmonth, is, days_between, month-days,
}
use qjhart_geostreams.Gvar.LineDoc.{num_of_line_docs, LineDoc, words_of, lpixls, lwords}
use qjhart_geostreams.Gvar.Lines.{IsLine, all_words}
use qjhart_geostreams.Gvar.Block.{block1or2, block1or2-lines}
use qjhart_geostreams.Gvar.Header.{
  Header, header, create_header, block_id, block_data, word_count, unpacked_bytes, unpack10_room,
}

abbrev four : List ℕ
four = 1023 ∷ 0 ∷ 517 ∷ 300 ∷ []

unpack10-pack10_example : unpack10 32 (pack10 four) ≡ four
unpack10-pack10_example = unpack10-pack10 four (ground arith) refl

new_year : Fits 1 2004 366 23 59 58 999
new_year = record {
  one_bit = omega arith;
  years = omega arith;
  days = omega arith;
  hours = omega arith;
  minutes = omega arith;
  seconds = omega arith;
  milliseconds = omega arith;
}

set_time-tag_example :
    let c = set_time (tag 1 2004 366 23 59 58 999) in
    (time_code_generator_state c ≡ 1)
    × (year c ≡ 2004)
    × (day c ≡ 366)
    × (hrs c ≡ 23)
    × (min c ≡ 59)
    × (sec c ≡ 58)
    × (msec c ≡ 999)
set_time-tag_example = set_time-tag 1 2004 366 23 59 58 999 new_year

-- Day 31 of a year is the first day of February when counted from 0.
month-days_example :
    (month 2004 (days_between 1 1 2004 + 0) ≡ is (1 + 1))
    × (dayofmonth 2004 (days_between 1 1 2004 + 0) ≡ is 0)
unfolding num_of_days_in_month
month-days_example = month-days 1 2004 0 (omega arith) (ground arith)

day_31 : (month 2004 31 ≡ is 2) × (dayofmonth 2004 31 ≡ is 0)
unfolding month dayofmonth num_of_days_in_month
day_31 = month-days_example

-- A line of two pixels.
abbrev line : LineDoc
line = record {
  spcid = 8;
  spsid = 1;
  lside = 0;
  lidet = 5;
  licha = 1;
  risct_msb = 0;
  risct_lsb = 7;
  l1scan = 0;
  l2scan = 0;
  lpixls_msb = 0;
  lpixls_lsb = 2;
  lwords_msb = 0;
  lwords_lsb = 19;
  lzcor = 0;
  llag = 0;
  lspar = 0;
  data_words = 100 ∷ 200 ∷ [];
}

-- A block 2 of three such lines, a word longer each.
abbrev long_line : LineDoc
long_line = record line { lwords_lsb = 20 }

long_line-IsLine : IsLine long_line (9 ∷ 9 ∷ [])
unfolding words_of lpixls lwords
long_line-IsLine = record { pixels = refl; all = refl }

abbrev three_lines : List (LineDoc × List ℕ)
three_lines = replicate 3 (long_line, 9 ∷ 9 ∷ [])

abbrev block_2 : List ℕ
block_2 = 2 ∷ 10 ∷ 0 ∷ 62 ∷ replicate 86 0 ++ (pack10 (all_words three_lines) ++ 7 ∷ [])

block1or2-lines_example :
    block1or2 32 line [] block_2 ≡ some (long_line ∷ long_line ∷ long_line ∷ [])
unfolding words_of create_header header word_count block_id block_data num_of_line_docs
block1or2-lines_example =
    block1or2-lines line [] block_2 three_lines (7 ∷ [])
      (long_line-IsLine, (long_line-IsLine, (long_line-IsLine, tt))) (ground arith) refl
      (omega arith) refl refl refl

-- A header with the word count 6: four words in five bytes, and the check sum.
abbrev small_header : Header
small_header = record {
  block_id_byte = 1;
  word_size_byte = 10;
  word_count_msb = 0;
  word_count_lsb = 6;
  product_id_msb = 0;
  product_id_lsb = 0;
  repeat_flag = 0;
  version_number = 0;
  data_valid = 1;
  ascii_bin = 0;
  range_word = 0;
  block_count_msb = 0;
  block_count_lsb = 1;
  crc_msb = 0;
  crc_lsb = 0;
}

five_bytes : 5 ≡ unpacked_bytes (word_count small_header)
unfolding unpacked_bytes word_count
five_bytes = refl

unpack10_room_example :
    (length (unpack10 32 (1 ∷ 2 ∷ 3 ∷ 4 ∷ 5 ∷ [])) ≤ 52348) ↔ (word_count small_header ≤ 52353)
unpack10_room_example = unpack10_room 32 small_header (1 ∷ 2 ∷ 3 ∷ 4 ∷ 5 ∷ []) five_bytes
