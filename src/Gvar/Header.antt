-- ===== src/Gvar/Header.antt =====
-- The block header of src/libgvar/Header.cpp and Block.h, the bytes of Block.cpp, and the room that
-- the words of a block take in Block1or2.cpp and LineDoc.cpp.
use qjhart_geostreams.Prelude.{
  ℕ, ◌+◌, ◌-◌, ◌*◌, ◌/◌, ◌≤◌, ◌≡◌, ◌↔◌, refl, arith, ltb, not, Bool, true, Option, List, [], ◌∷◌,
  ◌++◌, length, take, drop, get_or, ◌==◌, ◌&&◌, if◌then◌else◌,
}
use qjhart_geostreams.Gvar.Unpack.{unpack10}
use qjhart_geostreams.Gvar.LineDoc.{LineDoc, max_block_sz, from_words}

-- `class Header`, less its unused words.
pub record Header : Type 0 where
  pub block_id_byte : ℕ
  pub word_size_byte : ℕ
  pub word_count_msb : ℕ
  pub word_count_lsb : ℕ
  pub product_id_msb : ℕ
  pub product_id_lsb : ℕ
  pub repeat_flag : ℕ
  pub version_number : ℕ
  pub data_valid : ℕ
  pub ascii_bin : ℕ
  pub range_word : ℕ
  pub block_count_msb : ℕ
  pub block_count_lsb : ℕ
  pub crc_msb : ℕ
  pub crc_lsb : ℕ

-- The constructor, over the thirty bytes at its pointer.
unfoldable pub header : List ℕ → Header
header bytes = record {
  block_id_byte = get_or bytes 0 0;
  word_size_byte = get_or bytes 1 0;
  word_count_msb = get_or bytes 2 0;
  word_count_lsb = get_or bytes 3 0;
  product_id_msb = get_or bytes 4 0;
  product_id_lsb = get_or bytes 5 0;
  repeat_flag = get_or bytes 6 0;
  version_number = get_or bytes 7 0;
  data_valid = get_or bytes 8 0;
  ascii_bin = get_or bytes 9 0;
  range_word = get_or bytes 11 0;
  block_count_msb = get_or bytes 12 0;
  block_count_lsb = get_or bytes 13 0;
  crc_msb = get_or bytes 28 0;
  crc_lsb = get_or bytes 29 0;
}

unfoldable pub block_id : Header → ℕ
block_id h = if h.block_id_byte == 240 then 0 else h.block_id_byte

unfoldable pub word_count : Header → ℕ
word_count h = h.word_count_msb * 256 + h.word_count_lsb

unfoldable pub product_id : Header → ℕ
product_id h = h.product_id_msb * 256 + h.product_id_lsb

unfoldable pub block_count : Header → ℕ
block_count h = h.block_count_msb * 256 + h.block_count_lsb

unfoldable pub crc : Header → ℕ
crc h = h.crc_msb * 256 + h.crc_lsb

unfoldable pub n_bytes : Header → ℕ
n_bytes h = h.word_size_byte * word_count h / 8

unfoldable pub is_valid_header : Header → Bool
is_valid_header h =
    not (h.word_size_byte == 0)
    && (not (word_count h == 0)
        && (not (block_count h == 0)
            && (ltb (block_id h) 12
                && (ltb h.word_size_byte 11 && (ltb (word_count h) 21008 && h.data_valid == 1)))))

-- `Block`: its header, and its data behind the three copies of the header.
unfoldable pub create_header : List ℕ → Header
create_header buff = header (take 30 buff)

unfoldable pub block_data : List ℕ → List ℕ
block_data buff = drop 90 buff

-- The `len` of the call of unpack10: without the two words of the check sum, ten bits each. Where
-- there are fewer than two words C's `len` is negative and nothing is unpacked, as here.
unfoldable pub unpacked_bytes : ℕ → ℕ
unpacked_bytes count = (count - 2) * 10 / 8

-- `LineDoc(Block*)` truncates a word count whose words do not fit the array.
unfoldable pub truncated : ℕ → ℕ
unfolding unpacked_bytes
truncated count =
    if ltb max_block_sz (unpacked_bytes count / 5 * 4)
    then max_block_sz / 4 * 5 * 8 / 10 + 2
    else count

-- `LineDoc(Block*)`. The array holds `memory` where unpack10 does not write.
unfoldable pub line_doc_of_block : ℕ → List ℕ → Header → List ℕ → Option LineDoc
line_doc_of_block w memory h bytes =
    let words = unpack10 w (take (unpacked_bytes (truncated (word_count h))) bytes) in
    from_words (max_block_sz - 16) (words ++ drop (length words) memory)

pub length-unpack10 : (w : ℕ) (bytes : List ℕ) → length (unpack10 w bytes) ≡ length bytes / 5 * 4
unfolding unpack10
length-unpack10 w (a ∷ b ∷ c ∷ d ∷ e ∷ rest) = omega (arith, length-unpack10 w rest)
length-unpack10 w [] = refl
length-unpack10 w (a ∷ []) = refl
length-unpack10 w (a ∷ b ∷ []) = refl
length-unpack10 w (a ∷ b ∷ c ∷ []) = refl
length-unpack10 w (a ∷ b ∷ c ∷ d ∷ []) = refl

-- The words that Block1or2 unpacks of a block fit its array exactly up to a word count of 52353. A
-- larger count, which two bytes can hold, writes behind the array: Block1or2 does not look at it.
pub unpack10_room :
    (w : ℕ) (h : Header) (bytes : List ℕ)
    → length bytes ≡ unpacked_bytes (word_count h)
    → (length (unpack10 w bytes) ≤ max_block_sz) ↔ (word_count h ≤ 52353)
unfolding unpacked_bytes
unpack10_room w h bytes e =
    (λ i. omega (arith, length-unpack10 w bytes), λ i. omega (arith, length-unpack10 w bytes))

-- The words of a block with a valid header fit the array.
pub valid_header_fits :
    (w : ℕ) (h : Header) (bytes : List ℕ)
    → length bytes ≡ unpacked_bytes (word_count h)
    → is_valid_header h ≡ true
    → length (unpack10 w bytes) ≤ max_block_sz
unfolding is_valid_header
valid_header_fits w h bytes e v =
    let count : word_count h ≤ 52353 = ground arith in (unpack10_room w h bytes e).1 count

-- LineDoc(Block*) unpacks at most as many words as its array has, whatever the word count is.
pub truncated_fits :
    (w : ℕ) (count : ℕ) (bytes : List ℕ)
    → length bytes ≤ unpacked_bytes (truncated count)
    → length (unpack10 w bytes) ≤ max_block_sz
unfolding truncated unpacked_bytes
truncated_fits w count bytes h = ground (arith, length-unpack10 w bytes)
