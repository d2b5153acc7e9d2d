-- ===== src/Request/HeaderList/Elements.antt =====
-- The elements that header_list_next of src/gvar/geostreamd/request.c finds, and the end of the loop
-- over them.
use qjhart_geostreams.Prelude.{
  ℕ, zero, suc, ◌-◌, ◌≤◌, ◌<◌, ◌≡◌, ◌≢◌, ◌↔◌, refl, Bool, false, not, some, List, [], ◌∷◌, ◌&&◌,
  ◌||◌, ◌==◌, if◌then◌else◌, length, get_or, take, drop, arith, Bool-cases, inl, inr,
}
use qjhart_geostreams.Request.HeaderList.{
  separates, skip_separators, token_length, trim, header_list_next, connection_token,
  connection_loop,
}

skip_separators-first :
    (s : List ℕ) (c : ℕ) (t : List ℕ) → skip_separators s ≡ c ∷ t → separates c ≡ false
unfolding skip_separators
skip_separators-first [] c t h = cc
skip_separators-first (x ∷ s) c t h = ground (arith, skip_separators-first s c t)

length-skip_separators : (s : List ℕ) → length (skip_separators s) ≤ length s
unfolding skip_separators
length-skip_separators [] = omega arith
length-skip_separators (x ∷ s) = ground (arith, length-skip_separators s)

token_length-le : (lastc : ℕ) (q : Bool) (s : List ℕ) → token_length lastc q s ≤ length s
unfolding token_length
token_length-le lastc q [] = omega arith
token_length-le lastc q (c ∷ s) =
    ground
      (arith, token_length-le c (if c == 34 && (not q || not (lastc == 92)) then not q else q) s)

trim-le : (s : List ℕ) (l : ℕ) → trim s l ≤ l
unfolding trim
trim-le s zero = omega arith
trim-le s (suc l) = ground (arith, trim-le s l)

trim_pos : (c : ℕ) (s : List ℕ) (l : ℕ) → (c == b' ') ≡ false → 0 < l → 0 < trim (c ∷ s) l
unfolding trim
trim_pos c s zero h k = absurd (omega arith)
trim_pos c s (suc zero) h k = ground arith
trim_pos c s (suc (suc l)) h k = ground (arith, trim_pos c s (suc l))

trim_last : (s : List ℕ) (l : ℕ) → 0 < trim s l → get_or s (trim s l - 1) 0 ≢ b' '
unfolding trim
trim_last s zero h = absurd (omega arith)
trim_last s (suc l) h = ground (arith, trim_last s l)

token_length_pos : (c : ℕ) (t : List ℕ) → (c == b',') ≡ false → 0 < token_length 0 false (c ∷ t)
unfolding token_length
token_length_pos c t h = ground arith

abbrev IsElement : List ℕ → ℕ → Type 0
IsElement t l =
    (l ≤ length t)
    × ((l ≡ 0) ↔ (t ≡ []))
    × (0 < l → (separates (get_or t 0 0) ≡ false) × (get_or t (l - 1) 0 ≢ b' '))

cut-IsElement :
    (s t : List ℕ) → skip_separators s ≡ t → IsElement t (trim t (token_length 0 false t))
unfolding token_length trim
cut-IsElement s [] e = (omega arith, (λ _. refl, λ _. refl), λ h. absurd (omega arith))
cut-IsElement s (c ∷ t) e =
    let first = skip_separators-first s c t e in
    let no_comma : (c == b',') ≡ false = ground arith in
    let no_blank : (c == b' ') ≡ false = ground arith in
    let n = token_length 0 false (c ∷ t) in
    let pos = trim_pos c t n no_blank (token_length_pos c t no_comma) in
    (
      omega (arith, trim-le (c ∷ t) n, token_length-le 0 false (c ∷ t)),
      (λ z. absurd (omega (arith, pos)), λ z. cc),
      λ h. (first, trim_last (c ∷ t) n h),
    )

-- What header_list_next returns lies inside the text: the start is not before the text's own
-- start, and the length does not reach past its end. The element is empty exactly where nothing
-- but separators is left; else it neither begins with a separator nor ends with a blank.
pub header_list_next_lem :
    (s : List ℕ)
    → let (t, l) = header_list_next s in
      (length t ≤ length s)
      × (l ≤ length t)
      × ((l ≡ 0) ↔ (t ≡ []))
      × (0 < l → (separates (get_or t 0 0) ≡ false) × (get_or t (l - 1) 0 ≢ b' '))
unfolding header_list_next
header_list_next_lem s =
    let (le, iff, ends) = cut-IsElement s (skip_separators s) refl in
    (length-skip_separators s, le, iff, ends)

length-drop_lt : (l : ℕ) (t : List ℕ) → 0 < l → l ≤ length t → length (drop l t) < length t
length-drop_lt zero t h k = absurd (omega arith)
length-drop_lt (suc zero) (x ∷ t) h k = omega arith
length-drop_lt (suc (suc l)) (x ∷ t) h k = omega (arith, length-drop_lt (suc l) t)
length-drop_lt (suc l) [] h k = absurd (omega arith)

-- The loop over the elements of a Connection header ends: as many rounds as the value has bytes,
-- and one, are enough.
pub connection_loop_ends :
    (fuel : ℕ) (http11 : Bool) (value : List ℕ) (keep_alive : Bool)
    → length value < fuel
    → (k : Bool) × (connection_loop fuel http11 value keep_alive ≡ some k)
unfolding connection_loop
connection_loop_ends zero http11 value keep_alive h = absurd (omega arith)
connection_loop_ends (suc fuel) http11 value keep_alive h =
    let (t, l) = header_list_next value in
    let (le, inside, _, _) = header_list_next_lem value in
    elim (Bool-cases (l == 0)) [
      | inl stop ↦ (keep_alive, rw stop)
      | inr more ↦ rw more (
          connection_loop_ends fuel http11 (drop l t)
            (connection_token http11 keep_alive (take l t))
            (omega (arith, length-drop_lt l t (ground arith) inside)))
    ]
