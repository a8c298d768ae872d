-- ===== src/Package/Text.antt =====
-- The tests of texts in platform/src/package/package_verifier.cpp.
use pen_lvgl.Prelude.{
  ℕ, ◌+◌, ◌-◌, ◌*◌, ◌/◌, ◌%◌, Bool, true, false, not, ◌&&◌, ◌||◌, List, [], ◌∷◌, Option, none, some,
  ltb, leb, ◌==◌, if◌then◌else◌, is_empty, length, get_or, all, any, codes, same_bytes,
}

abbrev pub maximum_path_size : ℕ
maximum_path_size = 240

-- The loop of `semantic_version`: the dots so far, and whether a digit follows the last one.
unfoldable pub scan_version : ℕ → Bool → List ℕ → Bool
scan_version dots digit [] = dots == 2 && digit
scan_version dots digit (c ∷ cs) =
    let after_dot = scan_version (dots + 1) false cs in
    let after_digit = scan_version dots true cs in
    if c == b'.'
    then if not digit then false else after_dot
    else if leb b'0' c && leb c b'9'
    then after_digit
    else false

unfoldable pub semantic_version : List ℕ → Bool
semantic_version value =
    if is_empty value || ltb 32 (length value) then false else scan_version 0 false value

-- The loop of `app_id`, with its two flags.
unfoldable pub scan_id : Bool → Bool → List ℕ → Bool
scan_id separator has_separator [] = not separator && has_separator
scan_id separator has_separator (c ∷ cs) =
    let after_separator = scan_id true true cs in
    let after_valid = scan_id false has_separator cs in
    if c == b'.' || c == b'-'
    then if separator then false else after_separator
    else if (leb b'a' c && leb c b'z') || (leb b'0' c && leb c b'9')
    then after_valid
    else false

unfoldable pub app_id : List ℕ → Bool
app_id value =
    if is_empty value
      || ltb 96 (length value)
      || get_or value 0 0 == b'.'
      || get_or value (length value - 1) 0 == b'.'
    then false
    else scan_id false false value

-- `path.find("//")` finds something.
unfoldable pub has_double_slash : List ℕ → Bool
has_double_slash [] = false
has_double_slash (c ∷ []) = false
has_double_slash (c ∷ (d ∷ cs)) = (c == b'/' && d == b'/') || has_double_slash (d ∷ cs)

unfoldable pub extend_first : ℕ → List (List ℕ) → List (List ℕ)
extend_first c [] = (c ∷ []) ∷ []
extend_first c (s ∷ rest) = (c ∷ s) ∷ rest

-- The segments that the loop of `valid_path` visits; the path does not end with a slash.
unfoldable pub segments : List ℕ → List (List ℕ)
segments [] = [] ∷ []
segments (c ∷ cs) = let rest = segments cs in if c == b'/' then [] ∷ rest else extend_first c rest

abbrev pub forbidden : List ℕ
forbidden = codes ":*?\"<>|"

unfoldable pub valid_segment : List ℕ → Bool
valid_segment segment =
    not (is_empty segment)
    && not (same_bytes segment (b'.' ∷ []))
    && not (same_bytes segment (b'.' ∷ b'.' ∷ []))
    && not (get_or segment (length segment - 1) 0 == b'.')
    && all (λ byte. not (ltb byte 32 || byte == 127 || any (λ c. c == byte) forbidden)) segment

unfoldable pub valid_path : List ℕ → Bool
valid_path path =
    not (is_empty path)
    && leb (length path) maximum_path_size
    && not (get_or path 0 0 == b'/')
    && not (get_or path (length path - 1) 0 == b'/')
    && not (any (λ c. c == 92) path)
    && not (has_double_slash path)
    && not (any (λ c. c == 0) path)
    && all valid_segment (segments path)

unfoldable pub is_lowercase_hex : ℕ → Bool
is_lowercase_hex c = (leb b'0' c && leb c b'9') || (leb b'a' c && leb c b'f')

unfoldable pub lowercase_hex : List ℕ → ℕ → Bool
lowercase_hex value size = length value == size && all is_lowercase_hex value

unfoldable pub nibble : ℕ → ℕ
nibble c = if leb c b'9' then c - b'0' else c - b'a' + 10

-- The loop of `decode_hex_32` over the pairs of digits.
unfoldable pub hex_pairs : List ℕ → List ℕ
hex_pairs [] = []
hex_pairs (c ∷ []) = []
hex_pairs (c ∷ (d ∷ cs)) = (nibble c * 16 + nibble d) ∷ hex_pairs cs

unfoldable pub decode_hex_32 : List ℕ → Option (List ℕ)
decode_hex_32 value = if lowercase_hex value 64 then some (hex_pairs value) else none

-- `hex[value]`.
unfoldable pub hex_digit : ℕ → ℕ
hex_digit value = if ltb value 10 then b'0' + value else b'a' + (value - 10)

unfoldable pub hex_text : List ℕ → List ℕ
hex_text [] = []
hex_text (v ∷ vs) = hex_digit (v / 16) ∷ hex_digit (v % 16) ∷ hex_text vs
