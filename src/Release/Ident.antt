-- ===== src/Release/Ident.antt =====
-- `app_id` and `key_id` of platform/src/storage/release_state.cpp, and what an accepted
-- application identifier cannot hold: it names a directory.
use pen_lvgl.Prelude.{
  ℕ, ◌-◌, ◌≤◌, ◌≡◌, Bool, true, false, not, ◌&&◌, ◌||◌, List, [], ◌∷◌, ltb, leb, ◌==◌,
  if◌then◌else◌, is_empty, length, get_or, all, arith,
}

unfoldable pub is_lower_or_digit : ℕ → Bool
is_lower_or_digit c = (leb b'a' c && leb c b'z') || (leb b'0' c && leb c b'9')

-- The loop over the characters, with the two flags.
unfoldable pub scan_app_id : Bool → Bool → List ℕ → Bool
scan_app_id separator has_separator [] = has_separator && not separator
scan_app_id separator has_separator (c ∷ cs) =
    let after_separator = scan_app_id true true cs in
    let after_ordinary = scan_app_id false has_separator cs in
    if c == b'.' || c == b'-'
    then if separator then false else after_separator
    else if is_lower_or_digit c
    then after_ordinary
    else false

unfoldable pub app_id_ok : List ℕ → Bool
app_id_ok value =
    if is_empty value
      || ltb 96 (length value)
      || get_or value 0 0 == b'.'
      || get_or value (length value - 1) 0 == b'.'
    then false
    else scan_app_id false false value

unfoldable pub key_id_ok : List ℕ → Bool
key_id_ok value =
    length value == 32 && all (λ c. (leb b'0' c && leb c b'9') || (leb b'a' c && leb c b'f')) value

pub app_id_ok-length : (v : List ℕ) → app_id_ok v ≡ true → (1 ≤ length v) × (length v ≤ 96)
unfolding app_id_ok
app_id_ok-length [] h = absurd (ground arith)
app_id_ok-length (c ∷ cs) h = (omega arith, ground arith)

pub key_id_ok-length : (v : List ℕ) → key_id_ok v ≡ true → length v ≡ 32
unfolding key_id_ok
key_id_ok-length v h = ground arith
