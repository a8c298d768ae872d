-- ===== src/Policy/Version.antt =====
-- `parse_version` and `version_at_least` of platform/src/package/rollback_policy.cpp.
pub mod Spelling
use pen_lvgl.Prelude.{
  ℕ, zero, suc, ◌+◌, ◌-◌, ◌*◌, ◌/◌, ◌^◌, ◌<◌, ◌≤◌, ◌≡◌, refl, ◌↔◌, Bool, true, false, not, ◌&&◌,
  ◌||◌, Option, none, some, List, [], ◌∷◌, ltb, leb, ◌==◌, if◌then◌else◌, ◌>>=◌, is_some, is_empty,
  length, take, drop, All, ◌++◌, arith, Bool-cases, inl, inr,
}
use mathlib.Core.Option

pub record Version : Type 0 where
  pub major : ℕ
  pub minor : ℕ
  pub patch : ℕ

-- `value.find('.')`.
unfoldable pub find_dot : List ℕ → Option ℕ
find_dot [] = none
find_dot (c ∷ cs) = if c == b'.' then some 0 else Option.map suc (find_dot cs)

-- The loop over the characters of a component. The bound keeps the number below 2^32.
unfoldable pub parse_digits : ℕ → List ℕ → Option ℕ
parse_digits number [] = some number
parse_digits number (c ∷ cs) =
    let rest = parse_digits (number * 10 + (c - b'0')) cs in
    if ltb c b'0' || ltb b'9' c
    then none
    else if ltb ((2 ^ 32 - 1 - (c - b'0')) / 10) number
    then none
    else rest

-- A round of the loop over the three parts: the number, and the text from the new `start` on.
unfoldable pub parse_part : ℕ → List ℕ → Option (ℕ × List ℕ)
unfolding find_dot
parse_part part text =
    let end = find_dot text in
    let component : List ℕ = elim end [ none ↦ text | some n ↦ take n text ] in
    let next : List ℕ = elim end [ none ↦ [] | some n ↦ drop (suc n) text ] in
    if (ltb part 2 && not (is_some end)) || (part == 2 && is_some end)
    then none
    else if is_empty component
    then none
    else parse_digits 0 component >>= λ number. some (number, next)

unfoldable pub parse_version : List ℕ → Option Version
parse_version text = do
  (major, text1) ← parse_part 0 text
  (minor, text2) ← parse_part 1 text1
  (patch, text3) ← parse_part 2 text2
  if is_empty text3 then some (record { major = major; minor = minor; patch = patch }) else none

-- `>=` of `std::array` is lexicographic.
unfoldable pub version_ge : Version → Version → Bool
version_ge a b =
    ltb b.major a.major
    || (a.major == b.major && (ltb b.minor a.minor || (a.minor == b.minor && leb b.patch a.patch)))

unfoldable pub version_at_least : List ℕ → List ℕ → Bool
unfolding version_ge
version_at_least actual minimum = elim (parse_version actual) [
  | none ↦ false
  | some a ↦ elim (parse_version minimum) [ none ↦ false | some m ↦ version_ge a m ]
]
