-- ===== src/Package/Json.antt =====
-- The JSON document as platform/src/package/package_verifier.cpp reads it from its parser, and the
-- canonical text that a manifest must have.
use pen_lvgl.Prelude.{
  ℕ, zero, suc, ◌+◌, ◌/◌, ◌%◌, Bool, true, false, not, ◌&&◌, List, [], ◌∷◌, ◌++◌, Option, none,
  some, ltb, ◌==◌, if◌then◌else◌, ◌>>=◌, codes, same_bytes, bytes_less,
}
use pen_lvgl.Package.Text.{hex_digit}

-- A value of the parser: a number without a sign is `IsUint64`, one with a sign, -(n + 1),
-- `IsInt64`, any other number neither. An object keeps its members in the order of the text.
mutual
  pub data Json : Type 0 where
    null : Json
    bool : Bool → Json
    string : List ℕ → Json
    unsigned : ℕ → Json
    negative : ℕ → Json
    double : Json
    array : Items → Json
    object : Members → Json

  pub data Items : Type 0 where
    no_items : Items
    item : Json → Items → Items

  pub data Members : Type 0 where
    no_members : Members
    member_of : List ℕ → Json → Members → Members

unfoldable pub items : Items → List Json
items no_items = []
items (item v vs) = v ∷ items vs

unfoldable pub member_count : Members → ℕ
member_count no_members = 0
member_count (member_of k v ms) = suc (member_count ms)

-- `FindMember`: the first of the name.
unfoldable pub find_member : Members → List ℕ → Option Json
find_member no_members name = none
find_member (member_of k v ms) name = if same_bytes k name then some v else find_member ms name

-- `std::to_string` of a number below 10 to the power `fuel`.
unfoldable pub digits : ℕ → ℕ → List ℕ → List ℕ
digits zero n rest = rest
digits (suc fuel) n rest =
    let more = digits fuel (n / 10) ((b'0' + n % 10) ∷ rest) in
    if ltb n 10 then (b'0' + n) ∷ rest else more

abbrev pub maximum_number : ℕ
maximum_number = 9007199254740991

unfoldable pub escape : ℕ → List ℕ
escape byte =
    if byte == 34
    then 92 ∷ 34 ∷ []
    else if byte == 92
    then 92 ∷ 92 ∷ []
    else if byte == 8
    then 92 ∷ b'b' ∷ []
    else if byte == 12
    then 92 ∷ b'f' ∷ []
    else if byte == 10
    then 92 ∷ b'n' ∷ []
    else if byte == 13
    then 92 ∷ b'r' ∷ []
    else if byte == 9
    then 92 ∷ b't' ∷ []
    else if ltb byte 32
    then 92 ∷ b'u' ∷ b'0' ∷ b'0' ∷ hex_digit (byte / 16) ∷ hex_digit (byte % 16) ∷ []
    else byte ∷ []

unfoldable pub escapes : List ℕ → List ℕ
escapes [] = []
escapes (c ∷ cs) = escape c ++ escapes cs

unfoldable pub canonical_string : List ℕ → List ℕ
canonical_string value = 34 ∷ (escapes value ++ 34 ∷ [])

-- What `canonical_json` adds to its output; `none` is `false`. The members must rise by name.
unfoldable mutual
  pub canonical_json : Json → Option (List ℕ)
  canonical_json null = some (codes "null")
  canonical_json (bool b) = some (if b then codes "true" else codes "false")
  canonical_json (string s) = some (canonical_string s)
  canonical_json (unsigned n) = if ltb maximum_number n then none else some (digits 20 n [])
  canonical_json (negative n) =
      if ltb maximum_number (n + 1) then none else some (b'-' ∷ digits 20 (n + 1) [])
  canonical_json double = none
  canonical_json (array vs) = canonical_items true vs >>= λ text. some (b'[' ∷ text)
  canonical_json (object ms) = canonical_members true [] ms >>= λ text. some (b'{' ∷ text)

  pub canonical_items : Bool → Items → Option (List ℕ)
  canonical_items first no_items = some (b']' ∷ [])
  canonical_items first (item v vs) = canonical_json v >>= λ text.
      canonical_items false vs >>= λ rest.
      some ((if first then [] else b',' ∷ []) ++ (text ++ rest))

  pub canonical_members : Bool → List ℕ → Members → Option (List ℕ)
  canonical_members first previous no_members = some (b'}' ∷ [])
  canonical_members first previous (member_of name v ms) =
      let body = canonical_json v >>= λ text. canonical_members false name ms >>= λ rest.
      some
        ((if first then [] else b',' ∷ []) ++ (canonical_string name ++ (b':' ∷ (text ++ rest)))) in
      if not first && not (bytes_less previous name) then none else body
