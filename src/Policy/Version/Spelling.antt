-- ===== src/Policy/Version/Spelling.antt =====
-- `parse_version` accepts three decimal numbers of 32 bits with dots between them, and nothing else.
use pen_lvgl.Prelude.{
  ℕ, zero, suc, ◌+◌, ◌-◌, ◌*◌, ◌^◌, ◌<◌, ◌≤◌, ◌≡◌, refl, ◌↔◌, false, none, some, List, [], ◌∷◌,
  ◌++◌, is_empty, length, take, drop, take-append, All, arith, subst, Option-cases, inl, inr,
}
use pen_lvgl.Policy.Version.{Version, find_dot, parse_digits, parse_part, parse_version}

abbrev pub IsDigit : ℕ → Type 0
IsDigit c = (b'0' ≤ c) × (c ≤ b'9')

-- The number that decimal digits spell, after `n`.
abbrev pub decimal : ℕ → List ℕ → ℕ
decimal n [] = n
decimal n (c ∷ cs) = decimal (n * 10 + (c - b'0')) cs

decimal-ge : (n : ℕ) (cs : List ℕ) → n ≤ decimal n cs
decimal-ge n [] = omega arith
decimal-ge n (c ∷ cs) = omega (arith, decimal-ge (n * 10 + (c - b'0')) cs)

parse_digits_complete :
    (n : ℕ) (cs : List ℕ)
    → All IsDigit cs
    → decimal n cs < 2 ^ 32
    → parse_digits n cs ≡ some (decimal n cs)
unfolding parse_digits
parse_digits_complete n [] d h = refl
parse_digits_complete n (c ∷ cs) d h = ground (
  arith,
  decimal-ge (n * 10 + (c - b'0')) cs,
  parse_digits_complete (n * 10 + (c - b'0')) cs d.1 h,
)

parse_digits_sound :
    (n : ℕ) (cs : List ℕ) (m : ℕ)
    → n < 2 ^ 32
    → parse_digits n cs ≡ some m
    → All IsDigit cs × (decimal n cs ≡ m) × (m < 2 ^ 32)
unfolding parse_digits
parse_digits_sound n [] m h e = ground arith
parse_digits_sound n (c ∷ cs) m h e = ground (arith, parse_digits_sound (n * 10 + (c - b'0')) cs m)

-- A non-empty string of digits that spells `n`, which fits 32 bits.
pub record Spells (digits : List ℕ) (n : ℕ) : Type 0 where
  pub present : is_empty digits ≡ false
  pub decimals : All IsDigit digits
  pub value : decimal 0 digits ≡ n
  pub bounded : n < 2 ^ 32

-- The three numbers of a version, with dots between them.
pub record SpellsVersion (text : List ℕ) (v : Version) : Type 0 where
  pub major_digits : List ℕ
  pub minor_digits : List ℕ
  pub patch_digits : List ℕ
  pub layout : text ≡ major_digits ++ (b'.' ∷ (minor_digits ++ (b'.' ∷ patch_digits)))
  pub major_spelled : Spells major_digits v.major
  pub minor_spelled : Spells minor_digits v.minor
  pub patch_spelled : Spells patch_digits v.patch

find_dot-digits : (ds : List ℕ) → All IsDigit ds → find_dot ds ≡ none
unfolding find_dot
find_dot-digits [] d = refl
find_dot-digits (c ∷ cs) d = ground (arith, find_dot-digits cs d.1)

find_dot-append :
    (ds rest : List ℕ) → All IsDigit ds → find_dot (ds ++ (b'.' ∷ rest)) ≡ some (length ds)
unfolding find_dot
find_dot-append [] rest d = refl
find_dot-append (c ∷ cs) rest d = ground (arith, find_dot-append cs rest d.1)

find_dot-split :
    (text : List ℕ) (n : ℕ)
    → find_dot text ≡ some n
    → text ≡ take n text ++ (b'.' ∷ drop (suc n) text)
unfolding find_dot
find_dot-split [] n e = cc
find_dot-split (c ∷ cs) zero e = elim (Option-cases (find_dot cs)) [
  | inl none_left ↦ ground arith
  | inr (m, found) ↦ ground arith
]
find_dot-split (c ∷ cs) (suc n) e = elim (Option-cases (find_dot cs)) [
  | inl none_left ↦ ground arith
  | inr (m, found) ↦ ground (arith, find_dot-split cs n)
]

drop_past : (ds rest : List ℕ) → drop (suc (length ds)) (ds ++ (b'.' ∷ rest)) ≡ rest
drop_past [] rest = refl
drop_past (d ∷ ds) rest = drop_past ds rest

parse_part_inner :
    (p n : ℕ) (ds rest : List ℕ)
    → p < 2
    → Spells ds n
    → parse_part p (ds ++ (b'.' ∷ rest)) ≡ some (n, rest)
unfolding parse_part
parse_part_inner p n ds rest h s = ground (
  arith,
  find_dot-append ds rest s.decimals,
  take-append ds (b'.' ∷ rest) (length ds) refl,
  drop_past ds rest,
  parse_digits_complete 0 ds s.decimals,
)

parse_part_last : (n : ℕ) (ds : List ℕ) → Spells ds n → parse_part 2 ds ≡ some (n, [])
unfolding parse_part
parse_part_last n ds s = rw (
  find_dot-digits ds s.decimals,
  s.present,
  parse_digits_complete 0 ds s.decimals (omega arith),
  s.value,
)

parse_part_inner_sound :
    (p n : ℕ) (text rest : List ℕ)
    → p < 2
    → parse_part p text ≡ some (n, rest)
    → (ds : List ℕ) × (text ≡ ds ++ (b'.' ∷ rest)) × Spells ds n
unfolding parse_part
parse_part_inner_sound p n text rest h e = elim (Option-cases (find_dot text)) [
  | inl missing ↦ ground arith
  | inr (k, found) ↦ (
    take k text,
    ground (arith, find_dot-split text k),
    ground (arith, parse_digits_sound 0 (take k text) n),
  )
]

parse_part_last_sound :
    (n : ℕ) (text rest : List ℕ) → parse_part 2 text ≡ some (n, rest) → (rest ≡ []) × Spells text n
unfolding parse_part
parse_part_last_sound n text rest e = elim (Option-cases (find_dot text)) [
  | inl missing ↦ ground (arith, parse_digits_sound 0 text n)
  | inr (k, found) ↦ ground arith
]

abbrev parsed : ℕ → ℕ → ℕ → Version
parsed major minor patch = record { major = major; minor = minor; patch = patch }

-- `parse_version` accepts a text with the version `v` exactly if the text is three non-empty
-- strings of decimal digits with one dot between each two, and spells the three numbers of `v`,
-- each below 2^32. Leading zeros are accepted.
pub parse_version_iff :
    (text : List ℕ) (v : Version) → (parse_version text ≡ some v) ↔ SpellsVersion text v
unfolding parse_version
parse_version_iff text v = (sound, complete)
  where
    complete : SpellsVersion text v → parse_version text ≡ some v
    complete s = rw (
      s.layout,
      parse_part_inner 0 v.major s.major_digits _ (omega arith) s.major_spelled,
      parse_part_inner 1 v.minor s.minor_digits _ (omega arith) s.minor_spelled,
      parse_part_last v.patch s.patch_digits s.patch_spelled,
    )

    sound : parse_version text ≡ some v → SpellsVersion text v
    sound e = elim (Option-cases (parse_part 0 text)) [
      | inl e1 ↦ absurd (ground arith)
      | inr ((n1, text1), e1) ↦ elim (Option-cases (parse_part 1 text1)) [
        | inl e2 ↦ absurd (ground arith)
        | inr ((n2, text2), e2) ↦ elim (Option-cases (parse_part 2 text2)) [
          | inl e3 ↦ absurd (ground arith)
          | inr ((n3, text3), e3) ↦
              let (ds1, l1, s1) = parse_part_inner_sound 0 n1 text text1 (omega arith) e1 in
              let (ds2, l2, s2) = parse_part_inner_sound 1 n2 text1 text2 (omega arith) e2 in
              let (l3, s3) = parse_part_last_sound n3 text2 text3 e3 in
              let same : parsed n1 n2 n3 ≡ v = ground arith in
              subst (SpellsVersion text) same (record {
                major_digits = ds1;
                minor_digits = ds2;
                patch_digits = text2;
                layout = cc;
                major_spelled = s1;
                minor_spelled = s2;
                patch_spelled = s3;
              })
        ]
      ]
    ]
