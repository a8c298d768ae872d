-- ===== src/Broker/Names.antt =====
-- The names of the files that platform/src/session/session_daemon.cpp keeps in the storage of an
-- application: those of records, and those of temporary files.
use pen_lvgl.Prelude.{
  ℕ, ◌/◌, ◌%◌, ◌==◌, ◌*◌, ◌<◌, ◌≡◌, refl, ap, Bool-cases, true, false, Option, none, some, List, [],
  ◌∷◌, ◌++◌, length, all, same_bytes, same_bytes→eq, inl, inr, arith,
}
use pen_lvgl.Wire.{AreBytes}
use pen_lvgl.Package.Text.{hex_text, hex_digit}
use pen_lvgl.Storage.Records.{valid_storage_record_name}
use pen_lvgl.Storage.{StorageRequest, decode_storage_request, request_from}
use pen_lvgl.Broker.{storage_temporary_name, broker_prefix, hex_character}

-- The random bytes of a temporary name are twelve.
abbrev pub IsRandom : Option (List ℕ) → Type 0
IsRandom none = Unit
IsRandom (some random) = AreBytes random × (length random ≡ 12)

hex_text-hex :
    (random : List ℕ)
    → AreBytes random
    → (all hex_character (hex_text random) ≡ true) × (length (hex_text random) ≡ 2 * length random)
unfolding hex_text hex_digit hex_character
hex_text-hex [] h = (refl, refl)
hex_text-hex (b ∷ bs) h =
    let (a, l) = hex_text-hex bs h.1 in
    let high : b / 16 < 16 = omega arith in
    let low : b % 16 < 16 = omega arith in ground (arith, a, l)

pub broker_name-temporary :
    (random : List ℕ)
    → AreBytes random
    → length random ≡ 12
    → storage_temporary_name (broker_prefix ++ hex_text random) ≡ true
unfolding storage_temporary_name same_bytes
broker_name-temporary random h l = let (a, k) = hex_text-hex random h in ground (arith, a, k)

-- A record has no temporary name.
pub valid_name-temporary :
    (name : List ℕ) → valid_storage_record_name name ≡ true → storage_temporary_name name ≡ false
unfolding valid_storage_record_name storage_temporary_name same_bytes
valid_name-temporary [] v = refl
valid_name-temporary (c ∷ name) v =
    let dot : (c == b'.') ≡ false = ground arith in rw dot (ground arith)

pub decoded-valid :
    (bytes : List ℕ) (r : StorageRequest)
    → decode_storage_request bytes ≡ some r
    → valid_storage_record_name r.record_name ≡ true
unfolding decode_storage_request request_from
decoded-valid bytes r e = ground arith

-- A record is not the temporary file of a write.
pub record-temporary :
    (name random : List ℕ)
    → valid_storage_record_name name ≡ true
    → AreBytes random
    → length random ≡ 12
    → same_bytes name (broker_prefix ++ hex_text random) ≡ false
record-temporary name random v h l =
    let temporary = broker_prefix ++ hex_text random in
    elim (Bool-cases (same_bytes name temporary)) [
      | inr e ↦ e
      | inl e ↦
          let same = ap storage_temporary_name (same_bytes→eq name temporary e) in
          absurd (cc (same, broker_name-temporary random h l, valid_name-temporary name v))
    ]
