-- ===== src/Release/Codec/RoundTrip.antt =====
-- Decoding an encoded release state.
use pen_lvgl.Prelude.{
  ℕ, ◌+◌, ◌-◌, ◌≤◌, ◌≡◌, refl, true, false, Option, some, List, ◌++◌, length, take, drop,
  take-append, drop-append, length-append, arith, same_bytes, same_bytes_refl, ltb, ◌==◌, not, ◌||◌,
  if◌then◌else◌, ap, get_or, ◌∙◌,
}
use pen_lvgl.Wire.{get_le}
use pen_lvgl.Release.{ApplicationReleaseState, valid_state}
use pen_lvgl.Release.Ident.{app_id_ok-length, key_id_ok-length}
use pen_lvgl.Release.Valid.{IsValid, valid_state_iff}
use pen_lvgl.Release.Codec.{
  EncodedReleaseState, DecodedReleaseState, valid, invalid_layout, encode_failure, body, total_size,
  fields, magic, layout_rejected, lengths_rejected, encode_release_state, decode_release_state,
}
use pen_lvgl.Release.Codec.Layout.{
  IsTyped, magic_at, version_at, header_at, size_at, app_size_at, key_size_at, length-body,
  fields-body,
}

abbrev pub decoded_as : ApplicationReleaseState → DecodedReleaseState
decoded_as s = record { status = valid; detail = "STATE_DECODED"; state = s }

abbrev pub encoded_as : List ℕ → EncodedReleaseState
encoded_as bytes = record { status = valid; detail = "STATE_ENCODED"; bytes = bytes }

-- What the code relies on of SHA-256: a digest is 32 bytes long.
abbrev pub IsDigest32 : (List ℕ → Option (List ℕ)) → Type 0
IsDigest32 sha256 = (message digest : List ℕ) → sha256 message ≡ some digest → length digest ≡ 32

-- A buffer that passes every test of the decoder, with the checksum `c`.
record IsSealed (sha256 : List ℕ → Option (List ℕ)) (buf c : List ℕ) : Type 0 where
  starts : same_bytes magic (take 8 buf) ≡ true
  version : get_le 2 (drop 8 buf) ≡ 1
  header : get_le 2 (drop 10 buf) ≡ 64
  size : get_le 4 (drop 12 buf) ≡ length buf
  app_lower : 1 ≤ get_or buf 62 0
  app_upper : get_or buf 62 0 ≤ 96
  key : get_or buf 63 0 ≡ 32
  sizes : 320 + get_or buf 62 0 ≡ length buf
  hash : sha256 (take (length buf - 32) buf) ≡ some c
  checksum : drop (length buf - 32) buf ≡ c
  holds : valid_state (fields buf) ≡ true

in_range :
    (n : ℕ)
    → 288 ≤ n
    → n ≤ 512
    → (ltb n 288 || ltb 512 n || false || false || false || not (n == n)) ≡ false
in_range n h k = ground arith

module _ (sha256 : List ℕ → Option (List ℕ)) (hashes : IsDigest32 sha256) where
  layout-IsSealed : (buf c : List ℕ) → IsSealed sha256 buf c → layout_rejected buf ≡ false
  unfolding layout_rejected
  layout-IsSealed buf c h =
      rw (h.starts, h.version, h.header, h.size) (in_range (length buf) (omega arith) (omega arith))

  lengths-IsSealed : (buf c : List ℕ) → IsSealed sha256 buf c → lengths_rejected buf ≡ false
  unfolding lengths_rejected
  lengths-IsSealed buf c h = ground arith

  decode-IsSealed :
      (buf c : List ℕ)
      → IsSealed sha256 buf c
      → decode_release_state sha256 buf ≡ decoded_as (fields buf)
  unfolding decode_release_state
  decode-IsSealed buf c h = rw (
    layout-IsSealed buf c h,
    lengths-IsSealed buf c h,
    h.hash,
    h.checksum,
    same_bytes_refl c,
    h.holds,
  )

  length-sealed :
      (s : ApplicationReleaseState) (c : List ℕ)
      → IsTyped s
      → IsValid s
      → sha256 (body s) ≡ some c
      → (length (body s) ≡ 288 + length s.app_id)
        × (length (body s ++ c) ≡ 320 + length s.app_id)
        × (total_size s ≡ 320 + length s.app_id)
  unfolding total_size
  length-sealed s c t v e = omega (
    arith,
    length-append (body s) c,
    hashes (body s) c e,
    length-body s c t.current_digest t.previous_digest t.high_digest,
    key_id_ok-length s.signing_key_id v.key,
  )

  body-IsSealed :
      (s : ApplicationReleaseState) (c : List ℕ)
      → IsTyped s
      → IsValid s
      → sha256 (body s) ≡ some c
      → IsSealed sha256 (body s ++ c) c
  body-IsSealed s c t v e =
      let (a0, a) = app_id_ok-length s.app_id v.app in
      let k = key_id_ok-length s.signing_key_id v.key in
      let (n, all, total) = length-sealed s c t v e in
      let front : length (body s ++ c) - 32 ≡ length (body s) = omega (arith, all, n) in
      record {
        starts = magic_at s c;
        version = version_at s c;
        header = header_at s c;
        size = size_at s c (omega (arith, total)) ∙ omega (arith, total, all);
        app_lower = omega (arith, app_size_at s c a);
        app_upper = omega (arith, app_size_at s c a);
        key = key_size_at s c k;
        sizes = omega (arith, app_size_at s c a, all);
        hash = rw (front, take-append (body s) c (length (body s)) refl) e;
        checksum = rw front (drop-append (body s) c (length (body s)) refl);
        holds = rw (fields-body s c t a k) ((valid_state_iff s).1 v);
      }

  encode-IsValid :
      (s : ApplicationReleaseState) (c : List ℕ)
      → IsTyped s
      → IsValid s
      → sha256 (body s) ≡ some c
      → encode_release_state sha256 s ≡ encoded_as (body s ++ c)
  unfolding encode_release_state
  encode-IsValid s c t v e =
      let total = (length-sealed s c t v e).2 in
      let a = app_id_ok-length s.app_id v.app in
      rw ((valid_state_iff s).1 v, total, e) (fits (length s.app_id) a.1)
    where
      fits :
          (n : ℕ)
          → n ≤ 96
          → (if ltb 512 (320 + n)
              then encode_failure invalid_layout "STATE_SIZE_INVALID"
              else encoded_as (body s ++ c))
            ≡ encoded_as (body s ++ c)
      fits n h = ground arith

  -- Where the hash is available, `encode_release_state` encodes every valid state whose fields fit
  -- their C++ types, and `decode_release_state` gives the same state back from these bytes, with the
  -- status `valid`. The hash may be any function whose results have 32 bytes.
  pub decode-encode_release_state :
      (s : ApplicationReleaseState) (c : List ℕ)
      → IsTyped s
      → valid_state s ≡ true
      → sha256 (body s) ≡ some c
      → ((encode_release_state sha256 s).status ≡ valid)
        × (decode_release_state sha256 (encode_release_state sha256 s).bytes ≡ decoded_as s)
  decode-encode_release_state s c t h e =
      let v = (valid_state_iff s).0 h in
      let k = key_id_ok-length s.signing_key_id v.key in
      let (a0, a) = app_id_ok-length s.app_id v.app in
      (
        ap (λ (r : EncodedReleaseState). r.status) (encode-IsValid s c t v e),
        rw (encode-IsValid s c t v e)
            (decode-IsSealed _ c (body-IsSealed s c t v e) ∙ ap decoded_as (fields-body s c t a k)),
      )

  -- An encoded state fits a slot.
  pub encode_release_state-bound :
      (s : ApplicationReleaseState) (c : List ℕ)
      → IsTyped s
      → valid_state s ≡ true
      → sha256 (body s) ≡ some c
      → (1 ≤ length (encode_release_state sha256 s).bytes)
        × (length (encode_release_state sha256 s).bytes ≤ 512)
  encode_release_state-bound s c t h e =
      let v = (valid_state_iff s).0 h in
      let (a0, a) = app_id_ok-length s.app_id v.app in
      let (n, all, total) = length-sealed s c t v e in
      rw (encode-IsValid s c t v e) (omega (arith, all), omega (arith, all))
