-- ===== src/Touch/Codec.antt =====
-- Encoding and decoding touch frames.
use pen_lvgl.Prelude.{
  ℕ, ◌+◌, ◌^◌, ◌<◌, ◌≤◌, ◌≡◌, refl, sym, ap, ◌∙◌, true, List, [], ◌∷◌, zero, suc, All-drop, ◌++◌,
  length, drop, arith,
}
use pen_lvgl.Prelude.Int.{ℤ, IsI32, to_word, of_word, to_word-lt, of_word-to_word, to_word-of_word}
use pen_lvgl.Wire.{IsByte, IsU32, IsU64, AreBytes, put_le, get_le}
use pen_lvgl.Wire.Laws.{get_le-put_le, get_le-lt, rewrite_field}
use pen_lvgl.Touch.{
  TouchFrame, TouchPhase, ok, phase_of, phase_value, valid_phase, valid_touch_frame,
  encode_touch_frame, frame_fields, decode_touch_frame,
}

-- The ranges of the C++ types.
pub record IsTyped (f : TouchFrame) : Type 0 where
  pub session_nonce : IsU64 f.session_nonce
  pub sequence : IsU64 f.sequence
  pub monotonic_us : IsU64 f.monotonic_us
  pub contact_id : IsU32 f.contact_id
  pub x : IsI32 f.x
  pub y : IsI32 f.y
  pub flags : IsU32 f.flags

phase_of-phase_value : (p : TouchPhase) → valid_phase p ≡ true → phase_of (phase_value p) ≡ p
unfolding phase_of phase_value valid_phase
phase_of-phase_value p h = ground arith

phase_value-lt : (p : TouchPhase) → valid_phase p ≡ true → phase_value p < 2 ^ 32
unfolding phase_value valid_phase
phase_value-lt p h = ground arith

phase_value-phase_of : (v : ℕ) → phase_value (phase_of v) ≡ v
unfolding phase_of phase_value
phase_value-phase_of v = ground arith

-- The frame as one row of fields.
wire : TouchFrame → List ℕ
wire f =
    put_le 4 0x4C565450
    ++ (put_le 2 1
        ++ (put_le 2 56
            ++ (put_le 8 f.session_nonce
                ++ (put_le 8 f.sequence
                    ++ (put_le 8 f.monotonic_us
                        ++ (put_le 4 (phase_value f.phase)
                            ++ (put_le 4 f.contact_id
                                ++ (put_le 4 (to_word f.x)
                                    ++ (put_le 4 (to_word f.y)
                                        ++ (put_le 4 f.flags ++ (put_le 4 0 ++ [])))))))))))

encode-wire : (f : TouchFrame) → encode_touch_frame f ≡ wire f
unfolding encode_touch_frame wire put_le
encode-wire f = refl

module _ (f : TouchFrame) where
  length-wire : length (wire f) ≡ 56
  unfolding wire put_le
  length-wire = refl

  magic_at : get_le 4 (wire f) ≡ 0x4C565450
  unfolding wire put_le
  magic_at = get_le-put_le 4 0x4C565450 _ (omega arith)

  version_at : get_le 2 (drop 4 (wire f)) ≡ 1
  unfolding wire put_le
  version_at = get_le-put_le 2 1 _ (omega arith)

  size_at : get_le 2 (drop 6 (wire f)) ≡ 56
  unfolding wire put_le
  size_at = get_le-put_le 2 56 _ (omega arith)

  nonce_at : IsU64 f.session_nonce → get_le 8 (drop 8 (wire f)) ≡ f.session_nonce
  unfolding wire put_le
  nonce_at h = get_le-put_le 8 f.session_nonce _ h

  sequence_at : IsU64 f.sequence → get_le 8 (drop 16 (wire f)) ≡ f.sequence
  unfolding wire put_le
  sequence_at h = get_le-put_le 8 f.sequence _ h

  time_at : IsU64 f.monotonic_us → get_le 8 (drop 24 (wire f)) ≡ f.monotonic_us
  unfolding wire put_le
  time_at h = get_le-put_le 8 f.monotonic_us _ h

  phase_at : phase_value f.phase < 2 ^ 32 → get_le 4 (drop 32 (wire f)) ≡ phase_value f.phase
  unfolding wire put_le
  phase_at h = get_le-put_le 4 (phase_value f.phase) _ h

  contact_at : IsU32 f.contact_id → get_le 4 (drop 36 (wire f)) ≡ f.contact_id
  unfolding wire put_le
  contact_at h = get_le-put_le 4 f.contact_id _ h

  x_at : get_le 4 (drop 40 (wire f)) ≡ to_word f.x
  unfolding wire put_le
  x_at = get_le-put_le 4 (to_word f.x) _ (to_word-lt f.x)

  y_at : get_le 4 (drop 44 (wire f)) ≡ to_word f.y
  unfolding wire put_le
  y_at = get_le-put_le 4 (to_word f.y) _ (to_word-lt f.y)

  flags_at : IsU32 f.flags → get_le 4 (drop 48 (wire f)) ≡ f.flags
  unfolding wire put_le
  flags_at h = get_le-put_le 4 f.flags _ h

  padding_at : get_le 4 (drop 52 (wire f)) ≡ 0
  unfolding wire put_le
  padding_at = get_le-put_le 4 0 _ (omega arith)

  fields-wire : IsTyped f → valid_phase f.phase ≡ true → frame_fields (wire f) ≡ f
  unfolding frame_fields
  fields-wire t h =
      let px = phase_value-lt f.phase h in
      cc (
        nonce_at t.session_nonce,
        sequence_at t.sequence,
        time_at t.monotonic_us,
        ap phase_of (phase_at px) ∙ phase_of-phase_value f.phase h,
        contact_at t.contact_id,
        ap of_word x_at ∙ of_word-to_word f.x t.x,
        ap of_word y_at ∙ of_word-to_word f.y t.y,
        flags_at t.flags,
      )

valid_phase_of_frame :
    (f : TouchFrame) (width height : ℤ)
    → valid_touch_frame f width height ≡ true
    → valid_phase f.phase ≡ true
unfolding valid_touch_frame
valid_phase_of_frame f width height h = ground arith

-- A frame whose fields fit their C++ types and which is valid on a display of the given size is
-- decoded, for that display, from the bytes that it is encoded to, without an error.
pub decode-encode_touch_frame :
    (f : TouchFrame) (width height : ℤ)
    → IsTyped f
    → valid_touch_frame f width height ≡ true
    → decode_touch_frame (encode_touch_frame f) width height ≡ record { frame = f; error = ok }
unfolding decode_touch_frame
decode-encode_touch_frame f width height t v = rw (
  encode-wire f,
  length-wire f,
  magic_at f,
  version_at f,
  size_at f,
  padding_at f,
  fields-wire f t (valid_phase_of_frame f width height v),
  v,
)

-- What the decoder has tested when it reports no error.
record IsAccepted (bytes : List ℕ) (width height : ℤ) : Type 0 where
  size : length bytes ≡ 56
  magic : get_le 4 bytes ≡ 0x4C565450
  version : get_le 2 (drop 4 bytes) ≡ 1
  wire_size : get_le 2 (drop 6 bytes) ≡ 56
  padding : get_le 4 (drop 52 bytes) ≡ 0

IsAccepted-of_ok :
    (bytes : List ℕ) (width height : ℤ)
    → (decode_touch_frame bytes width height).error ≡ ok
    → IsAccepted bytes width height
      × ((decode_touch_frame bytes width height).frame ≡ frame_fields bytes)
unfolding decode_touch_frame
IsAccepted-of_ok bytes width height e = ground arith

drop_all : (b : List ℕ) (n : ℕ) → length b ≤ n → drop n b ≡ []
drop_all [] zero h = refl
drop_all [] (suc n) h = refl
drop_all (x ∷ b) zero h = absurd (omega arith)
drop_all (x ∷ b) (suc n) h = drop_all b n (omega arith)

-- A field written in front of what stands behind it in the buffer.
put_field :
    (k n v : ℕ) (b rest : List ℕ)
    → AreBytes b
    → k + n ≤ length b
    → v ≡ get_le n (drop k b)
    → rest ≡ drop (k + n) b
    → put_le n v ++ rest ≡ drop k b
put_field k n v b rest a h e f = rw (e, f) (rewrite_field k n b a h)

module _ (b : List ℕ) (width height : ℤ) (a : AreBytes b) (t : IsAccepted b width height) where
  word_of : (k : ℕ) → to_word (of_word (get_le 4 (drop k b))) ≡ get_le 4 (drop k b)
  word_of k = to_word-of_word _ (get_le-lt 4 (drop k b) (All-drop IsByte k b a))

  wire-fields : wire (frame_fields b) ≡ b
  unfolding wire frame_fields
  wire-fields = put_field 0 4 _ b _ a (omega (arith, t.size)) (sym t.magic) (
      put_field 4 2 _ b _ a (omega (arith, t.size)) (sym t.version) (
        put_field 6 2 _ b _ a (omega (arith, t.size)) (sym t.wire_size) (
          put_field 8 8 _ b _ a (omega (arith, t.size)) refl (
            put_field 16 8 _ b _ a (omega (arith, t.size)) refl (
              put_field 24 8 _ b _ a (omega (arith, t.size)) refl (
                put_field 32 4 _ b _ a (omega (arith, t.size)) (phase_value-phase_of _) (
                  put_field 36 4 _ b _ a (omega (arith, t.size)) refl (
                    put_field 40 4 _ b _ a (omega (arith, t.size)) (word_of 40) (
                      put_field 44 4 _ b _ a (omega (arith, t.size)) (word_of 44) (
                        put_field 48 4 _ b _ a (omega (arith, t.size)) refl (
                          put_field 52 4 _ b _ a (omega (arith, t.size)) (sym t.padding)
                            (sym (drop_all b 56 (omega (arith, t.size)))))))))))))))

-- The format is canonical: a buffer of bytes that is decoded without an error is the encoding of
-- the frame that was decoded.
pub encode-decode_touch_frame :
    (b : List ℕ) (width height : ℤ)
    → AreBytes b
    → (decode_touch_frame b width height).error ≡ ok
    → encode_touch_frame (decode_touch_frame b width height).frame ≡ b
encode-decode_touch_frame b width height a e =
    let (t, f) = IsAccepted-of_ok b width height e in
    rw f (encode-wire (frame_fields b) ∙ wire-fields b width height a t)
