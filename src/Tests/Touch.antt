-- ===== src/Tests/Touch.antt =====
-- Runs and instances for platform/src/ipc/touch_protocol.cpp.
use pen_lvgl.Prelude.{ℕ, ◌≤◌, ◌<◌, ◌≡◌, refl, ◌⊎◌, true, false, List, [], ◌∷◌, arith}
use pen_lvgl.Prelude.Int.{pos, to_word, of_word}
use pen_lvgl.Wire.{AreBytes, put_le, get_le}
use pen_lvgl.Touch.{
  TouchFrame, TouchPhase, start, move, end, ok, input_contact_invalid, valid_phase, phase_value,
  valid_touch_frame, encode_touch_frame, decode_touch_frame, frame_fields, phase_of, error_ok,
  TouchSequenceGuard, accept_sequence, reset_sequence, TouchContactGuard, accept_contact,
  contact_phase,
}
use pen_lvgl.Touch.Codec.{IsTyped, decode-encode_touch_frame, encode-decode_touch_frame}
use pen_lvgl.Touch.Sequence.{taken}
use pen_lvgl.Touch.Contacts.{touching, needs, moved, accept_contact_refines}

abbrev touch : ℕ → TouchPhase → TouchFrame
touch n p = record {
  session_nonce = 77;
  sequence = n;
  monotonic_us = 5000;
  phase = p;
  contact_id = 3;
  x = pos 10;
  y = pos 20;
  flags = 0;
}

valid_touch : valid_touch_frame (touch 1 start) (pos 100) (pos 50) ≡ true
unfolding valid_touch_frame valid_phase
valid_touch = refl

IsTyped-touch : IsTyped (touch 1 start)
IsTyped-touch = omega arith

decode-encode_touch_frame_example :
    decode_touch_frame (encode_touch_frame (touch 1 start)) (pos 100) (pos 50)
    ≡ record { frame = touch 1 start; error = ok }
decode-encode_touch_frame_example =
    decode-encode_touch_frame (touch 1 start) (pos 100) (pos 50) IsTyped-touch valid_touch

abbrev packet : List ℕ
packet =
    0x50 ∷ 0x54 ∷ 0x56 ∷ 0x4C ∷ 1 ∷ 0 ∷ 56 ∷ 0 ∷ 77 ∷ 0 ∷ 0 ∷ 0 ∷ 0 ∷ 0 ∷ 0 ∷ 0 ∷ 1 ∷ 0 ∷ 0 ∷ 0 ∷ 0
    ∷ 0 ∷ 0 ∷ 0 ∷ 0x88 ∷ 0x13 ∷ 0 ∷ 0 ∷ 0 ∷ 0 ∷ 0 ∷ 0 ∷ 1 ∷ 0 ∷ 0 ∷ 0 ∷ 3 ∷ 0 ∷ 0 ∷ 0 ∷ 10 ∷ 0 ∷ 0
    ∷ 0 ∷ 20 ∷ 0 ∷ 0 ∷ 0 ∷ 0 ∷ 0 ∷ 0 ∷ 0 ∷ 0 ∷ 0 ∷ 0 ∷ 0 ∷ []

packet_run : encode_touch_frame (touch 1 start) ≡ packet
unfolding encode_touch_frame put_le phase_value to_word
packet_run = refl

packet_bytes : AreBytes packet
packet_bytes = omega arith

packet_accepted : (decode_touch_frame packet (pos 100) (pos 50)).error ≡ ok
unfolding decode_touch_frame frame_fields get_le valid_touch_frame valid_phase phase_of of_word
packet_accepted = refl

encode-decode_touch_frame_example :
    encode_touch_frame (decode_touch_frame packet (pos 100) (pos 50)).frame ≡ packet
encode-decode_touch_frame_example =
    encode-decode_touch_frame packet (pos 100) (pos 50) packet_bytes packet_accepted

abbrev guard : TouchSequenceGuard
guard = record { session_nonce = 77; last_sequence = 4 }

abbrev stream : List TouchFrame
stream = touch 2 start ∷ touch 2 move ∷ touch 1 move ∷ touch 6 end ∷ []

-- The replayed frame and the late one are left out.
taken_run : taken (reset_sequence 77) stream ≡ touch 2 start ∷ touch 6 end ∷ []
unfolding taken reset_sequence accept_sequence error_ok
taken_run = refl

abbrev two_contacts : TouchContactGuard
two_contacts = record { active_contacts = 9 }

accept_contact_refines_example :
    ((3 ≤ 31)
      × (needs end (touching two_contacts 3) ≡ true)
      × ((accept_contact two_contacts (touch 7 end)).0 ≡ ok)
      × (touching (accept_contact two_contacts (touch 7 end)).1 0
          ≡ moved two_contacts (touch 7 end) 0))
    ⊎ (((31 < 3) ⊎ (needs end (touching two_contacts 3) ≡ false))
        × (accept_contact two_contacts (touch 7 end) ≡ (input_contact_invalid, two_contacts)))
accept_contact_refines_example = accept_contact_refines two_contacts (touch 7 end) 0 (omega arith)

-- Contacts 0 and 3 touch; contact 3 leaves.
contact_run : accept_contact two_contacts (touch 7 end) ≡ (ok, record { active_contacts = 1 })
unfolding accept_contact contact_phase
contact_run = refl
