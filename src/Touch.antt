-- ===== src/Touch.antt =====
-- platform/src/ipc/touch_protocol.cpp and its header: the touch frames that the Falcon launcher
-- sends to the session daemon, and the guards against replayed frames and broken contacts.
-- A wire frame is a list of bytes. The object that a guard mutates is a record that `accept`
-- returns with its result.
pub mod Codec
pub mod Sequence
pub mod Contacts
use pen_lvgl.Prelude.{
  ℕ, ◌+◌, ◌-◌, ◌%◌, ◌^◌, Bool, true, false, not, ◌&&◌, ◌||◌, List, ltb, leb, ◌==◌, if◌then◌else◌,
  bit_and, bit_or, length, drop, replicate,
}
use pen_lvgl.Prelude.Int.{ℤ, pos, ltb_ℤ, to_word, of_word}
use pen_lvgl.Wire.{put_le, get_le, write_at}

-- platform/include/lvgl_platform/error.h
pub data ErrorDomain : Type 0 where
  no_domain profile trust package_domain policy storage runtime display input application :
      ErrorDomain

unfoldable pub no_domain_in : ErrorDomain → Bool
no_domain_in no_domain = true
no_domain_in _ = false

pub record ErrorCode : Type 0 where
  pub domain : ErrorDomain
  pub value : ℕ

abbrev pub ok : ErrorCode
ok = record { domain = no_domain; value = 0 }

abbrev pub input_frame_invalid : ErrorCode
input_frame_invalid = record { domain = input; value = 1 }

abbrev pub input_session_mismatch : ErrorCode
input_session_mismatch = record { domain = input; value = 2 }

abbrev pub input_sequence_replayed : ErrorCode
input_sequence_replayed = record { domain = input; value = 3 }

abbrev pub input_contact_invalid : ErrorCode
input_contact_invalid = record { domain = input; value = 5 }

-- `ErrorCode::ok`.
unfoldable pub error_ok : ErrorCode → Bool
unfolding no_domain_in
error_ok error = no_domain_in error.domain && error.value == 0

-- A `TouchPhase` may hold any 32-bit value: the decoder casts what it reads.
pub data TouchPhase : Type 0 where
  start move end cancel : TouchPhase
  other : ℕ → TouchPhase

unfoldable pub phase_of : ℕ → TouchPhase
phase_of v =
    if v == 1
    then start
    else if v == 2
    then move
    else if v == 3
    then end
    else if v == 4
    then cancel
    else other v

unfoldable pub phase_value : TouchPhase → ℕ
phase_value start = 1
phase_value move = 2
phase_value end = 3
phase_value cancel = 4
phase_value (other v) = v

unfoldable pub valid_phase : TouchPhase → Bool
valid_phase start = true
valid_phase move = true
valid_phase end = true
valid_phase cancel = true
valid_phase (other v) = false

pub record TouchFrame : Type 0 where
  pub session_nonce : ℕ
  pub sequence : ℕ
  pub monotonic_us : ℕ
  pub phase : TouchPhase
  pub contact_id : ℕ
  pub x : ℤ
  pub y : ℤ
  pub flags : ℕ

abbrev pub blank_frame : TouchFrame
blank_frame = record {
  session_nonce = 0;
  sequence = 0;
  monotonic_us = 0;
  phase = cancel;
  contact_id = 0;
  x = pos 0;
  y = pos 0;
  flags = 0;
}

pub record TouchDecodeResult : Type 0 where
  pub frame : TouchFrame
  pub error : ErrorCode

abbrev pub touch_frame_magic : ℕ
touch_frame_magic = 0x4C565450

abbrev pub touch_frame_wire_size : ℕ
touch_frame_wire_size = 56

abbrev pub touch_protocol_version : ℕ
touch_protocol_version = 1

abbrev pub max_touch_contact_id : ℕ
max_touch_contact_id = 31

unfoldable pub valid_touch_frame : TouchFrame → ℤ → ℤ → Bool
valid_touch_frame frame width height =
    not (frame.session_nonce == 0)
    && not (frame.sequence == 0)
    && not (frame.monotonic_us == 0)
    && valid_phase frame.phase
    && leb frame.contact_id max_touch_contact_id
    && ltb_ℤ (pos 0) width
    && ltb_ℤ (pos 0) height
    && not (ltb_ℤ frame.x (pos 0))
    && not (ltb_ℤ frame.y (pos 0))
    && ltb_ℤ frame.x width
    && ltb_ℤ frame.y height
    && frame.flags == 0

unfoldable pub touch_timestamp_fresh : TouchFrame → ℕ → ℕ → ℕ → Bool
touch_timestamp_fresh frame now maximum_age maximum_future =
    if frame.monotonic_us == 0 || now == 0
    then false
    else if ltb now frame.monotonic_us
    then leb (frame.monotonic_us - now) maximum_future
    else leb (now - frame.monotonic_us) maximum_age

-- The writes into the frame, one after the other.
unfoldable pub encode_touch_frame : TouchFrame → List ℕ
encode_touch_frame frame =
    let bytes0 = write_at 0 (put_le 4 touch_frame_magic) (replicate touch_frame_wire_size 0) in
    let bytes1 = write_at 4 (put_le 2 touch_protocol_version) bytes0 in
    let bytes2 = write_at 6 (put_le 2 touch_frame_wire_size) bytes1 in
    let bytes3 = write_at 8 (put_le 8 frame.session_nonce) bytes2 in
    let bytes4 = write_at 16 (put_le 8 frame.sequence) bytes3 in
    let bytes5 = write_at 24 (put_le 8 frame.monotonic_us) bytes4 in
    let bytes6 = write_at 32 (put_le 4 (phase_value frame.phase)) bytes5 in
    let bytes7 = write_at 36 (put_le 4 frame.contact_id) bytes6 in
    let bytes8 = write_at 40 (put_le 4 (to_word frame.x)) bytes7 in
    let bytes9 = write_at 44 (put_le 4 (to_word frame.y)) bytes8 in
    let bytes10 = write_at 48 (put_le 4 frame.flags) bytes9 in write_at 52 (put_le 4 0) bytes10

-- The fields of a buffer whose size, magic number, version and padding have been tested.
unfoldable pub frame_fields : List ℕ → TouchFrame
frame_fields bytes = record {
  session_nonce = get_le 8 (drop 8 bytes);
  sequence = get_le 8 (drop 16 bytes);
  monotonic_us = get_le 8 (drop 24 bytes);
  phase = phase_of (get_le 4 (drop 32 bytes));
  contact_id = get_le 4 (drop 36 bytes);
  x = of_word (get_le 4 (drop 40 bytes));
  y = of_word (get_le 4 (drop 44 bytes));
  flags = get_le 4 (drop 48 bytes);
}

unfoldable pub decode_touch_frame : List ℕ → ℤ → ℤ → TouchDecodeResult
decode_touch_frame bytes width height =
    let frame = frame_fields bytes in
    if not (length bytes == touch_frame_wire_size)
    then record { frame = blank_frame; error = input_frame_invalid }
    else if not (get_le 4 bytes == touch_frame_magic)
        || not (get_le 2 (drop 4 bytes) == touch_protocol_version)
        || not (get_le 2 (drop 6 bytes) == touch_frame_wire_size)
        || not (get_le 4 (drop 52 bytes) == 0)
    then record { frame = blank_frame; error = input_frame_invalid }
    else if not (valid_touch_frame frame width height)
    then record { frame = frame; error = input_frame_invalid }
    else record { frame = frame; error = ok }

pub record TouchSequenceGuard : Type 0 where
  pub session_nonce : ℕ
  pub last_sequence : ℕ

unfoldable pub accept_sequence : TouchSequenceGuard → TouchFrame → ErrorCode × TouchSequenceGuard
accept_sequence guard frame =
    if guard.session_nonce == 0 || not (frame.session_nonce == guard.session_nonce)
    then (input_session_mismatch, guard)
    else if leb frame.sequence guard.last_sequence
    then (input_sequence_replayed, guard)
    else (ok, record guard { last_sequence = frame.sequence })

unfoldable pub reset_sequence : ℕ → TouchSequenceGuard
reset_sequence session_nonce = record { session_nonce = session_nonce; last_sequence = 0 }

pub record TouchContactGuard : Type 0 where
  pub active_contacts : ℕ

-- The `switch` on the phase, for a contact whose mask is set or not.
unfoldable pub contact_phase :
    TouchContactGuard → ℕ → Bool → TouchPhase → ErrorCode × TouchContactGuard
contact_phase guard mask active start =
    if active
    then (input_contact_invalid, guard)
    else (ok, record { active_contacts = bit_or guard.active_contacts mask })
contact_phase guard mask active move =
    if active then (ok, guard) else (input_contact_invalid, guard)
contact_phase guard mask active end =
    if not active
    then (input_contact_invalid, guard)
    else (ok, record { active_contacts = bit_and guard.active_contacts (2 ^ 32 - 1 - mask) })
contact_phase guard mask active cancel =
    if not active
    then (input_contact_invalid, guard)
    else (ok, record { active_contacts = bit_and guard.active_contacts (2 ^ 32 - 1 - mask) })
contact_phase guard mask active (other v) = (input_contact_invalid, guard)

unfoldable pub accept_contact : TouchContactGuard → TouchFrame → ErrorCode × TouchContactGuard
accept_contact guard frame =
    let mask = 2 ^ frame.contact_id % 2 ^ 32 in
    let active = not (bit_and guard.active_contacts mask == 0) in
    if ltb max_touch_contact_id frame.contact_id
    then (input_contact_invalid, guard)
    else contact_phase guard mask active frame.phase

unfoldable pub reset_contacts : TouchContactGuard
reset_contacts = record { active_contacts = 0 }
