-- ===== src/Session/Control/RoundTrip.antt =====
-- Control messages are decoded from their encodings.
use pen_lvgl.Prelude.{
  ℕ, zero, suc, ◌+◌, ◌-◌, ◌%◌, ◌^◌, ◌≤◌, ◌<◌, ◌≡◌, refl, ap, sym, ◌∙◌, ◌==◌, ◌&&◌, ◌||◌, not, true,
  false, none, some, List, [], ◌∷◌, ◌++◌, length, take, drop, replicate, take-append, drop-append,
  length-append, length-replicate, drop-drop, if◌then◌else◌, is_empty, all, arith,
}
use pen_lvgl.Wire.{IsU32, put_le, get_le, write_at}
use pen_lvgl.Wire.Laws.{get_le-put_le, write_at-replicate}
use pen_lvgl.Session.Ids.{valid_session_app_id}
use pen_lvgl.Session.Control.{
  SessionControlCommand, SessionControlMessage, session_control_magic, control_command_of,
  control_command_value, is_launch, known_command, carried_app_id, encode_session_control, is_nul,
  control_layout_refused, control_message_at, control_fields_refused, control_app_refused,
  decode_session_control,
}

nuls-all : (k : ℕ) → all is_nul (replicate k 0) ≡ true
unfolding is_nul
nuls-all zero = refl
nuls-all (suc k) = nuls-all k

command_of-value :
    (c : SessionControlCommand)
    → known_command c ≡ true
    → control_command_of (control_command_value c) ≡ c
unfolding control_command_of control_command_value known_command
command_of-value c h = ground arith

command_value-lt :
    (c : SessionControlCommand) → known_command c ≡ true → control_command_value c < 2 ^ 32
unfolding control_command_value known_command
command_value-lt c h = ground arith

valid_id-length :
    (id : List ℕ) → valid_session_app_id id ≡ true → (1 ≤ length id) × (length id ≤ 95)
unfolding valid_session_app_id
valid_id-length [] h = absurd (ground arith)
valid_id-length (c ∷ id) h = ground arith

valid_id-nonempty : (id : List ℕ) → valid_session_app_id id ≡ true → is_empty id ≡ false
unfolding valid_session_app_id
valid_id-nonempty [] h = absurd (ground arith)
valid_id-nonempty (c ∷ id) h = refl

carried_app_id-le : (m : SessionControlMessage) → length (carried_app_id m) ≤ 95
unfolding carried_app_id
carried_app_id-le m = ground (arith, valid_id-length m.app_id)

-- The first 20 bytes, and all.
head_of : SessionControlMessage → List ℕ
head_of m =
    put_le 4 session_control_magic
    ++ (put_le 2 1
        ++ (put_le 2 128
            ++ (put_le 4 (control_command_value m.command)
                ++ (put_le 4 m.result ++ (put_le 2 (length m.app_id) ++ put_le 2 0)))))

wire : SessionControlMessage → List ℕ
wire m = head_of m ++ (m.app_id ++ replicate (108 - length m.app_id) 0)

-- The message without an application that it does not launch.
unfoldable pub carried : SessionControlMessage → SessionControlMessage
carried m = record m { app_id = carried_app_id m }

length-head_of : (m : SessionControlMessage) → length (head_of m) ≡ 20
unfolding head_of put_le
length-head_of m = refl

app_written :
    (m : SessionControlMessage)
    → encode_session_control m
      ≡ head_of (record m { app_id = carried_app_id m })
        ++ write_at 0 (carried_app_id m) (replicate 108 0)
unfolding encode_session_control head_of put_le
app_written m =
    let short : length (carried_app_id m) % 2 ^ 16 ≡ length (carried_app_id m) =
      omega (arith, carried_app_id-le m) in
    rw short refl

encode-wire : (m : SessionControlMessage) → encode_session_control m ≡ wire (carried m)
unfolding wire carried
encode-wire m =
    app_written m
    ∙ ap (λ t. head_of (carried m) ++ t)
        (write_at-replicate (carried_app_id m) 108 (omega (arith, carried_app_id-le m)))

module _ (m : SessionControlMessage) (known : known_command m.command ≡ true) (r : IsU32 m.result)
    (short : length m.app_id ≤ 95) where
  magic_at : get_le 4 (wire m) ≡ session_control_magic
  unfolding wire head_of put_le
  magic_at = get_le-put_le 4 session_control_magic _ (omega arith)

  version_at : get_le 2 (drop 4 (wire m)) ≡ 1
  unfolding wire head_of put_le
  version_at = get_le-put_le 2 1 _ (omega arith)

  wire_size_at : get_le 2 (drop 6 (wire m)) ≡ 128
  unfolding wire head_of put_le
  wire_size_at = get_le-put_le 2 128 _ (omega arith)

  command_at : control_command_of (get_le 4 (drop 8 (wire m))) ≡ m.command
  unfolding wire head_of put_le
  command_at =
      ap control_command_of
        (get_le-put_le 4 (control_command_value m.command) _ (command_value-lt m.command known))
      ∙ command_of-value m.command known

  result_at : get_le 4 (drop 12 (wire m)) ≡ m.result
  unfolding wire head_of put_le
  result_at = get_le-put_le 4 m.result _ r

  size_at : get_le 2 (drop 16 (wire m)) ≡ length m.app_id
  unfolding wire head_of put_le
  size_at = get_le-put_le 2 (length m.app_id) _ (omega arith)

  padding_at : get_le 2 (drop 18 (wire m)) ≡ 0
  unfolding wire head_of put_le
  padding_at = get_le-put_le 2 0 _ (omega arith)

  behind_20 : drop 20 (wire m) ≡ m.app_id ++ replicate (108 - length m.app_id) 0
  unfolding wire
  behind_20 = drop-append (head_of m) _ 20 (length-head_of m)

  app_at : take (length m.app_id) (drop 20 (wire m)) ≡ m.app_id
  app_at = rw behind_20 (take-append m.app_id _ (length m.app_id) refl)

  zeros_at : all is_nul (drop (20 + length m.app_id) (wire m)) ≡ true
  zeros_at =
      rw
        (
          sym (drop-drop 20 (length m.app_id) (wire m)),
          behind_20,
          drop-append m.app_id (replicate (108 - length m.app_id) 0) (length m.app_id) refl,
        )
        (nuls-all (108 - length m.app_id))

  length-wire : length (wire m) ≡ 128
  unfolding wire
  length-wire = omega (
    arith,
    length-head_of m,
    length-append {0},
    length-replicate {A = ℕ} (108 - length m.app_id) 0,
  )

  message-wire : control_message_at (wire m) ≡ m
  unfolding control_message_at
  message-wire = rw size_at (cc (command_at, result_at, app_at))

  layout-wire : control_layout_refused (wire m) ≡ false
  unfolding control_layout_refused
  layout-wire = rw (length-wire, magic_at, version_at, wire_size_at) refl

  decode-wire :
      decode_session_control (wire m)
      ≡ (if (m.result == 0) && not (control_app_refused m) then some m else none)
  unfolding decode_session_control control_fields_refused
  decode-wire = rw (message-wire, layout-wire, size_at, padding_at, zeros_at, known) (ground arith)

refused-carried :
    (m : SessionControlMessage)
    → not (control_app_refused (carried m))
      ≡ (not (is_launch m.command) || valid_session_app_id m.app_id)
unfolding carried carried_app_id control_app_refused
refused-carried m = ground (arith, valid_id-nonempty m.app_id)

decode-carried :
    (m : SessionControlMessage)
    → known_command m.command ≡ true
    → IsU32 m.result
    → decode_session_control (wire (carried m)) ≡ (
        if (m.result == 0) && not (control_app_refused (carried m)) then some (carried m) else none)
unfolding carried
decode-carried m known r =
    decode-wire (record m { app_id = carried_app_id m }) known r (carried_app_id-le m)

-- A control message is decoded from its encoding exactly if its result is 0 and it launches no
-- application or a validly named one; what is decoded is the message, without a name that is not
-- launched. The command is one of the four, and the result has 32 bits.
pub decode-encode_session_control :
    (m : SessionControlMessage)
    → known_command m.command ≡ true
    → IsU32 m.result
    → decode_session_control (encode_session_control m) ≡ (
        if (m.result == 0) && (not (is_launch m.command) || valid_session_app_id m.app_id)
        then some (carried m)
        else none)
decode-encode_session_control m known r =
    rw (encode-wire m, sym (refused-carried m)) (decode-carried m known r)
