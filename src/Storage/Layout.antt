-- ===== src/Storage/Layout.antt =====
-- Where the parts of a storage packet stand.
use pen_lvgl.Prelude.{
  ℕ, zero, suc, ◌+◌, ◌-◌, ◌^◌, ◌≤◌, ◌<◌, ◌≡◌, refl, ap, sym, ◌∙◌, true, false, some, List, [], ◌++◌,
  length, take, drop, replicate, take-append, drop-append, length-append, length-replicate,
  drop-drop, same_bytes, same_bytes_refl, arith,
}
use mathlib.Core.List.{append_assoc}
use pen_lvgl.Wire.{IsU16, IsU32, IsU64, put_le, get_le, write_at}
use pen_lvgl.Wire.Laws.{get_le-put_le, write_at-replicate}
use pen_lvgl.Storage.{
  StorageHeader, StorageCommand, StorageProtocolStatus, command_of, command_value, status_of,
  status_value, valid_command, valid_status, storage_magic, all_zero, zero_padding, encode_header,
  header_fields, header_refused, decode_header,
}

all_zero-replicate : (k : ℕ) → all_zero (replicate k 0) ≡ true
unfolding all_zero
all_zero-replicate zero = refl
all_zero-replicate (suc k) = all_zero-replicate k

-- The first 32 bytes.
first_32 : StorageHeader → List ℕ
first_32 h =
    storage_magic
    ++ (put_le 2 1
        ++ (put_le 2 (command_value h.command)
            ++ (put_le 2 (status_value h.status)
                ++ (put_le 2 h.name_size
                    ++ (put_le 4 h.data_size
                        ++ (put_le 4 h.maximum_size ++ (put_le 8 h.request_id ++ [])))))))

length-first_32 : (h : StorageHeader) → length (first_32 h) ≡ 32
unfolding first_32 put_le
length-first_32 h = refl

-- The packet of a header, a name and its content.
pub packet : StorageHeader → List ℕ → List ℕ → List ℕ
packet h name content = first_32 h ++ (name ++ (replicate (64 - length name) 0 ++ content))

write_name :
    (h : StorageHeader) (name : List ℕ)
    → write_at 32 name (encode_header h) ≡ first_32 h ++ write_at 0 name (replicate 64 0)
unfolding encode_header first_32 put_le
write_name h name = refl

pub write_name-packet :
    (h : StorageHeader) (name content : List ℕ)
    → length name ≤ 64
    → write_at 32 name (encode_header h) ++ content ≡ packet h name content
unfolding packet
write_name-packet h name content l =
    rw (write_name h name, write_at-replicate name 64 l) (simp append_assoc)

-- The ranges of the fields.
pub record IsTyped (h : StorageHeader) : Type 0 where
  pub command : valid_command h.command ≡ true
  pub status : valid_status h.status ≡ true
  pub name_size : IsU16 h.name_size
  pub data_size : IsU32 h.data_size
  pub maximum_size : IsU32 h.maximum_size
  pub request_id : IsU64 h.request_id

command_value-lt : (c : StorageCommand) → valid_command c ≡ true → command_value c < 2 ^ 16
unfolding command_value valid_command
command_value-lt c h = ground arith

command_of-command_value :
    (c : StorageCommand) → valid_command c ≡ true → command_of (command_value c) ≡ c
unfolding command_of command_value valid_command
command_of-command_value c h = ground arith

status_value-lt : (s : StorageProtocolStatus) → valid_status s ≡ true → status_value s < 2 ^ 16
unfolding status_value valid_status
status_value-lt s h = ground arith

status_of-status_value :
    (s : StorageProtocolStatus) → valid_status s ≡ true → status_of (status_value s) ≡ s
unfolding status_of status_value valid_status
status_of-status_value s h = ground arith

module _ (h : StorageHeader) (rest : List ℕ) where
  magic_at : same_bytes storage_magic (take 8 (first_32 h ++ rest)) ≡ true
  unfolding first_32
  magic_at = same_bytes_refl storage_magic

  version_at : get_le 2 (drop 8 (first_32 h ++ rest)) ≡ 1
  unfolding first_32 put_le
  version_at = get_le-put_le 2 1 _ (omega arith)

  command_at :
      valid_command h.command ≡ true
      → command_of (get_le 2 (drop 10 (first_32 h ++ rest))) ≡ h.command
  unfolding first_32 put_le
  command_at v =
      ap command_of (get_le-put_le 2 (command_value h.command) _ (command_value-lt h.command v))
      ∙ command_of-command_value h.command v

  status_at :
      valid_status h.status ≡ true → status_of (get_le 2 (drop 12 (first_32 h ++ rest))) ≡ h.status
  unfolding first_32 put_le
  status_at v =
      ap status_of (get_le-put_le 2 (status_value h.status) _ (status_value-lt h.status v))
      ∙ status_of-status_value h.status v

  name_at : IsU16 h.name_size → get_le 2 (drop 14 (first_32 h ++ rest)) ≡ h.name_size
  unfolding first_32 put_le
  name_at l = get_le-put_le 2 h.name_size _ l

  data_at : IsU32 h.data_size → get_le 4 (drop 16 (first_32 h ++ rest)) ≡ h.data_size
  unfolding first_32 put_le
  data_at l = get_le-put_le 4 h.data_size _ l

  maximum_at : IsU32 h.maximum_size → get_le 4 (drop 20 (first_32 h ++ rest)) ≡ h.maximum_size
  unfolding first_32 put_le
  maximum_at l = get_le-put_le 4 h.maximum_size _ l

  request_at : IsU64 h.request_id → get_le 8 (drop 24 (first_32 h ++ rest)) ≡ h.request_id
  unfolding first_32 put_le
  request_at l = get_le-put_le 8 h.request_id _ l

  header_fields-first_32 : IsTyped h → header_fields (first_32 h ++ rest) ≡ h
  unfolding header_fields
  header_fields-first_32 t = cc (
    command_at t.command,
    status_at t.status,
    name_at t.name_size,
    data_at t.data_size,
    maximum_at t.maximum_size,
    request_at t.request_id,
  )

module _ (h : StorageHeader) (name content : List ℕ) (short : length name ≤ 64) where
  pub behind_32 :
      drop 32 (packet h name content) ≡ name ++ (replicate (64 - length name) 0 ++ content)
  unfolding packet
  behind_32 = drop-append (first_32 h) _ 32 (length-first_32 h)

  pub name_in : take (length name) (drop 32 (packet h name content)) ≡ name
  name_in = rw behind_32 (take-append name _ (length name) refl)

  behind_name :
      drop (32 + length name) (packet h name content) ≡ replicate (64 - length name) 0 ++ content
  behind_name =
      sym (drop-drop 32 (length name) (packet h name content))
      ∙ rw behind_32 (drop-append name _ (length name) refl)

  pub zero_padding-packet : zero_padding (packet h name content) (32 + length name) ≡ true
  unfolding zero_padding
  zero_padding-packet =
      let e : 96 - (32 + length name) ≡ 64 - length name = omega arith in
      rw
        (
          e,
          behind_name,
          take-append (replicate (64 - length name) 0) content (64 - length name)
              (length-replicate (64 - length name) 0),
        )
        (all_zero-replicate (64 - length name))

  pub content_in : drop 96 (packet h name content) ≡ content
  content_in =
      let e : 32 + length name + (64 - length name) ≡ 96 = omega arith in
      ap (λ k. drop k (packet h name content)) (sym e)
      ∙ sym (drop-drop (32 + length name) (64 - length name) (packet h name content))
      ∙ rw behind_name (
          drop-append (replicate (64 - length name) 0) content (64 - length name)
            (length-replicate (64 - length name) 0))

  pub length-packet : length (packet h name content) ≡ 96 + length content
  unfolding packet
  length-packet =
      omega
        (arith, length-first_32 h, length-append {0}, length-replicate {A = ℕ} (64 - length name) 0)

  pub header_fields-packet : IsTyped h → header_fields (packet h name content) ≡ h
  unfolding packet
  header_fields-packet t = header_fields-first_32 h _ t

  pub header_refused-packet :
      length content ≤ 65536 → header_refused (packet h name content) ≡ false
  unfolding header_refused packet
  header_refused-packet l =
      let rest = name ++ (replicate (64 - length name) 0 ++ content) in
      ground (arith, length-packet, magic_at h rest, version_at h rest)

  -- A packet whose sizes are right is taken.
  pub decode_header-packet :
      IsTyped h
      → h.data_size ≡ length content
      → length content ≤ 65536
      → decode_header (packet h name content) ≡ some h
  unfolding decode_header
  decode_header-packet t e l =
      rw (header_refused-packet l, header_fields-packet t, length-packet, t.command, t.status, e)
        (ground arith)

pub header-packet :
    (h : StorageHeader) (content : List ℕ) → encode_header h ++ content ≡ packet h [] content
unfolding encode_header put_le
header-packet h content = write_name-packet h [] content (omega arith)
