-- ===== src/Storage.antt =====
-- platform/src/ipc/storage_protocol.cpp: the packets by which an application reads and writes its
-- records, and the quota of a write.
pub mod Records
pub mod Layout
pub mod RoundTrip
pub mod Responses
pub mod Quota
use pen_lvgl.Prelude.{
  ℕ, ◌+◌, ◌-◌, ◌%◌, ◌^◌, ◌>>=◌, Bool, true, false, not, ◌&&◌, ◌||◌, Option, none, some, List, [],
  ◌∷◌, ◌++◌, ltb, leb, ◌==◌, if◌then◌else◌, is_empty, length, take, drop, replicate, get_or,
  same_bytes,
}
use Records.{storage_record_name_size, maximum_storage_record_size, valid_storage_record_name}
use pen_lvgl.Wire.{put_le, get_le, write_at}

-- An enumeration may hold any number that fits it; the named ones are not among the others.
pub data StorageCommand : Type 0 where
  read write : StorageCommand
  other_command : ℕ → StorageCommand

pub data StorageProtocolStatus : Type 0 where
  ok invalid_request not_found quota_exceeded storage_corrupt io_error : StorageProtocolStatus
  other_status : ℕ → StorageProtocolStatus

unfoldable pub command_of : ℕ → StorageCommand
command_of v = if v == 1 then read else if v == 2 then write else other_command v

unfoldable pub command_value : StorageCommand → ℕ
command_value read = 1
command_value write = 2
command_value (other_command v) = v

unfoldable pub status_of : ℕ → StorageProtocolStatus
status_of v =
    if v == 0
    then ok
    else if v == 1
    then invalid_request
    else if v == 2
    then not_found
    else if v == 3
    then quota_exceeded
    else if v == 4
    then storage_corrupt
    else if v == 5
    then io_error
    else other_status v

unfoldable pub status_value : StorageProtocolStatus → ℕ
status_value ok = 0
status_value invalid_request = 1
status_value not_found = 2
status_value quota_exceeded = 3
status_value storage_corrupt = 4
status_value io_error = 5
status_value (other_status v) = v

pub record StorageRequest : Type 0 where
  pub command : StorageCommand
  pub request_id : ℕ
  pub record_name : List ℕ
  pub maximum_size : ℕ
  pub content : List ℕ

pub record StorageResponse : Type 0 where
  pub command : StorageCommand
  pub status : StorageProtocolStatus
  pub request_id : ℕ
  pub content : List ℕ

abbrev pub storage_header_size : ℕ
storage_header_size = 96

abbrev pub maximum_storage_packet_size : ℕ
maximum_storage_packet_size = 65632

-- "LVSTOR1" and a zero.
abbrev pub storage_magic : List ℕ
storage_magic = 76 ∷ 86 ∷ 83 ∷ 84 ∷ 79 ∷ 82 ∷ 49 ∷ 0 ∷ []

unfoldable pub valid_command : StorageCommand → Bool
valid_command read = true
valid_command write = true
valid_command (other_command v) = false

unfoldable pub is_write : StorageCommand → Bool
is_write write = true
is_write _ = false

unfoldable pub valid_status : StorageProtocolStatus → Bool
valid_status (other_status v) = false
valid_status _ = true

unfoldable pub is_ok : StorageProtocolStatus → Bool
is_ok ok = true
is_ok _ = false

unfoldable pub all_zero : List ℕ → Bool
all_zero [] = true
all_zero (b ∷ bytes) = b == 0 && all_zero bytes

unfoldable pub zero_padding : List ℕ → ℕ → Bool
zero_padding bytes begin = all_zero (take (storage_header_size - begin) (drop begin bytes))

-- The six values of a header.
pub record StorageHeader : Type 0 where
  pub command : StorageCommand
  pub status : StorageProtocolStatus
  pub name_size : ℕ
  pub data_size : ℕ
  pub maximum_size : ℕ
  pub request_id : ℕ

-- The writes into the first bytes of an output of zeros, one after the other.
unfoldable pub encode_header : StorageHeader → List ℕ
encode_header h =
    let bytes0 = write_at 0 storage_magic (replicate storage_header_size 0) in
    let bytes1 = write_at 8 (put_le 2 1) bytes0 in
    let bytes2 = write_at 10 (put_le 2 (command_value h.command)) bytes1 in
    let bytes3 = write_at 12 (put_le 2 (status_value h.status)) bytes2 in
    let bytes4 = write_at 14 (put_le 2 h.name_size) bytes3 in
    let bytes5 = write_at 16 (put_le 4 h.data_size) bytes4 in
    let bytes6 = write_at 20 (put_le 4 h.maximum_size) bytes5 in
    write_at 24 (put_le 8 h.request_id) bytes6

unfoldable pub header_fields : List ℕ → StorageHeader
header_fields bytes = record {
  command = command_of (get_le 2 (drop 10 bytes));
  status = status_of (get_le 2 (drop 12 bytes));
  name_size = get_le 2 (drop 14 bytes);
  data_size = get_le 4 (drop 16 bytes);
  maximum_size = get_le 4 (drop 20 bytes);
  request_id = get_le 8 (drop 24 bytes);
}

unfoldable pub header_refused : List ℕ → Bool
header_refused bytes =
    ltb (length bytes) storage_header_size
    || ltb maximum_storage_packet_size (length bytes)
    || not (same_bytes storage_magic (take 8 bytes))
    || not (get_le 2 (drop 8 bytes) == 1)

unfoldable pub decode_header : List ℕ → Option StorageHeader
decode_header bytes =
    let h = header_fields bytes in
    if header_refused bytes
    then none
    else if valid_command h.command
        && valid_status h.status
        && leb h.data_size maximum_storage_record_size
        && length bytes == storage_header_size + h.data_size
    then some h
    else none

unfoldable pub request_refused : StorageRequest → Bool
request_refused request =
    let writes = is_write request.command in
    not (valid_command request.command)
    || request.request_id == 0
    || not (valid_storage_record_name request.record_name)
    || request.maximum_size == 0
    || ltb maximum_storage_record_size request.maximum_size
    || (writes && (is_empty request.content || ltb request.maximum_size (length request.content)))
    || (not writes && not (is_empty request.content))

-- The empty output is a refusal.
unfoldable pub encode_storage_request : StorageRequest → List ℕ
encode_storage_request request =
    let header = encode_header (record {
      command = request.command;
      status = ok;
      name_size = length request.record_name % 2 ^ 16;
      data_size = length request.content % 2 ^ 32;
      maximum_size = request.maximum_size;
      request_id = request.request_id;
    }) in
    if request_refused request
    then []
    else write_at 32 request.record_name header ++ request.content

-- The tests behind `decode_header`.
unfoldable pub request_header_refused : StorageHeader → List ℕ → Bool
request_header_refused h bytes =
    not (is_ok h.status)
    || h.request_id == 0
    || h.name_size == 0
    || ltb storage_record_name_size h.name_size
    || h.maximum_size == 0
    || ltb maximum_storage_record_size h.maximum_size
    || ltb h.maximum_size h.data_size
    || not (zero_padding bytes (32 + h.name_size))

unfoldable pub request_from : StorageHeader → List ℕ → Option StorageRequest
request_from h bytes =
    let name = take h.name_size (drop 32 bytes) in
    let writes = is_write h.command in
    if request_header_refused h bytes
    then none
    else if not (valid_storage_record_name name)
        || (writes && h.data_size == 0)
        || (not writes && not (h.data_size == 0))
    then none
    else some (record {
      command = h.command;
      request_id = h.request_id;
      record_name = name;
      maximum_size = h.maximum_size;
      content = take h.data_size (drop storage_header_size bytes);
    })

unfoldable pub decode_storage_request : List ℕ → Option StorageRequest
decode_storage_request bytes = do h ← decode_header bytes; request_from h bytes

unfoldable pub response_refused : StorageResponse → Bool
response_refused response =
    not (valid_command response.command)
    || not (valid_status response.status)
    || response.request_id == 0
    || ltb maximum_storage_record_size (length response.content)
    || (not (is_ok response.status) && not (is_empty response.content))
    || (is_write response.command && not (is_empty response.content))

unfoldable pub encode_storage_response : StorageResponse → List ℕ
encode_storage_response response =
    let header = encode_header (record {
      command = response.command;
      status = response.status;
      name_size = 0;
      data_size = length response.content % 2 ^ 32;
      maximum_size = 0;
      request_id = response.request_id;
    }) in
    if response_refused response then [] else header ++ response.content

unfoldable pub response_from : StorageHeader → List ℕ → Option StorageResponse
response_from h bytes =
    if h.request_id == 0
      || not (h.name_size == 0)
      || not (h.maximum_size == 0)
      || not (zero_padding bytes 32)
      || (not (is_ok h.status) && not (h.data_size == 0))
      || (is_write h.command && not (h.data_size == 0))
    then none
    else some (record {
      command = h.command;
      status = h.status;
      request_id = h.request_id;
      content = take h.data_size (drop storage_header_size bytes);
    })

unfoldable pub decode_storage_response : List ℕ → Option StorageResponse
decode_storage_response bytes = do h ← decode_header bytes; response_from h bytes
