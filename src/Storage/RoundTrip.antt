-- ===== src/Storage/RoundTrip.antt =====
-- Requests of platform/src/ipc/storage_protocol.cpp are decoded from their encodings.
use pen_lvgl.Prelude.{
  ℕ, ◌%◌, ◌^◌, ◌≤◌, ◌≡◌, ◌⊎◌, inl, inr, refl, ap, Bool-cases, true, false, none, some, List, [],
  ◌∷◌, length, is_empty, take-length, if◌then◌else◌, arith,
}
use pen_lvgl.Wire.{IsU64}
use pen_lvgl.Storage.{
  StorageHeader, StorageRequest, ok, is_ok, is_write, valid_command, valid_status, request_refused,
  encode_storage_request, decode_header, request_header_refused, request_from,
  decode_storage_request, header_refused,
}
use pen_lvgl.Storage.Records.{valid_storage_record_name}
use pen_lvgl.Storage.Layout.{
  IsTyped, packet, write_name-packet, decode_header-packet, name_in, content_in,
  zero_padding-packet,
}

-- What is not refused.
record IsRequest (r : StorageRequest) : Type 0 where
  command : valid_command r.command ≡ true
  identified : 1 ≤ r.request_id
  named : valid_storage_record_name r.record_name ≡ true
  name_bound : length r.record_name ≤ 64
  name_some : 1 ≤ length r.record_name
  maximum : 1 ≤ r.maximum_size
  maximum_bound : r.maximum_size ≤ 65536
  content_bound : length r.content ≤ r.maximum_size
  content_read : is_write r.command ≡ false → length r.content ≡ 0
  content_write : is_write r.command ≡ true → 1 ≤ length r.content

name-bounds :
    (name : List ℕ) → valid_storage_record_name name ≡ true → (1 ≤ length name) × (length name ≤ 64)
unfolding valid_storage_record_name
name-bounds [] h = absurd (ground arith)
name-bounds (c ∷ name) h = ground arith

pub is_empty-cases :
    (xs : List ℕ) → ((is_empty xs ≡ true) × (xs ≡ [])) ⊎ ((is_empty xs ≡ false) × (1 ≤ length xs))
is_empty-cases [] = inl (refl, refl)
is_empty-cases (x ∷ xs) = inr (refl, omega arith)

pub length-is_empty : (xs : List ℕ) → xs ≡ [] → length xs ≡ 0
length-is_empty xs e = ap length e

request_refused-IsRequest : (r : StorageRequest) → request_refused r ≡ false → IsRequest r
unfolding request_refused
request_refused-IsRequest r h =
    let named : valid_storage_record_name r.record_name ≡ true = ground arith in
    let (some_name, short_name) = name-bounds r.record_name named in
    let empty = is_empty-cases r.content in
    let zero_length = length-is_empty r.content in
    record {
      command = ground arith;
      identified = ground arith;
      named = named;
      name_bound = short_name;
      name_some = some_name;
      maximum = ground arith;
      maximum_bound = ground arith;
      content_bound = ground (arith, empty, zero_length);
      content_read = λ e. ground (arith, empty, zero_length);
      content_write = λ e. ground (arith, empty);
    }

abbrev request_header : StorageRequest → StorageHeader
request_header r = record {
  command = r.command;
  status = ok;
  name_size = length r.record_name;
  data_size = length r.content;
  maximum_size = r.maximum_size;
  request_id = r.request_id;
}

encode_storage_request-packet :
    (r : StorageRequest)
    → request_refused r ≡ false
    → IsRequest r
    → encode_storage_request r ≡ packet (request_header r) r.record_name r.content
unfolding encode_storage_request
encode_storage_request-packet r h k =
    let n : length r.record_name % 2 ^ 16 ≡ length r.record_name = omega (arith, k.name_bound) in
    let c : length r.content % 2 ^ 32 ≡ length r.content =
      omega (arith, k.content_bound, k.maximum_bound) in
    rw (h, n, c) (write_name-packet (request_header r) r.record_name r.content k.name_bound)

request_header-IsTyped :
    (r : StorageRequest) → IsRequest r → IsU64 r.request_id → IsTyped (request_header r)
unfolding valid_status
request_header-IsTyped r k l = record {
  command = k.command;
  status = refl;
  name_size = omega (arith, k.name_bound);
  data_size = omega (arith, k.content_bound, k.maximum_bound);
  maximum_size = omega (arith, k.maximum_bound);
  request_id = l;
}

request_from-packet :
    (r : StorageRequest)
    → IsRequest r
    → request_from (request_header r) (packet (request_header r) r.record_name r.content) ≡ some r
unfolding request_from request_header_refused is_ok
request_from-packet r k =
    rw
      (
        name_in (request_header r) r.record_name r.content k.name_bound,
        content_in (request_header r) r.record_name r.content k.name_bound,
        zero_padding-packet (request_header r) r.record_name r.content k.name_bound,
        k.named,
        take-length r.content,
      )
      (ground (
        arith, k.identified, k.name_bound, k.name_some, k.maximum, k.maximum_bound, k.content_bound,
        k.content_read, k.content_write,
      ))

pub decode_header-nil : decode_header [] ≡ none
unfolding decode_header header_refused
decode_header-nil = refl

refused_request : (r : StorageRequest) → request_refused r ≡ true → encode_storage_request r ≡ []
unfolding encode_storage_request
refused_request r h = rw h refl

-- A request that is not refused is decoded from its encoding, to itself; of a refused one nothing
-- is encoded that is decoded. The request number has 64 bits.
pub decode-encode_storage_request :
    (r : StorageRequest)
    → IsU64 r.request_id
    → decode_storage_request (encode_storage_request r)
      ≡ (if request_refused r then none else some r)
unfolding decode_storage_request
decode-encode_storage_request r l = elim (Bool-cases (request_refused r)) [
  | inl e ↦ rw (e, refused_request r e, decode_header-nil) refl
  | inr e ↦
      let k = request_refused-IsRequest r e in
      let h = request_header r in
      rw
        (
          e,
          encode_storage_request-packet r e k,
          decode_header-packet h r.record_name r.content k.name_bound (request_header-IsTyped r k l)
              refl (omega (arith, k.content_bound, k.maximum_bound)),
        )
        (request_from-packet r k)
]
