-- ===== src/Storage/Responses.antt =====
-- Responses of platform/src/ipc/storage_protocol.cpp are decoded from their encodings.
use pen_lvgl.Prelude.{
  ◌%◌, ◌^◌, ◌≤◌, ◌≡◌, inl, inr, refl, Bool-cases, true, false, none, some, [], length, take-length,
  if◌then◌else◌, arith,
}
use pen_lvgl.Wire.{IsU64}
use pen_lvgl.Storage.{
  StorageRequest, request_refused, encode_storage_request, decode_storage_request, StorageHeader,
  StorageResponse, is_ok, is_write, valid_command, valid_status, response_refused,
  encode_storage_response, response_from, decode_storage_response,
}
use pen_lvgl.Storage.Layout.{
  IsTyped, packet, header-packet, decode_header-packet, content_in, zero_padding-packet,
}
use pen_lvgl.Storage.RoundTrip.{
  decode-encode_storage_request, is_empty-cases, length-is_empty, decode_header-nil,
}

abbrev response_header : StorageResponse → StorageHeader
response_header r = record {
  command = r.command;
  status = r.status;
  name_size = 0;
  data_size = length r.content;
  maximum_size = 0;
  request_id = r.request_id;
}

record IsResponse (r : StorageResponse) : Type 0 where
  command : valid_command r.command ≡ true
  status : valid_status r.status ≡ true
  identified : 1 ≤ r.request_id
  content_bound : length r.content ≤ 65536
  content_failed : is_ok r.status ≡ false → length r.content ≡ 0
  content_write : is_write r.command ≡ true → length r.content ≡ 0

response_refused-IsResponse : (r : StorageResponse) → response_refused r ≡ false → IsResponse r
unfolding response_refused
response_refused-IsResponse r h =
    let empty = is_empty-cases r.content in
    let zero_length = length-is_empty r.content in
    record {
      command = ground arith;
      status = ground arith;
      identified = ground arith;
      content_bound = ground arith;
      content_failed = λ e. ground (arith, empty, zero_length);
      content_write = λ e. ground (arith, empty, zero_length);
    }

encode_storage_response-packet :
    (r : StorageResponse)
    → response_refused r ≡ false
    → IsResponse r
    → encode_storage_response r ≡ packet (response_header r) [] r.content
unfolding encode_storage_response
encode_storage_response-packet r h k =
    let c : length r.content % 2 ^ 32 ≡ length r.content = omega (arith, k.content_bound) in
    rw (h, c) (header-packet (response_header r) r.content)

refused_response :
    (r : StorageResponse) → response_refused r ≡ true → encode_storage_response r ≡ []
unfolding encode_storage_response
refused_response r h = rw h refl

response_from-packet :
    (r : StorageResponse)
    → IsResponse r
    → response_from (response_header r) (packet (response_header r) [] r.content) ≡ some r
unfolding response_from
response_from-packet r k =
    rw
      (
        content_in (response_header r) [] r.content (omega arith),
        zero_padding-packet (response_header r) [] r.content (omega arith),
        take-length r.content,
      )
      (ground (arith, k.identified, k.content_bound, k.content_failed, k.content_write))

-- A response that is not refused is decoded from its encoding, to itself; of a refused one nothing
-- is encoded that is decoded. The request number has 64 bits.
decode-encode_storage_response :
    (r : StorageResponse)
    → IsU64 r.request_id
    → decode_storage_response (encode_storage_response r)
      ≡ (if response_refused r then none else some r)
unfolding decode_storage_response
decode-encode_storage_response r l = elim (Bool-cases (response_refused r)) [
  | inl e ↦ rw (e, refused_response r e, decode_header-nil) refl
  | inr e ↦
      let k = response_refused-IsResponse r e in
      let h = response_header r in
      let t : IsTyped h = record {
        command = k.command;
        status = k.status;
        name_size = omega arith;
        data_size = omega (arith, k.content_bound);
        maximum_size = omega arith;
        request_id = l;
      } in
      rw
        (
          e,
          encode_storage_response-packet r e k,
          decode_header-packet h [] r.content (omega arith) t refl k.content_bound,
        )
        (response_from-packet r k)
]

-- A request and a response that are not refused are decoded from their encodings, each to itself;
-- of a refused one nothing is encoded that is decoded. The request numbers have 64 bits.
pub decode-encode_storage :
    (request : StorageRequest) (response : StorageResponse)
    → IsU64 request.request_id
    → IsU64 response.request_id
    → (decode_storage_request (encode_storage_request request)
        ≡ (if request_refused request then none else some request))
      × (decode_storage_response (encode_storage_response response)
          ≡ (if response_refused response then none else some response))
decode-encode_storage request response h k =
    (decode-encode_storage_request request h, decode-encode_storage_response response k)
