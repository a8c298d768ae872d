-- ===== src/Tests/Storage.antt =====
-- Instances for platform/src/ipc/storage_protocol.cpp.
use pen_lvgl.Prelude.{ℕ, ◌≡◌, some, none, [], ◌∷◌, codes, if◌then◌else◌, arith}
use pen_lvgl.Storage.{
  StorageRequest, StorageResponse, StorageCommand, StorageProtocolStatus, request_refused,
  encode_storage_request, decode_storage_request, response_refused, encode_storage_response,
  decode_storage_response,
}
use pen_lvgl.Storage.Responses.{decode-encode_storage}

abbrev save_game : StorageRequest
save_game = record {
  command = StorageCommand.write;
  request_id = 7;
  record_name = codes "game.state-1";
  maximum_size = 512;
  content = 1 ∷ 2 ∷ 255 ∷ [];
}

abbrev game_saved : StorageResponse
game_saved = record {
  command = StorageCommand.write;
  status = StorageProtocolStatus.quota_exceeded;
  request_id = 7;
  content = [];
}

decode-encode_storage_example :
    (decode_storage_request (encode_storage_request save_game)
      ≡ (if request_refused save_game then none else some save_game))
    × (decode_storage_response (encode_storage_response game_saved)
        ≡ (if response_refused game_saved then none else some game_saved))
decode-encode_storage_example =
    decode-encode_storage save_game game_saved (omega arith) (omega arith)

abbrev existing_bytes : ℕ
existing_bytes = 500
