-- ===== src/Release/Codec.antt =====
-- `encode_release_state`, `decode_release_state` and `select_release_state` of
-- platform/src/storage/release_state.cpp. The hash is a parameter: OpenSSL computes it, and
-- `CryptoProvider::sha256` may fail, hence the `Option`.
pub mod Layout
pub mod RoundTrip
pub mod Slots
use pen_lvgl.Prelude.{
  ℕ, ◌+◌, ◌-◌, Bool, true, false, not, ◌&&◌, ◌||◌, Option, none, some, List, [], ◌∷◌, ◌++◌, String,
  ltb, leb, ◌==◌, if◌then◌else◌, same_bytes, length, get_or, take, drop,
}
use pen_lvgl.Wire.{put_le, get_le}
use pen_lvgl.Release.{ApplicationReleaseState, valid_state, no_digest}

pub data ReleaseStateStatus : Type 0 where
  valid invalid_layout invalid_value checksum_mismatch crypto_unavailable : ReleaseStateStatus
  split_brain no_valid_slot : ReleaseStateStatus

pub record EncodedReleaseState : Type 0 where
  pub status : ReleaseStateStatus
  pub detail : String
  pub bytes : List ℕ

pub record DecodedReleaseState : Type 0 where
  pub status : ReleaseStateStatus
  pub detail : String
  pub state : ApplicationReleaseState

pub record SelectedReleaseState : Type 0 where
  pub decoded : DecodedReleaseState
  pub slot : ℕ
  pub redundancy_degraded : Bool

abbrev pub header_size : ℕ
header_size = 64

abbrev pub digest_block_size : ℕ
digest_block_size = 192

abbrev pub checksum_size : ℕ
checksum_size = 32

abbrev pub maximum_state_size : ℕ
maximum_state_size = 512

-- "LVSTATE1"
abbrev pub magic : List ℕ
magic = b'L' ∷ b'V' ∷ b'S' ∷ b'T' ∷ b'A' ∷ b'T' ∷ b'E' ∷ b'1' ∷ []

-- `ApplicationReleaseState {}`.
abbrev pub blank_state : ApplicationReleaseState
blank_state = record {
  app_id = [];
  signing_key_id = [];
  generation = 0;
  current_release = 0;
  previous_release = 0;
  high_release = 0;
  quarantined_release = 0;
  high_security_epoch = 0;
  consecutive_launch_failures = 0;
  current_digest = no_digest;
  previous_digest = no_digest;
  high_digest = no_digest;
}

abbrev pub encode_failure : ReleaseStateStatus → String → EncodedReleaseState
encode_failure status detail = record { status = status; detail = detail; bytes = [] }

abbrev pub decode_failure : ReleaseStateStatus → String → DecodedReleaseState
decode_failure status detail = record { status = status; detail = detail; state = blank_state }

unfoldable pub total_size : ApplicationReleaseState → ℕ
total_size s =
    header_size + digest_block_size + length s.app_id + length s.signing_key_id + checksum_size

-- The bytes in front of the checksum, as they are appended.
unfoldable pub body : ApplicationReleaseState → List ℕ
body s =
    magic
    ++ (put_le 2 1
        ++ (put_le 2 header_size
            ++ (put_le 4 (total_size s)
                ++ (put_le 8 s.generation
                    ++ (put_le 8 s.current_release
                        ++ (put_le 8 s.previous_release
                            ++ (put_le 8 s.high_release
                                ++ (put_le 8 s.quarantined_release
                                    ++ (put_le 4 s.high_security_epoch
                                        ++ (put_le 2 s.consecutive_launch_failures
                                            ++ (put_le 1 (length s.app_id)
                                                ++ (put_le 1 (length s.signing_key_id)
                                                    ++ (s.current_digest
                                                        ++ (s.previous_digest
                                                            ++ (s.high_digest
                                                            ++ (s.app_id
                                                            ++ s.signing_key_id))))))))))))))))

-- The fields of a buffer whose layout and checksum have been tested.
unfoldable pub fields : List ℕ → ApplicationReleaseState
fields bytes =
    let app_size = get_or bytes 62 0 in
    let key_size = get_or bytes 63 0 in
    let strings = drop (header_size + digest_block_size) bytes in
    record {
      app_id = take app_size strings;
      signing_key_id = take key_size (drop app_size strings);
      generation = get_le 8 (drop 16 bytes);
      current_release = get_le 8 (drop 24 bytes);
      previous_release = get_le 8 (drop 32 bytes);
      high_release = get_le 8 (drop 40 bytes);
      quarantined_release = get_le 8 (drop 48 bytes);
      high_security_epoch = get_le 4 (drop 56 bytes);
      consecutive_launch_failures = get_le 2 (drop 60 bytes);
      current_digest = take 64 (drop header_size bytes);
      previous_digest = take 64 (drop (header_size + 64) bytes);
      high_digest = take 64 (drop (header_size + 128) bytes);
    }

-- The first two tests of the decoder.
unfoldable pub layout_rejected : List ℕ → Bool
layout_rejected bytes =
    let size = length bytes in
    ltb size (header_size + digest_block_size + checksum_size)
    || ltb maximum_state_size size
    || not (same_bytes magic (take 8 bytes))
    || not (get_le 2 (drop 8 bytes) == 1)
    || not (get_le 2 (drop 10 bytes) == header_size)
    || not (get_le 4 (drop 12 bytes) == size)

unfoldable pub lengths_rejected : List ℕ → Bool
lengths_rejected bytes =
    let app_size = get_or bytes 62 0 in
    let key_size = get_or bytes 63 0 in
    app_size == 0
    || ltb 96 app_size
    || not (key_size == 32)
    || not (header_size + digest_block_size + app_size + key_size + checksum_size == length bytes)

-- `ok()`.
unfoldable pub state_ok : ReleaseStateStatus → Bool
state_ok valid = true
state_ok _ = false

module _ (sha256 : List ℕ → Option (List ℕ)) where
  unfoldable pub encode_release_state : ApplicationReleaseState → EncodedReleaseState
  encode_release_state s =
      if not (valid_state s)
      then encode_failure invalid_value "STATE_VALUE_INVALID"
      else if ltb maximum_state_size (total_size s)
      then encode_failure invalid_layout "STATE_SIZE_INVALID"
      else elim (sha256 (body s)) [
        | none ↦ encode_failure crypto_unavailable "STATE_CRYPTO_UNAVAILABLE"
        | some checksum ↦ record {
          status = valid;
          detail = "STATE_ENCODED";
          bytes = body s ++ checksum;
        }
      ]

  unfoldable pub decode_release_state : List ℕ → DecodedReleaseState
  decode_release_state bytes =
      let size = length bytes in
      if layout_rejected bytes
      then decode_failure invalid_layout "STATE_LAYOUT_INVALID"
      else if lengths_rejected bytes
      then decode_failure invalid_layout "STATE_LENGTH_INVALID"
      else elim (sha256 (take (size - checksum_size) bytes)) [
        | none ↦ decode_failure crypto_unavailable "STATE_CRYPTO_UNAVAILABLE"
        | some checksum ↦
            if not (same_bytes checksum (drop (size - checksum_size) bytes))
            then decode_failure checksum_mismatch "STATE_CHECKSUM_MISMATCH"
            else if not (valid_state (fields bytes))
            then decode_failure invalid_value "STATE_VALUE_INVALID"
            else record { status = valid; detail = "STATE_DECODED"; state = fields bytes }
      ]

  unfoldable pub select_release_state : List ℕ → List ℕ → SelectedReleaseState
  select_release_state slot_a slot_b =
      let a = decode_release_state slot_a in
      let b = decode_release_state slot_b in
      if not (state_ok a.status) && not (state_ok b.status)
      then record {
        decoded = decode_failure no_valid_slot "STATE_NO_VALID_SLOT";
        slot = 0;
        redundancy_degraded = true;
      }
      else if state_ok a.status
          && state_ok b.status
          && a.state.generation == b.state.generation
          && not (same_bytes slot_a slot_b)
      then record {
        decoded = decode_failure split_brain "STATE_SPLIT_BRAIN";
        slot = 0;
        redundancy_degraded = false;
      }
      else if state_ok a.status
          && (not (state_ok b.status) || leb b.state.generation a.state.generation)
      then record { decoded = a; slot = 1; redundancy_degraded = not (state_ok b.status) }
      else record { decoded = b; slot = 2; redundancy_degraded = not (state_ok a.status) }
