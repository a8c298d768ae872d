-- ===== src/Installer/Protocol/RoundTrip.antt =====
-- Requests of platform/src/ipc/installer_protocol.cpp are decoded from their encodings.
use pen_lvgl.Prelude.{
  ℕ, zero, suc, ◌+◌, ◌-◌, ◌%◌, ◌^◌, ◌≤◌, ◌<◌, ◌≡◌, inl, inr, refl, ap, sym, ◌∙◌, Bool-cases, true,
  false, none, some, List, [], ◌∷◌, ◌++◌, length, take, drop, replicate, take-append, drop-append,
  length-append, length-replicate, drop-drop, same_bytes, same_bytes_refl, if◌then◌else◌, is_empty,
  all, arith,
}
use pen_lvgl.Wire.{IsU32, IsU64, put_le, get_le, write_at}
use pen_lvgl.Wire.Laws.{get_le-put_le, write_at-replicate}
use pen_lvgl.Installer.Protocol.{
  InstallerCommand, InstallerRequest, installer_magic, installer_command_of,
  installer_command_value, valid_installer_command, valid_token, is_zero_byte, token_refused,
  installer_request_refused, installer_request_fields, encode_installer_request,
  request_layout_refused, installer_request_at, decode_installer_request,
}

zeros-all : (k : ℕ) → all is_zero_byte (replicate k 0) ≡ true
unfolding is_zero_byte
zeros-all zero = refl
zeros-all (suc k) = zeros-all k

command_value-lt :
    (c : InstallerCommand) → valid_installer_command c ≡ true → installer_command_value c < 2 ^ 16
unfolding installer_command_value valid_installer_command
command_value-lt c h = ground arith

command_of-value :
    (c : InstallerCommand)
    → valid_installer_command c ≡ true
    → installer_command_of (installer_command_value c) ≡ c
unfolding installer_command_of installer_command_value valid_installer_command
command_of-value c h = ground arith

empty_length : (xs : List ℕ) → is_empty xs ≡ true → length xs ≡ 0
empty_length [] h = refl
empty_length (x ∷ xs) h = absurd (ground arith)

accepted-token :
    (r : InstallerRequest)
    → installer_request_refused r ≡ false
    → (valid_installer_command r.command ≡ true)
      × (1 ≤ r.request_id)
      × (token_refused r.command r.index r.token ≡ false)
      × (length r.token ≤ 128)
unfolding installer_request_refused token_refused valid_token
accepted-token r h = ground (arith, empty_length r.token)

-- The first 32 bytes, and all.
head_of : InstallerRequest → List ℕ
head_of r =
    installer_magic
    ++ (put_le 2 2
        ++ (put_le 2 (installer_command_value r.command)
            ++ (put_le 4 0
                ++ (put_le 8 r.request_id
                    ++ (put_le 4 r.index ++ (put_le 2 (length r.token) ++ put_le 2 0))))))

wire : InstallerRequest → List ℕ
wire r = head_of r ++ (r.token ++ replicate (128 - length r.token) 0)

length-head_of : (r : InstallerRequest) → length (head_of r) ≡ 32
unfolding head_of put_le
length-head_of r = refl

token_written :
    (r : InstallerRequest)
    → length r.token % 2 ^ 16 ≡ length r.token
    → write_at 32 r.token (installer_request_fields r)
      ≡ head_of r ++ write_at 0 r.token (replicate 128 0)
unfolding installer_request_fields head_of put_le
token_written r e = rw e refl

module _ (r : InstallerRequest) (v : valid_installer_command r.command ≡ true)
    (i : IsU64 r.request_id) (x : IsU32 r.index) (short : length r.token ≤ 128) where
  encode-wire : installer_request_refused r ≡ false → encode_installer_request r ≡ wire r
  unfolding encode_installer_request wire
  encode-wire h = rw (h, token_written r (omega arith), write_at-replicate r.token 128 short) refl

  magic_at : same_bytes installer_magic (take 8 (wire r)) ≡ true
  unfolding wire head_of
  magic_at = same_bytes_refl installer_magic

  version_at : get_le 2 (drop 8 (wire r)) ≡ 2
  unfolding wire head_of put_le
  version_at = get_le-put_le 2 2 _ (omega arith)

  command_at : installer_command_of (get_le 2 (drop 10 (wire r))) ≡ r.command
  unfolding wire head_of put_le
  command_at =
      ap installer_command_of
        (get_le-put_le 2 (installer_command_value r.command) _ (command_value-lt r.command v))
      ∙ command_of-value r.command v

  reserved_at : get_le 4 (drop 12 (wire r)) ≡ 0
  unfolding wire head_of put_le
  reserved_at = get_le-put_le 4 0 _ (omega arith)

  request_at : get_le 8 (drop 16 (wire r)) ≡ r.request_id
  unfolding wire head_of put_le
  request_at = get_le-put_le 8 r.request_id _ i

  index_at : get_le 4 (drop 24 (wire r)) ≡ r.index
  unfolding wire head_of put_le
  index_at = get_le-put_le 4 r.index _ x

  size_at : get_le 2 (drop 28 (wire r)) ≡ length r.token
  unfolding wire head_of put_le
  size_at = get_le-put_le 2 (length r.token) _ (omega arith)

  padding_at : get_le 2 (drop 30 (wire r)) ≡ 0
  unfolding wire head_of put_le
  padding_at = get_le-put_le 2 0 _ (omega arith)

  behind_32 : drop 32 (wire r) ≡ r.token ++ replicate (128 - length r.token) 0
  unfolding wire
  behind_32 = drop-append (head_of r) _ 32 (length-head_of r)

  token_at : take (length r.token) (drop 32 (wire r)) ≡ r.token
  token_at = rw behind_32 (take-append r.token _ (length r.token) refl)

  zeros_at : all is_zero_byte (drop (32 + length r.token) (wire r)) ≡ true
  zeros_at =
      rw
        (
          sym (drop-drop 32 (length r.token) (wire r)),
          behind_32,
          drop-append r.token (replicate (128 - length r.token) 0) (length r.token) refl,
        )
        (zeros-all (128 - length r.token))

  length-wire : length (wire r) ≡ 160
  unfolding wire
  length-wire = omega (
    arith,
    length-head_of r,
    length-append {0},
    length-replicate {A = ℕ} (128 - length r.token) 0,
  )

  request-wire : installer_request_at (wire r) ≡ r
  unfolding installer_request_at
  request-wire = rw size_at (cc (command_at, request_at, index_at, token_at))

  layout-wire : request_layout_refused (wire r) ≡ false
  unfolding request_layout_refused
  layout-wire = rw (length-wire, magic_at, version_at, reserved_at, padding_at) refl

  decode-wire :
      1 ≤ r.request_id
      → token_refused r.command r.index r.token ≡ false
      → decode_installer_request (wire r) ≡ some r
  unfolding decode_installer_request
  decode-wire n t = rw (request-wire, layout-wire, size_at, zeros_at, v, t) (ground arith)

refused_none : decode_installer_request (replicate 160 0) ≡ none
unfolding decode_installer_request request_layout_refused same_bytes
refused_none = refl

refused_request :
    (r : InstallerRequest)
    → installer_request_refused r ≡ true
    → encode_installer_request r ≡ replicate 160 0
unfolding encode_installer_request
refused_request r h = rw h refl

-- A request to the installer that is not refused is decoded from its encoding, to itself; a refused
-- one is encoded to zeros, which are not decoded. The numbers are in the ranges of their types.
pub decode-encode_installer_request :
    (r : InstallerRequest)
    → IsU64 r.request_id
    → IsU32 r.index
    → decode_installer_request (encode_installer_request r)
      ≡ (if installer_request_refused r then none else some r)
decode-encode_installer_request r i x = elim (Bool-cases (installer_request_refused r)) [
  | inl e ↦ rw (e, refused_request r e) refused_none
  | inr e ↦
      let (v, n, t, l) = accepted-token r e in
      rw (e, encode-wire r v i x l e) (decode-wire r v i x l n t)
]
