-- ===== src/Package/Verifier/Signer.antt =====
-- The signature of a package: platform/src/package/package_verifier.cpp.
use pen_lvgl.Prelude.{
  ℕ, ◌&&◌, List, [], ◌∷◌, ◌++◌, Option, none, some, ◌==◌, if◌then◌else◌, take, drop, codes,
  same_bytes,
}
use pen_lvgl.Package.{crypto_unavailable, signer_untrusted, signature_invalid, TrustedPublicKey}
use pen_lvgl.Package.Verifier.Steps.{
  CryptoProvider, Checked, rejected, passed, ◌>>=◌, ◌>>◌, unless, number_at, slice, bytes_equal,
}
use pen_lvgl.Package.Text.{hex_text}

abbrev pub signature_magic : List ℕ
signature_magic = codes "LVSIG001"

abbrev pub signature_domain : List ℕ
signature_domain = codes "LVAPP-SIGN-V1" ++ (0 ∷ 0 ∷ 0 ∷ [])

abbrev pub spki_prefix : List ℕ
spki_prefix = 0x30 ∷ 0x2a ∷ 0x30 ∷ 0x05 ∷ 0x06 ∷ 0x03 ∷ 0x2b ∷ 0x65 ∷ 0x70 ∷ 0x03 ∷ 0x21 ∷ 0x00 ∷ []

unfoldable pub first_16 : Option (List ℕ) → Option (List ℕ)
first_16 none = none
first_16 (some digest) = some (take 16 digest)

-- `none` where `ok` is set to `false`.
unfoldable pub key_id : CryptoProvider → List ℕ → Option (List ℕ)
key_id crypto key = first_16 (crypto.sha256 (spki_prefix ++ key))

-- A round of the loop over the trusted keys, with the test behind the loop; `rest` is what the
-- other keys give.
unfoldable pub signer_matched :
    Option (List ℕ)
    → List ℕ
    → TrustedPublicKey
    → Checked TrustedPublicKey
    → Checked TrustedPublicKey
signer_matched none id candidate rest = rejected crypto_unavailable "PACKAGE_CRYPTO_UNAVAILABLE"
signer_matched (some hash) id candidate rest =
    if same_bytes hash id
    then unless candidate.production signer_untrusted "PACKAGE_SIGNER_UNTRUSTED" >> passed candidate
    else rest

unfoldable pub signer_of :
    CryptoProvider → List ℕ → List TrustedPublicKey → Checked TrustedPublicKey
signer_of crypto id [] = rejected signer_untrusted "PACKAGE_SIGNER_UNTRUSTED"
signer_of crypto id (candidate ∷ keys) =
    signer_matched (key_id crypto candidate.key) id candidate (signer_of crypto id keys)

unfoldable pub digest_checked : Option (List ℕ) → Checked (List ℕ)
digest_checked none = rejected crypto_unavailable "PACKAGE_CRYPTO_UNAVAILABLE"
digest_checked (some digest) = passed digest

unfoldable pub verify_message :
    CryptoProvider → List ℕ → TrustedPublicKey → List ℕ → Checked (Unit {0})
verify_message crypto envelope signer digest =
    unless (crypto.verify_ed25519 signer.key (signature_domain ++ digest) (slice 64 28 envelope))
      signature_invalid "PACKAGE_SIGNATURE_INVALID"

unfoldable pub signer_digest : CryptoProvider → List ℕ → ℕ → TrustedPublicKey → Checked (Unit {0})
signer_digest crypto bytes unsigned_size signer =
    digest_checked (crypto.sha512 (take unsigned_size bytes))
    >>= verify_message crypto (drop unsigned_size bytes) signer

-- The checks of the envelope behind the `unsigned_size` bytes that are signed.
unfoldable pub check_signature :
    CryptoProvider → List TrustedPublicKey → List ℕ → ℕ → List ℕ → Checked (Unit {0})
check_signature crypto keys bytes unsigned_size signing_key_id =
    let envelope = drop unsigned_size bytes in
    let id = slice 16 12 envelope in
    unless
      (bytes_equal envelope signature_magic
        && number_at 2 8 envelope == 1
        && number_at 2 10 envelope == 1
        && number_at 4 92 envelope == 0)
      signature_invalid "PACKAGE_SIGNATURE_ENVELOPE_INVALID"
    >> (unless (same_bytes (hex_text id) signing_key_id) signature_invalid
          "PACKAGE_SIGNATURE_KEY_ID_MISMATCH"
        >> (signer_of crypto id keys >>= signer_digest crypto bytes unsigned_size))
