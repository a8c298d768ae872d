-- ===== src/Installer/Trust.antt =====
-- platform/src/trust/trust_store.cpp: the one key that official packages are signed with. Its text
-- is written by the build, and is a parameter.
use pen_lvgl.Prelude.{
  ℕ, ◌+◌, ◌-◌, ◌*◌, true, false, ◌&&◌, Option, none, some, List, [], ◌∷◌, leb, ◌==◌, if◌then◌else◌,
  length, ◌>>=◌,
}
use pen_lvgl.Package.{PackageVerification, signer_untrusted, TrustedPublicKey}
use pen_lvgl.Package.Json.{Json}
use pen_lvgl.Package.Verifier.Steps.{CryptoProvider, failure}
use pen_lvgl.Package.Verifier.{verify_package}

-- `none` is 0xff.
unfoldable pub key_nibble : ℕ → Option ℕ
key_nibble value =
    if leb b'0' value && leb value b'9'
    then some (value - b'0')
    else if leb b'a' value && leb value b'f'
    then some (value - b'a' + 10)
    else none

-- The loop over the bytes of the key.
unfoldable pub key_bytes : List ℕ → Option (List ℕ)
key_bytes [] = some []
key_bytes (c ∷ []) = some []
key_bytes (c ∷ (d ∷ cs)) = do
  high ← key_nibble c
  low ← key_nibble d
  rest ← key_bytes cs
  some ((high * 16 + low) ∷ rest)

unfoldable pub decode_public_key : List ℕ → Option (List ℕ)
decode_public_key hex = if length hex == 64 then key_bytes hex else none

unfoldable pub official_keys : List ℕ → List TrustedPublicKey
official_keys key = record { key = key; production = true } ∷ []

-- `OfficialTrustStore::verify`; the key is there if the store is configured.
unfoldable pub trust_verify :
    (List ℕ → Option Json) → CryptoProvider → Option (List ℕ) → List ℕ → PackageVerification
trust_verify parse crypto none bytes = failure signer_untrusted "TRUST_OFFICIAL_KEY_UNCONFIGURED"
trust_verify parse crypto (some key) bytes =
    verify_package parse crypto (official_keys key) false bytes

-- The same for the compiled store.
abbrev pub official_verify :
    (List ℕ → Option Json) → CryptoProvider → List ℕ → List ℕ → PackageVerification
official_verify parse crypto hex bytes = trust_verify parse crypto (decode_public_key hex) bytes
