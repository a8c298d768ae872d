-- ===== src/Package/Verifier/Trust.antt =====
-- Whose signature a package carries that `verify_package` of
-- platform/src/package/package_verifier.cpp reports as signed.
use pen_lvgl.Prelude.{
  ℕ, ◌≡◌, refl, ap, subst, ◌⊎◌, inl, inr, Bool, true, false, ◌&&◌, List, [], ◌∷◌, ◌++◌, Option,
  none, some, ◌==◌, take, drop, same_bytes, same_bytes_iff, same_bytes→eq, String, arith,
}
use pen_lvgl.Package.{PackageStatus, PackageVerification, TrustedPublicKey, signature_invalid}
use pen_lvgl.Package.Json.{Json}
use pen_lvgl.Package.Text.{hex_text}
use pen_lvgl.Package.Verifier.Steps.{
  CryptoProvider, Checked, passed, ◌>>=◌, ◌>>◌, unless, number_at, slice, bytes_equal,
  >>=-eq-passed, >>-eq-passed,
}
use pen_lvgl.Package.Verifier.Signer.{
  signature_domain, signature_magic, key_id, signer_matched, signer_of, digest_checked,
  check_signature, verify_message, signer_digest,
}
use pen_lvgl.Package.Verifier.{verify_package, verified_package}
use pen_lvgl.Package.Verifier.Stages.{verify_package-IsChecked}

abbrev pub IsAmong : TrustedPublicKey → List TrustedPublicKey → Type 0
IsAmong k [] = ⊥
IsAmong k (c ∷ keys) = (c ≡ k) ⊎ IsAmong k keys

-- The key is one of the production keys, and the identifier its hash.
abbrev pub IsSigner : CryptoProvider → List ℕ → List TrustedPublicKey → TrustedPublicKey → Type 0
IsSigner crypto id keys k = IsAmong k keys × (k.production ≡ true) × (key_id crypto k.key ≡ some id)

signer_matched-passed :
    (hash : Option (List ℕ)) (id : List ℕ) (candidate k : TrustedPublicKey)
    (rest : Checked TrustedPublicKey)
    → signer_matched hash id candidate rest ≡ passed k
    → ((candidate ≡ k) × (k.production ≡ true) × (hash ≡ some id)) ⊎ (rest ≡ passed k)
unfolding signer_matched
signer_matched-passed none id candidate k rest e = absurd (ground arith)
signer_matched-passed (some hash) id candidate k rest e = ground (arith, same_bytes_iff hash id)

signer_of-IsSigner :
    (crypto : CryptoProvider) (id : List ℕ) (keys : List TrustedPublicKey) (k : TrustedPublicKey)
    → signer_of crypto id keys ≡ passed k
    → IsSigner crypto id keys k
unfolding signer_of
signer_of-IsSigner crypto id [] k e = absurd (ground arith)
signer_of-IsSigner crypto id (c ∷ keys) k e =
    elim (signer_matched-passed (key_id crypto c.key) id c k (signer_of crypto id keys) e) [
      | inl (same, production, hash) ↦ (
        inl same,
        production,
        subst (λ (v : TrustedPublicKey). key_id crypto v.key ≡ some id) same hash,
      )
      | inr later ↦
          let (among, production, hash) = signer_of-IsSigner crypto id keys k later in
          (inr among, production, hash)
    ]

digest_checked-passed :
    (o : Option (List ℕ)) (digest : List ℕ) → digest_checked o ≡ passed digest → o ≡ some digest
unfolding digest_checked
digest_checked-passed none digest e = absurd (ground arith)
digest_checked-passed (some d) digest e = ground arith

unless-passed : (b : Bool) (s : PackageStatus) (d : String) → unless b s d ≡ passed tt → b ≡ true
unless-passed true s d e = refl
unless-passed false s d e = absurd (ground arith)

verify_message-passed :
    (crypto : CryptoProvider) (envelope : List ℕ) (k : TrustedPublicKey) (digest : List ℕ)
    → verify_message crypto envelope k digest ≡ passed tt
    → crypto.verify_ed25519 k.key (signature_domain ++ digest) (slice 64 28 envelope) ≡ true
unfolding verify_message
verify_message-passed crypto envelope k digest e =
    unless-passed (crypto.verify_ed25519 k.key (signature_domain ++ digest) (slice 64 28 envelope))
      signature_invalid "PACKAGE_SIGNATURE_INVALID" e

-- The bytes before the envelope are signed by the key that the manifest names.
pub record IsSigned (crypto : CryptoProvider) (keys : List TrustedPublicKey) (bytes : List ℕ)
    (unsigned_size : ℕ) (signing_key_id : List ℕ) : Type 0 where
  pub signer : TrustedPublicKey
  pub digest : List ℕ
  pub trusted : IsSigner crypto (slice 16 12 (drop unsigned_size bytes)) keys signer
  pub named : hex_text (slice 16 12 (drop unsigned_size bytes)) ≡ signing_key_id
  pub hashed : crypto.sha512 (take unsigned_size bytes) ≡ some digest
  pub valid :
      crypto.verify_ed25519 signer.key
        (signature_domain ++ digest)
        (slice 64 28 (drop unsigned_size bytes))
      ≡ true

check_signature-IsSigned :
    (crypto : CryptoProvider) (keys : List TrustedPublicKey) (bytes : List ℕ) (unsigned_size : ℕ)
    (signing_key_id : List ℕ)
    → check_signature crypto keys bytes unsigned_size signing_key_id ≡ passed tt
    → IsSigned crypto keys bytes unsigned_size signing_key_id
unfolding check_signature signer_digest
check_signature-IsSigned crypto keys bytes unsigned_size signing_key_id e =
    let envelope = drop unsigned_size bytes in
    let id = slice 16 12 envelope in
    let signer = signer_of crypto id keys in
    let digest = digest_checked (crypto.sha512 (take unsigned_size bytes)) in
    let envelope_test =
      bytes_equal envelope signature_magic
      && number_at 2 8 envelope == 1
      && number_at 2 10 envelope == 1
      && number_at 4 92 envelope == 0 in
    let named = same_bytes (hex_text id) signing_key_id in
    let behind_id = signer >>= signer_digest crypto bytes unsigned_size in
    let (f, e1) =
      >>-eq-passed envelope_test signature_invalid "PACKAGE_SIGNATURE_ENVELOPE_INVALID"
        (unless named signature_invalid "PACKAGE_SIGNATURE_KEY_ID_MISMATCH" >> behind_id) e in
    let (n, e2) =
      >>-eq-passed named signature_invalid "PACKAGE_SIGNATURE_KEY_ID_MISMATCH" behind_id e1 in
    let (k, s, e3) = >>=-eq-passed signer (signer_digest crypto bytes unsigned_size) e2 in
    let (d, h, e4) = >>=-eq-passed digest (verify_message crypto envelope k) e3 in
    record {
      signer = k;
      digest = d;
      trusted = signer_of-IsSigner crypto id keys k s;
      named = same_bytes→eq (hex_text id) signing_key_id n;
      hashed = digest_checked-passed (crypto.sha512 (take unsigned_size bytes)) d h;
      valid = verify_message-passed crypto envelope k d e4;
    }

release_signature :
    (crypto : CryptoProvider) (keys : List TrustedPublicKey) (bytes key : List ℕ)
    → (◌≡◌ {A = Bool} false true)
      ⊎ ((◌≡◌ {A = Bool} false false)
          × (check_signature crypto keys bytes (number_at 8 40 bytes) key ≡ passed tt))
    → check_signature crypto keys bytes (number_at 8 40 bytes) key ≡ passed tt
release_signature crypto keys bytes key (inl e) = absurd (ground arith)
release_signature crypto keys bytes key (inr e) = e.1

-- A package that is reported as signed is signed: its flags are 0, and the bytes up to its unsigned
-- size are signed by one of the trusted keys that is a production key, under the domain of
-- package signatures; the identifier of this key, a part of its hash, is in the envelope and in
-- the manifest.
pub verify_package-IsSigned :
    (parse : List ℕ → Option Json) (crypto : CryptoProvider) (keys : List TrustedPublicKey)
    (allow_development : Bool) (bytes : List ℕ)
    → let r = verify_package parse crypto keys allow_development bytes in
      r.signature_verified ≡ true
      → (number_at 4 12 bytes ≡ 0)
        × IsSigned crypto keys bytes r.unsigned_size r.manifest.signing_key_id
unfolding verified_package
verify_package-IsSigned parse crypto keys allow_development bytes h =
    let (header, flags, c) = verify_package-IsChecked parse crypto keys allow_development bytes h in
    let size = ap (λ (v : PackageVerification). v.unsigned_size) c.result in
    let key = ap (λ (v : PackageVerification). v.manifest.signing_key_id) c.result in
    (
      flags,
      rw (size, key)
          (check_signature-IsSigned crypto keys bytes (number_at 8 40 bytes)
            c.manifest.signing_key_id
            (release_signature crypto keys bytes c.manifest.signing_key_id c.signature)),
    )
