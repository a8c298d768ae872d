-- ===== src/Package/Verifier/Steps.antt =====
-- What the parts of `verify_package` share: the crypto provider, steps that may fail, byte ranges.
use pen_lvgl.Prelude.{
  ◌≡◌, ◌⊎◌, inl, inr, refl, arith, ℕ, Bool, true, false, List, Option, String, if◌then◌else◌,
  length, take, drop, same_bytes,
}
use pen_lvgl.Wire.{get_le}
use pen_lvgl.Package.{PackageStatus, PackageVerification, blank_manifest}

-- platform/include/lvgl_platform/crypto_provider.h; `none` is `false`.
pub record CryptoProvider : Type 0 where
  pub sha256 : List ℕ → Option (List ℕ)
  pub sha512 : List ℕ → Option (List ℕ)
  pub verify_ed25519 : List ℕ → List ℕ → List ℕ → Bool

-- A step that returns a `failure`, or goes on.
pub data Checked {ℓ} (A : Type ℓ) : Type ℓ where
  rejected : PackageStatus → String → Checked A
  passed : A → Checked A

infixl 5 ◌>>=◌ ◌>>◌
abbrev pub ◌>>=◌ {ℓ κ} : {A : Type ℓ} {B : Type κ} → Checked A → (A → Checked B) → Checked B
rejected s d >>= f = rejected s d
passed a >>= f = f a

abbrev pub ◌>>◌ {ℓ} : {B : Type ℓ} → Checked (Unit {0}) → Checked B → Checked B
m >> k = m >>= λ _. k

abbrev pub unless : Bool → PackageStatus → String → Checked (Unit {0})
unless b s d = if b then passed tt else rejected s d

unfoldable pub failure : PackageStatus → String → PackageVerification
failure status detail = record {
  status = status;
  detail = detail;
  development = false;
  signature_verified = false;
  unsigned_size = 0;
  payload_start = 0;
  manifest = blank_manifest;
}

unfoldable pub outcome : Checked PackageVerification → PackageVerification
outcome (rejected s d) = failure s d
outcome (passed r) = r

abbrev pub signature_size : ℕ
signature_size = 96

-- The number of `n` bytes at an offset, and `n` bytes at an offset.
abbrev pub number_at : ℕ → ℕ → List ℕ → ℕ
number_at n at bytes = get_le n (drop at bytes)

abbrev pub slice : ℕ → ℕ → List ℕ → List ℕ
slice n at bytes = take n (drop at bytes)

unfoldable pub bytes_equal : List ℕ → List ℕ → Bool
bytes_equal bytes expected = same_bytes (take (length expected) bytes) expected

-- Inversion of a chain that passes.
pub >>=-eq-passed {ℓ κ} :
    {A : Type ℓ} {B : Type κ} (m : Checked A) (f : A → Checked B) {b : B}
    → (m >>= f) ≡ passed b
    → (a : A) × (m ≡ passed a) × (f a ≡ passed b)
>>=-eq-passed (rejected s d) f e = absurd (ground arith)
>>=-eq-passed (passed a) f e = (a, refl, e)

pub >>-eq-passed {κ} :
    {B : Type κ} (b : Bool) (s : PackageStatus) (d : String) (k : Checked B) {r : B}
    → (unless b s d >> k) ≡ passed r
    → (b ≡ true) × (k ≡ passed r)
>>-eq-passed true s d k e = (refl, e)
>>-eq-passed false s d k e = absurd (ground arith)

pub Checked-cases {ℓ} :
    {A : Type ℓ} (m : Checked A)
    → ((s : PackageStatus) × (d : String) × (m ≡ rejected s d)) ⊎ ((a : A) × (m ≡ passed a))
Checked-cases (rejected s d) = inl (s, d, refl)
Checked-cases (passed a) = inr (a, refl)
