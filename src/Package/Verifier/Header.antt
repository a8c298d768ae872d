-- ===== src/Package/Verifier/Header.antt =====
-- The header of a package, and the sizes in it: platform/src/package/package_verifier.cpp.
use pen_lvgl.Prelude.{
  ℕ, ◌+◌, ◌-◌, ◌*◌, ◌%◌, ◌^◌, Bool, false, ◌&&◌, List, Option, none, some, ltb, leb, ◌==◌,
  if◌then◌else◌, length, codes,
}
use pen_lvgl.Package.Verifier.Steps.{number_at, bytes_equal, signature_size}
use pen_lvgl.Package.Manifest.{maximum_files, maximum_package_size}

abbrev pub package_magic : List ℕ
package_magic = codes "LVAPP001"

unfoldable pub header_ok : List ℕ → Bool
header_ok bytes =
    leb 64 (length bytes)
    && leb (length bytes) (maximum_package_size + signature_size)
    && bytes_equal bytes package_magic
    && number_at 2 8 bytes == 1
    && number_at 2 10 bytes == 64

unfoldable pub checked_add : ℕ → Option ℕ → Option ℕ
checked_add right none = none
checked_add right (some left) = if ltb (2 ^ 64 - 1 - left) right then none else some (left + right)

abbrev pub is_size : Option ℕ → ℕ → Bool
is_size none n = false
is_size (some m) n = m == n

unfoldable pub layout_ok : Bool → List ℕ → Bool
layout_ok development bytes =
    let manifest_size = number_at 4 16 bytes in
    let entry_count = number_at 4 20 bytes in
    let table_size = number_at 8 24 bytes in
    let payload_size = number_at 8 32 bytes in
    let unsigned_size = number_at 8 40 bytes in
    let total_size = number_at 8 48 bytes in
    let expected =
      checked_add payload_size (checked_add table_size (checked_add manifest_size (some 64))) in
    leb 1 manifest_size
    && leb manifest_size (64 * 1024)
    && leb 1 entry_count
    && leb entry_count maximum_files
    && number_at 4 56 bytes == 1
    && number_at 4 60 bytes == 0
    && is_size expected unsigned_size
    && total_size == length bytes
    && total_size == (unsigned_size + (if development then 0 else signature_size)) % 2 ^ 64
