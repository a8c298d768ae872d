-- ===== src/Package/Verifier/Layout.antt =====
-- Which sizes in the header `verify_package` of platform/src/package/package_verifier.cpp accepts.
use pen_lvgl.Prelude.{
  ℕ, ◌+◌, ◌*◌, ◌%◌, ◌^◌, ◌≤◌, ◌<◌, ◌≡◌, ◌↔◌, ◌⊎◌, Bool, true, false, ◌&&◌, List, some, ◌==◌, leb,
  if◌then◌else◌, length, arith,
}
use pen_lvgl.Package.Manifest.{maximum_files}
use pen_lvgl.Package.Verifier.Steps.{number_at, signature_size}
use pen_lvgl.Package.Verifier.Header.{layout_ok, checked_add, is_size}

expected_size_iff :
    (m t p u : ℕ)
    → m ≤ 2 ^ 16
    → (is_size (checked_add p (checked_add t (checked_add m (some 64)))) u ≡ true)
      ↔ ((64 + m + t + p ≡ u) × (u < 2 ^ 64))
unfolding checked_add
expected_size_iff m t p u h = ground arith

-- How the size of the package and the number of signed bytes are related.
abbrev pub SizesMatch : Bool → ℕ → ℕ → Type 0
SizesMatch true size unsigned_size = size ≡ unsigned_size
SizesMatch false size unsigned_size =
    (size ≡ unsigned_size + 96) ⊎ ((size < 96) × (size + 2 ^ 64 ≡ unsigned_size + 96))

total_size_iff :
    (development : Bool) (size u : ℕ)
    → size < 2 ^ 64
    → u < 2 ^ 64
    → ((size == (u + (if development then 0 else signature_size)) % 2 ^ 64) ≡ true)
      ↔ SizesMatch development size u
total_size_iff true size u s h = ground arith
total_size_iff false size u s h = ground arith

layout-tests :
    (development : Bool) (m n v z t p u total size : ℕ)
    → size < 2 ^ 64
    → ((leb 1 m
          && leb m (64 * 1024)
          && leb 1 n
          && leb n maximum_files
          && v == 1
          && z == 0
          && is_size (checked_add p (checked_add t (checked_add m (some 64)))) u
          && total == size
          && total == (u + (if development then 0 else signature_size)) % 2 ^ 64)
        ≡ true)
      ↔ ((1 ≤ m)
          × (m ≤ 65536)
          × (1 ≤ n)
          × (n ≤ maximum_files)
          × (v ≡ 1)
          × (z ≡ 0)
          × (64 + m + t + p ≡ u)
          × (u < 2 ^ 64)
          × (total ≡ size)
          × SizesMatch development size u)
layout-tests development m n v z t p u total size s =
    ground (arith, expected_size_iff m t p u, total_size_iff development size u s)

-- The sizes of a header are accepted exactly if they are in their ranges, the header, manifest,
-- table and payload together are the signed bytes, and the package is these and, if it is no
-- development build, 96 bytes of signature. The size of the package is below 2^64. The sum of the latter two wraps around at 2^64, so
-- that a package of fewer than 96 bytes is accepted with a signed size that is larger than it.
pub layout_ok_iff :
    (development : Bool) (bytes : List ℕ)
    → length bytes < 2 ^ 64
    → let m = number_at 4 16 bytes in
      let n = number_at 4 20 bytes in
      let u = number_at 8 40 bytes in
      (layout_ok development bytes ≡ true) ↔ (
        (1 ≤ m)
        × (m ≤ 65536)
        × (1 ≤ n)
        × (n ≤ maximum_files)
        × (number_at 4 56 bytes ≡ 1)
        × (number_at 4 60 bytes ≡ 0)
        × (64 + m + number_at 8 24 bytes + number_at 8 32 bytes ≡ u)
        × (u < 2 ^ 64)
        × (number_at 8 48 bytes ≡ length bytes)
        × SizesMatch development (length bytes) u)
unfolding layout_ok
layout_ok_iff development bytes s =
    layout-tests development (number_at 4 16 bytes) (number_at 4 20 bytes) (number_at 4 56 bytes)
      (number_at 4 60 bytes) (number_at 8 24 bytes) (number_at 8 32 bytes) (number_at 8 40 bytes)
      (number_at 8 48 bytes) (length bytes) s
