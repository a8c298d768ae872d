-- ===== src/Storage/Quota.antt =====
-- The quota of `storage_write_within_quota` in platform/src/ipc/storage_protocol.cpp.
use pen_lvgl.Prelude.{ℕ, ◌+◌, ◌-◌, ◌≤◌, ◌≡◌, ◌↔◌, ◌⊎◌, Bool, true, false, arith}
use pen_lvgl.Storage.Records.{storage_write_within_quota, maximum_storage_record_size}

-- The files and the bytes behind a write.
abbrev pub files_after : Bool → ℕ → ℕ
files_after true files = files
files_after false files = files + 1

-- A write is within the quota exactly if the record has 1 to 65536 bytes, the numbers of the store
-- are consistent (a record that exists is one of the files and its bytes are among the bytes, one
-- that does not exist has none), and the files and the bytes behind the write are at most the
-- maxima, which are not 0.
pub storage_write_within_quota_iff :
    (files bytes : ℕ) (record_exists : Bool) (existing new maximum_files maximum_bytes : ℕ)
    → (storage_write_within_quota files bytes record_exists existing new maximum_files maximum_bytes
        ≡ true)
      ↔ ((1 ≤ new)
          × (new ≤ maximum_storage_record_size)
          × (((record_exists ≡ true) × (1 ≤ files) × (1 ≤ existing))
              ⊎ ((record_exists ≡ false) × (existing ≡ 0)))
          × (existing ≤ bytes)
          × (1 ≤ maximum_files)
          × (files_after record_exists files ≤ maximum_files)
          × (bytes - existing + new ≤ maximum_bytes))
unfolding storage_write_within_quota
storage_write_within_quota_iff files bytes true existing new maximum_files maximum_bytes =
    ground arith
storage_write_within_quota_iff files bytes false existing new maximum_files maximum_bytes =
    ground arith
