-- ===== src/Release/Codec/Layout.antt =====
-- Where the fields of a release state stand in its encoding.
use pen_lvgl.Prelude.{
  ℕ, ◌-◌, ◌≤◌, ◌≡◌, refl, List, ◌++◌, length, take, drop, get_or, take-append, drop-append,
  length-append, arith, ap, sym, ◌∙◌, same_bytes, same_bytes_refl, drop-drop, true,
}
use mathlib.Core.List.{append_assoc}
use pen_lvgl.Wire.{IsU16, IsU32, IsU64, put_le, get_le}
use pen_lvgl.Wire.Laws.{get_le-put_le}
use pen_lvgl.Release.{ApplicationReleaseState}
use pen_lvgl.Release.Codec.{body, fields, total_size, magic}

-- The ranges of the C++ types.
pub record IsTyped (s : ApplicationReleaseState) : Type 0 where
  pub generation : IsU64 s.generation
  pub current_release : IsU64 s.current_release
  pub previous_release : IsU64 s.previous_release
  pub high_release : IsU64 s.high_release
  pub quarantined_release : IsU64 s.quarantined_release
  pub high_security_epoch : IsU32 s.high_security_epoch
  pub consecutive_launch_failures : IsU16 s.consecutive_launch_failures
  pub current_digest : length s.current_digest ≡ 64
  pub previous_digest : length s.previous_digest ≡ 64
  pub high_digest : length s.high_digest ≡ 64

-- The part behind the fixed header.
tail_of : ApplicationReleaseState → List ℕ → List ℕ
tail_of s rest =
    s.current_digest
    ++ (s.previous_digest ++ (s.high_digest ++ (s.app_id ++ (s.signing_key_id ++ rest))))

module _ (s : ApplicationReleaseState) (rest : List ℕ) where
  pub magic_at : same_bytes magic (take 8 (body s ++ rest)) ≡ true
  unfolding body
  magic_at = same_bytes_refl magic

  pub version_at : get_le 2 (drop 8 (body s ++ rest)) ≡ 1
  unfolding body put_le
  version_at = get_le-put_le 2 1 _ (omega arith)

  pub header_at : get_le 2 (drop 10 (body s ++ rest)) ≡ 64
  unfolding body put_le
  header_at = get_le-put_le 2 64 _ (omega arith)

  pub size_at : total_size s ≤ 512 → get_le 4 (drop 12 (body s ++ rest)) ≡ total_size s
  unfolding body put_le
  size_at h = get_le-put_le 4 (total_size s) _ (omega arith)

  generation_at : IsU64 s.generation → get_le 8 (drop 16 (body s ++ rest)) ≡ s.generation
  unfolding body put_le
  generation_at h = get_le-put_le 8 s.generation _ h

  current_at : IsU64 s.current_release → get_le 8 (drop 24 (body s ++ rest)) ≡ s.current_release
  unfolding body put_le
  current_at h = get_le-put_le 8 s.current_release _ h

  previous_at : IsU64 s.previous_release → get_le 8 (drop 32 (body s ++ rest)) ≡ s.previous_release
  unfolding body put_le
  previous_at h = get_le-put_le 8 s.previous_release _ h

  high_at : IsU64 s.high_release → get_le 8 (drop 40 (body s ++ rest)) ≡ s.high_release
  unfolding body put_le
  high_at h = get_le-put_le 8 s.high_release _ h

  quarantined_at :
      IsU64 s.quarantined_release → get_le 8 (drop 48 (body s ++ rest)) ≡ s.quarantined_release
  unfolding body put_le
  quarantined_at h = get_le-put_le 8 s.quarantined_release _ h

  epoch_at :
      IsU32 s.high_security_epoch → get_le 4 (drop 56 (body s ++ rest)) ≡ s.high_security_epoch
  unfolding body put_le
  epoch_at h = get_le-put_le 4 s.high_security_epoch _ h

  failures_at :
      IsU16 s.consecutive_launch_failures
      → get_le 2 (drop 60 (body s ++ rest)) ≡ s.consecutive_launch_failures
  unfolding body put_le
  failures_at h = get_le-put_le 2 s.consecutive_launch_failures _ h

  pub app_size_at : length s.app_id ≤ 96 → get_or (body s ++ rest) 62 0 ≡ length s.app_id
  unfolding body put_le
  app_size_at h = omega arith

  pub key_size_at : length s.signing_key_id ≡ 32 → get_or (body s ++ rest) 63 0 ≡ 32
  unfolding body put_le
  key_size_at h = omega arith

  tail_at : drop 64 (body s ++ rest) ≡ tail_of s rest
  unfolding body put_le tail_of
  tail_at = simp append_assoc

  pub length-body :
      length s.current_digest ≡ 64
      → length s.previous_digest ≡ 64
      → length s.high_digest ≡ 64
      → length (body s) ≡ total_size s - 32
  unfolding body put_le total_size
  length-body c p h = omega (arith, length-append {0})

-- Behind the fixed header the digests and the texts follow one another.
module _ (s : ApplicationReleaseState) (rest : List ℕ) (t : IsTyped s) where
  digest_1 : take 64 (drop 64 (body s ++ rest)) ≡ s.current_digest
  unfolding tail_of
  digest_1 = rw (tail_at s rest) (take-append s.current_digest _ 64 t.current_digest)

  after_1 :
      drop 128 (body s ++ rest)
      ≡ s.previous_digest ++ (s.high_digest ++ (s.app_id ++ (s.signing_key_id ++ rest)))
  unfolding tail_of
  after_1 =
      sym (drop-drop 64 64 (body s ++ rest))
      ∙ rw (tail_at s rest) (drop-append s.current_digest _ 64 t.current_digest)

  after_2 : drop 192 (body s ++ rest) ≡ s.high_digest ++ (s.app_id ++ (s.signing_key_id ++ rest))
  after_2 =
      sym (drop-drop 128 64 (body s ++ rest))
      ∙ rw after_1 (drop-append s.previous_digest _ 64 t.previous_digest)

  after_3 : drop 256 (body s ++ rest) ≡ s.app_id ++ (s.signing_key_id ++ rest)
  after_3 =
      sym (drop-drop 192 64 (body s ++ rest))
      ∙ rw after_2 (drop-append s.high_digest _ 64 t.high_digest)

  texts :
      (take (length s.app_id) (drop 256 (body s ++ rest)) ≡ s.app_id)
      × (take (length s.signing_key_id) (drop (length s.app_id) (drop 256 (body s ++ rest)))
          ≡ s.signing_key_id)
  texts = (
    rw after_3 (take-append s.app_id _ _ refl),
    rw (after_3, drop-append s.app_id (s.signing_key_id ++ rest) _ refl)
        (take-append s.signing_key_id _ _ refl),
  )

  -- The fields that are read are those that were written.
  pub fields-body :
      length s.app_id ≤ 96 → length s.signing_key_id ≡ 32 → fields (body s ++ rest) ≡ s
  unfolding fields
  fields-body a k = ground (
    arith,
    app_size_at s rest a,
    key_size_at s rest k,
    generation_at s rest t.generation,
    current_at s rest t.current_release,
    previous_at s rest t.previous_release,
    high_at s rest t.high_release,
    quarantined_at s rest t.quarantined_release,
    epoch_at s rest t.high_security_epoch,
    failures_at s rest t.consecutive_launch_failures,
    digest_1,
    ap (take 64) after_1 ∙ take-append s.previous_digest _ 64 t.previous_digest,
    ap (take 64) after_2 ∙ take-append s.high_digest _ 64 t.high_digest,
    texts,
  )
