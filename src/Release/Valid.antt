-- ===== src/Release/Valid.antt =====
-- `valid_state` as a record of facts, each with its meaning.
use pen_lvgl.Prelude.{◌≤◌, ◌<◌, ◌≡◌, refl, ◌≢◌, ◌↔◌, ◌⊎◌, true, false, arith, same_bytes_iff}
use pen_lvgl.Release.{ApplicationReleaseState, zero_digest, no_digest, valid_state}
use pen_lvgl.Release.Ident.{app_id_ok, key_id_ok}

pub record IsValid (s : ApplicationReleaseState) : Type 0 where
  pub app : app_id_ok s.app_id ≡ true
  pub key : key_id_ok s.signing_key_id ≡ true
  pub counted : s.generation ≢ 0
  pub active : s.current_release ≢ 0
  pub current_le_high : s.current_release ≤ s.high_release
  pub previous_le_high : s.previous_release ≤ s.high_release
  pub quarantined_le_high : s.quarantined_release ≤ s.high_release
  pub failures : s.consecutive_launch_failures ≤ 3
  pub current_digested : zero_digest s.current_digest ≡ false
  pub high_digested : zero_digest s.high_digest ≡ false
  pub previous_digested :
      ((s.previous_release ≡ 0) × (zero_digest s.previous_digest ≡ true))
      ⊎ ((s.previous_release ≢ 0) × (zero_digest s.previous_digest ≡ false))
  pub high_is_current : (s.current_release < s.high_release) ⊎ (s.high_digest ≡ s.current_digest)
  pub previous_ne : s.previous_release ≢ s.current_release
  pub quarantined_ne : s.quarantined_release ≢ s.current_release

-- `valid_state` accepts exactly the states with these properties.
pub valid_state_iff : (s : ApplicationReleaseState) → (valid_state s ≡ true) ↔ IsValid s
unfolding valid_state
valid_state_iff s = ground (arith, same_bytes_iff s.high_digest s.current_digest)

pub zero_digest-no_digest : zero_digest no_digest ≡ true
unfolding zero_digest
zero_digest-no_digest = refl
