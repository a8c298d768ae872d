-- ===== src/Game/Random.antt =====
-- `Game2048::random` of apps/game-2048/game_2048_model.cpp: a xorshift generator on 64 bits.
use pen_lvgl.Prelude.{ℕ, ◌*◌, ◌/◌, ◌%◌, ◌^◌, ◌<◌, ◌≡◌, ◌≢◌, bit_xor, arith}
use pen_lvgl.Prelude.Bits.{bit_xor-lt, bit_xor-eq-zero}

-- `random_state_` after a call.
unfoldable pub next_random : ℕ → ℕ
next_random state =
    let value1 = bit_xor state (state / 2 ^ 12) in
    let value2 = bit_xor value1 (value1 * 2 ^ 25 % 2 ^ 64) in bit_xor value2 (value2 / 2 ^ 27)

-- What the call returns.
unfoldable pub output_of : ℕ → ℕ
output_of value = value * 2685821657736338717 % 2 ^ 64

-- The generator never reaches the state 0, from which it could not leave: a state that is not 0
-- and fits 64 bits is followed by one that is not 0 and fits 64 bits.
pub next_random-ne-zero :
    (s : ℕ) → s ≢ 0 → s < 2 ^ 64 → (next_random s ≢ 0) × (next_random s < 2 ^ 64)
unfolding next_random
next_random-ne-zero s h l =
    let v1 = bit_xor s (s / 2 ^ 12) in
    let v2 = bit_xor v1 (v1 * 2 ^ 25 % 2 ^ 64) in
    let l1 : v1 < 2 ^ 64 = bit_xor-lt 64 s (s / 2 ^ 12) l (omega arith) in
    let l2 : v2 < 2 ^ 64 = bit_xor-lt 64 v1 (v1 * 2 ^ 25 % 2 ^ 64) l1 (omega arith) in
    (
      λ e.
          let z2 : v2 ≡ 0 = shift_27 v2 (bit_xor-eq-zero 64 v2 (v2 / 2 ^ 27) l2 (omega arith) e) in
          let z1 : v1 ≡ 0 = shift_left v1 l1 (bit_xor-eq-zero 64 v1 _ l1 (omega arith) z2) in
          h (shift_12 s (bit_xor-eq-zero 64 s (s / 2 ^ 12) l (omega arith) z1)),
      bit_xor-lt 64 v2 (v2 / 2 ^ 27) l2 (omega arith),
    )
  where
    shift_left : (x : ℕ) → x < 2 ^ 64 → x ≡ x * 2 ^ 25 % 2 ^ 64 → x ≡ 0
    shift_left x h e = omega arith

    shift_12 : (x : ℕ) → x ≡ x / 2 ^ 12 → x ≡ 0
    shift_12 x e = omega arith

    shift_27 : (x : ℕ) → x ≡ x / 2 ^ 27 → x ≡ 0
    shift_27 x e = omega arith
