-- ===== src/Game/Line.antt =====
-- `Game2048::collapse_line` of apps/game-2048/game_2048_model.cpp, and what it keeps.
use pen_lvgl.Prelude.{
  ℕ, ◌+◌, ◌*◌, ◌%◌, ◌^◌, Bool, false, not, List, [], ◌∷◌, leb, ◌==◌, if◌then◌else◌, same_bytes, set,
  replicate, bit_or,
}

pub record LineMove : Type 0 where
  pub values : List ℕ
  pub score_delta : ℕ
  pub merge_mask : ℕ
  pub changed : Bool

-- The tiles of a line, in order.
unfoldable pub compact : List ℕ → List ℕ
compact [] = []
compact (v ∷ vs) = let rest = compact vs in if v == 0 then rest else v ∷ rest

-- A merged tile; the largest tile of 16 bits merges into itself.
unfoldable pub doubled : ℕ → ℕ
doubled v = if leb v 32767 then v * 2 else v

-- The loop over the compacted tiles; `output` counts the values that are written.
unfoldable pub merge_loop : List ℕ → ℕ → LineMove → LineMove
merge_loop [] output result = result
merge_loop (v ∷ []) output result = record result { values = set result.values output v }
merge_loop (v ∷ (w ∷ rest)) output result =
    let value = doubled v in
    let merged = merge_loop rest (output + 1) (record result {
      values = set result.values output value;
      score_delta = (result.score_delta + value) % 2 ^ 32;
      merge_mask = bit_or result.merge_mask (2 ^ output);
    }) in
    let kept =
      merge_loop (w ∷ rest) (output + 1) (record result { values = set result.values output v }) in
    if w == v then merged else kept

unfoldable pub collapse_line : List ℕ → LineMove
collapse_line input =
    let result =
      merge_loop (compact input) 0
        (record { values = replicate 4 0; score_delta = 0; merge_mask = 0; changed = false }) in
    record result { changed = not (same_bytes result.values input) }
