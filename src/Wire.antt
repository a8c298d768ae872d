-- ===== src/Wire.antt =====
-- Little-endian integers in byte buffers: the helpers `put_le`/`get_le` that the wire formats of
-- platform/src/ipc and platform/src/storage repeat (`append_u16`, `read_u64` and the like).
-- A buffer is a list of bytes; `bytes + k` is `drop k bytes`.
pub mod Laws
use pen_lvgl.Prelude.{
  ℕ, zero, suc, ◌+◌, ◌*◌, ◌/◌, ◌%◌, ◌^◌, ◌<◌, bit_or, List, [], ◌∷◌, ◌++◌, All, length, take, drop,
}

abbrev pub IsByte : ℕ → Type 0
IsByte b = b < 256

abbrev pub IsU16 : ℕ → Type 0
IsU16 v = v < 2 ^ 16

abbrev pub IsU32 : ℕ → Type 0
IsU32 v = v < 2 ^ 32

abbrev pub IsU64 : ℕ → Type 0
IsU64 v = v < 2 ^ 64

abbrev pub AreBytes : List ℕ → Type 0
AreBytes bs = All IsByte bs

-- `static_cast<std::uint8_t>(value >> (index * 8U))` for the `count` indices from `index` on.
put_le_from : ℕ → ℕ → ℕ → List ℕ
put_le_from zero index value = []
put_le_from (suc count) index value =
    value / 2 ^ (index * 8) % 256 ∷ put_le_from count (suc index) value

unfoldable pub put_le : ℕ → ℕ → List ℕ
unfolding put_le_from
put_le count value = put_le_from count 0 value

-- `value |= static_cast<T>(bytes[index]) << (index * 8U)`. The callers have checked the size, so
-- the buffer does not run out.
get_le_from : ℕ → ℕ → ℕ → List ℕ → ℕ
get_le_from zero index value bytes = value
get_le_from (suc count) index value [] = value
get_le_from (suc count) index value (b ∷ bytes) =
    get_le_from count (suc index) (bit_or value (b * 2 ^ (index * 8))) bytes

unfoldable pub get_le : ℕ → List ℕ → ℕ
unfolding get_le_from
get_le count bytes = get_le_from count 0 0 bytes

-- A copy of `new` into a buffer at `offset`; what would stand past the end is lost.
abbrev pub write_at : ℕ → List ℕ → List ℕ → List ℕ
write_at zero [] buffer = buffer
write_at zero (b ∷ new) [] = []
write_at zero (b ∷ new) (x ∷ buffer) = b ∷ write_at zero new buffer
write_at (suc offset) new [] = []
write_at (suc offset) new (x ∷ buffer) = x ∷ write_at offset new buffer
