-- ===== src/Wire/Laws.antt =====
-- `get_le` undoes `put_le`, and the other way round on a buffer of bytes.
use native.Mathlib.Nat.{div-div-eq-div-mul, mul_comm, pow-suc, one-le-pow}
use native.Mathlib.Numerals.{towards_suc}
use pen_lvgl.Prelude.{
  ℕ, zero, suc, ◌+◌, ◌*◌, ◌/◌, ◌%◌, ◌^◌, ◌<◌, ◌≡◌, refl, sym, ap, ◌∙◌, List, [], ◌∷◌, ◌++◌, All,
  length, take, take-length, take-append-drop, length-take_of_le, length-drop, drop-drop, drop,
  All-take, All-drop, subst, ◌≤◌, ◌-◌, replicate, arith,
}
use mathlib.Core.Path.{ap₂}
use pen_lvgl.Prelude.Bits.{bit_or_shift}
use pen_lvgl.Wire.{IsByte, AreBytes, write_at, put_le_from, put_le, get_le_from, get_le}

-- The number that a buffer stands for, and the lowest `count` bytes of a number.
abbrev pub le_value : List ℕ → ℕ
le_value [] = 0
le_value (b ∷ bs) = b + 256 * le_value bs

abbrev pub le_bytes : ℕ → ℕ → List ℕ
le_bytes zero v = []
le_bytes (suc count) v = v % 256 ∷ le_bytes count (v / 256)

pow_byte : (i : ℕ) → 2 ^ (suc i * 8) ≡ 256 * 2 ^ (i * 8)
pow_byte i = rw (eight i) (simp towards_suc (simp pow-suc (omega arith)))
  where
    eight : (i : ℕ) → suc i * 8 ≡ i * 8 + 8
    eight i = omega arith

shift_byte : (i v : ℕ) → v / 2 ^ (suc i * 8) ≡ v / 2 ^ (i * 8) / 256
shift_byte i v =
    rw (pow_byte i, mul_comm 256 (2 ^ (i * 8))) (sym (div-div-eq-div-mul v (2 ^ (i * 8)) 256))

put_le_from-le_bytes : (count i v : ℕ) → put_le_from count i v ≡ le_bytes count (v / 2 ^ (i * 8))
unfolding put_le_from
put_le_from-le_bytes zero i v = refl
put_le_from-le_bytes (suc count) i v =
    ap (◌∷◌ (v / 2 ^ (i * 8) % 256))
      (put_le_from-le_bytes count (suc i) v ∙ ap (le_bytes count) (shift_byte i v))

pub put_le-le_bytes : (count v : ℕ) → put_le count v ≡ le_bytes count v
unfolding put_le
put_le-le_bytes count v = put_le_from-le_bytes count 0 v ∙ ap (le_bytes count) (omega arith)

regroup : (v b w p : ℕ) → v + b * p + w * (256 * p) ≡ v + (b + 256 * w) * p
regroup v b w p = omega arith

fits_byte : (v b p : ℕ) → v < p → b < 256 → v + b * p < 256 * p
fits_byte v b p h k = grind arith

get_le_from-le_value :
    (count i v : ℕ) (bs : List ℕ)
    → v < 2 ^ (i * 8)
    → AreBytes bs
    → get_le_from count i v bs ≡ v + le_value (take count bs) * 2 ^ (i * 8)
unfolding get_le_from
get_le_from-le_value zero i v bs h a = omega arith
get_le_from-le_value (suc count) i v [] h a = omega arith
get_le_from-le_value (suc count) i v (b ∷ bs) h a = rw (bit_or_shift (i * 8) v b h) (
    get_le_from-le_value count (suc i) (v + b * 2 ^ (i * 8)) bs
      (rw (pow_byte i) (fits_byte v b _ h a.0)) a.1
    ∙ rw (pow_byte i) (regroup v b (le_value (take count bs)) (2 ^ (i * 8))))

pub get_le-le_value :
    (count : ℕ) (bs : List ℕ) → AreBytes bs → get_le count bs ≡ le_value (take count bs)
unfolding get_le
get_le-le_value count bs a = get_le_from-le_value count 0 0 bs (omega arith) a ∙ omega arith

le_bytes-AreBytes : (count v : ℕ) → AreBytes (le_bytes count v)
le_bytes-AreBytes zero v = tt
le_bytes-AreBytes (suc count) v = (omega arith, le_bytes-AreBytes count (v / 256))

le_value-le_bytes : (count v : ℕ) → v < 2 ^ (count * 8) → le_value (le_bytes count v) ≡ v
le_value-le_bytes zero v h = omega arith
le_value-le_bytes (suc count) v h =
    omega (arith, le_value-le_bytes count (v / 256) (omega (arith, pow_byte count)))

le_bytes-le_value : (bs : List ℕ) → AreBytes bs → le_bytes (length bs) (le_value bs) ≡ bs
le_bytes-le_value [] a = refl
le_bytes-le_value (b ∷ bs) a =
    ap₂ ◌∷◌ (omega arith) (ap (le_bytes (length bs)) (omega arith) ∙ le_bytes-le_value bs a.1)

pub length-le_bytes : (count v : ℕ) → length (le_bytes count v) ≡ count
length-le_bytes zero v = refl
length-le_bytes (suc count) v = ap suc (length-le_bytes count (v / 256))

pub length-put_le : (count v : ℕ) → length (put_le count v) ≡ count
length-put_le count v = rw (put_le-le_bytes count v) (length-le_bytes count v)

pub put_le-AreBytes : (count v : ℕ) → AreBytes (put_le count v)
put_le-AreBytes count v = rw (put_le-le_bytes count v) (le_bytes-AreBytes count v)

pub All-append {ℓ κ} :
    {A : Type ℓ} (P : A → Type κ) (xs ys : List A) → All P xs → All P ys → All P (xs ++ ys)
All-append P [] ys h k = k
All-append P (x ∷ xs) ys h k = (h.0, All-append P xs ys h.1 k)

get_le_from-append :
    (count i v : ℕ) (bs rest : List ℕ)
    → length bs ≡ count
    → get_le_from count i v (bs ++ rest) ≡ get_le_from count i v bs
unfolding get_le_from
get_le_from-append zero i v bs rest e = refl
get_le_from-append (suc count) i v [] rest e = absurd (omega arith)
get_le_from-append (suc count) i v (b ∷ bs) rest e =
    get_le_from-append count (suc i) _ bs rest (omega arith)

pub get_le-append :
    (count : ℕ) (bs rest : List ℕ) → length bs ≡ count → get_le count (bs ++ rest) ≡ get_le count bs
unfolding get_le
get_le-append count bs rest e = get_le_from-append count 0 0 bs rest e

-- What was written is read back, whatever follows it.
pub get_le-put_le :
    (count v : ℕ) (rest : List ℕ) → v < 2 ^ (count * 8) → get_le count (put_le count v ++ rest) ≡ v
get_le-put_le count v rest h =
    rw
      (
        get_le-append count (put_le count v) rest (length-put_le count v),
        get_le-le_value count (put_le count v) (put_le-AreBytes count v),
        take-all count (put_le count v) (length-put_le count v),
        put_le-le_bytes count v,
      )
      (le_value-le_bytes count v h)
  where
    take-all : (count : ℕ) (bs : List ℕ) → length bs ≡ count → take count bs ≡ bs
    take-all count bs e = rw (← e) (take-length bs)

-- The bytes that a number was read from are those that it is written as.
pub put_le-get_le : (bs : List ℕ) → AreBytes bs → put_le (length bs) (get_le (length bs) bs) ≡ bs
put_le-get_le bs a =
    rw (get_le-le_value (length bs) bs a, take-length bs, put_le-le_bytes (length bs) (le_value bs))
      (le_bytes-le_value bs a)

-- A field of a buffer, read and written again, is the part that it was read from.
pub rewrite_field :
    (k n : ℕ) (bytes : List ℕ)
    → AreBytes bytes
    → k + n ≤ length bytes
    → put_le n (get_le n (drop k bytes)) ++ drop (k + n) bytes ≡ drop k bytes
rewrite_field k n bytes a h =
    let part = take n (drop k bytes) in
    let size : length part ≡ n =
      length-take_of_le n (drop k bytes) (omega (arith, length-drop k bytes)) in
    let whole : part ++ drop n (drop k bytes) ≡ drop k bytes = take-append-drop n (drop k bytes) in
    let read : get_le n (drop k bytes) ≡ get_le n part =
      ap (get_le n) (sym whole) ∙ get_le-append n part (drop n (drop k bytes)) size in
    let again : put_le n (get_le n part) ≡ part =
      subst (λ m. put_le m (get_le m part) ≡ part) size
        (put_le-get_le part (All-take IsByte n _ (All-drop IsByte k bytes a))) in
    ap₂ ◌++◌ (ap (put_le n) read ∙ again) (sym (drop-drop k n bytes)) ∙ whole

le_value-lt : (count : ℕ) (bs : List ℕ) → AreBytes bs → le_value (take count bs) < 2 ^ (count * 8)
le_value-lt zero bs a = omega arith
le_value-lt (suc count) [] a = one-le-pow (suc count * 8) 2 (omega arith)
le_value-lt (suc count) (b ∷ bs) a = omega (arith, pow_byte count, le_value-lt count bs a.1)

pub get_le-lt : (count : ℕ) (bs : List ℕ) → AreBytes bs → get_le count bs < 2 ^ (count * 8)
get_le-lt count bs a = rw (get_le-le_value count bs a) (le_value-lt count bs a)

-- Bytes that are written over zeros and fit are followed by the rest of them.
pub write_at-replicate :
    (new : List ℕ) (n : ℕ)
    → length new ≤ n
    → write_at 0 new (replicate n 0) ≡ new ++ replicate (n - length new) 0
write_at-replicate [] n h = ap (λ k. replicate k 0) (omega arith)
write_at-replicate (b ∷ new) zero h = absurd (omega arith)
write_at-replicate (b ∷ new) (suc n) h =
    let e : suc n - suc (length new) ≡ n - length new = omega arith in
    rw e (ap (λ t. b ∷ t) (write_at-replicate new n (omega arith)))
