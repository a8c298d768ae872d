-- ===== src/Session/Status/Shown.antt =====
-- The session status: its numbers are read back from their number_digits.
use pen_lvgl.Prelude.{
  ℕ, zero, suc, ◌+◌, ◌-◌, ◌*◌, ◌/◌, ◌%◌, ◌^◌, ◌<◌, ◌≡◌, refl, ◌∙◌, Bool, ltb, List, [], ◌∷◌, ◌++◌,
  is_empty, true, false, arith,
}
use native.Mathlib.Nat.{pow-succ'}
use pen_lvgl.Policy.Version.Spelling.{decimal}
use pen_lvgl.Session.Status.{
  SessionStatusDocument, number_digits, status_refused, encode_session_status,
}

decimal-append :
    (xs : List ℕ) (n c : ℕ) → decimal n (xs ++ (c ∷ [])) ≡ decimal n xs * 10 + (c - b'0')
decimal-append [] n c = refl
decimal-append (x ∷ xs) n c = decimal-append xs (n * 10 + (x - b'0')) c

-- The digits that `std::to_string` writes spell the number, if it has at most as many as the fuel.
pub decimal-number_digits : (fuel n : ℕ) → n < 10 ^ fuel → decimal 0 (number_digits fuel n) ≡ n
unfolding number_digits
decimal-number_digits zero n h = omega arith
decimal-number_digits (suc fuel) n h =
    last_digit (λ small. decimal-number_digits fuel (n / 10) small) (ltb n 10) refl
  where
    last_digit :
        (n / 10 < 10 ^ fuel → decimal 0 (number_digits fuel (n / 10)) ≡ n / 10)
        → (b : Bool) → ltb n 10 ≡ b
        → decimal 0 (elim b [
          | true ↦ (b'0' + n) ∷ []
          | false ↦ number_digits fuel (n / 10) ++ ((b'0' + n % 10) ∷ [])
        ])
          ≡ n
    last_digit ih true e = omega arith
    last_digit ih false e =
        decimal-append (number_digits fuel (n / 10)) 0 (b'0' + n % 10)
        ∙ omega (arith, ih (omega (arith, pow-succ' 10 fuel)))

pub encode_session_status-empty :
    (s : SessionStatusDocument) → is_empty (encode_session_status s) ≡ status_refused s
unfolding encode_session_status
encode_session_status-empty s = ground arith
