-- ===== src/Session/Status.antt =====
-- platform/src/session/session_status.cpp: the document in which the session daemon tells its state.
pub mod Shown
use pen_lvgl.Prelude.{
  ℕ, zero, suc, ◌+◌, ◌/◌, ◌%◌, Bool, true, false, not, ◌&&◌, ◌||◌, List, [], ◌∷◌, ◌++◌, ltb, ◌==◌,
  if◌then◌else◌, is_empty, codes,
}
use pen_lvgl.Prelude.Int.{ℤ, pos, negsuc, ltb_ℤ}

pub data SessionState : Type 0 where
  starting ready error stopped : SessionState

pub record SessionStatusDocument : Type 0 where
  pub session_pid : ℤ
  pub session_nonce : ℕ
  pub state : SessionState
  pub result : ℤ
  pub hole_ready : Bool
  pub input_ready : Bool
  pub logical_width : ℤ
  pub logical_height : ℤ

unfoldable pub state_name : SessionState → List ℕ
state_name starting = codes "starting"
state_name ready = codes "ready"
state_name error = codes "error"
state_name stopped = codes "stopped"

unfoldable pub is_ready : SessionState → Bool
is_ready ready = true
is_ready _ = false

-- `std::to_string`, for numbers of at most as many digits as the fuel.
unfoldable pub number_digits : ℕ → ℕ → List ℕ
number_digits zero n = []
number_digits (suc fuel) n = elim (ltb n 10) [
  | true ↦ (b'0' + n) ∷ []
  | false ↦ number_digits fuel (n / 10) ++ ((b'0' + n % 10) ∷ [])
]

unfoldable pub natural_text : ℕ → List ℕ
natural_text n = number_digits 20 n

unfoldable pub integer_text : ℤ → List ℕ
integer_text (pos n) = natural_text n
integer_text (negsuc n) = b'-' ∷ natural_text (suc n)

unfoldable pub flag_line : Bool → List ℕ
flag_line flag = if flag then codes "1\n" else codes "0\n"

unfoldable pub status_refused : SessionStatusDocument → Bool
status_refused status =
    not (ltb_ℤ (pos 1) status.session_pid)
    || status.session_nonce == 0
    || ltb_ℤ status.result (pos 0)
    || not (ltb_ℤ (pos 0) status.logical_width)
    || not (ltb_ℤ (pos 0) status.logical_height)
    || (not (is_ready status.state) && (status.hole_ready || status.input_ready))
    || (status.input_ready && not status.hole_ready)

unfoldable pub encode_session_status : SessionStatusDocument → List ℕ
encode_session_status status =
    if status_refused status
    then []
    else codes "SESSION_PID="
      ++ (integer_text status.session_pid
          ++ (codes "\nSESSION_NONCE="
              ++ (natural_text status.session_nonce
                  ++ (codes "\nSTATE="
                      ++ (state_name status.state
                          ++ (codes "\nRESULT="
                              ++ (integer_text status.result
                                  ++ (codes "\nHOLE_READY="
                                      ++ (flag_line status.hole_ready
                                          ++ (codes "INPUT_READY="
                                              ++ (flag_line status.input_ready
                                                  ++ (codes "LOGICAL_WIDTH="
                                                      ++ (integer_text status.logical_width
                                                          ++ (codes "\nLOGICAL_HEIGHT="
                                                            ++ (integer_text status.logical_height
                                                            ++ codes "\n")))))))))))))))

-- `atomic_status` of session_daemon.cpp: the document is written if it is one and the calls succeed.
unfoldable pub atomic_status : Bool → SessionStatusDocument → Bool
atomic_status calls status = not (is_empty (encode_session_status status)) && calls
