-- ===== src/Session/Router.antt =====
-- platform/src/session/touch_router.cpp: the touch frames that the session daemon passes on to the
-- foreground program. The object is a record that `route` returns with its result.
pub mod Orderly
use pen_lvgl.Prelude.{ℕ, Bool, not, List, if◌then◌else◌}
use pen_lvgl.Prelude.Int.{ℤ}
use pen_lvgl.Touch.{
  ErrorCode, input, error_ok, TouchFrame, TouchDecodeResult, decode_touch_frame,
  touch_timestamp_fresh, TouchSequenceGuard, accept_sequence, reset_sequence, TouchContactGuard,
  accept_contact, reset_contacts,
}

-- platform/include/lvgl_platform/error.h
abbrev pub input_timestamp_stale : ErrorCode
input_timestamp_stale = record { domain = input; value = 4 }

pub record TouchRouteResult : Type 0 where
  pub frame : TouchFrame
  pub error : ErrorCode

pub record TouchRouter : Type 0 where
  pub width : ℤ
  pub height : ℤ
  pub sequence : TouchSequenceGuard
  pub contacts : TouchContactGuard

-- The constructor.
unfoldable pub touch_router : ℕ → ℤ → ℤ → TouchRouter
touch_router session_nonce width height = record {
  width = width;
  height = height;
  sequence = reset_sequence session_nonce;
  contacts = reset_contacts;
}

-- The default arguments of `touch_timestamp_fresh`.
abbrev pub maximum_age_us : ℕ
maximum_age_us = 2000000

abbrev pub maximum_future_us : ℕ
maximum_future_us = 100000

-- What `sequence_.accept` and `contacts_.accept` say of a fresh frame.
unfoldable pub route_contact :
    TouchRouter → TouchFrame → ErrorCode × TouchContactGuard → TouchRouteResult × TouchRouter
route_contact router frame (error, contacts) =
    (record { frame = frame; error = error }, record router { contacts = contacts })

unfoldable pub route_sequence :
    TouchRouter → TouchFrame → ErrorCode × TouchSequenceGuard → TouchRouteResult × TouchRouter
unfolding route_contact
route_sequence router frame (error, sequence) =
    let counted : TouchRouter = record router { sequence = sequence } in
    if not (error_ok error)
    then (record { frame = frame; error = error }, counted)
    else route_contact counted frame (accept_contact router.contacts frame)

unfoldable pub route_decoded : TouchRouter → TouchDecodeResult → ℕ → TouchRouteResult × TouchRouter
unfolding route_sequence
route_decoded router decoded now =
    if not (error_ok decoded.error)
    then (record { frame = decoded.frame; error = decoded.error }, router)
    else if not (touch_timestamp_fresh decoded.frame now maximum_age_us maximum_future_us)
    then (record { frame = decoded.frame; error = input_timestamp_stale }, router)
    else route_sequence router decoded.frame (accept_sequence router.sequence decoded.frame)

unfoldable pub route : TouchRouter → List ℕ → ℕ → TouchRouteResult × TouchRouter
unfolding route_decoded
route router bytes now =
    route_decoded router (decode_touch_frame bytes router.width router.height) now
