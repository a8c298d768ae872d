-- ===== src/Touch/Sequence.antt =====
-- Replayed frames: `TouchSequenceGuard`, and the freshness of time stamps.
use pen_lvgl.Prelude.{
  ℕ, ◌+◌, ◌≤◌, ◌<◌, ◌≡◌, ◌≢◌, ◌↔◌, ◌⊎◌, true, List, [], ◌∷◌, if◌then◌else◌, arith,
}
use pen_lvgl.Touch.{
  TouchFrame, error_ok, ok, input_session_mismatch, input_sequence_replayed, TouchSequenceGuard,
  accept_sequence, reset_sequence, touch_timestamp_fresh,
}

-- `accept` takes a frame exactly if it carries the nonce of the session, which is not zero, and a
-- greater sequence number than any taken before. It then remembers that number; on an error the
-- guard stays as it was.
pub accept_sequence_cases :
    (g : TouchSequenceGuard) (f : TouchFrame)
    → ((g.session_nonce ≢ 0)
        × (f.session_nonce ≡ g.session_nonce)
        × (g.last_sequence < f.sequence)
        × (accept_sequence g f ≡ (ok, record g { last_sequence = f.sequence })))
      ⊎ (((g.session_nonce ≡ 0) ⊎ (f.session_nonce ≢ g.session_nonce))
          × (accept_sequence g f ≡ (input_session_mismatch, g)))
      ⊎ ((g.session_nonce ≢ 0)
          × (f.session_nonce ≡ g.session_nonce)
          × (f.sequence ≤ g.last_sequence)
          × (accept_sequence g f ≡ (input_sequence_replayed, g)))
unfolding accept_sequence
accept_sequence_cases g f = ground arith

-- The frames of a stream that the guard takes, in their order.
unfoldable pub taken : TouchSequenceGuard → List TouchFrame → List TouchFrame
taken g [] = []
taken g (f ∷ fs) =
    let (error, after) = accept_sequence g f in
    let rest = taken after fs in if error_ok error then f ∷ rest else rest

-- Every frame has the session's nonce, and the sequence numbers rise from above `last`.
abbrev pub Rising : ℕ → ℕ → List TouchFrame → Type 0
Rising nonce last [] = Unit {0}
Rising nonce last (f ∷ fs) =
    (f.session_nonce ≡ nonce) × (last < f.sequence) × Rising nonce f.sequence fs

taken-Rising :
    (g : TouchSequenceGuard) (fs : List TouchFrame)
    → Rising g.session_nonce g.last_sequence (taken g fs)
unfolding taken error_ok
taken-Rising g [] = tt
taken-Rising g (f ∷ fs) = ground (
  arith,
  accept_sequence_cases g f,
  taken-Rising g fs,
  taken-Rising (record g { last_sequence = f.sequence }) fs,
)

-- From a reset on, whatever frames arrive: those that the guard takes all carry the session's nonce,
-- and their sequence numbers are positive and strictly rise, so that none is taken twice.
pub taken-reset :
    (nonce : ℕ) (fs : List TouchFrame) → Rising nonce 0 (taken (reset_sequence nonce) fs)
unfolding reset_sequence
taken-reset nonce fs = taken-Rising (record { session_nonce = nonce; last_sequence = 0 }) fs

-- A time stamp is fresh exactly if neither it nor the clock is zero, and it lies at most the given
-- age behind the clock and at most the given time before it.
pub touch_timestamp_fresh_iff :
    (f : TouchFrame) (now age future : ℕ)
    → (touch_timestamp_fresh f now age future ≡ true) ↔ (
        (f.monotonic_us ≢ 0)
        × (now ≢ 0)
        × (now ≤ f.monotonic_us + age)
        × (f.monotonic_us ≤ now + future))
unfolding touch_timestamp_fresh
touch_timestamp_fresh_iff f now age future = ground arith
