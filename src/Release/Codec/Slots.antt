-- ===== src/Release/Codec/Slots.antt =====
-- Which of the two slots `select_release_state` takes.
use pen_lvgl.Prelude.{ℕ, ◌<◌, ◌≡◌, ◌≢◌, ◌⊎◌, true, false, Option, List, arith, same_bytes_iff}
use pen_lvgl.Release.Codec.{
  SelectedReleaseState, ReleaseStateStatus, valid, split_brain, no_valid_slot, state_ok,
  decode_release_state, select_release_state,
}

-- `slot` holds a state that decodes.
abbrev pub Holds : (List ℕ → Option (List ℕ)) → List ℕ → Type 0
Holds sha256 slot = (decode_release_state sha256 slot).status ≡ valid

abbrev pub generation_in : (List ℕ → Option (List ℕ)) → List ℕ → ℕ
generation_in sha256 slot = (decode_release_state sha256 slot).state.generation

pub state_ok_iff : (s : ReleaseStateStatus) → (state_ok s ≡ true) → s ≡ valid
unfolding state_ok
state_ok_iff s = ground arith

pub ok_of_valid : (s : ReleaseStateStatus) → s ≡ valid → state_ok s ≡ true
unfolding state_ok
ok_of_valid s = ground arith

module _ (sha256 : List ℕ → Option (List ℕ)) (a b : List ℕ) where
  -- What the selection `r` may be: no slot decodes; both do, with one generation and different
  -- bytes; or the slot of the greater generation (the first at equal bytes), with the redundancy
  -- reported as lost exactly if the other slot does not decode.
  abbrev pub Outcome : SelectedReleaseState → Type 0
  Outcome r =
      ((¬ Holds sha256 a) × (¬ Holds sha256 b) × (r.decoded.status ≡ no_valid_slot))
      ⊎ ((Holds sha256 a)
          × (Holds sha256 b)
          × (generation_in sha256 a ≡ generation_in sha256 b)
          × (a ≢ b)
          × (r.decoded.status ≡ split_brain))
      ⊎ ((Holds sha256 a)
          × (r.decoded ≡ decode_release_state sha256 a)
          × (r.slot ≡ 1)
          × (((¬ Holds sha256 b) × (r.redundancy_degraded ≡ true))
              ⊎ ((Holds sha256 b)
                  × ((generation_in sha256 b < generation_in sha256 a) ⊎ (a ≡ b))
                  × (r.redundancy_degraded ≡ false))))
      ⊎ ((Holds sha256 b)
          × (r.decoded ≡ decode_release_state sha256 b)
          × (r.slot ≡ 2)
          × (((¬ Holds sha256 a) × (r.redundancy_degraded ≡ true))
              ⊎ ((Holds sha256 a)
                  × (generation_in sha256 a < generation_in sha256 b)
                  × (r.redundancy_degraded ≡ false))))

  -- For any two buffers and any hash, the selection takes the slot that decodes to the greater
  -- generation, or the only one that decodes; it reports two different states of one generation as
  -- a split, two buffers that do not decode as such, and the redundancy as degraded exactly where
  -- the slot that it did not take does not decode.
  pub select-Outcome : Outcome (select_release_state sha256 a b)
  unfolding select_release_state
  select-Outcome = ground (
    arith,
    state_ok_iff (decode_release_state sha256 a).status,
    state_ok_iff (decode_release_state sha256 b).status,
    ok_of_valid (decode_release_state sha256 a).status,
    ok_of_valid (decode_release_state sha256 b).status,
    same_bytes_iff a b,
  )
