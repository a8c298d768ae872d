-- ===== src/Store/Newest.antt =====
-- Which state `load_release_state` of platform/src/storage/state_store.cpp takes from the two slots.
use pen_lvgl.Prelude.{
  ℕ, ◌<◌, ◌≡◌, refl, ap, sym, subst, ◌∙◌, ◌⊎◌, inl, inr, Bool-cases, true, false, ◌&&◌, Option,
  List, same_bytes, same_bytes_refl, same_bytes→eq, arith,
}
use pen_lvgl.Release.{ApplicationReleaseState}
use pen_lvgl.Release.Codec.{valid, state_ok, decode_release_state, select_release_state}
use pen_lvgl.Release.Codec.Slots.{Holds, generation_in, select-Outcome, state_ok_iff, ok_of_valid}
use pen_lvgl.Store.{store_ok, SlotFile, StoreDirectory, read_slot, is_missing, load_slots}

abbrev pub bytes_of : SlotFile → List ℕ
bytes_of file = (read_slot file).bytes

module _ (sha256 : List ℕ → Option (List ℕ)) where
  abbrev pub decoded_state : List ℕ → ApplicationReleaseState
  decoded_state slot = (decode_release_state sha256 slot).state

  -- `s` is what the two slots hold, and the other slot holds nothing newer.
  abbrev pub IsNewest : List ℕ → List ℕ → ApplicationReleaseState → Type 0
  IsNewest a b s =
      (Holds sha256 a
        × (decoded_state a ≡ s)
        × ((¬ Holds sha256 b) ⊎ (generation_in sha256 b < generation_in sha256 a) ⊎ (a ≡ b)))
      ⊎ (Holds sha256 b
          × (decoded_state b ≡ s)
          × ((¬ Holds sha256 a) ⊎ (generation_in sha256 a < generation_in sha256 b)))

  abbrev pub selected_state : List ℕ → List ℕ → ApplicationReleaseState
  selected_state a b = (select_release_state sha256 a b).decoded.state

  select-IsNewest :
      (a b : List ℕ)
      → (select_release_state sha256 a b).decoded.status ≡ valid
      → IsNewest a b (selected_state a b)
  select-IsNewest a b h = ground (arith, select-Outcome sha256 a b)

  IsNewest-select :
      (a b : List ℕ) (s : ApplicationReleaseState)
      → IsNewest a b s
      → ((select_release_state sha256 a b).decoded.status ≡ valid) × (selected_state a b ≡ s)
  IsNewest-select a b s h = ground (arith, select-Outcome sha256 a b)

  -- A newer state in either slot is the newest one.
  pub IsNewest-a :
      (a b e : List ℕ) (old new : ApplicationReleaseState)
      → IsNewest a b old
      → Holds sha256 e
      → decoded_state e ≡ new
      → old.generation < new.generation
      → IsNewest e b new
  IsNewest-a a b e old new h k d l = ground arith

  pub IsNewest-b :
      (a b e : List ℕ) (old new : ApplicationReleaseState)
      → IsNewest a b old
      → Holds sha256 e
      → decoded_state e ≡ new
      → old.generation < new.generation
      → IsNewest a e new
  IsNewest-b a b e old new h k d l = ground arith

  -- The next load gives the state `s`.
  abbrev pub Loads : List ℕ → StoreDirectory → ApplicationReleaseState → Type 0
  Loads app_id d s =
      (store_ok (load_slots sha256 app_id d).status ≡ true)
      × ((load_slots sha256 app_id d).selected.decoded.state ≡ s)

  pub Loads-IsNewest :
      (app_id : List ℕ) (d : StoreDirectory) (s : ApplicationReleaseState)
      → Loads app_id d s
      → IsNewest (bytes_of d.slot_a) (bytes_of d.slot_b) s × (s.app_id ≡ app_id)
  unfolding load_slots store_ok
  Loads-IsNewest app_id d s (h, e) =
      let a = bytes_of d.slot_a in
      let b = bytes_of d.slot_b in
      let selected = select_release_state sha256 a b in
      let ok : state_ok selected.decoded.status ≡ true = ground arith in
      let id : same_bytes selected.decoded.state.app_id app_id ≡ true = ground arith in
      let same : selected.decoded.state ≡ s = ground arith in
      (
        subst (IsNewest a b) same (select-IsNewest a b (state_ok_iff selected.decoded.status ok)),
        ap (λ (v : ApplicationReleaseState). v.app_id) (sym same)
            ∙ same_bytes→eq selected.decoded.state.app_id app_id id,
      )

  abbrev pub IsSomeSlot : SlotFile → SlotFile → Type 0
  IsSomeSlot a b = (is_missing (read_slot a).status && is_missing (read_slot b).status) ≡ false

  pub IsNewest-Loads :
      (app_id : List ℕ) (d : StoreDirectory) (s : ApplicationReleaseState)
      → IsSomeSlot d.slot_a d.slot_b
      → IsNewest (bytes_of d.slot_a) (bytes_of d.slot_b) s
      → s.app_id ≡ app_id
      → Loads app_id d s
  unfolding load_slots store_ok
  IsNewest-Loads app_id d s n h i =
      let a = bytes_of d.slot_a in
      let b = bytes_of d.slot_b in
      let selected = select_release_state sha256 a b in
      let (v, same) = IsNewest-select a b s h in
      let ok : state_ok selected.decoded.status ≡ true = ok_of_valid selected.decoded.status v in
      let id : same_bytes selected.decoded.state.app_id app_id ≡ true =
        rw (same, i) (same_bytes_refl app_id) in
      elim (Bool-cases selected.redundancy_degraded) [
        | inl r ↦ rw (n, ok, id, r) (refl, same)
        | inr r ↦ rw (n, ok, id, r) (refl, same)
      ]
