-- ===== src/Store/Crash.antt =====
-- What `persist_release_state` of platform/src/storage/state_store.cpp leaves behind wherever it
-- stops, seen by the next `load_release_state`.
use pen_lvgl.Prelude.{
  ℕ, ◌%◌, ◌≤◌, ◌<◌, ◌≡◌, refl, ap, subst, ◌⊎◌, inl, inr, Bool, true, false, ◌&&◌, Option, some,
  List, ◌==◌, length, arith,
}
use pen_lvgl.Release.{ApplicationReleaseState, valid_state}
use pen_lvgl.Release.Codec.{DecodedReleaseState, body, encode_release_state, decode_release_state}
use pen_lvgl.Release.Codec.Layout.{IsTyped}
use pen_lvgl.Release.Codec.RoundTrip.{
  IsDigest32, decoded_as, decode-encode_release_state, encode_release_state-bound,
}
use pen_lvgl.Release.Codec.Slots.{Holds}
use pen_lvgl.Store.{
  StateStoreResult, store_ok, SlotFile, holds, StoreDirectory, read, SlotContents, read_slot,
  is_missing, SlotWrite, write_slot, Calls, write_first, write_both, after_first,
  persist_release_state,
}
use pen_lvgl.Store.Newest.{
  bytes_of, decoded_state, IsNewest, IsNewest-a, IsNewest-b, Loads, Loads-IsNewest, IsNewest-Loads,
}

module _ (sha256 : List ℕ → Option (List ℕ)) where
  after_first-ok : (calls : Calls) (w : SlotWrite) → store_ok (after_first calls w).status ≡ true
  unfolding after_first store_ok
  after_first-ok calls w = ground arith

  -- What a slot holds behind the call: what it held, or the new bytes.
  abbrev IsKept : List ℕ → SlotFile → SlotFile → Type 0
  IsKept bytes before after = (after ≡ before) ⊎ (after ≡ holds bytes)

  -- What a slot holds behind the call: what it held, or bytes that decode to the state.
  abbrev pub IsIntact : ApplicationReleaseState → SlotFile → SlotFile → Type 0
  IsIntact s before after =
      (after ≡ before)
      ⊎ ((bytes : List ℕ) × (after ≡ holds bytes)
          × (decode_release_state sha256 bytes ≡ decoded_as s))

  kept-IsIntact :
      (s : ApplicationReleaseState) (bytes : List ℕ) (before after : SlotFile)
      → decode_release_state sha256 bytes ≡ decoded_as s
      → IsKept bytes before after
      → IsIntact s before after
  kept-IsIntact s bytes before after e (inl k) = inl k
  kept-IsIntact s bytes before after e (inr k) = inr (bytes, k, e)

  abbrev IsWritten : List ℕ → StoreDirectory → StoreDirectory × StateStoreResult → Type 0
  IsWritten bytes d (after, r) =
      IsKept bytes d.slot_a after.slot_a
      × IsKept bytes d.slot_b after.slot_b
      × ((store_ok r.status ≡ false) ⊎ (after.slot_a ≡ holds bytes) ⊎ (after.slot_b ≡ holds bytes))

  write_both-IsWritten :
      (calls : Calls) (in_b : Bool) (bytes : List ℕ) (d : StoreDirectory)
      → IsWritten bytes d (write_both calls in_b bytes d)
  unfolding write_both write_first write_slot store_ok
  write_both-IsWritten calls in_b bytes d = ground arith

  persist-IsWritten :
      (calls : Calls) (s : ApplicationReleaseState) (d : StoreDirectory)
      → IsWritten (encode_release_state sha256 s).bytes d (persist_release_state sha256 calls s d)
  unfolding persist_release_state store_ok
  persist-IsWritten calls s d = ground (
    arith,
    write_both-IsWritten calls (s.generation % 2 == 0) (encode_release_state sha256 s).bytes d,
  )

  read_slot-holds :
      (bytes : List ℕ)
      → 1 ≤ length bytes
      → length bytes ≤ 512
      → read_slot (holds bytes) ≡ record { status = read; bytes = bytes }
  unfolding read_slot
  read_slot-holds bytes h k = ground arith

  and_false : (b : Bool) → (b && false) ≡ false
  and_false true = refl
  and_false false = refl

  same_directory :
      (d after : StoreDirectory) → after.slot_a ≡ d.slot_a → after.slot_b ≡ d.slot_b → d ≡ after
  same_directory d after a b = ground arith

  module _ (old new : ApplicationReleaseState) (bytes app_id : List ℕ) (d after : StoreDirectory)
      (small : 1 ≤ length bytes) (large : length bytes ≤ 512)
      (decodes : decode_release_state sha256 bytes ≡ decoded_as new) (same : new.app_id ≡ app_id)
      (newer : old.generation < new.generation) (before : Loads sha256 app_id d old) where
    new_slot : Holds sha256 bytes × (decoded_state sha256 bytes ≡ new)
    new_slot = (
      ap (λ (r : DecodedReleaseState). r.status) decodes,
      ap (λ (r : DecodedReleaseState). r.state) decodes,
    )

    slot_bytes : bytes_of (holds bytes) ≡ bytes
    slot_bytes = ap (λ (r : SlotContents). r.bytes) (read_slot-holds bytes small large)

    slot_read : is_missing (read_slot (holds bytes)).status ≡ false
    unfolding is_missing
    slot_read = ap (λ (r : SlotContents). is_missing r.status) (read_slot-holds bytes small large)

    slot_a-Loads :
        after.slot_a ≡ holds bytes
        → IsKept bytes d.slot_b after.slot_b
        → Loads sha256 app_id after new
    slot_a-Loads a b =
        let (h, e) = new_slot in
        let newest = (Loads-IsNewest sha256 app_id d old before).0 in
        let other : IsNewest sha256 bytes (bytes_of after.slot_b) new = elim b [
          | inl k ↦ rw k (
              IsNewest-a sha256 (bytes_of d.slot_a) (bytes_of d.slot_b) bytes old new newest h e
                newer)
          | inr k ↦ rw (k, slot_bytes) (inl (h, e, inr (inr refl)))
        ] in
        IsNewest-Loads sha256 app_id after new (rw (a, slot_read) refl) (rw (a, slot_bytes) other)
          same

    slot_b-Loads :
        after.slot_b ≡ holds bytes
        → IsKept bytes d.slot_a after.slot_a
        → Loads sha256 app_id after new
    slot_b-Loads b a =
        let (h, e) = new_slot in
        let newest = (Loads-IsNewest sha256 app_id d old before).0 in
        let other : IsNewest sha256 (bytes_of after.slot_a) bytes new = elim a [
          | inl k ↦ rw k (
              IsNewest-b sha256 (bytes_of d.slot_a) (bytes_of d.slot_b) bytes old new newest h e
                newer)
          | inr k ↦ rw (k, slot_bytes) (inl (h, e, inr (inr refl)))
        ] in
        IsNewest-Loads sha256 app_id after new
          (rw (b, slot_read) (and_false (is_missing (read_slot after.slot_a).status)))
          (rw (b, slot_bytes) other) same

  -- Wherever a failing call stops the saving of a newer state: the next
  -- load gives the new state, or the call reports a failure and the next load gives the old one.
  -- Each slot holds what it held, or bytes that decode to the new state. The hash has 32 bytes and
  -- is available, the new state is valid with fields in their ranges, of the same application, and
  -- its generation is greater.
  pub persist-Loads :
      (calls : Calls) (old new : ApplicationReleaseState) (c : List ℕ) (d : StoreDirectory)
      → IsDigest32 sha256
      → IsTyped new
      → valid_state new ≡ true
      → sha256 (body new) ≡ some c
      → old.generation < new.generation
      → Loads sha256 new.app_id d old
      → let (after, r) = persist_release_state sha256 calls new d in
        (Loads sha256 new.app_id after new
          ⊎ ((store_ok r.status ≡ false) × Loads sha256 new.app_id after old))
        × IsIntact new d.slot_a after.slot_a
        × IsIntact new d.slot_b after.slot_b
  persist-Loads calls old new c d hashes t v e newer before =
      let bytes = (encode_release_state sha256 new).bytes in
      let after = (persist_release_state sha256 calls new d).0 in
      let (small, large) = encode_release_state-bound sha256 hashes new c t v e in
      let decodes = (decode-encode_release_state sha256 hashes new c t v e).1 in
      let (a, b, r) = persist-IsWritten calls new d in
      let in_a =
        slot_a-Loads old new bytes new.app_id d after small large decodes refl newer before in
      let in_b =
        slot_b-Loads old new bytes new.app_id d after small large decodes refl newer before in
      (
        elim a [
          | inr k ↦ inl (in_a k b)
          | inl k ↦ elim b [
            | inr l ↦ inl (in_b l (inl k))
            | inl l ↦ elim r [
              | inl f ↦ inr (
                f,
                subst (λ v. Loads sha256 new.app_id v old) (same_directory d after k l) before,
              )
              | inr (inl m) ↦ inl (in_a m (inl l))
              | inr (inr m) ↦ inl (in_b m (inl k))
            ]
          ]
        ],
        kept-IsIntact new bytes d.slot_a after.slot_a decodes a,
        kept-IsIntact new bytes d.slot_b after.slot_b decodes b,
      )
