-- ===== src/Session/Router/Orderly.antt =====
-- What reaches the foreground program of a stream of touch packets.
use pen_lvgl.Prelude.{
  ℕ, ◌+◌, ◌≤◌, ◌<◌, ◌≡◌, ◌∙◌, subst, inl, inr, refl, Bool, Bool-cases, true, false, ◌==◌, List, [],
  ◌∷◌, if◌then◌else◌, arith,
}
use pen_lvgl.Prelude.Int.{ℤ, pos, ltb_ℤ}
use pen_lvgl.Prelude.Bits.{zero-bit}
use pen_lvgl.Touch.{
  ErrorCode, TouchFrame, TouchDecodeResult, error_ok, ok, decode_touch_frame, valid_touch_frame,
  touch_timestamp_fresh, accept_sequence, TouchContactGuard, accept_contact, reset_sequence,
  reset_contacts,
}
use pen_lvgl.Touch.Sequence.{accept_sequence_cases}
use pen_lvgl.Touch.Contacts.{touching, needs, leaves, moved, accept_contact_refines}
use pen_lvgl.Session.Router.{
  TouchRouter, TouchRouteResult, touch_router, route_contact, route_sequence, route_decoded, route,
  input_timestamp_stale, maximum_age_us, maximum_future_us,
}

-- Packets with the time they are taken at; the frames that `run_foreground` sends on.
unfoldable pub forwarded : TouchRouter → List (List ℕ × ℕ) → List (TouchFrame × ℕ)
forwarded router [] = []
forwarded router ((bytes, now) ∷ packets) =
    let (routed, after) = route router bytes now in
    let rest = forwarded after packets in
    if error_ok routed.error then (routed.frame, now) ∷ rest else rest

-- A position on the screen, and a time stamp near the clock.
abbrev pub IsPlaced : ℤ → ℤ → TouchFrame → Type 0
IsPlaced width height f =
    (ltb_ℤ f.x (pos 0) ≡ false)
    × (ltb_ℤ f.x width ≡ true)
    × (ltb_ℤ f.y (pos 0) ≡ false)
    × (ltb_ℤ f.y height ≡ true)

abbrev pub IsTimed : ℕ → TouchFrame → Type 0
IsTimed now f = (now ≤ f.monotonic_us + 2000000) × (f.monotonic_us ≤ now + 100000)

-- Every frame is placed and timed, carries the nonce, has a sequence number above the ones before,
-- and fits the contacts that touch.
abbrev pub AreOrderly : ℕ → ℤ → ℤ → ℕ → (ℕ → Bool) → List (TouchFrame × ℕ) → Type 0
AreOrderly nonce width height last touches [] = Unit {0}
AreOrderly nonce width height last touches ((f, now) ∷ fs) =
    IsPlaced width height f
    × IsTimed now f
    × (f.session_nonce ≡ nonce)
    × (last < f.sequence)
    × (f.contact_id ≤ 31)
    × (needs f.phase (touches f.contact_id) ≡ true)
    × AreOrderly nonce width height f.sequence
        (λ (j : ℕ). if j == f.contact_id then leaves f.phase else touches j) fs

decoded-IsPlaced :
    (bytes : List ℕ) (w h : ℤ)
    → error_ok (decode_touch_frame bytes w h).error ≡ true
    → IsPlaced w h (decode_touch_frame bytes w h).frame
unfolding decode_touch_frame valid_touch_frame error_ok
decoded-IsPlaced bytes w h good = ground arith

fresh-IsTimed :
    (f : TouchFrame) (now : ℕ) → touch_timestamp_fresh f now 2000000 100000 ≡ true → IsTimed now f
unfolding touch_timestamp_fresh
fresh-IsTimed f now fresh = ground arith

-- What one packet does to the router.
pub data IsRouted (r : TouchRouter) (now : ℕ) : TouchRouteResult × TouchRouter → Type 0 where
  refused :
      (res : TouchRouteResult) (after : TouchRouter)
      → error_ok res.error ≡ false
      → after.width ≡ r.width
      → after.height ≡ r.height
      → after.sequence.session_nonce ≡ r.sequence.session_nonce
      → r.sequence.last_sequence ≤ after.sequence.last_sequence
      → after.contacts ≡ r.contacts
      → IsRouted r now (res, after)
  passed :
      (res : TouchRouteResult) (after : TouchRouter)
      → error_ok res.error ≡ true
      → after.width ≡ r.width
      → after.height ≡ r.height
      → after.sequence.session_nonce ≡ r.sequence.session_nonce
      → after.sequence.last_sequence ≡ res.frame.sequence
      → IsPlaced r.width r.height res.frame
      → IsTimed now res.frame
      → res.frame.session_nonce ≡ r.sequence.session_nonce
      → r.sequence.last_sequence < res.frame.sequence
      → res.frame.contact_id ≤ 31
      → needs res.frame.phase (touching r.contacts res.frame.contact_id) ≡ true
      → ((j : ℕ) → j ≤ 31 → touching after.contacts j ≡ moved r.contacts res.frame j)
      → IsRouted r now (res, after)

contact_moved :
    (g : TouchContactGuard) (f : TouchFrame)
    → (accept_contact g f).0 ≡ ok
    → (j : ℕ) → j ≤ 31
    → touching (accept_contact g f).1 j ≡ moved g f j
contact_moved g f taken j h = elim (accept_contact_refines g f j h) [
  | inl (_, _, _, e) ↦ e
  | inr (_, e) ↦ absurd (cc (taken, e))
]

module _ (r : TouchRouter) (f : TouchFrame) (now : ℕ) (placed : IsPlaced r.width r.height f)
    (timed : IsTimed now f) where
  module _ (nonce : f.session_nonce ≡ r.sequence.session_nonce)
      (later : r.sequence.last_sequence < f.sequence) where
    abbrev counted : TouchRouter
    counted = record r { sequence = record r.sequence { last_sequence = f.sequence } }

    contact_passed :
        (p : ErrorCode × TouchContactGuard)
        → p.0 ≡ ok
        → f.contact_id ≤ 31
        → needs f.phase (touching r.contacts f.contact_id) ≡ true
        → ((j : ℕ) → j ≤ 31 → touching p.1 j ≡ moved r.contacts f j)
        → IsRouted r now (route_contact counted f p)
    unfolding route_contact error_ok
    contact_passed (e, g) good low fits move =
        passed (record { frame = f; error = e }) (record counted { contacts = g }) (rw good refl)
          refl refl refl refl placed timed nonce later low fits move

    contact_refused :
        (p : ErrorCode × TouchContactGuard)
        → error_ok p.0 ≡ false
        → p.1 ≡ r.contacts
        → IsRouted r now (route_contact counted f p)
    unfolding route_contact
    contact_refused (e, g) bad same =
        refused (record { frame = f; error = e }) (record counted { contacts = g }) bad refl refl
          refl (omega arith) same

    contact_routed : IsRouted r now (route_contact counted f (accept_contact r.contacts f))
    unfolding error_ok
    contact_routed = elim (accept_contact_refines r.contacts f 0 (omega arith)) [
      | inl (low, fits, good, _) ↦
          contact_passed (accept_contact r.contacts f) good low fits
            (contact_moved r.contacts f good)
      | inr (_, e) ↦ contact_refused (accept_contact r.contacts f) (rw e refl) (rw e refl)
    ]

  sequence_routed : IsRouted r now (route_sequence r f (accept_sequence r.sequence f))
  unfolding route_sequence error_ok
  sequence_routed = elim (accept_sequence_cases r.sequence f) [
    | inl (_, nonce, later, e) ↦ rw e (contact_routed nonce later)
    | inr (inl (_, e)) ↦ rw e (refused _ _ refl refl refl refl (omega arith) refl)
    | inr (inr (_, _, _, e)) ↦ rw e (refused _ _ refl refl refl refl (omega arith) refl)
  ]

stale_bad : error_ok input_timestamp_stale ≡ false
unfolding error_ok
stale_bad = refl

route-IsRouted : (r : TouchRouter) (bytes : List ℕ) (now : ℕ) → IsRouted r now (route r bytes now)
unfolding route route_decoded
route-IsRouted r bytes now =
    let d : TouchDecodeResult = decode_touch_frame bytes r.width r.height in
    elim (Bool-cases (error_ok (decode_touch_frame bytes r.width r.height).error)) [
      | inr bad ↦ rw bad (refused _ _ bad refl refl refl (omega arith) refl)
      | inl good ↦
          elim (Bool-cases (
            touch_timestamp_fresh (decode_touch_frame bytes r.width r.height).frame now
              maximum_age_us maximum_future_us)) [
                | inr stale ↦
                    rw (good, stale) (refused _ _ stale_bad refl refl refl (omega arith) refl)
                | inl fresh ↦
                    rw (good, fresh)
                      (sequence_routed r d.frame now (decoded-IsPlaced bytes r.width r.height good)
                        (fresh-IsTimed d.frame now fresh))
              ]
    ]

module _ (nonce : ℕ) (width height : ℤ) where
  -- A router of this session that has taken `last`, and whose contacts are those that touch.
  abbrev Follows : TouchRouter → (ℕ → Bool) → ℕ → Type 0
  Follows r touches last =
      (r.width ≡ width)
      × (r.height ≡ height)
      × (r.sequence.session_nonce ≡ nonce)
      × (last ≤ r.sequence.last_sequence)
      × ((j : ℕ) → j ≤ 31 → touching r.contacts j ≡ touches j)

  moved_alike :
      (g : TouchContactGuard) (touches : ℕ → Bool) (f : TouchFrame) (j : ℕ)
      → touching g j ≡ touches j
      → moved g f j ≡ (if j == f.contact_id then leaves f.phase else touches j)
  moved_alike g touches f j e = ground (arith, e)

  forwarded_cons :
      (r : TouchRouter) (touches : ℕ → Bool) (last now : ℕ) (packets : List (List ℕ × ℕ))
      → Follows r touches last
      → ((after : TouchRouter) (touches : ℕ → Bool) (last : ℕ)
          → Follows after touches last
          → AreOrderly nonce width height last touches (forwarded after packets))
      → (p : TouchRouteResult × TouchRouter) → IsRouted r now p
      → AreOrderly nonce width height last touches (
          if error_ok p.0.error
          then (p.0.frame, now) ∷ forwarded p.1 packets
          else forwarded p.1 packets)
  forwarded_cons r touches last now packets (w, h, n, l, t) ih p
        (refused res after bad w1 h1 n1 l1 same) =
      rw bad (ih after touches last (w1 ∙ w, h1 ∙ h, n1 ∙ n, omega arith, rw same t))
  forwarded_cons r touches last now packets (w, h, n, l, t) ih p
        (passed res after good w1 h1 n1 l1 placed timed nonce1 later low fits move) =
      rw good (
        ground (arith, placed, w, h),
        timed,
        nonce1 ∙ n,
        omega arith,
        low,
        subst (λ (b : Bool). needs res.frame.phase b ≡ true) (t res.frame.contact_id low) fits,
        ih after _ res.frame.sequence (
          w1 ∙ w,
          h1 ∙ h,
          n1 ∙ n,
          omega arith,
          λ j k. move j k ∙ moved_alike r.contacts touches res.frame j (t j k),
        ),
      )

  forwarded-AreOrderly :
      (packets : List (List ℕ × ℕ)) (r : TouchRouter) (touches : ℕ → Bool) (last : ℕ)
      → Follows r touches last
      → AreOrderly nonce width height last touches (forwarded r packets)
  unfolding forwarded
  forwarded-AreOrderly [] r touches last fits = tt
  forwarded-AreOrderly ((bytes, now) ∷ packets) r touches last fits =
      forwarded_cons r touches last now packets fits
        (λ a u l k. forwarded-AreOrderly packets a u l k) (route r bytes now)
        (route-IsRouted r bytes now)

-- Whatever packets arrive at whatever times: the frames that a new router lets through lie on the
-- screen, are at most 2 s older than the clock and at most 0.1 s ahead of it, carry the session's
-- nonce, and have positive, strictly rising sequence numbers. For each contact they begin with
-- `start`; `move`, `end` and `cancel` come only while it touches, another `start` only after `end`
-- or `cancel`. No frame names a contact above 31.
pub forwarded-touch_router :
    (nonce : ℕ) (width height : ℤ) (packets : List (List ℕ × ℕ))
    → AreOrderly nonce width height 0
        (λ (j : ℕ). false)
        (forwarded (touch_router nonce width height) packets)
unfolding touch_router reset_sequence reset_contacts
forwarded-touch_router nonce width height packets =
    forwarded-AreOrderly nonce width height packets (touch_router nonce width height)
      (λ (j : ℕ). false) 0 (refl, refl, refl, omega arith, λ j k. rw (zero-bit j) refl)
