-- ===== src/Touch/Contacts.antt =====
-- `TouchContactGuard` keeps a set of contacts in one word: the bits refine a set.
use pen_lvgl.Prelude.{
  ℕ, ◌-◌, ◌*◌, ◌%◌, ◌^◌, ◌≤◌, ◌<◌, ◌≡◌, ◌⊎◌, Bool, true, false, not, arith, min, max, bit_and,
  bit_or, ◌==◌, if◌then◌else◌, Bool-cases, inl, inr, zero, suc, ==_iff, ltb, ltb→lt, ap, ◌∙◌,
}
use native.Mathlib.Nat.{one-le-pow, pow-succ'}
use pen_lvgl.Prelude.Bits.{
  bit, bit-bit_or, bit-bit_and, bit-pow_self, bit-pow_ne, bit_and-pow, bit-complement,
}
use pen_lvgl.Touch.{
  TouchFrame, TouchPhase, start, move, end, cancel, other, ok, input_contact_invalid,
  TouchContactGuard, contact_phase, accept_contact,
}

-- The abstract view: which contacts touch.
abbrev pub touching : TouchContactGuard → ℕ → Bool
touching g c = bit g.active_contacts c == 1

-- What a phase asks of its contact, and whether the contact touches afterwards.
abbrev pub needs : TouchPhase → Bool → Bool
needs start touches = not touches
needs (other v) touches = false
needs _ touches = touches

abbrev pub leaves : TouchPhase → Bool
leaves start = true
leaves move = true
leaves _ = false

pow_mono : (c d : ℕ) → c ≤ d → 2 ^ c ≤ 2 ^ d
pow_mono c zero h = let e : c ≡ 0 = omega arith in rw e (omega arith)
pow_mono zero (suc d) h = one-le-pow (suc d) 2 (omega arith)
pow_mono (suc c) (suc d) h = omega (arith, pow-succ' 2 c, pow-succ' 2 d, pow_mono c d (omega arith))

mask-pow : (c : ℕ) → c ≤ 31 → 2 ^ c % 2 ^ 32 ≡ 2 ^ c
mask-pow c h = omega (arith, pow_mono c 31 h)

nonzero : (b p : ℕ) → b < 2 → 1 ≤ p → not (b * p == 0) ≡ (b == 1)
nonzero zero p h k = ground arith
nonzero (suc zero) p h k = ground arith
nonzero (suc (suc b)) p h k = absurd (omega arith)

active-touching : (w c : ℕ) → not (bit_and w (2 ^ c) == 0) ≡ (bit w c == 1)
active-touching w c =
    rw (bit_and-pow c w) (nonzero (bit w c) (2 ^ c) (omega arith) (one-le-pow c 2 (omega arith)))

-- Bit `j` of a power: one at its place only.
bit-pow : (c j : ℕ) → bit (2 ^ c) j ≡ (if j == c then 1 else 0)
bit-pow c j = elim (Bool-cases (j == c)) [
  | inl e ↦ let same : j ≡ c = (==_iff j c).0 e in rw e (ap (bit (2 ^ c)) same ∙ bit-pow_self c)
  | inr e ↦ rw e (bit-pow_ne c j (λ same. ground arith))
]

bit-set : (w c j : ℕ) → bit (bit_or w (2 ^ c)) j ≡ (if j == c then 1 else bit w j)
bit-set w c j = rw (bit-bit_or j w (2 ^ c), bit-pow c j) (choose (bit w j) (omega arith) (j == c))
  where
    choose : (b : ℕ) → b < 2 → (t : Bool) → max b (if t then 1 else 0) ≡ (if t then 1 else b)
    choose b h true = omega arith
    choose b h false = omega arith

bit-clear :
    (w c j : ℕ)
    → c ≤ 31
    → j ≤ 31
    → bit (bit_and w (2 ^ 32 - 1 - 2 ^ c)) j ≡ (if j == c then 0 else bit w j)
bit-clear w c j h k =
    rw
      (
        bit-bit_and j w (2 ^ 32 - 1 - 2 ^ c),
        bit-complement 32 j (2 ^ c) (omega arith) (omega (arith, pow_mono c 31 h)),
        bit-pow c j,
      )
      (choose (bit w j) (omega arith) (j == c))
  where
    choose : (b : ℕ) → b < 2 → (t : Bool) → min b (1 - (if t then 1 else 0)) ≡ (if t then 0 else b)
    choose b h true = omega arith
    choose b h false = omega arith

-- The contact's new state in the set.
abbrev pub moved : TouchContactGuard → TouchFrame → ℕ → Bool
moved g f j = if j == f.contact_id then leaves f.phase else touching g j

phase_refines :
    (g : TouchContactGuard) (c j : ℕ)
    → c ≤ 31
    → j ≤ 31
    → (p : TouchPhase)
    → ((needs p (touching g c) ≡ true)
        × ((contact_phase g (2 ^ c) (touching g c) p).0 ≡ ok)
        × (touching (contact_phase g (2 ^ c) (touching g c) p).1 j
            ≡ (if j == c then leaves p else touching g j)))
      ⊎ ((needs p (touching g c) ≡ false)
          × (contact_phase g (2 ^ c) (touching g c) p ≡ (input_contact_invalid, g)))
unfolding contact_phase
phase_refines g c j h k start = ground (arith, bit-set g.active_contacts c j)
phase_refines g c j h k move = ground arith
phase_refines g c j h k end = ground (arith, bit-clear g.active_contacts c j)
phase_refines g c j h k cancel = ground (arith, bit-clear g.active_contacts c j)
phase_refines g c j h k (other v) = ground arith

-- The guard refines the set of contacts that touch. A frame of a contact up to 31 whose phase fits
-- the state of the contact (`start` while it does not touch, the others while it does) is taken,
-- and changes this contact only: it touches after `start` and `move`, not after `end` and `cancel`.
-- Any other frame is refused, and leaves the guard as it was.
pub accept_contact_refines :
    (g : TouchContactGuard) (f : TouchFrame) (j : ℕ)
    → j ≤ 31
    → ((f.contact_id ≤ 31)
        × (needs f.phase (touching g f.contact_id) ≡ true)
        × ((accept_contact g f).0 ≡ ok)
        × (touching (accept_contact g f).1 j ≡ moved g f j))
      ⊎ (((31 < f.contact_id) ⊎ (needs f.phase (touching g f.contact_id) ≡ false))
          × (accept_contact g f ≡ (input_contact_invalid, g)))
unfolding accept_contact
accept_contact_refines g f j h = elim (Bool-cases (ltb 31 f.contact_id)) [
  | inl high ↦ inr (inl (ltb→lt 31 f.contact_id high), rw high)
  | inr low ↦
      let c : f.contact_id ≤ 31 = ground arith in
      rw (low, mask-pow f.contact_id c, active-touching g.active_contacts f.contact_id)
        (elim (phase_refines g f.contact_id j c h f.phase) [
          | inl taken ↦ inl (c, taken.0, taken.1, taken.2)
          | inr refused ↦ inr (inr refused.0, refused.1)
        ])
]
