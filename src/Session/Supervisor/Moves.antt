-- ===== src/Session/Supervisor/Moves.antt =====
-- The session daemon as an abstract machine: the program in the foreground and the failures of the
-- desktop in a row.
use pen_lvgl.Prelude.{
  ℕ, ◌+◌, ◌<◌, ◌≡◌, ◌≢◌, refl, ap, sym, subst, ◌∙◌, Bool, true, false, not, List, leb,
  if◌then◌else◌, same_bytes, same_bytes_refl, same_bytes→eq, arith,
}
use pen_lvgl.Session.Ids.{desktop_id}
use pen_lvgl.Session.Foreground.{
  ForegroundAction, failure, exit_session, launch, home, Program, is_desktop,
}
use pen_lvgl.Session.Foreground.Permitted.{IsLaunchable, MayAct}
use pen_lvgl.Session.Supervisor.{
  Notice, Turn, Session, end_with, in_desktop, return_to_desktop, desktop_failed, follow_failure,
  follow_action, is_over,
}

-- What counts of a session: the program in the foreground with the failures of the desktop in a
-- row, or the result that ends it.
pub data View : Type 0 where
  runs : List ℕ → ℕ → View
  over : ℕ → View

abbrev pub view : Session → View
view s = if is_over s then over s.result else runs s.foreground s.desktop_failures

-- What follows when nothing is asked for: another program gives way to the desktop, the desktop is
-- tried three times in a row.
pub data Fall : View → View → Type 0 where
  returns : {n : ℕ} {id : List ℕ} → id ≢ desktop_id → Fall (runs id n) (runs desktop_id 0)
  keeps_count : {n : ℕ} {id : List ℕ} → id ≢ desktop_id → Fall (runs id n) (runs desktop_id n)
  retries : {n : ℕ} {id : List ℕ} → id ≡ desktop_id → n < 2 → Fall (runs id n) (runs id (n + 1))
  fails : {n : ℕ} {id : List ℕ} {result : ℕ} → result ≢ 0 → Fall (runs id n) (over result)

-- The desktop launches another program, another program goes home, any ends the session, or fails.
pub data Move : View → View → Type 0 where
  launches :
      {n : ℕ} {from id : List ℕ}
      → from ≡ desktop_id
      → IsLaunchable id
      → Move (runs from n) (runs id 0)
  goes_home : {n : ℕ} {id : List ℕ} → id ≢ desktop_id → Move (runs id n) (runs desktop_id 0)
  exits : {n : ℕ} {id : List ℕ} → Move (runs id n) (over 0)
  falls : {v w : View} → Fall v w → Move v w

-- Both branches of a test.
pub either :
    (P : Session → Type 0) (test : Bool) (a b : Session)
    → (test ≡ true → P a)
    → (test ≡ false → P b)
    → P (if test then a else b)
either P true a b p q = p refl
either P false a b p q = q refl

module _ (s : Session) (on : is_over s ≡ false) where
  abbrev pub From : Session → Type 0
  From after = Move (runs s.foreground s.desktop_failures) (view after)

  abbrev pub Falls : Session → Type 0
  Falls after = Fall (runs s.foreground s.desktop_failures) (view after)

  pub desktop_lem : in_desktop s ≡ true → s.foreground ≡ desktop_id
  unfolding in_desktop
  desktop_lem h = same_bytes→eq s.foreground desktop_id h

  pub other_lem : in_desktop s ≡ false → s.foreground ≢ desktop_id
  unfolding in_desktop
  other_lem h e = cc (h, ap (λ x. same_bytes x desktop_id) e, same_bytes_refl desktop_id)

  -- A session behind a turn, by its view.
  pub seen_as :
      (a : Session) (v : View) → view a ≡ v → Move (runs s.foreground s.desktop_failures) v → From a
  seen_as a v e m = subst (λ w. Move (runs s.foreground s.desktop_failures) w) (sym e) m

  pub fallen_as :
      (a : Session) (v : View)
      → view a ≡ v
      → Fall (runs s.foreground s.desktop_failures) v
      → Falls a
  fallen_as a v e m = subst (λ w. Fall (runs s.foreground s.desktop_failures) w) (sym e) m

  pub still_on :
      (a : Session)
      → a.broken ≡ s.broken
      → a.exit_requested ≡ s.exit_requested
      → view a ≡ runs a.foreground a.desktop_failures
  unfolding is_over
  still_on a b e = ground (arith, on)

  pub end_with-Fall : (r : ℕ) → r ≢ 0 → Falls (end_with r s)
  unfolding end_with is_over
  end_with-Fall r h = fails h

  pub broken-Fall : (a : Session) → a.broken ≡ true → a.result ≢ 0 → Falls a
  unfolding is_over
  broken-Fall a b h = rw b (fails h)

  pub return-Fall : (notice : Notice) → in_desktop s ≡ false → Falls (return_to_desktop notice s)
  unfolding return_to_desktop
  return-Fall notice h = fallen_as _ _ (still_on _ refl refl) (keeps_count (other_lem h))

  pub desktop_failed-Fall : (r : ℕ) → in_desktop s ≡ true → Falls (desktop_failed r s)
  unfolding desktop_failed
  desktop_failed-Fall r h =
      either Falls (leb 3 (s.desktop_failures + 1)) _ _
        (λ e. broken-Fall _ refl (λ z. ground (arith, z)))
        (λ e. fallen_as _ _ (still_on _ refl refl) (retries (desktop_lem h) (ground (arith, e))))

  pub follow_failure-Fall : (turn : Turn) (r : ℕ) → Falls (follow_failure turn r s)
  unfolding follow_failure return_to_desktop
  follow_failure-Fall turn r =
      either Falls (not (in_desktop s)) _ _
        (λ e. fallen_as _ _ (still_on _ refl refl) (returns (other_lem (ground (arith, e)))))
        (λ e. desktop_failed-Fall r (ground (arith, e)))

  exit-Move : (a : Session) → a.exit_requested ≡ true → a.result ≡ 0 → From a
  unfolding is_over
  exit-Move a x r = seen_as a (over 0) (ground arith) exits

  is_desktop-in :
      (program : Program) → program.program_id ≡ s.foreground → in_desktop s ≡ is_desktop program
  unfolding in_desktop is_desktop
  is_desktop-in program same = rw same refl

  pub follow_action-Move :
      (turn : Turn) (action : ForegroundAction) (id : List ℕ) (result : ℕ) (program : Program)
      (ready : Bool)
      → program.program_id ≡ s.foreground
      → MayAct program ready id action
      → From (follow_action turn (record { action = action; app_id = id; result = result }) s)
  unfolding follow_action
  follow_action-Move turn failure id result program ready same a =
      falls (follow_failure-Fall turn result)
  follow_action-Move turn exit_session id result program ready same a = exit-Move _ refl refl
  follow_action-Move turn launch id result program ready same (r, d, l) =
      seen_as _ _ (still_on _ refl refl) (launches (desktop_lem (is_desktop-in program same ∙ d)) l)
  follow_action-Move turn home id result program ready same (r, d) =
      seen_as _ _ (still_on _ refl refl) (goes_home (other_lem (is_desktop-in program same ∙ d)))
