-- ===== src/Session/Foreground/Ending.antt =====
-- `run_foreground` from the start of a program to its end.
use pen_lvgl.Prelude.{
  ℕ, zero, suc, ◌≡◌, ◌≢◌, refl, inl, inr, Bool, Bool-cases, true, false, not, ◌&&◌, ◌||◌, Option,
  none, some, List, [], ◌∷◌, if◌then◌else◌, ◌==◌, arith, ap, sym, subst,
}
use pen_lvgl.Broker.{Directory}
use pen_lvgl.Session.Router.{TouchRouter}
use pen_lvgl.Session.Status.{SessionStatusDocument}
use pen_lvgl.Session.Status
use pen_lvgl.Session.Foreground.{failure, Program, Pass, Foreground, run_pass}
use pen_lvgl.Session.Foreground.Loop.{
  Start, Run, start_failure, failed_start, foreground_started, ready_deadline, foreground_loop,
  ended_result, end_program, behind_loop, behind_loop_if, run_started, run_foreground,
}
use pen_lvgl.Session.Foreground.Permitted.{IsPermitted, MayAct}
use pen_lvgl.Session.Foreground.Passes.{run_pass-IsPermitted}

-- The status as it stands before a program runs.
pub record IsStarting (status : SessionStatusDocument) : Type 0 where
  pub not_ready : Status.is_ready status.state ≡ false
  pub no_hole : status.hole_ready ≡ false
  pub no_input : status.input_ready ≡ false

-- Permitted, and a failure has a result.
pub record IsAccounted (program : Program) (f : Foreground) : Type 0 where
  pub acts : MayAct program f.is_ready f.outcome.app_id f.outcome.action
  pub silent : f.is_ready ≡ false → f.sent ≡ []
  pub shown :
      (Status.is_ready f.status.state ≡ f.is_ready)
      × (f.status.hole_ready ≡ f.is_ready)
      × (f.status.input_ready ≡ f.is_ready)
  pub resulted : f.outcome.action ≡ failure → f.outcome.result ≢ 0

module _ (program : Program) where
  -- A loop that was not stopped was left for one of its reasons.
  abbrev IsLeft : Bool × Foreground → Type 0
  IsLeft (stopped, f) =
      IsPermitted program f × (stopped ≡ false → (f.exited || f.requested || f.broken) ≡ true)

  ends_now :
      (stopped : Bool) (f : Foreground) (left : Bool × Foreground)
      → IsLeft (stopped, f)
      → ◌≡◌ {A = Option (Bool × Foreground)} (some (stopped, f)) (some left)
      → IsLeft left
  ends_now stopped f left h e =
      let same : ◌≡◌ {A = Bool × Foreground} (stopped, f) left = cc e in subst IsLeft same h

  loop_step :
      (out stop : Bool) (f : Foreground) (left : Bool × Foreground)
      (rest : Option (Bool × Foreground))
      → IsPermitted program f
      → (f.exited || f.requested || f.broken) ≡ out
      → (rest ≡ some left → IsLeft left)
      → (if out then some (false, f) else if stop then some (true, f) else rest) ≡ some left
      → IsLeft left
  loop_step true stop f left rest p o h e = ends_now false f left (p, λ n. o) e
  loop_step false true f left rest p o h e = ends_now true f left (p, λ n. absurd (cc n)) e
  loop_step false false f left rest p o h e = h e

  loop-IsLeft :
      (deadline : ℕ) (passes : List Pass) (f : Foreground) (left : Bool × Foreground)
      → IsPermitted program f
      → foreground_loop program deadline passes f ≡ some left
      → IsLeft left
  unfolding foreground_loop
  loop-IsLeft deadline [] f left p e =
      loop_step (f.exited || f.requested || f.broken) false f left none p refl (λ n. absurd (cc n))
        e
  loop-IsLeft deadline (pass ∷ passes) f left p e =
      loop_step (f.exited || f.requested || f.broken) pass.stop f left _ p refl
        (λ r.
          loop-IsLeft deadline passes (run_pass program deadline pass f) left
            (run_pass-IsPermitted program deadline pass f p) r)
        e

  end_program-ended :
      (left : ℕ) (attempts : List (Option ℕ)) (killed : ℕ) (f : Foreground)
      → (code : ℕ) × (end_program left attempts killed f ≡ ended_result code f)
  unfolding end_program
  end_program-ended zero attempts killed f = (killed, refl)
  end_program-ended (suc left) [] killed f = (killed, refl)
  end_program-ended (suc left) (none ∷ attempts) killed f = end_program-ended left attempts killed f
  end_program-ended (suc left) (some code ∷ attempts) killed f = (code, refl)

  abbrev pub with_result : ℕ → Foreground → Foreground
  with_result r f = record f { outcome = record f.outcome { result = r }; exited = true }

  with_result-IsAccounted :
      (r : ℕ) (f : Foreground)
      → IsPermitted program f
      → (f.outcome.action ≡ failure → r ≢ 0)
      → IsAccounted program (with_result r f)
  with_result-IsAccounted r f p h = record {
    acts = p.acts;
    silent = p.silent;
    shown = p.shown;
    resulted = h;
  }

  -- A failure has a result, unless the loop was stopped.
  abbrev IsResulted : Bool → Foreground → Type 0
  IsResulted stopped f = stopped ≡ false → f.outcome.action ≡ failure → f.outcome.result ≢ 0

  gives_result : (f : Foreground) (stopped : Bool) → IsLeft (stopped, f) → IsResulted stopped f
  gives_result f stopped (p, o) n a =
      let out : (f.exited || f.requested || f.broken) ≡ true = o n in
      p.failed (failing f.exited f.requested f.broken out (λ r. p.asked r a))
    where
      failing : (x r b : Bool) → (x || r || b) ≡ true → ¬ (r ≡ true) → (x || b) ≡ true
      failing true r b h k = refl
      failing false true b h k = absurd (k refl)
      failing false false b h k = h

  stop_result :
      (late : Bool) (r : ℕ) (f : Foreground)
      → IsPermitted program f
      → (late ≡ false → f.outcome.action ≡ failure → r ≢ 0)
      → IsAccounted program (if late && r == 0 then with_result 143 f else with_result r f)
  stop_result late r f p h = elim (Bool-cases (late && r == 0)) [
    | inl e ↦ rw e (with_result-IsAccounted 143 f p (λ a. omega arith))
    | inr e ↦ rw e (with_result-IsAccounted r f p (λ a z. h (ground (arith, e, z)) a z))
  ]

  abbrev pub stopped_late : Bool → Foreground → Foreground
  stopped_late late ended =
      if late && ended.outcome.result == 0
      then record ended { outcome = record ended.outcome { result = 143 } }
      else ended

  stopped_late-IsAccounted :
      (late : Bool) (r : ℕ) (f ended : Foreground)
      → IsPermitted program f
      → ended ≡ with_result r f
      → (late ≡ false → f.outcome.action ≡ failure → r ≢ 0)
      → IsAccounted program (stopped_late late ended)
  stopped_late-IsAccounted late r f ended p e h =
      subst (λ x. IsAccounted program (stopped_late late x)) (sym e) (stop_result late r f p h)

  -- The program's end changes a result of 0 only.
  pub ended-result :
      (run : Run) (f : Foreground) (x : Bool)
      → f.exited ≡ x
      → (r : ℕ) × ((if x then f else end_program 20 run.attempts run.killed_exit f)
          ≡ with_result r f)
        × (r ≡ 0 → f.outcome.result ≡ 0)
  unfolding ended_result
  ended-result run f true e = (f.outcome.result, ap (λ b. record f { exited = b }) e, λ z. z)
  ended-result run f false e =
      let (code, same) = end_program-ended 20 run.attempts run.killed_exit f in
      (
        if f.outcome.result == 0 && not f.requested then code else f.outcome.result,
        same,
        λ z. ground (arith, z),
      )

  -- `g_stop` too.
  behind_loop-IsAccounted :
      (run : Run) (left : Bool × Foreground)
      → IsLeft left
      → IsAccounted program (behind_loop run left)
  unfolding behind_loop
  behind_loop-IsAccounted run (stopped, f) l =
      let (r, same, zero_only) = ended-result run f f.exited refl in
      stopped_late-IsAccounted (stopped || run.stop_after) r f _ l.0 same
        (λ n a z. gives_result f stopped l (not_stopped stopped run.stop_after n) a (zero_only z))
    where
      not_stopped : (a b : Bool) → (a || b) ≡ false → a ≡ false
      not_stopped false b h = refl
      not_stopped true b h = h

foreground_started-IsPermitted :
    (program : Program) (status : SessionStatusDocument) (router : TouchRouter) (d : Directory)
    → IsStarting status
    → IsPermitted program (foreground_started status router d)
unfolding foreground_started
foreground_started-IsPermitted program status router d s = record {
  acts = tt;
  silent = λ e. refl;
  shown = (s.not_ready, s.no_hole, s.no_input);
  asked = λ e. absurd (cc e);
  failed = λ e. absurd (cc e);
}

start_failure-ne-zero :
    (program : Program) (start : Start) (r : ℕ) → start_failure program start ≡ some r → r ≢ 0
unfolding start_failure
start_failure-ne-zero program start r e z = ground arith

behind_loop_if-IsAccounted :
    (program : Program) (run : Run) (left : Option (Bool × Foreground)) (g : Foreground)
    → ((l : Bool × Foreground) → left ≡ some l → IsLeft program l)
    → behind_loop_if run left ≡ some g
    → IsAccounted program g
unfolding behind_loop_if
behind_loop_if-IsAccounted program run none g h e = absurd (cc e)
behind_loop_if-IsAccounted program run (some l) g h e =
    let same : behind_loop run l ≡ g = cc e in
    subst (IsAccounted program) same (behind_loop-IsAccounted program run l (h l refl))

run_started-IsAccounted :
    (program : Program) (run : Run) (start : Option ℕ) (f g : Foreground)
    → start_failure program run.start ≡ start
    → IsPermitted program f
    → run_started program run start f ≡ some g
    → IsAccounted program g
unfolding run_started failed_start
run_started-IsAccounted program run (some r) f g s p e =
    let failed : Foreground = record f { outcome = failed_start r } in
    let same : failed ≡ g = cc e in
    subst (IsAccounted program) same (record {
      acts = tt;
      silent = p.silent;
      shown = p.shown;
      resulted = λ a. start_failure-ne-zero program run.start r s;
    })
run_started-IsAccounted program run none f g s p e =
    behind_loop_if-IsAccounted program run _ g
      (λ l k. loop-IsLeft program (ready_deadline run.start_time) run.passes f l p k) e

-- However the calls of one run of a program end and whatever it sends, when the run ends: it ends
-- for a launch, for the desktop or for the session's end only if the program has reported itself
-- ready; only the desktop launches, and only a validly named program other than itself and the
-- platform; only another program goes to the desktop. No touch frame is sent to it before it is
-- ready, the status tells its readiness, and a failure has a result other than 0. Before the run the
-- status tells that nothing is ready.
pub run_foreground-IsAccounted :
    (program : Program) (run : Run) (status : SessionStatusDocument) (router : TouchRouter)
    (d : Directory) (f : Foreground)
    → IsStarting status
    → run_foreground program run status router d ≡ some f
    → IsAccounted program f
unfolding run_foreground
run_foreground-IsAccounted program run status router d f s e =
    run_started-IsAccounted program run (start_failure program run.start)
      (foreground_started status router d) f refl
      (foreground_started-IsPermitted program status router d s) e
