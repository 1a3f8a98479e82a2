-- ===== src/Main/Outages.antt =====
-- The main loop on a bus that refuses calls, and after such a time.
use jsntp_lcdd.Prelude.{
  ℕ, ◌+◌, ◌-◌, ◌≤◌, ◌≡◌, refl, some, true, false, List, [], ◌∷◌, arith, leb, ◌==◌, Bool-cases, inl,
  inr, ◌∙◌, ◌++◌, subst, sym,
}
use jsntp_lcdd.Prelude.Text.{codes}
use jsntp_lcdd.I2c.{Call, Request, Answer}
use jsntp_lcdd.Lcd.Defs.{Lcd, new_lcd, bus_open, backlight, expander_write}
use jsntp_lcdd.Lcd.Panel.{Panel}
use jsntp_lcdd.Lcd.Opened.{attached}
use jsntp_lcdd.Lcd.Wire.{IsLight}
use jsntp_lcdd.Ntp.Interval.{Lfp}
use jsntp_lcdd.Ntp.Info.{NtpLib}
use jsntp_lcdd.Main.Shown.{Screen, draw-Steady}
use jsntp_lcdd.Main.Expected.{expected}
use jsntp_lcdd.Main.Attached.{refresh-attached}
use jsntp_lcdd.Main.Loop.{State, Texts, is_due, start_lcd, draw, refresh}
use jsntp_lcdd.Main.Run.{texts_of, Turn, Loop, goes_on, now, turn, run, daemon_main}
use jsntp_lcdd.Main.Turns.{
  IsServed, status_of, counts_of, get_run_status_lem, redraw_lem, turn-redraw,
}
use jsntp_lcdd.Main.Display.{IsOrdinary, Displays, turn_refresh}

abbrev pub AreServed : ℕ → List Turn → Type 0
AreServed self [] = Unit {0}
AreServed self (t ∷ ts) = IsServed self t × AreServed self ts

start_lcd-lit :
    (kernel : List Call → Request → Answer) (l : Lcd) → (start_lcd kernel l).1.backlightval ≡ 8
unfolding start_lcd backlight expander_write
start_lcd-lit kernel l = refl

drawn-IsLight :
    (kernel : List Call → Request → Answer) (stale : ℕ) (t : Texts) (l : Lcd)
    → IsLight l.backlightval
    → IsLight (draw kernel stale t l).1.backlightval
drawn-IsLight kernel stale t l h = subst IsLight (sym (draw-Steady kernel stale t l)) h

refresh-IsLight :
    (kernel : List Call → Request → Answer) (stale cur : ℕ) (t : ℕ → Texts) (s : State)
    → IsLight s.lcd.backlightval
    → IsLight (refresh kernel stale cur t s).lcd.backlightval
unfolding refresh
refresh-IsLight kernel stale cur t s h = elim (Bool-cases (is_due cur s)) [
  | inl due ↦
      let l : Lcd = (start_lcd kernel s.lcd).1 in
      rw due (drawn-IsLight kernel stale (t l.num_ofcols) l (inr (start_lcd-lit kernel s.lcd)))
  | inr early ↦ rw early (drawn-IsLight kernel stale (t s.lcd.num_ofcols) s.lcd h)
]

abbrev pub IsLit : Loop → Type 0
IsLit s = IsLight s.state.lcd.backlightval

module _ (kernel : List Call → Request → Answer) (lib : NtpLib) (lfptoms : Lfp → ℕ → List ℕ)
    (self stale : ℕ) where
  turn-early :
      (t : Turn) (s : Loop)
      → IsServed self t
      → leb 250 (now t - s.state.timer3) ≡ false
      → turn kernel lib lfptoms self stale t s ≡ goes_on s
  unfolding turn
  turn-early t s o early =
      let runs : (t.daemon.runstatus.value == 1) ≡ true = ground (arith, o.status_running) in
      rw (get_run_status_lem self t.daemon o.status_free, early, runs, turn) refl

  turn-goes_on :
      (t : Turn) (s : Loop)
      → IsServed self t
      → IsLit s
      → (s' : Loop) × (turn kernel lib lfptoms self stale t s ≡ goes_on s') × IsLit s'
  turn-goes_on t s o lit = elim (Bool-cases (leb 250 (now t - s.state.timer3))) [
    | inl late ↦
        let (out, e) = redraw_lem kernel lib lfptoms self stale t s o in
        let texts = texts_of t (status_of lib t.asked) (counts_of t.gps_shown) in
        (
          record { state = refresh kernel stale (now t) texts s.state; printed = s.printed ++ out },
          turn-redraw kernel lib lfptoms self stale t s o.status_free o.status_running
                (ground (arith, late))
              ∙ e,
          refresh-IsLight kernel stale (now t) texts s.state lit,
        )
    | inr early ↦ (s, turn-early t s o early, lit)
  ]

  run-goes_on :
      (ts : List Turn) (s : Loop)
      → AreServed self ts
      → IsLit s
      → (s' : Loop) × (run kernel lib lfptoms self stale ts s ≡ goes_on s') × IsLit s'
  unfolding run
  run-goes_on [] s o lit = (s, refl, lit)
  run-goes_on (t ∷ ts) s o lit =
      let (s1, e, lit1) = turn-goes_on t s o.0 lit in
      let (s2, f, lit2) = run-goes_on ts s1 o.1 lit1 in (s2, rw (e, run) f, lit2)

  -- Whatever the bus answers, also when it cannot be opened, turns that find the program
  -- running and their locks free and have six peers at most let the main loop go on, and leave
  -- the backlight bit 0 or 8.
  pub daemon_main-goes_on :
      (uninit : Lcd) (ts : List Turn)
      → AreServed self ts
      → (s : Loop) × (daemon_main kernel lib lfptoms self stale uninit ts ≡ goes_on s) × IsLit s
  unfolding daemon_main bus_open
  daemon_main-goes_on uninit ts o =
      let l = (bus_open kernel (codes "/dev/i2c-1") (new_lcd uninit)).1 in
      run-goes_on ts (record { state = record { lcd = l; timer2 = 0; timer3 = 0 }; printed = [] }) o
        (inl refl)

same_loop : (s s' : Loop) → goes_on s ≡ goes_on s' → s ≡ s'
same_loop s s' e = cc

-- After any turns that find the program running and their locks free and have six peers at
-- most, whatever the bus answered in them, and while the display has an open descriptor: the
-- first turn of this kind with texts of bytes that comes 250 ms or more after the last
-- refresh, 60 seconds or more after the last start of the display, and finds a bus that
-- carries every transfer of an open descriptor switches the display on, with the backlight bit
-- set, and shows its four texts, whatever state the controller is in.
pub recovers :
    (kernel : List Call → Request → Answer) (lib : NtpLib) (lfptoms : Lfp → ℕ → List ℕ)
    (self stale : ℕ) (start : Panel) (uninit : Lcd) (before : List Turn) (t : Turn) (s : Loop)
    (fd : ℕ)
    → AreServed self before
    → daemon_main kernel lib lfptoms self stale uninit before ≡ goes_on s
    → s.state.lcd.device.dev_fd ≡ some fd
    → IsOrdinary lib self t
    → s.state.timer3 + 250 ≤ now t
    → s.state.timer2 + 60000 ≤ now t
    → (s' : Loop) × (turn attached lib lfptoms self stale t s ≡ goes_on s')
      × Displays lib start t s'
recovers kernel lib lfptoms self stale start uninit before t s fd served went opened o late due =
    let (s1, e, lit) = daemon_main-goes_on kernel lib lfptoms self stale uninit before served in
    let light : IsLit s = subst IsLit (same_loop s1 s (sym e ∙ went)) lit in
    let start_due : is_due (now t) s.state ≡ true = ground (arith, due) in
    let texts = texts_of t (status_of lib t.asked) (counts_of t.gps_shown) in
    let (out, f) = redraw_lem attached lib lfptoms self stale t s o.served in
    (
      record { state = refresh attached stale (now t) texts s.state; printed = s.printed ++ out },
      turn-redraw attached lib lfptoms self stale t s o.served.status_free o.served.status_running
            late
          ∙ f,
      subst (λ (x : State). Screen start (expected lib t) x.lcd)
          (sym (refresh-attached fd stale (now t) texts s.state opened))
          (turn_refresh lib start stale t s o light (inl start_due)).0,
    )
