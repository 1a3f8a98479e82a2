-- ===== src/Main/Display.antt =====
-- What the turns of the main loop leave on the display, and how the loop ends.
use jsntp_lcdd.Prelude.{
  ℕ, ◌+◌, ◌*◌, ◌/◌, ◌≤◌, ◌<◌, ◌≡◌, ◌⊎◌, inl, inr, refl, sym, subst, ◌∙◌, true, List, [], ◌∷◌, ◌++◌,
  arith,
}
use jsntp_lcdd.Prelude.Text.{codes}
use jsntp_lcdd.Lcd.Defs.{Lcd, new_lcd, bus_open}
use jsntp_lcdd.Lcd.Panel.{Panel, healthy}
use jsntp_lcdd.Lcd.Wire.{IsLight}
use jsntp_lcdd.Ntp.Interval.{Lfp}
use jsntp_lcdd.Ntp.Info.{NtpLib}
use jsntp_lcdd.Main.Loop.{get_tick_count, Texts, is_due, refresh}
use jsntp_lcdd.Main.Run.{Turn, Loop, goes_on, now, texts_of, turn, run, daemon_main}
use jsntp_lcdd.Main.Turns.{IsServed, status_of, counts_of, redraw_lem, turn-redraw}
use jsntp_lcdd.Main.Expected.{expected, texts-expected}
use jsntp_lcdd.Main.Shown.{AreBytes, IsOn, Screen, refresh-Screen}

-- A turn that is served and has texts of bytes.
pub record IsOrdinary (lib : NtpLib) (self : ℕ) (t : Turn) : Type 0 where
  pub served : IsServed self t
  pub bytes : AreBytes (expected lib t)

-- The time of the monotonic clock in nanoseconds.
abbrev pub nanoseconds : Turn → ℕ
nanoseconds t = t.tv_sec * 1000000000 + t.tv_nsec

-- Each turn is ordinary, and begins after the `usleep` of the one before it.
abbrev pub Follows : NtpLib → (self before : ℕ) → List Turn → Type 0
Follows lib self before [] = Unit {0}
Follows lib self before (t ∷ ts) =
    (before + 250000000 ≤ nanoseconds t)
    × (t.tv_nsec < 1000000000)
    × IsOrdinary lib self t
    × Follows lib self (nanoseconds t) ts

abbrev pub last_turn : Turn → List Turn → Turn
last_turn t [] = t
last_turn t (u ∷ us) = last_turn u us

-- What the loop shows after a turn, where its start did not fail.
abbrev pub Displays : NtpLib → Panel → Turn → Loop → Type 0
Displays lib start t s = Screen start (expected lib t) s.state.lcd

sleep-due :
    (before : ℕ) (t : Turn)
    → before + 250000000 ≤ nanoseconds t
    → t.tv_nsec < 1000000000
    → before / 1000000 + 250 ≤ now t
unfolding get_tick_count
sleep-due before t h b = omega arith

now_lem : (t : Turn) → t.tv_nsec < 1000000000 → now t ≡ nanoseconds t / 1000000
unfolding get_tick_count
now_lem t b = omega arith

-- What a turn draws, with the time at which it did.
pub turn_refresh :
    (lib : NtpLib) (start : Panel) (stale : ℕ) {self : ℕ} (t : Turn) (s : Loop)
    → IsOrdinary lib self t
    → IsLight s.state.lcd.backlightval
    → (is_due (now t) s.state ≡ true) ⊎ IsOn start s.state.lcd
    → let texts = texts_of t (status_of lib t.asked) (counts_of t.gps_shown) in
      let s' = refresh healthy stale (now t) texts s.state in
      Screen start (expected lib t) s'.lcd × (s'.timer3 ≡ now t)
turn_refresh lib start stale t s o light ready =
    let texts = texts_of t (status_of lib t.asked) (counts_of t.gps_shown) in
    let e20 : texts 20 ≡ expected lib t = texts-expected lib t in
    let (screen, at, _) =
      refresh-Screen start stale (now t) texts s.state (subst AreBytes (sym e20) o.bytes) light
        ready in
    (
      subst (λ (x : Texts). Screen start x (refresh healthy stale (now t) texts s.state).lcd) e20
          screen,
      at,
    )

module _ (lib : NtpLib) (lfptoms : Lfp → ℕ → List ℕ) (self stale : ℕ) (start : Panel) where
  pub turn-Displays :
      (t : Turn) (s : Loop)
      → IsOrdinary lib self t
      → s.state.timer3 + 250 ≤ now t
      → IsLight s.state.lcd.backlightval
      → (is_due (now t) s.state ≡ true) ⊎ IsOn start s.state.lcd
      → (s' : Loop) × (turn healthy lib lfptoms self stale t s ≡ goes_on s')
        × Displays lib start t s'
        × (s'.state.timer3 ≡ now t)
  turn-Displays t s o late light ready =
      let (out, e) = redraw_lem healthy lib lfptoms self stale t s o.served in
      let texts = texts_of t (status_of lib t.asked) (counts_of t.gps_shown) in
      let (screen, at) = turn_refresh lib start stale t s o light ready in
      (
        record { state = refresh healthy stale (now t) texts s.state; printed = s.printed ++ out },
        turn-redraw healthy lib lfptoms self stale t s o.served.status_free o.served.status_running
              late
            ∙ e,
        screen,
        at,
      )

  run-Displays :
      (t : Turn) (ts : List Turn) (s : Loop) (before : ℕ)
      → Follows lib self before (t ∷ ts)
      → s.state.timer3 ≤ before / 1000000
      → IsLight s.state.lcd.backlightval
      → (is_due (now t) s.state ≡ true) ⊎ IsOn start s.state.lcd
      → (s' : Loop) × (run healthy lib lfptoms self stale (t ∷ ts) s ≡ goes_on s')
        × Displays lib start (last_turn t ts) s'
  unfolding run
  run-Displays t [] s before (slept, sane, o, rest) timer light ready =
      let late : s.state.timer3 + 250 ≤ now t = omega (arith, sleep-due before t slept sane) in
      let (s', e, screen, _) = turn-Displays t s o late light ready in
      (s', rw (e, run) refl, screen)
  run-Displays t (u ∷ us) s before (slept, sane, o, rest) timer light ready =
      let late : s.state.timer3 + 250 ≤ now t = omega (arith, sleep-due before t slept sane) in
      let (s', e, screen, at) = turn-Displays t s o late light ready in
      let (s'', e', screen') =
        run-Displays u us s' (nanoseconds t) rest (omega (arith, at, now_lem t sane))
          screen.on.running.ready.light (inr screen.on) in
      (s'', rw (e, run) e', screen')

  -- On a bus that carries every transfer: after any number of turns of the main loop, each
  -- begun 250 ms or more after the one before, which find the program running and their locks
  -- free and have six peers at most and texts of bytes, the loop goes on, and the display is
  -- switched on, with the backlight bit set, and shows JsNTP between equals signs, the numbers
  -- of used and visible satellites, the characters of the peers that have a status with their
  -- addresses or references, and the clock of the last turn.
  pub daemon_main-Displays :
      (uninit : Lcd) (t : Turn) (ts : List Turn)
      → Follows lib self 0 (t ∷ ts)
      → (s : Loop) × (daemon_main healthy lib lfptoms self stale uninit (t ∷ ts) ≡ goes_on s)
        × Displays lib start (last_turn t ts) s
  unfolding daemon_main bus_open
  daemon_main-Displays uninit t ts follows =
      let l = (bus_open healthy (codes "/dev/i2c-1") (new_lcd uninit)).1 in
      run-Displays t ts
        (record { state = record { lcd = l; timer2 = 0; timer3 = 0 }; printed = [] }) 0 follows
        (omega arith) (inl refl) (inl refl)
