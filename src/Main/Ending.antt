-- ===== src/Main/Ending.antt =====
-- How the main loop ends: a stop signal, a lock that is never given, a buffer that is too small.
use jsntp_lcdd.Prelude.{
  ℕ, ◌+◌, ◌≤◌, ◌≡◌, ◌≢◌, refl, false, none, some, List, [], ◌∷◌, ◌++◌, arith, length, map, ltb,
  ◌==◌, ap, ◌∙◌, sym,
}
use jsntp_lcdd.I2c.{Call, Request, Answer}
use jsntp_lcdd.Ntp.Interval.{Lfp}
use jsntp_lcdd.Ntp.Info.{NtpLib}
use jsntp_lcdd.Locks.Defs.{lock_ex}
use jsntp_lcdd.Locks.Atomic.{Arith}
use jsntp_lcdd.Daemon.Signals.{Daemon, Signal, Callback, IsStop, signalhandler, signalhandler-stops}
use jsntp_lcdd.Main.Peers.{Asked, entry, read_peer, status_text}
use jsntp_lcdd.Main.Lengths.{AreWide, IsWide, status_line-AreWide}
use jsntp_lcdd.Main.Run.{
  Turn, Loop, Next, goes_on, returned, hung, continue_with, smashed, now, redraw, turn, run,
}
use jsntp_lcdd.Main.Turns.{status_of, length-map, get_run_status_lem, turn-redraw}

continue_with-run :
    (f g : Loop → Next) (n : Next) (s : Loop) (r : Next)
    → continue_with f n ≡ goes_on s
    → ((x : Loop) → f x ≡ goes_on s → g x ≡ r)
    → continue_with g n ≡ r
continue_with-run f g (goes_on x) s r h k = k x h
continue_with-run f g (returned x) s r h k = cc
continue_with-run f g hung s r h k = cc
continue_with-run f g smashed s r h k = cc

-- The run status behind a stop signal that finds the program running.
status_after :
    (ops : Arith ℕ) (self : ℕ) (sig : Signal) (d d' : Daemon) (calls : List Callback)
    → ((a b : ℕ) → ops.eq a b ≡ (a == b))
    → IsStop sig
    → lock_ex self d.runstatus.ex ≢ none
    → d.runstatus.value ≡ 1
    → signalhandler ops self sig (some d) ≡ some (calls, some d')
    → (d'.runstatus.ex ≡ d.runstatus.ex) × (d'.runstatus.value ≡ 2)
status_after ops self sig d d' calls eq_is stop free one handled =
    ground (arith, signalhandler-stops ops eq_is self d sig stop free)

status_text-overflow :
    (lib : NtpLib) (asked : List Asked)
    → 64 ≤ length (status_of lib asked)
    → status_text lib asked ≡ none
unfolding status_text
status_text-overflow lib asked h =
    let over : ltb (length (status_of lib asked)) 64 ≡ false = ground arith in rw over refl

module _ (kernel : List Call → Request → Answer) (lib : NtpLib) (lfptoms : Lfp → ℕ → List ℕ)
    (self stale : ℕ) where
  -- Turns that all go on, and the others behind them.
  run-append :
      (ts us : List Turn) (s s' : Loop)
      → run kernel lib lfptoms self stale ts s ≡ goes_on s'
      → run kernel lib lfptoms self stale (ts ++ us) s ≡ run kernel lib lfptoms self stale us s'
  unfolding run
  run-append [] us s s' h = grind arith
  run-append (t ∷ ts) us s s' h =
      continue_with-run (run kernel lib lfptoms self stale ts)
        (run kernel lib lfptoms self stale (ts ++ us)) (turn kernel lib lfptoms self stale t s) s' _
        h (λ x. run-append ts us x s')

  turn-stopped :
      (t : Turn) (s : Loop)
      → lock_ex self t.daemon.runstatus.ex ≢ none
      → t.daemon.runstatus.value ≡ 2
      → turn kernel lib lfptoms self stale t s ≡ returned s
  unfolding turn
  turn-stopped t s free two =
      let ends : (t.daemon.runstatus.value == 1) ≡ false = ground arith in
      rw (get_run_status_lem self t.daemon free, ends, turn) refl

  -- A SIGINT or SIGTERM that finds the program running and its status lock free ends the main
  -- loop: after any turns that went on, the first turn that sees the daemon as the handler
  -- left it returns with nothing drawn, whatever turns would follow.
  pub run-stops :
      (ops : Arith ℕ) (sig : Signal) (d d' : Daemon) (calls : List Callback)
      (before after : List Turn) (t : Turn) (s s' : Loop)
      → ((a b : ℕ) → ops.eq a b ≡ (a == b))
      → IsStop sig
      → lock_ex self d.runstatus.ex ≢ none
      → d.runstatus.value ≡ 1
      → signalhandler ops self sig (some d) ≡ some (calls, some d')
      → run kernel lib lfptoms self stale before s ≡ goes_on s'
      → t.daemon ≡ d'
      → run kernel lib lfptoms self stale (before ++ (t ∷ after)) s ≡ returned s'
  unfolding run
  run-stops ops sig d d' calls before after t s s' eq_is stop free one handled went seen =
      let (same, two) = status_after ops self sig d d' calls eq_is stop free one handled in
      let still : t.daemon.runstatus.ex ≡ d.runstatus.ex =
        ap (λ (x : Daemon). x.runstatus.ex) seen ∙ same in
      let ends : turn kernel lib lfptoms self stale t s' ≡ returned s' =
        turn-stopped t s' (λ w. free (ap (lock_ex self) (sym still) ∙ w))
          (ap (λ (x : Daemon). x.runstatus.value) seen ∙ two) in
      run-append before (t ∷ after) s s' went ∙ rw (ends, run) refl

  -- A turn that is due in a running program and has seven peers or more, each with a character
  -- that is neither blank nor 0 and shown by eight characters of its address, writes behind
  -- the end of the status line.
  pub turn-smashed :
      (a : Asked) (as' : List Asked) (t : Turn) (s : Loop)
      → t.asked ≡ a ∷ as'
      → IsWide (entry lib (read_peer lib a))
      → AreWide (map (λ b. entry lib (read_peer lib b)) as')
      → 6 ≤ length as'
      → lock_ex self t.daemon.runstatus.ex ≢ none
      → t.daemon.runstatus.value ≡ 1
      → s.state.timer3 + 250 ≤ now t
      → turn kernel lib lfptoms self stale t s ≡ smashed
  unfolding redraw
  turn-smashed a as' t s asked wide wides many free one late =
      let long =
        status_line-AreWide (entry lib (read_peer lib a))
          (map (λ b. entry lib (read_peer lib b)) as') wide wides in
      let none_left : status_text lib (a ∷ as') ≡ none =
        status_text-overflow lib (a ∷ as')
          (omega (arith, long, length-map (λ b. entry lib (read_peer lib b)) as')) in
      turn-redraw kernel lib lfptoms self stale t s free one late
      ∙ rw (asked, none_left, redraw) refl
