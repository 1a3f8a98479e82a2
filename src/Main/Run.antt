-- ===== src/Main/Run.antt =====
-- `daemon_main`: the loop over its turns, with the display, the terminal, the peers and the counts.
-- Each turn is given what the rest of the system answers in it.
use jsntp_lcdd.Prelude.{
  ℕ, ◌-◌, Option, none, some, List, [], ◌∷◌, ◌++◌, map, if◌then◌else◌, ◌==◌, leb,
}
use jsntp_lcdd.Prelude.Text.{codes}
use jsntp_lcdd.I2c.{Call, Request, Answer}
use jsntp_lcdd.Lcd.Defs.{Lcd, new_lcd, bus_open}
use jsntp_lcdd.Ntp.Interval.{Lfp}
use jsntp_lcdd.Ntp.Info.{NtpLib}
use jsntp_lcdd.Gps.Data.{Data, both_counts}
use jsntp_lcdd.Daemon.Signals.{Daemon, get_run_status}
use jsntp_lcdd.Main.Lines.{title, gps_line}
use jsntp_lcdd.Main.Peers.{Asked, read_peer, status_text}
use jsntp_lcdd.Main.Console.{top, rows, bottom}
use jsntp_lcdd.Main.Loop.{get_tick_count, State, Texts, refresh}

-- The daemon and the data of the receiver are as other threads leave them for the turn.
pub record Turn : Type 0 where
  pub daemon : Daemon
  pub tv_sec : ℕ
  pub tv_nsec : ℕ
  pub asked : List Asked
  pub clock : List ℕ  -- `strftime` of `now_tm`
  pub microsec : ℕ
  pub gps_printed : Data
  pub gps_shown : Data

pub record Loop : Type 0 where
  pub state : State
  pub printed : List ℕ

-- `hung`: a lock is never given; `smashed`: a buffer is written behind its end. What such a turn
-- has still drawn or printed is left out.
pub data Next : Type 0 where
  goes_on : Loop → Next
  returned : Loop → Next
  hung smashed : Next

abbrev pub continue_with : (Loop → Next) → Next → Next
continue_with f (goes_on s) = f s
continue_with f (returned s) = returned s
continue_with f hung = hung
continue_with f smashed = smashed

abbrev pub now : Turn → ℕ
now t = get_tick_count t.tv_sec t.tv_nsec

unfoldable pub texts_of : Turn → (status : List ℕ) → (counts : ℕ × ℕ) → (cols : ℕ) → Texts
texts_of t status (used, visible) cols = record {
  line0 = title cols;
  line1 = gps_line used visible;
  line2 = status;
  line3 = t.clock;
}

module _ (kernel : List Call → Request → Answer) (lib : NtpLib) (lfptoms : Lfp → ℕ → List ℕ)
    (self stale : ℕ) where
  -- `if(!pdaemon->isDaemon())`; `none` if the thread waits for the data.
  unfoldable pub printing : Turn → Option (List ℕ)
  unfolding top rows bottom read_peer both_counts
  printing t = if t.daemon.is_daemon then some [] else elim (both_counts self t.gps_printed) [
    | none ↦ none
    | some ((used, visible), _) ↦
        let table = rows lib lfptoms (map (read_peer lib) t.asked) in
        some (top ++ (table ++ bottom t.clock t.microsec used visible))
  ]

  -- The body of `if((curtcnt - timers[3]) >= 250)`.
  unfoldable pub redraw : Turn → Loop → Next
  unfolding printing status_text both_counts texts_of refresh
  redraw t s = elim (status_text lib t.asked) [
    | none ↦ smashed
    | some status ↦ elim (printing t) [
      | none ↦ hung
      | some out ↦ elim (both_counts self t.gps_shown) [
        | none ↦ hung
        | some (counts, _) ↦ goes_on (record {
          state = refresh kernel stale (now t) (texts_of t status counts) s.state;
          printed = s.printed ++ out;
        })
      ]
    ]
  ]

  -- One turn of the `while` loop; the `usleep` at its end shows in the clock of the next.
  unfoldable pub turn : Turn → Loop → Next
  unfolding redraw get_run_status get_tick_count
  turn t s = elim (get_run_status self t.daemon) [
    | none ↦ hung
    | some (status, _) ↦
        let drawn = redraw t s in
        let body = if leb 250 (now t - s.state.timer3) then drawn else goes_on s in
        if status == 1 then body else returned s
  ]

  unfoldable pub run : List Turn → Loop → Next
  unfolding turn
  run [] s = goes_on s
  run (t ∷ ts) s = continue_with (run ts) (turn t s)

  -- The result of `busOpen` is not looked at; `uninit` is the display before its constructor.
  unfoldable pub daemon_main : (uninit : Lcd) → List Turn → Next
  unfolding run bus_open
  daemon_main uninit ts =
      let l : Lcd = (bus_open kernel (codes "/dev/i2c-1") (new_lcd uninit)).1 in
      run ts (record { state = record { lcd = l; timer2 = 0; timer3 = 0 }; printed = [] })
