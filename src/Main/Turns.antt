-- ===== src/Main/Turns.antt =====
-- What one turn of the main loop does when it can go on.
use jsntp_lcdd.Prelude.{
  ℕ, suc, Option-cases, ◌+◌, ◌-◌, ◌≤◌, ◌≡◌, ◌≢◌, inl, inr, refl, ap, true, none, some, List, [],
  ◌∷◌, ◌++◌, arith, length, map, leb, lt→ltb, ◌==◌,
}
use jsntp_lcdd.Prelude.Int.{pos}
use jsntp_lcdd.I2c.{Call, Request, Answer}
use jsntp_lcdd.Ntp.Interval.{Lfp}
use jsntp_lcdd.Ntp.Info.{NtpLib}
use jsntp_lcdd.Locks.Defs.{lock_ex}
use jsntp_lcdd.Locks.Atomic.{load}
use jsntp_lcdd.Locks.Operators.{locked-runs}
use jsntp_lcdd.Gps.Data.{Data, count_nonzero, both_counts}
use jsntp_lcdd.Gps.Reading.{both_counts_lem}
use jsntp_lcdd.Daemon.Signals.{Daemon, get_run_status}
use jsntp_lcdd.Main.Lines.{status_line}
use jsntp_lcdd.Main.Peers.{Asked, entry, read_peer, status_text}
use jsntp_lcdd.Main.Lengths.{status_line-length}
use jsntp_lcdd.Main.Loop.{refresh}
use jsntp_lcdd.Main.Run.{Turn, Loop, goes_on, now, texts_of, printing, redraw, turn}

-- A lock that a thread can take, and that it does not have more often released than taken.
pub record CanRead (self : ℕ) (d : Data) : Type 0 where
  pub free : lock_ex self d.ex ≢ none
  pub held : ℕ
  pub counted : d.ex.tinfo self ≡ pos held

abbrev pub counts_of : Data → ℕ × ℕ
counts_of d = (count_nonzero d.gpsdata.used, count_nonzero d.gpsdata.prn)

abbrev pub status_of : NtpLib → List Asked → List ℕ
status_of lib asked = status_line (map (λ a. entry lib (read_peer lib a)) asked)

-- A turn that finds the program running and its locks free, and has six peers at most.
pub record IsServed (self : ℕ) (t : Turn) : Type 0 where
  pub status_free : lock_ex self t.daemon.runstatus.ex ≢ none
  pub status_running : t.daemon.runstatus.value ≡ 1
  pub few : length t.asked ≤ 6
  pub printed : CanRead self t.gps_printed
  pub shown : CanRead self t.gps_shown

pub length-map : {A B : Type 0} (f : A → B) (xs : List A) → length (map f xs) ≡ length xs
length-map f [] = refl
length-map f (x ∷ xs) = ap suc (length-map f xs)

pub get_run_status_lem :
    (self : ℕ) (d : Daemon)
    → lock_ex self d.runstatus.ex ≢ none
    → get_run_status self d ≡ some (d.runstatus.value, d)
unfolding get_run_status load
get_run_status_lem self d h = rw (locked-runs self (λ v. (v, v)) d.runstatus h, get_run_status) refl

status_text_lem :
    (lib : NtpLib) (asked : List Asked)
    → length asked ≤ 6
    → status_text lib asked ≡ some (status_of lib asked)
unfolding status_text
status_text_lem lib asked h =
    let entries = map (λ a. entry lib (read_peer lib a)) asked in
    let fits =
      status_line-length entries
        (omega (arith, length-map (λ a. entry lib (read_peer lib a)) asked)) in
    rw (lt→ltb (length (status_line entries)) 64 fits) refl

both_counts_read :
    (self : ℕ) (d : Data) → CanRead self d → both_counts self d ≡ some (counts_of d, d)
both_counts_read self d c = both_counts_lem self c.held d c.free c.counted

module _ (kernel : List Call → Request → Answer) (lib : NtpLib) (lfptoms : Lfp → ℕ → List ℕ)
    (self stale : ℕ) where
  printing-some :
      (t : Turn) → CanRead self t.gps_printed → printing kernel lib lfptoms self stale t ≢ none
  unfolding printing
  printing-some t c = ground (arith, both_counts_read self t.gps_printed c)

  pub redraw_lem :
      (t : Turn) (s : Loop)
      → IsServed self t
      → (out : List ℕ) × (redraw kernel lib lfptoms self stale t s
          ≡ goes_on (record {
            state =
                refresh kernel stale
                  (now t)
                  (texts_of t (status_of lib t.asked) (counts_of t.gps_shown))
                  s.state;
            printed = s.printed ++ out;
          }))
  unfolding redraw
  redraw_lem t s o = elim (Option-cases (printing kernel lib lfptoms self stale t)) [
    | inl e ↦ absurd (printing-some t o.printed e)
    | inr (out, e) ↦ (
      out,
      rw (status_text_lem lib t.asked o.few, e, both_counts_read self t.gps_shown o.shown, redraw)
          refl,
    )
  ]

  pub turn-redraw :
      (t : Turn) (s : Loop)
      → lock_ex self t.daemon.runstatus.ex ≢ none
      → t.daemon.runstatus.value ≡ 1
      → s.state.timer3 + 250 ≤ now t
      → turn kernel lib lfptoms self stale t s ≡ redraw kernel lib lfptoms self stale t s
  unfolding turn
  turn-redraw t s free one late =
      let due : leb 250 (now t - s.state.timer3) ≡ true = ground arith in
      let runs : (t.daemon.runstatus.value == 1) ≡ true = ground arith in
      rw (get_run_status_lem self t.daemon free, due, runs, turn) refl
