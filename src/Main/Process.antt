-- ===== src/Main/Process.antt =====
-- main.cpp as a whole: `m_daemon` with `daemon_startup` and the main loop as its two functions.
use jsntp_lcdd.Prelude.{
  ℕ, ◌^◌, ◌<◌, ◌≡◌, ◌≢◌, ◌⊎◌, refl, ap, ◌∙◌, Bool, true, false, Option, none, some, List, [], ◌∷◌,
  ◌++◌, if◌then◌else◌, ◌==◌,
}
use jsntp_lcdd.Prelude.Int.{ℤ, pos}
use jsntp_lcdd.Prelude.Text.{codes}
use jsntp_lcdd.I2c.{Call, Request, Answer}
use jsntp_lcdd.Lcd.Defs.{Lcd, new_lcd, bus_open}
use jsntp_lcdd.Ntp.Interval.{Lfp}
use jsntp_lcdd.Ntp.Info.{NtpLib}
use jsntp_lcdd.Locks.Defs.{lock_ex}
use jsntp_lcdd.Locks.Atomic.{Arith}
use jsntp_lcdd.Daemon.Args.{Text, no_options}
use jsntp_lcdd.Daemon.Settings.{Setting, meant, written, parse-written}
use jsntp_lcdd.Daemon.Groups.{user_groups}
use jsntp_lcdd.Daemon.Run
use jsntp_lcdd.Daemon.Run.{Action, Fork, child, World, Flow, Exit, stop}
use jsntp_lcdd.Daemon.Privileges.{has, is_running, is_set_uid, Dropped, run-Dropped, run-serves}
use jsntp_lcdd.Daemon.Signals.{Daemon, Signal, Callback, IsStop, signalhandler}
use jsntp_lcdd.Main.Run.{Turn, Loop, Next, goes_on, returned, daemon_main}
use jsntp_lcdd.Main.Outages.{AreServed, daemon_main-goes_on}
use jsntp_lcdd.Main.Ending.{run-stops}

abbrev pub daemon_startup : ℤ
daemon_startup = pos 0

-- What the process finds around it.
pub record System : Type 0 where
  pub lookup : Text → Option (ℕ × ℕ)
  pub fork : Fork
  pub pid_opens : Bool
  pub group_file : Option Text

-- Both functions are set; the main loop returns 0 if it returns.
abbrev pub m_daemon : System → World
m_daemon w = record {
  lookup = w.lookup;
  fork = w.fork;
  pid_opens = w.pid_opens;
  group_file = w.group_file;
  startup = some daemon_startup;
  main = some (pos 0);
}

-- `main`, with what becomes of its main loop; `none` if it is in a loop that has not returned.
unfoldable pub main : System → List Text → Next → Option (Flow (Unit {0}) × List Action)
unfolding Run.daemon_main
main w args loop =
    let r = Run.daemon_main (m_daemon w) args [] in
    if has is_running r.1 then elim loop [ returned s ↦ some r | _ ↦ none ] else some r

either_way : {A : Type 0} (b : Bool) (x : A) → (if b then x else x) ≡ x
either_way true x = refl
either_way false x = refl

main-returned :
    (w : System) (args : List Text) (s : Loop) (loop : Next)
    → loop ≡ returned s
    → main w args loop ≡ some (Run.daemon_main (m_daemon w) args [])
unfolding main
main-returned w args s loop e = rw e (
    either_way (has is_running (Run.daemon_main (m_daemon w) args []).1)
      (some (Run.daemon_main (m_daemon w) args [])))

-- Well-written settings take the process to its phases.
run-written :
    (w : World) (ss : List Setting)
    → Run.daemon_main w (written ss) [] ≡ Run.run w (meant w.lookup ss no_options) []
unfolding Run.daemon_main
run-written w ss = rw (parse-written w.lookup ss, Run.daemon_main) refl

module _ (kernel : List Call → Request → Answer) (lib : NtpLib) (lfptoms : Lfp → ℕ → List ℕ)
    (self stale : ℕ) where
  -- The main loop from its start to a stop signal.
  daemon_main-stops :
      (ops : Arith ℕ) (sig : Signal) (d d' : Daemon) (calls : List Callback) (uninit : Lcd)
      (before after : List Turn) (t : Turn)
      → ((a b : ℕ) → ops.eq a b ≡ (a == b))
      → IsStop sig
      → lock_ex self d.runstatus.ex ≢ none
      → d.runstatus.value ≡ 1
      → signalhandler ops self sig (some d) ≡ some (calls, some d')
      → AreServed self before
      → t.daemon ≡ d'
      → (s : Loop) × (daemon_main kernel lib lfptoms self stale uninit (before ++ (t ∷ after))
          ≡ returned s)
        × (daemon_main kernel lib lfptoms self stale uninit before ≡ goes_on s)
  unfolding daemon_main bus_open
  daemon_main-stops ops sig d d' calls uninit before after t eq_is stops free one handled served
        seen =
      let (s, went, lit) = daemon_main-goes_on kernel lib lfptoms self stale uninit before served in
      let l : Lcd = (bus_open kernel (codes "/dev/i2c-1") (new_lcd uninit)).1 in
      (
        s,
        run-stops kernel lib lfptoms self stale ops sig d d' calls before after t
            (record { state = record { lcd = l; timer2 = 0; timer3 = 0 }; printed = [] }) s eq_is
            stops free one handled went seen,
        went,
      )

  -- Started with well-written settings, among them a user that is found and whose number is
  -- below 2^31, with a group file that opens and in which the groups are found, and either in
  -- the foreground or as the child of its fork, on any bus: after any turns that find the
  -- program running and their locks free and have six peers at most, a SIGINT or SIGTERM that
  -- finds the program running and the status lock free ends the process, where the run status
  -- is compared as a number. With the turn that sees the daemon as the handler left it, main
  -- returns 0, whatever turns would follow, and the process had reached its main loop, and
  -- before it had set its groups, its group and its user, in this order.
  pub main-stops :
      (w : System) (ss : List Setting) (uid gid : ℕ) (name file : Text) (groups : List ℕ)
      (ops : Arith ℕ) (sig : Signal) (d d' : Daemon) (calls : List Callback) (uninit : Lcd)
      (before after : List Turn) (t : Turn)
      → ((meant w.lookup ss no_options).is_daemon ≡ false) ⊎ (w.fork ≡ child)
      → (meant w.lookup ss no_options).ids ≡ some (uid, gid)
      → uid < 2 ^ 31
      → (meant w.lookup ss no_options).username ≡ some name
      → w.group_file ≡ some file
      → user_groups name file ≡ some groups
      → ((a b : ℕ) → ops.eq a b ≡ (a == b))
      → IsStop sig
      → lock_ex self d.runstatus.ex ≢ none
      → d.runstatus.value ≡ 1
      → signalhandler ops self sig (some d) ≡ some (calls, some d')
      → AreServed self before
      → t.daemon ≡ d'
      → (log : List Action) × (main w
            (written ss)
            (daemon_main kernel lib lfptoms self stale uninit (before ++ (t ∷ after)))
          ≡ some (stop (Exit.returned (pos 0)), log))
        × (has is_running log ≡ true)
        × (has (is_set_uid uid) log ≡ true)
        × Dropped uid gid log
  main-stops w ss uid gid name file groups ops sig d d' calls uninit before after t place ids small
        user_name readable found eq_is stops free one handled served seen =
      let (s, ended, went) =
        daemon_main-stops ops sig d d' calls uninit before after t eq_is stops free one handled
          served seen in
      let o = meant w.lookup ss no_options in
      let (exits, set, ran) =
        run-serves (m_daemon w) o uid gid name file groups (pos 0) place ids small user_name
          readable found refl refl in
      let flow = Run.run (m_daemon w) o [] in
      (
        flow.1,
        main-returned w (written ss) s _ ended
            ∙ ap some (run-written (m_daemon w) ss)
            ∙ ap (λ (e : Flow (Unit {0})). some (e, flow.1)) exits,
        ran,
        set,
        run-Dropped (m_daemon w) o uid gid ids small,
      )
