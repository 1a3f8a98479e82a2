-- ===== src/Main/Lives.antt =====
-- A concrete life of the whole process: a daemon for the user ntp, and a SIGTERM.
use jsntp_lcdd.Prelude.{◌≡◌, refl, inr, arith, true, some, List, [], ◌∷◌, ◌++◌}
use jsntp_lcdd.Prelude.Int.{pos}
use jsntp_lcdd.Prelude.Text.{codes}
use jsntp_lcdd.Lcd.Panel.{healthy}
use jsntp_lcdd.Locks.Defs.{new_lockable_ex}
use jsntp_lcdd.Locks.Tests.{word, seven_free}
use jsntp_lcdd.Ntp.Tests.{gps_lib}
use jsntp_lcdd.Daemon.Args.{user, no_options}
use jsntp_lcdd.Daemon.Settings.{Setting, background, apart, meant, written}
use jsntp_lcdd.Daemon.Groups.{user_groups}
use jsntp_lcdd.Daemon.Run.{Action, child, stop, Exit}
use jsntp_lcdd.Daemon.Privileges.{has, is_running, is_set_uid, Dropped}
use jsntp_lcdd.Daemon.Signals.{Daemon, sigterm, signalhandler-stops}
use jsntp_lcdd.Main.Run.{daemon_main}
use jsntp_lcdd.Main.Process.{System, main, main-stops}
use jsntp_lcdd.Main.Cases.{uninit, runs, at_second, no_ms, at_second-IsServed}

abbrev pi : System
pi = record {
  lookup = λ name. some (38, 38);
  fork = child;
  pid_opens = true;
  group_file = some (codes "i2c:x:44:amy,ntp\n");
}

abbrev settings : List Setting
settings = background ∷ apart user (codes "ntp") ∷ []

abbrev stopping : Daemon
stopping = record runs { runstatus = record { ex = new_lockable_ex; value = 2 } }

i2c_group : user_groups (codes "ntp") (codes "i2c:x:44:amy,ntp\n") ≡ some (44 ∷ [])
unfolding user_groups
i2c_group = refl

ids : (meant pi.lookup settings no_options).ids ≡ some (38, 38)
ids = refl

name : (meant pi.lookup settings no_options).username ≡ some (codes "ntp")
name = refl

main-stops_example :
    (log : List Action) × (main pi (written settings) (
        daemon_main healthy gps_lib no_ms 1 0 uninit (
          (at_second 1 ∷ at_second 2 ∷ [])
          ++ (record (at_second 3) { daemon = stopping } ∷ at_second 4 ∷ [])))
      ≡ some (stop (Exit.returned (pos 0)), log))
    × (has is_running log ≡ true)
    × (has (is_set_uid 38) log ≡ true)
    × Dropped 38 38 log
main-stops_example =
    main-stops healthy gps_lib no_ms 1 0 pi settings 38 38 (codes "ntp")
      (codes "i2c:x:44:amy,ntp\n") (44 ∷ []) word sigterm runs stopping [] uninit
      (at_second 1 ∷ at_second 2 ∷ []) (at_second 4 ∷ [])
      (record (at_second 3) { daemon = stopping }) (inr refl) ids (omega arith) name refl i2c_group
      (λ a b. refl) (inr refl) seven_free refl
      (signalhandler-stops word (λ a b. refl) 1 runs sigterm (inr refl) seven_free)
      (at_second-IsServed 1, (at_second-IsServed 2, tt)) refl
