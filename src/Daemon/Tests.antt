-- ===== src/Daemon/Tests.antt =====
-- Concrete command lines, group files, and lives of the process.
use jsntp_lcdd.Prelude.{
  ◌^◌, ◌-◌, ℕ, arith, ◌≡◌, refl, inr, true, Option, none, some, List, [], ◌∷◌, ◌++◌,
}
use jsntp_lcdd.Prelude.Int.{pos, ◌+ℤ◌}
use jsntp_lcdd.Prelude.Text.{codes}
use jsntp_lcdd.Locks.Defs.{new_lockable_ex, get}
use jsntp_lcdd.Locks.Tests.{word, taken, taken_reached}
use jsntp_lcdd.Daemon.Args.{
  Text, pidfile, user, logfile, key_name, Options, no_options, parsed, parse,
}
use jsntp_lcdd.Daemon.Settings.{
  missing, Setting, background, apart, joined, written, meant, parse-written, parse_overrun,
}
use jsntp_lcdd.Daemon.Groups.{user_groups}
use jsntp_lcdd.Daemon.Members.{Line}
use jsntp_lcdd.Daemon.Written.{Group}
use jsntp_lcdd.Daemon.Run.{parent, child, World, run, daemon_main}
use jsntp_lcdd.Daemon.Privileges.{Dropped, run-Dropped, Kept, unknown_user-keeps}
use jsntp_lcdd.Daemon.Signals.{Daemon, new_daemon, sigterm, signalhandler, signalhandler-waits}

abbrev nobody : Text → Option (ℕ × ℕ)
nobody name = none

abbrev some_settings : List Setting
some_settings = background ∷ apart pidfile (codes "/run/a.pid") ∷ joined user (codes "ntp") ∷ []

parse_example :
    parse nobody (written some_settings) ≡ parsed (meant nobody some_settings no_options)
parse_example = parse-written nobody some_settings

overrun_example :
    parse nobody (written some_settings ++ key_name logfile ∷ [])
    ≡ missing nobody logfile (meant nobody some_settings no_options)
overrun_example = parse_overrun nobody some_settings logfile

abbrev i2c_line : Line
i2c_line = record {
  name = codes "i2c";
  password = codes "x";
  number = codes "44";
  members = codes "amy" ∷ codes "ntp" ∷ [];
}

abbrev i2c_group : Group
i2c_group = record {
  name = codes "i2c";
  password = codes "x";
  gid = 44;
  members = codes "amy" ∷ codes "ntp" ∷ [];
}

abbrev world : World
world = record {
  lookup = nobody;
  fork = parent 77;
  pid_opens = true;
  group_file = some (codes "i2c:x:44:amy,ntp\n");
  startup = some (pos 0);
  main = some (pos 0);
}

abbrev as_ntp : Options
as_ntp = record no_options { username = some (codes "ntp"); ids = some (38, 38) }

Dropped-example : Dropped 38 38 (run world as_ntp []).1
Dropped-example = run-Dropped world as_ntp 38 38 refl (omega arith)

ntp_groups : user_groups (codes "ntp") (codes "i2c:x:44:amy,ntp\n") ≡ some (44 ∷ [])
unfolding user_groups
ntp_groups = refl

abbrev as_daemon : Options
as_daemon = record no_options { is_daemon = true; pid_path = some (codes "/run/a.pid") }

abbrev service : List Setting
service = joined user (codes "ghost") ∷ apart logfile (codes "/var/log/a") ∷ background ∷ []

abbrev forked_world : World
forked_world = record world { fork = child }

unknown_user_example : Kept (pos 0) (daemon_main forked_world (written service) [])
unknown_user_example =
    unknown_user-keeps forked_world service (pos 0) (refl, tt) (inr refl) refl refl

abbrev interrupted : Daemon
interrupted = record new_daemon { runstatus = record { ex = taken.mem; value = 1 } }

waits_example : signalhandler word 1 sigterm (some interrupted) ≡ none
waits_example =
    signalhandler-waits word 1 interrupted sigterm taken (get 1 new_lockable_ex.tinfo +ℤ pos 1)
      (inr refl) taken_reached refl refl

abbrev as_large : Options
as_large = record no_options { username = some (codes "ntp"); ids = some (2 ^ 32 - 2, 38) }
