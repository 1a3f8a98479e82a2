-- ===== src/Main/Cases.antt =====
-- A display, a library and turns for the runs of the main loop.
use jsntp_lcdd.Prelude.{ℕ, refl, arith, false, [], ◌∷◌, List, some}
use jsntp_lcdd.Prelude.Text.{codes}
use jsntp_lcdd.I2c.{new_device}
use jsntp_lcdd.Lcd.Defs.{Lcd}
use jsntp_lcdd.Lcd.Panel.{Panel}
use jsntp_lcdd.Locks.Defs.{new_lockable_ex}
use jsntp_lcdd.Prelude.Decimal.{decimal}
use jsntp_lcdd.Locks.Tests.{seven_free}
use jsntp_lcdd.Ntp.Interval.{Lfp}
use jsntp_lcdd.Ntp.Info.{no_time}
use jsntp_lcdd.Ntp.Peer.{replied}
use jsntp_lcdd.Ntp.Tests.{gps_lib}
use jsntp_lcdd.Gps.Data.{Data}
use jsntp_lcdd.Daemon.Signals.{Daemon, new_daemon}
use jsntp_lcdd.Main.Peers.{Asked, entry, read_peer}
use jsntp_lcdd.Main.Expected.{expected}
use jsntp_lcdd.Main.Shown.{AreBytes}
use jsntp_lcdd.Main.Run.{Turn}
use jsntp_lcdd.Main.Turns.{IsServed}
use jsntp_lcdd.Main.Display.{IsOrdinary}

-- A controller in 8-bit mode with anything in its memory.
abbrev pub woken : Panel
woken = record {
  lines = 4;
  chip = record {
    four_bit = false;
    pending = some 2;
    address = 5;
    ddram = λ a. a;
    shown = false;
    increment = false;
  };
}

abbrev pub uninit : Lcd
uninit = record {
  device = record new_device { dev_fd = some 3 };
  num_oflines = 9;
  num_ofcols = 9;
  displayfunction = 9;
  displaycontrol = 9;
  displaymode = 9;
  backlightval = 9;
}

abbrev pub runs : Daemon
runs = record new_daemon { runstatus = record { ex = new_lockable_ex; value = 1 } }

abbrev fix : Data
fix = record {
  ex = new_lockable_ex;
  gpsdata = record { used = 5 ∷ 0 ∷ 9 ∷ []; prn = 5 ∷ 7 ∷ 9 ∷ [] };
}

abbrev pub gps_peer : Asked
gps_peer = record { ts = no_time; query = replied 0x9600 (codes "refid=GPS") }

-- Turns a second apart and more.
abbrev pub at_second : ℕ → Turn
at_second n = record {
  daemon = runs;
  tv_sec = n;
  tv_nsec = 0;
  asked = gps_peer ∷ gps_peer ∷ [];
  clock = codes "2016-11-26 04:30:00";
  microsec = 12;
  gps_printed = fix;
  gps_shown = fix;
}

abbrev pub no_ms : Lfp → ℕ → List ℕ
no_ms t n = codes "0.000"

at_second-AreBytes : (n : ℕ) → AreBytes (expected gps_lib (at_second n))
unfolding read_peer entry decimal
at_second-AreBytes n = ground arith

pub at_second-IsServed : (n : ℕ) → IsServed 1 (at_second n)
at_second-IsServed n = record {
  status_free = seven_free;
  status_running = refl;
  few = omega arith;
  printed = record { free = seven_free; held = 0; counted = refl };
  shown = record { free = seven_free; held = 0; counted = refl };
}

pub at_second-IsOrdinary : (n : ℕ) → IsOrdinary gps_lib 1 (at_second n)
at_second-IsOrdinary n = record { served = at_second-IsServed n; bytes = at_second-AreBytes n }
