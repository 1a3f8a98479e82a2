-- ===== src/Main/Tests.antt =====
-- Concrete passes of the main loop, and concrete lines.
use jsntp_lcdd.Prelude.{◌*◌, ◌≤◌, ◌≡◌, refl, arith, some, [], ◌∷◌, List, length}
use jsntp_lcdd.Prelude.Text.{codes}
use jsntp_lcdd.I2c.{failed, done, open_bus, Call, Request, Answer}
use jsntp_lcdd.Lcd.Defs.{new_lcd, bus_open}
use jsntp_lcdd.Lcd.Panel.{healthy}
use jsntp_lcdd.Lcd.Opened.{attached}
use jsntp_lcdd.Locks.Defs.{lock_ex}
use jsntp_lcdd.Locks.Atomic.{load}
use jsntp_lcdd.Prelude.Decimal.{decimal}
use jsntp_lcdd.Locks.Tests.{seven_free}
use jsntp_lcdd.Ntp.Info.{NtpLib}
use jsntp_lcdd.Ntp.Tests.{gps_lib}
use jsntp_lcdd.Daemon.Signals.{get_run_status}
use jsntp_lcdd.Main.Lines.{Entry}
use jsntp_lcdd.Main.Lengths.{IsWide}
use jsntp_lcdd.Main.Peers.{Asked, entry, read_peer}
use jsntp_lcdd.Main.Console.{rows, rule}
use jsntp_lcdd.Main.Columns.{IsNarrow, rows-length}
use jsntp_lcdd.Main.Loop.{get_tick_count}
use jsntp_lcdd.Main.Run.{Loop, goes_on, smashed, turn, run, daemon_main}
use jsntp_lcdd.Main.Display.{Displays, last_turn, daemon_main-Displays}
use jsntp_lcdd.Main.Outages.{IsLit, daemon_main-goes_on, recovers}
use jsntp_lcdd.Main.Ending.{turn-smashed}
use jsntp_lcdd.Main.Cases.{
  woken, uninit, gps_peer, at_second, no_ms, at_second-IsServed, at_second-IsOrdinary,
}

display_example :
    (s : Loop) × (daemon_main healthy gps_lib no_ms 1 0 uninit
        (at_second 1 ∷ at_second 2 ∷ at_second 61 ∷ [])
      ≡ goes_on s)
    × Displays gps_lib woken (last_turn (at_second 1) (at_second 2 ∷ at_second 61 ∷ [])) s
display_example =
    daemon_main-Displays gps_lib no_ms 1 0 woken uninit (at_second 1)
      (at_second 2 ∷ at_second 61 ∷ [])
      (
        omega arith,
        omega arith,
        at_second-IsOrdinary 1,
        (
          omega arith,
          omega arith,
          at_second-IsOrdinary 2,
          (omega arith, omega arith, at_second-IsOrdinary 61, tt),
        ),
      )

-- A bus that can be opened and refuses everything else.
abbrev refusing : List Call → Request → Answer
refusing calls r = elim r [ open_bus path ↦ done 3 | _ ↦ failed 5 ]

goes_on_example :
    (s : Loop) × (daemon_main refusing gps_lib no_ms 1 0 uninit (at_second 1 ∷ at_second 2 ∷ [])
      ≡ goes_on s)
    × IsLit s
goes_on_example =
    daemon_main-goes_on refusing gps_lib no_ms 1 0 uninit (at_second 1 ∷ at_second 2 ∷ [])
      (at_second-IsServed 1, (at_second-IsServed 2, tt))

-- What the loop holds after its start on that bus, a minute later.
abbrev opened : Loop
opened = record {
  state = record {
    lcd = (bus_open refusing (codes "/dev/i2c-1") (new_lcd uninit)).1;
    timer2 = 0;
    timer3 = 0;
  };
  printed = [];
}

not_yet : daemon_main refusing gps_lib no_ms 1 0 uninit (at_second 0 ∷ []) ≡ goes_on opened
unfolding daemon_main run turn get_run_status get_tick_count load lock_ex
not_yet = refl

bus_is_open : opened.state.lcd.device.dev_fd ≡ some 3
unfolding bus_open
bus_is_open = refl

half : 250 ≤ get_tick_count 60 0
unfolding get_tick_count
half = omega arith

minute : 60000 ≤ get_tick_count 60 0
unfolding get_tick_count
minute = omega arith

recovers_example :
    (s' : Loop) × (turn attached gps_lib no_ms 1 0 (at_second 60) opened ≡ goes_on s')
    × Displays gps_lib woken (at_second 60) s'
recovers_example =
    recovers refusing gps_lib no_ms 1 0 woken uninit (at_second 0 ∷ []) (at_second 60) opened 3
      (at_second-IsServed 0, tt) not_yet bus_is_open (at_second-IsOrdinary 60) half minute

abbrev fresh : Loop
fresh = record { state = record { lcd = uninit; timer2 = 0; timer3 = 0 }; printed = [] }

second : 250 ≤ get_tick_count 1 0
unfolding get_tick_count
second = omega arith

-- A library whose peers are known by their addresses.
abbrev host_lib : NtpLib
host_lib = record gps_lib { getvar = λ reply name n. codes "10.0.0.1" }

host-IsWide : IsWide (entry host_lib (read_peer host_lib gps_peer))
unfolding read_peer entry
host-IsWide = record { some_status = ((λ e. cc), (λ e. cc)); by_address = refl; long = omega arith }

abbrev six : List Asked
six = gps_peer ∷ gps_peer ∷ gps_peer ∷ gps_peer ∷ gps_peer ∷ gps_peer ∷ []

smashed_example :
    turn healthy host_lib no_ms 1 0 (record (at_second 1) { asked = gps_peer ∷ six }) fresh
    ≡ smashed
smashed_example =
    turn-smashed healthy host_lib no_ms 1 0 gps_peer six
      (record (at_second 1) { asked = gps_peer ∷ six }) fresh refl host-IsWide
      (host-IsWide, (host-IsWide, (host-IsWide, (host-IsWide, (host-IsWide, (host-IsWide, tt))))))
      (omega arith) seven_free refl second

gps_peer-IsNarrow : IsNarrow gps_lib no_ms (read_peer gps_lib gps_peer)
unfolding read_peer decimal
gps_peer-IsNarrow = record {
  address = omega arith;
  refid = omega arith;
  stratum = omega arith;
  whenbuf = omega arith;
  pollbuf = omega arith;
  reach = omega arith;
  delay = omega arith;
  offset = omega arith;
  jitter = omega arith;
}

columns_example :
    length (rows gps_lib no_ms (read_peer gps_lib gps_peer ∷ []))
    ≡ length rule * length (read_peer gps_lib gps_peer ∷ [])
columns_example =
    rows-length gps_lib no_ms (read_peer gps_lib gps_peer ∷ []) (gps_peer-IsNarrow, tt)

abbrev peer : Entry
peer = record { c = b'*'; have_refid = 2; refid = []; address = codes "192.168.0.1" }

peer-IsWide : IsWide peer
peer-IsWide = record { some_status = (λ e. cc, λ e. cc); by_address = refl; long = omega arith }
