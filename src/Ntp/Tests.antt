-- ===== src/Ntp/Tests.antt =====
-- Concrete peers and intervals, with a query library whose replies are one value for every variable.
use jsntp_lcdd.Prelude.{
  ℕ, leb, ◌==◌, arith, ◌-◌, ◌^◌, ◌≡◌, refl, true, false, if◌then◌else◌, ltb, none, some, ◌++◌, [],
}
use jsntp_lcdd.Prelude.Int.{pos, negsuc}
use jsntp_lcdd.Prelude.Text.{codes}
use jsntp_lcdd.Prelude.Decimal.{decimal}
use jsntp_lcdd.Ntp.Interval.{
  Lfp, since, prettyinterval, Scale, suffix, Near, prettyinterval-Near, last_time, since_lem,
}
use jsntp_lcdd.Ntp.Peer.{doreadpeer, replied, ntpqmod_readpeer}
use jsntp_lcdd.Ntp.Info.{NtpLib, no_time}
use jsntp_lcdd.Ntp.Fields.{Documented, Readable, ntpqmod_readpeer-Readable}
use jsntp_lcdd.Ntp.Asked.{my_peervarlist, is_in, IsAnswer, address, dispersion, doreadpeer-asked}
use jsntp_lcdd.Ntp.Whole.{described, doreadpeer-described}

prettyinterval_example :
    (n : ℕ) × (s : Scale) × (prettyinterval 8 (pos 5000) ≡ decimal n ++ suffix s) × Near 5000 n s
prettyinterval_example = prettyinterval-Near 5000 (omega arith) (omega arith)

abbrev at_time : ℕ → Lfp
at_time n = record { l_ui = n; l_uf = 0 }

-- A packet from the future.
since_example : since (at_time 60) (at_time 100) no_time ≡ (
    if last_time (at_time 100) no_time == 0
    then pos 0
    else if leb (last_time (at_time 100) no_time) 60
    then (if ltb (60 - last_time (at_time 100) no_time) (2 ^ 31)
        then pos (60 - last_time (at_time 100) no_time)
        else negsuc (2 ^ 32 - (60 - last_time (at_time 100) no_time) - 1))
    else if leb (last_time (at_time 100) no_time - 60) (2 ^ 31)
    then negsuc (last_time (at_time 100) no_time - 60 - 1)
    else pos (2 ^ 32 - (last_time (at_time 100) no_time - 60)))
since_example =
    since_lem (at_time 60) (at_time 100) no_time (omega arith) (omega arith) (omega arith)

-- Addresses are numbers; 0 is the one of no family. Variables are `GPS`, and numbers do not decode.
abbrev pub gps_lib : NtpLib
gps_lib = record {
  Addr = ℕ;
  zero_addr = 0;
  poke = λ a. a;
  is_mcast = λ a. false;
  is_refclock = λ a. true;
  is_unspec = λ a. false;
  is_inet = λ a. true;
  is_inet6 = λ a. false;
  ntop4 = λ a n. if ltb 9 n then some (codes "127.0.0.1") else none;
  ntop6 = λ a n. none;
  addr_size = 28;
  getvar = λ reply name n. codes "GPS";
  decodenetnum = λ v old. (true, 1);
  decodeint = λ v old. (false, old);
  decodeuint = λ v old. (false, old);
  decodetime = λ v old. (true, no_time);
  decodets = λ v old. (true, no_time);
  shift_overflow = λ e. pos 0;
}

gps_lib_documented : Documented gps_lib
gps_lib_documented = record {
  ntop4_fits = λ a n t e. ground arith;
  ntop6_fits = λ a n t e. cc;
  small = omega arith;
  kept = λ v old e. refl;
}

readpeer_example :
    Readable gps_lib
      (ntpqmod_readpeer gps_lib no_time (replied 0x9600 (codes "refid=GPS"))).0
      (ntpqmod_readpeer gps_lib no_time (replied 0x9600 (codes "refid=GPS"))).1
readpeer_example =
    ntpqmod_readpeer-Readable gps_lib no_time (replied 0x9600 (codes "refid=GPS"))
      gps_lib_documented

described_example :
    doreadpeer gps_lib no_time 0x9600 (codes "refid=GPS")
    ≡ described gps_lib (codes "refid=GPS") no_time 0x9600
described_example = doreadpeer-described gps_lib (codes "refid=GPS") no_time 0x9600

-- A library that gives a value to what was asked for.
abbrev asked_lib : NtpLib
asked_lib = record gps_lib {
  getvar = λ reply name n. if is_in name my_peervarlist then codes "GPS" else [];
}

asked_lib-IsAnswer : IsAnswer asked_lib (codes "all")
asked_lib-IsAnswer name n e = rw e refl

asked_example :
    ((doreadpeer asked_lib no_time 0x9600 (codes "all")).dstadr ≡ asked_lib.zero_addr)
    × ((doreadpeer asked_lib no_time 0x9600 (codes "all")).srcadr ≡ address asked_lib (codes "all"))
    × ((doreadpeer asked_lib no_time 0x9600 (codes "all")).estdisp
        ≡ dispersion asked_lib (codes "all"))
asked_example = doreadpeer-asked asked_lib (codes "all") asked_lib-IsAnswer no_time 0x9600 refl
