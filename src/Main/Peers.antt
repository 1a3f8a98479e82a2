-- ===== src/Main/Peers.antt =====
-- The loop of `daemon_main` over the associations: what it takes of each peer.
use jsntp_lcdd.Prelude.{ℕ, Option, none, some, List, [], map, if◌then◌else◌, ltb, length}
use jsntp_lcdd.Ntp.Interval.{Lfp}
use jsntp_lcdd.Ntp.Info.{NtpLib}
use jsntp_lcdd.Ntp.Peer.{Info, Query, print_refid, ntpqmod_readpeer}
use jsntp_lcdd.Main.Lines.{Entry, status_line}

-- One association: when it was asked for, and what the query gave.
pub record Asked : Type 0 where
  pub ts : Lfp
  pub query : Query

-- The sizes of `strstatus1` and of `strbuf`.
abbrev pub status_size : ℕ
status_size = 64

module _ (lib : NtpLib) where
  -- `straddrbuf` is emptied, and then printed into by the family of the address.
  abbrev pub address_text : Info lib → List ℕ
  address_text p = print_refid lib p.srcadr []

  unfoldable pub read_peer : Asked → Info lib
  unfolding ntpqmod_readpeer
  read_peer a = (ntpqmod_readpeer lib a.ts a.query).1

  unfoldable pub entry : Info lib → Entry
  entry p = record { c = p.c; have_refid = p.have_refid; refid = p.refid; address = address_text p }

  -- `strstatus1` after the loop; `none` if it was written behind its end.
  unfoldable pub status_text : List Asked → Option (List ℕ)
  unfolding read_peer entry status_line
  status_text asked =
      let line : List ℕ = status_line (map (λ a. entry (read_peer a)) asked) in
      if ltb (length line) status_size then some line else none
