-- ===== src/Ntp/Info.antt =====
-- What the query library offers, and the peer that `ntpqmod_readpeer` fills.
use jsntp_lcdd.Prelude.{
  ℕ, ◌+◌, ◌/◌, ◌%◌, Bool, false, Option, List, if◌then◌else◌, ◌==◌, ltb, get_or,
}
use jsntp_lcdd.Prelude.Int.{ℤ, pos, negsuc}
use jsntp_lcdd.Prelude.Text.{codes}
use jsntp_lcdd.Ntp.Interval.{Lfp}

abbrev pub ntpq_buflen : ℕ
ntpq_buflen = 2048

abbrev pub lenhostname : ℕ
lenhostname = 256

abbrev pub ntp_minpoll : ℤ
ntp_minpoll = pos 3

-- `libntpq`, `libntp` and the socket addresses. `poke` writes a zero over the first byte of an
-- address; `ntop` is `inet_ntop` into a buffer of the given size, `none` when it fails.
pub record NtpLib : Type 1 where
  pub Addr : Type 0
  pub zero_addr : Addr
  pub poke : Addr → Addr
  pub is_mcast : Addr → Bool
  pub is_refclock : Addr → Bool
  pub is_unspec : Addr → Bool
  pub is_inet : Addr → Bool
  pub is_inet6 : Addr → Bool
  pub ntop4 : Addr → ℕ → Option (List ℕ)
  pub ntop6 : Addr → ℕ → Option (List ℕ)
  pub addr_size : ℕ
  pub getvar : (reply name : List ℕ) (maxlen : ℕ) → List ℕ
  pub decodenetnum : List ℕ → Addr → Bool × Addr
  pub decodeint : List ℕ → ℤ → Bool × ℤ
  pub decodeuint : List ℕ → ℕ → Bool × ℕ
  pub decodetime : List ℕ → Lfp → Bool × Lfp
  pub decodets : List ℕ → Lfp → Bool × Lfp
  pub shift_overflow : ℤ → ℤ

abbrev pub no_time : Lfp
no_time = record { l_ui = 0; l_uf = 0 }

-- `ntpqmod_peerinfo_t`; the character arrays without their final NUL.
pub record PeerInfo (Addr : Type 0) : Type 0 where
  pub c : ℕ
  pub srcadr : Addr
  pub srchost : List ℕ
  pub dstadr : Addr
  pub refid : List ℕ
  pub refidadr : Addr
  pub hmode : ℤ
  pub hmode_c : ℕ
  pub stratum : ℕ
  pub hpoll : ℤ
  pub ppoll : ℤ
  pub reach : ℕ
  pub estoffset : Lfp
  pub estdelay : Lfp
  pub estjitter : Lfp
  pub estdisp : Lfp
  pub reftime : Lfp
  pub rec : Lfp
  pub srcport : ℕ
  pub whenbuf : List ℕ
  pub pollbuf : List ℕ
  pub have_refid : ℕ
  pub have_jitter : ℕ

-- The rows of `switch (pinfo->hmode)`.
abbrev pub mode_bclient : ℤ
mode_bclient = pos 6

abbrev pub mode_broadcast : ℤ
mode_broadcast = pos 5

abbrev pub mode_client : ℤ
mode_client = pos 3

abbrev pub mode_active : ℤ
mode_active = pos 1

abbrev pub mode_passive : ℤ
mode_passive = pos 2

abbrev pub eq_ℤ : ℤ → ℤ → Bool
eq_ℤ (pos a) (pos b) = a == b
eq_ℤ (negsuc a) (negsuc b) = a == b
eq_ℤ _ _ = false

abbrev pub flash3 : List ℕ
flash3 = codes " x.-+#*o"

abbrev pub flash2 : List ℕ
flash2 = codes " .+*    "

abbrev pub ntp_oldversion : ℕ
ntp_oldversion = 1

-- The packet version is a constant, so the second table is never read.
unfoldable pub status_char : ℕ → ℕ
status_char rstatus =
    let pktversion : ℕ = ntp_oldversion + 1 in
    let statval : ℕ = rstatus / 256 % 256 in
    if ltb ntp_oldversion pktversion
    then get_or flash3 (statval % 8) 0
    else get_or flash2 (statval % 4) 0
