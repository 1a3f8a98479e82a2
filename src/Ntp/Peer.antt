-- ===== src/Ntp/Peer.antt =====
-- `ntpqmod_readpeer` and `doreadpeer`. What is printed to the console is left out.
use jsntp_lcdd.Prelude.{
  ℕ, ◌-◌, ◌&&◌, Option, none, some, List, [], if◌then◌else◌, ◌==◌, ltb, leb, length, take,
}
use jsntp_lcdd.Prelude.Int.{ℤ, pos, ltb_ℤ}
use jsntp_lcdd.Prelude.Text.{codes}
use jsntp_lcdd.Ntp.Interval.{Lfp, since, prettyinterval, poll_sec}
use jsntp_lcdd.Ntp.Info.{
  ntpq_buflen, lenhostname, ntp_minpoll, NtpLib, no_time, PeerInfo, mode_bclient, mode_broadcast,
  mode_client, mode_active, mode_passive, eq_ℤ, status_char,
}

-- What `ntpq_doquerylist` gives back.
pub data Query : Type 0 where
  refused : (res : ℕ) → Query  -- a result that is not 0
  replied : (rstatus : ℕ) (reply : List ℕ) → Query

module _ (lib : NtpLib) where
  open lib use {
    Addr, zero_addr, poke, is_mcast, is_refclock, is_unspec, is_inet, is_inet6, ntop4, ntop6,
    addr_size, getvar, decodenetnum, decodeint, decodeuint, decodetime, decodets, shift_overflow,
  }

  abbrev pub Info : Type 0
  Info = PeerInfo Addr

  -- `memset` to zero.
  abbrev pub zero_info : Info
  zero_info = record {
    c = 0;
    srcadr = zero_addr;
    srchost = [];
    dstadr = zero_addr;
    refid = [];
    refidadr = zero_addr;
    hmode = pos 0;
    hmode_c = 0;
    stratum = 0;
    hpoll = pos 0;
    ppoll = pos 0;
    reach = 0;
    estoffset = no_time;
    estdelay = no_time;
    estjitter = no_time;
    estdisp = no_time;
    reftime = no_time;
    rec = no_time;
    srcport = 0;
    whenbuf = [];
    pollbuf = [];
    have_refid = 0;
    have_jitter = 0;
  }

  -- `len = ntpq_getvar(...); if(len > 0) ...`.
  abbrev pub with_var : List ℕ → List ℕ → (List ℕ → Info → Info) → Info → Info
  with_var reply name use_it p =
      let v : List ℕ = getvar reply name ntpq_buflen in if ltb 0 (length v) then use_it v p else p

  -- The same with a second name, asked for when the first has no value.
  abbrev pub with_var_or : List ℕ → List ℕ → List ℕ → (List ℕ → Info → Info) → Info → Info
  with_var_or reply name other use_it p =
      let v : List ℕ = getvar reply name ntpq_buflen in
      if leb (length v) 0 then with_var reply other use_it p else use_it v p

  unfoldable pub read_srcadr : List ℕ → Info → Info
  read_srcadr v p = record p { srcadr = (decodenetnum v p.srcadr).1 }

  -- `srchost[LENHOSTNAME] = 0` is one past the array, where `dstadr` begins.
  unfoldable pub read_srchost : List ℕ → Info → Info
  read_srchost v p = record p { srchost = take (lenhostname - 1) v; dstadr = poke p.dstadr }

  unfoldable pub read_dstadr : List ℕ → Info → Info
  read_dstadr v p = record p { dstadr = (decodenetnum v p.dstadr).1 }

  unfoldable pub mode_char : ℤ → Addr → ℕ → ℕ
  mode_char hmode srcadr old =
      if eq_ℤ hmode mode_bclient
      then b'b'
      else if eq_ℤ hmode mode_broadcast
      then (if is_mcast srcadr then b'M' else b'B')
      else if eq_ℤ hmode mode_client
      then (if is_refclock srcadr
          then b'l'
          else if is_unspec srcadr
          then b'p'
          else if is_mcast srcadr
          then b'a'
          else b'u')
      else if eq_ℤ hmode mode_active
      then b's'
      else if eq_ℤ hmode mode_passive
      then b'S'
      else old

  unfoldable pub read_hmode : List ℕ → Info → Info
  unfolding mode_char
  read_hmode v p =
      let h : ℤ = (decodeint v p.hmode).1 in
      record p { hmode = h; hmode_c = mode_char h p.srcadr p.hmode_c }

  -- `inet_ntop` of the address into `refid`, by its family; both callers do the same.
  abbrev pub print_refid : Addr → List ℕ → List ℕ
  print_refid a old =
      let into = λ (o : Option (List ℕ)). elim o as (λ _. List ℕ) [ none ↦ old | some t ↦ t ] in
      if is_inet a
      then into (ntop4 a addr_size)
      else if is_inet6 a
      then into (ntop6 a addr_size)
      else old

  unfoldable pub read_refid : List ℕ → Info → Info
  read_refid v p =
      let (decoded, a) = decodenetnum v p.refidadr in
      if length v == 0
      then record p { refid = []; have_refid = 0 }
      else if leb (length v) 4
      then record p { refid = v; have_refid = 1 }
      else if decoded
      then record p {
        refidadr = a;
        refid =
            if is_unspec a
            then codes "0.0.0.0"
            else if is_refclock a
            then print_refid a p.refid
            else print_refid a p.refid;
        have_refid = 2;
      }
      else record p { refidadr = a; have_refid = 0 }

  unfoldable pub read_stratum : List ℕ → Info → Info
  read_stratum v p = record p { stratum = (decodeuint v p.stratum).1 }

  -- A negative poll exponent is replaced by `NTP_MINPOLL`.
  unfoldable pub poll_exponent : List ℕ → ℤ → ℤ
  poll_exponent v old =
      let (decoded, n) = decodeint v old in if decoded && ltb_ℤ n (pos 0) then ntp_minpoll else n

  unfoldable pub read_hpoll : List ℕ → Info → Info
  unfolding poll_exponent
  read_hpoll v p = record p { hpoll = poll_exponent v p.hpoll }

  unfoldable pub read_ppoll : List ℕ → Info → Info
  unfolding poll_exponent
  read_ppoll v p = record p { ppoll = poll_exponent v p.ppoll }

  unfoldable pub read_reach : List ℕ → Info → Info
  read_reach v p = record p { reach = (decodeuint v p.reach).1 }

  unfoldable pub read_delay : List ℕ → Info → Info
  read_delay v p = record p { estdelay = (decodetime v p.estdelay).1 }

  unfoldable pub read_offset : List ℕ → Info → Info
  read_offset v p = record p { estoffset = (decodetime v p.estoffset).1 }

  unfoldable pub read_jitter : List ℕ → Info → Info
  read_jitter v p =
      let (decoded, t) = decodetime v p.estjitter in
      record p { estjitter = t; have_jitter = if decoded then 1 else p.have_jitter }

  unfoldable pub read_disp : List ℕ → Info → Info
  read_disp v p = record p { estdisp = (decodetime v p.estdisp).1 }

  unfoldable pub read_rec : List ℕ → Info → Info
  read_rec v p = record p { rec = (decodets v p.rec).1 }

  unfoldable pub read_srcport : List ℕ → Info → Info
  read_srcport v p = record p { srcport = (decodeuint v p.srcport).1 }

  -- `L_CLR` when the time stamp does not decode.
  unfoldable pub read_reftime : List ℕ → Info → Info
  read_reftime v p =
      let (decoded, t) = decodets v p.reftime in
      record p { reftime = if decoded then t else no_time }

  -- The variables up to `refid`, in the order of the code.
  unfoldable pub read_addresses : List ℕ → Info → Info
  unfolding read_srcadr read_srchost read_dstadr read_hmode read_refid
  read_addresses reply p0 =
      let p1 = with_var_or reply (codes "srcadr") (codes "peeradr") read_srcadr p0 in
      let p2 = with_var reply (codes "srchost") read_srchost p1 in
      let p3 = with_var reply (codes "dstadr") read_dstadr p2 in
      let p4 = with_var reply (codes "hmode") read_hmode p3 in
      with_var reply (codes "refid") read_refid p4

  -- The numbers and times behind them.
  unfoldable pub read_numbers : List ℕ → Info → Info
  unfolding read_stratum read_hpoll read_ppoll read_reach read_delay read_offset read_jitter
      read_disp read_rec read_srcport read_reftime
  read_numbers reply p0 =
      let p1 = with_var reply (codes "stratum") read_stratum p0 in
      let p2 = with_var reply (codes "hpoll") read_hpoll p1 in
      let p3 = with_var reply (codes "ppoll") read_ppoll p2 in
      let p4 = with_var reply (codes "reach") read_reach p3 in
      let p5 = with_var reply (codes "delay") read_delay p4 in
      let p6 = with_var reply (codes "offset") read_offset p5 in
      let p7 = with_var reply (codes "jitter") read_jitter p6 in
      let p8 = with_var_or reply (codes "rootdisp") (codes "dispersion") read_disp p7 in
      let p9 = with_var reply (codes "rec") read_rec p8 in
      let p10 = with_var reply (codes "srcport") read_srcport p9 in
      with_var reply (codes "reftime") read_reftime p10

  unfoldable pub doreadpeer : (ts : Lfp) (rstatus : ℕ) (reply : List ℕ) → Info
  unfolding read_addresses read_numbers status_char since prettyinterval poll_sec
  doreadpeer ts rstatus reply =
      let p =
        read_numbers reply (read_addresses reply (record zero_info { c = status_char rstatus })) in
      record p {
        whenbuf = prettyinterval 8 (since ts p.rec p.reftime);
        pollbuf = prettyinterval 8 (poll_sec shift_overflow p.ppoll p.hpoll);
      }

  -- The result, 0 or 1, and what is in `*pinfo` then.
  unfoldable pub ntpqmod_readpeer : (ts : Lfp) → Query → ℕ × Info
  unfolding doreadpeer
  ntpqmod_readpeer ts (refused res) = (0, zero_info)
  ntpqmod_readpeer ts (replied rstatus reply) =
      if length reply == 0 then (0, zero_info) else (1, doreadpeer ts rstatus reply)
