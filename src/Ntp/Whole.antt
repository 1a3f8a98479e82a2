-- ===== src/Ntp/Whole.antt =====
-- The numbers and times of a peer, and the whole peer, field by field.
use jsntp_lcdd.Prelude.{
  ℕ, ◌≡◌, refl, ap, ◌∙◌, List, [], if◌then◌else◌, length, ◌==◌, leb, Bool-cases, inl, inr,
}
use jsntp_lcdd.Prelude.Int.{ℤ}
use jsntp_lcdd.Prelude.Text.{codes}
use jsntp_lcdd.Ntp.Interval.{Lfp, prettyinterval, since, poll_sec}
use jsntp_lcdd.Ntp.Info.{NtpLib, no_time, status_char}
use jsntp_lcdd.Ntp.Peer.{
  Info, zero_info, with_var, with_var_or, read_refid, read_stratum, poll_exponent, read_hpoll,
  read_ppoll, read_reach, read_delay, read_offset, read_jitter, read_disp, read_rec, read_srcport,
  read_reftime, read_addresses, read_numbers, doreadpeer,
}
use jsntp_lcdd.Ntp.Reference.{var, var_or, with_var_lem, with_var_or_lem, addresses, addresses_lem}

module _ (lib : NtpLib) (reply : List ℕ) (p : Info lib) where
  abbrev pub var_stratum : ℕ
  var_stratum = var lib reply (codes "stratum") (λ v. (lib.decodeuint v p.stratum).1) p.stratum

  abbrev pub var_hpoll : ℤ
  var_hpoll = var lib reply (codes "hpoll") (λ v. poll_exponent lib v p.hpoll) p.hpoll

  abbrev pub var_ppoll : ℤ
  var_ppoll = var lib reply (codes "ppoll") (λ v. poll_exponent lib v p.ppoll) p.ppoll

  abbrev pub var_reach : ℕ
  var_reach = var lib reply (codes "reach") (λ v. (lib.decodeuint v p.reach).1) p.reach

  abbrev pub var_delay : Lfp
  var_delay = var lib reply (codes "delay") (λ v. (lib.decodetime v p.estdelay).1) p.estdelay

  abbrev pub var_offset : Lfp
  var_offset = var lib reply (codes "offset") (λ v. (lib.decodetime v p.estoffset).1) p.estoffset

  abbrev pub var_jitter : Lfp × ℕ
  var_jitter =
      var lib reply (codes "jitter")
        (λ v. (
          (lib.decodetime v p.estjitter).1,
          if (lib.decodetime v p.estjitter).0 then 1 else p.have_jitter,
        ))
        (p.estjitter, p.have_jitter)

  abbrev pub var_rootdisp : Lfp
  var_rootdisp =
      var_or lib reply (codes "rootdisp") (codes "dispersion") (λ v. (lib.decodetime v p.estdisp).1)
        p.estdisp

  abbrev pub var_rec : Lfp
  var_rec = var lib reply (codes "rec") (λ v. (lib.decodets v p.rec).1) p.rec

  abbrev pub var_srcport : ℕ
  var_srcport = var lib reply (codes "srcport") (λ v. (lib.decodeuint v p.srcport).1) p.srcport

  abbrev pub var_reftime : Lfp
  var_reftime =
      var lib reply (codes "reftime")
        (λ v. if (lib.decodets v p.reftime).0 then (lib.decodets v p.reftime).1 else no_time)
        p.reftime

  abbrev pub numbers : Info lib
  numbers = record p {
    stratum = var_stratum;
    hpoll = var_hpoll;
    ppoll = var_ppoll;
    reach = var_reach;
    estdelay = var_delay;
    estoffset = var_offset;
    estjitter = var_jitter.0;
    have_jitter = var_jitter.1;
    estdisp = var_rootdisp;
    rec = var_rec;
    srcport = var_srcport;
    reftime = var_reftime;
  }

  numbers_lem : read_numbers lib reply p ≡ numbers
  unfolding read_numbers read_stratum read_hpoll read_ppoll read_reach read_delay read_offset
      read_jitter read_disp read_rec read_srcport read_reftime
  numbers_lem =
      let e1 =
        with_var_lem lib reply (codes "stratum") (read_stratum lib) (λ a. record p { stratum = a })
          (λ v. (lib.decodeuint v p.stratum).1) p.stratum p (λ v. refl) refl in
      let p1 : Info lib = record p { stratum = var_stratum } in
      let e2 =
        with_var_lem lib reply (codes "hpoll") (read_hpoll lib) (λ a. record p1 { hpoll = a })
          (λ v. poll_exponent lib v p.hpoll) p.hpoll p1 (λ v. refl) refl in
      let p2 : Info lib = record p1 { hpoll = var_hpoll } in
      let e3 =
        with_var_lem lib reply (codes "ppoll") (read_ppoll lib) (λ a. record p2 { ppoll = a })
          (λ v. poll_exponent lib v p.ppoll) p.ppoll p2 (λ v. refl) refl in
      let p3 : Info lib = record p2 { ppoll = var_ppoll } in
      let e4 =
        with_var_lem lib reply (codes "reach") (read_reach lib) (λ a. record p3 { reach = a })
          (λ v. (lib.decodeuint v p.reach).1) p.reach p3 (λ v. refl) refl in
      let p4 : Info lib = record p3 { reach = var_reach } in
      let e5 =
        with_var_lem lib reply (codes "delay") (read_delay lib) (λ a. record p4 { estdelay = a })
          (λ v. (lib.decodetime v p.estdelay).1) p.estdelay p4 (λ v. refl) refl in
      let p5 : Info lib = record p4 { estdelay = var_delay } in
      let e6 =
        with_var_lem lib reply (codes "offset") (read_offset lib) (λ a. record p5 { estoffset = a })
          (λ v. (lib.decodetime v p.estoffset).1) p.estoffset p5 (λ v. refl) refl in
      let p6 : Info lib = record p5 { estoffset = var_offset } in
      let e7 =
        with_var_lem lib reply (codes "jitter") (read_jitter lib)
          (λ (x : Lfp × ℕ). record p6 { estjitter = x.0; have_jitter = x.1 })
          (λ v. (
            (lib.decodetime v p.estjitter).1,
            if (lib.decodetime v p.estjitter).0 then 1 else p.have_jitter,
          ))
          (p.estjitter, p.have_jitter) p6 (λ v. refl) refl in
      let p7 : Info lib = record p6 { estjitter = var_jitter.0; have_jitter = var_jitter.1 } in
      let e8 =
        with_var_or_lem lib reply (codes "rootdisp") (codes "dispersion") (read_disp lib)
          (λ a. record p7 { estdisp = a }) (λ v. (lib.decodetime v p.estdisp).1) p.estdisp p7
          (λ v. refl) refl in
      let p8 : Info lib = record p7 { estdisp = var_rootdisp } in
      let e9 =
        with_var_lem lib reply (codes "rec") (read_rec lib) (λ a. record p8 { rec = a })
          (λ v. (lib.decodets v p.rec).1) p.rec p8 (λ v. refl) refl in
      let p9 : Info lib = record p8 { rec = var_rec } in
      let e10 =
        with_var_lem lib reply (codes "srcport") (read_srcport lib) (λ a. record p9 { srcport = a })
          (λ v. (lib.decodeuint v p.srcport).1) p.srcport p9 (λ v. refl) refl in
      let p10 : Info lib = record p9 { srcport = var_srcport } in
      let e11 =
        with_var_lem lib reply (codes "reftime") (read_reftime lib)
          (λ a. record p10 { reftime = a })
          (λ v. if (lib.decodets v p.reftime).0 then (lib.decodets v p.reftime).1 else no_time)
          p.reftime p10 (λ v. refl) refl in
      let p11 : Info lib = record p10 { reftime = var_reftime } in
      ap (with_var lib reply (codes "reftime") (read_reftime lib)) (
        ap (with_var lib reply (codes "srcport") (read_srcport lib)) (
          ap (with_var lib reply (codes "rec") (read_rec lib)) (
            ap (with_var_or lib reply (codes "rootdisp") (codes "dispersion") (read_disp lib)) (
              ap (with_var lib reply (codes "jitter") (read_jitter lib)) (
                ap (with_var lib reply (codes "offset") (read_offset lib)) (
                  ap (with_var lib reply (codes "delay") (read_delay lib)) (
                    ap (with_var lib reply (codes "reach") (read_reach lib)) (
                      ap (with_var lib reply (codes "ppoll") (read_ppoll lib))
                        (ap (with_var lib reply (codes "hpoll") (read_hpoll lib)) (e1) ∙ e2)
                      ∙ e3)
                    ∙ e4)
                  ∙ e5)
                ∙ e6)
              ∙ e7)
            ∙ e8)
          ∙ e9)
        ∙ e10)
      ∙ e11

module _ (lib : NtpLib) (reply : List ℕ) where
  -- What the variable `refid` makes of the address, the text and the kind.
  abbrev pub var_refid : lib.Addr × List ℕ × ℕ
  var_refid =
      var lib reply {B = lib.Addr × List ℕ × ℕ} (codes "refid")
        (λ v.
          let q : Info lib = read_refid lib v (zero_info lib) in
          (q.refidadr, q.refid, q.have_refid))
        (lib.zero_addr, [], 0)

  abbrev set_refid : Info lib → lib.Addr × List ℕ × ℕ → Info lib
  set_refid p x = record p { refidadr = x.0; refid = x.1; have_refid = x.2 }

  refid_set :
      (v : List ℕ) (p : Info lib)
      → let q : Info lib = read_refid lib v (zero_info lib) in
        read_refid lib v (set_refid p (lib.zero_addr, [], 0))
        ≡ set_refid p (q.refidadr, q.refid, q.have_refid)
  unfolding read_refid
  refid_set v p = elim (Bool-cases (length v == 0)) [
    | inl e ↦ rw e refl
    | inr e ↦ elim (Bool-cases (leb (length v) 4)) [
      | inl f ↦ rw (e, f) refl
      | inr f ↦ elim (Bool-cases (lib.decodenetnum v lib.zero_addr).0) [
        | inl g ↦ rw (e, f, g) refl
        | inr g ↦ rw (e, f, g) refl
      ]
    ]
  ]

  -- The peer that the reply describes, each field from its own variables.
  abbrev pub described : Lfp → (rstatus : ℕ) → Info lib
  described ts rstatus =
      let p = numbers lib reply (set_refid (addresses lib reply (status_char rstatus)) var_refid) in
      record p {
        whenbuf = prettyinterval 8 (since ts p.rec p.reftime);
        pollbuf = prettyinterval 8 (poll_sec lib.shift_overflow p.ppoll p.hpoll);
      }

  -- The peer that doreadpeer reads, one variable after the other into the same record, is the
  -- one whose every field comes from its own variables of the reply, or is zero without them.
  pub doreadpeer-described :
      (ts : Lfp) (rstatus : ℕ) → doreadpeer lib ts rstatus reply ≡ described ts rstatus
  unfolding doreadpeer read_addresses
  doreadpeer-described ts rstatus =
      let c : ℕ = status_char rstatus in
      let e5 =
        with_var_lem lib reply (codes "refid") (read_refid lib) (set_refid (addresses lib reply c))
          (λ v.
            let q : Info lib = read_refid lib v (zero_info lib) in
            (q.refidadr, q.refid, q.have_refid))
          (lib.zero_addr, [], 0) (addresses lib reply c) (λ v. refid_set v (addresses lib reply c))
          refl in
      let e =
        ap (with_var lib reply (codes "refid") (read_refid lib)) (addresses_lem lib reply c) ∙ e5 in
      ap
        (λ (p : Info lib). record p {
          whenbuf = prettyinterval 8 (since ts p.rec p.reftime);
          pollbuf = prettyinterval 8 (poll_sec lib.shift_overflow p.ppoll p.hpoll);
        })
        (ap (read_numbers lib reply) e
          ∙ numbers_lem lib reply (set_refid (addresses lib reply c) var_refid))
