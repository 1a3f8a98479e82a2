-- ===== src/Ntp/Poke.antt =====
-- The write one past `srchost` does not show in the peer that is read.
use jsntp_lcdd.Prelude.{ℕ, ◌≡◌, refl, sym, ap, ◌∙◌, List, take}
use jsntp_lcdd.Prelude.Text.{codes}
use jsntp_lcdd.Ntp.Interval.{Lfp, prettyinterval, since, poll_sec}
use jsntp_lcdd.Ntp.Peer.{
  Info, zero_info, with_var, with_var_or, read_srcadr, read_srchost, read_dstadr, read_hmode,
  read_refid, read_numbers, doreadpeer,
}
use jsntp_lcdd.Ntp.Info.{NtpLib, status_char}
use jsntp_lcdd.Ntp.Fields.{with_var_or-keeps}

-- A library in which the write one past `srchost` is not made.
abbrev pub without_poke : NtpLib → NtpLib
without_poke lib = record lib { poke = λ a. a }

srchost-poke :
    (lib : NtpLib) (reply : List ℕ) (p : Info lib)
    → lib.poke p.dstadr ≡ p.dstadr
    → with_var lib reply (codes "srchost") (read_srchost lib) p
      ≡ with_var (without_poke lib) reply (codes "srchost") (read_srchost (without_poke lib)) p
unfolding read_srchost
srchost-poke lib reply p h =
    ap
      (λ (a : lib.Addr).
        with_var lib reply (codes "srchost") (λ v q. record q { srchost = take 255 v; dstadr = a })
          p)
      h

srcadr-dstadr :
    (lib : NtpLib) (reply : List ℕ) (p : Info lib)
    → (with_var_or lib reply (codes "srcadr") (codes "peeradr") (read_srcadr lib) p).dstadr
      ≡ p.dstadr
unfolding read_srcadr
srcadr-dstadr lib reply p =
    with_var_or-keeps lib (λ q. q.dstadr ≡ p.dstadr) (read_srcadr lib) reply (codes "srcadr")
      (codes "peeradr") p (λ v q h e. e) refl

-- The variables behind `srchost`.
abbrev after_srchost : (lib : NtpLib) → List ℕ → Info lib → Info lib
after_srchost lib reply p = read_numbers lib reply (
    with_var lib reply (codes "refid") (read_refid lib) (
      with_var lib reply (codes "hmode") (read_hmode lib)
        (with_var lib reply (codes "dstadr") (read_dstadr lib) p)))

-- Where a zero byte over an address of zeros changes nothing, the byte written behind srchost
-- does not change the peer that is read.
pub doreadpeer-poke :
    (lib : NtpLib) (ts : Lfp) (rstatus : ℕ) (reply : List ℕ)
    → lib.poke lib.zero_addr ≡ lib.zero_addr
    → doreadpeer lib ts rstatus reply ≡ doreadpeer (without_poke lib) ts rstatus reply
unfolding doreadpeer
doreadpeer-poke lib ts rstatus reply h =
    let p0 = record (zero_info lib) { c = status_char rstatus } in
    let p1 = with_var_or lib reply (codes "srcadr") (codes "peeradr") (read_srcadr lib) p0 in
    let e = srcadr-dstadr lib reply p0 in
    ap
      (λ (p2 : Info lib).
        let p = after_srchost lib reply p2 in
        record p {
          whenbuf = prettyinterval 8 (since ts p.rec p.reftime);
          pollbuf = prettyinterval 8 (poll_sec lib.shift_overflow p.ppoll p.hpoll);
        })
      (srchost-poke lib reply p1 (ap lib.poke e ∙ h ∙ sym e))
