-- ===== src/Ntp/Fields.antt =====
-- What the fields of a peer can hold after it was read.
use jsntp_lcdd.Prelude.{
  ℕ, zero, suc, ◌%◌, ◌/◌, ◌≤◌, ◌<◌, ◌≡◌, ◌↔◌, ◌⊎◌, refl, false, some, List, arith, ◌==◌, ltb, leb,
  ltb→lt, length, length-take, take, get_or, inl, inr, Bool-cases,
}
use jsntp_lcdd.Prelude.Int.{ℤ, pos, negsuc, ◌≤ℤ◌}
use jsntp_lcdd.Prelude.Text.{codes}
use jsntp_lcdd.Ntp.Interval.{Lfp, prettyinterval, since, poll_sec}
use jsntp_lcdd.Ntp.Peer.{
  Info, zero_info, with_var, with_var_or, print_refid, read_srcadr, read_srchost, read_dstadr,
  read_hmode, read_refid, read_stratum, poll_exponent, read_hpoll, read_ppoll, read_reach,
  read_delay, read_offset, read_jitter, read_disp, read_rec, read_srcport, read_reftime,
  read_addresses, read_numbers, doreadpeer, Query, refused, replied, ntpqmod_readpeer,
}
use jsntp_lcdd.Ntp.Info.{NtpLib, PeerInfo, flash3, status_char, ntpq_buflen}

-- Documented behaviour of the library: `inet_ntop` stays within its buffer, and a number that does
-- not decode leaves its target alone.
pub record Documented (lib : NtpLib) : Type 0 where
  pub ntop4_fits : (a : lib.Addr) (n : ℕ) (t : List ℕ) → lib.ntop4 a n ≡ some t → length t < n
  pub ntop6_fits : (a : lib.Addr) (n : ℕ) (t : List ℕ) → lib.ntop6 a n ≡ some t → length t < n
  pub small : lib.addr_size ≤ 128
  pub kept :
      (v : List ℕ) (old : ℤ) → (lib.decodeint v old).0 ≡ false → (lib.decodeint v old).1 ≡ old

module _ {A : Type 0} where
  -- Each string fits its array with its NUL, and the kinds and exponents are in range.
  pub record IsInfo (p : PeerInfo A) : Type 0 where
    pub host : length p.srchost < 256
    pub refid : length p.refid < 128
    pub kind : p.have_refid ≤ 2
    pub short : p.have_refid ≡ 1 → (0 < length p.refid) × (length p.refid ≤ 4)
    pub hpoll : pos 0 ≤ℤ p.hpoll
    pub ppoll : pos 0 ≤ℤ p.ppoll

leb-false : (n : ℕ) → leb n 0 ≡ false → 0 < n
leb-false n h = ground arith

module _ (lib : NtpLib) where
  with_var-keeps :
      (P : Info lib → Type 0) (use_it : List ℕ → Info lib → Info lib) (reply name : List ℕ)
      (p : Info lib)
      → ((v : List ℕ) (q : Info lib) → 0 < length v → P q → P (use_it v q))
      → P p
      → P (with_var lib reply name use_it p)
  with_var-keeps P use_it reply name p keep h =
      let v = lib.getvar reply name ntpq_buflen in
      elim (Bool-cases (ltb 0 (length v))) [
        | inl e ↦ rw e (keep v p (ltb→lt 0 (length v) e) h)
        | inr e ↦ rw e h
      ]

  pub with_var_or-keeps :
      (P : Info lib → Type 0) (use_it : List ℕ → Info lib → Info lib) (reply name other : List ℕ)
      (p : Info lib)
      → ((v : List ℕ) (q : Info lib) → 0 < length v → P q → P (use_it v q))
      → P p
      → P (with_var_or lib reply name other use_it p)
  with_var_or-keeps P use_it reply name other p keep h =
      let v = lib.getvar reply name ntpq_buflen in
      elim (Bool-cases (leb (length v) 0)) [
        | inl e ↦ rw e (with_var-keeps P use_it reply other p keep h)
        | inr e ↦ rw e (keep v p (leb-false (length v) e) h)
      ]

module _ {lib : NtpLib} (doc : Documented lib) where
  print_refid-fits :
      (a : lib.Addr) (old : List ℕ) → length old < 128 → length (print_refid lib a old) < 128
  print_refid-fits a old h = grind (arith, doc.ntop4_fits, doc.ntop6_fits, doc.small)

  read_srchost-IsInfo : (v : List ℕ) (p : Info lib) → IsInfo p → IsInfo (read_srchost lib v p)
  unfolding read_srchost
  read_srchost-IsInfo v p i = ground (arith, length-take 255 v)

  read_refid-IsInfo :
      (v : List ℕ) (p : Info lib) → 0 < length v → IsInfo p → IsInfo (read_refid lib v p)
  unfolding read_refid
  read_refid-IsInfo v p h i =
      ground (arith, print_refid-fits (lib.decodenetnum v p.refidadr).1 p.refid)

  poll_exponent-nonneg : (v : List ℕ) (old : ℤ) → pos 0 ≤ℤ old → pos 0 ≤ℤ poll_exponent lib v old
  unfolding poll_exponent
  poll_exponent-nonneg v old h = ground (arith, doc.kept v old)

  addresses-IsInfo :
      (reply : List ℕ) (p : Info lib) → IsInfo p → IsInfo (read_addresses lib reply p)
  unfolding read_addresses read_srcadr read_dstadr read_hmode
  addresses-IsInfo reply p i =
      let keeps = with_var-keeps lib IsInfo in
      keeps (read_refid lib) reply (codes "refid") _ read_refid-IsInfo (
        keeps (read_hmode lib) reply (codes "hmode") _ (λ v q h j. ground arith)
          (keeps (read_dstadr lib) reply (codes "dstadr") _ (λ v q h j. ground arith)
            (keeps (read_srchost lib) reply (codes "srchost") _
              (λ v q h j. read_srchost-IsInfo v q j)
              (with_var_or-keeps lib IsInfo (read_srcadr lib) reply (codes "srcadr")
                (codes "peeradr") p (λ v q h j. ground arith) i))))

  numbers-IsInfo : (reply : List ℕ) (p : Info lib) → IsInfo p → IsInfo (read_numbers lib reply p)
  unfolding read_numbers read_stratum read_hpoll read_ppoll read_reach read_delay read_offset
      read_jitter read_disp read_rec read_srcport read_reftime
  numbers-IsInfo reply p i =
      let keeps = with_var-keeps lib IsInfo in
      keeps (read_reftime lib) reply (codes "reftime") _ (λ v q h j. ground arith)
        (keeps (read_srcport lib) reply (codes "srcport") _ (λ v q h j. ground arith)
          (keeps (read_rec lib) reply (codes "rec") _ (λ v q h j. ground arith)
            (with_var_or-keeps lib IsInfo (read_disp lib) reply (codes "rootdisp")
              (codes "dispersion") _ (λ v q h j. ground arith)
              (keeps (read_jitter lib) reply (codes "jitter") _ (λ v q h j. ground arith)
                (keeps (read_offset lib) reply (codes "offset") _ (λ v q h j. ground arith)
                  (keeps (read_delay lib) reply (codes "delay") _ (λ v q h j. ground arith)
                    (keeps (read_reach lib) reply (codes "reach") _ (λ v q h j. ground arith)
                      (keeps (read_ppoll lib) reply (codes "ppoll") _
                        (λ v q h j. ground (arith, poll_exponent-nonneg v q.ppoll j.ppoll))
                        (keeps (read_hpoll lib) reply (codes "hpoll") _
                          (λ v q h j. ground (arith, poll_exponent-nonneg v q.hpoll j.hpoll))
                          (keeps (read_stratum lib) reply (codes "stratum") p
                            (λ v q h j. ground arith) i))))))))))

prettyinterval-fits : (diff : ℤ) → length (prettyinterval 8 diff) < 8
unfolding prettyinterval
prettyinterval-fits (negsuc n) = omega arith
prettyinterval-fits (pos diff) =
    let cut : (xs : List ℕ) → length (take 7 xs) < 8 = λ xs. omega (arith, length-take 7 xs) in
    grind (arith, cut)

flash-blank : (n : ℕ) → n < 8 → (get_or flash3 n 0 ≡ b' ') ↔ (n ≡ 0)
flash-blank zero h = (λ _. refl, λ _. refl)
flash-blank (suc zero) h = omega arith
flash-blank (suc (suc zero)) h = omega arith
flash-blank (suc (suc (suc zero))) h = omega arith
flash-blank (suc (suc (suc (suc zero)))) h = omega arith
flash-blank (suc (suc (suc (suc (suc zero))))) h = omega arith
flash-blank (suc (suc (suc (suc (suc (suc zero)))))) h = omega arith
flash-blank (suc (suc (suc (suc (suc (suc (suc zero))))))) h = omega arith
flash-blank (suc (suc (suc (suc (suc (suc (suc (suc n)))))))) h = absurd (omega arith)

-- The status character is a blank exactly when the three selection bits of the peer status are
-- 0.
pub status_char-blank : (rstatus : ℕ) → (status_char rstatus ≡ b' ') ↔ (rstatus / 256 % 8 ≡ 0)
unfolding status_char
status_char-blank rstatus =
    let (forth, back) = flash-blank (rstatus / 256 % 256 % 8) (omega arith) in
    (λ e. omega (arith, forth e), λ e. back (omega arith))

-- What a caller may rely on, whatever the query and the variables in the reply were.
pub record Readable (lib : NtpLib) (r : ℕ) (p : Info lib) : Type 0 where
  pub info : IsInfo p
  pub whenbuf : length p.whenbuf < 8
  pub pollbuf : length p.pollbuf < 8
  pub result : (r ≡ 0) ⊎ (r ≡ 1)
  pub zeroed : r ≡ 0 → p ≡ zero_info lib

start-IsInfo : (lib : NtpLib) (c : ℕ) → IsInfo (record (zero_info lib) { c = c })
start-IsInfo lib c = ground arith

nothing-Readable : (lib : NtpLib) → Readable lib 0 (zero_info lib)
nothing-Readable lib = record {
  info = ground arith;
  whenbuf = omega arith;
  pollbuf = omega arith;
  result = inl refl;
  zeroed = λ _. refl;
}

doreadpeer-Readable :
    (lib : NtpLib) (ts : Lfp) (rstatus : ℕ) (reply : List ℕ)
    → Documented lib
    → Readable lib 1 (doreadpeer lib ts rstatus reply)
unfolding doreadpeer
doreadpeer-Readable lib ts rstatus reply doc =
    let p0 = record (zero_info lib) { c = status_char rstatus } in
    let p = read_numbers lib reply (read_addresses lib reply p0) in
    let i =
      numbers-IsInfo doc reply (read_addresses lib reply p0)
        (addresses-IsInfo doc reply p0 (start-IsInfo lib (status_char rstatus))) in
    record {
      info = record {
        host = i.host;
        refid = i.refid;
        kind = i.kind;
        short = i.short;
        hpoll = i.hpoll;
        ppoll = i.ppoll;
      };
      whenbuf = prettyinterval-fits (since ts p.rec p.reftime);
      pollbuf = prettyinterval-fits (poll_sec lib.shift_overflow p.ppoll p.hpoll);
      result = inr refl;
      zeroed = λ e. absurd (omega arith);
    }

-- With a query library that behaves as documented, after ntpqmod_readpeer every string is
-- shorter than its array, the poll exponents are not negative, the refid kind fits the text,
-- and a result of 0 leaves all fields zero.
pub ntpqmod_readpeer-Readable :
    (lib : NtpLib) (ts : Lfp) (q : Query)
    → Documented lib
    → let (r, p) = ntpqmod_readpeer lib ts q in Readable lib r p
unfolding ntpqmod_readpeer
ntpqmod_readpeer-Readable lib ts (refused res) doc = nothing-Readable lib
ntpqmod_readpeer-Readable lib ts (replied rstatus reply) doc =
    elim (Bool-cases (length reply == 0)) [
      | inl e ↦ rw e (nothing-Readable lib)
      | inr e ↦ rw e (doreadpeer-Readable lib ts rstatus reply doc)
    ]
