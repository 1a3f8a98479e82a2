-- ===== src/Ntp/Asked.antt =====
-- `init_ntpq`, and the variables that `ntpqmod_readpeer` asks the server for.
use jsntp_lcdd.Prelude.{
  ℕ, ◌≡◌, refl, ap, ◌∙◌, Bool, false, ◌||◌, List, [], ◌∷◌, length, ltb, leb, if◌then◌else◌, inl,
  inr, Bool-cases, arith,
}
use jsntp_lcdd.Prelude.Int.{ℤ}
use jsntp_lcdd.Prelude.Text.{codes, str_eq}
use jsntp_lcdd.Ntp.Interval.{Lfp}
use jsntp_lcdd.Ntp.Info.{NtpLib, ntpq_buflen, no_time}
use jsntp_lcdd.Ntp.Peer.{Info, doreadpeer}
use jsntp_lcdd.Ntp.Reference.{var, var_or, var_srchost}
use jsntp_lcdd.Ntp.Whole.{doreadpeer-described}

pub data LibCall : Type 0 where
  ntpq_openhost : (host : List ℕ) → LibCall
  init_systime : LibCall

-- The calls, and the result; the answer of `ntpq_openhost` is not looked at.
unfoldable pub init_ntpq : (opened : ℤ) → List LibCall × ℕ
init_ntpq opened = (ntpq_openhost (codes "localhost") ∷ init_systime ∷ [], 1)

abbrev pub my_peervarlist : List (List ℕ)
my_peervarlist =
    codes "srcadr"
    ∷ codes "refid"
    ∷ codes "stratum"
    ∷ codes "hpoll"
    ∷ codes "ppoll"
    ∷ codes "reach"
    ∷ codes "delay"
    ∷ codes "offset"
    ∷ codes "jitter"
    ∷ codes "dispersion"
    ∷ codes "rec"
    ∷ codes "reftime"
    ∷ codes "srcport"
    ∷ codes "hmode"
    ∷ codes "srchost"
    ∷ []

abbrev pub is_in : List ℕ → List (List ℕ) → Bool
is_in name [] = false
is_in name (n ∷ ns) = str_eq n name || is_in name ns

-- A reply without the variables that were not asked for.
abbrev pub IsAnswer : NtpLib → List ℕ → Type 0
IsAnswer lib reply =
    (name : List ℕ) (n : ℕ) → is_in name my_peervarlist ≡ false → lib.getvar reply name n ≡ []

other_none :
    {B : Type 0} (v w : List ℕ) (f : List ℕ → B) (old : B)
    → w ≡ []
    → (if leb (length v) 0 then (if ltb 0 (length w) then f w else old) else f v)
      ≡ (if ltb 0 (length v) then f v else old)
other_none [] w f old e = ap (λ (u : List ℕ). if ltb 0 (length u) then f u else old) e
other_none (x ∷ v) w f old e = ground arith

module _ (lib : NtpLib) (reply : List ℕ) where
  abbrev pub address : lib.Addr
  address = var lib reply (codes "srcadr") (λ v. (lib.decodenetnum v lib.zero_addr).1) lib.zero_addr

  abbrev pub dispersion : Lfp
  dispersion = var lib reply (codes "dispersion") (λ v. (lib.decodetime v no_time).1) no_time

module _ (lib : NtpLib) (reply : List ℕ) (answer : IsAnswer lib reply) where
  var_none :
      {B : Type 0} (name : List ℕ) (f : List ℕ → B) (old : B)
      → is_in name my_peervarlist ≡ false
      → var lib reply name f old ≡ old
  var_none {B} name f old e =
      ap (λ (v : List ℕ). if ltb 0 (length v) then f v else old) (answer name ntpq_buflen e)

  var_or-first :
      {B : Type 0} (name other : List ℕ) (f : List ℕ → B) (old : B)
      → is_in other my_peervarlist ≡ false
      → var_or lib reply name other f old ≡ var lib reply name f old
  var_or-first name other f old e =
      other_none (lib.getvar reply name ntpq_buflen) (lib.getvar reply other ntpq_buflen) f old
        (answer other ntpq_buflen e)

  var_or-second :
      {B : Type 0} (name other : List ℕ) (f : List ℕ → B) (old : B)
      → is_in name my_peervarlist ≡ false
      → var_or lib reply name other f old ≡ var lib reply other f old
  var_or-second {B} name other f old e =
      ap (λ (v : List ℕ). if leb (length v) 0 then var lib reply other f old else f v)
        (answer name ntpq_buflen e)

  srchost_zero : lib.poke lib.zero_addr ≡ lib.zero_addr → (var_srchost lib reply).1 ≡ lib.zero_addr
  srchost_zero poked =
      elim (Bool-cases (ltb 0 (length (lib.getvar reply (codes "srchost") ntpq_buflen)))) [
        | inl e ↦ rw e poked
        | inr e ↦ rw e refl
      ]

  -- With a reply that has no variables but those that were asked for, and where a zero byte
  -- over an address of zeros changes nothing, the destination address of the peer that
  -- doreadpeer reads stays zero, its source address comes from srcadr alone and its dispersion
  -- from dispersion alone.
  pub doreadpeer-asked :
      (ts : Lfp) (rstatus : ℕ)
      → lib.poke lib.zero_addr ≡ lib.zero_addr
      → ((doreadpeer lib ts rstatus reply).dstadr ≡ lib.zero_addr)
        × ((doreadpeer lib ts rstatus reply).srcadr ≡ address lib reply)
        × ((doreadpeer lib ts rstatus reply).estdisp ≡ dispersion lib reply)
  unfolding str_eq
  doreadpeer-asked ts rstatus poked =
      let whole = doreadpeer-described lib reply ts rstatus in
      (
        ap (λ (p : Info lib). p.dstadr) whole
            ∙ var_none (codes "dstadr") (λ v. (lib.decodenetnum v (var_srchost lib reply).1).1)
                (var_srchost lib reply).1 refl
            ∙ srchost_zero poked,
        ap (λ (p : Info lib). p.srcadr) whole
            ∙ var_or-first (codes "srcadr") (codes "peeradr")
                (λ v. (lib.decodenetnum v lib.zero_addr).1) lib.zero_addr refl,
        ap (λ (p : Info lib). p.estdisp) whole
            ∙ var_or-second (codes "rootdisp") (codes "dispersion")
                (λ v. (lib.decodetime v no_time).1) no_time refl,
      )
