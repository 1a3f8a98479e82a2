-- ===== src/Ntp/Reference.antt =====
-- A peer field by field: each is what its own variable of the reply stands for.
use jsntp_lcdd.Prelude.{
  ℕ, ◌-◌, ◌≡◌, refl, ap, ◌∙◌, List, [], if◌then◌else◌, ltb, leb, length, take, Bool-cases, inl, inr,
}
use jsntp_lcdd.Prelude.Int.{ℤ, pos}
use jsntp_lcdd.Prelude.Text.{codes}
use jsntp_lcdd.Ntp.Info.{NtpLib, ntpq_buflen, lenhostname}
use jsntp_lcdd.Ntp.Peer.{
  Info, zero_info, with_var, with_var_or, read_srcadr, read_srchost, read_dstadr, mode_char,
  read_hmode,
}

module _ (lib : NtpLib) (reply : List ℕ) where
  -- The meaning of a variable, or a default when it has no value.
  abbrev pub var : {B : Type 0} → List ℕ → (List ℕ → B) → B → B
  var name f old =
      let v : List ℕ = lib.getvar reply name ntpq_buflen in if ltb 0 (length v) then f v else old

  abbrev pub var_or : {B : Type 0} → List ℕ → List ℕ → (List ℕ → B) → B → B
  var_or name other f old =
      let v : List ℕ = lib.getvar reply name ntpq_buflen in
      if leb (length v) 0 then var other f old else f v

  -- Where `use_it` makes of `p` what `set` makes of a value.
  pub with_var_lem :
      {B : Type 0} (name : List ℕ) (use_it : List ℕ → Info lib → Info lib) (set : B → Info lib)
      (f : List ℕ → B) (old : B) (p : Info lib)
      → ((v : List ℕ) → use_it v p ≡ set (f v))
      → p ≡ set old
      → with_var lib reply name use_it p ≡ set (var name f old)
  with_var_lem name use_it set f old p used kept =
      let v : List ℕ = lib.getvar reply name ntpq_buflen in
      elim (Bool-cases (ltb 0 (length v))) [ inl e ↦ rw e (used v) | inr e ↦ rw e kept ]

  pub with_var_or_lem :
      {B : Type 0} (name other : List ℕ) (use_it : List ℕ → Info lib → Info lib)
      (set : B → Info lib) (f : List ℕ → B) (old : B) (p : Info lib)
      → ((v : List ℕ) → use_it v p ≡ set (f v))
      → p ≡ set old
      → with_var_or lib reply name other use_it p ≡ set (var_or name other f old)
  with_var_or_lem name other use_it set f old p used kept =
      let v : List ℕ = lib.getvar reply name ntpq_buflen in
      elim (Bool-cases (leb (length v) 0)) [
        | inl e ↦ rw e (with_var_lem other use_it set f old p used kept)
        | inr e ↦ rw e (used v)
      ]

  abbrev pub var_srcadr : lib.Addr
  var_srcadr =
      var_or (codes "srcadr") (codes "peeradr") (λ v. (lib.decodenetnum v lib.zero_addr).1)
        lib.zero_addr

  abbrev pub var_srchost : List ℕ × lib.Addr
  var_srchost =
      var (codes "srchost") (λ v. (take (lenhostname - 1) v, lib.poke lib.zero_addr))
        ([], lib.zero_addr)

  abbrev pub var_dstadr : lib.Addr
  var_dstadr = var (codes "dstadr") (λ v. (lib.decodenetnum v var_srchost.1).1) var_srchost.1

  abbrev pub var_hmode : ℤ × ℕ
  var_hmode =
      var (codes "hmode")
        (λ v. ((lib.decodeint v (pos 0)).1, mode_char lib (lib.decodeint v (pos 0)).1 var_srcadr 0))
        (pos 0, 0)

  abbrev pub addresses : ℕ → Info lib
  addresses c = record (zero_info lib) {
    c = c;
    srcadr = var_srcadr;
    srchost = var_srchost.0;
    dstadr = var_dstadr;
    hmode = var_hmode.0;
    hmode_c = var_hmode.1;
  }

  pub addresses_lem :
      (c : ℕ)
      → with_var lib reply (codes "hmode") (read_hmode lib) (
          with_var lib reply (codes "dstadr") (read_dstadr lib) (
            with_var lib reply (codes "srchost") (read_srchost lib) (
              with_var_or lib reply
                (codes "srcadr")
                (codes "peeradr")
                (read_srcadr lib)
                (record (zero_info lib) { c = c }))))
        ≡ addresses c
  unfolding read_srcadr read_srchost read_dstadr read_hmode
  addresses_lem c =
      let p0 : Info lib = record (zero_info lib) { c = c } in
      let p1 : Info lib = record p0 { srcadr = var_srcadr } in
      let p2 : Info lib = record p1 { srchost = var_srchost.0; dstadr = var_srchost.1 } in
      let p3 : Info lib = record p2 { dstadr = var_dstadr } in
      let e1 =
        with_var_or_lem (codes "srcadr") (codes "peeradr") (read_srcadr lib)
          (λ a. record p0 { srcadr = a }) (λ v. (lib.decodenetnum v lib.zero_addr).1) lib.zero_addr
          p0 (λ v. refl) refl in
      let e2 =
        with_var_lem (codes "srchost") (read_srchost lib)
          (λ (x : List ℕ × lib.Addr). record p1 { srchost = x.0; dstadr = x.1 })
          (λ v. (take (lenhostname - 1) v, lib.poke lib.zero_addr)) ([], lib.zero_addr) p1
          (λ v. refl) refl in
      let e3 =
        with_var_lem (codes "dstadr") (read_dstadr lib) (λ a. record p2 { dstadr = a })
          (λ v. (lib.decodenetnum v var_srchost.1).1) var_srchost.1 p2 (λ v. refl) refl in
      let e4 =
        with_var_lem (codes "hmode") (read_hmode lib)
          (λ (x : ℤ × ℕ). record p3 { hmode = x.0; hmode_c = x.1 })
          (λ v.
            ((lib.decodeint v (pos 0)).1, mode_char lib (lib.decodeint v (pos 0)).1 var_srcadr 0))
          (pos 0, 0) p3 (λ v. refl) refl in
      ap (with_var lib reply (codes "hmode") (read_hmode lib)) (
        ap (with_var lib reply (codes "dstadr") (read_dstadr lib))
          (ap (with_var lib reply (codes "srchost") (read_srchost lib)) e1 ∙ e2)
        ∙ e3)
      ∙ e4
