-- ===== src/Main/Columns.antt =====
-- The columns of the table that the main loop prints.
use jsntp_lcdd.Prelude.{
  ℕ, ◌+◌, ◌-◌, ◌*◌, ◌^◌, ◌≤◌, ◌<◌, ◌≡◌, refl, ap, ◌%◌, List, [], ◌∷◌, ◌++◌, arith, length,
  length-append, length-replicate, replicate,
}
use jsntp_lcdd.Prelude.Decimal.{decimal, length-decimal}
use jsntp_lcdd.Ntp.Interval.{Lfp}
use jsntp_lcdd.Ntp.Info.{NtpLib}
use jsntp_lcdd.Ntp.Peer.{Info}
use jsntp_lcdd.Main.Peers.{address_text}
use jsntp_lcdd.Main.Console.{
  pad_right, pad_left, int_text, rule, row_calls, row, rows, blank, concat, new_line,
}

-- Texts and numbers that are no wider than their columns.
pub record IsNarrow (lib : NtpLib) (lfptoms : Lfp → ℕ → List ℕ) (p : Info lib) : Type 0 where
  pub address : length (address_text lib p) ≤ 15
  pub refid : length p.refid ≤ 15
  pub stratum : p.stratum < 100
  pub whenbuf : length p.whenbuf ≤ 4
  pub pollbuf : length p.pollbuf ≤ 4
  pub reach : p.reach < 100000
  pub delay : length (lfptoms p.estdelay 3) ≤ 9
  pub offset : length (lfptoms p.estoffset 3) ≤ 9
  pub jitter : length (lfptoms p.estjitter 3) ≤ 9

pad_right-length : (n : ℕ) (text : List ℕ) → length text ≤ n → length (pad_right n text) ≡ n
pad_right-length n text h = omega (
  arith,
  length-append text (replicate (n - length text) b' '),
  length-replicate {A = ℕ} (n - length text) b' ',
)

pad_left-length : (c n : ℕ) (text : List ℕ) → length text ≤ n → length (pad_left c n text) ≡ n
pad_left-length c n text h = omega (
  arith,
  length-append (replicate (n - length text) c) text,
  length-replicate {A = ℕ} (n - length text) c,
)

column : (n : ℕ) (text : List ℕ) → length text ≤ n → length (pad_right n text ++ blank) ≡ n + 1
column n text h = omega (arith, pad_right-length n text h, length-append (pad_right n text) blank)

abbrev total : List (List ℕ) → ℕ
total [] = 0
total (x ∷ xs) = length x + total xs

int_text-small : (n : ℕ) → n < 2 ^ 31 → int_text n ≡ decimal n
unfolding int_text
int_text-small n h =
    ground (arith, ap (λ (k : ℕ). decimal k) {x = n % 2 ^ 32} {y = n} (omega arith))

concat-length : (xs : List (List ℕ)) → length (concat xs) ≡ total xs
unfolding concat
concat-length [] = refl
concat-length (x ∷ xs) = omega (arith, length-append x (concat xs), concat-length xs)

row-length :
    (lib : NtpLib) (lfptoms : Lfp → ℕ → List ℕ) (p : Info lib)
    → IsNarrow lib lfptoms p
    → length (row lib lfptoms p) ≡ 87
unfolding row row_calls
row-length lib lfptoms p n =
    let stratum : length (int_text p.stratum) ≤ 2 = omega (
      arith,
      ap (λ (t : List ℕ). length t) (int_text-small p.stratum (omega (arith, n.stratum))),
      length-decimal p.stratum 1 (omega (arith, n.stratum)),
    ) in
    let reach : length (int_text p.reach) ≤ 5 = omega (
      arith,
      ap (λ (t : List ℕ). length t) (int_text-small p.reach (omega (arith, n.reach))),
      length-decimal p.reach 4 (omega (arith, n.reach)),
    ) in
    omega (
      arith,
      concat-length (row_calls lib lfptoms p),
      column 15 (address_text lib p) n.address,
      column 15 p.refid n.refid,
      pad_left-length b' ' 2 (int_text p.stratum) stratum,
      length-append (pad_left b' ' 2 (int_text p.stratum)) blank,
      column 4 p.whenbuf n.whenbuf,
      column 4 p.pollbuf n.pollbuf,
      column 5 (int_text p.reach) reach,
      column 9 (lfptoms p.estdelay 3) n.delay,
      column 9 (lfptoms p.estoffset 3) n.offset,
      pad_right-length 9 (lfptoms p.estjitter 3) n.jitter,
      length-append (pad_right 9 (lfptoms p.estjitter 3)) (new_line ∷ []),
    )

abbrev pub AreNarrow : (lib : NtpLib) → (Lfp → ℕ → List ℕ) → List (Info lib) → Type 0
AreNarrow lib lfptoms [] = Unit {0}
AreNarrow lib lfptoms (p ∷ ps) = IsNarrow lib lfptoms p × AreNarrow lib lfptoms ps

-- A table of peers whose texts and numbers are no wider than their columns has as many
-- characters for each peer, its new line included, as the rule above it.
pub rows-length :
    (lib : NtpLib) (lfptoms : Lfp → ℕ → List ℕ) (ps : List (Info lib))
    → AreNarrow lib lfptoms ps
    → length (rows lib lfptoms ps) ≡ length rule * length ps
unfolding rows
rows-length lib lfptoms [] n = refl
rows-length lib lfptoms (p ∷ ps) n = omega (
  arith,
  length-append (row lib lfptoms p) (rows lib lfptoms ps),
  row-length lib lfptoms p n.0,
  rows-length lib lfptoms ps n.1,
)
