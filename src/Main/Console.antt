-- ===== src/Main/Console.antt =====
-- What `daemon_main` prints to the terminal when it does not run in the background.
use jsntp_lcdd.Prelude.{
  ℕ, ◌-◌, ◌%◌, ◌^◌, List, [], ◌∷◌, ◌++◌, if◌then◌else◌, ◌==◌, ltb, length, replicate,
}
use jsntp_lcdd.Prelude.Text.{codes}
use jsntp_lcdd.Prelude.Decimal.{decimal}
use jsntp_lcdd.Ntp.Interval.{Lfp}
use jsntp_lcdd.Ntp.Info.{NtpLib}
use jsntp_lcdd.Ntp.Peer.{Info}
use jsntp_lcdd.Main.Peers.{address_text}

-- `%-*s` and `%*d`.
abbrev pub pad_right : ℕ → List ℕ → List ℕ
pad_right width text = text ++ replicate (width - length text) b' '

abbrev pub pad_left : ℕ → ℕ → List ℕ → List ℕ
pad_left with width text = replicate (width - length text) with ++ text

-- `%d` of an `unsigned long`, whose low 32 bits are taken for an `int`.
unfoldable pub int_text : ℕ → List ℕ
int_text n =
    let low : ℕ = n % 2 ^ 32 in
    if ltb low (2 ^ 31) then decimal low else b'-' ∷ decimal (2 ^ 32 - low)

-- The blank behind a column.
abbrev pub blank : List ℕ
blank = b' ' ∷ []

-- What several calls print in turn.
unfoldable pub concat : List (List ℕ) → List ℕ
concat [] = []
concat (text ∷ texts) = text ++ concat texts

abbrev pub new_line : ℕ
new_line = 10

-- The screen is cleared before.
abbrev pub heading : List ℕ
heading =
    codes "       remote     refid            st t  when poll reach delay     offset    jitter    "

abbrev pub rule : List ℕ
rule = replicate 87 b'='

unfoldable pub top : List ℕ
unfolding concat
top = concat (
    (27 ∷ codes "[H") ∷ (27 ∷ codes "[J") ∷ heading ∷ (new_line ∷ []) ∷ rule ∷ (new_line ∷ []) ∷ [])

-- `lfptoms` of the library is a parameter.
module _ (lib : NtpLib) (lfptoms : Lfp → ℕ → List ℕ) where
  -- One text for each call of `printf`.
  unfoldable pub row_calls : Info lib → List (List ℕ)
  unfolding int_text
  row_calls p =
      (p.c ∷ b' ' ∷ [])
      ∷ (pad_right 15 (address_text lib p) ++ blank)
      ∷ ((if p.have_refid == 1 then b'.' else b' ') ∷ (pad_right 15 p.refid ++ blank))
      ∷ (pad_left b' ' 2 (int_text p.stratum) ++ blank)
      ∷ (p.hmode_c ∷ b' ' ∷ b' ' ∷ [])
      ∷ (pad_right 4 p.whenbuf ++ blank)
      ∷ (pad_right 4 p.pollbuf ++ blank)
      ∷ (pad_right 5 (int_text p.reach) ++ blank)
      ∷ (pad_right 9 (lfptoms p.estdelay 3) ++ blank)
      ∷ (pad_right 9 (lfptoms p.estoffset 3) ++ blank)
      ∷ (pad_right 9 (lfptoms p.estjitter 3) ++ (new_line ∷ []))
      ∷ []

  unfoldable pub row : Info lib → List ℕ
  unfolding concat row_calls
  row p = concat (row_calls p)

  unfoldable pub rows : List (Info lib) → List ℕ
  unfolding row
  rows [] = []
  rows (p ∷ ps) = row p ++ rows ps

-- `clock` is what `strftime` wrote.
unfoldable pub bottom : (clock : List ℕ) (microsec used visible : ℕ) → List ℕ
unfolding concat
bottom clock microsec used visible = concat (
    (new_line ∷ codes "SYSTEM TIME : ")
    ∷ clock
    ∷ (b'.' ∷ pad_left b'0' 6 (decimal microsec))
    ∷ (new_line ∷ codes "GPS : ")
    ∷ decimal used
    ∷ (b'/' ∷ decimal visible)
    ∷ (new_line ∷ [])
    ∷ [])
