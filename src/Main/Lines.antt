-- ===== src/Main/Lines.antt =====
-- The texts of the four lines. The time and the text of an address are arguments.
use jsntp_lcdd.Prelude.{
  ℕ, ◌+◌, ◌-◌, ◌/◌, Bool, true, false, List, [], ◌∷◌, ◌++◌, if◌then◌else◌, ◌==◌, replicate, take,
}
use jsntp_lcdd.Prelude.Text.{codes}
use jsntp_lcdd.Prelude.Decimal.{decimal}

-- The first line: `=` on both sides of the name, up to the last column.
unfoldable pub title : (cols : ℕ) → List ℕ
title cols =
    let n : ℕ = (cols - 7) / 2 in
    replicate n b'=' ++ (codes " JsNTP " ++ replicate (cols - (n + 7)) b'=')

-- `"GPS:%d/%d"`.
unfoldable pub gps_line : (used visible : ℕ) → List ℕ
gps_line used visible = codes "GPS:" ++ (decimal used ++ (b'/' ∷ decimal visible))

-- What the status line needs of a peer: `c`, `have_refid`, `refid` and its address as text.
pub record Entry : Type 0 where
  pub c : ℕ
  pub have_refid : ℕ
  pub refid : List ℕ
  pub address : List ℕ

-- `sprintf` into `strbuf`; with the character 0 the text ends before it begins.
unfoldable pub peer_text : Entry → List ℕ
peer_text e =
    if e.c == 0
    then []
    else if e.have_refid == 2
    then e.c ∷ take 8 e.address
    else e.c ∷ take 4 e.refid

-- The loop over the peers, with `t_isfirst` and what is in `strstatus1`.
unfoldable pub status_from : (is_first : Bool) → List ℕ → List Entry → List ℕ
unfolding peer_text
status_from is_first text [] = text
status_from is_first text (e ∷ es) =
    let skipped = status_from is_first text es in
    let first = status_from true (text ++ peer_text e) es in
    let later = status_from true (text ++ (b' ' ∷ peer_text e)) es in
    if e.c == b' ' then skipped else (if is_first then later else first)

unfoldable pub status_line : List Entry → List ℕ
unfolding status_from
status_line es = status_from false [] es
