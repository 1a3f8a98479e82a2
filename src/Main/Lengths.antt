-- ===== src/Main/Lengths.antt =====
-- How long the lines of the main loop get, against the 64 bytes of its buffers.
use jsntp_lcdd.Prelude.{
  ℕ, ◌+◌, ◌-◌, ◌*◌, ◌/◌, ◌≤◌, ◌<◌, ◌≡◌, ◌≢◌, Bool, true, false, List, [], ◌∷◌, ◌++◌, arith, length,
  length-append, length-replicate, length-take, replicate,
}
use jsntp_lcdd.Prelude.Text.{codes}
use jsntp_lcdd.Main.Lines.{title, Entry, peer_text, status_from, status_line}

-- For seven columns or more the title line has exactly as many characters as the display has
-- columns.
pub title-length : (cols : ℕ) → 7 ≤ cols → length (title cols) ≡ cols
unfolding title
title-length cols h =
    let n : ℕ = (cols - 7) / 2 in
    let left : List ℕ = replicate n b'=' in
    let right : List ℕ = replicate (cols - (n + 7)) b'=' in
    let name : List ℕ = codes " JsNTP " in
    omega (
      arith,
      length-append left (name ++ right),
      length-append name right,
      length-replicate {A = ℕ} n b'=',
      length-replicate {A = ℕ} (cols - (n + 7)) b'=',
    )

peer_text-length : (e : Entry) → length (peer_text e) ≤ 9
unfolding peer_text
peer_text-length e = ground (arith, length-take 8 e.address, length-take 4 e.refid)

-- With `room` for the peers that are left.
status_from-length :
    (is_first : Bool) (text : List ℕ) (es : List Entry)
    → length (status_from is_first text es) ≤ length text + 10 * length es
unfolding status_from
status_from-length is_first text [] = omega arith
status_from-length is_first text (e ∷ es) = ground (
  arith,
  peer_text-length e,
  status_from-length is_first text es,
  status_from-length true (text ++ peer_text e) es,
  status_from-length true (text ++ (b' ' ∷ peer_text e)) es,
  length-append text (peer_text e),
  length-append text (b' ' ∷ peer_text e),
)

-- With six peers or fewer the status line and its final NUL fit into 64 bytes.
pub status_line-length : (es : List Entry) → length es ≤ 6 → length (status_line es) < 64
unfolding status_line
status_line-length es h = omega (arith, status_from-length false [] es)

-- A peer that is shown by eight characters of its address.
pub record IsWide (e : Entry) : Type 0 where
  pub some_status : (e.c ≢ 0) × (e.c ≢ b' ')
  pub by_address : e.have_refid ≡ 2
  pub long : 8 ≤ length e.address

abbrev pub AreWide : List Entry → Type 0
AreWide [] = Unit {0}
AreWide (e ∷ es) = IsWide e × AreWide es

peer_text-IsWide : (e : Entry) → IsWide e → length (peer_text e) ≡ 9
unfolding peer_text
peer_text-IsWide e w = ground (arith, length-take 8 e.address)

later-AreWide :
    (text : List ℕ) (es : List Entry)
    → AreWide es
    → length (status_from true text es) ≡ length text + 10 * length es
unfolding status_from
later-AreWide text [] w = omega arith
later-AreWide text (e ∷ es) w = ground (
  arith,
  peer_text-IsWide e w.0,
  w.0.some_status,
  later-AreWide (text ++ (b' ' ∷ peer_text e)) es w.1,
  length-append text (b' ' ∷ peer_text e),
)

-- Peers whose character is neither blank nor 0 and that are shown by eight characters of their
-- address give a line of ten characters for each peer less one, so seven of them exceed 64
-- bytes.
pub status_line-AreWide :
    (e : Entry) (es : List Entry)
    → IsWide e
    → AreWide es
    → length (status_line (e ∷ es)) ≡ 9 + 10 * length es
unfolding status_line status_from
status_line-AreWide e es w ws =
    ground (arith, peer_text-IsWide e w, w.some_status, later-AreWide (peer_text e) es ws)
