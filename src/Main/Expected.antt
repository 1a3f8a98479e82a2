-- ===== src/Main/Expected.antt =====
-- What the four lines of the display are to show in a turn of the main loop, told without its functions.
use jsntp_lcdd.Prelude.{
  ℕ, ◌+◌, ◌≡◌, refl, sym, ap, ◌∙◌, true, false, List, [], ◌∷◌, ◌++◌, append_assoc, append-nil,
  arith, if◌then◌else◌, ◌==◌, map, take, Bool-cases, inl, inr,
}
use jsntp_lcdd.Prelude.Text.{codes}
use jsntp_lcdd.Prelude.Decimal.{decimal}
use jsntp_lcdd.Ntp.Info.{NtpLib}
use jsntp_lcdd.Gps.Data.{count_nonzero}
use jsntp_lcdd.Daemon.Tokens.{join}
use jsntp_lcdd.Main.Lines.{title, gps_line, Entry, peer_text, status_from, status_line}
use jsntp_lcdd.Main.Peers.{entry, read_peer}
use jsntp_lcdd.Main.Loop.{Texts}
use jsntp_lcdd.Main.Run.{Turn, texts_of}
use jsntp_lcdd.Main.Turns.{status_of, counts_of}

-- How many satellites of an array are there.
abbrev pub satellites : List ℕ → ℕ
satellites [] = 0
satellites (x ∷ xs) = (if x == 0 then 0 else 1) + satellites xs

-- The character of a peer, with its address or its reference behind it.
abbrev pub word : Entry → List ℕ
word e =
    if e.c == 0 then [] else e.c ∷ (if e.have_refid == 2 then take 8 e.address else take 4 e.refid)

-- The peers that have a status.
abbrev pub words : List Entry → List (List ℕ)
words [] = []
words (e ∷ es) = if e.c == b' ' then words es else word e ∷ words es

abbrev pub expected : NtpLib → Turn → Texts
expected lib t = record {
  line0 = codes "====== JsNTP =======";
  line1 =
      codes "GPS:"
      ++ (decimal (satellites t.gps_shown.gpsdata.used)
          ++ (codes "/" ++ decimal (satellites t.gps_shown.gpsdata.prn)));
  line2 = join b' ' (words (map (λ a. entry lib (read_peer lib a)) t.asked));
  line3 = t.clock;
}

satellites_lem : (xs : List ℕ) → count_nonzero xs ≡ satellites xs
unfolding count_nonzero
satellites_lem [] = refl
satellites_lem (x ∷ xs) = ground (arith, satellites_lem xs)

peer_text-word : (e : Entry) → peer_text e ≡ word e
unfolding peer_text
peer_text-word e = ground arith

-- Every word behind a space.
abbrev behind : List (List ℕ) → List ℕ
behind [] = []
behind (w ∷ ws) = b' ' ∷ (w ++ behind ws)

join-behind : (w : List ℕ) (ws : List (List ℕ)) → join b' ' (w ∷ ws) ≡ w ++ behind ws
join-behind w [] = sym (append-nil w)
join-behind w (v ∷ vs) = ap (λ (r : List ℕ). w ++ (b' ' ∷ r)) (join-behind v vs)

status-later :
    (text : List ℕ) (es : List Entry) → status_from true text es ≡ text ++ behind (words es)
unfolding status_from
status-later text [] = sym (append-nil text)
status-later text (e ∷ es) = elim (Bool-cases (e.c == b' ')) [
  | inl blank ↦ rw (blank, status_from) (status-later text es)
  | inr shown ↦
      rw (shown, status_from)
        (status-later (text ++ (b' ' ∷ peer_text e)) es
          ∙ append_assoc text (b' ' ∷ peer_text e) (behind (words es))
          ∙ ap (λ (w : List ℕ). text ++ (b' ' ∷ (w ++ behind (words es)))) (peer_text-word e))
]

status-join : (es : List Entry) → status_from false [] es ≡ join b' ' (words es)
unfolding status_from
status-join [] = refl
status-join (e ∷ es) = elim (Bool-cases (e.c == b' ')) [
  | inl blank ↦ rw (blank, status_from) (status-join es)
  | inr shown ↦
      rw (shown, status_from)
        (status-later (peer_text e) es
          ∙ ap (λ (w : List ℕ). w ++ behind (words es)) (peer_text-word e)
          ∙ sym (join-behind (word e) (words es)))
]

pub texts-expected :
    (lib : NtpLib) (t : Turn)
    → texts_of t (status_of lib t.asked) (counts_of t.gps_shown) 20 ≡ expected lib t
unfolding texts_of title gps_line status_line
texts-expected lib t =
    let used = satellites_lem t.gps_shown.gpsdata.used in
    let visible = satellites_lem t.gps_shown.gpsdata.prn in
    let status = status-join (map (λ a. entry lib (read_peer lib a)) t.asked) in
    λ i. record {
      line0 = codes "====== JsNTP =======";
      line1 = codes "GPS:" ++ (decimal (used i) ++ (codes "/" ++ decimal (visible i)));
      line2 = status i;
      line3 = t.clock;
    }
