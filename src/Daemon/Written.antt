-- ===== src/Daemon/Written.antt =====
-- A group file that is written from its entries, and read again.
use jsntp_lcdd.Prelude.{
  ℕ, zero, suc, ◌+◌, ◌-◌, ◌*◌, ◌/◌, ◌%◌, ◌^◌, ◌≤◌, ◌<◌, ◌≡◌, refl, ◌∙◌, true, false, ◌&&◌, List, [],
  ◌∷◌, ◌++◌, arith, length, replicate, leb, ◌==◌, ltb, Bool-cases, inl, inr,
}
use jsntp_lcdd.Prelude.Decimal.{decimal, digits, value, value-decimal}
use jsntp_lcdd.Daemon.Args.{Text}
use jsntp_lcdd.Daemon.Groups.{leading, is_space, atoi}
use jsntp_lcdd.Daemon.Tokens.{Without, join}
use jsntp_lcdd.Daemon.Members.{Line, IsLine, count}

abbrev AreDigits : Text → Type 0
AreDigits [] = Unit {0}
AreDigits (c ∷ cs) = (b'0' ≤ c) × (c ≤ b'9') × AreDigits cs

leading-value : (n : ℕ) (s : Text) → AreDigits s → leading n s ≡ value n s
unfolding leading value
leading-value n [] d = refl
leading-value n (c ∷ s) (low, high, d) =
    let digit : (leb b'0' c && leb c b'9') ≡ true = ground arith in
    rw (digit, leading) (leading-value (n * 10 + (c - b'0')) s d)

-- Digits whose number fits an `int` are read as that number.
atoi-value : (s : Text) → AreDigits s → value 0 s < 2 ^ 31 → atoi s ≡ value 0 s
unfolding atoi value
atoi-value [] d h = refl
atoi-value (c ∷ s) d h =
    let no_space : is_space c ≡ false = ground (arith, d.0, d.1) in
    let no_minus : (c == b'-') ≡ false = ground (arith, d.0) in
    let no_plus : (c == b'+') ≡ false = ground (arith, d.0) in
    let read : leading 0 (c ∷ s) ≡ value 0 (c ∷ s) = leading-value 0 (c ∷ s) d in
    rw (no_space, no_minus, no_plus, atoi) (ground (arith, read, h))

digits-AreDigits : (f n : ℕ) (acc : Text) → AreDigits acc → AreDigits (digits f n acc)
unfolding digits
digits-AreDigits zero n acc d = d
digits-AreDigits (suc f) n acc d =
    let here : Text = (b'0' + n % 10) ∷ acc in
    let d1 : AreDigits here = (omega arith, omega arith, d) in
    elim (Bool-cases (ltb n 10)) [
      | inl e ↦ rw e d1
      | inr e ↦ rw e (digits-AreDigits f (n / 10) here d1)
    ]

decimal-AreDigits : (n : ℕ) → AreDigits (decimal n)
unfolding decimal
decimal-AreDigits n = digits-AreDigits (suc n) n [] tt

-- `atoi` reads back what was printed.
pub atoi-decimal : (n : ℕ) → n < 2 ^ 31 → atoi (decimal n) ≡ n
atoi-decimal n h =
    atoi-value (decimal n) (decimal-AreDigits n) (omega (arith, value-decimal n)) ∙ value-decimal n

-- A line without its new line.
abbrev body_text : Line → Text
body_text l = l.name ++ (b':' ∷ (l.password ++ (b':' ∷ (l.number ++ (b':' ∷ join b',' l.members)))))

-- A group: a line of the file whose number is one.
pub record Group : Type 0 where
  pub name : Text
  pub password : Text
  pub gid : ℕ
  pub members : List Text

abbrev pub line_of : Group → Line
line_of g = record {
  name = g.name;
  password = g.password;
  number = decimal g.gid;
  members = g.members;
}

-- What a group needs to be written as one line that is read whole.
pub record IsGroup (g : Group) : Type 0 where
  pub line : IsLine (line_of g)
  pub one_line : Without b'\n' (body_text (line_of g))
  pub fits : length (body_text (line_of g)) ≤ 254
  pub gid : g.gid < 2 ^ 31

abbrev pub AreGroups : List Group → Type 0
AreGroups [] = Unit {0}
AreGroups (g ∷ gs) = IsGroup g × AreGroups gs

abbrev pub file_of : List Group → Text
file_of [] = []
file_of (g ∷ gs) = body_text (line_of g) ++ (b'\n' ∷ file_of gs)

-- The numbers of the groups that name the user, once for each time.
abbrev pub gids : Text → List Group → List ℕ
gids user [] = []
gids user (g ∷ gs) = replicate (count user g.members) g.gid ++ gids user gs
