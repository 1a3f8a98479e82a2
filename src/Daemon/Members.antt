-- ===== src/Daemon/Members.antt =====
-- What a group file with well-formed lines gives.
use jsntp_lcdd.Prelude.{
  ℕ, zero, suc, ◌≤◌, ◌≡◌, ◌≢◌, refl, ◌∙◌, ap, sym, false, Option, none, some, List, [], ◌∷◌, ◌++◌,
  append-nil, append_assoc, if◌then◌else◌, leb, leb→le, length, length-take, length-append, take,
  take-all, replicate, arith, Bool-cases, inl, inr,
}
use jsntp_lcdd.Prelude.Text.{str_eq}
use jsntp_lcdd.Daemon.Args.{Text}
use jsntp_lcdd.Daemon.Groups.{
  strtok, next_token, atoi, tokens, max_groups, and_then, line_tokens, add_members, add_group,
  finish_line, group_line, group_lines, pieces, user_groups,
}
use jsntp_lcdd.Daemon.Tokens.{
  Without, strtok-field, strtok-last, join, Names, tokens-join, length-le-join, NoBlank, trim_line,
  Without-append,
}

-- A line of the group file.
pub record Line : Type 0 where
  pub name : Text
  pub password : Text
  pub number : Text
  pub members : List Text

abbrev pub line_text : Line → Text
line_text l =
    l.name
    ++ (b':' ∷ (l.password ++ (b':' ∷ (l.number ++ (b':' ∷ (join b',' l.members ++ b'\n' ∷ []))))))

abbrev pub Field : Text → Type 0
Field t = (t ≢ []) × Without b':' t

-- No field is empty, and no field or name holds a delimiter or a blank.
pub record IsLine (l : Line) : Type 0 where
  pub name_field : Field l.name
  pub password_field : Field l.password
  pub number_field : Field l.number
  pub names : Names b',' l.members
  pub names_plain : Without b':' (join b',' l.members) × NoBlank (join b',' l.members)

append-ne_nil : (s : Text) (c : ℕ) (t : Text) → s ++ c ∷ t ≢ []
append-ne_nil [] c t e = cc
append-ne_nil (x ∷ s) c t e = cc

next_token-some :
    (d : ℕ) (s t rest : Text)
    → strtok d s ≡ some (t, rest)
    → next_token d (some s) ≡ (some t, some rest)
next_token-some d s t rest e = rw (e, next_token)

-- The fields of a line come out as they stand there.
line_tokens-text :
    (l : Line)
    → IsLine l
    → line_tokens (line_text l) ≡ (some l.number, some (join b',' l.members ++ b'\n' ∷ []))
unfolding line_tokens
line_tokens-text l i =
    let members = join b',' l.members ++ b'\n' ∷ [] in
    let after3 : Text = l.number ++ b':' ∷ members in
    let after2 : Text = l.password ++ b':' ∷ after3 in
    let e1 =
      next_token-some b':' (line_text l) l.name after2
        (strtok-field b':' l.name after2 i.name_field.0 i.name_field.1) in
    let e2 =
      next_token-some b':' after2 l.password after3
        (strtok-field b':' l.password after3 i.password_field.0 i.password_field.1) in
    let e3 =
      next_token-some b':' after3 l.number members
        (strtok-field b':' l.number members i.number_field.0 i.number_field.1) in
    let e4 = next_token-some b':' members members [] (
      strtok-last b':' members (append-ne_nil (join b',' l.members) b'\n' [])
        (Without-append b':' (join b',' l.members) (b'\n' ∷ []) i.names_plain.0 (refl, tt))) in
    rw (e1, e2, e3, e4)

add_members-text :
    (user : Text) (l : Line) (groups : List ℕ)
    → IsLine l
    → add_members user l.number (join b',' l.members ++ b'\n' ∷ []) groups
      ≡ add_group user (atoi l.number) l.members groups
unfolding add_members
add_members-text user l groups i =
    let members = join b',' l.members in
    ap (λ (t : Text). add_group user (atoi l.number) (tokens (suc (length t)) b',' t) groups)
      (trim_line members i.names_plain.1)
    ∙ ap (λ (ts : List Text). add_group user (atoi l.number) ts groups)
        (tokens-join (suc (length members)) b',' l.members i.names
          (omega (arith, length-le-join b',' l.members i.names)))

group_line-text :
    (user : Text) (l : Line) (groups : List ℕ)
    → IsLine l
    → group_line user (line_text l) groups ≡ some (add_group user (atoi l.number) l.members groups)
unfolding group_line
group_line-text user l groups i =
    ap (finish_line user groups) (line_tokens-text l i) ∙ ap some (add_members-text user l groups i)

-- How often a user stands in a list of names.
abbrev pub count : Text → List Text → ℕ
count user [] = 0
count user (n ∷ ns) = if str_eq n user then suc (count user ns) else count user ns

take-full : (n : ℕ) (xs ys : List ℕ) → length xs ≡ n → take n (xs ++ ys) ≡ xs
take-full zero [] ys h = refl
take-full zero (x ∷ xs) ys h = absurd (omega arith)
take-full (suc n) [] ys h = absurd (omega arith)
take-full (suc n) (x ∷ xs) ys h = ap (◌∷◌ x) (take-full n xs ys (omega arith))

room_left :
    (groups : List ℕ) (gid : ℕ)
    → leb max_groups (length groups) ≡ false
    → length (groups ++ gid ∷ []) ≤ max_groups
room_left groups gid h = ground (arith, length-append groups (gid ∷ []))

-- A group is added once for each time its list names the user, up to 64 groups in all.
add_group_lem :
    (user : Text) (gid : ℕ) (names : List Text) (groups : List ℕ)
    → length groups ≤ max_groups
    → add_group user gid names groups ≡ take max_groups (groups ++ replicate (count user names) gid)
unfolding add_group
add_group_lem user gid [] groups h = sym (ap (take 64) (append-nil groups) ∙ take-all 64 groups h)
add_group_lem user gid (n ∷ ns) groups h = elim (Bool-cases (str_eq n user)) [
  | inl e ↦
      rw (e, add_group)
        (elim (Bool-cases (leb max_groups (length groups))) [
          | inl full ↦ rw full (
              sym (
                take-full 64 groups (replicate (suc (count user ns)) gid)
                  (omega (arith, leb→le 64 (length groups) full))))
          | inr room ↦ rw room (
              add_group_lem user gid ns (groups ++ gid ∷ []) (room_left groups gid room)
              ∙ ap (take 64) (append_assoc groups (gid ∷ []) (replicate (count user ns) gid)))
        ])
  | inr e ↦ rw (e, add_group) (add_group_lem user gid ns groups h)
]

take-take-append : (n : ℕ) (xs ys : List ℕ) → take n (take n xs ++ ys) ≡ take n (xs ++ ys)
take-take-append zero xs ys = refl
take-take-append (suc n) [] ys = refl
take-take-append (suc n) (x ∷ xs) ys = ap (◌∷◌ x) (take-take-append n xs ys)

take-short : (xs : List ℕ) → length (take 64 xs) ≤ max_groups
take-short xs = omega (arith, length-take 64 xs)

-- The groups that a list of lines stands for.
abbrev pub all_groups : Text → List Line → List ℕ
all_groups user [] = []
all_groups user (l ∷ ls) = replicate (count user l.members) (atoi l.number) ++ all_groups user ls

abbrev pub AreLines : List Line → Type 0
AreLines [] = Unit {0}
AreLines (l ∷ ls) = IsLine l × AreLines ls

abbrev pub texts : List Line → List Text
texts [] = []
texts (l ∷ ls) = line_text l ∷ texts ls

group_lines-texts :
    (user : Text) (ls : List Line) (groups : List ℕ)
    → AreLines ls
    → length groups ≤ max_groups
    → group_lines user (texts ls) groups ≡ some (take max_groups (groups ++ all_groups user ls))
unfolding group_lines
group_lines-texts user [] groups i h =
    ap some (sym (ap (take 64) (append-nil groups) ∙ take-all 64 groups h))
group_lines-texts user (l ∷ ls) groups i h =
    let here : List ℕ = replicate (count user l.members) (atoi l.number) in
    let first =
      group_line-text user l groups i.0
      ∙ ap some (add_group_lem user (atoi l.number) l.members groups h) in
    ap (λ (o : Option (List ℕ)). and_then o (group_lines user (texts ls))) first
    ∙ group_lines-texts user ls (take 64 (groups ++ here)) i.1 (take-short (groups ++ here))
    ∙ ap some (
        take-take-append 64 (groups ++ here) (all_groups user ls)
        ∙ ap (take 64) (append_assoc groups here (all_groups user ls)))

-- For a group file of well-formed lines the loop collects the first 64 group ids whose lines
-- name the user, in the order of the file.
pub user_groups-texts :
    (user file : Text) (ls : List Line)
    → pieces 255 [] file ≡ texts ls
    → AreLines ls
    → user_groups user file ≡ some (take max_groups (all_groups user ls))
unfolding user_groups
user_groups-texts user file ls e i =
    ap (λ (ps : List Text). group_lines user ps []) e ∙ group_lines-texts user ls [] i (omega arith)

-- A line without a new line that ends behind its third colon.
abbrev pub cut_line : Line → Text
cut_line l = l.name ++ (b':' ∷ (l.password ++ (b':' ∷ (l.number ++ (b':' ∷ [])))))

-- A well-formed line that the file ends right behind the third colon has no fourth token,
-- which strlen is given as a null pointer.
pub group_line-cut :
    (user : Text) (l : Line) (groups : List ℕ)
    → IsLine l
    → group_line user (cut_line l) groups ≡ none
unfolding group_line line_tokens
group_line-cut user l groups i =
    let after3 : Text = l.number ++ b':' ∷ [] in
    let after2 : Text = l.password ++ b':' ∷ after3 in
    let e1 =
      next_token-some b':' (cut_line l) l.name after2
        (strtok-field b':' l.name after2 i.name_field.0 i.name_field.1) in
    let e2 =
      next_token-some b':' after2 l.password after3
        (strtok-field b':' l.password after3 i.password_field.0 i.password_field.1) in
    let e3 =
      next_token-some b':' after3 l.number []
        (strtok-field b':' l.number [] i.number_field.0 i.number_field.1) in
    let both : line_tokens (cut_line l) ≡ (some l.number, none) = rw (e1, e2, e3) in
    ap (finish_line user groups) both
