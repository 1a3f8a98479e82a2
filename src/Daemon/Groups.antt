-- ===== src/Daemon/Groups.antt =====
-- The part of `Daemon::main` that reads /etc/group for the groups of the user.
use jsntp_lcdd.Prelude.{
  ℕ, zero, suc, ◌+◌, ◌-◌, ◌*◌, ◌%◌, ◌^◌, ◌≡◌, refl, Bool, true, false, ◌&&◌, ◌||◌, Option, none,
  some, List, [], ◌∷◌, ◌++◌, if◌then◌else◌, ◌==◌, leb, length,
}
use jsntp_lcdd.Prelude.Text.{codes, str_eq}
use jsntp_lcdd.Daemon.Args.{Text}

-- `fgets` with a buffer of 256: the pieces of at most 255 bytes into which a file is read, each
-- ended by a new line or by the size. `room` is what is left for the piece that is being read.
unfoldable pub pieces : (room : ℕ) (piece : Text) → Text → List Text
pieces room [] [] = []
pieces room (p ∷ piece) [] = (p ∷ piece) ∷ []
pieces room piece (c ∷ cs) = elim (c == b'\n' || leb room 1) [
  | true ↦ (piece ++ c ∷ []) ∷ pieces 255 [] cs
  | false ↦ pieces (room - 1) (piece ++ c ∷ []) cs
]

-- `strtok_r` for one delimiter: skip it, take what comes before the next one, and drop that.
unfoldable pub skip : ℕ → Text → Text
skip d [] = []
skip d (c ∷ s) = if c == d then skip d s else c ∷ s

unfoldable pub span : ℕ → Text → Text × Text
span d [] = ([], [])
span d (c ∷ s) = let (t, rest) = span d s in if c == d then ([], s) else (c ∷ t, rest)

unfoldable pub strtok : ℕ → Text → Option (Text × Text)
unfolding skip span
strtok d s = elim (skip d s) [ [] ↦ none | c ∷ rest ↦ some (span d (c ∷ rest)) ]

-- A token that is not there is a null pointer.
abbrev pub next_token : ℕ → Option Text → Option Text × Option Text
next_token d none = (none, none)
next_token d (some s) = elim (strtok d s) [
  | none ↦ (none, none)
  | some (t, rest) ↦ (some t, some rest)
]

-- The digits at the front of a text, as a number.
unfoldable pub leading : ℕ → Text → ℕ
leading n [] = n
leading n (c ∷ s) = elim (leb b'0' c && leb c b'9') [
  | true ↦ leading (n * 10 + (c - b'0')) s
  | false ↦ n
]

abbrev pub is_space : ℕ → Bool
is_space c = c == b' ' || (leb b'\t' c && leb c b'\r')

abbrev pub at_most : ℕ → ℕ → ℕ
at_most k n = if leb n k then n else k

-- `atoi`, which is `strtol` with a `long` of 32 bits and so stops at its bounds; its `int` as the
-- `gid_t` it is put into.
unfoldable pub atoi : Text → ℕ
unfolding leading
atoi [] = 0
atoi (c ∷ s) = elim (is_space c) [
  | true ↦ atoi s
  | false ↦
      if c == b'-'
      then (2 ^ 32 - at_most (2 ^ 31) (leading 0 s)) % 2 ^ 32
      else if c == b'+'
      then at_most (2 ^ 31 - 1) (leading 0 s)
      else at_most (2 ^ 31 - 1) (leading 0 (c ∷ s))
]

-- `\r`, `\n`, space and tab at the end of the member list.
abbrev pub is_blank : ℕ → Bool
is_blank c = c == b'\r' || c == b'\n' || c == b' ' || c == b'\t'

unfoldable pub trim : Text → Text
trim [] = []
trim (c ∷ s) = elim (trim s) [ [] ↦ if is_blank c then [] else c ∷ [] | x ∷ xs ↦ c ∷ x ∷ xs ]

-- The tokens between commas; the fuel bounds their number.
unfoldable pub tokens : ℕ → ℕ → Text → List Text
unfolding strtok
tokens zero d s = []
tokens (suc f) d s = elim (strtok d s) [ none ↦ [] | some (t, rest) ↦ t ∷ tokens f d rest ]

abbrev pub max_groups : ℕ
max_groups = 64

-- The loop over the member names of one group.
unfoldable pub add_group : (user : Text) (gid : ℕ) → List Text → List ℕ → List ℕ
unfolding str_eq
add_group user gid [] groups = groups
add_group user gid (name ∷ names) groups = elim (str_eq name user) [
  | true ↦
      let more = add_group user gid names (groups ++ gid ∷ []) in
      if leb max_groups (length groups) then groups else more
  | false ↦ add_group user gid names groups
]

-- The third and the fourth field of a line.
unfoldable pub line_tokens : Text → Option Text × Option Text
unfolding strtok
line_tokens line =
    let rest1 = (next_token b':' (some line)).1 in
    let rest2 = (next_token b':' rest1).1 in
    let (token3, rest3) = next_token b':' rest2 in (token3, (next_token b':' rest3).0)

-- The group's number and its members, cut into names.
unfoldable pub add_members : (user number members : Text) → List ℕ → List ℕ
unfolding atoi trim tokens add_group
add_members user number members groups =
    let names : Text = trim members in
    add_group user (atoi number) (tokens (suc (length names)) b',' names) groups

-- A missing third or fourth field is a null pointer in `atoi` or `strlen`: `none`.
unfoldable pub finish_line : (user : Text) → List ℕ → Option Text × Option Text → Option (List ℕ)
unfolding add_members
finish_line user groups (none, token4) = none
finish_line user groups (some number, none) = none
finish_line user groups (some number, some members) = some (add_members user number members groups)

-- One piece of the file.
unfoldable pub group_line : (user : Text) → Text → List ℕ → Option (List ℕ)
unfolding line_tokens finish_line
group_line user line groups = finish_line user groups (line_tokens line)

abbrev pub and_then : Option (List ℕ) → (List ℕ → Option (List ℕ)) → Option (List ℕ)
and_then none f = none
and_then (some groups) f = f groups

unfoldable pub group_lines : (user : Text) → List Text → List ℕ → Option (List ℕ)
unfolding group_line
group_lines user [] groups = some groups
group_lines user (line ∷ lines) groups =
    and_then (group_line user line groups) (group_lines user lines)

unfoldable pub user_groups : (user file : Text) → Option (List ℕ)
unfolding pieces group_lines
user_groups user file = group_lines user (pieces 255 [] file) []

two_groups :
    user_groups (codes "bob") (codes "root:x:0:\ni2c:x:44:amy,bob\nuucp:x:14:bob\n")
    ≡ some (44 ∷ 14 ∷ [])
unfolding user_groups
two_groups = refl
