-- ===== src/Daemon/Tokens.antt =====
-- How `strtok_r` and the trimming loop take a line of the group file apart.
use jsntp_lcdd.Prelude.{
  ℕ, zero, suc, ◌≤◌, ◌<◌, ◌≡◌, ◌≢◌, refl, ap, false, some, List, [], ◌∷◌, ◌++◌, ◌==◌, length,
  length-append, arith,
}
use jsntp_lcdd.Daemon.Args.{Text}
use jsntp_lcdd.Daemon.Groups.{skip, span, strtok, is_blank, trim, tokens}

-- The characters of a text are not `d`.
abbrev pub Without : ℕ → Text → Type 0
Without d [] = Unit {0}
Without d (c ∷ s) = ((c == d) ≡ false) × Without d s

span-field : (d : ℕ) (t rest : Text) → Without d t → span d (t ++ d ∷ rest) ≡ (t, rest)
unfolding span
span-field d [] rest w = ground arith
span-field d (c ∷ t) rest w = ground (arith, span-field d t rest w.1)

span-last : (d : ℕ) (t : Text) → Without d t → span d t ≡ (t, [])
unfolding span
span-last d [] w = refl
span-last d (c ∷ t) w = ground (arith, span-last d t w.1)

-- `strtok_r` finds a field and stops behind its delimiter.
pub strtok-field :
    (d : ℕ) (t rest : Text) → t ≢ [] → Without d t → strtok d (t ++ d ∷ rest) ≡ some (t, rest)
unfolding strtok
strtok-field d [] rest n w = absurd (n refl)
strtok-field d (c ∷ t) rest n w = rw (w.0, strtok, skip) (ap some (span-field d (c ∷ t) rest w))

pub strtok-last : (d : ℕ) (t : Text) → t ≢ [] → Without d t → strtok d t ≡ some (t, [])
unfolding strtok
strtok-last d [] n w = absurd (n refl)
strtok-last d (c ∷ t) n w = rw (w.0, strtok, skip) (ap some (span-last d (c ∷ t) w))

-- Names joined by a delimiter.
abbrev pub join : ℕ → List Text → Text
join d [] = []
join d (t ∷ []) = t
join d (t ∷ u ∷ ts) = t ++ d ∷ join d (u ∷ ts)

abbrev pub Names : ℕ → List Text → Type 0
Names d [] = Unit {0}
Names d (t ∷ ts) = (t ≢ []) × Without d t × Names d ts

pub tokens-join :
    (f d : ℕ) (ts : List Text) → Names d ts → length ts < f → tokens f d (join d ts) ≡ ts
unfolding tokens
tokens-join zero d ts n h = elim h [ ]
tokens-join (suc f) d [] n h = refl
tokens-join (suc zero) d (t ∷ ts) n h = absurd (omega arith)
tokens-join (suc (suc f)) d (t ∷ []) n h = rw (strtok-last d t n.0 n.1, tokens)
tokens-join (suc (suc f)) d (t ∷ u ∷ ts) n h =
    rw (strtok-field d t (join d (u ∷ ts)) n.0 n.1, tokens)
      (ap (◌∷◌ t) (tokens-join (suc f) d (u ∷ ts) n.2 (omega arith)))

pub length-le-join : (d : ℕ) (ts : List Text) → Names d ts → length ts ≤ length (join d ts)
length-le-join d [] n = omega arith
length-le-join d ([] ∷ []) n = absurd (n.0 refl)
length-le-join d ((c ∷ t) ∷ []) n = omega arith
length-le-join d ([] ∷ u ∷ ts) n = absurd (n.0 refl)
length-le-join d ((c ∷ t) ∷ u ∷ ts) n =
    omega (arith, length-append t (d ∷ join d (u ∷ ts)), length-le-join d (u ∷ ts) n.2)

abbrev pub NoBlank : Text → Type 0
NoBlank [] = Unit {0}
NoBlank (c ∷ s) = (is_blank c ≡ false) × NoBlank s

-- The new line at the end of the member list is cut off.
pub trim_line : (s : Text) → NoBlank s → trim (s ++ b'\n' ∷ []) ≡ s
unfolding trim
trim_line [] n = refl
trim_line (c ∷ []) n = rw n.0
trim_line (c ∷ x ∷ s) n = rw (trim_line (x ∷ s) n.1, trim)

pub Without-append : (d : ℕ) (s t : Text) → Without d s → Without d t → Without d (s ++ t)
Without-append d [] t a b = b
Without-append d (c ∷ s) t a b = (a.0, Without-append d s t a.1 b)
