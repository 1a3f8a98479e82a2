-- ===== src/Logger/Chain.antt =====
-- The text of a line that comes from a logger below others.
use jsntp_lcdd.Prelude.{
  ℕ, ◌<◌, ◌≡◌, ◌⊎◌, refl, sym, ap, ◌∙◌, true, List, [], ◌∷◌, ◌++◌, append_assoc, length,
  length-append, arith, lt→ltb,
}
use jsntp_lcdd.Prelude.Text.{codes}
use jsntp_lcdd.Logger.Defs.{
  OutputType, stdout_out, stderr_out, callback_out, file_out, LogType, emerg, alert, crit, err,
  warning, notice, info, debug, undefined_type, Logger, root, child, put, buf_size, type_name,
  stamped, put_line, output, child_puts, printf,
}

-- The output at the end of the chain, and the names on the way to it, the outermost first.
abbrev pub output_of : Logger → OutputType
output_of (root out) = out
output_of (child parent name) = output_of parent

abbrev pub prefixes : Logger → List ℕ
prefixes (root out) = []
prefixes (child parent name) = prefixes parent ++ (name ++ codes ": ")

regroup : (a n s p r : List ℕ) → a ++ ((n ++ (s ++ p)) ++ r) ≡ (a ++ (n ++ s)) ++ (p ++ r)
regroup a n s p r = simp append_assoc

-- `prefix` stands for `name ++ ": "` of the loggers below.
child_puts_lem :
    (l : Logger) (t : LogType) (stamp prefix text : List ℕ)
    → length (prefixes l ++ (prefix ++ (codes ": " ++ text))) < buf_size
    → child_puts l t stamp prefix text
      ≡ output (output_of l) t stamp (prefixes l ++ (prefix ++ (codes ": " ++ text)))
unfolding child_puts
child_puts_lem (root out) t stamp prefix text h = rw (lt→ltb _ _ h) refl
child_puts_lem (child parent name) t stamp prefix text h =
    let colon : List ℕ = codes ": " in
    let e = regroup (prefixes parent) name colon prefix (colon ++ text) in
    child_puts_lem parent t stamp (name ++ (colon ++ prefix)) text (rw e h)
    ∙ ap (output (output_of parent) t stamp) e

abbrev pub IsWriter : OutputType → Type 0
IsWriter out =
    (out ≡ stdout_out) ⊎ ((out ≡ stderr_out) ⊎ ((out ≡ callback_out) ⊎ (out ≡ file_out true)))

output-put :
    (out : OutputType) (t : LogType) (stamp text : List ℕ)
    → IsWriter out
    → length (stamped t stamp text) < buf_size
    → output out t stamp text ≡ put out (stamped t stamp text)
unfolding output put_line
output-put out t stamp text w h = ground (arith, lt→ltb _ _ h)

text_shorter :
    (t : LogType) (stamp prefix text : List ℕ)
    → length (stamped t stamp (prefix ++ text)) < buf_size
    → (length text < buf_size) × (length (prefix ++ text) < buf_size)
unfolding stamped
text_shorter t stamp prefix text h =
    let close : List ℕ = codes "] " in
    let line : List ℕ = (prefix ++ text) ++ b'\n' ∷ [] in
    omega (
      arith,
      length-append (type_name t) (close ++ (stamp ++ (close ++ line))),
      length-append stamp (close ++ line),
      length-append (prefix ++ text) (b'\n' ∷ []),
      length-append prefix text,
    )

printf-stamped :
    (l : Logger) (t : LogType) (stamp text : List ℕ)
    → IsWriter (output_of l)
    → length (stamped t stamp (prefixes l ++ text)) < buf_size
    → printf l t stamp text ≡ put (output_of l) (stamped t stamp (prefixes l ++ text))
unfolding printf
printf-stamped (root out) t stamp text w h =
    rw (lt→ltb _ _ (text_shorter t stamp [] text h).0) (output-put out t stamp text w h)
printf-stamped (child parent name) t stamp text w h =
    let (short, whole) = text_shorter t stamp (prefixes (child parent name)) text h in
    let colon : List ℕ = codes ": " in
    let whole_text : List ℕ = prefixes (child parent name) ++ text in
    let e : whole_text ≡ prefixes parent ++ (name ++ (colon ++ text)) = simp append_assoc in
    rw (lt→ltb _ _ short) (
      child_puts_lem parent t stamp name text (rw (sym e) whole)
      ∙ ap (output (output_of parent) t stamp) (sym e)
      ∙ output-put (output_of parent) t stamp whole_text w h)

-- A line as it is to be put out: the name of its type, its time and its text.
abbrev pub label : LogType → List ℕ
label emerg = codes "EMERG"
label alert = codes "ALERT"
label crit = codes "CRIT"
label err = codes "ERR"
label warning = codes "WARN"
label notice = codes "NOTI"
label info = codes "INFO"
label debug = codes "DEBUG"
label undefined_type = codes "UNDEFINED"

abbrev pub whole_line : LogType → (stamp text : List ℕ) → List ℕ
whole_line t stamp text =
    codes "[" ++ (label t ++ (codes "] " ++ (stamp ++ (codes "] " ++ (text ++ codes "\n")))))

stamped-whole_line :
    (t : LogType) (stamp text : List ℕ) → stamped t stamp text ≡ whole_line t stamp text
unfolding stamped type_name
stamped-whole_line emerg stamp text = refl
stamped-whole_line alert stamp text = refl
stamped-whole_line crit stamp text = refl
stamped-whole_line err stamp text = refl
stamped-whole_line warning stamp text = refl
stamped-whole_line notice stamp text = refl
stamped-whole_line info stamp text = refl
stamped-whole_line debug stamp text = refl
stamped-whole_line undefined_type stamp text = refl

-- A line that fits the buffer, printed to a logger whose chain of parents ends at an open
-- output, is put out there as the name of its type and its time and, behind the names of the
-- chain, the outermost first, its text.
pub printf-put :
    (l : Logger) (t : LogType) (stamp text : List ℕ)
    → IsWriter (output_of l)
    → length (whole_line t stamp (prefixes l ++ text)) < buf_size
    → printf l t stamp text ≡ put (output_of l) (whole_line t stamp (prefixes l ++ text))
printf-put l t stamp text w h =
    let e = stamped-whole_line t stamp (prefixes l ++ text) in
    printf-stamped l t stamp text w (omega (arith, ap length e)) ∙ ap (put (output_of l)) e
