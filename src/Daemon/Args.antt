-- ===== src/Daemon/Args.antt =====
-- `checkArg` and the loop of `Daemon::main` over the command line.
use jsntp_lcdd.Prelude.{
  zero, suc, ℕ, Bool, true, false, ◌&&◌, Option, none, some, List, [], ◌∷◌, ◌++◌, if◌then◌else◌,
  ◌==◌, length, drop,
}
use jsntp_lcdd.Prelude.Text.{codes, str_eq}
use jsntp_lcdd.Prelude.Int.{ℤ, pos, negsuc}

abbrev pub Text : Type 0
Text = List ℕ

-- `strstr(arg, prefix) == arg`.
unfoldable pub starts_with : Text → Text → Bool
starts_with [] arg = true
starts_with (p ∷ prefix) [] = false
starts_with (p ∷ prefix) (c ∷ arg) = p == c && starts_with prefix arg

-- The results 0, the length of `prefix=`, and -1.
pub data ArgType : Type 0 where
  alone : ArgType
  with_value : (from : ℕ) → ArgType
  other : ArgType

unfoldable pub check_arg : (arg prefix : Text) → ArgType
unfolding str_eq starts_with
check_arg arg prefix =
    let prefixbuf = prefix ++ b'=' ∷ [] in
    if str_eq arg prefix
    then alone
    else if starts_with prefixbuf arg
    then with_value (length prefixbuf)
    else other

-- The options that take a value.
pub data Key : Type 0 where
  pidfile user logfile : Key

abbrev pub key_name : Key → Text
key_name pidfile = codes "--pidfile"
key_name user = codes "--user"
key_name logfile = codes "--logfile"

-- The locals of `main` that the loop sets; -1 for an unset user is `none`.
pub record Options : Type 0 where
  pub is_daemon : Bool
  pub pid_path : Option Text
  pub username : Option Text
  pub ids : Option (ℕ × ℕ)
  pub log_path : Option Text

abbrev pub no_options : Options
no_options = record {
  is_daemon = false;
  pid_path = none;
  username = none;
  ids = none;
  log_path = none;
}

-- What one argument asks for.
pub data Arg : Type 0 where
  daemonize : Arg
  value_next : Key → Arg
  value_here : Key → Text → Arg
  help : Arg
  unknown : Arg

-- One arm of the `else if` chain.
abbrev pub try_key : Key → Text → Arg → Arg
try_key k arg next = elim (check_arg arg (key_name k)) [
  | alone ↦ value_next k
  | with_value n ↦ value_here k (drop n arg)
  | other ↦ next
]

unfoldable pub classify : Text → Arg
unfolding check_arg str_eq
classify arg =
    if str_eq arg (codes "-D")
    then daemonize
    else try_key pidfile arg (
        try_key user arg
          (try_key logfile arg (if str_eq arg (codes "--help") then help else unknown)))

-- The last three are undefined behaviour: a null pointer for the name in `getpwnam_r`, a null pointer
-- for an argument in `strcmp`, and a read of `argv` behind its null pointer.
pub data Parsed : Type 0 where
  parsed : Options → Parsed
  helped : Parsed  -- the help text was printed
  null_user : Options → Parsed
  null_argument : Options → Parsed
  overrun : Options → Parsed

abbrev pub is_zero : ℤ → Bool
is_zero (pos zero) = true
is_zero (pos (suc n)) = false
is_zero (negsuc n) = false

-- `argc2--`.
abbrev pub less_one : ℤ → ℤ
less_one (pos zero) = negsuc 0
less_one (pos (suc n)) = pos n
less_one (negsuc n) = negsuc (suc n)

-- `argv` behind the name of the program, up to its null pointer.
abbrev pub null_terminated : List Text → List (Option Text)
null_terminated [] = none ∷ []
null_terminated (arg ∷ args) = some arg ∷ null_terminated args

-- `lookup` is `getpwnam_r`: the ids of a user that is found.
module _ (lookup : Text → Option (ℕ × ℕ)) where
  -- A user that is not found leaves the ids as they were.
  unfoldable pub set_option : Key → Text → Options → Options
  set_option pidfile v o = record o { pid_path = some v }
  set_option user v o = record o {
    username = some v;
    ids = elim (lookup v) [ none ↦ o.ids | some i ↦ some i ];
  }
  set_option logfile v o = record o { log_path = some v }

  -- The null pointer at the end of `argv` as a value.
  unfoldable pub set_null : Key → Options → Options
  set_null pidfile o = record o { pid_path = none }
  set_null user o = record o { username = none }
  set_null logfile o = record o { log_path = none }

  -- The loop while `argc2` is not 0; `none` is between two arguments, and `some k` is behind
  -- `++index` for the value of an option. Either way the entry costs one of `argc2`.
  unfoldable pub walk : Option Key → (argc2 : ℤ) → List (Option Text) → Options → Parsed
  unfolding classify set_option set_null
  walk none argc2 [] o = if is_zero argc2 then parsed o else overrun o
  walk none argc2 (none ∷ rest) o = if is_zero argc2 then parsed o else null_argument o
  walk none argc2 (some arg ∷ rest) o =
      let left : ℤ = less_one argc2 in
      let next = elim (classify arg) as (λ _. Parsed) [
        | daemonize ↦ walk none left rest (record o { is_daemon = true })
        | value_next k ↦ walk (some k) left rest o
        | value_here k v ↦ walk none left rest (set_option k v o)
        | help ↦ helped
        | unknown ↦ walk none left rest o
      ] in
      if is_zero argc2 then parsed o else next
  walk (some k) argc2 [] o = overrun o
  walk (some k) argc2 (some v ∷ rest) o = walk none (less_one argc2) rest (set_option k v o)
  walk (some user) argc2 (none ∷ rest) o = null_user (set_null user o)
  walk (some pidfile) argc2 (none ∷ rest) o = walk none (less_one argc2) rest (set_null pidfile o)
  walk (some logfile) argc2 (none ∷ rest) o = walk none (less_one argc2) rest (set_null logfile o)

  -- With `argc` 1 the loop is not entered, and `argc2` would be 0.
  unfoldable pub parse : List Text → Parsed
  unfolding walk
  parse args = walk none (pos (length args)) (null_terminated args) no_options
