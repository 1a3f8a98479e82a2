-- ===== src/Daemon/Settings.antt =====
-- Command lines that are written from settings, and what the loop of `Daemon::main` makes of them.
use jsntp_lcdd.Prelude.{
  arith, ℕ, ◌≡◌, refl, Bool, true, false, Option, none, some, List, [], ◌∷◌, ◌++◌, if◌then◌else◌,
  length, ap, sym, ◌∙◌, append-nil,
}
use jsntp_lcdd.Prelude.Text.{codes}
use jsntp_lcdd.Prelude.Int.{pos}
use jsntp_lcdd.Daemon.Args.{
  Parsed, Text, Key, pidfile, user, logfile, key_name, Options, no_options, daemonize, value_next,
  value_here, classify, null_user, overrun, parsed, null_terminated, set_option, set_null, walk,
  parse,
}

-- What a user means to say, and how it is written: the value apart, or behind `=`.
pub data Setting : Type 0 where
  background : Setting
  apart : Key → Text → Setting
  joined : Key → Text → Setting

abbrev pub written : List Setting → List Text
written [] = []
written (background ∷ ss) = codes "-D" ∷ written ss
written (apart k v ∷ ss) = key_name k ∷ v ∷ written ss
written (joined k v ∷ ss) = (key_name k ++ b'=' ∷ v) ∷ written ss

classify_background : classify (codes "-D") ≡ daemonize
unfolding classify
classify_background = refl

classify_apart : (k : Key) → classify (key_name k) ≡ value_next k
unfolding classify
classify_apart pidfile = refl
classify_apart user = refl
classify_apart logfile = refl

classify_joined : (k : Key) (v : Text) → classify (key_name k ++ b'=' ∷ v) ≡ value_here k v
unfolding classify
classify_joined pidfile v = refl
classify_joined user v = refl
classify_joined logfile v = refl

-- The values that settings give to an option, in their order.
abbrev pub same_key : Key → Key → Bool
same_key pidfile pidfile = true
same_key user user = true
same_key logfile logfile = true
same_key _ _ = false

abbrev pub values : Key → List Setting → List Text
values k [] = []
values k (background ∷ ss) = values k ss
values k (apart j v ∷ ss) = if same_key j k then v ∷ values k ss else values k ss
values k (joined j v ∷ ss) = if same_key j k then v ∷ values k ss else values k ss

abbrev pub last_of : List Text → Option Text → Option Text
last_of [] old = old
last_of (v ∷ vs) old = last_of vs (some v)

abbrev pub asks_background : List Setting → Bool
asks_background [] = false
asks_background (background ∷ ss) = true
asks_background (apart k v ∷ ss) = asks_background ss
asks_background (joined k v ∷ ss) = asks_background ss

module _ (lookup : Text → Option (ℕ × ℕ)) where
  -- The ids of the last user that is found.
  abbrev pub last_found : List Text → Option (ℕ × ℕ) → Option (ℕ × ℕ)
  last_found [] old = old
  last_found (v ∷ vs) old = last_found vs (elim (lookup v) [ none ↦ old | some i ↦ some i ])

  -- Each path and the name is the last value that is given for it.
  abbrev pub meant : List Setting → Options → Options
  meant ss o = record {
    is_daemon = if asks_background ss then true else o.is_daemon;
    pid_path = last_of (values pidfile ss) o.pid_path;
    username = last_of (values user ss) o.username;
    ids = last_found (values user ss) o.ids;
    log_path = last_of (values logfile ss) o.log_path;
  }

  meant_background :
      (ss : List Setting) (o : Options)
      → meant ss (record o { is_daemon = true }) ≡ meant (background ∷ ss) o
  meant_background ss o = ground arith

  -- An option and its value say the same in both forms.
  meant_option :
      (k : Key) (v : Text) (ss : List Setting) (o : Options)
      → (meant ss (set_option lookup k v o) ≡ meant (apart k v ∷ ss) o)
        × (meant ss (set_option lookup k v o) ≡ meant (joined k v ∷ ss) o)
  unfolding set_option
  meant_option pidfile v ss o = (refl, refl)
  meant_option user v ss o = (refl, refl)
  meant_option logfile v ss o = (refl, refl)

  -- The loop over well-written settings, with `tail` behind them.
  walk-written :
      (ss : List Setting) (tail : List Text) (o : Options)
      → walk lookup none
          (pos (length (written ss ++ tail)))
          (null_terminated (written ss ++ tail))
          o
        ≡ walk lookup none (pos (length tail)) (null_terminated tail) (meant ss o)
  unfolding walk
  walk-written [] tail o = refl
  walk-written (background ∷ ss) tail o =
      walk-written ss tail (record o { is_daemon = true })
      ∙ ap (walk lookup none (pos (length tail)) (null_terminated tail)) (meant_background ss o)
  walk-written (apart k v ∷ ss) tail o =
      rw (classify_apart k, walk)
        (walk-written ss tail (set_option lookup k v o)
          ∙ ap (walk lookup none (pos (length tail)) (null_terminated tail))
              (meant_option k v ss o).0)
  walk-written (joined k v ∷ ss) tail o =
      rw (classify_joined k v, walk)
        (walk-written ss tail (set_option lookup k v o)
          ∙ ap (walk lookup none (pos (length tail)) (null_terminated tail))
              (meant_option k v ss o).1)

  -- Behind the last option whose value is missing.
  abbrev pub missing : Key → Options → Parsed
  missing user o = null_user (record o { username = none })
  missing pidfile o = overrun (record o { pid_path = none })
  missing logfile o = overrun (record o { log_path = none })

  last_alone :
      (k : Key) (o : Options)
      → walk lookup none (pos 1) (some (key_name k) ∷ none ∷ []) o ≡ missing k o
  unfolding walk set_null classify
  last_alone pidfile o = refl
  last_alone user o = refl
  last_alone logfile o = refl

  -- A command line made of options with their values is parsed: the process is a daemon if -D
  -- is among them, each path and the name of the user is the last value that is given for it,
  -- and the ids are those of the last user that is found.
  pub parse-written : (ss : List Setting) → parse lookup (written ss) ≡ parsed (meant ss no_options)
  unfolding parse
  parse-written ss =
      ap (λ args. walk lookup none (pos (length args)) (null_terminated args) no_options)
        (sym (append-nil (written ss)))
      ∙ walk-written ss [] no_options

  -- After well-written settings an option whose value is missing at the end is given the null
  -- pointer of argv: for --user, getpwnam_r is called with it; for --pidfile and --logfile the
  -- path becomes null, and the loop, whose argc2 is then below 0, reads argv behind its null
  -- pointer.
  pub parse_overrun :
      (ss : List Setting) (k : Key)
      → parse lookup (written ss ++ key_name k ∷ []) ≡ missing k (meant ss no_options)
  unfolding parse
  parse_overrun ss k =
      walk-written ss (key_name k ∷ []) no_options ∙ last_alone k (meant ss no_options)
