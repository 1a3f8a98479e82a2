-- ===== src/Daemon/Run.antt =====
-- The life of the process: `Daemon::main` behind its command line, and `signalhandler`.
use jsntp_lcdd.Prelude.{ltb, ◌^◌, ℕ, Bool, Option, none, some, List, ◌∷◌, if◌then◌else◌, ◌==◌}
use jsntp_lcdd.Prelude.Int.{ℤ, pos, negsuc}
use jsntp_lcdd.Daemon.Args.{Text, Options, parsed, helped, null_user, null_argument, overrun, parse}
use jsntp_lcdd.Daemon.Groups.{user_groups}

-- What the process does to the system, and the calls of the two functions of its owner.
pub data Action : Type 0 where
  forked : Action
  wrote_pid : (path : Text) (pid : ℕ) → Action
  pid_failed : (path : Text) → Action
  opened_log : (path : Text) → Action
  log_to_stdout : Action
  changed_owner : (path : Text) (uid gid : ℕ) → Action
  set_groups : List ℕ → Action
  started : Action
  set_gid : ℕ → Action
  set_uid : ℕ → Action
  handles_signals : Action
  running : Action
  main_returned : Action

pub data Fork : Type 0 where
  parent : (child : ℕ) → Fork
  child : Fork
  fork_failed : Fork

-- What the process finds: `/etc/group` (if it opens), the result of `fork`, whether the pid file
-- opens, and what `m_daemonstartup` and `m_daemonmain` (if they are set) return.
pub record World : Type 0 where
  pub lookup : Text → Option (ℕ × ℕ)
  pub fork : Fork
  pub pid_opens : Bool
  pub group_file : Option Text
  pub startup : Option ℤ
  pub main : Option ℤ

-- `return rc`, or undefined behaviour: a null pointer, or a read behind the end of `argv`.
pub data Exit : Type 0 where
  returned : ℤ → Exit
  crashed : Exit

-- A step either goes on or ends the process; the newest action stands first.
pub data Flow (A : Type 0) : Type 0 where
  go : A → Flow A
  stop : Exit → Flow A

abbrev pub M : Type 0 → Type 0
M A = List Action → Flow A × List Action

infixl 5 ◌>>=◌ ◌>>◌
abbrev pub ◌>>=◌ : {A B : Type 0} → M A → (A → M B) → M B
◌>>=◌ m f done = let (r, done') = m done in elim r [ go a ↦ f a done' | stop e ↦ (stop e, done') ]

abbrev pub ◌>>◌ : {A B : Type 0} → M A → M B → M B
m >> k = m >>= λ _. k

abbrev pub act : Action → M (Unit {0})
act a done = (go tt, a ∷ done)

abbrev pub skip : M (Unit {0})
skip done = (go tt, done)

abbrev pub exit : {A : Type 0} → Exit → M A
exit e done = (stop e, done)

-- The ids, if `arg_uid >= 0`: the user's number is put into an `int`.
abbrev pub chosen_ids : Options → Option (ℕ × ℕ)
chosen_ids o = elim o.ids [
  | none ↦ none
  | some (uid, gid) ↦ if ltb uid (2 ^ 31) then some (uid, gid) else none
]

module _ (w : World) where
  -- The parent, which writes the pid file and ends.
  unfoldable pub parent_phase : Options → ℕ → M (Unit {0})
  parent_phase o pid = do
    elim o.pid_path [
      | none ↦ skip
      | some path ↦ act (if w.pid_opens then wrote_pid path pid else pid_failed path)
    ]
    exit (returned (pos 0))

  unfoldable pub fork_phase : Options → M (Unit {0})
  unfolding parent_phase
  fork_phase o =
      if o.is_daemon
      then act forked >> elim w.fork [
        | parent pid ↦ parent_phase o pid
        | child ↦ skip
        | fork_failed ↦ exit (returned (pos 1))
      ]
      else skip

  unfoldable pub log_phase : Options → M (Unit {0})
  log_phase o = elim o.log_path [ none ↦ skip | some path ↦ act (opened_log path) ]

  -- The user's name is set wherever its ids are.
  unfoldable pub group_phase : Options → M (Unit {0})
  group_phase o = elim (chosen_ids o) [
    | none ↦ skip
    | some (uid, gid) ↦ elim w.group_file [
      | none ↦ exit (returned (pos 1))
      | some file ↦ elim o.username [
        | none ↦ exit crashed
        | some user ↦ elim (user_groups user file) [
          | none ↦ exit crashed
          | some groups ↦
              elim o.log_path [ none ↦ skip | some path ↦ act (changed_owner path uid gid) ]
              >> act (set_groups groups)
        ]
      ]
    ]
  ]

  -- The logger that is made when no other was.
  unfoldable pub stdout_phase : Options → M (Unit {0})
  stdout_phase o = elim o.log_path [ none ↦ act log_to_stdout | some path ↦ skip ]

  unfoldable pub startup_phase : M (Unit {0})
  startup_phase = elim w.startup [
    | none ↦ skip
    | some rc ↦ act started >> elim rc [
      | pos n ↦ if n == 0 then skip else exit (returned (pos n))
      | negsuc n ↦ exit (returned (negsuc n))
    ]
  ]

  unfoldable pub drop_phase : Options → M (Unit {0})
  drop_phase o = elim (chosen_ids o) [
    | none ↦ skip
    | some (uid, gid) ↦ act (set_gid gid) >> act (set_uid uid)
  ]

  unfoldable pub serve_phase : M (Unit {0})
  serve_phase = do
    act handles_signals
    act running
    elim w.main [
      | none ↦ exit (returned (pos 1))
      | some rc ↦ act main_returned >> exit (returned rc)
    ]

  unfoldable pub run : Options → M (Unit {0})
  unfolding fork_phase log_phase group_phase stdout_phase startup_phase drop_phase serve_phase
  run o = do
    fork_phase o
    log_phase o
    group_phase o
    stdout_phase o
    startup_phase
    drop_phase o
    serve_phase

  unfoldable pub daemon_main : List Text → M (Unit {0})
  unfolding parse run
  daemon_main args = elim (parse w.lookup args) [
    | parsed o ↦ run o
    | helped ↦ exit (returned (pos 0))
    | null_user o ↦ exit crashed
    | null_argument o ↦ exit crashed
    | overrun o ↦ exit crashed
  ]
