-- ===== src/Daemon/Privileges.antt =====
-- With which rights the process starts its owner's functions.
use jsntp_lcdd.Prelude.{
  ◌^◌, ◌<◌, ◌≤◌, ℕ, ◌≡◌, refl, Bool, true, false, ◌||◌, Option, none, some, List, [], ◌∷◌,
  if◌then◌else◌, ◌==◌, arith, ◌⊎◌,
}
use jsntp_lcdd.Prelude.Int.{ℤ, pos}
use jsntp_lcdd.Daemon.Args.{Text, user, Options, no_options}
use jsntp_lcdd.Daemon.Settings.{
  Setting, written, values, asks_background, last_found, meant, parse-written,
}
use jsntp_lcdd.Daemon.Groups.{user_groups}
use jsntp_lcdd.Daemon.Run.{
  Action, forked, wrote_pid, pid_failed, set_groups, set_gid, set_uid, running, parent, child,
  World, Flow, returned, stop, run, daemon_main,
}

-- The kinds of action that rights depend on.
abbrev pub is_set_groups : Action → Bool
is_set_groups (set_groups gs) = true
is_set_groups _ = false

abbrev pub is_set_gid : ℕ → Action → Bool
is_set_gid g (set_gid h) = h == g
is_set_gid g _ = false

abbrev pub is_set_uid : ℕ → Action → Bool
is_set_uid u (set_uid v) = v == u
is_set_uid u _ = false

abbrev pub has : (Action → Bool) → List Action → Bool
has p [] = false
has p (a ∷ older) = p a || has p older

-- The groups are set before the group, the group before the user, and the user before the owner's
-- main function runs.
abbrev pub Dropped : (uid gid : ℕ) → List Action → Type 0
Dropped uid gid [] = Unit {0}
Dropped uid gid (running ∷ older) = (has (is_set_uid uid) older ≡ true) × Dropped uid gid older
Dropped uid gid (set_uid u ∷ older) = (has (is_set_gid gid) older ≡ true) × Dropped uid gid older
Dropped uid gid (set_gid g ∷ older) = (has is_set_groups older ≡ true) × Dropped uid gid older
Dropped uid gid (_ ∷ older) = Dropped uid gid older

-- With a user found whose number is below 2^31, the main function runs only after setuid, that
-- only after setgid, and that only after setgroups, in every world.
pub run-Dropped :
    (w : World) (o : Options) (uid gid : ℕ)
    → o.ids ≡ some (uid, gid)
    → uid < 2 ^ 31
    → Dropped uid gid (run w o []).1
unfolding run
run-Dropped w o uid gid h small = ground arith

-- With a user found whose number is below 2^31, a readable group file and a startup that
-- returns 0, the process reaches its main function and returns what that returns.
pub run-serves :
    (w : World) (o : Options) (uid gid : ℕ) (name file : Text) (groups : List ℕ) (rc : ℤ)
    → (o.is_daemon ≡ false) ⊎ (w.fork ≡ child)
    → o.ids ≡ some (uid, gid)
    → uid < 2 ^ 31
    → o.username ≡ some name
    → w.group_file ≡ some file
    → user_groups name file ≡ some groups
    → w.startup ≡ some (pos 0)
    → w.main ≡ some rc
    → ((run w o []).0 ≡ stop (returned rc))
      × (has (is_set_uid uid) (run w o []).1 ≡ true)
      × (has (λ a. elim a as (λ _. Bool) [ running ↦ true | _ ↦ false ]) (run w o []).1 ≡ true)
unfolding run
run-serves w o uid gid name file groups rc d hi small hn hf hg hs hm = ground arith

-- The parent of a daemon only writes the pid file with the number of the child and returns 0.
pub run-parent :
    (w : World) (o : Options) (pid : ℕ)
    → o.is_daemon ≡ true
    → w.fork ≡ parent pid
    → run w o [] ≡ (
      stop (returned (pos 0)),
      elim o.pid_path as (λ _. List Action) [
        | none ↦ forked ∷ []
        | some path ↦ (if w.pid_opens then wrote_pid path pid else pid_failed path) ∷ forked ∷ []
      ],
    )
unfolding run
run-parent w o pid hd hf = ground arith

abbrev pub is_running : Action → Bool
is_running a = elim a as (λ _. Bool) [ running ↦ true | _ ↦ false ]

-- What a process does that sets no rights and reaches its main function.
pub record Kept (rc : ℤ) (r : Flow (Unit {0}) × List Action) : Type 0 where
  pub exits : r.0 ≡ stop (returned rc)
  pub ran : has is_running r.1 ≡ true
  pub groups : has is_set_groups r.1 ≡ false
  pub gid : (id : ℕ) → has (is_set_gid id) r.1 ≡ false
  pub uid : (id : ℕ) → has (is_set_uid id) r.1 ≡ false

no_ids-Kept :
    (w : World) (o : Options) (rc : ℤ)
    → (o.is_daemon ≡ false) ⊎ (w.fork ≡ child)
    → o.ids ≡ none
    → w.startup ≡ some (pos 0)
    → w.main ≡ some rc
    → Kept rc (run w o [])
unfolding run
no_ids-Kept w o rc d hi hs hm = record {
  exits = ground arith;
  ran = ground arith;
  groups = ground arith;
  gid = λ id. ground arith;
  uid = λ id. ground arith;
}

-- No name of a list is found.
abbrev pub AreUnknown : (Text → Option (ℕ × ℕ)) → List Text → Type 0
AreUnknown lookup [] = Unit {0}
AreUnknown lookup (v ∷ vs) = (lookup v ≡ none) × AreUnknown lookup vs

unknown-last :
    (lookup : Text → Option (ℕ × ℕ)) (vs : List Text)
    → AreUnknown lookup vs
    → last_found lookup vs none ≡ none
unknown-last lookup [] u = refl
unknown-last lookup (v ∷ vs) (e, u) = rw e (unknown-last lookup vs u)

-- With well-written settings in which no user is named that is found, in the foreground or as
-- the child of its fork, and with a startup that returns 0, the process reaches its main
-- function, returns what that returns, and never sets groups, a group or a user.
pub unknown_user-keeps :
    (w : World) (ss : List Setting) (rc : ℤ)
    → AreUnknown w.lookup (values user ss)
    → (asks_background ss ≡ false) ⊎ (w.fork ≡ child)
    → w.startup ≡ some (pos 0)
    → w.main ≡ some rc
    → Kept rc (daemon_main w (written ss) [])
unfolding daemon_main
unknown_user-keeps w ss rc unknown place hs hm =
    let o = meant w.lookup ss no_options in
    let here : (o.is_daemon ≡ false) ⊎ (w.fork ≡ child) = ground arith in
    rw (parse-written w.lookup ss, daemon_main)
      (no_ids-Kept w o rc here (unknown-last w.lookup (values user ss) unknown) hs hm)

-- With a startup that returns 0, a user whose number is 2^31 or more is taken for none: the
-- process reaches its main function with no groups and no user set.
pub large_uid-keeps :
    (w : World) (o : Options) (uid gid : ℕ) (rc : ℤ)
    → (o.is_daemon ≡ false) ⊎ (w.fork ≡ child)
    → o.ids ≡ some (uid, gid)
    → 2 ^ 31 ≤ uid
    → w.startup ≡ some (pos 0)
    → w.main ≡ some rc
    → ((run w o []).0 ≡ stop (returned rc))
      × (has is_set_groups (run w o []).1 ≡ false)
      × ((id : ℕ) → has (is_set_uid id) (run w o []).1 ≡ false)
unfolding run
large_uid-keeps w o uid gid rc d hi large hs hm = (ground arith, ground arith, λ id. ground arith)
