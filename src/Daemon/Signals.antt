-- ===== src/Daemon/Signals.antt =====
-- The object `Daemon`, its setters, and `signalhandler`.
use jsntp_lcdd.Prelude.{
  ℕ, ◌≡◌, ◌≢◌, Bool, false, Option, none, some, List, [], ◌∷◌, if◌then◌else◌, ◌==◌, arith, ◌⊎◌, ap,
  ◌∙◌,
}
use jsntp_lcdd.Prelude.Int.{ℤ}
use jsntp_lcdd.Locks.Defs.{new_lockable_ex, lock_ex}
use jsntp_lcdd.Locks.Threads.{System, Reach, counting}
use jsntp_lcdd.Locks.Exclusion.{self_wait}
use jsntp_lcdd.Locks.Atomic.{Arith, AtomicNum, getifset, load, assign}
use jsntp_lcdd.Locks.Operators.{getifset_lem, getifset_waits, locked-runs}

-- The members of `Daemon` that it keeps for its owner: whether each callback is set, and the
-- parameter for them. `runstatus` is 0 stopped, 1 running, 2 stopping.
pub record Daemon : Type 0 where
  pub runstatus : AtomicNum ℕ
  pub cbparam : ℕ
  pub sig_handler : Bool
  pub reload_handler : Bool
  pub daemon_startup : Bool
  pub daemon_main : Bool
  pub help_handler : Bool
  pub is_daemon : Bool

-- `_init`.
abbrev pub new_daemon : Daemon
new_daemon = record {
  runstatus = record { ex = new_lockable_ex; value = 0 };
  cbparam = 0;
  sig_handler = false;
  reload_handler = false;
  daemon_startup = false;
  daemon_main = false;
  help_handler = false;
  is_daemon = false;
}

-- The second constructor.
unfoldable pub make_daemon : ℕ → (startup main : Bool) → Daemon
make_daemon cbparam startup main = record new_daemon {
  cbparam = cbparam;
  daemon_startup = startup;
  daemon_main = main;
}

unfoldable pub set_callback_param : ℕ → Daemon → Daemon
set_callback_param cbparam d = record d { cbparam = cbparam }

unfoldable pub set_sig_handler : Bool → Daemon → Daemon
set_sig_handler set d = record d { sig_handler = set }

unfoldable pub set_reload_handler : Bool → Daemon → Daemon
set_reload_handler set d = record d { reload_handler = set }

unfoldable pub set_daemon_startup : Bool → Daemon → Daemon
set_daemon_startup set d = record d { daemon_startup = set }

unfoldable pub set_daemon_main : Bool → Daemon → Daemon
set_daemon_main set d = record d { daemon_main = set }

unfoldable pub set_help_handler : Bool → Daemon → Daemon
set_help_handler set d = record d { help_handler = set }

unfoldable pub get_run_status : ℕ → Daemon → Option (ℕ × Daemon)
unfolding load
get_run_status self d = elim (load self d.runstatus) [
  | none ↦ none
  | some (v, a) ↦ some (v, record d { runstatus = a })
]

-- `m_runstatus = 1` in `main`.
unfoldable pub start_running : ℕ → Daemon → Option Daemon
unfolding assign
start_running self d = elim (assign self 1 d.runstatus) [
  | none ↦ none
  | some (_, a) ↦ some (record d { runstatus = a })
]

pub data Signal : Type 0 where
  sigint sigterm sighup other_signal : Signal

pub data Callback : Type 0 where
  called_sig_handler : (cbparam : ℕ) → Signal → Callback
  called_reload : (cbparam : ℕ) → Callback

-- The end of `signalhandler`, behind the owner's handler; `none` if it waits for the lock.
unfoldable pub switch_signal : Arith ℕ → ℕ → Signal → Daemon → Option (List Callback × Daemon)
unfolding getifset
switch_signal ops self sighup d =
    some (if d.reload_handler then called_reload d.cbparam ∷ [] else [], d)
switch_signal ops self other_signal d = some ([], d)
switch_signal ops self _ d = elim (getifset ops self 2 1 d.runstatus) [
  | none ↦ none
  | some (_, a) ↦ some ([], record d { runstatus = a })
]

-- `m_instance` is `none` before the object is made. The callbacks stand in the order of the calls.
unfoldable pub signalhandler :
    Arith ℕ → ℕ → Signal → Option Daemon → Option (List Callback × Option Daemon)
unfolding switch_signal
signalhandler ops self sig none = some ([], none)
signalhandler ops self sig (some d) = elim (switch_signal ops self sig d) [
  | none ↦ none
  | some (calls, d') ↦
      some (if d.sig_handler then called_sig_handler d.cbparam sig ∷ calls else calls, some d')
]

abbrev pub IsStop : Signal → Type 0
IsStop sig = (sig ≡ sigint) ⊎ (sig ≡ sigterm)

abbrev pub told : Daemon → Signal → List Callback
told d sig = if d.sig_handler then called_sig_handler d.cbparam sig ∷ [] else []

module _ (ops : Arith ℕ) (eq_is : (a b : ℕ) → ops.eq a b ≡ (a == b)) (self : ℕ) (d : Daemon) where
  switch_stop :
      (sig : Signal)
      → IsStop sig
      → lock_ex self d.runstatus.ex ≢ none
      → switch_signal ops self sig d
        ≡ some (
          [],
          if d.runstatus.value == 1
              then record d { runstatus = record d.runstatus { value = 2 } }
              else d,
        )
  unfolding switch_signal
  switch_stop sighup i h = ground arith
  switch_stop other_signal i h = ground arith
  switch_stop sigint i h =
      ground (arith, getifset_lem ops self d.runstatus 2 1 h, eq_is d.runstatus.value 1)
  switch_stop sigterm i h =
      ground (arith, getifset_lem ops self d.runstatus 2 1 h, eq_is d.runstatus.value 1)

  -- When the status lock can be taken, SIGINT and SIGTERM call the owner's handler and take
  -- the run status from 1 to 2, and leave any other status.
  pub signalhandler-stops :
      (sig : Signal)
      → IsStop sig
      → lock_ex self d.runstatus.ex ≢ none
      → signalhandler ops self sig (some d)
        ≡ some (
          told d sig,
          some (
              if d.runstatus.value == 1
              then record d { runstatus = record d.runstatus { value = 2 } }
              else d),
        )
  unfolding signalhandler
  signalhandler-stops sig i h = ground (arith, switch_stop sig i h)

  -- A stop signal while the status is 0 changes nothing, and the store of 1 that follows
  -- starts the program all the same.
  pub early_signal-lost :
      (sig : Signal)
      → IsStop sig
      → lock_ex self d.runstatus.ex ≢ none
      → d.runstatus.value ≡ 0
      → (signalhandler ops self sig (some d) ≡ some (told d sig, some d))
        × (start_running self d ≡ some (record d { runstatus = record d.runstatus { value = 1 } }))
  unfolding start_running
  early_signal-lost sig i h z = (
    ground (arith, signalhandler-stops sig i h),
    ground (arith, locked-runs self (λ v. (tt, 1)) d.runstatus h),
  )

switch_waits :
    (ops : Arith ℕ) (self : ℕ) (d : Daemon) (sig : Signal)
    → IsStop sig
    → lock_ex self d.runstatus.ex ≡ none
    → switch_signal ops self sig d ≡ none
unfolding switch_signal
switch_waits ops self d sighup i h = ground arith
switch_waits ops self d other_signal i h = ground arith
switch_waits ops self d sigint i h = rw (getifset_waits ops self d.runstatus 2 1 h, switch_signal)
switch_waits ops self d sigterm i h = rw (getifset_waits ops self d.runstatus 2 1 h, switch_signal)

-- In a reachable state in which a thread has taken the status mutex and not yet counted it, a
-- stop signal that interrupts this thread waits for ever.
pub signalhandler-waits :
    (ops : Arith ℕ) (self : ℕ) (d : Daemon) (sig : Signal) (s : System) (v : ℤ)
    → IsStop sig
    → Reach s
    → s.pc self ≡ counting 0 v
    → d.runstatus.ex ≡ s.mem
    → signalhandler ops self sig (some d) ≡ none
unfolding signalhandler
signalhandler-waits ops self d sig s v i r e m =
    let waits = ap (lock_ex self) m ∙ self_wait self v r e in
    rw (switch_waits ops self d sig i waits, signalhandler)
