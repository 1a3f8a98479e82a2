-- ===== src/Gps/Session.antt =====
-- The calls of the GPS thread keep to the protocol of the library.
use jsntp_lcdd.Prelude.{
  ℕ, zero, suc, ◌+◌, ◌≤◌, ◌<◌, ◌≡◌, ◌≢◌, ◌⊎◌, inl, inr, refl, Bool, true, false, Option, none, some,
  List, [], ◌∷◌, ◌==◌, arith, Bool-cases, ==_iff,
}
use jsntp_lcdd.Gps.Worker.{
  Action, slept, opened, streamed, waited, closed, Turn, Worker, new_worker, close_connection,
  connect, receive, turn, worker_thread_proc, wait_stop, drop_worker,
}

-- The protocol: a connection is opened while there is none, and streamed, waited for, read and closed
-- while there is one. `none` is a breach.
abbrev pub permitted : Action → Bool → Option Bool
permitted slept c = some c
permitted (opened ok) false = some ok
permitted (opened ok) true = none
permitted closed true = some false
permitted closed false = none
permitted _ true = some true
permitted _ false = none

abbrev pub follow : Action → Option Bool → Option Bool
follow a none = none
follow a (some c) = permitted a c

abbrev pub session : List Action → Option Bool
session [] = some false
session (a ∷ older) = follow a (session older)

turn-session :
    (t : Turn) (w : Worker)
    → session w.trace ≡ some w.connected
    → session (turn t w).trace ≡ some (turn t w).connected
unfolding turn connect receive close_connection
turn-session t w h = ground arith

close-session :
    (w : Worker)
    → session w.trace ≡ some w.connected
    → session (close_connection w).trace ≡ some false
unfolding close_connection
close-session w h = ground arith

loop-session :
    (ts : List Turn) (w : Worker)
    → session w.trace ≡ some w.connected
    → session (worker_thread_proc ts w).trace ≡ some false
unfolding worker_thread_proc
loop-session [] w h = close-session w h
loop-session (t ∷ ts) w h = loop-session ts (turn t w) (turn-session t w h)

loop-stops : (ts : List Turn) (w : Worker) → (worker_thread_proc ts w).worker_run ≡ 0
unfolding worker_thread_proc
loop-stops [] w = refl
loop-stops (t ∷ ts) w = loop-stops ts (turn t w)

-- Whatever the GPS library answers, the thread opens a connection only while it has none,
-- streams, waits, reads and closes only while it has one, and ends with none and the run flag
-- 0.
pub worker_thread_proc-session :
    (ts : List Turn)
    → (session (worker_thread_proc ts new_worker).trace ≡ some false)
      × ((worker_thread_proc ts new_worker).worker_run ≡ 0)
worker_thread_proc-session ts = (loop-session ts new_worker refl, loop-stops ts new_worker)

-- A connected turn in which no data comes closes the connection, and the next turn whose
-- gps_open succeeds has a new one.
pub turn-reconnects :
    (t u : Turn) (w : Worker)
    → w.connected ≡ true
    → t.ready ≡ false
    → u.opens ≡ true
    → ((turn t w).connected ≡ false)
      × (turn u (turn t w) ≡ record w {
        connected = true;
        trace = streamed ∷ opened true ∷ slept ∷ closed ∷ waited false ∷ slept ∷ w.trace;
      })
unfolding turn connect receive close_connection
turn-reconnects t u w c r o = ground arith

-- The first test from `cnt` that finds 0, or the bound.
abbrev First : (seen : ℕ → ℕ) (cnt top n : ℕ) → Type 0
First seen cnt top n =
    (cnt ≤ n) × (n ≤ top) × ((seen n ≡ 0) ⊎ (n ≡ top)) × ((k : ℕ) → cnt ≤ k → k < n → seen k ≢ 0)

First-suc :
    (seen : ℕ → ℕ) (cnt fuel n : ℕ)
    → (seen cnt == 0) ≡ false
    → First seen (suc cnt) (suc cnt + fuel) n
    → First seen cnt (cnt + suc fuel) n
First-suc seen cnt fuel n e (p, q, r, s) = (
  omega arith,
  omega arith,
  ground arith,
  λ k a b. elim (Bool-cases (cnt == k)) [
    | inl same ↦ λ z. ground (arith, ==_iff cnt k)
    | inr apart ↦ s k (ground (arith, ==_iff cnt k)) b
  ],
)

wait_stop_lem :
    (fuel cnt : ℕ) (seen : ℕ → ℕ) → First seen cnt (cnt + fuel) (wait_stop fuel cnt seen)
unfolding wait_stop
wait_stop_lem zero cnt seen = (omega arith, omega arith, inr (omega arith), λ k p q e. omega arith)
wait_stop_lem (suc fuel) cnt seen = elim (Bool-cases (seen cnt == 0)) [
  | inl e ↦ rw e (omega arith, omega arith, inl ((==_iff (seen cnt) 0).0 e), λ k p q z. omega arith)
  | inr e ↦ rw e (First-suc seen cnt fuel _ e (wait_stop_lem fuel (suc cnt) seen))
]

-- The destructor sleeps at most 75 times; it stops at the first test that finds the run flag
-- 0, or after 75 sleeps.
pub drop_worker_lem :
    (seen : ℕ → ℕ)
    → let n = drop_worker seen in
      (n ≤ 75) × ((seen n ≡ 0) ⊎ (n ≡ 75)) × ((k : ℕ) → k < n → seen k ≢ 0)
unfolding drop_worker
drop_worker_lem seen =
    let (p, q, r, s) = wait_stop_lem 75 0 seen in (q, r, λ k h. s k (omega arith) h)
