-- ===== src/Gps/Worker.antt =====
-- `workerThreadProc` and the destructor of `GPSWork`. What the GPS library answers is a parameter, one
-- record for each turn of the loop.
use jsntp_lcdd.Prelude.{ℕ, zero, suc, Bool, true, false, List, [], ◌∷◌, if◌then◌else◌, ◌==◌}

-- The calls of the thread and their answers; a `usleep` of 100 ms is a call too.
pub data Action : Type 0 where
  slept : Action
  opened : (ok : Bool) → Action
  streamed : Action
  waited : (ready : Bool) → Action
  read : (ok : Bool) → Action
  set_data : Action
  closed : Action

-- What the library answers in one turn: to `gps_open`, `gps_waiting` and `gps_read`.
pub record Turn : Type 0 where
  pub opens : Bool
  pub ready : Bool
  pub reads : Bool

-- `worker_run` is 1 running, 2 stopping, 0 stopped; the newest action stands first.
pub record Worker : Type 0 where
  pub worker_run : ℕ
  pub connected : Bool
  pub trace : List Action

-- The constructor.
abbrev pub new_worker : Worker
new_worker = record { worker_run = 1; connected = false; trace = [] }

abbrev pub act : Action → Worker → Worker
act a w = record w { trace = a ∷ w.trace }

unfoldable pub close_connection : Worker → Worker
close_connection w = if w.connected then record (act closed w) { connected = false } else w

-- `case 0`.
unfoldable pub connect : Turn → Worker → Worker
connect t w =
    if t.opens
    then act streamed (record (act (opened true) w) { connected = true })
    else act (opened false) w

-- `case 1` and `if(bErr)`.
unfoldable pub receive : Turn → Worker → Worker
unfolding close_connection
receive t w =
    if t.ready
    then (if t.reads
        then act set_data (act (read true) (act (waited true) w))
        else act (read false) (act (waited true) w))
    else close_connection (act (waited false) w)

unfoldable pub turn : Turn → Worker → Worker
unfolding connect receive
turn t w = let w' = act slept w in if w.connected then receive t w' else connect t w'

-- The loop with the turns that it makes until it finds `m_worker_run` changed, and its end.
unfoldable pub worker_thread_proc : List Turn → Worker → Worker
unfolding turn close_connection
worker_thread_proc [] w = record (close_connection w) { worker_run = 0 }
worker_thread_proc (t ∷ ts) w = worker_thread_proc ts (turn t w)

-- The loop of the destructor; `seen n` is `m_worker_run` at its test number `n`. The result is how
-- often it sleeps for 10 ms.
unfoldable pub wait_stop : (fuel cnt : ℕ) → (seen : ℕ → ℕ) → ℕ
wait_stop zero cnt seen = cnt
wait_stop (suc fuel) cnt seen =
    let rest = wait_stop fuel (suc cnt) seen in if seen cnt == 0 then cnt else rest

unfoldable pub drop_worker : (seen : ℕ → ℕ) → ℕ
unfolding wait_stop
drop_worker seen = wait_stop 75 0 seen
