-- ===== src/Gps/Tests.antt =====
-- Concrete turns of the GPS thread, and concrete data.
use jsntp_lcdd.Prelude.{ℕ, ◌≤◌, ◌<◌, ◌≡◌, ◌≢◌, ◌⊎◌, true, false, some, [], ◌∷◌}
use jsntp_lcdd.Locks.Defs.{new_lockable_ex}
use jsntp_lcdd.Gps.Worker.{Turn, Worker, new_worker, worker_thread_proc, drop_worker}
use jsntp_lcdd.Gps.Session.{session, worker_thread_proc-session, drop_worker_lem}
use jsntp_lcdd.Gps.Data.{GpsData, Data}

abbrev good : Turn
good = record { opens = true; ready = true; reads = true }

abbrev silent : Turn
silent = record { opens = true; ready = false; reads = true }

abbrev broken : Turn
broken = record { opens = true; ready = true; reads = false }

session_example :
    (session (worker_thread_proc (good ∷ good ∷ silent ∷ broken ∷ []) new_worker).trace
      ≡ some false)
    × ((worker_thread_proc (good ∷ good ∷ silent ∷ broken ∷ []) new_worker).worker_run ≡ 0)
session_example = worker_thread_proc-session (good ∷ good ∷ silent ∷ broken ∷ [])

abbrev linked : Worker
linked = record new_worker { connected = true }

-- A thread that never stops.
drop_worker_example :
    (drop_worker (λ _. 2) ≤ 75)
    × ((◌≡◌ {A = ℕ} 2 0) ⊎ (drop_worker (λ _. 2) ≡ 75))
    × ((k : ℕ) → k < drop_worker (λ _. 2) → ◌≢◌ {A = ℕ} 2 0)
drop_worker_example = drop_worker_lem (λ _. 2)

abbrev no_data : Data
no_data = record { ex = new_lockable_ex; gpsdata = record { used = 0 ∷ []; prn = 0 ∷ [] } }

abbrev fix : GpsData
fix = record { used = 5 ∷ 0 ∷ 9 ∷ []; prn = 5 ∷ 7 ∷ 9 ∷ [] }
