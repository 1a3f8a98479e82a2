-- ===== src/Gps/Shared.antt =====
-- Threads over one `GPSWork::Data`: `setData` of the worker, and the two counts of the main loop,
-- step by step. A step is a step of the lock, or one access to an entry of the data.
use jsntp_lcdd.Prelude.{
  ℕ, zero, suc, ◌<◌, ◌≡◌, ◌⊎◌, List, [], ◌∷◌, if◌then◌else◌, ◌==◌, length, get_or,
}
use jsntp_lcdd.Locks.Defs.{LockableEx}
use jsntp_lcdd.Locks.Threads.{
  Pc, running, locking, counting, unlocking, dropping, Move, update, System,
}
use jsntp_lcdd.Gps.Data.{GpsData}

-- Where a thread stands in `setData`, or in the counts of the main loop with the values so far.
pub data Job : Type 0 where
  resting : Job
  storing : GpsData → Job  -- in the `lock` of `setData`
  copying : GpsData → Job  -- in its `memcpy`
  stored : Job  -- in its `unlock`
  outer_lock : Job
  used_lock : Job
  used_loop : (i value : ℕ) → Job
  used_unlock : (value : ℕ) → Job
  visible_lock : (used : ℕ) → Job
  visible_loop : (used i value : ℕ) → Job
  visible_unlock : (used value : ℕ) → Job
  outer_unlock : (used visible : ℕ) → Job
  shown : (used visible : ℕ) → Job

-- In a `lock` from a depth, and in an `unlock` down to a depth.
abbrev pub Up : ℕ → Pc → Type 0
Up d (running e) = (e ≡ d) ⊎ (e ≡ suc d)
Up d (locking e n) = e ≡ d
Up d (counting e v) = e ≡ d
Up d (unlocking e n) = ⊥
Up d (dropping e v) = ⊥

abbrev pub Down : ℕ → Pc → Type 0
Down d (running e) = (e ≡ suc d) ⊎ (e ≡ d)
Down d (locking e n) = ⊥
Down d (counting e v) = ⊥
Down d (unlocking e n) = e ≡ d
Down d (dropping e v) = e ≡ d

-- Where in the lock a thread may be.
abbrev pub Place : Job → Pc → Type 0
Place resting p = p ≡ running 0
Place (storing g) p = Up 0 p
Place (copying g) p = p ≡ running 1
Place stored p = Down 0 p
Place outer_lock p = Up 0 p
Place used_lock p = Up 1 p
Place (used_loop i value) p = p ≡ running 2
Place (used_unlock value) p = Down 1 p
Place (visible_lock used) p = Up 1 p
Place (visible_loop used i value) p = p ≡ running 2
Place (visible_unlock used value) p = Down 1 p
Place (outer_unlock used visible) p = Down 0 p
Place (shown used visible) p = p ≡ running 0

-- `last` and `before` record what was stored whole; no thread looks at them.
pub record World : Type 0 where
  pub locks : System
  pub gpsdata : GpsData
  pub job : ℕ → Job
  pub last : GpsData
  pub before : List GpsData

abbrev pub set_job : (ℕ → Job) → ℕ → Job → ℕ → Job
set_job f i x j = if i == j then x else f j

abbrev pub with_job : World → ℕ → Job → World
with_job s i x = record s { job = set_job s.job i x }

abbrev pub set_entry : List ℕ → ℕ → ℕ → List ℕ
set_entry [] i v = []
set_entry (x ∷ xs) zero v = v ∷ xs
set_entry (x ∷ xs) (suc i) v = x ∷ set_entry xs i v

-- `if(... != 0) value++;`
abbrev pub counted : List ℕ → ℕ → ℕ → ℕ
counted xs i value = if get_or xs i 0 == 0 then value else suc value

-- One step of thread `i`. `n` is MAXCHANNELS; `memcpy` may copy the entries in any order.
pub data Act (n : ℕ) (s : World) (i : ℕ) : World → Type 0 where
  locks :
      {m : LockableEx} {p : Pc}
      → Move i s.locks.mem (s.locks.pc i) m p
      → Place (s.job i) p
      → Act n s i (record s { locks = record { mem = m; pc = update s.locks.pc i p } })
  set_data :
      (g : GpsData)
      → length g.used ≡ n
      → length g.prn ≡ n
      → s.job i ≡ resting
      → Act n s i (with_job s i (storing g))
  start_copy :
      {g : GpsData}
      → s.job i ≡ storing g
      → s.locks.pc i ≡ running 1
      → Act n s i (with_job s i (copying g))
  copy_used :
      {g : GpsData} (k : ℕ)
      → s.job i ≡ copying g
      → Act n s i (record s {
        gpsdata = record s.gpsdata { used = set_entry s.gpsdata.used k (get_or g.used k 0) };
      })
  copy_prn :
      {g : GpsData} (k : ℕ)
      → s.job i ≡ copying g
      → Act n s i (record s {
        gpsdata = record s.gpsdata { prn = set_entry s.gpsdata.prn k (get_or g.prn k 0) };
      })
  end_copy :
      {g : GpsData}
      → s.job i ≡ copying g
      → s.gpsdata ≡ g
      → Act n s i (record (with_job s i stored) { last = g; before = s.last ∷ s.before })
  end_set_data : s.job i ≡ stored → s.locks.pc i ≡ running 0 → Act n s i (with_job s i resting)
  start_counts : s.job i ≡ resting → Act n s i (with_job s i outer_lock)
  call_used : s.job i ≡ outer_lock → s.locks.pc i ≡ running 1 → Act n s i (with_job s i used_lock)
  start_used :
      s.job i ≡ used_lock → s.locks.pc i ≡ running 2 → Act n s i (with_job s i (used_loop 0 0))
  look_used :
      {k v : ℕ}
      → s.job i ≡ used_loop k v
      → k < n
      → Act n s i (with_job s i (used_loop (suc k) (counted s.gpsdata.used k v)))
  end_used : {k v : ℕ} → s.job i ≡ used_loop k v → k ≡ n → Act n s i (with_job s i (used_unlock v))
  call_visible :
      {u : ℕ}
      → s.job i ≡ used_unlock u
      → s.locks.pc i ≡ running 1
      → Act n s i (with_job s i (visible_lock u))
  start_visible :
      {u : ℕ}
      → s.job i ≡ visible_lock u
      → s.locks.pc i ≡ running 2
      → Act n s i (with_job s i (visible_loop u 0 0))
  look_visible :
      {u k v : ℕ}
      → s.job i ≡ visible_loop u k v
      → k < n
      → Act n s i (with_job s i (visible_loop u (suc k) (counted s.gpsdata.prn k v)))
  end_visible :
      {u k v : ℕ}
      → s.job i ≡ visible_loop u k v
      → k ≡ n
      → Act n s i (with_job s i (visible_unlock u v))
  call_unlock :
      {u v : ℕ}
      → s.job i ≡ visible_unlock u v
      → s.locks.pc i ≡ running 1
      → Act n s i (with_job s i (outer_unlock u v))
  show :
      {u v : ℕ}
      → s.job i ≡ outer_unlock u v
      → s.locks.pc i ≡ running 0
      → Act n s i (with_job s i (shown u v))
  rest : {u v : ℕ} → s.job i ≡ shown u v → Act n s i (with_job s i resting)

abbrev pub start : GpsData → World
start g = record {
  locks = jsntp_lcdd.Locks.Threads.start;
  gpsdata = g;
  job = λ _. resting;
  last = g;
  before = [];
}

-- From the data that the object starts with.
pub data Reach (n : ℕ) (g : GpsData) : World → Type 0 where
  here : Reach n g (start g)
  next : {s t : World} → Reach n g s → (i : ℕ) → Act n s i t → Reach n g t
