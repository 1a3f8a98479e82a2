-- ===== src/Gps/Data.antt =====
-- The class `GPSWork::Data`: the last data of the receiver under a lock that its owner may take again.
use jsntp_lcdd.Prelude.{ℕ, suc, Option, none, some, List, [], ◌∷◌, if◌then◌else◌, ◌==◌}
use jsntp_lcdd.Locks.Defs.{LockableEx, lock_ex, unlock_ex}

-- The two arrays of `struct gps_data_t` that are read; each has MAXCHANNELS entries.
pub record GpsData : Type 0 where
  pub used : List ℕ
  pub prn : List ℕ

pub record Data : Type 0 where
  pub ex : LockableEx
  pub gpsdata : GpsData

-- The loop of the two counts.
unfoldable pub count_nonzero : List ℕ → ℕ
count_nonzero [] = 0
count_nonzero (x ∷ xs) = if x == 0 then count_nonzero xs else suc (count_nonzero xs)

-- `lock()`, the body, `unlock()`; `none` if the thread waits.
abbrev pub under_lock : {R : Type 0} → ℕ → (GpsData → R × GpsData) → Data → Option (R × Data)
under_lock self body d = elim (lock_ex self d.ex) [
  | none ↦ none
  | some x ↦ let (r, g) = body d.gpsdata in some (r, record { ex = unlock_ex self x; gpsdata = g })
]

unfoldable pub set_data : ℕ → GpsData → Data → Option (Unit {0} × Data)
set_data self pdata = under_lock self (λ _. (tt, pdata))

unfoldable pub get_used_satellites_count : ℕ → Data → Option (ℕ × Data)
unfolding count_nonzero
get_used_satellites_count self = under_lock self (λ g. (count_nonzero g.used, g))

unfoldable pub get_visible_satellites_count : ℕ → Data → Option (ℕ × Data)
unfolding count_nonzero
get_visible_satellites_count self = under_lock self (λ g. (count_nonzero g.prn, g))

-- The part of the main loop that reads both counts inside a lock of its own.
unfoldable pub both_counts : ℕ → Data → Option ((ℕ × ℕ) × Data)
unfolding get_used_satellites_count get_visible_satellites_count
both_counts self d = elim (lock_ex self d.ex) [
  | none ↦ none
  | some x ↦ elim (get_used_satellites_count self (record d { ex = x })) [
    | none ↦ none
    | some (used, d1) ↦ elim (get_visible_satellites_count self d1) [
      | none ↦ none
      | some (visible, d2) ↦ some ((used, visible), record d2 { ex = unlock_ex self d2.ex })
    ]
  ]
]
