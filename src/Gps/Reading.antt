-- ===== src/Gps/Reading.antt =====
-- What the main loop reads of the data that the GPS thread stores.
use jsntp_lcdd.Prelude.{ℕ, suc, ◌≡◌, ◌≢◌, ap, ◌∙◌, none, some, arith, Option-cases, inl, inr}
use jsntp_lcdd.Prelude.Int.{pos, ◌+ℤ◌}
use jsntp_lcdd.Locks.Defs.{LockableEx, acquire, get, set, lock_with, lock_ex}
use jsntp_lcdd.Locks.Balance.{unlock-lock}
use jsntp_lcdd.Locks.Exclusion.{lock_with-suc}
use jsntp_lcdd.Gps.Data.{
  GpsData, Data, count_nonzero, under_lock, set_data, get_used_satellites_count,
  get_visible_satellites_count, both_counts,
}

lock_ex-counted :
    (i d : ℕ) (x y : LockableEx)
    → x.tinfo i ≡ pos d
    → lock_ex i x ≡ some y
    → y.tinfo i ≡ pos (suc d)
unfolding lock_ex lock_with get set acquire ◌+ℤ◌
lock_ex-counted i d x y g h = ground arith

-- A thread that has the lock goes through it again.
lock_ex-again :
    (i d : ℕ) (x : LockableEx) → x.tinfo i ≡ pos (suc d) → (y : LockableEx) × (lock_ex i x ≡ some y)
unfolding lock_ex get
lock_ex-again i d x g = (
  record x { tinfo = set i (pos (suc (suc d))) x.tinfo },
  ap (lock_with i x) g ∙ lock_with-suc i d x,
)

under_lock_lem :
    {R : Type 0} (self : ℕ) (body : GpsData → R × GpsData) (d : Data) (x : LockableEx)
    → lock_ex self d.ex ≡ some x
    → under_lock self body d ≡ some ((body d.gpsdata).0, record d { gpsdata = (body d.gpsdata).1 })
under_lock_lem self body d x h =
    rw (h, under_lock)
      (ap
        (λ (k : LockableEx).
          some ((body d.gpsdata).0, record { ex = k; gpsdata = (body d.gpsdata).1 }))
        (unlock-lock self d.ex h))

both_counts-held :
    (self : ℕ) (d : Data) (x y : LockableEx)
    → lock_ex self d.ex ≡ some x
    → lock_ex self x ≡ some y
    → both_counts self d ≡ some ((count_nonzero d.gpsdata.used, count_nonzero d.gpsdata.prn), d)
unfolding both_counts get_used_satellites_count get_visible_satellites_count
both_counts-held self d x y h k =
    let held = record d { ex = x } in
    rw
      (
        h,
        under_lock_lem self (λ g. (count_nonzero g.used, g)) held y k,
        under_lock_lem self (λ g. (count_nonzero g.prn, g)) held y k,
        both_counts,
      )
      (ap
        (λ (l : LockableEx).
          some ((count_nonzero d.gpsdata.used, count_nonzero d.gpsdata.prn), record d { ex = l }))
        (unlock-lock self d.ex h))

pub both_counts_lem :
    (self n : ℕ) (d : Data)
    → lock_ex self d.ex ≢ none
    → d.ex.tinfo self ≡ pos n
    → both_counts self d ≡ some ((count_nonzero d.gpsdata.used, count_nonzero d.gpsdata.prn), d)
both_counts_lem self n d free g = elim (Option-cases (lock_ex self d.ex)) [
  | inl e ↦ absurd (free e)
  | inr (x, e) ↦
      let (y, k) = lock_ex-again self n x (lock_ex-counted self n d.ex x g e) in
      both_counts-held self d x y e k
]

-- For a thread that can take the lock and whose count is not negative: after set_data, the
-- main loop, which takes the lock twice over, gets the counts of the data stored last, and the
-- lock is as before.
pub set_data-both_counts :
    (self n : ℕ) (g : GpsData) (d : Data)
    → lock_ex self d.ex ≢ none
    → d.ex.tinfo self ≡ pos n
    → (set_data self g d ≡ some (tt, record d { gpsdata = g }))
      × (both_counts self (record d { gpsdata = g })
          ≡ some ((count_nonzero g.used, count_nonzero g.prn), record d { gpsdata = g }))
unfolding set_data
set_data-both_counts self n g d free h = elim (Option-cases (lock_ex self d.ex)) [
  | inl e ↦ absurd (free e)
  | inr (x, e) ↦ (
    under_lock_lem self (λ _. (tt, g)) d x e,
    both_counts_lem self n (record d { gpsdata = g }) free h,
  )
]
