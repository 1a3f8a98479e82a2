-- ===== src/Gps/Runs.antt =====
-- A run in which one thread stores data and another one counts them.
use jsntp_lcdd.Prelude.{◌≡◌, refl, inr, arith, [], ◌∷◌}
use jsntp_lcdd.Locks.Threads.{Move, call_lock, take, again, count, give, hold, uncount}
use jsntp_lcdd.Locks.Defs.{acquire, release, get, set}
use jsntp_lcdd.Prelude.Int.{◌+ℤ◌, ◌-ℤ◌}
use jsntp_lcdd.Gps.Data.{GpsData}
use jsntp_lcdd.Gps.Shared.{
  World, shown, locks, set_data, start_copy, copy_used, copy_prn, end_copy, end_set_data,
  start_counts, call_used, start_used, look_used, end_used, call_visible, start_visible,
  look_visible, end_visible, call_unlock, show, Reach, here, next,
}
use jsntp_lcdd.Gps.Inside.{OfOne}
use jsntp_lcdd.Gps.Snapshots.{counts-OfOne}

abbrev blank : GpsData
blank = record { used = 0 ∷ []; prn = 0 ∷ [] }

abbrev fresh : GpsData
fresh = record { used = 0 ∷ []; prn = 17 ∷ [] }

abbrev one_run : (w : World) × Reach 1 blank w × (w.job 0 ≡ shown 0 1) × (w.last ≡ fresh)
unfolding acquire release get set ◌+ℤ◌ ◌-ℤ◌
one_run = (
  _,
  next
      (next
        (next
          (next
            (next
              (next
                (next
                  (next
                    (next
                      (next
                        (next
                          (next
                            (next
                              (next
                                (next
                                  (next
                                    (next
                                      (next
                                        (next
                                          (next
                                            (next
                                              (next
                                                (next
                                                  (next
                                                    (next
                                                      (next
                                                        (next
                                                          (next
                                                            (next
                                                            (next
                                                            (next
                                                            (next
                                                            (next
                                                            (next
                                                            (next
                                                            (next
                                                            (next
                                                            (next
                                                            (next
                                                            (next
                                                            (next (here) 1
                                                            (set_data fresh refl refl refl))
                                                            1 (locks call_lock refl))
                                                            1 (locks (take refl refl) refl))
                                                            1 (locks count (inr refl)))
                                                            1 (start_copy refl refl))
                                                            1 (copy_used 0 refl))
                                                            1 (copy_prn 0 refl))
                                                            1 (end_copy refl refl))
                                                            1 (locks (Move.call_unlock refl) refl))
                                                            1 (locks (give refl) refl))
                                                            1 (locks uncount (inr refl)))
                                                            1 (end_set_data refl refl))
                                                            0 (start_counts refl))
                                                            0 (locks call_lock refl))
                                                          0 (locks (take refl refl) refl))
                                                        0 (locks count (inr refl)))
                                                      0 (call_used refl refl))
                                                    0 (locks call_lock refl))
                                                  0 (locks (again refl) refl))
                                                0 (locks count (inr refl)))
                                              0 (start_used refl refl))
                                            0 (look_used refl (omega arith)))
                                          0 (end_used refl refl))
                                        0 (locks (Move.call_unlock refl) refl))
                                      0 (locks (hold refl) refl))
                                    0 (locks uncount (inr refl)))
                                  0 (call_visible refl refl))
                                0 (locks call_lock refl))
                              0 (locks (again refl) refl))
                            0 (locks count (inr refl)))
                          0 (start_visible refl refl))
                        0 (look_visible refl (omega arith)))
                      0 (end_visible refl refl))
                    0 (locks (Move.call_unlock refl) refl))
                  0 (locks (hold refl) refl))
                0 (locks uncount (inr refl)))
              0 (call_unlock refl refl))
            0 (locks (Move.call_unlock refl) refl))
          0 (locks (give refl) refl))
        0 (locks uncount (inr refl)))
      0 (show refl refl),
  refl,
  refl,
)

counts-OfOne_example : OfOne 0 1 (one_run.0.last ∷ one_run.0.before)
counts-OfOne_example = counts-OfOne 1 blank one_run.0 0 0 1 refl refl one_run.1 one_run.2
