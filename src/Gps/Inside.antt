-- ===== src/Gps/Inside.antt =====
-- What a thread over the GPS data has seen, and whether it is inside the lock.
use jsntp_lcdd.Prelude.{
  ℕ, zero, suc, ◌≡◌, ◌⊎◌, inr, refl, ap, true, List, [], ◌∷◌, length, take, arith,
}
use jsntp_lcdd.Locks.Threads.{Pc, running, locking, counting, unlocking, dropping, holds}
use jsntp_lcdd.Gps.Data.{GpsData, count_nonzero}
use jsntp_lcdd.Gps.Shared.{
  Job, resting, storing, copying, stored, outer_lock, used_lock, used_loop, used_unlock,
  visible_lock, visible_loop, visible_unlock, outer_unlock, shown, Up, Down, Place,
}

abbrev pub In : GpsData → List GpsData → Type 0
In g [] = ⊥
In g (x ∷ xs) = (g ≡ x) ⊎ In g xs

-- The counts are those of one record that was stored whole, or of the first one.
abbrev pub OfOne : ℕ → ℕ → List GpsData → Type 0
OfOne u v gs = (g : GpsData) × In g gs × (u ≡ count_nonzero g.used) × (v ≡ count_nonzero g.prn)

abbrev pub Seen : Job → GpsData → List GpsData → Type 0
Seen (used_loop i v) last gs = v ≡ count_nonzero (take i last.used)
Seen (used_unlock v) last gs = v ≡ count_nonzero last.used
Seen (visible_lock u) last gs = u ≡ count_nonzero last.used
Seen (visible_loop u i v) last gs =
    (u ≡ count_nonzero last.used) × (v ≡ count_nonzero (take i last.prn))
Seen (visible_unlock u v) last gs = (u ≡ count_nonzero last.used) × (v ≡ count_nonzero last.prn)
Seen (outer_unlock u v) last gs = OfOne u v (last ∷ gs)
Seen (shown u v) last gs = OfOne u v (last ∷ gs)
Seen _ last gs = Unit {0}

abbrev pub Sized : ℕ → GpsData → Type 0
Sized n g = (length g.used ≡ n) × (length g.prn ≡ n)

-- The job reads the data, or writes it.
abbrev pub Inside : Job → Type 0
Inside (copying g) = Unit {0}
Inside (used_lock) = Unit {0}
Inside (used_loop i v) = Unit {0}
Inside (used_unlock v) = Unit {0}
Inside (visible_lock u) = Unit {0}
Inside (visible_loop u i v) = Unit {0}
Inside (visible_unlock u v) = Unit {0}
Inside _ = ⊥

pub Up-holds : (p : Pc) → Up 1 p → holds p ≡ true
Up-holds (running zero) u = absurd (ground arith)
Up-holds (running (suc d)) u = refl
Up-holds (locking zero n) u = absurd (omega arith)
Up-holds (locking (suc d) n) u = refl
Up-holds (counting d v) u = refl
Up-holds (unlocking d n) u = refl
Up-holds (dropping d n) u = absurd u

pub Down-holds : (p : Pc) → Down 1 p → holds p ≡ true
Down-holds (running zero) u = absurd (ground arith)
Down-holds (running (suc d)) u = refl
Down-holds (locking d n) u = absurd u
Down-holds (counting d v) u = refl
Down-holds (unlocking d n) u = refl
Down-holds (dropping zero n) u = absurd (omega arith)
Down-holds (dropping (suc d) n) u = refl

pub Inside-holds : (j : Job) (p : Pc) → Inside j → Place j p → holds p ≡ true
Inside-holds resting p i q = absurd i
Inside-holds (storing g) p i q = absurd i
Inside-holds (copying g) p i q = ap holds q
Inside-holds stored p i q = absurd i
Inside-holds outer_lock p i q = absurd i
Inside-holds used_lock p i q = Up-holds p q
Inside-holds (used_loop k v) p i q = ap holds q
Inside-holds (used_unlock v) p i q = Down-holds p q
Inside-holds (visible_lock u) p i q = Up-holds p q
Inside-holds (visible_loop u k v) p i q = ap holds q
Inside-holds (visible_unlock u v) p i q = Down-holds p q
Inside-holds (outer_unlock u v) p i q = absurd i
Inside-holds (shown u v) p i q = absurd i

-- What is known of a thread outside stays when another record was stored.
pub Seen-later :
    (j : Job) (last g : GpsData) (gs : List GpsData)
    → (Inside j → ⊥)
    → Seen j last gs
    → Seen j g (last ∷ gs)
Seen-later resting last g gs out s = tt
Seen-later (storing x) last g gs out s = tt
Seen-later (copying x) last g gs out s = tt
Seen-later stored last g gs out s = tt
Seen-later outer_lock last g gs out s = tt
Seen-later used_lock last g gs out s = tt
Seen-later (used_loop k v) last g gs out s = absurd (out tt)
Seen-later (used_unlock v) last g gs out s = absurd (out tt)
Seen-later (visible_lock u) last g gs out s = absurd (out tt)
Seen-later (visible_loop u k v) last g gs out s = absurd (out tt)
Seen-later (visible_unlock u v) last g gs out s = absurd (out tt)
Seen-later (outer_unlock u v) last g gs out (x, m, a, b) = (x, inr m, a, b)
Seen-later (shown u v) last g gs out (x, m, a, b) = (x, inr m, a, b)
