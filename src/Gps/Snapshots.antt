-- ===== src/Gps/Snapshots.antt =====
-- What the main loop reads while the worker stores: the counts of one record, never of a mixture.
use jsntp_lcdd.Prelude.{
  ℕ, suc, ◌<◌, ◌≡◌, inl, refl, sym, ap, ◌∙◌, subst, List, ◌∷◌, length, get_or, take, take-all,
  arith,
}
use jsntp_lcdd.Locks.Threads
use jsntp_lcdd.Locks.Threads.{
  Pc, running, locking, counting, unlocking, dropping, holds, pick, Move, update,
}
use jsntp_lcdd.Gps.Data.{GpsData, count_nonzero}
use jsntp_lcdd.Gps.Shared.{
  Job, resting, storing, copying, stored, outer_lock, used_lock, used_loop, used_unlock,
  visible_lock, visible_loop, visible_unlock, outer_unlock, shown, World, set_entry, counted, Act,
  locks, set_data, start_copy, copy_used, copy_prn, end_copy, end_set_data, start_counts, call_used,
  start_used, look_used, end_used, call_visible, start_visible, look_visible, end_visible,
  call_unlock, show, rest, start, Reach, here, next,
}
use jsntp_lcdd.Gps.Inside.{OfOne, Seen, Sized}
use jsntp_lcdd.Gps.Entries.{
  Inv, take-suc, length-set_entry, placed, known, entry-Inv, end_copy-Inv, lock-Inv, from, found,
  Up-start, Down-start,
}

-- One round of a loop, and its end.
looked :
    (n : ℕ) (now last : List ℕ) (k w : ℕ)
    → k < n
    → length last ≡ n
    → now ≡ last
    → w ≡ count_nonzero (take k last)
    → counted now k w ≡ count_nonzero (take (suc k) last)
looked n now last k w l z same e =
    ap (λ (xs : List ℕ). counted xs k w) same
    ∙ ap (counted last k) e
    ∙ sym (take-suc k last (omega (arith, l, z)))

ended :
    (n : ℕ) (last : List ℕ) (k w : ℕ)
    → k ≡ n
    → length last ≡ n
    → w ≡ count_nonzero (take k last)
    → w ≡ count_nonzero last
ended n last k w end z e = e ∙ ap count_nonzero (take-all k last (omega (arith, end, z)))

Act-Inv : (n i : ℕ) {s t : World} → Act n s i t → Inv n s → Inv n t
unfolding count_nonzero
Act-Inv n i {s} (locks mv p) v = lock-Inv n s i v mv p
Act-Inv n i {s} (set_data g a b e) v =
    from n s i v resting (storing g) e (λ x f. cc)
      (Up-start 0 (s.locks.pc i) (placed n s i v resting e)) tt
Act-Inv n i {s} (start_copy {g = g} e p) v = from n s i v (storing g) (copying g) e (λ x f. cc) p tt
Act-Inv n i {s} (copy_used {g = g} k e) v =
    entry-Inv n s i v g (record s.gpsdata { used = set_entry s.gpsdata.used k (get_or g.used k 0) })
      e (length-set_entry s.gpsdata.used k (get_or g.used k 0) ∙ v.sized.0, v.sized.1)
Act-Inv n i {s} (copy_prn {g = g} k e) v =
    entry-Inv n s i v g (record s.gpsdata { prn = set_entry s.gpsdata.prn k (get_or g.prn k 0) }) e
      (v.sized.0, length-set_entry s.gpsdata.prn k (get_or g.prn k 0) ∙ v.sized.1)
Act-Inv n i {s} (end_copy {g = g} e w) v = end_copy-Inv n s i v g e w
Act-Inv n i {s} (end_set_data e p) v = from n s i v stored resting e (λ x f. cc) p tt
Act-Inv n i {s} (start_counts e) v =
    from n s i v resting outer_lock e (λ x f. cc)
      (Up-start 0 (s.locks.pc i) (placed n s i v resting e)) tt
Act-Inv n i {s} (call_used e p) v =
    from n s i v outer_lock used_lock e (λ x f. cc) (Up-start 1 (s.locks.pc i) p) tt
Act-Inv n i {s} (start_used e p) v = from n s i v used_lock (used_loop 0 0) e (λ x f. cc) p refl
Act-Inv n i {s} (look_used {k = k} {v = w} e l) v =
    from n s i v (used_loop k w) (used_loop (suc k) (counted s.gpsdata.used k w)) e (λ x f. cc)
      (placed n s i v (used_loop k w) e)
      (looked n s.gpsdata.used s.last.used k w l v.sized_last.0
        (ap (λ (d : GpsData). d.used) (found n s i v (used_loop k w) e tt (λ x f. cc)))
        (known n s i v (used_loop k w) e))
Act-Inv n i {s} (end_used {k = k} {v = w} e l) v =
    from n s i v (used_loop k w) (used_unlock w) e (λ x f. cc)
      (Down-start 1 (s.locks.pc i) (placed n s i v (used_loop k w) e))
      (ended n s.last.used k w l v.sized_last.0 (known n s i v (used_loop k w) e))
Act-Inv n i {s} (call_visible {u = u} e p) v =
    from n s i v (used_unlock u) (visible_lock u) e (λ x f. cc) (Up-start 1 (s.locks.pc i) p)
      (known n s i v (used_unlock u) e)
Act-Inv n i {s} (start_visible {u = u} e p) v =
    from n s i v (visible_lock u) (visible_loop u 0 0) e (λ x f. cc) p
      (known n s i v (visible_lock u) e, refl)
Act-Inv n i {s} (look_visible {u = u} {k = k} {v = w} e l) v =
    from n s i v (visible_loop u k w) (visible_loop u (suc k) (counted s.gpsdata.prn k w)) e
      (λ x f. cc) (placed n s i v (visible_loop u k w) e)
      (
        (known n s i v (visible_loop u k w) e).0,
        looked n s.gpsdata.prn s.last.prn k w l v.sized_last.1
            (ap (λ (d : GpsData). d.prn) (found n s i v (visible_loop u k w) e tt (λ x f. cc)))
            (known n s i v (visible_loop u k w) e).1,
      )
Act-Inv n i {s} (end_visible {u = u} {k = k} {v = w} e l) v =
    from n s i v (visible_loop u k w) (visible_unlock u w) e (λ x f. cc)
      (Down-start 1 (s.locks.pc i) (placed n s i v (visible_loop u k w) e))
      (
        (known n s i v (visible_loop u k w) e).0,
        ended n s.last.prn k w l v.sized_last.1 (known n s i v (visible_loop u k w) e).1,
      )
Act-Inv n i {s} (call_unlock {u = u} {v = w} e p) v =
    from n s i v (visible_unlock u w) (outer_unlock u w) e (λ x f. cc)
      (Down-start 0 (s.locks.pc i) p)
      (let k = known n s i v (visible_unlock u w) e in (s.last, inl refl, k.0, k.1))
Act-Inv n i {s} (show {u = u} {v = w} e p) v =
    from n s i v (outer_unlock u w) (shown u w) e (λ x f. cc) p (known n s i v (outer_unlock u w) e)
Act-Inv n i {s} (rest {u = u} {v = w} e) v =
    from n s i v (shown u w) resting e (λ x f. cc) (placed n s i v (shown u w) e) tt

start-Inv : (n : ℕ) (g : GpsData) → Sized n g → Inv n (start g)
start-Inv n g z = record {
  reach = Threads.here;
  place = λ i. refl;
  sized = z;
  sized_last = z;
  clean = inl refl;
  seen = λ i. tt;
}

pub Reach-Inv : (n : ℕ) (g : GpsData) {w : World} → Sized n g → Reach n g w → Inv n w
Reach-Inv n g z here = start-Inv n g z
Reach-Inv n g z (next r i a) = Act-Inv n i a (Reach-Inv n g z r)

-- In every interleaving of threads that store GPS data entry by entry and threads that count
-- under a lock of their own, the two counts that a thread comes out with are both those of one
-- record, which was stored whole or was there at the start.
pub counts-OfOne :
    (n : ℕ) (g : GpsData) (w : World) (i u v : ℕ)
    → length g.used ≡ n
    → length g.prn ≡ n
    → Reach n g w
    → w.job i ≡ shown u v
    → OfOne u v (w.last ∷ w.before)
counts-OfOne n g w i u v a b r e =
    subst (λ (y : Job). Seen y w.last w.before) e ((Reach-Inv n g (a, b) r).seen i)
