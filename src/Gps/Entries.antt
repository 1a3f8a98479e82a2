-- ===== src/Gps/Entries.antt =====
-- What holds between the steps of threads over the GPS data.
use jsntp_lcdd.Prelude.{
  ℕ, zero, suc, ◌<◌, ◌≡◌, ◌⊎◌, inl, inr, refl, sym, ap, ◌∙◌, subst, false, List, [], ◌∷◌, ◌==◌,
  ==_iff, length, take, arith, Bool-cases,
}
use jsntp_lcdd.Locks.Threads
use jsntp_lcdd.Locks.Threads.{
  Pc, running, locking, counting, unlocking, dropping, holds, pick, Move, update,
}
use jsntp_lcdd.Locks.Exclusion.{mutual_exclusion}
use jsntp_lcdd.Locks.Defs.{LockableEx}
use jsntp_lcdd.Gps.Data.{GpsData, count_nonzero}
use jsntp_lcdd.Gps.Shared.{
  Job, copying, stored, Up, Down, Place, World, set_job, with_job, set_entry, counted,
}
use jsntp_lcdd.Gps.Inside.{Seen, Sized, Inside, Inside-holds, Seen-later}

pub record Inv (n : ℕ) (w : World) : Type 0 where
  pub reach : Threads.Reach w.locks
  pub place : (i : ℕ) → Place (w.job i) (w.locks.pc i)
  pub sized : Sized n w.gpsdata
  pub sized_last : Sized n w.last
  pub clean : (w.gpsdata ≡ w.last) ⊎ ((i : ℕ) × (g : GpsData) × (w.job i ≡ copying g))
  pub seen : (i : ℕ) → Seen (w.job i) w.last w.before

pub set_job-All :
    (P : ℕ → Job → Type 0) (f : ℕ → Job) (i : ℕ) (x : Job)
    → ((j : ℕ) → P j (f j))
    → P i x
    → (j : ℕ) → P j (set_job f i x j)
set_job-All P f i x all mine j = elim (Bool-cases (i == j)) [
  | inl e ↦ rw e (subst (λ k. P k x) ((==_iff i j).0 e) mine)
  | inr e ↦ rw e (all j)
]

pub take-suc :
    (k : ℕ) (xs : List ℕ)
    → k < length xs
    → count_nonzero (take (suc k) xs) ≡ counted xs k (count_nonzero (take k xs))
unfolding count_nonzero
take-suc k [] l = absurd (omega arith)
take-suc zero (x ∷ xs) l = ground arith
take-suc (suc k) (x ∷ xs) l = ground (arith, take-suc k xs)

pub length-set_entry : (xs : List ℕ) (k v : ℕ) → length (set_entry xs k v) ≡ length xs
length-set_entry [] k v = refl
length-set_entry (x ∷ xs) zero v = refl
length-set_entry (x ∷ xs) (suc k) v = ap suc (length-set_entry xs k v)

module _ (n : ℕ) (s : World) (i : ℕ) (inv : Inv n s) where
  pub placed : (x : Job) → s.job i ≡ x → Place x (s.locks.pc i)
  placed x e = subst (λ (y : Job). Place y (s.locks.pc i)) e (inv.place i)

  pub known : (x : Job) → s.job i ≡ x → Seen x s.last s.before
  known x e = subst (λ (y : Job). Seen y s.last s.before) e (inv.seen i)

  -- Two threads inside are one.
  pub alone : (j : ℕ) → Inside (s.job i) → Inside (s.job j) → i ≡ j
  alone j a b =
      mutual_exclusion i j inv.reach (Inside-holds (s.job i) (s.locks.pc i) a (inv.place i))
        (Inside-holds (s.job j) (s.locks.pc j) b (inv.place j))

  -- A thread that reads finds what was stored last.
  pub reads_last : Inside (s.job i) → ((g : GpsData) → s.job i ≡ copying g → ⊥) → s.gpsdata ≡ s.last
  reads_last a not_copying = elim inv.clean [
    | inl e ↦ e
    | inr (j, g, e) ↦
        let same : i ≡ j = alone j a (subst Inside (sym e) tt) in
        absurd (not_copying g (ap s.job same ∙ e))
  ]

  pub job-Inv :
      (x : Job)
      → Place x (s.locks.pc i)
      → Seen x s.last s.before
      → ((g : GpsData) → s.job i ≡ copying g → ⊥)
      → Inv n (with_job s i x)
  job-Inv x p q out = record {
    reach = inv.reach;
    place = set_job-All (λ j y. Place y (s.locks.pc j)) s.job i x inv.place p;
    sized = inv.sized;
    sized_last = inv.sized_last;
    clean = elim inv.clean [
      | inl e ↦ inl e
      | inr (j, g, e) ↦
          let apart : (i == j) ≡ false = elim (Bool-cases (i == j)) [
            | inl t ↦ absurd (out g (ap s.job ((==_iff i j).0 t) ∙ e))
            | inr t ↦ t
          ] in
          inr (j, g, rw apart e)
    ];
    seen = set_job-All (λ j y. Seen y s.last s.before) s.job i x inv.seen q;
  }

  pub entry-Inv :
      (g d : GpsData) → s.job i ≡ copying g → Sized n d → Inv n (record s { gpsdata = d })
  entry-Inv g d e z = record {
    reach = inv.reach;
    place = inv.place;
    sized = z;
    sized_last = inv.sized_last;
    clean = inr (i, g, e);
    seen = inv.seen;
  }

  pub end_copy-Inv :
      (g : GpsData)
      → s.job i ≡ copying g
      → s.gpsdata ≡ g
      → Inv n (record (with_job s i stored) { last = g; before = s.last ∷ s.before })
  end_copy-Inv g e whole = record {
    reach = inv.reach;
    place =
        set_job-All (λ j y. Place y (s.locks.pc j)) s.job i stored inv.place
          (subst (Down 0) (sym (placed (copying g) e)) (inl refl));
    sized = inv.sized;
    sized_last = subst (Sized n) whole inv.sized;
    clean = inl whole;
    seen = λ j. elim (Bool-cases (i == j)) [
      | inl t ↦ rw t tt
      | inr t ↦ rw t (
          Seen-later (s.job j) s.last g s.before
            (λ a.
              let same : i ≡ j = alone j (subst Inside (sym e) tt) a in
              ground (arith, same, ==_iff i j))
            (inv.seen j))
    ];
  }

  pub lock-Inv :
      {m : LockableEx} {p : Pc}
      → Move i s.locks.mem (s.locks.pc i) m p
      → Place (s.job i) p
      → Inv n (record s { locks = record { mem = m; pc = update s.locks.pc i p } })
  lock-Inv {m} {p} mv q = record {
    reach = Threads.next inv.reach (pick i mv);
    place = λ j. elim (Bool-cases (i == j)) [
      | inl t ↦ rw t (subst (λ (k : ℕ). Place (s.job k) p) ((==_iff i j).0 t) q)
      | inr t ↦ rw t (inv.place j)
    ];
    sized = inv.sized;
    sized_last = inv.sized_last;
    clean = inv.clean;
    seen = inv.seen;
  }

  pub from :
      (x y : Job)
      → s.job i ≡ x
      → ((g : GpsData) → x ≡ copying g → ⊥)
      → Place y (s.locks.pc i)
      → Seen y s.last s.before
      → Inv n (with_job s i y)
  from x y e out p q = job-Inv y p q (λ g f. out g (sym e ∙ f))

  -- The data of a thread that reads are those stored last.
  pub found :
      (x : Job) → s.job i ≡ x → Inside x → ((g : GpsData) → x ≡ copying g → ⊥) → s.gpsdata ≡ s.last
  found x e a out = reads_last (subst Inside (sym e) a) (λ g f. out g (sym e ∙ f))

pub Up-start : (d : ℕ) (p : Pc) → p ≡ running d → Up d p
Up-start d p e = subst (Up d) (sym e) (inl refl)

pub Down-start : (d : ℕ) (p : Pc) → p ≡ running (suc d) → Down d p
Down-start d p e = subst (Down d) (sym e) (inl refl)
