-- ===== src/Smart/Sharing.antt =====
-- What holds of a root in every interleaving of threads, with the lock and without it.
use jsntp_lcdd.Prelude.{
  ℕ, ◌≡◌, ◌≢◌, refl, subst, true, if◌then◌else◌, ◌==◌, ==_iff, arith, length, Bool-cases, inl, inr,
}
use jsntp_lcdd.Smart.Threads.{
  smart_pointer, Pc, idle, calling, entered, loaded, leaving, Root, System, pick, Reach, here, next,
}
use jsntp_lcdd.Smart.Steps.{
  inside, Agrees, Sound, Inv, Move-Sound, handle_alive, Move-Agrees, Move-others,
}

Reach-Inv : {s : System} → Reach smart_pointer s → Inv s
Reach-Inv (here i) = record {
  root = record { count = refl; deleted = refl };
  threads = λ j. ground arith;
}
Reach-Inv (next {s = s} r (pick i {r = root} {p = p} m)) =
    let inv = Reach-Inv r in
    record {
      root = Move-Sound m inv.root (inv.threads i);
      threads = λ j. elim (Bool-cases (i == j)) [
        | inl same ↦ rw same (
            subst (λ k. Agrees root k p) ((==_iff i j).0 same)
              (Move-Agrees m inv.root (inv.threads i)))
        | inr apart ↦ rw apart (Move-others j (s.pc j) apart m (inv.threads i) (inv.threads j))
      ];
    }

-- What the holders of handles may rely on.
pub record Shared (s : System) : Type 0 where
  pub counted : s.root.ref_count ≡ length s.root.owners
  pub deleted : s.root.deletions ≡ (if length s.root.owners == 0 then 1 else 0)
  pub used : (i : ℕ) → s.pc i ≢ idle → s.root.deletions ≡ 0
  pub alone : (i j : ℕ) → inside (s.pc i) ≡ true → inside (s.pc j) ≡ true → i ≡ j

in_use : (r : Root) (i : ℕ) (p : Pc) → Sound r → Agrees r i p → p ≢ idle → r.deletions ≡ 0
in_use r i idle w a h = absurd (h refl)
in_use r i (calling op) w a h = handle_alive i r w (a.handle refl)
in_use r i (entered op) w a h = a.alive refl
in_use r i (loaded op v) w a h = a.alive refl
in_use r i leaving w a h = a.alive refl

-- In every interleaving of threads that add and drop handles of one SmartPointer root, each
-- through a handle of its own, the count is the number of handles, the root is deleted once
-- when there is none and not before, no thread inside a call finds it deleted, and one thread
-- at most has its lock.
pub Reach-Shared : {s : System} → Reach smart_pointer s → Shared s
Reach-Shared {s} r =
    let inv = Reach-Inv r in
    record {
      counted = inv.root.count;
      deleted = inv.root.deleted;
      used = λ i. in_use s.root i (s.pc i) inv.root (inv.threads i);
      alone = λ i j a b. ground (arith, (inv.threads i).owns a, (inv.threads j).owns b);
    }
