-- ===== src/Smart/Races.antt =====
-- How two threads lose a count of `SmartPointerNTS`.
use jsntp_lcdd.Prelude.{
  ℕ, ◌+◌, ◌<◌, ◌≡◌, ◌≢◌, refl, sym, ap, ◌∙◌, subst, false, ◌∷◌, ◌==◌, ==_iff, arith, length,
}
use jsntp_lcdd.Smart.Threads.{
  smart_pointer_nts, adding, Pc, idle, calling, entered, loaded, leaving, Root, share_of, Move,
  call, enter, load, store_more, System, update,
}

abbrev pub after : System → ℕ → Root → Pc → System
after s i r p = record { root = r; pc = update s.pc i p }

-- A run of the threads `i` and `j` alone.
pub data Between (i j : ℕ) (s : System) : System → Type 0 where
  stays : Between i j s s
  first :
      {t : System} {r : Root} {p : Pc}
      → Between i j s t
      → Move smart_pointer_nts i t.root (t.pc i) r p
      → Between i j s (after t i r p)
  second :
      {t : System} {r : Root} {p : Pc}
      → Between i j s t
      → Move smart_pointer_nts j t.root (t.pc j) r p
      → Between i j s (after t j r p)

pub swapped : {i j : ℕ} {s t : System} → Between i j s t → Between j i s t
swapped stays = stays
swapped (first b m) = second (swapped b) m
swapped (second b m) = first (swapped b) m

-- A step of thread `i`, which stands at `p`.
advance :
    {s0 : System} {r : Root} {p p' : Pc} (s : System) (i j : ℕ)
    → Between i j s0 s
    → s.pc i ≡ p
    → Move smart_pointer_nts i s.root p r p'
    → Between i j s0 (after s i r p')
advance {r = r} {p' = p'} s i j run e m =
    first run (subst (λ q. Move smart_pointer_nts i s.root q r p') (sym e) m)

-- The run up to here, then one of thread `i` from `s`, to `p` with the root `r`.
record Ran (s0 s : System) (i j : ℕ) (r : Root) (p : Pc) : Type 0 where
  goal : System
  run : Between i j s0 goal
  root : goal.root ≡ r
  at : goal.pc i ≡ p
  others : (k : ℕ) → (i == k) ≡ false → goal.pc k ≡ s.pc k

at_itself : (f : ℕ → Pc) (i : ℕ) (p : Pc) → update f i p i ≡ p
at_itself f i p = ground (arith, ==_iff i i)

reads :
    {s0 : System} (s : System) (i j : ℕ)
    → Between i j s0 s
    → s.pc i ≡ idle
    → 0 < share_of i s.root.owners
    → Ran s0 s i j s.root (loaded adding s.root.ref_count)
reads {s0} s i j run e h =
    let s1 = after s i s.root (calling adding) in
    let r1 = advance s i j run e (call adding h) in
    let s2 = after s1 i s.root (entered adding) in
    let r2 : Between i j s0 s2 =
      advance s1 i j r1 (at_itself s.pc i (calling adding)) (enter {l = s.root.lock} refl) in
    record {
      goal = after s2 i s.root (loaded adding s.root.ref_count);
      run = advance s2 i j r2 (at_itself s1.pc i (entered adding)) load;
      root = refl;
      at = at_itself s2.pc i (loaded adding s.root.ref_count);
      others = λ k apart. rw apart refl;
    }

writes :
    {s0 : System} (s : System) (i j v : ℕ)
    → Between i j s0 s
    → s.pc i ≡ loaded adding v
    → Ran s0 s i j (record s.root { ref_count = v + 1; owners = i ∷ s.root.owners }) leaving
writes s i j v run e = record {
  goal = after s i (record s.root { ref_count = v + 1; owners = i ∷ s.root.owners }) leaving;
  run = advance s i j run e store_more;
  root = refl;
  at = at_itself s.pc i leaving;
  others = λ k apart. rw apart refl;
}

-- A thread, at the end of `addRef`, and the handles that it has.
abbrev pub Gained : ℕ → System → System → Type 0
Gained i s t = (t.pc i ≡ leaving) × (share_of i t.root.owners ≡ share_of i s.root.owners + 1)

-- Without the lock, from any state in which two threads have handles and stand outside the
-- calls, a run of steps of these two alone lets each get one handle more, so that the count
-- has grown by one only, the handles by two, and nothing is deleted.
pub lost_count :
    (s : System) (i j : ℕ)
    → i ≢ j
    → s.pc i ≡ idle
    → s.pc j ≡ idle
    → 0 < share_of i s.root.owners
    → 0 < share_of j s.root.owners
    → (t : System) × Between i j s t
      × Gained i s t
      × Gained j s t
      × (t.root.ref_count ≡ s.root.ref_count + 1)
      × (length t.root.owners ≡ length s.root.owners + 2)
      × (t.root.deletions ≡ s.root.deletions)
lost_count s i j apart pi pj hi hj =
    let ij : (i == j) ≡ false = ground (arith, ==_iff i j) in
    let ji : (j == i) ≡ false = ground (arith, ==_iff j i) in
    let a = reads s i j stays pi hi in
    let b =
      reads a.goal j i (swapped a.run) (a.others j ij ∙ pj)
        (subst (λ (k : Root). 0 < share_of j k.owners) (sym a.root) hj) in
    let c = writes b.goal i j s.root.ref_count (swapped b.run) (b.others i ji ∙ a.at) in
    let d = writes c.goal j i a.goal.root.ref_count (swapped c.run) (c.others j ij ∙ b.at) in
    let base = b.root ∙ a.root in
    let whole : d.goal.root
        ≡ record s.root { ref_count = s.root.ref_count + 1; owners = j ∷ i ∷ s.root.owners } =
      ground (arith, a.root, base, c.root, d.root) in
    (
      d.goal,
      swapped d.run,
      (d.others i ji ∙ c.at, ground (arith, whole, ji, ==_iff i i)),
      (d.at, ground (arith, whole, ij, ==_iff j j)),
      ap (λ (r : Root). r.ref_count) whole,
      ground (arith, whole),
      ap (λ (r : Root). r.deletions) whole,
    )
