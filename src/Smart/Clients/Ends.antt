-- ===== src/Smart/Clients/Ends.antt =====
-- What has become of the objects of a program.
use jsntp_lcdd.Smart.Runs.{◌>>=◌}
use jsntp_lcdd.Prelude.{
  ℕ, zero, suc, Option, none, some, List, [], ◌∷◌, Option-cases, inl, inr, get_elem?,
}
use jsntp_lcdd.Smart.Defs.{Store, Handle, M, make, copy, assign, assign_ptr, drop, detach, attach}
use jsntp_lcdd.Smart.Clients.{
  Op, declare, declare_copy, assigns, assigns_ptr, transfer, leave, set_at, with_handle, put_at,
  copied, assigned, assigned_ptr, transferred, step, run, is_object, hands, handed,
}
use jsntp_lcdd.Smart.Clients.Objects.{Dense, Later, After, After-then, return-Hands}
use jsntp_lcdd.Smart.Clients.Steps.{
  Target, Target-Later, Done, make-Hands, copy-Hands, drop-Hands, assign-Hands, assign_ptr-Hands,
  moved-Hands,
}

abbrev pub Targets : List Handle → Store → Type 0
Targets [] s = Unit {0}
Targets (h ∷ hs) s = Target h s × Targets hs s

Targets-Later :
    (p n : ℕ) (s s' : Store) (hs : List Handle) → Later p n s s' → Targets hs s → Targets hs s'
Targets-Later p n s s' [] l t = tt
Targets-Later p n s s' (h ∷ hs) l t =
    (Target-Later p n s s' h l t.0, Targets-Later p n s s' hs l t.1)

Targets-set_at :
    (s : Store) (hs : List Handle) (i : ℕ) (h : Handle)
    → Targets hs s
    → Target h s
    → Targets (set_at hs i h) s
Targets-set_at s [] i h t u = tt
Targets-set_at s (x ∷ hs) zero h t u = (u, t.1)
Targets-set_at s (x ∷ hs) (suc i) h t u = (t.0, Targets-set_at s hs i h t.1 u)

module _ (p : ℕ) where
  -- An operation, and the handles behind it.
  ends :
      {A : Type 0} (n : ℕ) (Q : A → Store → Type 0) (g : A → List Handle) (hs : List Handle)
      (s : Store) (m : Option (A × Store))
      → Targets hs s
      → After p n Q s m
      → ((a : A) (s' : Store) → Q a s' → Targets hs s' → Targets (g a) s')
      → After p n Targets s (elim m [ none ↦ none | some (a, s') ↦ some (g a, s') ])
  ends n Q g hs s none t w k = tt
  ends n Q g hs s (some (a, s')) t (l, q) k = (l, k a s' q (Targets-Later p n s s' hs l t))

  with_handle-Hands :
      (hs : List Handle) (i n : ℕ) (f : Handle → M (List Handle)) (s : Store)
      → ((h : Handle) → After p n Targets s (f h s))
      → After p n Targets s (with_handle hs i f s)
  with_handle-Hands hs i n f s k = elim (Option-cases (get_elem? hs i)) [
    | inl e ↦ rw (e, After, with_handle) tt
    | inr (h, e) ↦ rw (e, After, with_handle) (k h)
  ]

  put_at-Hands :
      (hs : List Handle) (i n : ℕ) (m : M Handle) (s : Store)
      → Targets hs s
      → After p n Target s (m s)
      → After p n Targets s (put_at hs i m s)
  put_at-Hands hs i n m s t w =
      ends n Target (set_at hs i) hs s (m s) t w (λ h s' u t'. Targets-set_at s' hs i h t' u)

  step-Hands :
      (op : Op) (hs : List Handle) (s : Store)
      → Dense s
      → Targets hs s
      → After p (hands p op) Targets s (step op hs s)
  unfolding step
  step-Hands (declare q) hs s d t =
      ends (is_object p q) Target (λ h. h ∷ hs) hs s (make q s) t (make-Hands p q s d)
        (λ h s' u t'. (u, t'))
  step-Hands (declare_copy i) hs s d t = with_handle-Hands hs i 0 (copied hs) s λ h.
      ends 0 Target (λ h'. h' ∷ hs) hs s (copy h s) t (copy-Hands p h s d) (λ h' s' u t'. (u, t'))
  step-Hands (assigns i j) hs s d t =
      with_handle-Hands hs i 0 (λ h. with_handle hs j (assigned hs i h)) s
        λ h.
          with_handle-Hands hs j 0 (assigned hs i h) s
            λ g. put_at-Hands hs i 0 (assign h g) s t (assign-Hands p h g s d)
  step-Hands (assigns_ptr i q) hs s d t =
      with_handle-Hands hs i (is_object p q) (assigned_ptr hs i q) s
        λ h. put_at-Hands hs i (is_object p q) (assign_ptr h q) s t (assign_ptr-Hands p h q s d)
  step-Hands (transfer i j) hs s d t =
      with_handle-Hands hs i 0 (λ h. with_handle hs j (transferred hs j h)) s
        λ h.
          with_handle-Hands hs j 0 (transferred hs j h) s
            λ g. put_at-Hands hs j 0 (detach h >>= attach g) s t (moved-Hands p h g s d)
  step-Hands leave [] s d t = tt
  step-Hands leave (h ∷ hs) s d t =
      ends 0 Done (λ u. hs) hs s (drop h s) t.1 (drop-Hands p h s d) (λ u s' q t'. t')

  pub run-Hands :
      (ops : List Op) (hs : List Handle) (s : Store)
      → Dense s
      → Targets hs s
      → After p (handed p ops) Targets s (run ops hs s)
  unfolding run
  run-Hands [] hs s d t = return-Hands p Targets hs s d t
  run-Hands (op ∷ ops) hs s d t =
      After-then p (hands p op) (handed p ops) Targets Targets s (step op hs s) (run ops)
        (step-Hands op hs s d t) (λ hs' s' t' d'. run-Hands ops hs' s' d' t')
