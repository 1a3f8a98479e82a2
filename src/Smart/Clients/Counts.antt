-- ===== src/Smart/Clients/Counts.antt =====
-- The counts of the roots in any program.
use jsntp_lcdd.Smart.Runs.{◌>>=◌, return}
use jsntp_lcdd.Prelude.{
  ℕ, zero, suc, ◌<◌, ◌≡◌, refl, sym, ap, ◌∙◌, subst, false, Option, none, some, List, [], ◌∷◌, ◌==◌,
  ==_iff, map, arith, get_elem?, ◌-◌, length,
}
use jsntp_lcdd.Smart.Defs.{Store, Handle, M, make, copy, assign, assign_ptr, drop, detach, attach}
use jsntp_lcdd.Smart.Counting.{owners, Counted, Works, bind-Works}
use jsntp_lcdd.Smart.Handles.{make-Works, copy-Works, assign-Works, assign_ptr-Works, drop-Works}
use jsntp_lcdd.Smart.Transfer.{transfer-Works}
use jsntp_lcdd.Smart.Clients.{
  Op, declare, declare_copy, assigns, assigns_ptr, transfer, leave, set_at, with_handle, copied,
  assigned, assigned_ptr, transferred, step, run, IsPlain, width, widths, ArePlain,
}

abbrev pub roots : List Handle → List (Option ℕ)
roots = map (λ (h : Handle). h.root)

abbrev pub without : List Handle → ℕ → List Handle
without [] i = []
without (x ∷ hs) zero = hs
without (x ∷ hs) (suc i) = x ∷ without hs i

recount :
    (s : Store) (rs rs' : List (Option ℕ))
    → ((id : ℕ) → owners id rs ≡ owners id rs')
    → Counted s rs
    → Counted s rs'
recount s rs rs' e c = record { count = λ id. rw (← (e id)) (c.count id); unused = c.unused }

-- One handle of a list, and the others.
taken :
    (hs : List Handle) (i : ℕ) (h : Handle) (id : ℕ)
    → get_elem? hs i ≡ some h
    → owners id (roots hs) ≡ owners id (h.root ∷ roots (without hs i))
taken [] i h id e = cc
taken (x ∷ hs) zero h id e = ground arith
taken (x ∷ hs) (suc i) h id e = ground (arith, taken hs i h id e)

given_back :
    (hs : List Handle) (i : ℕ) (h h' : Handle) (id : ℕ)
    → get_elem? hs i ≡ some h
    → owners id (h'.root ∷ roots (without hs i)) ≡ owners id (roots (set_at hs i h'))
given_back [] i h h' id e = cc
given_back (x ∷ hs) zero h h' id e = ground arith
given_back (x ∷ hs) (suc i) h h' id e = ground (arith, given_back hs i h h' id e)

-- A handle is an owner of its root, also when another is taken away.
pub owner :
    (hs : List Handle) (j : ℕ) (g : Handle) (id : ℕ)
    → get_elem? hs j ≡ some g
    → g.root ≡ some id
    → 0 < owners id (roots hs)
owner [] j g id e r = cc
owner (x ∷ hs) zero g id e r = ground (arith, ==_iff id id)
owner (x ∷ hs) (suc j) g id e r = ground (arith, owner hs j g id e r)

other_owner :
    (hs : List Handle) (i j : ℕ) (g : Handle) (id : ℕ)
    → (i == j) ≡ false
    → get_elem? hs j ≡ some g
    → g.root ≡ some id
    → 0 < owners id (roots (without hs i))
other_owner [] i j g id a e r = cc
other_owner (x ∷ hs) zero zero g id a e r = cc
other_owner (x ∷ hs) zero (suc j) g id a e r = owner hs j g id e r
other_owner (x ∷ hs) (suc i) zero g id a e r = ground (arith, ==_iff id id)
other_owner (x ∷ hs) (suc i) (suc j) g id a e r =
    ground (arith, other_owner hs i j g id (ground (arith, ==_iff i j, ==_iff (suc i) (suc j))) e r)

-- A handle is there, and a handle is put back.
pub there : (hs : List Handle) (i : ℕ) → i < length hs → (h : Handle) × (get_elem? hs i ≡ some h)
there [] i l = absurd (omega arith)
there (x ∷ hs) zero l = (x, refl)
there (x ∷ hs) (suc i) l = there hs i (omega arith)

length-set_at : (hs : List Handle) (i : ℕ) (h : Handle) → length (set_at hs i h) ≡ length hs
length-set_at [] i h = refl
length-set_at (x ∷ hs) zero h = refl
length-set_at (x ∷ hs) (suc i) h = ap suc (length-set_at hs i h)

-- Each count is the number of the handles on its root, and there are `n` handles.
abbrev pub Kept : ℕ → List Handle → Store → Type 0
Kept n hs s = Counted s (roots hs) × (length hs ≡ n)

store_back :
    (hs : List Handle) (n i : ℕ) (h : Handle) (m : Option (Handle × Store))
    (P : Handle → Store → Type 0)
    → get_elem? hs i ≡ some h
    → length hs ≡ n
    → Works m P
    → ((h' : Handle) (s' : Store) → P h' s' → Counted s' (h'.root ∷ roots (without hs i)))
    → Works (elim m [ none ↦ none | some (h', s') ↦ some (set_at hs i h', s') ]) (Kept n)
store_back hs n i h m P e l w k =
    bind-Works P (Kept n) m (λ h'. return (set_at hs i h')) w
      (λ h' s' p.
        (recount s' _ _ (λ id. given_back hs i h h' id e) (k h' s' p), length-set_at hs i h' ∙ l))

without-Counted :
    (s : Store) (hs : List Handle) (i : ℕ) (h : Handle)
    → get_elem? hs i ≡ some h
    → Counted s (roots hs)
    → Counted s (h.root ∷ roots (without hs i))
without-Counted s hs i h e c = recount s _ _ (λ id. taken hs i h id e) c

-- A step with the handle of a number.
with_handle-Works :
    (s : Store) (hs : List Handle) (n i k : ℕ) (f : Handle → M (List Handle))
    → length hs ≡ n
    → i < n
    → ((h : Handle) → get_elem? hs i ≡ some h → Works (f h s) (Kept k))
    → Works (with_handle hs i f s) (Kept k)
with_handle-Works s hs n i k f l low next =
    let (h, e) = there hs i (omega (arith, l)) in rw (e, Works, with_handle) (next h e)

pub step-Works :
    (op : Op) (n : ℕ) (hs : List Handle) (s : Store)
    → IsPlain n op
    → Kept n hs s
    → Works (step op hs s) (Kept (width n op))
unfolding step
step-Works (declare p) n hs s plain (c, l) =
    bind-Works _ (Kept (suc n)) (make p s) (λ h. return (h ∷ hs))
      (make-Works {s = s} {rs = roots hs} p c) (λ h s' w. (w.0, ap suc l))
step-Works (declare_copy i) n hs s plain (c, l) =
    with_handle-Works s hs n i (suc n) (copied hs) l plain λ h e.
      bind-Works _ (Kept (suc n)) (copy h s) (λ h'. return (h' ∷ hs))
        (copy-Works {s = s} {rs = roots hs} h c (λ id r. owner hs i h id e r))
        (λ h' s' w. (subst (λ r. Counted s' (r ∷ roots hs)) (sym w.1) w.0, ap suc l))
step-Works (assigns i j) n hs s plain (c, l) =
    with_handle-Works s hs n i n (λ h. with_handle hs j (assigned hs i h)) l plain.0
      λ h e. with_handle-Works s hs n j n (assigned hs i h) l plain.1 λ g f.
        store_back hs n i h (assign h g s) _ e l
          (assign-Works {s = s} {rs = roots (without hs i)} h g (without-Counted s hs i h e c)
            (λ id r. other_owner hs i j g id plain.2 f r))
          (λ h' s' w. subst (λ r. Counted s' (r ∷ roots (without hs i))) (sym w.1) w.0)
step-Works (assigns_ptr i p) n hs s plain (c, l) =
    with_handle-Works s hs n i n (assigned_ptr hs i p) l plain λ h e.
      store_back hs n i h (assign_ptr h p s) _ e l
        (assign_ptr-Works {s = s} {rs = roots (without hs i)} h p (without-Counted s hs i h e c))
        (λ h' s' w. w.0)
step-Works (transfer i j) n hs s plain (c, l) =
    with_handle-Works s hs n i n (λ h. with_handle hs j (transferred hs j h)) l plain.0
      λ h e. with_handle-Works s hs n j n (transferred hs j h) l plain.1 λ g f.
        store_back hs n j g ((detach h >>= attach g) s) _ f l
          (transfer-Works {s = s} {rs = roots (without hs j)} h g (without-Counted s hs j g f c)
            (λ id r. other_owner hs j i h id (ground (arith, plain.2, ==_iff i j, ==_iff j i)) e r))
          (λ g' s' w. subst (λ r. Counted s' (r ∷ roots (without hs j))) (sym w.1) w.0)
step-Works leave n [] s plain (c, l) = absurd (omega (arith, l))
step-Works leave n (h ∷ hs) s plain (c, l) =
    bind-Works _ (Kept (n - 1)) (drop h s) (λ u. return hs) (drop-Works {s = s} {rs = roots hs} h c)
      (λ u s' w. (w.0, omega (arith, l)))

-- A program that assigns no handle to itself uses no deleted root, and each count stays the number
-- of the handles on its root.
pub run-Works :
    (ops : List Op) (n : ℕ) (hs : List Handle) (s : Store)
    → ArePlain n ops
    → Kept n hs s
    → Works (run ops hs s) (Kept (widths n ops))
unfolding run
run-Works [] n hs s plain k = k
run-Works (op ∷ ops) n hs s plain k =
    bind-Works (Kept (width n op)) (Kept (widths (width n op) ops)) (step op hs s) (run ops)
      (step-Works op n hs s plain.0 k) (λ hs' s' k'. run-Works ops (width n op) hs' s' plain.1 k')
