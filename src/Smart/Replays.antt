-- ===== src/Smart/Replays.antt =====
-- Any program over `SmartPointerNTS` is one over `SmartPointer`.
use jsntp_lcdd.Smart.Runs.{first_step}
use jsntp_lcdd.Prelude.{
  ℕ, ◌-◌, ◌≤◌, ◌≡◌, refl, sym, ap, ◌∙◌, Option, none, some, List, [], ◌∷◌, arith,
}
use jsntp_lcdd.Smart.Defs.{Root, Store, Handle}
use jsntp_lcdd.Smart.Defs
use jsntp_lcdd.Smart.Nts.{Heap, drop}
use jsntp_lcdd.Smart.Counting.{Counted}
use jsntp_lcdd.Smart.Clients.{
  step, run, IsPlain, ArePlain, widths, Op, declare, declare_copy, assigns, assigns_ptr, transfer,
  leave, width,
}
use jsntp_lcdd.Smart.Clients.Counts.{roots, Kept, step-Works}
use jsntp_lcdd.Smart.Objects.{perform, perform_all, Works-some, Agrees}
use jsntp_lcdd.Smart.Clients.{store_from, handed}
use jsntp_lcdd.Smart.Clients.Objects.{count}
use jsntp_lcdd.Smart.Clients.Whole.{run-deletes_from}
use jsntp_lcdd.Smart.Scopes.{Result, put-some, dropped, finish}
use jsntp_lcdd.Smart.Programs.{declared, assigned_to, copied_to, assigned_pointer, transferred_to}

step-refines :
    (most n : ℕ) (op : Op) (hs hs' : List Handle) (s s' : Store) (h : Heap)
    → Agrees most n hs s h
    → Counted s (roots hs)
    → IsPlain n op
    → width n op ≤ most
    → step op hs s ≡ some (hs', s')
    → Result most (width n op) hs' s' (perform n op h)
unfolding step perform
step-refines most n (declare p) hs hs' s s' h g c plain room e =
    declared most n hs s h g c p hs' s' room e
step-refines most n (declare_copy i) hs hs' s s' h g c plain room e =
    copied_to most n hs s h g c i hs' s' plain room e
step-refines most n (assigns i j) hs hs' s s' h g c plain room e =
    assigned_to most n hs s h g c i j hs' s' plain.0 plain.1 e
step-refines most n (assigns_ptr i p) hs hs' s s' h g c plain room e =
    assigned_pointer most n hs s h g c i p hs' s' plain e
step-refines most n (transfer i j) hs hs' s s' h g c plain room e =
    transferred_to most n hs s h g c i j hs' s' plain.0 plain.1 e
step-refines most n leave [] hs' s s' h g c plain room e = absurd (omega (arith, g.many))
step-refines most n leave (x ∷ hs) hs' s s' h g c plain room e =
    let (u, ran, shape) = put-some (Defs.drop x s) (λ _. hs) hs' s' e in
    finish most (n - 1) hs hs' s' h (drop (n - 1)) shape (dropped most n x hs s s' h g c ran)

-- The stack has room for the handles of a program.
abbrev pub Fits : ℕ → ℕ → List Op → Type 0
Fits most n [] = Unit {0}
Fits most n (op ∷ ops) = (width n op ≤ most) × Fits most (width n op) ops

run-refines :
    (most n : ℕ) (ops : List Op) (hs : List Handle) (s : Store) (h : Heap)
    → Agrees most n hs s h
    → Counted s (roots hs)
    → ArePlain n ops
    → Fits most n ops
    → (hs' : List Handle) × (s' : Store) × (run ops hs s ≡ some (hs', s'))
      × Result most (widths n ops) hs' s' (perform_all n ops h)
unfolding run perform_all
run-refines most n [] hs s h g c plain fits = (hs, s, refl, (h, refl, g))
run-refines most n (op ∷ ops) hs s h g c plain fits =
    let (hs1, s1, ran, (c1, l1)) =
      Works-some (step op hs s) (Kept (width n op)) (step-Works op n hs s plain.0 (c, g.many)) in
    let (h1, did, g1) = step-refines most n op hs hs1 s s1 h g c plain.0 fits.0 ran in
    let (hs2, s2, ran2, (h2, did2, g2)) =
      run-refines most (width n op) ops hs1 s1 h1 g1 c1 plain.1 fits.1 in
    (
      hs2,
      s2,
      first_step (step op hs) (run ops) s hs1 s1 ran ∙ ran2,
      (h2, first_step (perform n op) (λ m. perform_all m ops) h (width n op) h1 did ∙ did2, g2),
    )

abbrev pub heap_from : ℕ → Heap
heap_from first = record { objects = λ _. none; fresh = first; deleted = [] }

start-Agrees : (most : ℕ) → Agrees most 0 [] (store_from most) (heap_from most)
start-Agrees most = record {
  many = refl;
  room = omega arith;
  above = omega arith;
  stored = refl;
  handle = λ i x e. cc;
  free = λ k low high. refl;
}

new-Counted : (first : ℕ) → Counted (store_from first) []
new-Counted first = record { count = λ id. refl; unused = λ id h. refl }

-- Any program that names only handles that are there, assigns and transfers none to itself and
-- never has more handles than the stack has room for goes through over SmartPointer and over
-- SmartPointerNTS in one thread, and afterwards each handle has the same pointer and root, and
-- the roots and the deleted objects are the same.
pub perform_all-refines :
    (most : ℕ) (ops : List Op)
    → ArePlain 0 ops
    → Fits most 0 ops
    → (hs : List Handle) × (s : Store) × (h : Heap) × (run ops [] (store_from most) ≡ some (hs, s))
      × (perform_all 0 ops (heap_from most) ≡ some (widths 0 ops, h))
      × Agrees most (widths 0 ops) hs s h
perform_all-refines most ops plain fits =
    let (hs, s, ran, (h, did, g)) =
      run-refines most 0 ops [] (store_from most) (heap_from most) (start-Agrees most)
        (new-Counted most) plain fits in
    (hs, s, h, ran, did, g)

-- Such a program over SmartPointerNTS that ends every scope deletes each object exactly as
-- often as the object was handed over.
pub perform_all-deletes :
    (most p : ℕ) (ops : List Op)
    → ArePlain 0 ops
    → Fits most 0 ops
    → widths 0 ops ≡ 0
    → (h : Heap) × (perform_all 0 ops (heap_from most) ≡ some (0, h))
      × (count p h.deleted ≡ handed p ops)
perform_all-deletes most p ops plain fits none_left =
    let (hs, s, h, ran, did, g) = perform_all-refines most ops plain fits in
    let (hs', s', ran', (e, balance)) =
      Works-some (run ops [] (store_from most)) _ (run-deletes_from ops most p plain none_left) in
    let same : s ≡ s' = same_store hs hs' s s' (sym ran ∙ ran') in
    (
      h,
      did ∙ ap (λ (n : ℕ). some (n, h)) none_left,
      ap (λ (t : Store). count p t.deleted) (g.stored ∙ same) ∙ balance,
    )
  where
    same_store :
        (a b : List Handle) (s s' : Store)
        → ◌≡◌ {A = Option (List Handle × Store)} (some (a, s)) (some (b, s'))
        → s ≡ s'
    same_store a b s s' e = cc
