-- ===== src/Smart/Clients/Whole.antt =====
-- What a whole program has done to an object.
use jsntp_lcdd.Prelude.{
  ℕ, zero, suc, ◌+◌, ◌<◌, ◌≡◌, refl, sym, ap, ◌∙◌, subst, Option, none, some, List, [], ◌∷◌, ◌==◌,
  ==_iff, arith, Option-cases, Bool-cases, length, inl, inr, get_elem?,
}
use jsntp_lcdd.Smart.Defs.{Root, Store, Handle}
use jsntp_lcdd.Smart.Counting.{Counted, Works, weaken-Works}
use jsntp_lcdd.Smart.Clients.{Op, widths, run, is_object, handed, store_from, new_store, ArePlain}
use jsntp_lcdd.Smart.Clients.Counts.{roots, Kept, owner, run-Works}
use jsntp_lcdd.Smart.Clients.Objects.{count, points, alive, Later, After}
use jsntp_lcdd.Smart.Clients.Steps.{Target}
use jsntp_lcdd.Smart.Clients.Ends.{Targets, run-Hands}

-- Both at once.
both :
    {A : Type 0} (p n : ℕ) (P Q : A → Store → Type 0) (s : Store) (m : Option (A × Store))
    → Works m P
    → After p n Q s m
    → Works m (λ a s'. P a s' × Later p n s s' × Q a s')
both p n P Q s none w a = w
both p n P Q s (some (a, s')) w (l, q) = (w, l, q)

-- With no owner there is no root.
alive-none : (p : ℕ) (s : Store) (n : ℕ) → Counted s [] → alive p s.roots n ≡ 0
alive-none p s zero c = refl
alive-none p s (suc n) c = elim (Option-cases (s.roots n)) [
  | inl e ↦ omega (arith, ap (points p) e, alive-none p s n c)
  | inr (r, e) ↦ absurd (ground (arith, c.count n, e))
]

new-Counted : (first : ℕ) → Counted (store_from first) []
new-Counted first = record { count = λ id. refl; unused = λ id h. refl }

-- Each object was handed over as often as it was deleted or stands at a root.
pub run-Ends :
    (ops : List Op) (first p : ℕ)
    → ArePlain 0 ops
    → Works (run ops [] (store_from first)) (λ hs s.
      Kept (widths 0 ops) hs s
      × Targets hs s
      × (count p s.deleted + alive p s.roots s.fresh ≡ handed p ops))
run-Ends ops first p plain =
    weaken-Works _ _ (run ops [] (store_from first))
      (both p (handed p ops) (Kept (widths 0 ops)) Targets (store_from first)
        (run ops [] (store_from first))
        (run-Works ops 0 [] (store_from first) plain (new-Counted first, refl))
        (run-Hands p ops [] (store_from first) (λ id h. refl) tt))
      (λ hs s w. (
        w.0,
        w.2,
        omega (arith, w.1.balance, alive-none p (store_from first) first (new-Counted first)),
      ))

no_handles : (hs : List Handle) → length hs ≡ 0 → hs ≡ []
no_handles [] l = refl
no_handles (h ∷ hs) l = absurd (omega (arith, l))

pub run-deletes_from :
    (ops : List Op) (first p : ℕ)
    → ArePlain 0 ops
    → widths 0 ops ≡ 0
    → Works (run ops [] (store_from first)) (λ hs s. (hs ≡ []) × (count p s.deleted ≡ handed p ops))
run-deletes_from ops first p plain none_left =
    weaken-Works _ _ (run ops [] (store_from first)) (run-Ends ops first p plain) (λ hs s w.
      let e = no_handles hs (w.0.1 ∙ none_left) in
      let c = subst (λ (l : List Handle). Counted s (roots l)) e w.0.0 in
      (e, omega (arith, w.2, alive-none p s s.fresh c)))

-- Where a program over SmartPointer names only handles that are there, assigns and transfers
-- none to itself and ends every scope, it uses no deleted root and deletes each object exactly
-- as often as the object was handed over.
pub run-deletes :
    (ops : List Op) (p : ℕ)
    → ArePlain 0 ops
    → widths 0 ops ≡ 0
    → Works (run ops [] new_store) (λ hs s. (hs ≡ []) × (count p s.deleted ≡ handed p ops))
run-deletes ops p plain none_left = run-deletes_from ops 0 p plain none_left

alive-root :
    (p id n : ℕ) (f : ℕ → Option Root) (r : Root)
    → id < n
    → f id ≡ some r
    → r.ptr ≡ some p
    → 0 < alive p f n
alive-root p id zero f r l e q = absurd (omega arith)
alive-root p id (suc n) f r l e q = elim (Bool-cases (id == n)) [
  | inl t ↦
      let here : points p (f n) ≡ 1 =
        ap (λ (k : ℕ). points p (f k)) (sym ((==_iff id n).0 t))
        ∙ ap (points p) e
        ∙ ap (is_object p) q
        ∙ ground (arith, ==_iff p p) in
      omega (arith, here)
  | inr t ↦ omega (arith, alive-root p id n f r (ground (arith, ==_iff id n)) e q)
]

Targets-at :
    (s : Store) (hs : List Handle) (i : ℕ) (h : Handle)
    → Targets hs s
    → get_elem? hs i ≡ some h
    → Target h s
Targets-at s [] i h t e = cc
Targets-at s (x ∷ hs) zero h t e = subst (λ (y : Handle). Target y s) (ground arith) t.0
Targets-at s (x ∷ hs) (suc i) h t e = Targets-at s hs i h t.1 e

of_run :
    {A : Type 0} (m : Option (A × Store)) (P : A → Store → Type 0) (a : A) (s : Store)
    → m ≡ some (a, s)
    → Works m P
    → P a s
of_run m P a s e w = subst (λ x. Works x P) e w

-- After such a program, scopes ended or not, that handed over an object once: while a handle
-- with a root points to the object, the object was not deleted.
pub run-keeps :
    (ops : List Op) (p i id : ℕ) (hs : List Handle) (s : Store) (h : Handle)
    → ArePlain 0 ops
    → handed p ops ≡ 1
    → run ops [] new_store ≡ some (hs, s)
    → get_elem? hs i ≡ some h
    → h.root ≡ some id
    → h.ptr ≡ some p
    → count p s.deleted ≡ 0
run-keeps ops p i id hs s h plain once ran at root ptr =
    let w = of_run (run ops [] new_store) _ hs s ran (run-Ends ops 0 p plain) in
    let t = Targets-at s hs i h w.1 at id root in
    elim (Option-cases (s.roots id)) [
      | inl e ↦ absurd (ground (arith, e, w.0.0.count id, owner hs i h id at root))
      | inr (r, e) ↦
          omega (arith, w.2, once, alive-root p id s.fresh s.roots r t.0 e (t.1 r e ∙ ptr))
    ]
