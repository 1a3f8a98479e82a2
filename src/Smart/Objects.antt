-- ===== src/Smart/Objects.antt =====
-- The same programs over `SmartPointerNTS`, whose handles are objects at addresses of the stack.
use jsntp_lcdd.Smart.Runs.{◌>>=◌, ◌>>◌, return}
use jsntp_lcdd.Prelude.{
  ℕ, zero, suc, ◌-◌, ◌<◌, ◌≤◌, ◌≡◌, refl, sym, ap, ◌∙◌, subst, false, Option, none, some, List, [],
  ◌∷◌, ◌==◌, ==_iff, arith, Option-cases, inl, inr, get_elem?, length,
}
use jsntp_lcdd.Smart.Defs.{Root, Store, Handle}
use jsntp_lcdd.Smart.Nts
use jsntp_lcdd.Smart.Nts.{Object, Heap, make, copy, assign, assign_ptr, drop, detach, attach}
use jsntp_lcdd.Smart.Counting.{owners, Counted, Works}
use jsntp_lcdd.Smart.View.{root_at, roots_of, view, AtRoot, seen}
use jsntp_lcdd.Smart.Refinement.{HandleAt}
use jsntp_lcdd.Smart.Clients.{
  Op, declare, declare_copy, assigns, assigns_ptr, transfer, leave, set_at,
}
use jsntp_lcdd.Smart.Clients.Counts.{roots, owner}
use jsntp_lcdd.Smart.Effects.{Ends}

-- Where handle `i` of `n` stands: the first one that was declared is at 0.
abbrev pub addr : ℕ → ℕ → ℕ
addr n i = n - 1 - i

unfoldable pub perform : ℕ → Op → Nts.M ℕ
unfolding make copy assign assign_ptr drop detach attach
perform n (declare p) = make n p >> return (suc n)
perform n (declare_copy i) = copy n (addr n i) >> return (suc n)
perform n (assigns i j) = assign (addr n i) (addr n j) >> return n
perform n (assigns_ptr i p) = assign_ptr (addr n i) p >> return n
perform n (transfer i j) = (detach (addr n i) >>= attach (addr n j)) >> return n
perform n leave = drop (n - 1) >> return (n - 1)

unfoldable pub perform_all : ℕ → List Op → Nts.M ℕ
unfolding perform
perform_all n [] = return n
perform_all n (op ∷ ops) = perform n op >>= λ m. perform_all m ops

-- The objects are the handles and the roots; the stack has room for `most` handles.
pub record Agrees (most n : ℕ) (hs : List Handle) (s : Store) (h : Heap) : Type 0 where
  pub many : length hs ≡ n
  pub room : n ≤ most
  pub above : most ≤ h.fresh
  pub stored : roots_of h ≡ s
  pub handle :
      (i : ℕ) (x : Handle)
      → get_elem? hs i ≡ some x
      → (a : Object) × (h.objects (addr n i) ≡ some a) × (a.is_root ≡ false) × (view a ≡ x)
  pub free : (k : ℕ) → n ≤ k → k < most → h.objects k ≡ none

-- What a run of the first class says of the second.
pub seen-some :
    (this : ℕ) (m : Option (Unit {0} × Heap)) (x : Handle) (s : Store)
    → seen this m ≡ some (x, s)
    → (h : Heap) × (m ≡ some (tt, h))
      × (a : Object) × (h.objects this ≡ some a)
      × (view a ≡ x)
      × (roots_of h ≡ s)
seen-some this none x s e = cc
seen-some this (some (u, h)) x s e = elim (Option-cases (h.objects this)) [
  | inl z ↦ absurd (ground (arith, z))
  | inr (a, z) ↦
      let f : ◌≡◌ {A = Option (Handle × Store)} (some (view a, roots_of h)) (some (x, s)) =
        rw z at e in
      (h, refl, a, z, (cc), (cc))
]

pub Works-some :
    {A : Type 0} (m : Option (A × Store)) (P : A → Store → Type 0)
    → Works m P
    → (a : A) × (s : Store) × (m ≡ some (a, s)) × P a s
Works-some none P w = absurd w
Works-some (some (a, s)) P w = (a, s, refl, w)

pub Ends-at :
    {A : Type 0} (R : Heap → Heap → Type 0) (h t : Heap) (m : Option (A × Heap)) (a : A)
    → m ≡ some (a, t)
    → Ends R h m
    → R h t
Ends-at R h t m a e w = subst (λ x. Ends R h x) e w

-- A root with an owner is there.
AtRoot_of : (o : Option Object) (r : Root) → root_at o ≡ some r → AtRoot o
AtRoot_of none r e = cc
AtRoot_of (some o) r e = ground (arith, e)

pub owned-AtRoot :
    (h : Heap) (rs : List (Option ℕ)) (id : ℕ)
    → Counted (roots_of h) rs
    → 0 < owners id rs
    → AtRoot (h.objects id)
owned-AtRoot h rs id c up = elim (Option-cases (root_at (h.objects id))) [
  | inl e ↦ absurd (ground (arith, e, c.count id))
  | inr (r, e) ↦ AtRoot_of (h.objects id) r e
]

pub at_most : (hs : List Handle) (i : ℕ) (x : Handle) → get_elem? hs i ≡ some x → i < length hs
at_most [] i x e = cc
at_most (y ∷ hs) zero x e = omega arith
at_most (y ∷ hs) (suc i) x e = omega (arith, at_most hs i x e)

pub set_at_self :
    (hs : List Handle) (i : ℕ) (x y : Handle)
    → get_elem? hs i ≡ some x
    → get_elem? (set_at hs i y) i ≡ some y
set_at_self [] i x y e = cc
set_at_self (z ∷ hs) zero x y e = refl
set_at_self (z ∷ hs) (suc i) x y e = set_at_self hs i x y e

pub set_at-ne :
    (hs : List Handle) (i j : ℕ) (y : Handle)
    → (i == j) ≡ false
    → get_elem? (set_at hs i y) j ≡ get_elem? hs j
set_at-ne [] i j y a = refl
set_at-ne (z ∷ hs) zero zero y a = cc
set_at-ne (z ∷ hs) zero (suc j) y a = refl
set_at-ne (z ∷ hs) (suc i) zero y a = refl
set_at-ne (z ∷ hs) (suc i) (suc j) y a =
    set_at-ne hs i j y (ground (arith, ==_iff i j, ==_iff (suc i) (suc j)))

pub length-set_at : (hs : List Handle) (i : ℕ) (y : Handle) → length (set_at hs i y) ≡ length hs
length-set_at [] i y = refl
length-set_at (x ∷ hs) zero y = refl
length-set_at (x ∷ hs) (suc i) y = ap suc (length-set_at hs i y)

-- A handle of a program, and its root.
pub handle_at :
    (most n i : ℕ) (hs : List Handle) (s : Store) (h : Heap) (x : Handle)
    → Agrees most n hs s h
    → Counted s (roots hs)
    → get_elem? hs i ≡ some x
    → (a : Object) × HandleAt h (addr n i) a × (view a ≡ x)
handle_at most n i hs s h x g c e =
    let (a, here, plain, same) = g.handle i x e in
    (
      a,
      record {
        here = here;
        no_root = plain;
        root = λ id r.
            owned-AtRoot h (roots hs) id
              (subst (λ (t : Store). Counted t (roots hs)) (sym g.stored) c)
              (owner hs i x id e (ap (λ (y : Handle). y.root) (sym same) ∙ r));
      },
      same,
    )
