-- ===== src/Smart/Clients/Objects.antt =====
-- Where an object is: handed over, pointed to by a root, or deleted.
use jsntp_lcdd.Smart.Runs.{return}
use jsntp_lcdd.Prelude.{
  ℕ, zero, suc, ◌+◌, ◌-◌, ◌≤◌, ◌<◌, ◌≡◌, refl, sym, ap, ◌∙◌, subst, false, Option, none, some, List,
  [], ◌∷◌, ◌==◌, ==_iff, if◌then◌else◌, leb, arith, Option-cases, Bool-cases, inl, inr,
}
use jsntp_lcdd.Smart.Defs.{Root, Store, M, put, add_ref, del_ref, delete_ptr}
use jsntp_lcdd.Smart.Clients.{is_object}

abbrev pub count : ℕ → List ℕ → ℕ
count p [] = 0
count p (q ∷ qs) = (if q == p then 1 else 0) + count p qs

-- How many of the first roots point to an object.
abbrev pub points : ℕ → Option Root → ℕ
points p none = 0
points p (some r) = is_object p r.ptr

abbrev pub alive : ℕ → (ℕ → Option Root) → ℕ → ℕ
alive p f zero = 0
alive p f (suc n) = points p (f n) + alive p f n

alive-put_above :
    (p : ℕ) (f : ℕ → Option Root) (id n : ℕ) (r : Option Root)
    → n ≤ id
    → alive p (put f id r) n ≡ alive p f n
alive-put_above p f id zero r h = refl
alive-put_above p f id (suc n) r h =
    let apart : (id == n) ≡ false = ground (arith, ==_iff id n) in
    rw apart (ap (λ (k : ℕ). points p (f n) + k) (alive-put_above p f id n r (omega arith)))

alive-put :
    (p : ℕ) (f : ℕ → Option Root) (id n : ℕ) (r : Option Root)
    → id < n
    → alive p (put f id r) n + points p (f id) ≡ alive p f n + points p r
alive-put p f id zero r h = absurd (omega arith)
alive-put p f id (suc n) r h = elim (Bool-cases (id == n)) [
  | inl e ↦
      let same : id ≡ n = (==_iff id n).0 e in
      rw e (
        omega (
          arith,
          alive-put_above p f id n r (omega (arith, same)),
          ap (λ (k : ℕ). points p (f k)) same,
        ))
  | inr e ↦ rw e (omega (arith, alive-put p f id n r (ground (arith, ==_iff id n))))
]

-- Only the roots below `fresh` are used.
abbrev pub Dense : Store → Type 0
Dense s = (id : ℕ) → s.fresh ≤ id → s.roots id ≡ none

-- From one store to a later one `n` objects `p` were handed over.
pub record Later (p n : ℕ) (s s' : Store) : Type 0 where
  pub grows : s.fresh ≤ s'.fresh
  pub dense : Dense s'
  pub same :
      (id : ℕ) (q' : Root)
      → id < s.fresh
      → s'.roots id ≡ some q'
      → (q : Root) × (s.roots id ≡ some q) × (q.ptr ≡ q'.ptr)
  pub balance :
      count p s'.deleted + alive p s'.roots s'.fresh
      ≡ n + (count p s.deleted + alive p s.roots s.fresh)

pub Later-refl : (p : ℕ) (s : Store) → Dense s → Later p 0 s s
Later-refl p s d = record {
  grows = omega arith;
  dense = d;
  same = λ id q h e. (q, e, refl);
  balance = omega arith;
}

pub Later-trans : (p n m : ℕ) (s t u : Store) → Later p n s t → Later p m t u → Later p (n + m) s u
Later-trans p n m s t u a b = record {
  grows = omega (arith, a.grows, b.grows);
  dense = b.dense;
  same = λ id q h e.
      let (r, f, g) = b.same id q (omega (arith, a.grows)) e in
      let (r', f', g') = a.same id r h f in (r', f', g' ∙ g);
  balance = omega (arith, a.balance, b.balance);
}

-- The run, if it ends, hands over `n` objects `p`, and its result is as `Q` says.
abbrev pub After : {A : Type 0} → ℕ → ℕ → (A → Store → Type 0) → Store → Option (A × Store) → Type 0
After p n Q s none = Unit {0}
After p n Q s (some (a, s')) = Later p n s s' × Q a s'

abbrev pub Hands : {A : Type 0} → ℕ → ℕ → M A → (A → Store → Type 0) → Type 0
Hands p n m Q = (s : Store) → Dense s → After p n Q s (m s)

pub After-then :
    {A B : Type 0} (p n k : ℕ) (P : A → Store → Type 0) (Q : B → Store → Type 0) (s : Store)
    (m : Option (A × Store)) (f : A → M B)
    → After p n P s m
    → ((a : A) (s' : Store) → P a s' → Dense s' → After p k Q s' (f a s'))
    → After p (n + k) Q s (elim m [ none ↦ none | some (a, s') ↦ f a s' ])
After-then p n k P Q s none f w next = tt
After-then {A} {B} p n k P Q s (some (a, s')) f (l, c) next = onwards (f a s') (next a s' c l.dense)
  where
    onwards : (r : Option (B × Store)) → After p k Q s' r → After p (n + k) Q s r
    onwards none w = tt
    onwards (some (b, s'')) (l', c') = (Later-trans p n k s s' s'' l l', c')

pub After-none :
    {A : Type 0} (p n : ℕ) (Q : A → Store → Type 0) (s : Store) (m : Option (A × Store))
    → m ≡ none
    → After p n Q s m
After-none p n Q s m e = subst (λ x. After p n Q s x) (sym e) tt

pub After-some :
    {A : Type 0} (p n : ℕ) (Q : A → Store → Type 0) (s : Store) (m : Option (A × Store)) (a : A)
    (s' : Store)
    → m ≡ some (a, s')
    → Later p n s s'
    → Q a s'
    → After p n Q s m
After-some p n Q s m a s' e l q = subst (λ x. After p n Q s x) (sym e) (l, q)

-- A root below `fresh` that is there.
pub below : (s : Store) (id : ℕ) (r : Root) → Dense s → s.roots id ≡ some r → id < s.fresh
below s id r d e = elim (Bool-cases (leb s.fresh id)) [
  | inl h ↦ absurd (ground (arith, d id))
  | inr h ↦ ground arith
]

-- The count of a root changes.
pub recounted-Later :
    (p : ℕ) (s : Store) (id : ℕ) (r : Root) (n : ℕ)
    → Dense s
    → s.roots id ≡ some r
    → Later p 0 s (record s { roots = put s.roots id (some (record r { ref_count = n })) })
recounted-Later p s id r n d e =
    let low = below s id r d e in
    record {
      grows = omega arith;
      dense = λ k h. ground (arith, d k, ==_iff id k);
      same = λ k q h f. elim (Bool-cases (id == k)) [
        | inl t ↦ (r, ap s.roots (sym ((==_iff id k).0 t)) ∙ e, ground arith)
        | inr t ↦ (q, ground arith, refl)
      ];
      balance = ground (
        arith,
        alive-put p s.roots id s.fresh (some (record r { ref_count = n })) low,
        ap (points p) e,
      );
    }

-- The last owner of a root goes.
deleted-Later :
    (p : ℕ) (s : Store) (id : ℕ) (r : Root)
    → Dense s
    → s.roots id ≡ some r
    → Later p 0 s (record s { roots = put s.roots id none; deleted = delete_ptr r.ptr s.deleted })
deleted-Later p s id r d e =
    let low = below s id r d e in
    record {
      grows = omega arith;
      dense = λ k h. ground (arith, d k);
      same = λ k q h f. elim (Bool-cases (id == k)) [
        | inl t ↦ absurd (ground arith)
        | inr t ↦ (q, ground arith, refl)
      ];
      balance = gone r.ptr (alive-put p s.roots id s.fresh none low) (ap (points p) e);
    }
  where
    gone :
        (q : Option ℕ)
        → alive p (put s.roots id none) s.fresh + points p (s.roots id)
          ≡ alive p s.roots s.fresh + 0
        → points p (s.roots id) ≡ is_object p q
        → count p (delete_ptr q s.deleted) + alive p (put s.roots id none) s.fresh
          ≡ 0 + (count p s.deleted + alive p s.roots s.fresh)
    gone none a b = omega (arith, a, b)
    gone (some x) a b = ground (arith, a, b)

-- A new root.
pub new-Later :
    (p : ℕ) (q : Option ℕ) (s : Store)
    → Dense s
    → Later p (is_object p q) s (record s {
      roots = put s.roots s.fresh (some (record { ptr = q; ref_count = 0 }));
      fresh = suc s.fresh;
    })
new-Later p q s d = record {
  grows = omega arith;
  dense = λ k h. ground (arith, d k);
  same = λ k x h f. (x, ground (arith, ==_iff s.fresh k), refl);
  balance = ground (
    arith,
    ==_iff s.fresh s.fresh,
    alive-put_above p s.roots s.fresh s.fresh (some (record { ptr = q; ref_count = 0 }))
        (omega arith),
  );
}

module _ (p : ℕ) where
  pub return-Hands :
      {A : Type 0} (Q : A → Store → Type 0) (a : A) (s : Store)
      → Dense s
      → Q a s
      → After p 0 Q s (return a s)
  return-Hands Q a s d q = (Later-refl p s d, q)

  pub add_ref-Hands : (id : ℕ) → Hands p 0 (add_ref id) (λ u s'. Unit {0})
  unfolding add_ref
  add_ref-Hands id s d = elim (Option-cases (s.roots id)) [
    | inl e ↦ After-none p 0 _ s _ (rw (e, add_ref) refl)
    | inr (r, e) ↦
        After-some p 0 _ s _ tt _ (rw (e, add_ref) refl)
          (recounted-Later p s id r (r.ref_count + 1) d e) tt
  ]

  pub del_ref-Hands : (id : ℕ) → Hands p 0 (del_ref id) (λ u s'. Unit {0})
  unfolding del_ref
  del_ref-Hands id s d = elim (Option-cases (s.roots id)) [
    | inl e ↦ After-none p 0 _ s _ (rw (e, del_ref) refl)
    | inr (r, e) ↦ elim (Bool-cases (leb r.ref_count 1)) [
      | inl low ↦
          After-some p 0 _ s _ tt _ (rw (e, low, del_ref) refl) (deleted-Later p s id r d e) tt
      | inr high ↦
          After-some p 0 _ s _ tt _ (rw (e, high, del_ref) refl)
            (recounted-Later p s id r (r.ref_count - 1) d e) tt
    ]
  ]
