-- ===== src/Smart/Nts.antt =====
-- The class `SmartPointerNTS`, whose handles and roots are objects of the one class. An object is
-- known by its address; the fresh addresses are those that `new` gives.
use jsntp_lcdd.Smart.Runs.{Run, ◌>>=◌, ◌>>◌, return}
use jsntp_lcdd.Prelude.{
  ℕ, zero, suc, ◌+◌, ◌-◌, Bool, true, false, Option, none, some, List, if◌then◌else◌, ◌==◌, leb,
}
use jsntp_lcdd.Smart.Defs.{delete_ptr, same_ptr}

pub record Object : Type 0 where
  pub is_root : Bool
  pub ptr : Option ℕ
  pub root : Option ℕ
  pub ref_count : ℕ

pub record Heap : Type 0 where
  pub objects : ℕ → Option Object
  pub fresh : ℕ
  pub deleted : List ℕ

abbrev pub place : ℕ → Option Object → Heap → Heap
place id o h = record h { objects = λ k. if id == k then o else h.objects k }

-- `none` is a use of an object that is not there.
abbrev pub M : Type 0 → Type 0
M A = Run Heap A

abbrev pub find : ℕ → M Object
find id h = elim (h.objects id) [ none ↦ none | some o ↦ some (o, h) ]

abbrev pub write : ℕ → Object → M (Unit {0})
write id o h = some (tt, place id (some o) h)

-- A handle calls its root, which is a root itself: two calls at most.
abbrev pub depth : ℕ
depth = 2

unfoldable pub add_ref : ℕ → ℕ → M (Unit {0})
add_ref zero id h = none
add_ref (suc d) id h = elim (h.objects id) [
  | none ↦ none
  | some o ↦
      let up : Option (Unit {0} × Heap) = elim o.root [ none ↦ none | some r ↦ add_ref d r h ] in
      if o.is_root
      then some (tt, place id (some (record o { ref_count = o.ref_count + 1 })) h)
      else up
]

-- What `delRef` leaves of a root.
abbrev pub lowered : ℕ → Object → Heap → Heap
lowered id o h =
    if leb o.ref_count 1
    then record (place id none h) { deleted = delete_ptr o.ptr h.deleted }
    else place id (some (record o { ref_count = o.ref_count - 1 })) h

unfoldable pub del_ref : ℕ → ℕ → M (Unit {0})
del_ref zero id h = none
del_ref (suc d) id h = elim (h.objects id) [
  | none ↦ none
  | some o ↦
      let up : Option (Unit {0} × Heap) = elim o.root [
        | none ↦ some (tt, h)
        | some r ↦ del_ref d r h
      ] in
      if o.is_root then some (tt, lowered id o h) else up
]

-- `if(m_root_smartptr != NULL) m_root_smartptr->delRef();`
unfoldable pub del_root : Option ℕ → M (Unit {0})
unfolding del_ref
del_root none = return tt
del_root (some r) = del_ref depth r

-- `new SmartPointerNTS(p, true)`.
unfoldable pub new_root : Option ℕ → M ℕ
new_root p h = some (
  h.fresh,
  record (place h.fresh (some (record { is_root = true; ptr = p; root = none; ref_count = 0 })) h) {
    fresh = suc h.fresh;
  },
)

-- `m_root_smartptr = r; if(m_root_smartptr != NULL) { m_ptr = ...; m_root_smartptr->addRef(); }`
unfoldable pub share : (this : ℕ) → Object → Option ℕ → M (Unit {0})
unfolding add_ref
share this o none = write this (record o { root = none })
share this o (some r) = do
  q ← find r
  write this (record o { root = some r; ptr = q.ptr })
  add_ref depth r

abbrev pub empty : Object
empty = record { is_root = false; ptr = none; root = none; ref_count = 0 }

-- The constructors, for an object at `this`.
unfoldable pub make : (this : ℕ) → Option ℕ → M (Unit {0})
unfolding new_root share
make this p = do write this empty; r ← new_root p; share this empty (some r)

unfoldable pub copy : (this other : ℕ) → M (Unit {0})
unfolding share
copy this other = do q ← find other; write this empty; share this empty q.root

-- The destructor, and the end of the object.
unfoldable pub drop : (this : ℕ) → M (Unit {0})
unfolding del_ref
drop this = do
  o ← find this
  (if o.is_root then return tt else del_ref depth this)
  (λ h. some (tt, place this none h))

-- `operator=(T* p)`.
unfoldable pub assign_ptr : (this : ℕ) → Option ℕ → M (Unit {0})
unfolding del_root new_root share
assign_ptr this p = do o ← find this; del_root o.root; r ← new_root p; share this o (some r)

-- `operator=(const SmartPointerNTS<T>&)`.
unfoldable pub assign : (this other : ℕ) → M (Unit {0})
unfolding del_root share
assign this other = do o ← find this; del_root o.root; q ← find other; share this o q.root

-- `operator==` takes its argument by value: a copy at `arg`, which ends with the call.
unfoldable pub equals : (arg this other : ℕ) → M Bool
unfolding copy drop same_ptr
equals arg this other = do
  copy arg other
  o ← find this
  q ← find arg
  drop arg
  return (same_ptr o.ptr q.ptr)

-- `operator!`, and `operator==(T* p)`.
unfoldable pub is_null : (this : ℕ) → M Bool
is_null this = do o ← find this; return (elim o.ptr [ none ↦ true | some p ↦ false ])

unfoldable pub equals_ptr : (this : ℕ) → Option ℕ → M Bool
unfolding same_ptr
equals_ptr this p = do o ← find this; return (same_ptr o.ptr p)

unfoldable pub detach : (this : ℕ) → M (Option ℕ)
unfolding add_ref
detach this = do
  o ← find this
  elim o.root [ none ↦ return none | some r ↦ do add_ref depth r; return (some r) ]

unfoldable pub take_over : (this : ℕ) → Object → Option ℕ → M (Unit {0})
take_over this o none = write this (record o { root = none })
take_over this o (some r) = do q ← find r; write this (record o { root = some r; ptr = q.ptr })

unfoldable pub attach : (this : ℕ) → Option ℕ → M (Unit {0})
unfolding del_root take_over
attach this r = do o ← find this; del_root o.root; take_over this o r
