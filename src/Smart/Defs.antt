-- ===== src/Smart/Defs.antt =====
-- The class `SmartPointer` over an explicit heap. An object that is not a root is a handle; the root
-- that it points to stands in the store. Each change of a count is made under the root's lock, so it
-- is one step here. Pointers are numbers, and a null pointer is `none`.
use jsntp_lcdd.Smart.Runs.{Run, ◌>>=◌, ◌>>◌, return}
use jsntp_lcdd.Prelude.{
  ℕ, suc, ◌+◌, ◌-◌, Bool, Option, none, some, List, ◌∷◌, if◌then◌else◌, ◌==◌, leb,
}

pub record Root : Type 0 where
  pub ptr : Option ℕ
  pub ref_count : ℕ

-- `deleted` are the objects that were deleted, the last one first.
pub record Store : Type 0 where
  pub roots : ℕ → Option Root
  pub fresh : ℕ
  pub deleted : List ℕ

pub record Handle : Type 0 where
  pub ptr : Option ℕ
  pub root : Option ℕ

abbrev pub put : (ℕ → Option Root) → ℕ → Option Root → ℕ → Option Root
put roots id r k = if id == k then r else roots k

-- `none` is a use of a root that was deleted.
abbrev pub M : Type 0 → Type 0
M A = Run Store A

-- `new SmartPointer(p, true)`.
unfoldable pub new_root : Option ℕ → M ℕ
new_root p s = some (
  s.fresh,
  record s {
    roots = put s.roots s.fresh (some (record { ptr = p; ref_count = 0 }));
    fresh = suc s.fresh;
  },
)

-- `m_root_smartptr->m_ptr`.
unfoldable pub root_ptr : ℕ → M (Option ℕ)
root_ptr id s = elim (s.roots id) [ none ↦ none | some r ↦ some (r.ptr, s) ]

unfoldable pub add_ref : ℕ → M (Unit {0})
add_ref id s = elim (s.roots id) [
  | none ↦ none
  | some r ↦
      some
        (tt, record s { roots = put s.roots id (some (record r { ref_count = r.ref_count + 1 })) })
]

abbrev pub delete_ptr : Option ℕ → List ℕ → List ℕ
delete_ptr none deleted = deleted
delete_ptr (some p) deleted = p ∷ deleted

-- `m_refCount--; if(m_refCount <= 0)`: the object and the root itself are deleted.
unfoldable pub del_ref : ℕ → M (Unit {0})
del_ref id s = elim (s.roots id) [
  | none ↦ none
  | some r ↦ some (
    tt,
    if leb r.ref_count 1
        then record s { roots = put s.roots id none; deleted = delete_ptr r.ptr s.deleted }
        else record s { roots = put s.roots id (some (record r { ref_count = r.ref_count - 1 })) },
  )
]

-- `if(m_root_smartptr != NULL) m_root_smartptr->delRef();`
unfoldable pub del_root : Option ℕ → M (Unit {0})
unfolding del_ref
del_root none = return tt
del_root (some id) = del_ref id

-- `m_ptr = m_root_smartptr->m_ptr; m_root_smartptr->addRef();`, or the old pointer with no root.
unfoldable pub share : (stale : Option ℕ) → Option ℕ → M Handle
unfolding root_ptr add_ref
share stale none = return (record { ptr = stale; root = none })
share stale (some id) = do p ← root_ptr id; add_ref id; return (record { ptr = p; root = some id })

-- The constructor without an argument.
abbrev pub empty : Handle
empty = record { ptr = none; root = none }

-- `SmartPointer(T* p)`.
unfoldable pub make : Option ℕ → M Handle
unfolding new_root share
make p = do id ← new_root p; share none (some id)

-- `SmartPointer(const SmartPointer<T>&)`, and the constructor from a pointer to one.
unfoldable pub copy : Handle → M Handle
unfolding share
copy other = share none other.root

-- The destructor of a handle.
unfoldable pub drop : Handle → M (Unit {0})
unfolding del_root
drop h = del_root h.root

-- `operator=(T* p)`.
unfoldable pub assign_ptr : Handle → Option ℕ → M Handle
unfolding del_root new_root share
assign_ptr h p = do del_root h.root; id ← new_root p; share h.ptr (some id)

-- `operator=(const SmartPointer<T>&)`. The pointer stays as it was when the other has no root.
unfoldable pub assign : Handle → Handle → M Handle
unfolding del_root share
assign h other = do del_root h.root; share h.ptr other.root

-- `operator!`, and `operator==` with a handle.
unfoldable pub is_null : Handle → Bool
is_null h = elim h.ptr [ none ↦ Bool.true | some p ↦ Bool.false ]

unfoldable pub same_ptr : Option ℕ → Option ℕ → Bool
same_ptr none none = Bool.true
same_ptr (some p) (some q) = p == q
same_ptr _ _ = Bool.false

unfoldable pub equals : Handle → Handle → Bool
unfolding same_ptr
equals h other = same_ptr h.ptr other.ptr

-- `detach()` gives its root, counted once more for the caller.
unfoldable pub count_root : Option ℕ → M (Option ℕ)
unfolding add_ref
count_root none = return none
count_root (some id) = do add_ref id; return (some id)

unfoldable pub detach : Handle → M (Option ℕ)
unfolding count_root
detach h = count_root h.root

-- `attach(p)` takes over a count; the pointer stays as it was when `p` is null.
unfoldable pub take_over : (stale : Option ℕ) → Option ℕ → M Handle
unfolding root_ptr
take_over stale none = return (record { ptr = stale; root = none })
take_over stale (some id) = do p ← root_ptr id; return (record { ptr = p; root = some id })

unfoldable pub attach : Handle → Option ℕ → M Handle
unfolding del_root take_over
attach h r = do del_root h.root; take_over h.ptr r
