-- ===== src/Smart/Clients/Tests.antt =====
-- Two objects, handles on them that change, and the ends of the scopes.
use jsntp_lcdd.Prelude.{◌≡◌, refl, arith, some, none, Option, [], ◌∷◌, List}
use jsntp_lcdd.Smart.Defs.{Store, Handle}
use jsntp_lcdd.Smart.Counting.{Works}
use jsntp_lcdd.Smart.Clients.{
  Op, declare, declare_copy, assigns, assigns_ptr, transfer, leave, run, new_store, handed,
}
use jsntp_lcdd.Smart.Clients.Objects.{count}
use jsntp_lcdd.Smart.Clients.Whole.{run-deletes, run-keeps}

abbrev opened : List Op
opened =
    declare (some 7) ∷ declare_copy 0 ∷ declare none ∷ transfer 1 0 ∷ assigns_ptr 1 (some 8) ∷ []

abbrev whole : List Op
whole =
    declare (some 7) ∷ declare_copy 0 ∷ assigns_ptr 0 (some 8) ∷ assigns 1 0 ∷ leave ∷ leave ∷ []

run-deletes_example :
    Works (run whole [] new_store) (λ hs s. (hs ≡ []) × (count 7 s.deleted ≡ handed 7 whole))
run-deletes_example = run-deletes whole 7 (ground arith) refl

abbrev handles_of : Option (List Handle × Store) → List Handle
handles_of none = []
handles_of (some (hs, s)) = hs

abbrev store_of : Option (List Handle × Store) → Store
store_of none = new_store
store_of (some (hs, s)) = s

-- The second handle is on the object 7, which the first one had at the start.
run-keeps_example : count 7 (store_of (run opened [] new_store)).deleted ≡ 0
unfolding run
run-keeps_example =
    run-keeps opened 7 0 0 (handles_of (run opened [] new_store))
      (store_of (run opened [] new_store)) (record { ptr = some 7; root = some 0 }) (ground arith)
      refl refl refl refl refl
