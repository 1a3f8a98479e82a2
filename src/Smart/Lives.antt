-- ===== src/Smart/Lives.antt =====
-- A program over `SmartPointerNTS` on a stack of two handles.
use jsntp_lcdd.Prelude.{◌≡◌, refl, arith, some, [], ◌∷◌, List}
use jsntp_lcdd.Smart.Defs.{Store, Handle}
use jsntp_lcdd.Smart.Nts.{Heap}
use jsntp_lcdd.Smart.Clients.{
  Op, declare, declare_copy, assigns, assigns_ptr, leave, run, store_from, handed, widths,
}
use jsntp_lcdd.Smart.Clients.Objects.{count}
use jsntp_lcdd.Smart.Objects.{perform_all, Agrees}
use jsntp_lcdd.Smart.Replays.{heap_from, perform_all-refines, perform_all-deletes}

abbrev two : List Op
two = declare (some 7) ∷ declare_copy 0 ∷ assigns_ptr 0 (some 8) ∷ assigns 1 0 ∷ leave ∷ leave ∷ []

perform_all_example :
    (hs : List Handle) × (s : Store) × (h : Heap) × (run two [] (store_from 2) ≡ some (hs, s))
    × (perform_all 0 two (heap_from 2) ≡ some (widths 0 two, h))
    × Agrees 2 (widths 0 two) hs s h
perform_all_example = perform_all-refines 2 two (ground arith) (omega arith)

deletes_example :
    (h : Heap) × (perform_all 0 two (heap_from 2) ≡ some (0, h))
    × (count 7 h.deleted ≡ handed 7 two)
deletes_example = perform_all-deletes 2 7 two (ground arith) (omega arith) refl
