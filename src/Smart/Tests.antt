-- ===== src/Smart/Tests.antt =====
-- Concrete handles: two on root 0, which has object 100. Concrete threads on a root.
use jsntp_lcdd.Prelude.{ℕ, arith, ◌≡◌, refl, none, some, [], ◌∷◌, length}
use jsntp_lcdd.Locks.Defs.{Lockable, new_lockable, acquire}
use jsntp_lcdd.Smart.Defs.{Root, Store, Handle, put, assign}
use jsntp_lcdd.Smart.Handles.{assign_self-deleted}
use jsntp_lcdd.Smart.Threads.{
  smart_pointer, adding, idle, calling, entered, loaded, leaving, call, enter, System, update,
  start, pick, Reach, here, next,
}
use jsntp_lcdd.Smart.Sharing.{Shared, Reach-Shared}
use jsntp_lcdd.Smart.Races.{Between, Gained, lost_count}

abbrev root0 : ℕ → Root
root0 n = record { ptr = some 100; ref_count = n }

abbrev store : ℕ → Store
store n = record { roots = put (λ _. none) 0 (some (root0 n)); fresh = 1; deleted = [] }

abbrev handle0 : Handle
handle0 = record { ptr = some 100; root = some 0 }

assign_self_example : assign handle0 handle0 (store 1) ≡ none
assign_self_example = assign_self-deleted handle0 (store 1) 0 (root0 1) refl refl (omega arith)

-- Thread 1 has made a root, copies its handle, and gives the copy to thread 2.
abbrev called : System
called = record (start 1) { pc = update (start 1).pc 1 (calling adding) }

abbrev locked : Lockable → System
locked l = record {
  root = record (start 1).root { lock = l };
  pc = update called.pc 1 (entered adding);
}

abbrev read : System
read = record (locked new_lockable) { pc = update (locked new_lockable).pc 1 (loaded adding 1) }

abbrev written : System
written = record {
  root = record (start 1).root { ref_count = 2; owners = 1 ∷ 1 ∷ [] };
  pc = update read.pc 1 leaving;
}

abbrev given : System
given = record {
  root = record written.root { owners = 2 ∷ 1 ∷ [] };
  pc = update (update written.pc 1 idle) 1 idle;
}

lost_example :
    (t : System) × Between 1 2 given t
    × Gained 1 given t
    × Gained 2 given t
    × (t.root.ref_count ≡ 3)
    × (length t.root.owners ≡ 4)
    × (t.root.deletions ≡ 0)
lost_example = lost_count given 1 2 (λ e. cc) refl refl (omega arith) (omega arith)

abbrev mine : Lockable
mine = record { owner = some 1 }

locked_reached : Reach smart_pointer (locked mine)
unfolding acquire
locked_reached =
    let r1 : Reach smart_pointer called = next (here 1) (pick 1 (call adding (omega arith))) in
    next r1 (pick 1 (enter {l = mine} refl))

shared_example : Shared (locked mine)
shared_example = Reach-Shared {s = locked mine} locked_reached
