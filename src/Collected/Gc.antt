-- ===== src/Collected/Gc.antt =====
-- gc_src/cs.c: one run of the collector, `cs_collect_garbage`, with no other thread in between.
-- A stack is the list of its entries with the top first: `bc_push_back` puts an entry in front and
-- `bc_pop_back` takes the first.
pub mod Reach
pub mod Mark
pub mod Rounds
pub mod Correct
use chvm.Base.{
  ℕ, zero, suc, ◌+◌, Bool, true, false, not, ◌||◌, Option, none, some, List, [], ◌∷◌, if◌then◌else◌,
}
use chvm.Base.Result.{Result, ok, exited, blocked, fault, out_of_fuel, ◌>>=◌, ◌>>◌}
use chvm.AddrBook.{Vaddr, null_adb_addr}
use chvm.Collected.RootSet.{RootSet, roots}
use chvm.Collected.Objects.{
  Status, newly_added, unvisited, in_progress, visited, Obj, Store, find, write, ms_get_write,
  ms_foreach, ms_filter, ms_count,
}

-- `gc_worker_status_code`
pub data WorkerStatus : Type 0 where
  on starting stopping off : WorkerStatus

-- `collected_space_struct`
pub record CollectedSpace : Type 0 where
  pub ms : Store
  pub gc_worker_stat : WorkerStatus
  pub gc_in_progress : Bool
  pub paint_black_in_progress : Bool
  pub in_progress_stack : List Vaddr
  pub visit_stack : List Vaddr
  pub root_set : RootSet

-- `obj_unvisit`
abbrev pub obj_unvisit : Obj → Obj
obj_unvisit o = record o { gc_status = unvisited }

-- `obj_reachable`
abbrev pub obj_reachable : Obj → Bool
obj_reachable o = elim o.gc_status [ unvisited ↦ false | _ ↦ true ]

-- The loop of `cs_visit_obj` over the reference table.
unfoldable pub push_refs : List Vaddr → List Vaddr → List Vaddr
push_refs [] st = st
push_refs (r ∷ rs) st = push_refs rs (if null_adb_addr r then st else r ∷ st)

-- The loop over the root set, which starts on what the stack holds.
pub push_roots : List Vaddr → List Vaddr → List Vaddr
push_roots [] st = st
push_roots (r ∷ rs) st = push_roots rs (r ∷ st)

-- The body of the first inner loop: an unvisited object goes to the visit stack.
unfoldable pub transfer_one : Vaddr → Store → List Vaddr → Result (Store × List Vaddr)
transfer_one v s visit = ms_get_write s v >>= λ o. elim o.gc_status [
  | unvisited ↦ ok (write v (record o { gc_status = in_progress }) s, v ∷ visit)
  | _ ↦ ok (s, visit)
]

-- The first inner loop pops the in-progress stack until it is empty.
pub transfer : List Vaddr → Store → List Vaddr → Result (Store × List Vaddr)
transfer [] s visit = ok (s, visit)
transfer (v ∷ st) s visit = transfer_one v s visit >>= λ (s', visit'). transfer st s' visit'

-- `cs_visit_obj`
abbrev pub cs_visit_obj : Vaddr → Obj → Store → List Vaddr → Store × List Vaddr
cs_visit_obj v o s st = (write v (record o { gc_status = visited }) s, push_refs o.rt st)

-- The body of the second inner loop: an object in progress is visited.
unfoldable pub visit_one : Vaddr → Store → List Vaddr → Result (Store × List Vaddr)
visit_one v s st = ms_get_write s v >>= λ o. elim o.gc_status [
  | in_progress ↦ ok (cs_visit_obj v o s st)
  | _ ↦ ok (s, st)
]

-- The second inner loop pops the visit stack until it is empty.
pub visit : List Vaddr → Store → List Vaddr → Result (Store × List Vaddr)
visit [] s st = ok (s, st)
visit (v ∷ vs) s st = visit_one v s st >>= λ (s', st'). visit vs s' st'

abbrev pub non_empty : List Vaddr → Bool
non_empty [] = false
non_empty (_ ∷ _) = true

-- The outer loop, which stops after a round in which both stacks were empty. On fuel: a store of
-- `n` objects takes at most `n + 2` rounds.
pub paint_black : ℕ → List Vaddr → List Vaddr → Store → Result Store
paint_black zero st visits s = out_of_fuel
paint_black (suc fuel) st visits s = transfer st s visits >>= λ (s1, vs).
    visit vs s1 [] >>= λ (s2, st'). elim (non_empty st || non_empty vs) [
      | true ↦ paint_black fuel st' [] s2
      | false ↦ ok s2
    ]

-- The run from the white to the black phase, on the roots, the two stacks and the store.
pub mark : List Vaddr → List Vaddr → List Vaddr → Store → Result Store
mark rs st visits s =
    let white = ms_foreach obj_unvisit s in
    paint_black (ms_count s + 2) (push_roots rs st) visits white

pub cs_collect_garbage : CollectedSpace → Result (ℕ × CollectedSpace)
cs_collect_garbage cs = if cs.gc_in_progress then ok (0, cs) else do
  black ← mark (roots cs.root_set) cs.in_progress_stack cs.visit_stack cs.ms
  (filtered, swept) ← ms_filter obj_reachable black
  ok (
    filtered,
    record cs {
      ms = swept;
      gc_in_progress = false;
      paint_black_in_progress = false;
      in_progress_stack = [];
      visit_stack = [];
    },
  )
