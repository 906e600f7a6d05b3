-- ===== src/Collected/Mutator/Progress.antt =====
-- gc_src/cs.c: the collector of the black phase is not stuck, whatever the users do.
use chvm.Base.{◌≡◌, refl, inl, inr, some, List, ◌∷◌, arith, In}
use chvm.Base.Result.{ok}
use chvm.AddrBook.{Vaddr}
use chvm.Collected.RootSet.{roots}
use chvm.Collected.Objects.{in_progress, visited, Obj, Store, find, write}
use chvm.Collected.Gc.{transfer_one, visit_one, push_refs}
use chvm.Collected.Gc.Rounds.{is_unvisited, is_in_progress}
use chvm.Collected.Mutator.{Shared, Step, Steps, take, look}
use chvm.Collected.Mutator.Moves.{find-some}
use chvm.Collected.Mutator.Safety.{IsBlackStart, Steps-After, IsBlackStart-IsSound}

transfer_one-run :
    (v : Vaddr) (s : Store) (vs : List Vaddr) (o : Obj)
    → find v s ≡ some o
    → (s' : Store) × (vs' : List Vaddr) × (transfer_one v s vs ≡ ok (s', vs'))
unfolding transfer_one
transfer_one-run v s vs o e = elim (is_unvisited o.gc_status) [
  | inl white ↦ (write v (record o { gc_status = in_progress }) s, v ∷ vs, ground arith)
  | inr other ↦ (s, vs, ground arith)
]

visit_one-run :
    (v : Vaddr) (s : Store) (st : List Vaddr) (o : Obj)
    → find v s ≡ some o
    → (s' : Store) × (st' : List Vaddr) × (visit_one v s st ≡ ok (s', st'))
unfolding visit_one
visit_one-run v s st o e = elim (is_in_progress o.gc_status) [
  | inl grey ↦ (write v (record o { gc_status = visited }) s, push_refs o.rt st, ground arith)
  | inr other ↦ (s, st, ground arith)
]

-- In every state that an interleaving leads to, the collector can pop the in-progress stack where its
-- top is an object that no user holds, and the visit stack likewise: no address on a stack is
-- dangling, so no access ends the process.
pub pop_of_Steps :
    (x y : Shared) (v : Vaddr) (st : List Vaddr)
    → IsBlackStart x
    → Steps x y
    → ¬ In v y.held
    → (y.cs.in_progress_stack ≡ v ∷ st → (z : Shared) × Step y z × (z.cs.in_progress_stack ≡ st))
      × (y.cs.visit_stack ≡ v ∷ st → (z : Shared) × Step y z × (z.cs.visit_stack ≡ st))
pop_of_Steps x y v st b run off =
    let (i, _) = Steps-After x.cs.ms (roots x.cs.root_set) b.start run (IsBlackStart-IsSound x b) in
    (
      λ top.
          let on : In v y.cs.in_progress_stack = rw top (inl refl) in
          let (o, e) = find-some v y.cs.ms (i.tracked.pending v on) in
          let (ms, vs, ok_run) = transfer_one-run v y.cs.ms y.cs.visit_stack o e in
          (_, take y v st ms vs top off ok_run, refl),
      λ top.
          let on : In v y.cs.visit_stack = rw top (inl refl) in
          let (o, e) = find-some v y.cs.ms (i.tracked.waiting v on) in
          let (ms, st', ok_run) = visit_one-run v y.cs.ms y.cs.in_progress_stack o e in
          (_, look y v st ms st' top off ok_run, refl),
    )
