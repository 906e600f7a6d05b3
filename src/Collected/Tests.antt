-- ===== src/Collected/Tests.antt =====
-- Runs of the root set and of the collector of gc_src/cs.c.
use chvm.Base.{
  ℕ, zero, suc, ◌+◌, ◌<◌, ◌≤◌, ◌≡◌, refl, ◌≢◌, ◌↔◌, ◌⊎◌, inl, inr, true, false, ltb, if◌then◌else◌,
  some, none, List, [], ◌∷◌, arith, In, Option-cases,
}
use chvm.Base.Result.{ok}
use chvm.AddrBook.{Vaddr, null_vaddr, uint64_max, eq_adb_addr, null_adb_addr}
use chvm.Collected.RootSet.{
  next_free, allocated, RootSet, success, id_out_of_bounds, id_not_allocated, entry_at, resize,
  cs_root, pop_free, new_entries, cs_deroot, cs_get_root_vaddr, roots, roots_from,
}
use chvm.Collected.RootSet.Inv.{IsValid as IsValidRoots, resize-IsValid}
use chvm.Collected.RootSet.Calls.{IsRoot, Rooted, cs_root_lem, cs_deroot_lem}
use chvm.Collected.Objects.{
  Status, newly_added, unvisited, in_progress, visited, Obj, Store, find, write, ms_filter,
}
use chvm.Collected.Objects.Filter.{Filtered, ms_filter_lem}
use chvm.Collected.Gc.{
  WorkerStatus, on, starting, stopping, CollectedSpace, off, obj_reachable, cs_collect_garbage,
  push_refs, transfer_one, visit_one,
}
use chvm.Collected.Gc.Correct.{IsValid, Collected, cs_collect_garbage_lem}
use chvm.Collected.Gc.Reach.{IsClosed, Reach, root as is_root}
use chvm.Collected.Mutator.Root.{cs_malloc_root_lem}
use chvm.Collected.Mutator.{
  new_obj, cs_malloc_root, Shared, Step, Steps, take, look, lock, unlock, store, read, root, here,
  next, cs_get_write,
}
use chvm.Collected.Mutator.Safety.{IsBlackStart, ms_filter-Steps}
use chvm.Collected.Mutator.Progress.{pop_of_Steps}
use chvm.Collected.Worker.{
  Threads, at_rest, start_guard, stop_guard, Moves, none_yet, then_one, start, create, started,
  stop, worker_of_Moves,
}

abbrev at : ℕ → Vaddr
at i = record { table_index = 0; cell_index = i }

-- The root set after one call of `cs_root`: every entry is in use.
abbrev one_root : RootSet
one_root = record { root_set_cap = 1; free_head = uint64_max; root_set = allocated (at 3) ∷ [] }

one_root-IsValid : IsValidRoots one_root
one_root-IsValid = record {
  size = refl;
  cap_pos = omega arith;
  small = omega arith;
  chain = [];
  linked = refl;
  listed = λ i n. none_free i n;
}
  where
    none_free : (i n : ℕ) → entry_at one_root i ≡ next_free n → In i []
    none_free zero n h = cc
    none_free (suc i) n h = cc

cs_root_lem_example :
    (id : ℕ) × (rs' : RootSet) × (cs_root one_root (at 4) ≡ ok (id, rs'))
    × Rooted one_root (at 4) id rs'
    × ((rs'.root_set_cap ≡ 1)
        ⊎ (rs'.root_set_cap ≡ 2) × ((i : ℕ) → i < 1 → (u : Vaddr) × IsRoot one_root i u))
cs_root_lem_example = cs_root_lem one_root (at 4) one_root-IsValid (omega arith)

cs_deroot_lem_example :
    ((w : Vaddr)
      → IsRoot one_root 0 w
      → (rs' : RootSet) × (cs_deroot one_root 0 ≡ (success, rs'))
        × IsValidRoots rs'
        × (rs'.free_head ≡ 0)
        × (cs_get_root_vaddr rs' 0 ≡ (id_not_allocated, null_vaddr))
        × ((j : ℕ) (u : Vaddr) → j ≢ 0 → IsRoot rs' j u ↔ IsRoot one_root j u))
    × (((w : Vaddr) → ¬ IsRoot one_root 0 w)
        → cs_deroot one_root 0 ≡ (if ltb 0 1 then id_not_allocated else id_out_of_bounds, one_root))
cs_deroot_lem_example = cs_deroot_lem one_root 0 one_root-IsValid

resize-IsValid_example :
    IsValidRoots (resize one_root)
    × ((resize one_root).free_head ≡ 1)
    × ((resize one_root).root_set_cap ≡ 2)
    × ((i : ℕ) → i < 1 → entry_at (resize one_root) i ≡ entry_at one_root i)
    × ((i : ℕ) → 1 ≤ i → i < 2 → (n : ℕ) × (entry_at (resize one_root) i ≡ next_free n))
resize-IsValid_example = resize-IsValid one_root one_root-IsValid (omega arith) refl

-- Object 3 refers to 4 and to NULL, 4 to 3, and 5 to itself; 3 is the root.
abbrev heap : Store
heap =
    (at 3, record { gc_status = newly_added; rt = at 4 ∷ null_vaddr ∷ []; da = [] })
    ∷ (at 4, record { gc_status = visited; rt = at 3 ∷ []; da = 8 ∷ [] })
    ∷ (at 5, record { gc_status = unvisited; rt = at 5 ∷ []; da = 9 ∷ [] })
    ∷ []

ms_filter_lem_example :
    (n : ℕ) × (s' : Store) × (ms_filter obj_reachable heap ≡ ok (n, s'))
    × Filtered obj_reachable heap n s'
ms_filter_lem_example = ms_filter_lem obj_reachable heap (refl, (refl, (refl, tt)))

abbrev space : CollectedSpace
space = record {
  ms = heap;
  gc_worker_stat = off;
  gc_in_progress = false;
  paint_black_in_progress = false;
  in_progress_stack = [];
  visit_stack = [];
  root_set = one_root;
}

space-IsValid : IsValid space
unfolding roots_from
space-IsValid = record {
  distinct = (refl, (refl, (refl, tt)));
  closed = record {
    root_live = λ v m. there v (ground arith);
    ref_live = λ v w o e m n. there w (ground arith);
  };
  drained = refl;
  no_visits = refl;
}
  where
    there : (v : Vaddr) → find v heap ≢ none → (o : Obj) × (find v heap ≡ some o)
    there v ne = elim (Option-cases (find v heap)) [
      | inl gone ↦ absurd (ne gone)
      | inr there_is ↦ there_is
    ]

cs_collect_garbage_lem_example :
    (n : ℕ) × (cs' : CollectedSpace) × (cs_collect_garbage space ≡ ok (n, cs'))
    × (false ≡ true → (n ≡ 0) × (cs' ≡ space))
    × (false ≡ false → Collected space n cs')
cs_collect_garbage_lem_example = cs_collect_garbage_lem space space-IsValid

-- The heap at the start of a black phase, with the address of the root on the stack; a user knows
-- the root and the object that it refers to.
abbrev white_heap : Store
white_heap =
    (at 3, record { gc_status = unvisited; rt = at 4 ∷ null_vaddr ∷ []; da = [] })
    ∷ (at 4, record { gc_status = unvisited; rt = at 3 ∷ []; da = 8 ∷ [] })
    ∷ (at 5, record { gc_status = unvisited; rt = at 5 ∷ []; da = 9 ∷ [] })
    ∷ []

abbrev black_start : Shared
black_start = record {
  cs = record space {
    ms = white_heap;
    gc_in_progress = true;
    paint_black_in_progress = true;
    in_progress_stack = at 3 ∷ [];
  };
  held = [];
  known = at 3 ∷ [];
}

black_start-IsBlackStart : IsBlackStart black_start
unfolding roots_from
black_start-IsBlackStart = record {
  start = record {
    closed = record {
      root_live = λ v m. there v (ground arith);
      ref_live = λ v w o e m n. there w (ground arith);
    };
    white = λ v o e. ground arith;
  };
  flag = refl;
  nobody = refl;
  users = λ w m. is_root (ground arith);
  stacked = λ w m. m;
  stack_live = λ w m. ground arith;
  no_visits = refl;
  distinct = (refl, (refl, (refl, tt)));
}
  where
    there : (v : Vaddr) → find v white_heap ≢ none → (o : Obj) × (find v white_heap ≡ some o)
    there v ne = elim (Option-cases (find v white_heap)) [
      | inl gone ↦ absurd (ne gone)
      | inr there_is ↦ there_is
    ]

-- The user visits the root on its way to write it, clears its reference to 4 after reading it, and
-- roots 4 in its place.
abbrev obj_at : Status → List Vaddr → List ℕ → Obj
obj_at c rt da = record { gc_status = c; rt = rt; da = da }

abbrev heap_with : Status → Vaddr → Status → Store
heap_with c3 r c4 =
    (at 3, obj_at c3 (r ∷ null_vaddr ∷ []) [])
    ∷ (at 4, obj_at c4 (at 3 ∷ []) (8 ∷ []))
    ∷ (at 5, obj_at unvisited (at 5 ∷ []) (9 ∷ []))
    ∷ []

abbrev during : Store → List Vaddr → List Vaddr → List Vaddr → List Vaddr → Shared
during s st vs held known = record {
  cs = record black_start.cs { ms = s; in_progress_stack = st; visit_stack = vs };
  held = held;
  known = known;
}

abbrev cleared : Shared
cleared =
    during (heap_with visited null_vaddr unvisited) (at 4 ∷ at 3 ∷ []) [] [] (at 4 ∷ at 3 ∷ [])

cleared-Steps : Steps black_start cleared
unfolding cs_get_write push_refs write
cleared-Steps =
    let s1 : Shared =
      during (heap_with visited (at 4) unvisited) (at 4 ∷ at 3 ∷ []) [] (at 3 ∷ []) (at 3 ∷ []) in
    let s2 : Shared = record s1 { known = at 4 ∷ at 3 ∷ [] } in
    let s3 : Shared = record s2 {
      cs = record s2.cs { ms = heap_with visited null_vaddr unvisited };
    } in
    let r1 : Steps black_start s1 =
      next here (lock black_start (at 3) s1.cs (inl refl) (λ m. m) refl) in
    let r2 : Steps black_start s2 = next r1 (
      read s1 (at 3) (at 4) (obj_at visited (at 4 ∷ null_vaddr ∷ []) []) (inl refl) refl (inl refl)
        refl) in
    let r3 : Steps black_start s3 = next r2 (
      store s2 (at 3) null_vaddr (obj_at visited (at 4 ∷ null_vaddr ∷ []) []) 0 (inl refl) refl
        (inl refl)) in
    next r3 (unlock s3 (at 3) (inl refl))

abbrev painted : Shared
painted = during (heap_with visited null_vaddr visited) [] [] [] (at 4 ∷ at 3 ∷ [])

painted-Steps : Steps black_start painted
unfolding transfer_one visit_one push_refs write
painted-Steps =
    let k : List Vaddr = at 4 ∷ at 3 ∷ [] in
    let s1 : Shared =
      during (heap_with visited null_vaddr in_progress) (at 3 ∷ []) (at 4 ∷ []) [] k in
    let s2 : Shared = during (heap_with visited null_vaddr in_progress) [] (at 4 ∷ []) [] k in
    let s3 : Shared = during (heap_with visited null_vaddr visited) (at 3 ∷ []) [] [] k in
    let r1 : Steps black_start s1 =
      next cleared-Steps
        (take cleared (at 4) (at 3 ∷ []) s1.cs.ms (at 4 ∷ []) refl (λ m. m) refl) in
    let r2 : Steps black_start s2 =
      next r1 (take s1 (at 3) [] s1.cs.ms (at 4 ∷ []) refl (λ m. m) refl) in
    let r3 : Steps black_start s3 =
      next r2 (look s2 (at 4) [] s3.cs.ms (at 3 ∷ []) refl (λ m. m) refl) in
    next r3 (take s3 (at 3) [] s3.cs.ms [] refl (λ m. m) refl)

abbrev two_roots : RootSet
two_roots = record {
  root_set_cap = 2;
  free_head = uint64_max;
  root_set = allocated (at 3) ∷ allocated (at 4) ∷ [];
}

abbrev rooted : Shared
rooted = record painted { cs = record painted.cs { root_set = two_roots } }

painted-rooted-Steps : Steps painted rooted
unfolding cs_root resize pop_free new_entries
painted-rooted-Steps = next here (root painted (at 4) 1 two_roots (inl refl) refl)

ms_filter-Steps_example :
    (n : ℕ) × (s : Store) × (ms_filter obj_reachable rooted.cs.ms ≡ ok (n, s))
    × ((v : Vaddr)
        → Reach rooted.cs.ms (roots two_roots) v
        → (o : Obj) × (find v rooted.cs.ms ≡ some o) × (find v s ≡ some o))
ms_filter-Steps_example =
    ms_filter-Steps black_start painted rooted black_start-IsBlackStart painted-Steps refl refl
      painted-rooted-Steps

pop_of_Steps_example :
    (cleared.cs.in_progress_stack ≡ at 4 ∷ at 3 ∷ []
      → (z : Shared) × Step cleared z × (z.cs.in_progress_stack ≡ at 3 ∷ []))
    × (cleared.cs.visit_stack ≡ at 4 ∷ at 3 ∷ []
        → (z : Shared) × Step cleared z × (z.cs.visit_stack ≡ at 3 ∷ []))
pop_of_Steps_example =
    pop_of_Steps black_start cleared (at 4) (at 3 ∷ []) black_start-IsBlackStart cleared-Steps
      (λ m. m)

-- A start, and a stop that the worker has not seen yet.
abbrev told : Threads
told = record { stat = stopping; pre = 0; post = 0; looping = 1; leaving = 0 }

told-Moves : Moves at_rest told
unfolding start_guard stop_guard
told-Moves =
    let s1 : Threads = record { stat = starting; pre = 1; post = 0; looping = 0; leaving = 0 } in
    let s2 : Threads = record { stat = starting; pre = 0; post = 1; looping = 1; leaving = 0 } in
    let s3 : Threads = record { stat = on; pre = 0; post = 0; looping = 1; leaving = 0 } in
    let r1 : Moves at_rest s1 = then_one none_yet (start at_rest starting refl) in
    let r2 : Moves at_rest s2 = then_one r1 (create s1 0 refl) in
    let r3 : Moves at_rest s3 = then_one r2 (started s2 0 refl) in
    then_one r3 (stop s3 stopping refl)

worker_of_Moves_example :
    (told.looping + told.leaving ≤ 1)
    × ((s : WorkerStatus)
        → start_guard told.stat ≡ (0, s)
        → told.pre + told.post + told.looping + told.leaving ≡ 0)
    × ((s : WorkerStatus) → stop_guard told.stat ≡ (0, s) → (told.looping ≡ 1) × (told.leaving ≡ 0))
    × (told.stat ≡ stopping
        → (u : Threads) × Moves told u × (u.stat ≡ off) × (u.looping + u.leaving ≡ 0))
worker_of_Moves_example = worker_of_Moves told told-Moves

cs_malloc_root_lem_example :
    (id : ℕ) × (cs' : CollectedSpace) × (cs_malloc_root space (at 9) 2 (5 ∷ []) ≡ ok (id, cs'))
    × Rooted one_root (at 9) id cs'.root_set
    × Reach cs'.ms (roots cs'.root_set) (at 9)
    × (find (at 9) cs'.ms ≡ some (new_obj 2 (5 ∷ [])))
    × ((w : Vaddr) → In w (new_obj 2 (5 ∷ [])).rt → null_adb_addr w ≡ true)
    × ((w : Vaddr) → eq_adb_addr (at 9) w ≡ false → find w cs'.ms ≡ find w heap)
    × (IsClosed heap (roots one_root) → IsClosed cs'.ms (roots cs'.root_set))
cs_malloc_root_lem_example =
    cs_malloc_root_lem space (at 9) 2 (5 ∷ []) one_root-IsValid (omega arith) refl
