-- ===== src/Core/Tests.antt =====
-- Runs of the core library.
use chvm.Base.{
  ℕ, ◌≤◌, ◌<◌, ◌≡◌, refl, ◌↔◌, Bool, true, false, some, none, List, [], ◌∷◌, arith, get_or, In,
  ◌==◌, if◌then◌else◌,
}
use chvm.Base.Result.{ok}
use chvm.AddrTable.{Lock, unlocked, reading}
use chvm.Core.Channels.{
  Heap, safe_malloc, try_safe_malloc, safe_free, drop_piece, check_memory_leaks,
}
use chvm.Core.Channels.Count.{
  count, Calls, no_call, malloc_call, free_call, fresh, check_memory_leaks_lem,
}
use chvm.Core.Children.{
  CoreState, init_core_state, new_child_list, cl_add, record_child, cl_remove, shift_left, take,
  OnDeadlock, waits, on_deadlock, ForkRes, safe_fork, WaitRes, interrupted, reaped, index_of,
  forget_child, wait_loop, safe_waitpid, safe_kill_and_reap, killed_on_exit,
}
use chvm.Core.Children.Lists.{IsOnce}
use chvm.Core.Children.Track.{
  ReapsOnly, Run, begin, fork_call, wait_call, kill_call, kill_refused, killed_on_exit_lem,
}
use chvm.Core.Children.Child.{ChildRun, safe_waitpid-child}

-- Two pieces in channel 1, one of which is given back.
abbrev one_left : Heap
one_left = record { mem_chnls = 0 ∷ 1 ∷ []; pieces = (101, 1) ∷ [] }

one_left-Calls : Calls (fresh 2) one_left
unfolding safe_malloc try_safe_malloc safe_free drop_piece
one_left-Calls =
    let h1 : Heap = record { mem_chnls = 0 ∷ 1 ∷ []; pieces = (101, 1) ∷ [] } in
    let h2 : Heap = record { mem_chnls = 0 ∷ 2 ∷ []; pieces = (201, 1) ∷ (101, 1) ∷ [] } in
    let r1 : Calls (fresh 2) h1 = malloc_call (some 100) 1 101 no_call refl in
    let r2 : Calls (fresh 2) h2 = malloc_call (some 200) 1 201 r1 refl in free_call 201 r2 refl

check_memory_leaks_lem_example :
    ((c : ℕ) → c < 2 → get_or one_left.mem_chnls c 0 ≡ count c one_left.pieces)
    × ((check_memory_leaks 1 one_left ≡ true)
        ↔ ((p : ℕ) × (c : ℕ) × In (p, c) one_left.pieces × (1 ≤ c)))
check_memory_leaks_lem_example = check_memory_leaks_lem 2 1 one_left one_left-Calls (omega arith)

-- Two children, the first of which is reaped after an interruption.
abbrev core_of : ℕ → List ℕ → CoreState
core_of cap pids = record {
  root = true;
  core_lock = unlocked;
  children = some (record { cap = cap; buf = pids });
}

-- kill answers 0 for each process but 9, and waitpid with a number reaps that process.
abbrev kills : ℕ → Bool
kills pid = if pid == 9 then false else true

abbrev reaps : ℕ → List WaitRes
reaps pid = reaped pid ∷ []

reaps-ReapsOnly : ReapsOnly reaps
unfolding wait_loop
reaps-ReapsOnly p q e = ground arith

-- Three children: the first is reaped after an interruption, the third is killed, after a kill of the process 9 was
-- refused.
one_child-Run : Run (core_of 4 (8 ∷ [])) (8 ∷ [])
unfolding init_core_state new_child_list safe_fork record_child cl_add safe_waitpid wait_loop
    forget_child index_of cl_remove shift_left take safe_kill_and_reap
one_child-Run =
    let r1 : Run (core_of 1 (7 ∷ [])) (7 ∷ []) =
      fork_call init_core_state (core_of 1 (7 ∷ [])) [] waits 7 begin (λ m. m) (omega arith) refl in
    let r2 : Run (core_of 2 (7 ∷ 8 ∷ [])) (8 ∷ 7 ∷ []) =
      fork_call (core_of 1 (7 ∷ [])) (core_of 2 (7 ∷ 8 ∷ [])) (7 ∷ []) waits 8 r1
        (λ m. ground arith) (omega arith) refl in
    let r3 : Run (core_of 4 (7 ∷ 8 ∷ 5 ∷ [])) (5 ∷ 8 ∷ 7 ∷ []) =
      fork_call (core_of 2 (7 ∷ 8 ∷ [])) (core_of 4 (7 ∷ 8 ∷ 5 ∷ [])) (8 ∷ 7 ∷ []) waits 5 r2
        (λ m. ground arith) (omega arith) refl in
    let r4 : Run (core_of 4 (8 ∷ 5 ∷ [])) (5 ∷ 8 ∷ []) =
      wait_call (core_of 4 (7 ∷ 8 ∷ 5 ∷ [])) (core_of 4 (8 ∷ 5 ∷ [])) (5 ∷ 8 ∷ 7 ∷ []) waits
        (interrupted ∷ reaped 7 ∷ []) 7 r3 refl in
    let r5 : Run (core_of 4 (8 ∷ 5 ∷ [])) (5 ∷ 8 ∷ []) =
      kill_refused (core_of 4 (8 ∷ 5 ∷ [])) (core_of 4 (8 ∷ 5 ∷ [])) (5 ∷ 8 ∷ []) waits kills reaps
        9 r4 reaps-ReapsOnly refl in
    kill_call (core_of 4 (8 ∷ 5 ∷ [])) (core_of 4 (8 ∷ [])) (5 ∷ 8 ∷ []) waits kills reaps 5 r5
      reaps-ReapsOnly refl

killed_on_exit_lem_example :
    ((core_of 4 (8 ∷ [])).core_lock ≡ unlocked)
    × IsOnce (killed_on_exit (core_of 4 (8 ∷ [])))
    × ((pid : ℕ) → In pid (killed_on_exit (core_of 4 (8 ∷ []))) ↔ In pid (8 ∷ []))
killed_on_exit_lem_example = killed_on_exit_lem (core_of 4 (8 ∷ [])) (8 ∷ []) one_child-Run

abbrev child_core : Lock → CoreState
child_core lck = record { root = false; core_lock = lck; children = none }

-- The child that was forked called `safe_waitpid` once.
one_wait-ChildRun : ChildRun (child_core (reading 1)) 1
unfolding safe_fork safe_waitpid
one_wait-ChildRun =
    let r1 : ChildRun (child_core unlocked) 0 =
      ChildRun.forked (core_of 4 (8 ∷ [])) (child_core unlocked) (8 ∷ []) waits true one_child-Run
        refl in
    ChildRun.wait_call (child_core unlocked) (child_core (reading 1)) 0 waits (reaped 7 ∷ []) none
      r1 refl

safe_waitpid-child_example :
    (killed_on_exit (child_core (reading 1)) ≡ [])
    × ((d : OnDeadlock) (answers : List WaitRes)
        → safe_waitpid d answers (child_core (reading 1)) ≡ ok (none, child_core (reading 2)))
    × ((d : OnDeadlock) (kill : ℕ → Bool) (waitpid : ℕ → List WaitRes) (pid : ℕ)
        → (c' : CoreState) × (safe_kill_and_reap d kill waitpid pid (child_core (reading 1))
            ≡ ok (false, c')))
    × ((d : OnDeadlock) (fres : ForkRes) (room : Bool)
        → safe_fork d fres room (child_core (reading 1)) ≡ on_deadlock d)
safe_waitpid-child_example = safe_waitpid-child (child_core (reading 1)) 1 one_wait-ChildRun
