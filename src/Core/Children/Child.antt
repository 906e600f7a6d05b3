-- ===== src/Core/Children/Child.antt =====
-- core_src/sys.c: the calls in a process that `safe_fork` made.
use chvm.Base.{
  ℕ, zero, suc, ◌≡◌, refl, ap, ◌∙◌, Bool, true, false, Option, none, some, List, [], arith, ◌==◌,
  if◌then◌else◌, Bool-cases, inl, inr,
}
use chvm.Base.Result.{ok, ◌>>=◌}
use chvm.AddrTable.{Lock, unlocked, reading}
use chvm.Core.Children.{
  CoreState, OnDeadlock, waits, refuses, on_deadlock, ForkRes, in_child, safe_fork, WaitRes,
  safe_waitpid, safe_kill_and_reap, killed_on_exit,
}
use chvm.Core.Children.Track.{Run, IsTracked, Run-IsTracked, answer_of, safe_kill_and_reap-eq}

-- What a process does that the root forked, in any order, as far as its calls return; the number counts the calls
-- of `safe_waitpid`, those that `safe_kill_and_reap` makes included.
pub data ChildRun : CoreState → ℕ → Type 0 where
  forked :
      (c₀ c : CoreState) (alive : List ℕ) (d : OnDeadlock) (room : Bool)
      → Run c₀ alive
      → safe_fork d in_child room c₀ ≡ ok (some 0, c)
      → ChildRun c 0
  fork_call :
      (c c' : CoreState) (n : ℕ) (d : OnDeadlock) (fres : ForkRes) (room : Bool) (res : Option ℕ)
      → ChildRun c n
      → safe_fork d fres room c ≡ ok (res, c')
      → ChildRun c' n
  wait_call :
      (c c' : CoreState) (n : ℕ) (d : OnDeadlock) (answers : List WaitRes) (res : Option ℕ)
      → ChildRun c n
      → safe_waitpid d answers c ≡ ok (res, c')
      → ChildRun c' (suc n)
  kill_call :
      (c c' : CoreState) (n : ℕ) (d : OnDeadlock) (kill : ℕ → Bool) (waitpid : ℕ → List WaitRes)
      (pid : ℕ) (res : Bool)
      → ChildRun c n
      → kill pid ≡ true
      → safe_kill_and_reap d kill waitpid pid c ≡ ok (res, c')
      → ChildRun c' (suc n)
  kill_refused :
      (c c' : CoreState) (n : ℕ) (d : OnDeadlock) (kill : ℕ → Bool) (waitpid : ℕ → List WaitRes)
      (pid : ℕ) (res : Bool)
      → ChildRun c n
      → kill pid ≡ false
      → safe_kill_and_reap d kill waitpid pid c ≡ ok (res, c')
      → ChildRun c' n

abbrev readers : ℕ → Lock
readers zero = unlocked
readers (suc n) = reading (suc n)

abbrev child_state : ℕ → CoreState
child_state n = record { root = false; core_lock = readers n; children = none }

wait_child :
    (n : ℕ) (d : OnDeadlock) (answers : List WaitRes)
    → safe_waitpid d answers (child_state n) ≡ ok (none, child_state (suc n))
unfolding safe_waitpid
wait_child zero d answers = refl
wait_child (suc n) d answers = ground arith

fork_child :
    (d : OnDeadlock) (fres : ForkRes) (room : Bool)
    → (safe_fork d fres room (child_state 0) ≡ ok (none, child_state 0))
      × ((n : ℕ) → safe_fork d fres room (child_state (suc n)) ≡ on_deadlock d)
unfolding safe_fork
fork_child d fres room = (ground arith, λ n. ground arith)

forked-eq :
    (c c' : CoreState) (alive : List ℕ) (d : OnDeadlock) (room : Bool)
    → IsTracked c alive
    → safe_fork d in_child room c ≡ ok (some 0, c')
    → c' ≡ child_state 0
unfolding safe_fork
forked-eq c c' alive d room i run = ground (arith, i.is_root, i.lock_free)

fork_child-eq :
    (n : ℕ) (c' : CoreState) (d : OnDeadlock) (fres : ForkRes) (room : Bool) (res : Option ℕ)
    → safe_fork d fres room (child_state n) ≡ ok (res, c')
    → c' ≡ child_state n
fork_child-eq zero c' d fres room res run = let (none_yet, _) = fork_child d fres room in cc
fork_child-eq (suc n) c' waits fres room res run =
    let (_, never) = fork_child waits fres room in absurd (cc (never n))
fork_child-eq (suc n) c' refuses fres room res run =
    let (_, never) = fork_child refuses fres room in absurd (cc (never n))

kill_child :
    (n : ℕ) (d : OnDeadlock) (kill : ℕ → Bool) (waitpid : ℕ → List WaitRes) (pid : ℕ)
    → safe_kill_and_reap d kill waitpid pid (child_state n)
      ≡ ok (false, child_state (if kill pid then suc n else n))
kill_child n d kill waitpid pid =
    let (by_wait, by_kill) = safe_kill_and_reap-eq d kill waitpid pid (child_state n) in
    elim (Bool-cases (kill pid)) [
      | inl killed ↦
          rw killed (by_wait killed ∙ ap (λ r. r >>= answer_of) (wait_child n d (waitpid pid)))
      | inr refused ↦ rw refused (by_kill refused)
    ]

ChildRun-eq : (c : CoreState) (n : ℕ) → ChildRun c n → c ≡ child_state n
ChildRun-eq c n (forked c₀ c' alive d room run e) =
    forked-eq c₀ c' alive d room (Run-IsTracked c₀ alive run) e
ChildRun-eq c n (fork_call c₀ c' m d fres room res run e) =
    fork_child-eq m c' d fres room res (rw (ChildRun-eq c₀ m run) at e)
ChildRun-eq c n (wait_call c₀ c' m d answers res run e) =
    let at : safe_waitpid d answers (child_state m) ≡ ok (res, c') =
      rw (ChildRun-eq c₀ m run) at e in
    cc (wait_child m d answers)
ChildRun-eq c n (kill_call c₀ c' m d kill waitpid pid res run killed e) =
    let at : safe_kill_and_reap d kill waitpid pid (child_state m) ≡ ok (res, c') =
      rw (ChildRun-eq c₀ m run) at e in
    let result : safe_kill_and_reap d kill waitpid pid (child_state m)
        ≡ ok (false, child_state (suc m)) =
      rw killed at (kill_child m d kill waitpid pid) in
    cc
ChildRun-eq c n (kill_refused c₀ c' m d kill waitpid pid res run refused e) =
    let at : safe_kill_and_reap d kill waitpid pid (child_state m) ≡ ok (res, c') =
      rw (ChildRun-eq c₀ m run) at e in
    let result : safe_kill_and_reap d kill waitpid pid (child_state m) ≡ ok (false, child_state m) =
      rw refused at (kill_child m d kill waitpid pid) in
    cc

-- In a process that the root forked, whatever calls it made: `safe_exit` kills nothing; `safe_waitpid` answers -1 and
-- leaves the core state locked by one reader more, where nobody gives that lock back, and `safe_kill_and_reap` answers -1.
-- `safe_fork` answers -1 and changes nothing as long as there was no call of `safe_waitpid`, those of
-- `safe_kill_and_reap` included; after one it never returns: it waits for ever, or the process ends if pthread
-- reports the deadlock.
pub safe_waitpid-child :
    (c : CoreState) (n : ℕ)
    → ChildRun c n
    → (killed_on_exit c ≡ [])
      × ((d : OnDeadlock) (answers : List WaitRes)
          → safe_waitpid d answers c ≡ ok (none, record c { core_lock = reading (suc n) }))
      × ((d : OnDeadlock) (kill : ℕ → Bool) (waitpid : ℕ → List WaitRes) (pid : ℕ)
          → (c' : CoreState) × (safe_kill_and_reap d kill waitpid pid c ≡ ok (false, c')))
      × ((d : OnDeadlock) (fres : ForkRes) (room : Bool)
          → safe_fork d fres room c ≡ (if n == 0 then ok (none, c) else on_deadlock d))
unfolding killed_on_exit
safe_waitpid-child c n run =
    let state = ChildRun-eq c n run in
    (
      rw state refl,
      λ d answers. rw state (wait_child n d answers),
      λ d kill waitpid pid.
          (child_state (if kill pid then suc n else n), rw state (kill_child n d kill waitpid pid)),
      λ d fres room. rw state (by_count n d fres room),
    )
  where
    by_count :
        (m : ℕ) (d : OnDeadlock) (fres : ForkRes) (room : Bool)
        → safe_fork d fres room (child_state m)
          ≡ (if m == 0 then ok (none, child_state m) else on_deadlock d)
    by_count zero d fres room = (fork_child d fres room).0
    by_count (suc m) d fres room = ground (arith, (fork_child d fres room).1 m)
