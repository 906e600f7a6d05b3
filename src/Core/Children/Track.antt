-- ===== src/Core/Children/Track.antt =====
-- core_src/sys.c: the list of children holds the processes that were forked and not reaped.
use chvm.Base.{
  ℕ, ◌*◌, ◌%◌, ◌^◌, ◌<◌, ◌≡◌, refl, sym, ◌∙◌, ◌↔◌, ◌⊎◌, inl, inr, Bool, true, false, Option, none,
  some, List, [], ◌∷◌, ◌++◌, arith, ltb, ◌==◌, length, In, Bool-cases,
}
use mathlib.Core.Path.{subst}
use chvm.Base.Result.{Result, ok, exited, blocked, fault, out_of_fuel, ◌>>=◌}
use chvm.AddrTable.{unlocked}
use chvm.Core.Children.{
  ChildList, new_child_list, cl_add, CoreState, init_core_state, fork_failed, in_parent,
  record_child, OnDeadlock, safe_fork, WaitRes, interrupted, wait_error, reaped, forget_child,
  wait_loop, safe_waitpid, safe_kill_and_reap, killed_on_exit,
}
use chvm.Core.Children.Lists.{
  without, IsOnce, forget_child_lem, In-without, without-IsOnce, In-end, end-IsOnce,
}

-- waitpid with the number of a process, without options: what it reaps in the end is that process.
abbrev pub ReapsOnly : (ℕ → List WaitRes) → Type 0
ReapsOnly waitpid = (p q : ℕ) → wait_loop (waitpid p) ≡ ok (some q) → q ≡ p

-- Calls of the root in any order, those that fail included, with the processes that are alive: those that fork answered
-- with and that waitpid did not reap. A process has an identity that no other one alive has, and every child could be
-- recorded.
pub data Run : CoreState → List ℕ → Type 0 where
  begin : Run init_core_state []
  fork_call :
      (c c' : CoreState) (alive : List ℕ) (d : OnDeadlock) (pid : ℕ)
      → Run c alive
      → ¬ In pid alive
      → 0 < pid
      → safe_fork d (in_parent pid) true c ≡ ok (some pid, c')
      → Run c' (pid ∷ alive)
  fork_refused :
      (c c' : CoreState) (alive : List ℕ) (d : OnDeadlock)
      → Run c alive
      → safe_fork d fork_failed true c ≡ ok (none, c')
      → Run c' alive
  wait_call :
      (c c' : CoreState) (alive : List ℕ) (d : OnDeadlock) (answers : List WaitRes) (pid : ℕ)
      → Run c alive
      → safe_waitpid d answers c ≡ ok (some pid, c')
      → Run c' (without pid alive)
  wait_refused :
      (c c' : CoreState) (alive : List ℕ) (d : OnDeadlock) (answers : List WaitRes)
      → Run c alive
      → safe_waitpid d answers c ≡ ok (none, c')
      → Run c' alive
  kill_call :
      (c c' : CoreState) (alive : List ℕ) (d : OnDeadlock) (kill : ℕ → Bool)
      (waitpid : ℕ → List WaitRes) (pid : ℕ)
      → Run c alive
      → ReapsOnly waitpid
      → safe_kill_and_reap d kill waitpid pid c ≡ ok (true, c')
      → Run c' (without pid alive)
  kill_refused :
      (c c' : CoreState) (alive : List ℕ) (d : OnDeadlock) (kill : ℕ → Bool)
      (waitpid : ℕ → List WaitRes) (pid : ℕ)
      → Run c alive
      → ReapsOnly waitpid
      → safe_kill_and_reap d kill waitpid pid c ≡ ok (false, c')
      → Run c' alive

-- The root, between calls, with the processes alive on its list, each once.
pub record IsTracked (c : CoreState) (alive : List ℕ) : Type 0 where
  pub is_root : c.root ≡ true
  pub lock_free : c.core_lock ≡ unlocked
  pub list : ChildList
  pub has_list : c.children ≡ some list
  pub once : IsOnce list.buf
  pub alive_once : IsOnce alive
  pub positive : (p : ℕ) → In p alive → 0 < p
  pub same : (p : ℕ) → In p list.buf ↔ In p alive

record_child_lem :
    (cl : ChildList) (pid : ℕ)
    → (cl' : ChildList) × (record_child true pid (some cl) ≡ some cl')
      × (cl'.buf ≡ cl.buf ++ pid ∷ [])
unfolding record_child cl_add
record_child_lem cl pid = elim (Bool-cases (length cl.buf == cl.cap)) [
  | inl full ↦ (record { cap = cl.cap * 2 % 2 ^ 64; buf = cl.buf ++ pid ∷ [] }, ground arith, refl)
  | inr room ↦ (record cl { buf = cl.buf ++ pid ∷ [] }, ground arith, refl)
]

abbrev tracked : Option ChildList → CoreState
tracked list = record { root = true; core_lock = unlocked; children = list }

wait_loop_cases :
    (answers : List WaitRes)
    → (wait_loop answers ≡ out_of_fuel) ⊎ ((res : Option ℕ) × (wait_loop answers ≡ ok res))
unfolding wait_loop
wait_loop_cases [] = inl refl
wait_loop_cases (interrupted ∷ rs) = wait_loop_cases rs
wait_loop_cases (wait_error ∷ rs) = inr (none, refl)
wait_loop_cases (reaped pid ∷ rs) = inr (some pid, refl)

-- What follows the wait of `safe_kill_and_reap`.
abbrev pub answer_of : Option ℕ × CoreState → Result (Bool × CoreState)
answer_of (none, c) = ok (false, c)
answer_of (some pid, c) = ok (true, c)

-- If it returned, the wait did.
answer_of-inv :
    (r : Result (Option ℕ × CoreState)) (b : Bool) (c' : CoreState)
    → (r >>= answer_of) ≡ ok (b, c')
    → (b ≡ true) × ((pid : ℕ) × (r ≡ ok (some pid, c'))) ⊎ (b ≡ false) × (r ≡ ok (none, c'))
answer_of-inv exited b c' e = cc
answer_of-inv blocked b c' e = cc
answer_of-inv fault b c' e = cc
answer_of-inv out_of_fuel b c' e = cc
answer_of-inv (ok (none, c)) b c' e = inr (cc, cc)
answer_of-inv (ok (some pid, c)) b c' e = inl (cc, (pid, cc))

pub safe_kill_and_reap-eq :
    (d : OnDeadlock) (kill : ℕ → Bool) (waitpid : ℕ → List WaitRes) (pid : ℕ) (c : CoreState)
    → (kill pid ≡ true
        → safe_kill_and_reap d kill waitpid pid c ≡ (safe_waitpid d (waitpid pid) c >>= answer_of))
      × (kill pid ≡ false → safe_kill_and_reap d kill waitpid pid c ≡ ok (false, c))
unfolding safe_kill_and_reap
safe_kill_and_reap-eq d kill waitpid pid c =
    (λ k. rw k (by_result (safe_waitpid d (waitpid pid) c)), λ k. rw k refl)
  where
    by_result :
        (r : Result (Option ℕ × CoreState))
        → (r >>= λ (res, core'). elim res [ none ↦ ok (false, core') | some _ ↦ ok (true, core') ])
          ≡ (r >>= answer_of)
    by_result exited = refl
    by_result blocked = refl
    by_result fault = refl
    by_result out_of_fuel = refl
    by_result (ok (none, c)) = refl
    by_result (ok (some pid, c)) = refl

module _ (c : CoreState) (alive : List ℕ) (i : IsTracked c alive) where
  fork-IsTracked :
      (c' : CoreState) (d : OnDeadlock) (pid : ℕ)
      → ¬ In pid alive
      → 0 < pid
      → safe_fork d (in_parent pid) true c ≡ ok (some pid, c')
      → IsTracked c' (pid ∷ alive)
  unfolding safe_fork
  fork-IsTracked c' d pid off pos run =
      let (cl', rec, buf) = record_child_lem i.list pid in
      let same : tracked (some cl') ≡ c' = ground (arith, i.is_root, i.lock_free, i.has_list) in
      subst (λ x. IsTracked x (pid ∷ alive)) same
        (record {
          is_root = refl;
          lock_free = refl;
          list = cl';
          has_list = refl;
          once = rw buf (end-IsOnce pid i.list.buf (λ m. off ((i.same pid).0 m)) i.once);
          alive_once = (off, i.alive_once);
          positive = λ p m. ground (arith, i.positive p);
          same = λ p. rw buf (ground (arith, In-end p pid i.list.buf, i.same p));
        })

  abbrev WaitDone : Option ℕ → CoreState → Type 0
  WaitDone none c' = IsTracked c' alive
  WaitDone (some pid) c' = IsTracked c' (without pid alive)

  tracked-same : tracked (some i.list) ≡ c
  tracked-same = ground (arith, i.is_root, i.lock_free, i.has_list)

  reaped-IsTracked :
      (pid : ℕ) → IsTracked (tracked (forget_child pid (some i.list))) (without pid alive)
  reaped-IsTracked pid = record {
    is_root = refl;
    lock_free = refl;
    list = record i.list { buf = without pid i.list.buf };
    has_list = forget_child_lem pid i.list;
    once = without-IsOnce pid i.list.buf i.once;
    alive_once = without-IsOnce pid alive i.alive_once;
    positive = λ p m. i.positive p ((In-without pid p alive i.alive_once).0 m).1;
    same = λ p.
        ground (
          arith,
          In-without pid p alive i.alive_once,
          In-without pid p i.list.buf i.once,
          i.same p,
        );
  }

  -- No child has the number 0.
  zero-IsTracked : IsTracked (tracked (some i.list)) (without 0 alive)
  zero-IsTracked = record {
    is_root = refl;
    lock_free = refl;
    list = i.list;
    has_list = refl;
    once = i.once;
    alive_once = without-IsOnce 0 alive i.alive_once;
    positive = λ p m. i.positive p ((In-without 0 p alive i.alive_once).0 m).1;
    same = λ p. ground (arith, In-without 0 p alive i.alive_once, i.same p, i.positive p);
  }

  -- A call of `safe_waitpid` that returned, by what waitpid answered in the end.
  wait-IsTracked :
      (c' : CoreState) (d : OnDeadlock) (answers : List WaitRes) (res : Option ℕ)
      → safe_waitpid d answers c ≡ ok (res, c')
      → (wait_loop answers ≡ ok res) × WaitDone res c'
  unfolding safe_waitpid
  wait-IsTracked c' d answers res run = elim (wait_loop_cases answers) [
    | inl endless ↦ absurd (ground (arith, i.is_root, i.lock_free))
    | inr (none, done) ↦
        let same : tracked (some i.list) ≡ c' =
          ground (arith, i.is_root, i.lock_free, i.has_list) in
        let what : none ≡ res = ground (arith, i.is_root, i.lock_free) in
        subst (λ r. (wait_loop answers ≡ ok r) × WaitDone r c') what
          (done, subst (λ x. IsTracked x alive) (sym tracked-same ∙ same) i)
    | inr (some pid, done) ↦
        let what : some pid ≡ res = ground (arith, i.is_root, i.lock_free) in
        subst (λ r. (wait_loop answers ≡ ok r) × WaitDone r c') what
          (
            done,
            elim (Bool-cases (ltb 0 pid)) [
              | inl child ↦
                  let same : tracked (forget_child pid (some i.list)) ≡ c' =
                    ground (arith, i.is_root, i.lock_free, i.has_list) in
                  subst (λ x. IsTracked x (without pid alive)) same (reaped-IsTracked pid)
              | inr nobody ↦
                  let same : tracked (some i.list) ≡ c' =
                    ground (arith, i.is_root, i.lock_free, i.has_list) in
                  let z : 0 ≡ pid = ground arith in
                  subst (λ n. IsTracked c' (without n alive)) z
                    (subst (λ x. IsTracked x (without 0 alive)) same zero-IsTracked)
            ],
          )
  ]

  fork_refused-IsTracked :
      (c' : CoreState) (d : OnDeadlock)
      → safe_fork d fork_failed true c ≡ ok (none, c')
      → IsTracked c' alive
  unfolding safe_fork
  fork_refused-IsTracked c' d run =
      let same : tracked (some i.list) ≡ c' = ground (arith, i.is_root, i.lock_free, i.has_list) in
      subst (λ x. IsTracked x alive) (sym tracked-same ∙ same) i

  -- A call of `safe_kill_and_reap` that returned, by what it answered.
  abbrev KillDone : Bool → ℕ → CoreState → Type 0
  KillDone true pid c' = IsTracked c' (without pid alive)
  KillDone false pid c' = IsTracked c' alive

  kill-IsTracked :
      (c' : CoreState) (d : OnDeadlock) (kill : ℕ → Bool) (waitpid : ℕ → List WaitRes) (pid : ℕ)
      (answer : Bool)
      → ReapsOnly waitpid
      → safe_kill_and_reap d kill waitpid pid c ≡ ok (answer, c')
      → KillDone answer pid c'
  kill-IsTracked c' d kill waitpid pid answer only run =
      let (by_wait, by_kill) = safe_kill_and_reap-eq d kill waitpid pid c in
      elim (Bool-cases (kill pid)) [
        | inl killed ↦
            elim (answer_of-inv (safe_waitpid d (waitpid pid) c) answer c'
              (sym (by_wait killed) ∙ run)) [
                | inl (yes_reaped, (q, e)) ↦
                    let (done, now) = wait-IsTracked c' d (waitpid pid) (some q) e in
                    rw yes_reaped
                      (subst (λ n. IsTracked c' (without n alive)) (only pid q done) now)
                | inr (not_reaped, e) ↦ rw not_reaped (wait-IsTracked c' d (waitpid pid) none e).1
              ]
        | inr refused ↦
            let result : ◌≡◌ {A = Result (Bool × CoreState)} (ok (false, c)) (ok (answer, c')) =
              sym (by_kill refused) ∙ run in
            let no_reap : answer ≡ false = cc in
            let same : c ≡ c' = cc in rw no_reap (subst (λ x. IsTracked x alive) same i)
      ]

pub Run-IsTracked : (c : CoreState) (alive : List ℕ) → Run c alive → IsTracked c alive
unfolding init_core_state new_child_list
Run-IsTracked c alive begin = record {
  is_root = refl;
  lock_free = refl;
  list = new_child_list;
  has_list = refl;
  once = tt;
  alive_once = tt;
  positive = λ p m. absurd m;
  same = λ p. (λ m. m, λ m. m);
}
Run-IsTracked c alive (fork_call c₀ c' alive₀ d pid run off pos e) =
    fork-IsTracked c₀ alive₀ (Run-IsTracked c₀ alive₀ run) c' d pid off pos e
Run-IsTracked c alive (fork_refused c₀ c' alive₀ d run e) =
    fork_refused-IsTracked c₀ alive₀ (Run-IsTracked c₀ alive₀ run) c' d e
Run-IsTracked c alive (wait_call c₀ c' alive₀ d answers pid run e) =
    (wait-IsTracked c₀ alive₀ (Run-IsTracked c₀ alive₀ run) c' d answers (some pid) e).1
Run-IsTracked c alive (wait_refused c₀ c' alive₀ d answers run e) =
    (wait-IsTracked c₀ alive₀ (Run-IsTracked c₀ alive₀ run) c' d answers none e).1
Run-IsTracked c alive (kill_call c₀ c' alive₀ d kill waitpid pid run only e) =
    kill-IsTracked c₀ alive₀ (Run-IsTracked c₀ alive₀ run) c' d kill waitpid pid true only e
Run-IsTracked c alive (kill_refused c₀ c' alive₀ d kill waitpid pid run only e) =
    kill-IsTracked c₀ alive₀ (Run-IsTracked c₀ alive₀ run) c' d kill waitpid pid false only e

-- Whatever the root calls of `safe_fork`, `safe_waitpid` and `safe_kill_and_reap`, in any order from the start, calls that fail
-- included, as long as every child can be recorded and waitpid with the number of a process reaps no other: the
-- lock of the core state is free, and `safe_exit` kills exactly the processes that were forked and not
-- reaped, each once.
pub killed_on_exit_lem :
    (core : CoreState) (alive : List ℕ)
    → Run core alive
    → (core.core_lock ≡ unlocked)
      × IsOnce (killed_on_exit core)
      × ((pid : ℕ) → In pid (killed_on_exit core) ↔ In pid alive)
unfolding killed_on_exit
killed_on_exit_lem core alive run =
    let i = Run-IsTracked core alive run in
    let list : killed_on_exit core ≡ i.list.buf = rw (i.is_root, i.has_list) refl in
    (
      i.lock_free,
      subst IsOnce (sym list) i.once,
      λ pid. subst (λ (x : List ℕ). In pid x ↔ In pid alive) (sym list) (i.same pid),
    )
