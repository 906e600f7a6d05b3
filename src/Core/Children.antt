-- ===== src/Core/Children.antt =====
-- core_src/sys.c: the list of child processes, and the calls that keep it. The answers of fork, kill,
-- waitpid and realloc are arguments, and so is what pthread does where a thread asks for a lock that it
-- holds itself. The lock of the core state is part of the state: a call that returns with the lock held
-- shows in it.
pub mod Lists
pub mod Track
pub mod Child
use chvm.Base.{
  ℕ, zero, suc, ◌+◌, ◌-◌, ◌*◌, ◌%◌, ◌^◌, Bool, true, false, Option, none, some, List, [], ◌∷◌, ◌++◌,
  ltb, ◌==◌, if◌then◌else◌, get_or, set, length,
}
use chvm.Base.Result.{Result, ok, exited, blocked, fault, out_of_fuel, ◌>>=◌}
use chvm.AddrTable.{Lock, unlocked, lock_read, lock_write, unlock}

-- `child_list`; `len` is the length of the list.
pub record ChildList : Type 0 where
  pub cap : ℕ
  pub buf : List ℕ

abbrev pub initial_child_list_cap : ℕ
initial_child_list_cap = 1

unfoldable pub new_child_list : ChildList
new_child_list = record { cap = initial_child_list_cap; buf = [] }

-- `room` says whether realloc gives memory. No answer stands for -1.
unfoldable pub cl_add : Bool → ChildList → ℕ → Option ChildList
cl_add room cl child =
    let grown : ChildList = record { cap = cl.cap * 2 % 2 ^ 64; buf = cl.buf ++ child ∷ [] } in
    let added : ChildList = record cl { buf = cl.buf ++ child ∷ [] } in
    if length cl.buf == cl.cap then (if room then some grown else none) else some added

-- The loop that shifts to the left: `n` rounds from the index `j` on.
unfoldable pub shift_left : ℕ → ℕ → List ℕ → List ℕ
shift_left zero j buf = buf
shift_left (suc n) j buf = shift_left n (j + 1) (set buf j (get_or buf (j + 1) 0))

unfoldable pub take : ℕ → List ℕ → List ℕ
take zero xs = []
take (suc n) [] = []
take (suc n) (x ∷ xs) = x ∷ take n xs

unfoldable pub cl_remove : ChildList → ℕ → ChildList
cl_remove cl i =
    let len = length cl.buf in
    if ltb i len then record cl { buf = take (len - 1) (shift_left (len - 1 - i) i cl.buf) } else cl

-- The core state, as far as processes go.
pub record CoreState : Type 0 where
  pub root : Bool
  pub core_lock : Lock
  pub children : Option ChildList

-- The state of the process that `init_core_state` sets up.
unfoldable pub init_core_state : CoreState
init_core_state = record { root = true; core_lock = unlocked; children = some new_child_list }

-- What fork answers: -1, 0 in the child, the process of the child in the parent.
pub data ForkRes : Type 0 where
  fork_failed in_child : ForkRes
  in_parent : ℕ → ForkRes

-- The list after a fork; a child that cannot be recorded is only logged.
unfoldable pub record_child : Bool → ℕ → Option ChildList → Option ChildList
record_child room pid none = none
record_child room pid (some cl) = elim (cl_add room cl pid) [ none ↦ some cl | some cl' ↦ some cl' ]

-- What pthread does where the thread itself holds the lock: it waits, or it answers with an error.
pub data OnDeadlock : Type 0 where
  waits refuses : OnDeadlock

-- After an error `safe_exit` asks for the lock once more, is refused again, and exits.
abbrev pub on_deadlock {ℓ} : {A : Type ℓ} → OnDeadlock → Result A
on_deadlock waits = blocked
on_deadlock refuses = exited

abbrev pub or_exit {ℓ} : {A : Type ℓ} → OnDeadlock → Result A → Result A
or_exit d exited = exited
or_exit d blocked = on_deadlock d
or_exit d fault = fault
or_exit d out_of_fuel = out_of_fuel
or_exit d (ok r) = ok r

-- `_rdlock_core_state` and `_wrlock_core_state`
abbrev pub rdlock_core_state : OnDeadlock → Lock → Result Lock
rdlock_core_state d lck = or_exit d (lock_read lck)

abbrev pub wrlock_core_state : OnDeadlock → Lock → Result Lock
wrlock_core_state d lck = or_exit d (lock_write lck)

-- `none` stands for -1.
unfoldable pub safe_fork : OnDeadlock → ForkRes → Bool → CoreState → Result (Option ℕ × CoreState)
safe_fork d fres room core = wrlock_core_state d core.core_lock >>= λ held. unlock held >>= λ back.
    let after : CoreState = record core { core_lock = back } in
    if core.root
    then elim fres [
      | fork_failed ↦ ok (none, after)
      | in_child ↦ ok (some 0, record after { root = false; children = none })
      | in_parent pid ↦
          ok (some pid, record after { children = record_child room pid core.children })
    ]
    else ok (none, after)

-- What waitpid answers: an interruption, another error, or a process, or 0 where none has ended.
pub data WaitRes : Type 0 where
  interrupted wait_error : WaitRes
  reaped : ℕ → WaitRes

-- The search of the list; the length where it finds nothing.
unfoldable pub index_of : ℕ → List ℕ → ℕ
index_of pid [] = 0
index_of pid (p ∷ ps) = if p == pid then 0 else suc (index_of pid ps)

unfoldable pub forget_child : ℕ → Option ChildList → Option ChildList
forget_child pid none = none
forget_child pid (some cl) =
    let i = index_of pid cl.buf in if i == length cl.buf then some cl else some (cl_remove cl i)

-- The loop over the answers of waitpid; they may run out only if all of them are interruptions.
unfoldable pub wait_loop : List WaitRes → Result (Option ℕ)
wait_loop [] = out_of_fuel
wait_loop (r ∷ rs) = elim r [
  | interrupted ↦ wait_loop rs
  | wait_error ↦ ok none
  | reaped pid ↦ ok (some pid)
]

-- The answers are those of waitpid for the process and the options of the call. A process that is not the
-- root gets -1 with the read lock still held.
unfoldable pub safe_waitpid : OnDeadlock → List WaitRes → CoreState → Result (Option ℕ × CoreState)
safe_waitpid d answers core = rdlock_core_state d core.core_lock >>= λ held.
    if core.root
    then (unlock held >>= λ back. wait_loop answers >>= λ res. elim res [
      | none ↦ ok (none, record core { core_lock = back })
      | some pid ↦
          if ltb 0 pid
          then (wrlock_core_state d back >>= λ held'. unlock held' >>= λ back'. ok (
            some pid,
            record core { core_lock = back'; children = forget_child pid core.children },
          ))
          else ok (some pid, record core { core_lock = back })
    ])
    else ok (none, record core { core_lock = held })

-- `kill` and `waitpid` answer for each process; `true` stands for 0.
unfoldable pub safe_kill_and_reap :
    OnDeadlock → (ℕ → Bool) → (ℕ → List WaitRes) → ℕ → CoreState → Result (Bool × CoreState)
safe_kill_and_reap d kill waitpid pid core =
    if kill pid
    then (safe_waitpid d (waitpid pid) core >>= λ (res, core'). elim res [
      | none ↦ ok (false, core')
      | some _ ↦ ok (true, core')
    ])
    else ok (false, core)

-- The processes that `safe_exit` kills, in order: those on the list of the root.
pub killed_on_exit : CoreState → List ℕ
killed_on_exit core = if core.root then elim core.children [ none ↦ [] | some cl ↦ cl.buf ] else []
