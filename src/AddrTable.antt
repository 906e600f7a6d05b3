-- ===== src/AddrTable.antt =====
-- gc_src/virt.c, the address table: a fixed array of cells, each a physical address behind a lock,
-- and a stack of the indices that are free. The array of the stack and `stack_fill` are kept apart,
-- as in the C code. The lock of the stack is taken and given back inside each call, so a run of
-- one thread never waits for it; the lock of a cell can outlive a call and is part of the state.
pub mod Inv
pub mod Put
pub mod Free
pub mod Access
pub mod Move
pub mod Foreach
pub mod Release
mod Tests
use chvm.Base.{
  ℕ, zero, suc, ◌+◌, ◌-◌, Bool, true, false, Option, none, some, List, [], ◌∷◌, ltb, ◌==◌,
  if◌then◌else◌, get_or, set, replicate,
}
use chvm.Base.Result.{Result, ok, exited, blocked, fault, ◌>>=◌, ◌>>◌, require}

-- `pthread_rwlock_t`: free, held by so many readers, or by a writer.
pub data Lock : Type 0 where
  unlocked : Lock
  reading : ℕ → Lock
  writing : Lock

-- `addr_table_cell`; NULL is 0.
pub record Cell : Type 0 where
  pub lck : Lock
  pub allocated : Bool
  pub paddr : ℕ

-- `addr_table_header` with the two arrays behind it.
pub record AddrTable : Type 0 where
  pub cap : ℕ
  pub stack_fill : ℕ
  pub free_stack : List ℕ
  pub table : List Cell

-- `addr_table_code`
pub data Code : Type 0 where
  success no_space newly_full newly_free : Code

-- `addr_table_put_res`
pub record PutRes : Type 0 where
  pub code : Code
  pub index : ℕ

abbrev pub null : ℕ
null = 0

abbrev pub free_cell : Cell
free_cell = record { lck = unlocked; allocated = false; paddr = null }

-- `safe_wrlock`, `safe_rdlock` and `safe_rwlock_unlock` by a single thread.
abbrev pub lock_write : Lock → Result Lock
lock_write unlocked = ok writing
lock_write (reading n) = blocked
lock_write writing = blocked

abbrev pub lock_read : Lock → Result Lock
lock_read unlocked = ok (reading 1)
lock_read (reading n) = ok (reading (n + 1))
lock_read writing = blocked

-- To give back a lock that nobody holds is undefined.
abbrev pub unlock : Lock → Result Lock
unlock unlocked = fault
unlock (reading n) = ok (if ltb 1 n then reading (n - 1) else unlocked)
unlock writing = ok unlocked

abbrev pub cell_at : AddrTable → ℕ → Cell
cell_at adt i = get_or adt.table i free_cell

abbrev pub set_cell : AddrTable → ℕ → Cell → AddrTable
set_cell adt i c = record adt { table = set adt.table i c }

-- The loop that fills the stack with 0, 1, …, from `i` on, `n` rounds.
unfoldable pub init_stack : ℕ → ℕ → List ℕ
init_stack zero i = []
init_stack (suc n) i = i ∷ init_stack n (i + 1)

unfoldable pub new_addr_table : ℕ → Result AddrTable
new_addr_table cap =
    if cap == 0
    then exited
    else ok (record {
      cap = cap;
      stack_fill = cap;
      free_stack = init_stack cap 0;
      table = replicate cap free_cell;
    })

unfoldable pub adt_get_fill : AddrTable → ℕ
adt_get_fill adt = adt.cap - adt.stack_fill

unfoldable pub adt_put_p : AddrTable → ℕ → Bool → Result (PutRes × AddrTable)
adt_put_p adt paddr hold =
    if adt.stack_fill == 0 then ok (record { code = no_space; index = 0 }, adt) else do
      let fill = adt.stack_fill - 1
      let free_ind = get_or adt.free_stack fill 0
      let code = if fill == 0 then newly_full else success
      lck ← lock_write (cell_at adt free_ind).lck
      lck' ← (if hold then ok lck else unlock lck)
      ok (
        record { code = code; index = free_ind },
        set_cell (record adt { stack_fill = fill }) free_ind
            (record { lck = lck'; allocated = true; paddr = paddr }),
      )

-- The call waits while a writer holds the cell.
pub adt_allocated : AddrTable → ℕ → Result Bool
adt_allocated adt i =
    if ltb i adt.cap
    then (lock_read (cell_at adt i).lck >>= λ _. ok (cell_at adt i).allocated)
    else ok false

-- `adt_validate_cell_ind`
abbrev pub adt_validate_cell_ind : AddrTable → ℕ → Result (Unit {0})
adt_validate_cell_ind adt i = require (ltb i adt.cap)

-- `adt_validate_cell`
abbrev pub adt_validate_cell : Cell → Result (Unit {0})
adt_validate_cell c = require c.allocated

-- What the tail of the two `adt_get` calls does under the lock that was taken.
abbrev pub get_locked : AddrTable → ℕ → Lock → Result (Option ℕ × AddrTable)
get_locked adt i lck = do
  adt_validate_cell (cell_at adt i)
  ok (some (cell_at adt i).paddr, set_cell adt i (record (cell_at adt i) { lck = lck }))

-- A try of a lock: one that is held gives NULL, which is `none`.
abbrev pub try_lock : AddrTable → ℕ → Result Lock → Result (Option ℕ × AddrTable)
try_lock adt i (ok lck) = get_locked adt i lck
try_lock adt i exited = exited
try_lock adt i blocked = ok (none, adt)
try_lock adt i fault = fault
try_lock adt i Result.out_of_fuel = Result.out_of_fuel

-- `blk` says whether the call may wait for the lock.
pub adt_get_read_p : AddrTable → ℕ → Bool → Result (Option ℕ × AddrTable)
adt_get_read_p adt i blk = do
  adt_validate_cell_ind adt i
  let lck = lock_read (cell_at adt i).lck
  if blk then (lck >>= get_locked adt i) else try_lock adt i lck

pub adt_get_write_p : AddrTable → ℕ → Bool → Result (Option ℕ × AddrTable)
adt_get_write_p adt i blk = do
  adt_validate_cell_ind adt i
  let lck = lock_write (cell_at adt i).lck
  if blk then (lck >>= get_locked adt i) else try_lock adt i lck

pub adt_unlock : AddrTable → ℕ → Result AddrTable
adt_unlock adt i = do
  adt_validate_cell_ind adt i
  lck ← unlock (cell_at adt i).lck
  ok (set_cell adt i (record (cell_at adt i) { lck = lck }))

pub adt_free : AddrTable → ℕ → Result (Code × AddrTable)
adt_free adt i = do
  adt_validate_cell_ind adt i
  lck ← lock_write (cell_at adt i).lck
  adt_validate_cell (cell_at adt i)
  lck' ← unlock lck
  let code = if adt.stack_fill == 0 then newly_free else success
  let freed = set_cell adt i (record { lck = lck'; allocated = false; paddr = null })
  ok (
    code,
    record freed {
      stack_fill = adt.stack_fill + 1;
      free_stack = set adt.free_stack adt.stack_fill i;
    },
  )
