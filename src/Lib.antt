-- ===== src/Lib.antt =====
-- chvm: the memory manager and the garbage collector of a virtual machine.
--
-- The program hands out virtual addresses. An address names a cell of a table, and the cell holds
-- the physical address behind a lock, so that memory can move while its address stays. Above that
-- stand blocks and spaces of memory, and on top the collected space: objects that refer to each
-- other, a set of roots, and a collector that frees what the roots do not reach.
--
-- Base: numbers, lists, options and results that the parts share. A result is a value, the end of
--   the process (`error_logf` with exit), a wait for a lock that the same thread would have to give
--   back (`blocked`), undefined behaviour (`fault`), or the end of the fuel of a loop.
-- AddrTable (gc_src/virt.c, the functions `adt_…`): a table as the record of its header and its two
--   arrays. The free stack is kept as the array and `stack_fill`, as in the code.
-- AddrBook (gc_src/virt.c, the functions `adb_…`): the growing array of tables. The tables with a free
--   cell are a doubly linked list of indices in the array. `adb_put_p` is a loop that turns at most
--   twice for one thread, which is its fuel: the first turn may add a table, the second puts.
-- Collected.RootSet (gc_src/cs.c, `cs_root`, `cs_deroot`, `cs_get_root_vaddr`): the array of roots
--   and the free list in its unused entries.
-- Collected.Objects (gc_src/ms.c under gc_src/cs.c): the allocated objects by address, `ms_foreach`,
--   `ms_filter` and `ms_count`.
-- Collected.Gc (gc_src/cs.c, `cs_collect_garbage`): the white and the black phase and the sweep. The
--   outer loop runs on fuel, `ms_count s + 2` rounds: every round but the last two visits an object
--   that was white.
-- Collected.Mutator (gc_src/cs.c, `cs_get_write`, `cs_malloc_p`, `cs_malloc_root`): the collected space with
--   its users. A step relation interleaves the two inner loops of the black phase, one object at a time,
--   with users that lock, read, write and unlock objects, change the roots and allocate. A user knows an
--   address that it read, that is a root, or that it allocated. The phase starts with nobody holding an
--   object and with every object white, or new and without references.
-- Collected.Worker (gc_src/cs.c, `cs_start_gc`, `cs_stop_gc`, `cs_gc_worker`): the status of the worker
--   thread, with a step for each hold of its lock; the threads at one place of the code are counted.
-- BrokenCollection (util_src/data.c, the functions `bc_…`): the chain of tables behind the stacks of
--   the collector, as the list of its tables; a pointer into it is a position. A walk runs on fuel,
--   one more than the chain has cells.
-- MemBlock (gc_src/mb.c): a run of memory cut into pieces, as the list of its pieces in the order of
--   their addresses; a write of the header and the footer of a piece (`mp_init`) makes its bytes one
--   piece. The list of free pieces is the list of their addresses. `mb_malloc_p` and `mb_free` call the
--   address book.
-- MemBlock.Shift (gc_src/mb.c and mb.h, `mb_try_shift`, `mb_try_full_shift`): the move of an allocated piece
--   into the free one in front of it, through `adb_move_p`. The memory gives the bytes of the bodies by
--   address, and `memmove` is a parameter that does what its manual says. The full shift runs on fuel,
--   one more than the sum of the addresses of the allocated pieces, which each shift makes smaller.
-- MemSpace (gc_src/ms.c, `new_mem_space_seed`, `ms_next_rnd`, `ms_malloc_p`, `ms_free`): the list of blocks over
--   one address book. The pointer to its block in front of each body is an index into the list, by virtual
--   address; the address that malloc gives a new block is an argument. MemSpace.Live describes the addresses
--   that are out, and MemSpace.Calls the runs of `ms_malloc_p` and `ms_free` on a new space.
-- AddrTable.Foreach and AddrBook.Foreach (gc_src/virt.c, `adt_foreach`, `adb_foreach`): the loops over the
--   cells. The consumer is a function on its context.
-- Core.Channels (core_src/mem.c): the counters of the memory channels, with the live pieces. The answers of
--   malloc and realloc are arguments of the calls.
-- Core.Children (core_src/sys.c, the functions `cl_…`, `safe_fork`, `safe_waitpid`, `safe_kill_and_reap` and the
--   loop of `safe_exit`): the list of child processes under the lock of the core state. The answers of fork,
--   kill and waitpid are arguments, and so is what pthread does where a thread asks for a lock that it holds
--   itself: it waits, or it reports an error, on which the process exits. `wait_loop` goes over the list of
--   answers of waitpid, and ends unless all of them are interruptions.
--
-- Numbers are natural numbers; where the code computes modulo 2 ^ 64 and a bound does not rule the
-- overflow out, the remainder is written. The theorems on growth ask for an array below 2 ^ 62 or
-- 2 ^ 63 entries, far above what memory can hold.
--
-- An allocation is given as the data that it is for: its size in bytes, the overflow of the products and sums by
-- which a table, a collection or an object computes that size, and the exit of `safe_malloc` where there is no
-- memory are left out.
--
-- Where no interleaving is written, a run is that of one thread. The locks that a call takes and gives back
-- again are left out; those that outlive a call, on the cells of a table, are part of the state, so the
-- theorems say when a call would wait. Not modelled: printing and deletion, the full shift of
-- every block of a space, the join of the worker thread by its identity, several threads in one address book at once,
-- what users do in the white phase, and the parts of the repository that the memory manager does not use: the
-- unit test framework, the wrappers of pthreads, files and the terminal, the timed wait, and the stubs of the machine.
pub mod AddrBook
pub mod AddrTable
pub mod Base
pub mod BrokenCollection
pub mod Collected
pub mod Core
pub mod MemBlock
pub mod MemSpace
