-- ===== src/Collected/Objects.antt =====
-- The memory space as the collector sees it (gc_src/ms.c under gc_src/cs.c): the allocated objects
-- with their virtual addresses, in an order that no result depends on. An access to an address that
-- is not allocated ends the process, in `adt_validate_cell`. Whether a user holds an object is said
-- where users run beside the collector; in a run of the collector alone `ms_get_write` does not wait.
pub mod Laws
pub mod Filter
use chvm.Base.{ℕ, suc, ◌+◌, Bool, true, false, Option, none, some, List, [], ◌∷◌, if◌then◌else◌}
use chvm.Base.Result.{Result, ok, exited, ◌>>=◌}
use chvm.AddrBook.{Vaddr, null_vaddr, eq_adb_addr, null_adb_addr}

-- `gc_status_code`
pub data Status : Type 0 where
  newly_added unvisited in_progress visited : Status

-- `obj_pre_header`, `obj_header` and the two arrays behind them; `rt_len` and `da_size` are the
-- lengths of the arrays.
pub record Obj : Type 0 where
  pub gc_status : Status
  pub rt : List Vaddr
  pub da : List ℕ

abbrev pub Store : Type 0
Store = List (Vaddr × Obj)

abbrev pub find : Vaddr → Store → Option Obj
find v [] = none
find v ((w, o) ∷ s) = if eq_adb_addr w v then some o else find v s

-- A write through the pointer that `ms_get_write` gives.
unfoldable pub write : Vaddr → Obj → Store → Store
write v o [] = []
write v o ((w, p) ∷ s) = if eq_adb_addr w v then (w, o) ∷ s else (w, p) ∷ write v o s

-- `ms_get_write`, with `ms_unlock` behind the use of what it gives.
abbrev pub ms_get_write : Store → Vaddr → Result Obj
ms_get_write s v = elim (find v s) [ none ↦ exited | some o ↦ ok o ]

-- The object is taken out of the space.
pub remove : Vaddr → Store → Store
remove v [] = []
remove v ((w, o) ∷ s) = if eq_adb_addr w v then s else (w, o) ∷ remove v s

-- `ms_free`
abbrev pub ms_free : Store → Vaddr → Result Store
ms_free s v = elim (find v s) [ none ↦ exited | some o ↦ ok (remove v s) ]

-- `ms_foreach` with a consumer that rewrites the object.
pub ms_foreach : (Obj → Obj) → Store → Store
ms_foreach f [] = []
ms_foreach f ((v, o) ∷ s) = (v, f o) ∷ ms_foreach f s

-- The first pass of `ms_filter`: the addresses whose object fails the test, pushed on a stack whose
-- top is the head of the list.
pub remove_stack : (Obj → Bool) → Store → List Vaddr → List Vaddr
remove_stack pred [] st = st
remove_stack pred ((v, o) ∷ s) st = remove_stack pred s (if pred o then st else v ∷ st)

-- The second pass: the stack is popped and each address freed.
pub free_all : List Vaddr → Store → ℕ → Result (ℕ × Store)
free_all [] s filtered = ok (filtered, s)
free_all (v ∷ st) s filtered = ms_free s v >>= λ s'. free_all st s' (filtered + 1)

-- `ms_filter`
pub ms_filter : (Obj → Bool) → Store → Result (ℕ × Store)
ms_filter pred s = free_all (remove_stack pred s []) s 0

-- `ms_count`
pub ms_count : Store → ℕ
ms_count [] = 0
ms_count (_ ∷ s) = suc (ms_count s)
