-- ===== src/AddrBook.antt =====
-- gc_src/virt.c, the address book: a growing array of address tables. The tables that have a free
-- cell are a doubly linked list threaded through the array by indices. The lock of the book is
-- taken and given back around each access, so a run of one thread never waits for it.
pub mod Links
pub mod Inv
pub mod Expand
pub mod Put
pub mod Free
pub mod Access
pub mod Move
pub mod Foreach
pub mod Release
pub mod Tests
use chvm.Base.{
  ℕ, zero, suc, ◌+◌, ◌-◌, ◌*◌, ◌%◌, ◌^◌, Bool, true, false, not, ◌&&◌, Option, none, some, List, [],
  ◌∷◌, ◌++◌, ltb, ◌==◌, if◌then◌else◌, get_or, set, length,
}
use chvm.Base.Result.{Result, ok, exited, blocked, fault, out_of_fuel, ◌>>=◌, ◌>>◌, require}
use chvm.AddrTable.{
  AddrTable, Cell, Code, newly_full, newly_free, no_space, success, PutRes, new_addr_table, cell_at,
  adt_put_p, adt_allocated, adt_get_read_p, adt_get_write_p, adt_unlock, adt_free, adt_get_fill,
}

-- `addr_book_vaddr`
pub record Vaddr : Type 0 where
  pub table_index : ℕ
  pub cell_index : ℕ

abbrev pub uint64_max : ℕ
uint64_max = 2 ^ 64 - 1

-- `NULL_VADDR`
abbrev pub null_vaddr : Vaddr
null_vaddr = record { table_index = uint64_max; cell_index = uint64_max }

-- `ADB_NULL_INDEX`
abbrev pub adb_null_index : ℕ
adb_null_index = uint64_max

abbrev pub eq_adb_addr : Vaddr → Vaddr → Bool
eq_adb_addr v w = (v.table_index == w.table_index) && (v.cell_index == w.cell_index)

abbrev pub null_adb_addr : Vaddr → Bool
null_adb_addr v = eq_adb_addr v null_vaddr

-- `addr_book_entry`
pub record Entry : Type 0 where
  pub in_free_list : Bool
  pub next : ℕ
  pub prev : ℕ
  pub adt : AddrTable

-- `addr_book`. The list holds the `book_len` entries that are in use, and `book_cap` is the room
-- of the array.
pub record AddrBook : Type 0 where
  pub table_cap : ℕ
  pub free_list : ℕ
  pub book_cap : ℕ
  pub book : List Entry

abbrev pub book_len : AddrBook → ℕ
book_len b = length b.book

abbrev pub no_table : AddrTable
no_table = record { cap = 0; stack_fill = 0; free_stack = []; table = [] }

abbrev pub no_entry : Entry
no_entry = record { in_free_list = false; next = 0; prev = 0; adt = no_table }

abbrev pub entry_at : AddrBook → ℕ → Entry
entry_at b i = get_or b.book i no_entry

abbrev pub set_entry : AddrBook → ℕ → Entry → AddrBook
set_entry b i e = record b { book = set b.book i e }

abbrev pub set_next : AddrBook → ℕ → ℕ → AddrBook
set_next b i n = set_entry b i (record (entry_at b i) { next = n })

abbrev pub set_prev : AddrBook → ℕ → ℕ → AddrBook
set_prev b i p = set_entry b i (record (entry_at b i) { prev = p })

abbrev pub set_adt : AddrBook → ℕ → AddrTable → AddrBook
set_adt b i t = set_entry b i (record (entry_at b i) { adt = t })

-- NULL for a capacity of zero.
unfoldable pub new_addr_book : ℕ → Option AddrBook
new_addr_book table_cap =
    if table_cap == 0
    then none
    else some
        (record { table_cap = table_cap; free_list = adb_null_index; book_cap = 1; book = [] })

pub unsafe_adb_push_free_list : AddrBook → ℕ → AddrBook
unsafe_adb_push_free_list b i =
    let linked = if b.free_list == adb_null_index then b else set_prev b b.free_list i in
    record (set_entry linked i (record (entry_at linked i) {
      prev = adb_null_index;
      next = b.free_list;
      in_free_list = true;
    })) { free_list = i }

-- The array doubles when it is full; the new table goes to its end.
pub adb_try_expand : AddrBook → Result AddrBook
adb_try_expand b = if not (b.free_list == adb_null_index) then ok b else do
  let cap = if book_len b == b.book_cap then b.book_cap * 2 % 2 ^ 64 else b.book_cap
  table ← new_addr_table b.table_cap
  let fresh : Entry = record { in_free_list = false; next = 0; prev = 0; adt = table }
  let grown : AddrBook = record b { book_cap = cap; book = b.book ++ fresh ∷ [] }
  ok (unsafe_adb_push_free_list grown (book_len b))

-- The unlinking at the end of `adb_try_removal`: the predecessor, or the head, goes on to the
-- successor, the successor goes back to the predecessor, and the entry is out of the list.
pub bypass_next : AddrBook → Entry → AddrBook
bypass_next b e =
    if e.prev == adb_null_index then record b { free_list = e.next } else set_next b e.prev e.next

pub bypass_prev : AddrBook → Entry → AddrBook
bypass_prev b e = if e.next == adb_null_index then b else set_prev b e.next e.prev

pub unlink : AddrBook → ℕ → AddrBook
unlink b i =
    let e = entry_at b i in
    let bypassed = bypass_prev (bypass_next b e) e in
    set_entry bypassed i (record (entry_at bypassed i) {
      prev = adb_null_index;
      next = adb_null_index;
      in_free_list = false;
    })

pub adb_try_removal : AddrBook → ℕ → AddrBook
adb_try_removal b i =
    if not (entry_at b i).in_free_list
    then b
    else if ltb 0 (entry_at b i).adt.stack_fill
    then b
    else unlink b i

pub adb_try_addition : AddrBook → ℕ → AddrBook
adb_try_addition b i =
    if (entry_at b i).in_free_list
    then b
    else if (entry_at b i).adt.stack_fill == 0
    then b
    else unsafe_adb_push_free_list b i

-- What `adb_put_p` does with the answer of the table; `none` is a turn round the loop.
abbrev pub after_put : AddrBook → ℕ → PutRes → Option Vaddr × AddrBook
after_put b i r = elim r.code [
  | no_space ↦ (none, b)
  | newly_full ↦ (some (record { table_index = i; cell_index = r.index }), adb_try_removal b i)
  | _ ↦ (some (record { table_index = i; cell_index = r.index }), b)
]

-- One turn of the loop of `adb_put_p`.
pub put_round : AddrBook → ℕ → Bool → Result (Option Vaddr × AddrBook)
put_round b paddr hold =
    if b.free_list == adb_null_index
    then (adb_try_expand b >>= λ b'. ok (none, b'))
    else (adt_put_p (entry_at b b.free_list).adt paddr hold >>= λ (r, t).
        ok (after_put (set_adt b b.free_list t) b.free_list r))

-- `adb_put_p`, on fuel: `put_fuel` rounds are enough.
pub put_loop : ℕ → AddrBook → ℕ → Bool → Result (Vaddr × AddrBook)
put_loop zero b paddr hold = out_of_fuel
put_loop (suc fuel) b paddr hold = put_round b paddr hold >>= λ (r, b'). elim r [
  | none ↦ put_loop fuel b' paddr hold
  | some v ↦ ok (v, b')
]

abbrev pub put_fuel : ℕ
put_fuel = 2

pub adb_put_p : AddrBook → ℕ → Bool → Result (Vaddr × AddrBook)
unfolding put_loop
adb_put_p = put_loop put_fuel

pub adb_allocated : AddrBook → Vaddr → Result Bool
adb_allocated b v =
    if ltb v.table_index (book_len b)
    then adt_allocated (entry_at b v.table_index).adt v.cell_index
    else ok false

-- `adb_get_adt`
abbrev pub adb_get_adt : AddrBook → ℕ → Result AddrTable
adb_get_adt b i = if ltb i (book_len b) then ok (entry_at b i).adt else exited

-- `adb_get_read` and `adb_try_get_read`
pub adb_get_read_p : AddrBook → Vaddr → Bool → Result (Option ℕ × AddrBook)
adb_get_read_p b v blk = do
  t ← adb_get_adt b v.table_index
  (p, t') ← adt_get_read_p t v.cell_index blk
  ok (p, set_adt b v.table_index t')

-- `adb_get_write` and `adb_try_get_write`
pub adb_get_write_p : AddrBook → Vaddr → Bool → Result (Option ℕ × AddrBook)
adb_get_write_p b v blk = do
  t ← adb_get_adt b v.table_index
  (p, t') ← adt_get_write_p t v.cell_index blk
  ok (p, set_adt b v.table_index t')

pub adb_unlock : AddrBook → Vaddr → Result AddrBook
adb_unlock b v = do
  t ← adb_get_adt b v.table_index
  t' ← adt_unlock t v.cell_index
  ok (set_adt b v.table_index t')

pub adb_free : AddrBook → Vaddr → Result AddrBook
adb_free b v = do
  t ← adb_get_adt b v.table_index
  (c, t') ← adt_free t v.cell_index
  let b' = set_adt b v.table_index t'
  ok (elim c [ newly_free ↦ adb_try_addition b' v.table_index | _ ↦ b' ])

-- The sum of the fills of the tables.
abbrev pub fill_from : ℕ → List Entry → ℕ
fill_from acc [] = acc
fill_from acc (e ∷ es) = fill_from (acc + adt_get_fill e.adt) es

pub adb_get_fill : AddrBook → ℕ
adb_get_fill b = fill_from 0 b.book
