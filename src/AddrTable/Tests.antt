-- ===== src/AddrTable/Tests.antt =====
-- Runs of the address table of gc_src/virt.c on a table of two cells.
use chvm.Base.{ℕ, ◌+◌, ◌<◌, ◌≡◌, refl, ◌≢◌, true, false, some, none, [], ◌∷◌, arith, replicate}
use chvm.Base.Result.{ok, exited, blocked}
use chvm.AddrTable.{
  AddrTable, unlocked, reading, writing, Code, success, no_space, PutRes, free_cell, cell_at,
  init_stack, new_addr_table, adt_get_fill, adt_put_p, adt_get_read_p, adt_get_write_p, adt_unlock,
  adt_free,
}
use chvm.AddrTable.Inv.{IsValid, fresh-IsValid, new_addr_table-IsValid}
use chvm.AddrTable.Put.{Put, put_result, put_result-IsValid, adt_put_p_lem}
use chvm.AddrTable.Free.{Freed, adt_free_lem}
use chvm.AddrTable.Access.{locked, adt_get_write_p_lem, adt_get_read_p_lem}

abbrev empty_table : AddrTable
empty_table = record {
  cap = 2;
  stack_fill = 2;
  free_stack = 0 ∷ 1 ∷ [];
  table = replicate 2 free_cell;
}

empty_table-IsValid : IsValid empty_table
unfolding init_stack
empty_table-IsValid = fresh-IsValid 2 (omega arith)

-- The table with the address 7 in its cell 1.
abbrev one_cell : AddrTable
one_cell = put_result empty_table 7 false

one_cell-IsValid : IsValid one_cell
one_cell-IsValid = put_result-IsValid empty_table 7 false empty_table-IsValid (omega arith)

put-first : adt_put_p empty_table 7 false ≡ ok (record { code = success; index = 1 }, one_cell)
unfolding adt_put_p
put-first = refl

new_addr_table-IsValid_example :
    (new_addr_table 0 ≡ exited)
    × (0 < 2
        → (t : AddrTable) × (new_addr_table 2 ≡ ok t)
          × IsValid t
          × (t.cap ≡ 2)
          × (adt_get_fill t ≡ 0)
          × ((i : ℕ) → cell_at t i ≡ free_cell))
new_addr_table-IsValid_example = new_addr_table-IsValid 2

adt_put_p_lem_example :
    (r : PutRes) × (t' : AddrTable) × (adt_put_p one_cell 9 true ≡ ok (r, t'))
    × (adt_get_fill one_cell < 2 → Put one_cell 9 true r t')
    × (adt_get_fill one_cell ≡ 2 → (r.code ≡ no_space) × (t' ≡ one_cell))
adt_put_p_lem_example = adt_put_p_lem one_cell 9 true one_cell-IsValid

adt_free_lem_example :
    ((cell_at one_cell 1).allocated ≡ false → adt_free one_cell 1 ≡ exited)
    × ((cell_at one_cell 1).allocated ≡ true
        → (cell_at one_cell 1).lck ≢ unlocked
        → adt_free one_cell 1 ≡ blocked)
    × ((cell_at one_cell 1).allocated ≡ true
        → (cell_at one_cell 1).lck ≡ unlocked
        → (c : Code) × (t' : AddrTable) × (adt_free one_cell 1 ≡ ok (c, t'))
          × Freed one_cell 1 c t')
adt_free_lem_example = adt_free_lem one_cell 1 one_cell-IsValid

adt_get_write_p_lem_example :
    ((cell_at one_cell 1).allocated ≡ false → adt_get_write_p one_cell 1 true ≡ exited)
    × ((cell_at one_cell 1).allocated ≡ true
        → (cell_at one_cell 1).lck ≢ unlocked
        → adt_get_write_p one_cell 1 true ≡ blocked)
    × ((cell_at one_cell 1).allocated ≡ true
        → (cell_at one_cell 1).lck ≡ unlocked
        → (adt_get_write_p one_cell 1 true ≡ ok (some 7, locked one_cell 1 writing))
          × (adt_unlock (locked one_cell 1 writing) 1 ≡ ok one_cell))
adt_get_write_p_lem_example = adt_get_write_p_lem one_cell 1 true one_cell-IsValid

adt_get_read_p_lem_example :
    ((cell_at one_cell 1).allocated ≡ false → adt_get_read_p one_cell 1 false ≡ exited)
    × ((cell_at one_cell 1).allocated ≡ true
        → (cell_at one_cell 1).lck ≡ writing
        → adt_get_read_p one_cell 1 false ≡ ok (none, one_cell))
    × ((cell_at one_cell 1).allocated ≡ true
        → (cell_at one_cell 1).lck ≡ unlocked
        → (adt_get_read_p one_cell 1 false ≡ ok (some 7, locked one_cell 1 (reading 1)))
          × (adt_unlock (locked one_cell 1 (reading 1)) 1 ≡ ok one_cell))
    × ((n : ℕ)
        → (cell_at one_cell 1).allocated ≡ true
        → (cell_at one_cell 1).lck ≡ reading n
        → adt_get_read_p one_cell 1 false ≡ ok (some 7, locked one_cell 1 (reading (n + 1))))
adt_get_read_p_lem_example = adt_get_read_p_lem one_cell 1 false one_cell-IsValid
