-- ===== src/AddrTable/Move.antt =====
-- gc_src/virt.c: `adt_move_p`, which moves what a cell stands for.
use chvm.Base.{
  ℕ, ◌≡◌, Bool, true, false, Option, some, none, arith, get_or-set, length-set, get_or, set,
  set-set, if◌then◌else◌, ◌==◌,
}
use chvm.Base.Memory.{Memory, Memmove}
use chvm.Base.Result.{Result, ok, ◌>>=◌, ◌>>◌}
use chvm.AddrTable.{
  AddrTable, Cell, unlocked, writing, cell_at, set_cell, free_cell, lock_write, unlock,
  adt_validate_cell_ind, adt_validate_cell, adt_unlock,
}
use chvm.AddrTable.Inv.{IsValid, count_allocated-set}
use chvm.AddrTable.Access.{locked, allocated-lt-cap}

-- `lck` says whether the call takes the lock itself. With `init` the indices of the cell are written
-- in front of the new place: they are the first part of the result.
pub adt_move_p :
    Memmove
    → Bool
    → AddrTable
    → ℕ
    → ℕ
    → ℕ
    → Bool
    → ℕ
    → Memory
    → Result (Option (ℕ × ℕ) × Memory × AddrTable)
adt_move_p memmove lck adt i new_paddr size init table_ind mem = do
  adt_validate_cell_ind adt i
  held ← (if lck then lock_write (cell_at adt i).lck else ok (cell_at adt i).lck)
  adt_validate_cell (cell_at adt i)
  let moved = memmove new_paddr (cell_at adt i).paddr size mem
  lck' ← (if lck then unlock held else ok held)
  ok (
    if init then some (table_ind, i) else none,
    moved,
    set_cell adt i (record (cell_at adt i) { lck = lck'; paddr = new_paddr }),
  )

-- The table when the cell stands for another place.
abbrev pub placed : AddrTable → ℕ → ℕ → AddrTable
placed t i a = set_cell t i (record (cell_at t i) { paddr = a })

module _ (t : AddrTable) (i : ℕ) (v : IsValid t) (live : (cell_at t i).allocated ≡ true) where
  pub cell_at-placed :
      (a j : ℕ)
      → cell_at (placed t i a) j
        ≡ (if i == j then record (cell_at t i) { paddr = a } else cell_at t j)
  cell_at-placed a j =
      get_or-set t.table i j (record (cell_at t i) { paddr = a }) free_cell
        (omega (arith, allocated-lt-cap t i v live, v.cells))

  pub placed-IsValid : (a : ℕ) → IsValid (placed t i a)
  placed-IsValid a = record {
    cap_pos = v.cap_pos;
    cells = omega (arith, length-set t.table i (record (cell_at t i) { paddr = a }), v.cells);
    slots = v.slots;
    fill = ground (
      arith,
      count_allocated-set t.table i (record (cell_at t i) { paddr = a }),
      allocated-lt-cap t i v live,
      v.cells,
      v.fill,
    );
    in_range = v.in_range;
    stack_free = λ j h. ground (arith, cell_at-placed a (get_or t.free_stack j 0), v.stack_free j);
    distinct = v.distinct;
    free_unlocked = λ j f. ground (arith, cell_at-placed a j, v.free_unlocked j);
  }

  -- Under the write lock of the caller, who then gives it back.
  pub adt_move_p-locked :
      (memmove : Memmove) (a size table_ind : ℕ) (init : Bool) (mem : Memory)
      → (cell_at t i).lck ≡ unlocked
      → (t' : AddrTable) × (adt_move_p memmove false
            (locked t i writing)
            i
            a
            size
            init
            table_ind
            mem
          ≡ ok (
            if init then some (table_ind, i) else none,
            memmove a (cell_at t i).paddr size mem,
            t',
          ))
        × (adt_unlock t' i ≡ ok (placed t i a))
  unfolding adt_move_p adt_unlock
  adt_move_p-locked memmove a size table_ind init mem free =
      let inside = allocated-lt-cap t i v live in
      let c : Cell = record (cell_at t i) { lck = writing } in
      let d : Cell = record (cell_at t i) { lck = writing; paddr = a } in
      let at_c : cell_at (locked t i writing) i ≡ c =
        ground (arith, get_or-set t.table i i c free_cell, v.cells) in
      let size_c = length-set t.table i c in
      let at_d : cell_at (set_cell (locked t i writing) i d) i ≡ d =
        ground (arith, get_or-set (set t.table i c) i i d free_cell, v.cells) in
      let back : set (set (set t.table i c) i d) i (record (cell_at t i) { paddr = a })
          ≡ set t.table i (record (cell_at t i) { paddr = a }) =
        rw (set-set t.table i c d) (set-set t.table i d (record (cell_at t i) { paddr = a })) in
      (set_cell (locked t i writing) i d, rw at_c (ground arith), rw at_d (ground arith))
