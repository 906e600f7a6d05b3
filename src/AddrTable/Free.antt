-- ===== src/AddrTable/Free.antt =====
-- gc_src/virt.c: `adt_free`, on all its branches.
use chvm.Base.{
  ℕ, zero, suc, ◌+◌, ◌<◌, ◌≡◌, refl, ◌≢◌, true, false, List, arith, ◌==◌, if◌then◌else◌, length,
  get_or, set, length-set, get_or-set, ◌∷◌, [],
}
use chvm.Base.Result.{ok, exited, blocked}
use chvm.AddrTable.{
  AddrTable, Cell, unlocked, cell_at, free_cell, Code, success, newly_free, adt_free, adt_get_fill,
}
use chvm.AddrTable.Inv.{IsValid, count_allocated, count_allocated-set}

-- The count of allocated cells is at least one where one is.
count_allocated-pos :
    (cs : List Cell) (i : ℕ)
    → (get_or cs i free_cell).allocated ≡ true
    → (0 < count_allocated cs) × (i < length cs)
count_allocated-pos [] i h = cc
count_allocated-pos (c ∷ cs) zero h = ground arith
count_allocated-pos (c ∷ cs) (suc i) h = ground (arith, count_allocated-pos cs i)

abbrev pub free_result : AddrTable → ℕ → AddrTable
free_result t i = record t {
  stack_fill = t.stack_fill + 1;
  free_stack = set t.free_stack t.stack_fill i;
  table = set t.table i free_cell;
}

module _ (t : AddrTable) (i : ℕ) (v : IsValid t) (a : (cell_at t i).allocated ≡ true) where
  cell_at-free : (j : ℕ) → cell_at (free_result t i) j ≡ (if i == j then free_cell else cell_at t j)
  cell_at-free j = get_or-set t.table i j free_cell free_cell (count_allocated-pos t.table i a).1

  stack-free :
      (j : ℕ)
      → get_or (free_result t i).free_stack j 0
        ≡ (if t.stack_fill == j then i else get_or t.free_stack j 0)
  stack-free j =
      get_or-set t.free_stack t.stack_fill j i 0
        (omega (arith, v.fill, v.slots, (count_allocated-pos t.table i a).0))

  free_result-IsValid : IsValid (free_result t i)
  free_result-IsValid = record {
    cap_pos = v.cap_pos;
    cells = rw length-set v.cells;
    slots = rw length-set v.slots;
    fill =
        ground
          (arith, count_allocated-set t.table i free_cell, count_allocated-pos t.table i a, v.fill);
    in_range = λ j lt.
        ground (arith, stack-free j, v.in_range j, count_allocated-pos t.table i a, v.cells);
    stack_free = λ j lt. ground (
      arith,
      cell_at-free (get_or (free_result t i).free_stack j 0),
      stack-free j,
      v.stack_free j,
    );
    distinct = λ j k p q e.
        ground (arith, stack-free j, stack-free k, v.distinct j k, v.stack_free j, v.stack_free k);
    free_unlocked = λ j e. ground (arith, cell_at-free j, v.free_unlocked j);
  }

-- What `adt_free` does to an allocated cell that nobody holds: the cell is free and NULL, every
-- other cell is as it was, and `newly_free` is reported exactly when the table had been full.
pub record Freed (t : AddrTable) (i : ℕ) (c : Code) (t' : AddrTable) : Type 0 where
  pub valid : IsValid t'
  pub same_cap : t'.cap ≡ t.cap
  pub emptied : cell_at t' i ≡ free_cell
  pub others : (j : ℕ) → j ≢ i → cell_at t' j ≡ cell_at t j
  pub one_less : adt_get_fill t' + 1 ≡ adt_get_fill t
  pub free_code : c ≡ (if adt_get_fill t == t.cap then newly_free else success)

-- On a valid table `adt_free` of an allocated cell returns as `Freed` says if nobody holds the
-- cell, and blocks if somebody does; of any other index it ends the process.
pub adt_free_lem :
    (t : AddrTable) (i : ℕ)
    → IsValid t
    → ((cell_at t i).allocated ≡ false → adt_free t i ≡ exited)
      × ((cell_at t i).allocated ≡ true → (cell_at t i).lck ≢ unlocked → adt_free t i ≡ blocked)
      × ((cell_at t i).allocated ≡ true
          → (cell_at t i).lck ≡ unlocked
          → (c : Code) × (t' : AddrTable) × (adt_free t i ≡ ok (c, t')) × Freed t i c t')
unfolding adt_free adt_get_fill
adt_free_lem t i v = (
  λ f. ground (arith, v.free_unlocked i),
  λ a l. ground (arith, count_allocated-pos t.table i a, v.cells),
  λ a l. (
    if t.stack_fill == 0 then newly_free else success,
    free_result t i,
    ground (arith, count_allocated-pos t.table i a, v.cells),
    record {
      valid = free_result-IsValid t i v a;
      same_cap = refl;
      emptied = ground (arith, cell_at-free t i v a i);
      others = λ j ne. ground (arith, cell_at-free t i v a j);
      one_less = omega (arith, v.fill, (count_allocated-pos t.table i a).0);
      free_code = ground (arith, v.fill);
    },
  ),
)
