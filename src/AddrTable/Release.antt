-- ===== src/AddrTable/Release.antt =====
-- gc_src/virt.c: `adt_unlock` by the writer.
use chvm.Base.{ℕ, ◌≡◌, true, arith, get_or-set, length-set, get_or, if◌then◌else◌, ◌==◌}
use chvm.Base.Result.{ok}
use chvm.AddrTable.{AddrTable, unlocked, writing, cell_at, set_cell, free_cell, adt_unlock}
use chvm.AddrTable.Inv.{IsValid, count_allocated-set}
use chvm.AddrTable.Access.{allocated-lt-cap}

abbrev pub freed_lock : AddrTable → ℕ → AddrTable
freed_lock t i = set_cell t i (record (cell_at t i) { lck = unlocked })

module _ (t : AddrTable) (i : ℕ) (v : IsValid t) (live : (cell_at t i).allocated ≡ true) where
  pub cell_at-freed_lock :
      (j : ℕ)
      → cell_at (freed_lock t i) j
        ≡ (if i == j then record (cell_at t i) { lck = unlocked } else cell_at t j)
  cell_at-freed_lock j =
      get_or-set t.table i j (record (cell_at t i) { lck = unlocked }) free_cell
        (omega (arith, allocated-lt-cap t i v live, v.cells))

  pub freed_lock-IsValid : IsValid (freed_lock t i)
  freed_lock-IsValid = record {
    cap_pos = v.cap_pos;
    cells = omega (arith, length-set t.table i (record (cell_at t i) { lck = unlocked }), v.cells);
    slots = v.slots;
    fill = ground (
      arith,
      count_allocated-set t.table i (record (cell_at t i) { lck = unlocked }),
      allocated-lt-cap t i v live,
      v.cells,
      v.fill,
    );
    in_range = v.in_range;
    stack_free =
        λ j h. ground (arith, cell_at-freed_lock (get_or t.free_stack j 0), v.stack_free j);
    distinct = v.distinct;
    free_unlocked = λ j f. ground (arith, cell_at-freed_lock j, v.free_unlocked j);
  }

  pub adt_unlock-writing : (cell_at t i).lck ≡ writing → adt_unlock t i ≡ ok (freed_lock t i)
  unfolding adt_unlock
  adt_unlock-writing held = ground (arith, allocated-lt-cap t i v live)
