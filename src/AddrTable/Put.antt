-- ===== src/AddrTable/Put.antt =====
-- gc_src/virt.c: `adt_put_p`, on all its branches.
use chvm.Base.{
  ℕ, ◌+◌, ◌-◌, ◌<◌, ◌≡◌, refl, ◌≢◌, Bool, true, false, inl, inr, arith, ◌==◌, if◌then◌else◌, get_or,
  length-set, get_or-set, Bool-cases,
}
use chvm.Base.Result.{ok}
use chvm.AddrTable.{
  AddrTable, Cell, Lock, unlocked, writing, cell_at, set_cell, free_cell, PutRes, success, no_space,
  newly_full, adt_put_p, adt_get_fill,
}
use chvm.AddrTable.Inv.{IsValid, count_allocated-set}

-- The lock that `adt_put_p` leaves on the cell that it fills.
abbrev pub held : Bool → Lock
held hold = if hold then writing else unlocked

-- The index on top of the free stack, which a call of `adt_put_p` takes.
abbrev pub top : AddrTable → ℕ
top t = get_or t.free_stack (t.stack_fill - 1) 0

abbrev pub put_result : AddrTable → ℕ → Bool → AddrTable
put_result t p hold =
    set_cell (record t { stack_fill = t.stack_fill - 1 }) (top t)
      (record { lck = held hold; allocated = true; paddr = p })

-- With a free cell the call takes the one on top of the stack.
pub adt_put_p-run :
    (t : AddrTable) (p : ℕ) (hold : Bool)
    → IsValid t
    → 0 < t.stack_fill
    → adt_put_p t p hold
      ≡ ok (
        record { code = if t.stack_fill - 1 == 0 then newly_full else success; index = top t },
        put_result t p hold,
      )
unfolding adt_put_p
adt_put_p-run t p hold v h =
    let free = v.free_unlocked (top t) (v.stack_free (t.stack_fill - 1) (omega arith)) in
    ground arith

cell_at-put :
    (t : AddrTable) (p : ℕ) (hold : Bool) (j : ℕ)
    → IsValid t
    → 0 < t.stack_fill
    → cell_at (put_result t p hold) j ≡ (
        if top t == j then record { lck = held hold; allocated = true; paddr = p } else cell_at t j)
cell_at-put t p hold j v h =
    get_or-set t.table (top t) j (record { lck = held hold; allocated = true; paddr = p }) free_cell
      (omega (arith, v.in_range (t.stack_fill - 1), v.cells))

pub put_result-IsValid :
    (t : AddrTable) (p : ℕ) (hold : Bool)
    → IsValid t
    → 0 < t.stack_fill
    → IsValid (put_result t p hold)
put_result-IsValid t p hold v h = record {
  cap_pos = v.cap_pos;
  cells = rw length-set v.cells;
  slots = v.slots;
  fill = ground (
    arith,
    count_allocated-set t.table (top t) cell (omega (arith, v.in_range (t.stack_fill - 1))),
    v.stack_free (t.stack_fill - 1),
    v.fill,
  );
  in_range = λ j lt. v.in_range j (omega arith);
  stack_free = λ j lt. ground (
    arith,
    cell_at-put t p hold (get_or t.free_stack j 0) v h,
    v.stack_free j (omega arith),
    v.distinct (t.stack_fill - 1) j (omega arith) (omega arith),
  );
  distinct = λ j k a b e. v.distinct j k (omega arith) (omega arith) e;
  free_unlocked = λ i e. ground (arith, cell_at-put t p hold i v h, v.free_unlocked i);
}
  where
    cell : Cell
    cell = record { lck = held hold; allocated = true; paddr = p }

-- What a successful `adt_put_p` did: it filled one cell that was free, holds its lock if asked to,
-- and changed no other cell; `newly_full` is reported exactly when no free cell is left.
pub record Put (t : AddrTable) (p : ℕ) (hold : Bool) (r : PutRes) (t' : AddrTable) : Type 0 where
  pub valid : IsValid t'
  pub same_cap : t'.cap ≡ t.cap
  pub index_in : r.index < t.cap
  pub was_free : (cell_at t r.index).allocated ≡ false
  pub filled : cell_at t' r.index ≡ record { lck = held hold; allocated = true; paddr = p }
  pub others : (j : ℕ) → j ≢ r.index → cell_at t' j ≡ cell_at t j
  pub one_more : adt_get_fill t' ≡ adt_get_fill t + 1
  pub full_code : r.code ≡ (if adt_get_fill t' == t.cap then newly_full else success)

put_result-Put :
    (t : AddrTable) (p : ℕ) (hold : Bool)
    → IsValid t
    → 0 < t.stack_fill
    → Put t p hold
        (record { code = if t.stack_fill - 1 == 0 then newly_full else success; index = top t })
        (put_result t p hold)
unfolding adt_get_fill
put_result-Put t p hold v h = record {
  valid = put_result-IsValid t p hold v h;
  same_cap = refl;
  index_in = v.in_range (t.stack_fill - 1) (omega arith);
  was_free = v.stack_free (t.stack_fill - 1) (omega arith);
  filled = ground (arith, cell_at-put t p hold (top t) v h);
  others = λ j ne. ground (arith, cell_at-put t p hold j v h);
  one_more = omega (arith, v.fill);
  full_code = ground (arith, v.fill);
}

-- On a valid table `adt_put_p` returns. With a free cell it is as `Put` says; on a full table it
-- reports that there is no space and changes nothing.
pub adt_put_p_lem :
    (t : AddrTable) (p : ℕ) (hold : Bool)
    → IsValid t
    → (r : PutRes) × (t' : AddrTable) × (adt_put_p t p hold ≡ ok (r, t'))
      × (adt_get_fill t < t.cap → Put t p hold r t')
      × (adt_get_fill t ≡ t.cap → (r.code ≡ no_space) × (t' ≡ t))
unfolding adt_get_fill
adt_put_p_lem t p hold v = elim (Bool-cases (t.stack_fill == 0)) [
  | inl full ↦ (
    record { code = no_space; index = 0 },
    t,
    unfold adt_put_p in ground arith,
    λ h. absurd (ground arith),
    λ h. (refl, refl),
  )
  | inr room ↦ (
    record { code = if t.stack_fill - 1 == 0 then newly_full else success; index = top t },
    put_result t p hold,
    adt_put_p-run t p hold v (ground arith),
    λ h. put_result-Put t p hold v (ground arith),
    λ h. absurd (ground arith),
  )
]
