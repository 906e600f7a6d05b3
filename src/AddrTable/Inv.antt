-- ===== src/AddrTable/Inv.antt =====
-- The invariant of an address table between calls: the first `stack_fill` entries of the stack are
-- the free indices, each once, and a free cell is locked by nobody.
use chvm.Base.{
  ℕ, zero, suc, ◌+◌, ◌<◌, ◌≡◌, refl, false, List, [], ◌∷◌, arith, if◌then◌else◌, length, get_or,
  set, replicate, length-replicate, get_or-replicate,
}
use chvm.Base.Result.{ok, exited}
use chvm.AddrTable.{
  AddrTable, Cell, unlocked, free_cell, cell_at, init_stack, new_addr_table, adt_get_fill,
}

-- The number of allocated cells.
abbrev pub count_allocated : List Cell → ℕ
count_allocated [] = 0
count_allocated (c ∷ cs) = if c.allocated then suc (count_allocated cs) else count_allocated cs

pub record IsValid (t : AddrTable) : Type 0 where
  pub cap_pos : 0 < t.cap
  pub cells : length t.table ≡ t.cap
  pub slots : length t.free_stack ≡ t.cap
  -- free and allocated cells make up the table
  pub fill : count_allocated t.table + t.stack_fill ≡ t.cap
  -- what stands on the stack is an index of a free cell
  pub in_range : (j : ℕ) → j < t.stack_fill → get_or t.free_stack j 0 < t.cap
  pub stack_free :
      (j : ℕ) → j < t.stack_fill → (cell_at t (get_or t.free_stack j 0)).allocated ≡ false
  -- and stands there once
  pub distinct :
      (j k : ℕ)
      → j < t.stack_fill
      → k < t.stack_fill
      → get_or t.free_stack j 0 ≡ get_or t.free_stack k 0
      → j ≡ k
  pub free_unlocked : (i : ℕ) → (cell_at t i).allocated ≡ false → (cell_at t i).lck ≡ unlocked

-- Allocating a free cell adds one to the count, and freeing an allocated one takes one away.
pub count_allocated-set :
    (cs : List Cell) (i : ℕ) (c : Cell)
    → i < length cs
    → count_allocated (set cs i c) + (if (get_or cs i free_cell).allocated then 1 else 0)
      ≡ count_allocated cs + (if c.allocated then 1 else 0)
count_allocated-set [] i c h = absurd (omega arith)
count_allocated-set (x ∷ cs) zero c h = ground arith
count_allocated-set (x ∷ cs) (suc i) c h = ground (arith, count_allocated-set cs i c)

count_allocated-replicate : (n : ℕ) → count_allocated (replicate n free_cell) ≡ 0
count_allocated-replicate zero = refl
count_allocated-replicate (suc n) = count_allocated-replicate n

length-init_stack : (n i : ℕ) → length (init_stack n i) ≡ n
unfolding init_stack
length-init_stack zero i = refl
length-init_stack (suc n) i = omega (arith, length-init_stack n (i + 1))

get_or-init_stack : (n i j : ℕ) → j < n → get_or (init_stack n i) j 0 ≡ i + j
unfolding init_stack
get_or-init_stack zero i j h = absurd (omega arith)
get_or-init_stack (suc n) i zero h = omega arith
get_or-init_stack (suc n) i (suc j) h = omega (arith, get_or-init_stack n (i + 1) j)

pub fresh-IsValid :
    (n : ℕ)
    → 0 < n
    → IsValid (record {
      cap = n;
      stack_fill = n;
      free_stack = init_stack n 0;
      table = replicate n free_cell;
    })
fresh-IsValid n h = record {
  cap_pos = h;
  cells = length-replicate n free_cell;
  slots = length-init_stack n 0;
  fill = omega (arith, count_allocated-replicate n);
  in_range = λ j lt. omega (arith, get_or-init_stack n 0 j lt);
  stack_free = λ j lt. ap_allocated (get_or (init_stack n 0) j 0);
  distinct = λ j k p q e. omega (arith, get_or-init_stack n 0 j p, get_or-init_stack n 0 k q);
  free_unlocked = λ i e. cc (get_or-replicate n i free_cell);
}
  where
    ap_allocated : (i : ℕ) → (get_or (replicate n free_cell) i free_cell).allocated ≡ false
    ap_allocated i = rw get_or-replicate

-- A table of at least one cell is made, valid and empty; a capacity of zero ends the process.
pub new_addr_table-IsValid :
    (n : ℕ)
    → (new_addr_table 0 ≡ exited)
      × (0 < n
          → (t : AddrTable) × (new_addr_table n ≡ ok t)
            × IsValid t
            × (t.cap ≡ n)
            × (adt_get_fill t ≡ 0)
            × ((i : ℕ) → cell_at t i ≡ free_cell))
unfolding new_addr_table adt_get_fill
new_addr_table-IsValid n = (
  refl,
  λ h. (
    record { cap = n; stack_fill = n; free_stack = init_stack n 0; table = replicate n free_cell },
    ground arith,
    fresh-IsValid n h,
    refl,
    omega arith,
    λ i. get_or-replicate n i free_cell,
  ),
)
