-- ===== src/AddrTable/Foreach.antt =====
-- gc_src/virt.c: `adt_foreach`. The consumer works on its context.
use chvm.Base.{
  ℕ, zero, suc, ◌+◌, ◌≤◌, ◌<◌, ◌≡◌, refl, ap, ◌∙◌, ◌↔◌, ◌⊎◌, inl, inr, Bool, true, false, List, [],
  ◌∷◌, arith, if◌then◌else◌, get_or, length, In, Bool-cases,
}
use chvm.Base.Result.{Result, ok, ◌>>=◌}
use chvm.AddrTable.{
  AddrTable, Cell, Lock, unlocked, reading, cell_at, free_cell, lock_read, lock_write, unlock,
  adt_get_fill,
}
use chvm.AddrTable.Inv.{IsValid, count_allocated}

-- One cell, under its lock: the write lock or the read lock.
pub visit_cell : {S : Type 0} → (ℕ → ℕ → S → S) → Bool → AddrTable → ℕ → S → Result S
visit_cell c wr adt i ctx =
    (if wr then lock_write (cell_at adt i).lck else lock_read (cell_at adt i).lck) >>= λ held.
    unlock held >>= λ _.
    ok (if (cell_at adt i).allocated then c i (cell_at adt i).paddr ctx else ctx)

-- `n` rounds of the loop from the index `i` on.
pub foreach_cells : {S : Type 0} → ℕ → (ℕ → ℕ → S → S) → Bool → AddrTable → ℕ → S → Result S
unfolding visit_cell
foreach_cells zero c wr adt i ctx = ok ctx
foreach_cells (suc n) c wr adt i ctx =
    visit_cell c wr adt i ctx >>= λ ctx'. foreach_cells n c wr adt (i + 1) ctx'

pub adt_foreach : {S : Type 0} → (ℕ → ℕ → S → S) → Bool → AddrTable → S → Result S
unfolding foreach_cells
adt_foreach c wr adt ctx = foreach_cells adt.cap c wr adt 0 ctx

-- A lock that the loop does not wait for.
abbrev pub CanVisit : Bool → Lock → Type 0
CanVisit wr l = (l ≡ unlocked) ⊎ (wr ≡ false) × (n : ℕ) × (l ≡ reading n)

-- The allocated cells among `n` from the index `i` on, with what they hold, in order.
pub allocated_from : ℕ → AddrTable → ℕ → List (ℕ × ℕ)
allocated_from zero t i = []
allocated_from (suc n) t i =
    let rest = allocated_from n t (i + 1) in
    if (cell_at t i).allocated then (i, (cell_at t i).paddr) ∷ rest else rest

-- The consumer on one after the other.
unfoldable pub visit_all : {S : Type 0} → (ℕ → ℕ → S → S) → List (ℕ × ℕ) → S → S
visit_all c [] ctx = ctx
visit_all c ((i, p) ∷ rest) ctx = visit_all c rest (c i p ctx)

visit_cell_lem :
    {S : Type 0} (c : ℕ → ℕ → S → S) (wr : Bool) (t : AddrTable) (i : ℕ) (ctx : S)
    → CanVisit wr (cell_at t i).lck
    → visit_cell c wr t i ctx
      ≡ ok (if (cell_at t i).allocated then c i (cell_at t i).paddr ctx else ctx)
unfolding visit_cell
visit_cell_lem c true t i ctx (inl free) = rw free refl
visit_cell_lem c false t i ctx (inl free) = rw free refl
visit_cell_lem c wr t i ctx (inr (read, n, shared)) = rw (read, shared) refl

foreach_cells_lem :
    {S : Type 0} (n : ℕ) (c : ℕ → ℕ → S → S) (wr : Bool) (t : AddrTable) (i : ℕ) (ctx : S)
    → ((j : ℕ) → CanVisit wr (cell_at t j).lck)
    → foreach_cells n c wr t i ctx ≡ ok (visit_all c (allocated_from n t i) ctx)
unfolding foreach_cells visit_all allocated_from
foreach_cells_lem zero c wr t i ctx free = refl
foreach_cells_lem (suc n) c wr t i ctx free = elim (Bool-cases (cell_at t i).allocated) [
  | inl used ↦
      rw (visit_cell_lem c wr t i ctx (free i), used)
        (foreach_cells_lem n c wr t (i + 1) (c i (cell_at t i).paddr ctx) free)
  | inr unused ↦
      rw (visit_cell_lem c wr t i ctx (free i), unused)
        (foreach_cells_lem n c wr t (i + 1) ctx free)
]

pub adt_foreach-visit_all :
    {S : Type 0} (c : ℕ → ℕ → S → S) (wr : Bool) (t : AddrTable) (ctx : S)
    → ((j : ℕ) → CanVisit wr (cell_at t j).lck)
    → adt_foreach c wr t ctx ≡ ok (visit_all c (allocated_from t.cap t 0) ctx)
unfolding adt_foreach
adt_foreach-visit_all c wr t ctx free = foreach_cells_lem t.cap c wr t 0 ctx free

pub In-allocated_from :
    (n : ℕ) (t : AddrTable) (i j p : ℕ)
    → In (j, p) (allocated_from n t i)
      ↔ ((i ≤ j) × (j < i + n) × ((cell_at t j).allocated ≡ true) × ((cell_at t j).paddr ≡ p))
unfolding allocated_from
In-allocated_from zero t i j p = ground arith
In-allocated_from (suc n) t i j p = elim (Bool-cases (cell_at t i).allocated) [
  | inl used ↦ rw used (ground (arith, In-allocated_from n t (i + 1) j p))
  | inr unused ↦ rw unused (ground (arith, In-allocated_from n t (i + 1) j p))
]

-- Every allocated cell of a valid table is among them.
length-allocated_from :
    (n : ℕ) (t : AddrTable) (i : ℕ) (cs : List Cell)
    → length cs ≡ n
    → ((j : ℕ) → get_or cs j free_cell ≡ cell_at t (i + j))
    → length (allocated_from n t i) ≡ count_allocated cs
unfolding allocated_from
length-allocated_from zero t i [] l same = refl
length-allocated_from zero t i (c ∷ cs) l same = absurd (omega arith)
length-allocated_from (suc n) t i [] l same = absurd (omega arith)
length-allocated_from (suc n) t i (c ∷ cs) l same =
    let first : c ≡ cell_at t i = same 0 ∙ ap (cell_at t) (omega arith) in
    let rest =
      length-allocated_from n t (i + 1) cs (omega arith)
        (λ j. same (suc j) ∙ ap (cell_at t) (omega arith)) in
    elim (Bool-cases (cell_at t i).allocated) [
      | inl used ↦
          let flag : c.allocated ≡ true = ap (λ (x : Cell). x.allocated) first ∙ used in
          rw (used, flag) (ap suc rest)
      | inr unused ↦
          let flag : c.allocated ≡ false = ap (λ (x : Cell). x.allocated) first ∙ unused in
          rw (unused, flag) rest
    ]

pub length-allocated-get_fill :
    (t : AddrTable) → IsValid t → length (allocated_from t.cap t 0) ≡ adt_get_fill t
unfolding adt_get_fill
length-allocated-get_fill t v =
    let all = length-allocated_from t.cap t 0 t.table v.cells (λ j. ap (cell_at t) (omega arith)) in
    omega (arith, v.fill)
