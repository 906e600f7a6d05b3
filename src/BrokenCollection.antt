-- ===== src/BrokenCollection.antt =====
-- util_src/data.c, the broken collection: a double ended queue in a chain of tables of equal size.
-- The chain is the list of its tables in order and a pointer into it is a position. A fresh table
-- holds whatever `blank` is, which the code does not read before it writes. The collector keeps its
-- stacks in such collections.
pub mod Flat
pub mod Inv
pub mod Push
pub mod PushFront
pub mod Pop
pub mod PopFront
pub mod Walk
mod Tests
use chvm.Base.{
  ℕ, zero, suc, ◌+◌, ◌-◌, Bool, true, false, not, ◌&&◌, ◌||◌, List, [], ◌∷◌, ◌++◌, ltb, ◌==◌,
  if◌then◌else◌, get_or, set, length, replicate,
}
use chvm.Base.Result.{Result, ok, exited, fault, out_of_fuel, ◌>>=◌}

-- `util_broken_collection`
pub record BrokenCollection {ℓ} (A : Type ℓ) : Type ℓ where
  pub table_size : ℕ
  pub delete_empty_tables : Bool
  pub tables : List (List A)
  pub first : ℕ
  pub first_start : ℕ
  pub last : ℕ
  pub last_end : ℕ

-- A table leaves the chain when its neighbour drops the link to it, with all that is behind it.
abbrev pub take_tables {ℓ} : {A : Type ℓ} → ℕ → List A → List A
take_tables zero ts = []
take_tables (suc n) [] = []
take_tables (suc n) (t ∷ ts) = t ∷ take_tables n ts

abbrev pub drop_tables {ℓ} : {A : Type ℓ} → ℕ → List A → List A
drop_tables zero ts = ts
drop_tables (suc n) [] = []
drop_tables (suc n) (t ∷ ts) = drop_tables n ts

module _ {ℓ} {A : Type ℓ} (blank : A) where
  abbrev pub table_at : BrokenCollection A → ℕ → List A
  table_at bc i = get_or bc.tables i []

  abbrev pub cell_at : BrokenCollection A → ℕ → ℕ → A
  cell_at bc i j = get_or (table_at bc i) j blank

  -- The `memcpy` into cell `j` of table `i`.
  abbrev pub set_cell : BrokenCollection A → ℕ → ℕ → A → BrokenCollection A
  set_cell bc i j x = record bc { tables = set bc.tables i (set (table_at bc i) j x) }

  abbrev pub new_util_bc_table : ℕ → List A
  new_util_bc_table ts = replicate ts blank

  -- `cs` is the size of a cell in bytes.
  pub new_broken_collection : ℕ → ℕ → Bool → Result (BrokenCollection A)
  new_broken_collection cs ts del_empty_tables =
      if (cs == 0) || (ts == 0)
      then exited
      else ok (record {
        table_size = ts;
        delete_empty_tables = del_empty_tables;
        tables = new_util_bc_table ts ∷ [];
        first = 0;
        first_start = 0;
        last = 0;
        last_end = 0;
      })

  abbrev pub bc_empty : BrokenCollection A → Bool
  bc_empty bc = (bc.first == bc.last) && (bc.first_start == bc.last_end)

  -- `last` goes on to the next table, which is made if there is none.
  pub advance : BrokenCollection A → BrokenCollection A
  advance bc =
      let tables =
        if bc.last + 1 == length bc.tables
        then bc.tables ++ new_util_bc_table bc.table_size ∷ []
        else bc.tables in
      record bc { tables = tables; last = bc.last + 1; last_end = 0 }

  pub bc_push_back : BrokenCollection A → A → BrokenCollection A
  bc_push_back bc src =
      let placed = record (set_cell bc bc.last bc.last_end src) { last_end = bc.last_end + 1 } in
      if ltb placed.last_end placed.table_size then placed else advance placed

  -- `first` goes back to the table before, which is made if there is none. A new table at the front
  -- moves the positions of the others by one.
  pub back_up : BrokenCollection A → BrokenCollection A
  back_up bc =
      if bc.first == 0
      then record bc {
        tables = new_util_bc_table bc.table_size ∷ bc.tables;
        first = 0;
        last = bc.last + 1;
        first_start = bc.table_size;
      }
      else record bc { first = bc.first - 1; first_start = bc.table_size }

  pub bc_push_front : BrokenCollection A → A → BrokenCollection A
  bc_push_front bc src =
      let backed = if bc.first_start == 0 then back_up bc else bc in
      set_cell (record backed { first_start = backed.first_start - 1 }) backed.first
        (backed.first_start - 1) src

  -- `last` goes back to the table before; without one the code follows NULL.
  pub retreat : BrokenCollection A → Result (BrokenCollection A)
  retreat bc =
      if bc.last == 0
      then fault
      else ok (record bc {
        tables = if bc.delete_empty_tables then take_tables bc.last bc.tables else bc.tables;
        last = bc.last - 1;
        last_end = bc.table_size;
      })

  pub bc_pop_back : BrokenCollection A → Result (A × BrokenCollection A)
  bc_pop_back bc =
      if bc_empty bc
      then exited
      else (if bc.last_end == 0 then retreat bc else ok bc) >>= λ backed. ok (
        cell_at backed backed.last (backed.last_end - 1),
        record backed { last_end = backed.last_end - 1 },
      )

  -- `first` goes on to the next table, which is there unless the chain is broken.
  pub leave_first : BrokenCollection A → Result (BrokenCollection A)
  leave_first bc =
      if not (ltb (bc.first + 1) (length bc.tables))
      then fault
      else ok (
          if bc.delete_empty_tables
          then record bc {
            tables = drop_tables (bc.first + 1) bc.tables;
            first = 0;
            first_start = 0;
            last = bc.last - (bc.first + 1);
          }
          else record bc { first = bc.first + 1; first_start = 0 })

  pub bc_pop_front : BrokenCollection A → Result (A × BrokenCollection A)
  bc_pop_front bc =
      if bc_empty bc
      then exited
      else (if bc.first_start + 1 == bc.table_size
          then leave_first bc
          else ok (record bc { first_start = bc.first_start + 1 }))
        >>= λ moved. ok (cell_at bc bc.first bc.first_start, moved)

  -- The loop of `bc_foreach` with the cell `ind` of the table at `iter` next, on fuel; the consumer is
  -- a step on its context.
  pub foreach_from {κ} : {C : Type κ} → (A → C → C) → BrokenCollection A → ℕ → ℕ → ℕ → C → Result C
  foreach_from c bc zero iter ind ctx = out_of_fuel
  foreach_from c bc (suc fuel) iter ind ctx =
      if (iter == bc.last) && (ind == bc.last_end)
      then ok ctx
      else (let ctx' = c (cell_at bc iter ind) ctx in
          if ind + 1 == bc.table_size
          then foreach_from c bc fuel (iter + 1) 0 ctx'
          else foreach_from c bc fuel iter (ind + 1) ctx')

  abbrev pub count_cells : List (List A) → ℕ
  count_cells [] = 0
  count_cells (t ∷ ts) = length t + count_cells ts

  -- No walk is longer than the chain has cells.
  pub bc_foreach {κ} : {C : Type κ} → (A → C → C) → BrokenCollection A → C → Result C
  bc_foreach c bc = foreach_from c bc (count_cells bc.tables + 1) bc.first bc.first_start

  pub bc_len : BrokenCollection A → Result ℕ
  bc_len bc = bc_foreach (λ _ len. len + 1) bc 0
