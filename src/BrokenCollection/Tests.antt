-- ===== src/BrokenCollection/Tests.antt =====
-- Runs of the broken collection of util_src/data.c in tables of two cells.
use chvm.Base.{ℕ, ◌+◌, ◌<◌, ◌≡◌, refl, ◌≢◌, ◌⊎◌, inl, true, [], ◌∷◌, ◌++◌, arith}
use chvm.Base.Result.{ok, exited}
use chvm.BrokenCollection.{
  BrokenCollection, new_broken_collection, bc_push_back, bc_push_front, bc_pop_back, bc_pop_front,
  bc_foreach, bc_len,
}
use chvm.BrokenCollection.Inv.{IsValid, contents, new_broken_collection-IsValid}
use chvm.BrokenCollection.Push.{bc_push_back_lem}
use chvm.BrokenCollection.PushFront.{bc_push_front_lem}
use chvm.BrokenCollection.Pop.{bc_pop_back_lem}
use chvm.BrokenCollection.PopFront.{bc_pop_front_lem}
use chvm.BrokenCollection.Walk.{bc_foreach_lem, bc_len_lem}

-- The elements 5, 6 and 7 over two tables, with a third one begun.
abbrev three : BrokenCollection ℕ
three = record {
  table_size = 2;
  delete_empty_tables = true;
  tables = (0 ∷ 5 ∷ []) ∷ (6 ∷ 7 ∷ []) ∷ (0 ∷ 0 ∷ []) ∷ [];
  first = 0;
  first_start = 1;
  last = 2;
  last_end = 0;
}

three-IsValid : IsValid 0 three
three-IsValid = record {
  size_pos = omega arith;
  sizes = (refl, (refl, (refl, tt)));
  last_in = omega arith;
  end_in = omega arith;
  start_in = omega arith;
  order = inl (omega arith);
}

abbrev garbage : ℕ
garbage = 0

abbrev int_size : ℕ
int_size = 8

abbrev two_cells : ℕ
two_cells = 2

new_broken_collection-IsValid_example :
    ((int_size ≡ 0) ⊎ (two_cells ≡ 0)
      → new_broken_collection garbage int_size two_cells true ≡ exited)
    × (0 < int_size
        → 0 < two_cells
        → (bc : BrokenCollection ℕ) × (new_broken_collection garbage int_size two_cells true
            ≡ ok bc)
          × IsValid garbage bc
          × (contents garbage bc ≡ []))
new_broken_collection-IsValid_example =
    new_broken_collection-IsValid garbage int_size two_cells true

bc_push_back_lem_example :
    IsValid 0 (bc_push_back 0 three 8) × (contents 0 (bc_push_back 0 three 8) ≡ 5 ∷ 6 ∷ 7 ∷ 8 ∷ [])
bc_push_back_lem_example = bc_push_back_lem 0 three 8 three-IsValid

bc_push_front_lem_example :
    IsValid 0 (bc_push_front 0 three 4)
    × (contents 0 (bc_push_front 0 three 4) ≡ 4 ∷ 5 ∷ 6 ∷ 7 ∷ [])
bc_push_front_lem_example = bc_push_front_lem 0 three 4 three-IsValid

bc_pop_back_lem_example :
    (contents 0 three ≡ [] → bc_pop_back 0 three ≡ exited)
    × (contents 0 three ≢ []
        → (x : ℕ) × (bc' : BrokenCollection ℕ) × (bc_pop_back 0 three ≡ ok (x, bc'))
          × IsValid 0 bc'
          × (5 ∷ 6 ∷ 7 ∷ [] ≡ contents 0 bc' ++ x ∷ []))
bc_pop_back_lem_example = bc_pop_back_lem 0 three three-IsValid

bc_pop_front_lem_example :
    (contents 0 three ≡ [] → bc_pop_front 0 three ≡ exited)
    × (contents 0 three ≢ []
        → (x : ℕ) × (bc' : BrokenCollection ℕ) × (bc_pop_front 0 three ≡ ok (x, bc'))
          × IsValid 0 bc'
          × (5 ∷ 6 ∷ 7 ∷ [] ≡ x ∷ contents 0 bc'))
bc_pop_front_lem_example = bc_pop_front_lem 0 three three-IsValid

abbrev add_cell : ℕ → ℕ → ℕ
add_cell x total = total + x

bc_foreach_lem_example : bc_foreach 0 add_cell three 0 ≡ ok 18
bc_foreach_lem_example = bc_foreach_lem 0 add_cell three three-IsValid 0

bc_len_lem_example : bc_len 0 three ≡ ok 3
bc_len_lem_example = bc_len_lem 0 three three-IsValid
