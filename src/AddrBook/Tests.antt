-- ===== src/AddrBook/Tests.antt =====
-- Runs of the address book of gc_src/virt.c with tables of one cell.
use chvm.Base.{
  inl, List, length, In, ◌↔◌, zero, suc, ℕ, ◌≡◌, refl, ◌≢◌, ◌⊎◌, true, false, some, [], ◌∷◌, arith,
}
use chvm.Base.Result.{ok, exited, blocked}
use chvm.AddrTable.{unlocked, new_addr_table, adt_put_p, init_stack}
use chvm.AddrBook.{
  AddrBook, Vaddr, adb_null_index, book_len, adb_put_p, put_round, put_loop, adb_try_expand,
  unsafe_adb_push_free_list, adb_try_removal, unlink, bypass_next, bypass_prev, adb_get_fill,
  adb_free, adb_get_write_p, adb_unlock,
}
use chvm.AddrBook.Inv.{IsValid, table_at, adb_cell, fresh_book-IsValid}
use chvm.AddrBook.Expand.{Expanded, adb_try_expand_lem}
use chvm.AddrBook.Put.{Stored, adb_put_p_lem}
use chvm.AddrBook.Free.{Released, adb_free_lem}
use chvm.AddrBook.Foreach.{vaddr_in, adb_foreach, visit_each, adb_foreach_lem}
use chvm.AddrBook.Access.{
  adb_unlock-adb_get_write_p, Stored-adb_put_p, adb_get_write_p-adb_put_p, adb_free-adb_put_p,
}

abbrev empty_book : AddrBook
empty_book = record { table_cap = 1; free_list = adb_null_index; book_cap = 1; book = [] }

-- The book after a put of the address 64, which fills its only table.
abbrev pub full_book : AddrBook
full_book = record {
  table_cap = 1;
  free_list = adb_null_index;
  book_cap = 1;
  book =
      record {
        in_free_list = false;
        next = adb_null_index;
        prev = adb_null_index;
        adt = record {
          cap = 1;
          stack_fill = 0;
          free_stack = 0 ∷ [];
          table = record { lck = unlocked; allocated = true; paddr = 64 } ∷ [];
        };
      }
      ∷ [];
}

abbrev pub first : Vaddr
first = record { table_index = 0; cell_index = 0 }

empty_book-IsValid : IsValid empty_book
empty_book-IsValid = fresh_book-IsValid 1 (omega arith)

put-first_book : adb_put_p empty_book 64 false ≡ ok (first, full_book)
unfolding adb_put_p put_round put_loop adb_try_expand unsafe_adb_push_free_list adb_try_removal
    unlink bypass_next bypass_prev new_addr_table adt_put_p init_stack
put-first_book = refl

pub full_book-IsValid : IsValid full_book
full_book-IsValid =
    (Stored-adb_put_p empty_book 64 false first full_book empty_book-IsValid (omega arith)
      put-first_book).valid

adb_try_expand_lem_example :
    (b' : AddrBook) × (adb_try_expand full_book ≡ ok b') × Expanded full_book b'
adb_try_expand_lem_example = adb_try_expand_lem full_book full_book-IsValid (omega arith) refl

adb_put_p_lem_example :
    (a : Vaddr) × (b' : AddrBook) × (adb_put_p full_book 9 true ≡ ok (a, b'))
    × Stored full_book 9 true a b'
    × ((book_len b' ≡ 1) ⊎ (book_len b' ≡ 2) × ((i : ℕ) → (table_at full_book i).stack_fill ≡ 0))
adb_put_p_lem_example = adb_put_p_lem full_book 9 true full_book-IsValid (omega arith)

adb_free_lem_example :
    ((adb_cell full_book first).allocated ≡ false → adb_free full_book first ≡ exited)
    × ((adb_cell full_book first).allocated ≡ true
        → (adb_cell full_book first).lck ≢ unlocked
        → adb_free full_book first ≡ blocked)
    × ((adb_cell full_book first).allocated ≡ true
        → (adb_cell full_book first).lck ≡ unlocked
        → (b' : AddrBook) × (adb_free full_book first ≡ ok b') × Released full_book first b')
adb_free_lem_example = adb_free_lem full_book first full_book-IsValid

adb_unlock-adb_get_write_p_example :
    (b' : AddrBook) × (adb_get_write_p full_book first true ≡ ok (some 64, b'))
    × (adb_unlock b' first ≡ ok full_book)
adb_unlock-adb_get_write_p_example =
    adb_unlock-adb_get_write_p full_book first true full_book-IsValid refl refl

adb_get_write_p-adb_put_p_example :
    (b'' : AddrBook) × (adb_get_write_p full_book first true ≡ ok (some 64, b''))
    × (adb_unlock b'' first ≡ ok full_book)
adb_get_write_p-adb_put_p_example =
    adb_get_write_p-adb_put_p empty_book 64 true first full_book empty_book-IsValid (omega arith)
      put-first_book

adb_free-adb_put_p_example :
    (b'' : AddrBook) × (adb_free full_book first ≡ ok b'')
    × IsValid b''
    × ((w : Vaddr) → (adb_cell b'' w).allocated ≡ (adb_cell empty_book w).allocated)
adb_free-adb_put_p_example =
    adb_free-adb_put_p empty_book 64 first full_book empty_book-IsValid (omega arith) put-first_book

full_book-unlocked : (t c : ℕ) → (adb_cell full_book (vaddr_in t c)).lck ≡ unlocked
full_book-unlocked zero zero = refl
full_book-unlocked zero (suc c) = refl
full_book-unlocked (suc t) c = refl

-- The one cell that is in use.
adb_foreach_lem_example :
    (cells : List (Vaddr × ℕ)) × ((S : Type 0) (c : Vaddr → ℕ → S → S) (ctx : S)
      → adb_foreach c true full_book ctx ≡ ok (visit_each c cells ctx))
    × ((v : Vaddr) (p : ℕ)
        → In (v, p) cells
          ↔ (((adb_cell full_book v).allocated ≡ true) × ((adb_cell full_book v).paddr ≡ p)))
    × (length cells ≡ adb_get_fill full_book)
adb_foreach_lem_example =
    adb_foreach_lem full_book true full_book-IsValid
      (λ v. inl (full_book-unlocked v.table_index v.cell_index))
