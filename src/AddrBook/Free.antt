-- ===== src/AddrBook/Free.antt =====
-- gc_src/virt.c: `adb_free`, with the return of a table that was full to the list.
use chvm.Base.{
  ℕ, ◌<◌, ◌≡◌, ◌∙◌, ◌≢◌, ◌↔◌, true, false, inl, inr, arith, ltb, ◌==◌, if◌then◌else◌, Bool-cases,
  length-set, get_or_past,
}
use chvm.Base.Result.{ok, exited, blocked}
use chvm.AddrTable.{AddrTable, Code, free_cell, unlocked, newly_free, adt_get_fill}
use chvm.AddrTable.Free.{Freed, adt_free_lem}
use chvm.AddrBook.{
  AddrBook, Vaddr, entry_at, no_entry, book_len, set_adt, adb_try_addition, adb_free, eq_adb_addr,
  unsafe_adb_push_free_list,
}
use chvm.AddrBook.Links.{Listed}
use chvm.AddrBook.Inv.{
  IsValid, IsSound, table_at, adb_cell, push-IsValid, table_at-push, set_adt-IsSound,
  table_at-set_adt, Listed-set_adt,
}

-- An allocated cell stands in a table of the book.
pub allocated-lt :
    (b : AddrBook) (a : Vaddr) → (adb_cell b a).allocated ≡ true → a.table_index < book_len b
allocated-lt b a h = ground (arith, get_or_past b.book a.table_index no_entry)

-- What `adb_free` does: the cell is free, and every other cell is as it was.
pub record Released (b : AddrBook) (a : Vaddr) (b' : AddrBook) : Type 0 where
  pub valid : IsValid b'
  pub emptied : adb_cell b' a ≡ free_cell
  pub others : (w : Vaddr) → eq_adb_addr w a ≡ false → adb_cell b' w ≡ adb_cell b w

module _ (b : AddrBook) (a : Vaddr) (v : IsValid b) (live : (adb_cell b a).allocated ≡ true)
    (c : Code) (t : AddrTable) (freed : Freed (table_at b a.table_index) a.cell_index c t) where
  abbrev i : ℕ
  i = a.table_index

  abbrev replaced : AddrBook
  replaced = set_adt b i t

  abbrev released : AddrBook
  released = elim c [ newly_free ↦ adb_try_addition replaced i | _ ↦ replaced ]

  inside : i < book_len b
  inside = allocated-lt b a live

  replaced-IsSound : IsSound replaced
  replaced-IsSound =
      set_adt-IsSound b i t v.sound inside freed.valid (freed.same_cap ∙ v.sound.caps i inside)

  abbrev Listed-replaced : (j : ℕ) → Listed replaced j ↔ Listed b j
  Listed-replaced = Listed-set_adt b i t v.sound inside

  abbrev table_at-replaced : (j : ℕ) → table_at replaced j ≡ (if i == j then t else table_at b j)
  table_at-replaced = table_at-set_adt b i t v.sound inside

  replaced-in : i < book_len replaced
  replaced-in = rw length-set inside

  space : 0 < t.stack_fill
  unfolding adt_get_fill
  space =
      omega
        (arith, freed.one_less, freed.valid.fill, freed.same_cap, (v.sound.tables i inside).fill)

  -- `released`, by whether the table had been full.
  full_case : (c ≡ newly_free) ↔ ((entry_at b i).in_free_list ≡ false)
  unfolding adt_get_fill
  full_case = ground (
    arith,
    freed.free_code,
    (v.sound.tables i inside).fill,
    (v.sound.tables i inside).cap_pos,
    v.space_listed i,
    v.listed_space i,
  )

  released_lem :
      (Listed b i → released ≡ replaced)
      × ((entry_at b i).in_free_list ≡ false → released ≡ unsafe_adb_push_free_list replaced i)
  unfolding adb_try_addition
  released_lem = (
    λ on. ground (arith, full_case),
    λ off. ground (arith, full_case, space, Listed-replaced i, table_at-replaced i),
  )

  off-replaced : (entry_at b i).in_free_list ≡ false → (entry_at replaced i).in_free_list ≡ false
  off-replaced off = ground (arith, Listed-replaced i)

  table_at-released : (j : ℕ) → table_at released j ≡ (if i == j then t else table_at b j)
  table_at-released j = elim (Bool-cases (entry_at b i).in_free_list) [
    | inl on ↦ rw (released_lem.0 on) (table_at-replaced j)
    | inr off ↦ rw (released_lem.1 off) (
        table_at-push replaced i replaced-IsSound replaced-in (off-replaced off) j
        ∙ table_at-replaced j)
  ]

  released-IsValid : IsValid released
  released-IsValid = elim (Bool-cases (entry_at b i).in_free_list) [
    | inl on ↦ rw (released_lem.0 on) (record {
      sound = replaced-IsSound;
      listed_space =
          λ j h. ground (arith, table_at-replaced j, Listed-replaced j, v.listed_space j, space);
      space_listed =
          λ j h. ground (arith, table_at-replaced j, Listed-replaced j, v.space_listed j);
    })
    | inr off ↦ rw (released_lem.1 off) (
        push-IsValid replaced i replaced-IsSound replaced-in (off-replaced off)
          (λ j h. ground (arith, table_at-replaced j, Listed-replaced j, v.listed_space j, space))
          (λ j ne h. ground (arith, table_at-replaced j, Listed-replaced j, v.space_listed j))
          (ground (arith, table_at-replaced i, space)))
  ]

  released-Released : Released b a released
  released-Released = record {
    valid = released-IsValid;
    emptied = ground (arith, table_at-released i, freed.emptied);
    others = λ w ne. ground (arith, table_at-released w.table_index, freed.others w.cell_index);
  }

-- `adb_free` of a valid book returns as `Released` says where the address names an allocated cell
-- that nobody holds, blocks where somebody holds it, and ends the process at every other address.
pub adb_free_lem :
    (b : AddrBook) (a : Vaddr)
    → IsValid b
    → ((adb_cell b a).allocated ≡ false → adb_free b a ≡ exited)
      × ((adb_cell b a).allocated ≡ true → (adb_cell b a).lck ≢ unlocked → adb_free b a ≡ blocked)
      × ((adb_cell b a).allocated ≡ true
          → (adb_cell b a).lck ≡ unlocked
          → (b' : AddrBook) × (adb_free b a ≡ ok b') × Released b a b')
unfolding adb_free
adb_free_lem b a v = (
  λ f. elim (Bool-cases (ltb a.table_index (book_len b))) [
    | inl there ↦ ground (
      arith,
      (adt_free_lem (table_at b a.table_index) a.cell_index
          (v.sound.tables a.table_index (ground arith))).0,
    )
    | inr past ↦ ground arith
  ],
  λ live l. ground (
    arith,
    allocated-lt b a,
    (adt_free_lem (table_at b a.table_index) a.cell_index
        (v.sound.tables a.table_index (allocated-lt b a live))).1,
  ),
  λ live l.
      let (c, t, run, freed) =
        (adt_free_lem (table_at b a.table_index) a.cell_index
            (v.sound.tables a.table_index (allocated-lt b a live))).2
          live l in
      (
        released b a v live c t freed,
        ground (arith, allocated-lt b a),
        released-Released b a v live c t freed,
      ),
)
