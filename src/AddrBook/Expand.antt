-- ===== src/AddrBook/Expand.antt =====
-- gc_src/virt.c: `adb_try_expand`, which adds a table when no table has a free cell.
use chvm.Base.{
  ℕ, ◌+◌, ◌*◌, ◌%◌, ◌^◌, ◌<◌, ◌≡◌, refl, ◌≢◌, ◌↔◌, false, arith, ◌==◌, if◌then◌else◌, length-append,
  ◌∷◌, [], get_or_past,
}
use chvm.Base.Result.{ok}
use chvm.AddrTable.{AddrTable, cell_at, free_cell, adt_get_fill}
use chvm.AddrTable.Inv.{IsValid as IsValidTable, new_addr_table-IsValid}
use chvm.AddrBook.{
  AddrBook, Vaddr, entry_at, adb_null_index, book_len, no_entry, adb_try_expand,
  unsafe_adb_push_free_list,
}
use chvm.AddrBook.Links.{Listed, Listed-lt, grown, entry_at-grown}
use chvm.AddrBook.Inv.{
  IsValid, IsSound, table_at, adb_cell, push-IsValid, table_at-push, book_len-push, caps-push,
  fresh, grown-IsSound, table_at-grown,
}

-- What `adb_try_expand` does to a book whose list is empty: one empty table more, at the head of
-- the list, and every cell as before.
pub record Expanded (b b' : AddrBook) : Type 0 where
  pub valid : IsValid b'
  pub longer : book_len b' ≡ book_len b + 1
  pub same_cap : b'.table_cap ≡ b.table_cap
  pub at_head : b'.free_list ≡ book_len b
  pub empty : adt_get_fill (table_at b' (book_len b)) ≡ 0
  pub old : (j : ℕ) → j ≢ book_len b → table_at b' j ≡ table_at b j
  pub cells : (v : Vaddr) → adb_cell b' v ≡ adb_cell b v

module _ (b : AddrBook) (t : AddrTable) (cap : ℕ) (v : IsValid b) (made : IsValidTable t)
    (same : t.cap ≡ b.table_cap) (blank : adt_get_fill t ≡ 0)
    (all_free : (i : ℕ) → cell_at t i ≡ free_cell) (room : book_len b < cap)
    (small : book_len b < adb_null_index) where
  abbrev end : ℕ
  end = book_len b

  abbrev longer_book : AddrBook
  longer_book = grown b (fresh b t cap v.sound) cap refl

  abbrev expanded : AddrBook
  expanded = unsafe_adb_push_free_list longer_book end

  longer_book-IsSound : IsSound longer_book
  longer_book-IsSound = grown-IsSound b t cap v.sound made same (omega arith) room small

  inside : end < book_len longer_book
  inside = omega (arith, length-append b.book (fresh b t cap v.sound ∷ []))

  Listed-longer : (j : ℕ) → Listed longer_book j ↔ Listed b j
  Listed-longer j =
      ground (arith, entry_at-grown b (fresh b t cap v.sound) cap refl j, Listed-lt b j)

  off : (entry_at longer_book end).in_free_list ≡ false
  off = ground (arith, entry_at-grown b (fresh b t cap v.sound) cap refl end)

  table_at-expanded : (j : ℕ) → table_at expanded j ≡ (if end == j then t else table_at b j)
  table_at-expanded j = ground (
    arith,
    table_at-push longer_book end longer_book-IsSound inside off j,
    table_at-grown b t cap v.sound j,
  )

  expanded-IsValid : IsValid expanded
  unfolding adt_get_fill
  expanded-IsValid =
      push-IsValid longer_book end longer_book-IsSound inside off
        (λ j h. ground (
          arith,
          table_at-grown b t cap v.sound j,
          Listed-longer j,
          v.listed_space j,
          Listed-lt b j,
        ))
        (λ j ne h.
          ground (arith, table_at-grown b t cap v.sound j, Listed-longer j, v.space_listed j))
        (ground (arith, table_at-grown b t cap v.sound end, made.fill, v.sound.cap_pos))

  expanded-Expanded : Expanded b expanded
  expanded-Expanded = record {
    valid = expanded-IsValid;
    longer = omega (
      arith,
      book_len-push longer_book end longer_book-IsSound inside off,
      length-append b.book (fresh b t cap v.sound ∷ []),
    );
    same_cap = (caps-push longer_book end longer_book-IsSound inside off).0;
    at_head = (caps-push longer_book end longer_book-IsSound inside off).2;
    empty = ground (arith, table_at-expanded end);
    old = λ j ne. ground (arith, table_at-expanded j);
    cells = λ w. ground (
      arith,
      table_at-expanded w.table_index,
      all_free w.cell_index,
      get_or_past b.book end no_entry,
    );
  }

-- `adb_try_expand` of a valid book of room below 2 ^ 62 whose free list is empty returns a valid book with one empty
-- table more, at the head of the list, and with every cell as before.
pub adb_try_expand_lem :
    (b : AddrBook)
    → IsValid b
    → b.book_cap < 2 ^ 62
    → b.free_list ≡ adb_null_index
    → (b' : AddrBook) × (adb_try_expand b ≡ ok b') × Expanded b b'
unfolding adb_try_expand
adb_try_expand_lem b v small e =
    let cap : ℕ = if book_len b == b.book_cap then b.book_cap * 2 % 2 ^ 64 else b.book_cap in
    let (t, made, tv, tc, tf, te) = (new_addr_table-IsValid b.table_cap).1 v.sound.cap_pos in
    (
      expanded b t cap v tv tc tf te (ground (arith, v.sound.room, v.sound.room_pos))
          (omega (arith, v.sound.room)),
      ground arith,
      expanded-Expanded b t cap v tv tc tf te (ground (arith, v.sound.room, v.sound.room_pos))
          (omega (arith, v.sound.room)),
    )
