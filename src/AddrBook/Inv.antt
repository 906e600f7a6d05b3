-- ===== src/AddrBook/Inv.antt =====
-- The invariant of the address book between calls: its tables are valid and of one capacity, and
-- the tables with a free cell are exactly those in the linked list.
use chvm.Base.{
  ℕ, ◌≤◌, ◌<◌, ◌≡◌, refl, ◌≢◌, ◌↔◌, ◌⊎◌, true, false, inl, inr, arith, ◌==◌, if◌then◌else◌,
  Bool-cases, length-set, length-append, ◌∷◌, [], some, none,
}
use chvm.AddrTable.{AddrTable, Cell, cell_at}
use chvm.AddrTable.Inv.{IsValid as IsValidTable}
use chvm.AddrBook.{
  AddrBook, Vaddr, Entry, entry_at, adb_null_index, book_len, set_adt, set_prev,
  unsafe_adb_push_free_list, unlink, bypass_next, bypass_prev, new_addr_book,
}
use chvm.AddrBook.Links.{
  IsLinked, Listed, entry_at-push, push-IsLinked, unlink-IsLinked, Listed-unlink, adt-unlink,
  entry_at-set_adt, set_adt-IsLinked, grown, entry_at-grown, grown-IsLinked, book_len-bypass_next,
  book_len-bypass_prev,
}

abbrev pub table_at : AddrBook → ℕ → AddrTable
table_at b i = (entry_at b i).adt

-- The cell that a virtual address names; one that names none gives a free cell.
abbrev pub adb_cell : AddrBook → Vaddr → Cell
adb_cell b v = cell_at (table_at b v.table_index) v.cell_index

-- What holds of the book also while a table is on its way into or out of the list.
pub record IsSound (b : AddrBook) : Type 0 where
  pub cap_pos : 0 < b.table_cap
  pub room_pos : 0 < b.book_cap
  pub room : book_len b ≤ b.book_cap
  pub small : book_len b ≤ adb_null_index
  pub links : IsLinked b
  pub tables : (i : ℕ) → i < book_len b → IsValidTable (table_at b i)
  pub caps : (i : ℕ) → i < book_len b → (table_at b i).cap ≡ b.table_cap

pub record IsValid (b : AddrBook) : Type 0 where
  pub sound : IsSound b
  pub listed_space : (i : ℕ) → Listed b i → 0 < (table_at b i).stack_fill
  pub space_listed : (i : ℕ) → 0 < (table_at b i).stack_fill → Listed b i

module _ (b : AddrBook) (i : ℕ) (s : IsSound b) (inside : i < book_len b)
    (off : (entry_at b i).in_free_list ≡ false) where
  abbrev after_push : AddrBook
  after_push = unsafe_adb_push_free_list b i

  pub book_len-push : book_len after_push ≡ book_len b
  unfolding unsafe_adb_push_free_list
  book_len-push = ground (
    arith,
    length-set b.book b.free_list (record (entry_at b b.free_list) { prev = i }),
    length-set b.book i
        (record (entry_at b i) { prev = adb_null_index; next = b.free_list; in_free_list = true }),
    length-set (set_prev b b.free_list i).book i (record (entry_at (set_prev b b.free_list i) i) {
      prev = adb_null_index;
      next = b.free_list;
      in_free_list = true;
    }),
  )

  pub caps-push :
      (after_push.table_cap ≡ b.table_cap)
      × (after_push.book_cap ≡ b.book_cap)
      × (after_push.free_list ≡ i)
  unfolding unsafe_adb_push_free_list
  caps-push = ground arith

  pub table_at-push : (j : ℕ) → table_at after_push j ≡ table_at b j
  table_at-push j = ground (arith, entry_at-push b i s.small s.links inside off j)

  pub Listed-push : (j : ℕ) → Listed after_push j ↔ ((j ≡ i) ⊎ Listed b j)
  Listed-push j = ground (arith, entry_at-push b i s.small s.links inside off j)

  pub push-IsSound : IsSound after_push
  push-IsSound = record {
    cap_pos = ground (arith, caps-push, s.cap_pos);
    room_pos = ground (arith, caps-push, s.room_pos);
    room = ground (arith, caps-push, book_len-push, s.room);
    small = ground (arith, book_len-push, s.small);
    links = push-IsLinked b i s.small s.links inside off;
    tables = λ j h. rw (table_at-push j) (s.tables j (omega (arith, book_len-push)));
    caps = λ j h. ground (arith, table_at-push j, caps-push, s.caps j, book_len-push);
  }

  -- A table with a free cell that is not in the list goes in, and the book is valid.
  pub push-IsValid :
      ((j : ℕ) → Listed b j → 0 < (table_at b j).stack_fill)
      → ((j : ℕ) → j ≢ i → 0 < (table_at b j).stack_fill → Listed b j)
      → 0 < (table_at b i).stack_fill
      → IsValid after_push
  push-IsValid ls sl space = record {
    sound = push-IsSound;
    listed_space = λ j h. ground (arith, Listed-push j, table_at-push j, ls j);
    space_listed = λ j h. ground (arith, Listed-push j, table_at-push j, sl j);
  }

module _ (b : AddrBook) (i : ℕ) (s : IsSound b) (on : Listed b i) where
  pub book_len-unlink : book_len (unlink b i) ≡ book_len b
  unfolding unlink
  book_len-unlink =
      let e = entry_at b i in
      let m = bypass_prev (bypass_next b e) e in
      ground (
        arith,
        book_len-bypass_next b e,
        book_len-bypass_prev (bypass_next b e) e,
        length-set m.book i (record (entry_at m i) {
          prev = adb_null_index;
          next = adb_null_index;
          in_free_list = false;
        }),
      )

  pub caps-unlink : ((unlink b i).table_cap ≡ b.table_cap) × ((unlink b i).book_cap ≡ b.book_cap)
  unfolding unlink bypass_next bypass_prev
  caps-unlink = ground arith

  unlink-IsSound : IsSound (unlink b i)
  unlink-IsSound = record {
    cap_pos = ground (arith, caps-unlink, s.cap_pos);
    room_pos = ground (arith, caps-unlink, s.room_pos);
    room = ground (arith, caps-unlink, book_len-unlink, s.room);
    small = ground (arith, book_len-unlink, s.small);
    links = unlink-IsLinked b i s.small s.links on;
    tables = λ j h.
        rw (adt-unlink b i s.small s.links on j) (s.tables j (omega (arith, book_len-unlink)));
    caps = λ j h.
        ground (arith, adt-unlink b i s.small s.links on j, caps-unlink, s.caps j, book_len-unlink);
  }

  -- A full table goes out of the list, and the book is valid.
  pub unlink-IsValid :
      ((j : ℕ) → j ≢ i → Listed b j → 0 < (table_at b j).stack_fill)
      → ((j : ℕ) → 0 < (table_at b j).stack_fill → Listed b j)
      → (table_at b i).stack_fill ≡ 0
      → IsValid (unlink b i)
  unlink-IsValid ls sl full = record {
    sound = unlink-IsSound;
    listed_space = λ j h.
        ground (
          arith,
          Listed-unlink b i s.small s.links on j,
          adt-unlink b i s.small s.links on j,
          ls j,
        );
    space_listed = λ j h.
        ground (
          arith,
          Listed-unlink b i s.small s.links on j,
          adt-unlink b i s.small s.links on j,
          sl j,
        );
  }

module _ (b : AddrBook) (i : ℕ) (t : AddrTable) (s : IsSound b) (inside : i < book_len b) where
  pub table_at-set_adt : (j : ℕ) → table_at (set_adt b i t) j ≡ (if i == j then t else table_at b j)
  table_at-set_adt j = ground (arith, entry_at-set_adt b i t inside j)

  pub Listed-set_adt : (j : ℕ) → Listed (set_adt b i t) j ↔ Listed b j
  Listed-set_adt j = ground (arith, entry_at-set_adt b i t inside j)

  pub set_adt-IsSound : IsValidTable t → t.cap ≡ b.table_cap → IsSound (set_adt b i t)
  set_adt-IsSound v c = record {
    cap_pos = s.cap_pos;
    room_pos = s.room_pos;
    room = rw length-set s.room;
    small = rw length-set s.small;
    links = set_adt-IsLinked b i t inside s.links;
    tables = λ j h. elim (Bool-cases (i == j)) [
      | inl here ↦ rw (table_at-set_adt j, here) v
      | inr there ↦
          rw (table_at-set_adt j, there)
            (s.tables j (omega (arith, length-set b.book i (record (entry_at b i) { adt = t }))))
    ];
    caps = λ j h. ground (
      arith,
      table_at-set_adt j,
      s.caps j,
      length-set b.book i (record (entry_at b i) { adt = t }),
    );
  }

module _ (b : AddrBook) (t : AddrTable) (cap : ℕ) (s : IsSound b) where
  abbrev pub fresh : Entry
  fresh = record { in_free_list = false; next = 0; prev = 0; adt = t }

  pub table_at-grown :
      (j : ℕ) → table_at (grown b fresh cap refl) j ≡ (if book_len b == j then t else table_at b j)
  table_at-grown j = ground (arith, entry_at-grown b fresh cap refl j)

  pub grown-IsSound :
      IsValidTable t
      → t.cap ≡ b.table_cap
      → 0 < cap
      → book_len b < cap
      → book_len b < adb_null_index
      → IsSound (grown b fresh cap refl)
  grown-IsSound v c pos lt small = record {
    cap_pos = s.cap_pos;
    room_pos = pos;
    room = omega (arith, length-append b.book (fresh ∷ []));
    small = omega (arith, length-append b.book (fresh ∷ []));
    links = grown-IsLinked b fresh cap refl s.links;
    tables = λ j h. elim (Bool-cases (book_len b == j)) [
      | inl here ↦ rw (table_at-grown j, here) v
      | inr there ↦
          rw (table_at-grown j, there)
            (s.tables j (ground (arith, length-append b.book (fresh ∷ []))))
    ];
    caps = λ j h.
        ground
          (arith, entry_at-grown b fresh cap refl j, s.caps j, length-append b.book (fresh ∷ []));
  }

pub fresh_book-IsValid :
    (n : ℕ)
    → 0 < n
    → IsValid (record { table_cap = n; free_list = adb_null_index; book_cap = 1; book = [] })
fresh_book-IsValid n h = record {
  sound = record {
    cap_pos = h;
    room_pos = omega arith;
    room = omega arith;
    small = omega arith;
    links = record {
      rank = λ i. i;
      bound = 0;
      ranked = λ i l. cc;
      falls = λ i l. cc;
      next_link = λ i l. cc;
      prev_link = λ i l. cc;
      first = λ i l. cc;
      head = λ ne. absurd (ne refl);
    };
    tables = λ i l. absurd (omega arith);
    caps = λ i l. absurd (omega arith);
  };
  listed_space = λ i l. cc;
  space_listed = λ i l. absurd (omega arith);
}

-- A new book is valid and holds no table; a capacity of zero gives NULL.
pub new_addr_book-IsValid :
    (n : ℕ)
    → (new_addr_book 0 ≡ none)
      × (0 < n
          → (b : AddrBook) × (new_addr_book n ≡ some b)
            × IsValid b
            × (b.table_cap ≡ n)
            × (book_len b ≡ 0))
unfolding new_addr_book
new_addr_book-IsValid n = (
  refl,
  λ h. (
    record { table_cap = n; free_list = adb_null_index; book_cap = 1; book = [] },
    ground arith,
    fresh_book-IsValid n h,
    refl,
    refl,
  ),
)
