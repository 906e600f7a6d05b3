-- ===== src/AddrBook/Put.antt =====
-- gc_src/virt.c: `adb_put_p`, with the removal of a table that it fills from the list.
use chvm.Base.{
  ℕ, ◌+◌, ◌^◌, ◌<◌, ◌≡◌, refl, ◌∙◌, ◌≢◌, ◌↔◌, ◌⊎◌, Bool, true, false, inl, inr, arith, ◌==◌,
  if◌then◌else◌, Bool-cases, length-set, some, none,
}
use chvm.Base.Result.{ok}
use chvm.AddrTable.{AddrTable, PutRes, adt_put_p, adt_get_fill}
use chvm.AddrTable.Put.{Put, held, adt_put_p_lem}
use chvm.AddrBook.{
  AddrBook, Vaddr, adb_null_index, book_len, set_adt, put_round, adb_put_p, adb_try_expand,
  adb_try_removal, unlink, eq_adb_addr,
}
use chvm.AddrBook.Links.{Listed, Listed-lt, free_list-ne-null, adt-unlink}
use chvm.AddrBook.Inv.{
  IsValid, IsSound, table_at, adb_cell, unlink-IsValid, set_adt-IsSound, table_at-set_adt,
  Listed-set_adt, book_len-unlink, caps-unlink,
}
use chvm.AddrBook.Expand.{Expanded, adb_try_expand_lem}

-- What `adb_put_p` did: it stored the address in one cell that was free, holds its lock if asked
-- to, and changed no other cell.
pub record Stored (b : AddrBook) (p : ℕ) (hold : Bool) (v : Vaddr) (b' : AddrBook) : Type 0 where
  pub valid : IsValid b'
  pub same_cap : b'.table_cap ≡ b.table_cap
  pub table_in : v.table_index < book_len b'
  pub cell_in : v.cell_index < b'.table_cap
  pub was_free : (adb_cell b v).allocated ≡ false
  pub filled : adb_cell b' v ≡ record { lck = held hold; allocated = true; paddr = p }
  pub others : (w : Vaddr) → eq_adb_addr w v ≡ false → adb_cell b' w ≡ adb_cell b w

module _ (b : AddrBook) (p : ℕ) (hold : Bool) (v : IsValid b)
    (some_table : b.free_list ≢ adb_null_index) where
  abbrev f : ℕ
  f = b.free_list

  head_in : (f < book_len b) × Listed b f
  head_in = (Listed-lt b f (v.sound.links.head some_table).0, (v.sound.links.head some_table).0)

  module _ (r : PutRes) (t : AddrTable) (put : Put (table_at b f) p hold r t) where
    abbrev replaced : AddrBook
    replaced = set_adt b f t

    abbrev stored : AddrBook
    stored = if t.stack_fill == 0 then unlink replaced f else replaced

    abbrev address : Vaddr
    address = record { table_index = f; cell_index = r.index }

    replaced-IsSound : IsSound replaced
    replaced-IsSound =
        set_adt-IsSound b f t v.sound head_in.0 put.valid (put.same_cap ∙ v.sound.caps f head_in.0)

    Listed-replaced : (j : ℕ) → Listed replaced j ↔ Listed b j
    Listed-replaced = Listed-set_adt b f t v.sound head_in.0

    table_at-replaced : (j : ℕ) → table_at replaced j ≡ (if f == j then t else table_at b j)
    table_at-replaced = table_at-set_adt b f t v.sound head_in.0

    table_at-stored : (j : ℕ) → table_at stored j ≡ (if f == j then t else table_at b j)
    table_at-stored j = elim (Bool-cases (t.stack_fill == 0)) [
      | inl full ↦ rw full (
          adt-unlink replaced f replaced-IsSound.small replaced-IsSound.links
            ((Listed-replaced f).1 head_in.1) j
          ∙ table_at-replaced j)
      | inr space ↦ rw space (table_at-replaced j)
    ]

    stored-IsValid : IsValid stored
    stored-IsValid = elim (Bool-cases (t.stack_fill == 0)) [
      | inl full ↦ rw full (
          unlink-IsValid replaced f replaced-IsSound ((Listed-replaced f).1 head_in.1)
            (λ j ne h. ground (arith, table_at-replaced j, Listed-replaced j, v.listed_space j))
            (λ j h. ground (arith, table_at-replaced j, Listed-replaced j, v.space_listed j))
            (ground (arith, table_at-replaced f)))
      | inr space ↦ rw space (record {
        sound = replaced-IsSound;
        listed_space =
            λ j h. ground (arith, table_at-replaced j, Listed-replaced j, v.listed_space j);
        space_listed = λ j h.
            ground (arith, table_at-replaced j, Listed-replaced j, v.space_listed j, head_in);
      })
    ]

    size-stored : (book_len stored ≡ book_len b) × (stored.table_cap ≡ b.table_cap)
    size-stored = elim (Bool-cases (t.stack_fill == 0)) [
      | inl full ↦
          let on = (Listed-replaced f).1 head_in.1 in
          rw full (
            book_len-unlink replaced f replaced-IsSound on ∙ length-set b.book f _,
            (caps-unlink replaced f replaced-IsSound on).0,
          )
      | inr space ↦ rw space (length-set b.book f _, refl)
    ]

    stored-Stored : Stored b p hold address stored
    stored-Stored = record {
      valid = stored-IsValid;
      same_cap = size-stored.1;
      table_in = omega (arith, size-stored, head_in);
      cell_in = omega (arith, size-stored, put.index_in, v.sound.caps f head_in.0);
      was_free = put.was_free;
      filled = ground (arith, table_at-stored f, put.filled);
      others = λ w ne. ground (arith, table_at-stored w.table_index, put.others w.cell_index);
    }

    put_round-run :
        adt_put_p (table_at b f) p hold ≡ ok (r, t) → put_round b p hold ≡ ok (some address, stored)
    unfolding put_round adb_try_removal adt_get_fill
    put_round-run run = ground (
      arith,
      put.full_code,
      put.valid.fill,
      put.valid.cap_pos,
      put.same_cap,
      Listed-replaced f,
      table_at-replaced f,
      head_in,
    )

  -- With a table in the list one round is enough.
  put_round-head :
      (a : Vaddr) × (b' : AddrBook) × (put_round b p hold ≡ ok (some a, b'))
      × Stored b p hold a b'
      × (book_len b' ≡ book_len b)
  unfolding adt_get_fill
  put_round-head =
      let tv = v.sound.tables f head_in.0 in
      let (r, t, run, done, _) = adt_put_p_lem (table_at b f) p hold tv in
      let put = done (omega (arith, v.listed_space f head_in.1, tv.fill)) in
      (
        record { table_index = f; cell_index = r.index },
        stored r t put,
        put_round-run r t put run,
        stored-Stored r t put,
        (size-stored r t put).0,
      )

Stored-Expanded :
    (b b1 b2 : AddrBook) (p : ℕ) (hold : Bool) (a : Vaddr)
    → Expanded b b1
    → Stored b1 p hold a b2
    → Stored b p hold a b2
Stored-Expanded b b1 b2 p hold a ex st = record {
  valid = st.valid;
  same_cap = st.same_cap ∙ ex.same_cap;
  table_in = st.table_in;
  cell_in = st.cell_in;
  was_free = cc (st.was_free, ex.cells a);
  filled = st.filled;
  others = λ w ne. st.others w ne ∙ ex.cells w;
}

put_round-empty :
    (b b1 : AddrBook) (p : ℕ) (hold : Bool)
    → b.free_list ≡ adb_null_index
    → adb_try_expand b ≡ ok b1
    → put_round b p hold ≡ ok (none, b1)
unfolding put_round
put_round-empty b b1 p hold e run = ground arith

put-one :
    (b b' : AddrBook) (p : ℕ) (hold : Bool) (a : Vaddr)
    → put_round b p hold ≡ ok (some a, b')
    → adb_put_p b p hold ≡ ok (a, b')
unfolding adb_put_p
put-one b b' p hold a run = rw run

put-two :
    (b b1 b2 : AddrBook) (p : ℕ) (hold : Bool) (a : Vaddr)
    → put_round b p hold ≡ ok (none, b1)
    → put_round b1 p hold ≡ ok (some a, b2)
    → adb_put_p b p hold ≡ ok (a, b2)
unfolding adb_put_p
put-two b b1 b2 p hold a run1 run2 = rw run1 (rw run2)

-- `adb_put_p` on a valid book of room below 2 ^ 62 returns within the two rounds of its fuel, and stores the address in
-- a cell that was free. The book grows, by one table, only when every table is full.
pub adb_put_p_lem :
    (b : AddrBook) (p : ℕ) (hold : Bool)
    → IsValid b
    → b.book_cap < 2 ^ 62
    → (a : Vaddr) × (b' : AddrBook) × (adb_put_p b p hold ≡ ok (a, b'))
      × Stored b p hold a b'
      × ((book_len b' ≡ book_len b)
          ⊎ (book_len b' ≡ book_len b + 1) × ((i : ℕ) → (table_at b i).stack_fill ≡ 0))
adb_put_p_lem b p hold v small = elim (Bool-cases (b.free_list == adb_null_index)) [
  | inl empty ↦
      let (b1, run1, ex) = adb_try_expand_lem b v small (ground arith) in
      let (a, b2, run2, st, len) =
        put_round-head b1 p hold ex.valid
          (omega (arith, ex.at_head, ex.longer, ex.valid.sound.small)) in
      (
        a,
        b2,
        put-two b b1 b2 p hold a (put_round-empty b b1 p hold (ground arith) run1) run2,
        Stored-Expanded b b1 b2 p hold a ex st,
        inr (
          omega (arith, len, ex.longer),
          λ i. ground (arith, free_list-ne-null b i v.sound.small v.sound.links, v.space_listed i),
        ),
      )
  | inr some_table ↦
      let (a, b', run, st, len) = put_round-head b p hold v (ground arith) in
      (a, b', put-one b b' p hold a run, st, inl len)
]
