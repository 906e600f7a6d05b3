-- ===== src/AddrBook/Access.antt =====
-- gc_src/virt.c: access to a physical address through the address book, `adb_allocated` and
-- `adb_get_adt` included.
use chvm.Base.{
  ℕ, ◌^◌, ◌<◌, ◌≡◌, ap, Bool, Bool-cases, inl, inr, true, false, some, arith, length-set,
  get_or-set, set-set, set-get_or,
}
use mathlib.Core.Path.{subst₂}
use chvm.Base.Result.{ok}
use chvm.AddrTable.{AddrTable, unlocked, writing, reading, adt_unlock}
use chvm.AddrTable.Access.{locked, adt_get_write_p_lem, adt_get_read_p_lem}
use chvm.AddrBook.{
  AddrBook, Vaddr, Entry, entry_at, no_entry, book_len, set_adt, adb_get_read_p, adb_get_write_p,
  adb_unlock, adb_free, adb_put_p, eq_adb_addr,
}
use chvm.AddrBook.Inv.{IsValid, table_at, adb_cell}
use chvm.AddrBook.Put.{Stored, adb_put_p_lem}
use chvm.AddrBook.Free.{allocated-lt, adb_free_lem}

-- The book while a cell is held.
abbrev pub locked_book : AddrBook → Vaddr → AddrTable → AddrBook
locked_book b a t = set_adt b a.table_index t

set_adt-set_adt :
    (b : AddrBook) (i : ℕ) (t : AddrTable)
    → i < book_len b
    → (table_at (set_adt b i t) i ≡ t) × (set_adt (set_adt b i t) i (table_at b i) ≡ b)
set_adt-set_adt b i t h =
    let e : Entry = record (entry_at b i) { adt = t } in
    let same : entry_at (set_adt b i t) i ≡ e = ground (arith, get_or-set b.book i i e no_entry) in
    let back : record (entry_at (set_adt b i t) i) { adt = table_at b i } ≡ entry_at b i =
      rw same in
    (
      ap (λ (e : Entry). e.adt) same,
      rw back (rw (set-set b.book i e (entry_at b i), set-get_or b.book i no_entry)),
    )

module _ (b : AddrBook) (a : Vaddr) (blk : Bool) (v : IsValid b)
    (live : (adb_cell b a).allocated ≡ true) (free : (adb_cell b a).lck ≡ unlocked) where
  abbrev t : AddrTable
  t = table_at b a.table_index

  adb_unlock-set :
      (t' : AddrTable)
      → adt_unlock t' a.cell_index ≡ ok t
      → adb_unlock (set_adt b a.table_index t') a ≡ ok b
  unfolding adb_unlock
  adb_unlock-set t' back =
      let inside = allocated-lt b a live in
      let there = set_adt-set_adt b a.table_index t' inside in
      let size = length-set b.book a.table_index (record (entry_at b a.table_index) { adt = t' }) in
      let step : adt_unlock (table_at (set_adt b a.table_index t') a.table_index) a.cell_index
          ≡ ok t =
        rw there.0 back in
      ground arith

  -- In a valid book `adb_get_write` of an allocated address that nobody holds gives the stored physical address,
  -- and `adb_unlock` gives the book back as it was. `adb_try_get_write` does the same.
  pub adb_unlock-adb_get_write_p :
      (b' : AddrBook) × (adb_get_write_p b a blk ≡ ok (some (adb_cell b a).paddr, b'))
      × (adb_unlock b' a ≡ ok b)
  unfolding adb_get_write_p
  adb_unlock-adb_get_write_p =
      let inside = allocated-lt b a live in
      let (run, back) =
        (adt_get_write_p_lem t a.cell_index blk (v.sound.tables a.table_index inside)).2 live
          free in
      (
        set_adt b a.table_index (locked t a.cell_index writing),
        ground arith,
        adb_unlock-set (locked t a.cell_index writing) back,
      )

  -- In a valid book `adb_get_read` of an allocated address that nobody holds gives the stored physical address,
  -- and `adb_unlock` gives the book back as it was. `adb_try_get_read` does the same.
  pub adb_unlock-adb_get_read_p :
      (b' : AddrBook) × (adb_get_read_p b a blk ≡ ok (some (adb_cell b a).paddr, b'))
      × (adb_unlock b' a ≡ ok b)
  unfolding adb_get_read_p
  adb_unlock-adb_get_read_p =
      let inside = allocated-lt b a live in
      let (run, back) =
        (adt_get_read_p_lem t a.cell_index blk (v.sound.tables a.table_index inside)).2 live free in
      (
        set_adt b a.table_index (locked t a.cell_index (reading 1)),
        ground arith,
        adb_unlock-set (locked t a.cell_index (reading 1)) back,
      )

eq_adb_addr-eq : (v w : Vaddr) → eq_adb_addr v w ≡ true → v ≡ w
eq_adb_addr-eq v w h = ground arith

-- What a call of `adb_put_p` that returned did.
pub Stored-adb_put_p :
    (b : AddrBook) (p : ℕ) (hold : Bool) (a : Vaddr) (b' : AddrBook)
    → IsValid b
    → b.book_cap < 2 ^ 62
    → adb_put_p b p hold ≡ ok (a, b')
    → Stored b p hold a b'
Stored-adb_put_p b p hold a b' v small run =
    let (a1, b1, run1, st, _) = adb_put_p_lem b p hold v small in
    let ea : a1 ≡ a = cc in let eb : b1 ≡ b' = cc in subst₂ (Stored b p hold) ea eb st

-- An address that `adb_put_p` gave out for a valid book of room below 2 ^ 62, its lock not held,
-- reads back as what was put there, and
-- `adb_unlock` then gives the book back as it was.
pub adb_get_write_p-adb_put_p :
    (b : AddrBook) (p : ℕ) (blk : Bool) (a : Vaddr) (b' : AddrBook)
    → IsValid b
    → b.book_cap < 2 ^ 62
    → adb_put_p b p false ≡ ok (a, b')
    → (b'' : AddrBook) × (adb_get_write_p b' a blk ≡ ok (some p, b'')) × (adb_unlock b'' a ≡ ok b')
adb_get_write_p-adb_put_p b p blk a b' v small run =
    let st = Stored-adb_put_p b p false a b' v small run in
    let (b'', get, back) =
      adb_unlock-adb_get_write_p b' a blk st.valid (cc st.filled) (cc st.filled) in
    let addr : (adb_cell b' a).paddr ≡ p = cc st.filled in (b'', rw addr at get, back)

-- To free an address that was just put into a valid book of room below 2 ^ 62 and that nobody holds
-- succeeds, and leaves a valid book with exactly
-- the cells that were allocated before.
pub adb_free-adb_put_p :
    (b : AddrBook) (p : ℕ) (a : Vaddr) (b' : AddrBook)
    → IsValid b
    → b.book_cap < 2 ^ 62
    → adb_put_p b p false ≡ ok (a, b')
    → (b'' : AddrBook) × (adb_free b' a ≡ ok b'')
      × IsValid b''
      × ((w : Vaddr) → (adb_cell b'' w).allocated ≡ (adb_cell b w).allocated)
adb_free-adb_put_p b p a b' v small run =
    let st = Stored-adb_put_p b p false a b' v small run in
    let (b'', free, rel) = (adb_free_lem b' a st.valid).2 (cc st.filled) (cc st.filled) in
    (
      b'',
      free,
      rel.valid,
      λ w. elim (Bool-cases (eq_adb_addr w a)) [
        | inl same ↦ let e : w ≡ a = eq_adb_addr-eq w a same in rw e (cc (rel.emptied, st.was_free))
        | inr other ↦ cc (rel.others w other, st.others w other)
      ],
    )
