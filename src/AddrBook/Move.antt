-- ===== src/AddrBook/Move.antt =====
-- gc_src/virt.c: `adb_move_p`, under the lock that `adb_try_get_write` took.
use chvm.Base.{
  ◌≢◌, List, set-get_or, ℕ, ◌<◌, ◌≡◌, refl, sym, ap, Bool, true, false, Option, some, none, arith,
  length-set, set-set, get_or-set,
}
use mathlib.Core.Path.{subst}
use chvm.Base.Memory.{Memory, Memmove}
use chvm.Base.Result.{Result, ok, ◌>>=◌}
use chvm.AddrTable.{AddrTable, unlocked, writing}
use chvm.AddrTable.Access.{locked, adt_get_write_p_lem}
use chvm.AddrTable.Move.{adt_move_p, placed, cell_at-placed, placed-IsValid, adt_move_p-locked}
use chvm.AddrBook.{
  AddrBook, Vaddr, Entry, entry_at, no_entry, book_len, set_adt, eq_adb_addr, adb_get_adt,
  adb_get_write_p, adb_unlock,
}
use chvm.AddrBook.Inv.{
  IsValid, table_at, adb_cell, table_at-set_adt, Listed-set_adt, set_adt-IsSound,
}
use chvm.AddrBook.Free.{allocated-lt}

abbrev vaddr_of : Option (ℕ × ℕ) → Option Vaddr
vaddr_of none = none
vaddr_of (some (t, c)) = some (record { table_index = t; cell_index = c })

-- The first part of the result is the virtual address that `init` writes in front of the new place.
pub adb_move_p :
    Memmove
    → Bool
    → AddrBook
    → Vaddr
    → ℕ
    → ℕ
    → Bool
    → Memory
    → Result (Option Vaddr × Memory × AddrBook)
adb_move_p memmove lck b v new_paddr size init mem = do
  t ← adb_get_adt b v.table_index
  (written, moved, t') ← adt_move_p memmove lck t v.cell_index new_paddr size init v.table_index mem
  ok (vaddr_of written, moved, set_adt b v.table_index t')

-- The address stands for another place, and every other one for what it did.
pub record Placed (b : AddrBook) (a : Vaddr) (p : ℕ) (b' : AddrBook) : Type 0 where
  pub valid : IsValid b'
  pub moved : adb_cell b' a ≡ record (adb_cell b a) { paddr = p }
  pub others : (w : Vaddr) → eq_adb_addr w a ≡ false → adb_cell b' w ≡ adb_cell b w

module _ (b : AddrBook) (a : Vaddr) (v : IsValid b) (live : (adb_cell b a).allocated ≡ true) where
  abbrev i : ℕ
  i = a.table_index

  abbrev t : AddrTable
  t = table_at b i

  inside : i < book_len b
  inside = allocated-lt b a live

  abbrev placed_book : ℕ → AddrBook
  placed_book p = set_adt b i (placed t a.cell_index p)

  placed_book-Placed : (p : ℕ) → Placed b a p (placed_book p)
  placed_book-Placed p =
      let vt = v.sound.tables i inside in
      let t' : AddrTable = placed t a.cell_index p in
      record {
        valid = record {
          sound =
              set_adt-IsSound b i t' v.sound inside (placed-IsValid t a.cell_index vt live p)
                (v.sound.caps i inside);
          listed_space = λ j h. ground (
            arith,
            table_at-set_adt b i t' v.sound inside j,
            Listed-set_adt b i t' v.sound inside j,
            v.listed_space j,
          );
          space_listed = λ j h. ground (
            arith,
            table_at-set_adt b i t' v.sound inside j,
            Listed-set_adt b i t' v.sound inside j,
            v.space_listed j,
          );
        };
        moved = ground (
          arith,
          table_at-set_adt b i t' v.sound inside i,
          cell_at-placed t a.cell_index vt live p a.cell_index,
        );
        others = λ w ne. ground (
          arith,
          table_at-set_adt b i t' v.sound inside w.table_index,
          cell_at-placed t a.cell_index vt live p w.cell_index,
        );
      }

  set_adt-twice : (t1 t2 : AddrTable) → set_adt (set_adt b i t1) i t2 ≡ set_adt b i t2
  set_adt-twice t1 t2 =
      let e : Entry = record (entry_at b i) { adt = t1 } in
      let same : entry_at (set_adt b i t1) i ≡ e =
        ground (arith, get_or-set b.book i i e no_entry, inside) in
      let e2 : record (entry_at (set_adt b i t1) i) { adt = t2 }
          ≡ record (entry_at b i) { adt = t2 } =
        rw same refl in
      rw e2 (rw (set-set b.book i e (record (entry_at b i) { adt = t2 })) refl)

  at-set : (t1 : AddrTable) → adb_get_adt (set_adt b i t1) i ≡ ok t1
  at-set t1 =
      let e : Entry = record (entry_at b i) { adt = t1 } in
      ground (arith, get_or-set b.book i i e no_entry, length-set b.book i e, inside)

  -- In a valid book, of an allocated address that nobody holds: the try of the lock, the move under it and
  -- the unlocking succeed, the bytes move, and the address stands for the new place.
  pub adb_move_p_lem :
      (memmove : Memmove) (p size : ℕ) (mem : Memory)
      → (adb_cell b a).lck ≡ unlocked
      → (b1 : AddrBook) × (b2 : AddrBook) × (b3 : AddrBook) × (adb_get_write_p b a false
          ≡ ok (some (adb_cell b a).paddr, b1))
        × (adb_move_p memmove false b1 a p size true mem
            ≡ ok (some a, memmove p (adb_cell b a).paddr size mem, b2))
        × (adb_unlock b2 a ≡ ok b3)
        × Placed b a p b3
  unfolding adb_get_write_p adb_move_p adb_unlock
  adb_move_p_lem memmove p size mem free =
      let vt = v.sound.tables i inside in
      let (run, _) = (adt_get_write_p_lem t a.cell_index false vt).2 live free in
      let (t', move, back) =
        adt_move_p-locked t a.cell_index vt live memmove p size i true mem free in
      let t1 : AddrTable = locked t a.cell_index writing in
      let b1 : AddrBook = set_adt b i t1 in
      let same : set_adt b1 i t' ≡ set_adt b i t' = set_adt-twice t1 t' in
      let last : set_adt (set_adt b i t') i (placed t a.cell_index p) ≡ placed_book p =
        set_adt-twice t' (placed t a.cell_index p) in
      (
        b1,
        set_adt b1 i t',
        placed_book p,
        ground (arith, inside),
        rw (at-set t1) (rw move refl),
        subst (λ x. adb_unlock x a ≡ ok (placed_book p)) (sym same)
            (rw (at-set t') (rw back (ap ok last))),
        placed_book-Placed p,
      )

-- The try of a lock that somebody holds answers NULL and changes nothing.
pub adb_get_write_p-held :
    (b : AddrBook) (a : Vaddr)
    → IsValid b
    → (adb_cell b a).allocated ≡ true
    → (adb_cell b a).lck ≢ unlocked
    → adb_get_write_p b a false ≡ ok (none, b)
unfolding adb_get_write_p
adb_get_write_p-held b a v live held =
    let inside = allocated-lt b a live in
    let run =
      (adt_get_write_p_lem (table_at b a.table_index) a.cell_index false
          (v.sound.tables a.table_index inside)).1
        live held in
    let same : set_adt b a.table_index (table_at b a.table_index) ≡ b =
      ap (λ (x : List Entry). record b { book = x }) (set-get_or b.book a.table_index no_entry) in
    ground arith
