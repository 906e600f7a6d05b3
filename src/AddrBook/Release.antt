-- ===== src/AddrBook/Release.antt =====
-- gc_src/virt.c: `adb_unlock` by the writer.
use chvm.Base.{ℕ, ◌≡◌, true, false, arith}
use chvm.Base.Result.{ok}
use chvm.AddrTable.{AddrTable, unlocked, writing}
use chvm.AddrTable.Release.{freed_lock, cell_at-freed_lock, freed_lock-IsValid, adt_unlock-writing}
use chvm.AddrBook.{AddrBook, Vaddr, set_adt, eq_adb_addr, adb_unlock}
use chvm.AddrBook.Inv.{
  IsValid, table_at, adb_cell, table_at-set_adt, Listed-set_adt, set_adt-IsSound,
}
use chvm.AddrBook.Free.{allocated-lt}

-- Nobody holds the address any more, and nothing else changed.
pub record Unlocked (b : AddrBook) (a : Vaddr) (b' : AddrBook) : Type 0 where
  pub valid : IsValid b'
  pub free_now : adb_cell b' a ≡ record (adb_cell b a) { lck = unlocked }
  pub others : (w : Vaddr) → eq_adb_addr w a ≡ false → adb_cell b' w ≡ adb_cell b w

pub adb_unlock-writing :
    (b : AddrBook) (a : Vaddr)
    → IsValid b
    → (adb_cell b a).allocated ≡ true
    → (adb_cell b a).lck ≡ writing
    → (b' : AddrBook) × (adb_unlock b a ≡ ok b') × Unlocked b a b'
unfolding adb_unlock
adb_unlock-writing b a v live held =
    let i : ℕ = a.table_index in
    let inside = allocated-lt b a live in
    let vt = v.sound.tables i inside in
    let t : AddrTable = table_at b i in
    let t' : AddrTable = freed_lock t a.cell_index in
    (
      set_adt b i t',
      ground (arith, adt_unlock-writing t a.cell_index vt live held),
      record {
        valid = record {
          sound =
              set_adt-IsSound b i t' v.sound inside (freed_lock-IsValid t a.cell_index vt live)
                (v.sound.caps i inside);
          listed_space = λ j h. ground (
            arith,
            table_at-set_adt b i t' v.sound inside j,
            Listed-set_adt b i t' v.sound inside j,
            v.listed_space j,
          );
          space_listed = λ j h. ground (
            arith,
            table_at-set_adt b i t' v.sound inside j,
            Listed-set_adt b i t' v.sound inside j,
            v.space_listed j,
          );
        };
        free_now = ground (
          arith,
          table_at-set_adt b i t' v.sound inside i,
          cell_at-freed_lock t a.cell_index vt live a.cell_index,
        );
        others = λ w ne. ground (
          arith,
          table_at-set_adt b i t' v.sound inside w.table_index,
          cell_at-freed_lock t a.cell_index vt live w.cell_index,
        );
      },
    )
