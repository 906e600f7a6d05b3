-- ===== src/AddrTable/Access.antt =====
-- gc_src/virt.c: `adt_get_read_p`, `adt_get_write_p` and `adt_unlock`.
use chvm.Base.{
  ℕ, ◌+◌, ◌<◌, ◌≡◌, refl, ◌≢◌, Bool, true, false, some, none, arith, if◌then◌else◌, length,
  get_or-set, set-set, set-get_or, get_or_past,
}
use chvm.Base.Result.{ok, exited, blocked}
use chvm.AddrTable.{
  AddrTable, Cell, Lock, unlocked, reading, writing, cell_at, set_cell, free_cell, unlock,
  adt_get_read_p, adt_get_write_p, adt_unlock,
}
use chvm.AddrTable.Inv.{IsValid}

pub allocated-lt-cap :
    (t : AddrTable) (i : ℕ) → IsValid t → (cell_at t i).allocated ≡ true → i < t.cap
allocated-lt-cap t i v a = ground (arith, get_or_past t.table i free_cell, v.cells)

-- The table while the lock of a cell is held as `l` says.
abbrev pub locked : AddrTable → ℕ → Lock → AddrTable
locked t i l = set_cell t i (record (cell_at t i) { lck = l })

-- To lock a cell and unlock it again gives the table back as it was.
pub unlock-locked :
    (t : AddrTable) (i : ℕ) (l : Lock)
    → i < length t.table
    → (cell_at t i).lck ≡ unlocked
    → set_cell (locked t i l) i (record (cell_at (locked t i l) i) { lck = unlocked }) ≡ t
unlock-locked t i l h e =
    let same : cell_at (locked t i l) i ≡ record (cell_at t i) { lck = l } =
      ground (arith, get_or-set t.table i i (record (cell_at t i) { lck = l }) free_cell) in
    let back : record (cell_at (locked t i l) i) { lck = unlocked } ≡ cell_at t i = ground arith in
    rw back (
      rw (
        set-set t.table i (record (cell_at t i) { lck = l }) (cell_at t i),
        set-get_or t.table i free_cell,
      ))

adt_unlock-locked :
    (t : AddrTable) (i : ℕ) (l : Lock)
    → IsValid t
    → (cell_at t i).allocated ≡ true
    → (cell_at t i).lck ≡ unlocked
    → unlock l ≡ ok unlocked
    → adt_unlock (locked t i l) i ≡ ok t
unfolding adt_unlock
adt_unlock-locked t i l v a e u =
    let inside = allocated-lt-cap t i v a in
    let c : Cell = record (cell_at t i) { lck = l } in
    let same : cell_at (locked t i l) i ≡ c =
      ground (arith, get_or-set t.table i i c free_cell, v.cells) in
    let free : unlock (cell_at (locked t i l) i).lck ≡ ok unlocked = rw same u in
    let back = unlock-locked t i l (omega (arith, v.cells)) e in rw free (ground arith)

-- `adt_get_write_p` of a valid table, on all its branches: of an allocated cell that nobody holds it gives the
-- address under the write lock, and `adt_unlock` then gives the table back as it was; where
-- somebody holds the cell it waits, or answers NULL if it may not; of an index that is not
-- allocated it ends the process.
pub adt_get_write_p_lem :
    (t : AddrTable) (i : ℕ) (blk : Bool)
    → IsValid t
    → ((cell_at t i).allocated ≡ false → adt_get_write_p t i blk ≡ exited)
      × ((cell_at t i).allocated ≡ true
          → (cell_at t i).lck ≢ unlocked
          → adt_get_write_p t i blk ≡ (if blk then blocked else ok (none, t)))
      × ((cell_at t i).allocated ≡ true
          → (cell_at t i).lck ≡ unlocked
          → (adt_get_write_p t i blk ≡ ok (some (cell_at t i).paddr, locked t i writing))
            × (adt_unlock (locked t i writing) i ≡ ok t))
unfolding adt_get_write_p adt_unlock
adt_get_write_p_lem t i blk v = (
  λ f. ground (arith, v.free_unlocked i),
  λ a l. ground (arith, allocated-lt-cap t i v a),
  λ a l. (ground (arith, allocated-lt-cap t i v a), adt_unlock-locked t i writing v a l refl),
)

-- `adt_get_read_p` of a valid table: readers share a cell, each has the address, and a writer keeps
-- them out: the call waits, or answers NULL if it may not. `adt_unlock` by a single reader gives the
-- table back as it was. An index that is not allocated ends the process.
pub adt_get_read_p_lem :
    (t : AddrTable) (i : ℕ) (blk : Bool)
    → IsValid t
    → ((cell_at t i).allocated ≡ false → adt_get_read_p t i blk ≡ exited)
      × ((cell_at t i).allocated ≡ true
          → (cell_at t i).lck ≡ writing
          → adt_get_read_p t i blk ≡ (if blk then blocked else ok (none, t)))
      × ((cell_at t i).allocated ≡ true
          → (cell_at t i).lck ≡ unlocked
          → (adt_get_read_p t i blk ≡ ok (some (cell_at t i).paddr, locked t i (reading 1)))
            × (adt_unlock (locked t i (reading 1)) i ≡ ok t))
      × ((n : ℕ)
          → (cell_at t i).allocated ≡ true
          → (cell_at t i).lck ≡ reading n
          → adt_get_read_p t i blk ≡ ok (some (cell_at t i).paddr, locked t i (reading (n + 1))))
unfolding adt_get_read_p adt_unlock
adt_get_read_p_lem t i blk v = (
  λ f. ground (arith, v.free_unlocked i),
  λ a l. ground (arith, allocated-lt-cap t i v a),
  λ a l. (ground (arith, allocated-lt-cap t i v a), adt_unlock-locked t i (reading 1) v a l refl),
  λ n a l. ground (arith, allocated-lt-cap t i v a),
)
