-- ===== src/MemBlock/Tests.antt =====
-- Runs of the memory block of gc_src/mb.c.
use chvm.Base.{
  ltb, ◌-◌, inl, inr, ℕ, ◌+◌, ◌%◌, ◌≤◌, ◌<◌, ◌≡◌, refl, ◌≢◌, ◌⊎◌, true, false, some, [], ◌∷◌, arith,
}
use chvm.Base.Result.{ok}
use chvm.AddrBook.{null_vaddr, AddrBook, adb_null_index}
use chvm.AddrTable.{unlocked}
use chvm.Base.Memory.{Memory, IsMemmove, copy_bytes}
use chvm.MemBlock.Shift.{is_shifted, mb_try_shift, shift_success, busy, not_needed}
use chvm.MemBlock.Shift.Place.{IsShiftable}
use chvm.MemBlock.Shift.Into.{IsPlaced, Done}
use chvm.MemBlock.Shift.Correct.{mb_try_shift_lem}
use chvm.MemBlock.Shift.Full.{mb_try_full_shift, Kept, IsStuck, mb_try_full_shift_lem}
use chvm.AddrBook.Inv.{adb_cell, IsValid as IsValidBook, fresh_book-IsValid}
use chvm.MemBlock.{
  Piece, find_piece, mb_free, MemBlock, MallocRes, null_res, map_padding, mp_min_size,
  pad_num_bytes, new_mem_block, mb_malloc_p, mp_init, mb_coalesce_unsafe, mb_add_to_size_unsafe,
  mb_remove_from_size_unsafe,
}
use chvm.MemBlock.Sizes.{pad_num_bytes_lem}
use chvm.MemBlock.Take.{IsValid, new_mem_block-IsValid}
use chvm.AddrBook.Tests.{full_book, first, full_book-IsValid}
use chvm.AddrBook.Free.{Released}
use chvm.MemBlock.Coalesce.{Coalesced}
use chvm.MemBlock.Free.{mb_coalesce_unsafe_lem, mb_free_lem}
use chvm.MemBlock.Malloc.{Allocated, first_size, mb_malloc_p_lem}

abbrev block : MemBlock
block = new_mem_block 1000 101

block-IsValid : IsValid block
block-IsValid = (new_mem_block-IsValid 1000 101 (omega arith)).0

abbrev book : AddrBook
book = record { table_cap = 4; free_list = adb_null_index; book_cap = 1; book = [] }

book-IsValid : IsValidBook book
book-IsValid = fresh_book-IsValid 4 (omega arith)

-- The free piece at 40 joins its free neighbours.
abbrev three_pieces : MemBlock
three_pieces = record {
  start = 0;
  cap = 120;
  pieces =
      record { addr = 0; size = 40; alloc = false; vaddr = null_vaddr }
      ∷ record { addr = 40; size = 40; alloc = true; vaddr = null_vaddr }
      ∷ record { addr = 80; size = 40; alloc = false; vaddr = null_vaddr }
      ∷ [];
  size_free_list = 0 ∷ 80 ∷ [];
}

coalesce-three_pieces : mb_coalesce_unsafe three_pieces 40 ≡ record {
  start = 0;
  cap = 120;
  pieces = record { addr = 0; size = 120; alloc = false; vaddr = null_vaddr } ∷ [];
  size_free_list = 0 ∷ [];
}
unfolding mb_coalesce_unsafe mp_init mb_add_to_size_unsafe mb_remove_from_size_unsafe
coalesce-three_pieces = refl

abbrev middle : Piece
middle = record { addr = 40; size = 40; alloc = true; vaddr = null_vaddr }

three_pieces-IsValid : IsValid three_pieces
three_pieces-IsValid = record {
  tiles = (refl, omega arith, (refl, omega arith, (refl, omega arith, refl)));
  listed = λ a m. elim m [
    | inl first_one ↦
        rw first_one (record { addr = 0; size = 40; alloc = false; vaddr = null_vaddr }, refl, refl)
    | inr more ↦ elim more [
      | inl last_one ↦
          rw last_one
            (record { addr = 80; size = 40; alloc = false; vaddr = null_vaddr }, refl, refl)
      | inr none_left ↦ absurd none_left
    ]
  ];
  all_free = λ a p e f. ground arith;
  nodup = (λ m. ground arith, (λ m. m, tt));
  sorted = ((omega arith, tt), (tt, tt));
}

mb_coalesce_unsafe_lem_example :
    Coalesced three_pieces 40 middle (mb_coalesce_unsafe three_pieces 40)
mb_coalesce_unsafe_lem_example =
    mb_coalesce_unsafe_lem three_pieces three_pieces-IsValid 40 middle refl refl

mb_free_lem_example :
    (mb' : MemBlock) × (adb' : AddrBook) × (mb_free three_pieces full_book first ≡ ok (mb', adb'))
    × Coalesced three_pieces 40 middle mb'
    × Released full_book first adb'
mb_free_lem_example =
    mb_free_lem three_pieces three_pieces-IsValid 40 middle refl refl full_book first
      full_book-IsValid refl refl refl

pad_num_bytes_lem_example :
    (5 + map_padding ≤ pad_num_bytes 5)
    × (mp_min_size ≤ pad_num_bytes 5)
    × (pad_num_bytes 5 % 2 ≡ 0)
    × ((k : ℕ) → 5 + map_padding ≤ k → mp_min_size ≤ k → k % 2 ≡ 0 → pad_num_bytes 5 ≤ k)
pad_num_bytes_lem_example = pad_num_bytes_lem 5 (omega arith)

new_mem_block-IsValid_example :
    IsValid (new_mem_block 1000 101)
    × ((p : Piece) × ((new_mem_block 1000 101).pieces ≡ p ∷ [])
        × (p.addr ≡ 1000)
        × (p.size ≡ (new_mem_block 1000 101).cap)
        × (p.alloc ≡ false)
        × (101 + map_padding ≤ p.size))
    × ((new_mem_block 1000 101).size_free_list ≡ 1000 ∷ [])
new_mem_block-IsValid_example = new_mem_block-IsValid 1000 101 (omega arith)

abbrev five : ℕ
five = 5

mb_malloc_p_lem_example :
    ((five ≡ 0) ⊎ (first_size block < pad_num_bytes five)
      → mb_malloc_p block book five true ≡ ok (null_res, block, book))
    × (five ≢ 0
        → pad_num_bytes five ≤ first_size block
        → (r : MallocRes) × (mb' : MemBlock) × (adb' : AddrBook) × (mb_malloc_p block book five true
            ≡ ok (r, mb', adb'))
          × Allocated block book five true r mb' adb')
    × ((a : ℕ) (p : Piece)
        → find_piece a block.pieces ≡ some p
        → p.alloc ≡ false
        → p.size ≤ first_size block)
mb_malloc_p_lem_example =
    mb_malloc_p_lem block book five true block-IsValid book-IsValid (omega arith) (omega arith)

-- The piece in the middle, which the book knows, moves to the front.
abbrev client : Piece
client = record { addr = 40; size = 40; alloc = true; vaddr = first }

abbrev gap : MemBlock
gap = record {
  start = 0;
  cap = 120;
  pieces =
      record { addr = 0; size = 40; alloc = false; vaddr = null_vaddr }
      ∷ client
      ∷ record { addr = 80; size = 40; alloc = false; vaddr = null_vaddr }
      ∷ [];
  size_free_list = 0 ∷ 80 ∷ [];
}

gap-IsValid : IsValid gap
gap-IsValid = record {
  tiles = (refl, omega arith, (refl, omega arith, (refl, omega arith, refl)));
  listed = λ a m. elim m [
    | inl first_one ↦
        rw first_one (record { addr = 0; size = 40; alloc = false; vaddr = null_vaddr }, refl, refl)
    | inr more ↦ elim more [
      | inl last_one ↦
          rw last_one
            (record { addr = 80; size = 40; alloc = false; vaddr = null_vaddr }, refl, refl)
      | inr none_left ↦ absurd none_left
    ]
  ];
  all_free = λ a p e f. ground arith;
  nodup = (λ m. ground arith, (λ m. m, tt));
  sorted = ((omega arith, tt), (tt, tt));
}

gap-IsPlaced : IsPlaced gap full_book
gap-IsPlaced = record {
  live = λ b x found used.
      let piece : client ≡ x = ground arith in
      let at : b ≡ 40 = ground arith in rw (← piece, at) (refl, refl);
}

copy_bytes-IsMemmove : IsMemmove copy_bytes
copy_bytes-IsMemmove = record {
  copied = λ dest src n m i lt.
      let t1 : ltb (dest + i) dest ≡ false = ground arith in
      let t2 : ltb (dest + i) (dest + n) ≡ true = ground arith in
      let t3 : dest + i - dest ≡ i = omega arith in rw (t1, t2, t3) refl;
  kept = λ dest src n m a out. elim out [
    | inl before ↦ let t1 : ltb a dest ≡ true = ground arith in rw t1 refl
    | inr after ↦
        let t1 : ltb a dest ≡ false = ground arith in
        let t2 : ltb a (dest + n) ≡ false = ground arith in rw (t1, t2) refl
  ];
}

abbrev bytes : Memory
bytes a = a

mb_try_shift_lem_example :
    ((is_shifted gap ≡ true)
      × (mb_try_shift copy_bytes gap full_book bytes ≡ ok (not_needed, gap, full_book, bytes)))
    ⊎ ((is_shifted gap ≡ false)
        × ((a : ℕ) (h p : Piece)
            → IsShiftable gap a h p
            → (adb_cell full_book p.vaddr).lck ≢ unlocked)
        × (mb_try_shift copy_bytes gap full_book bytes ≡ ok (busy, gap, full_book, bytes)))
    ⊎ ((a : ℕ) × (h : Piece) × (p : Piece) × (mb' : MemBlock) × (adb' : AddrBook) × (mem' : Memory)
        × (mb_try_shift copy_bytes gap full_book bytes ≡ ok (shift_success, mb', adb', mem'))
        × IsShiftable gap a h p
        × ((adb_cell full_book p.vaddr).lck ≡ unlocked)
        × Done gap full_book bytes a h p mb' adb' mem')
mb_try_shift_lem_example =
    mb_try_shift_lem copy_bytes copy_bytes-IsMemmove gap gap-IsValid full_book full_book-IsValid
      bytes gap-IsPlaced

mb_try_full_shift_lem_example :
    (mb' : MemBlock) × (adb' : AddrBook) × (mem' : Memory) × (mb_try_full_shift copy_bytes gap
        full_book bytes
      ≡ ok (mb', adb', mem'))
    × Kept gap full_book bytes mb' adb' mem'
    × IsStuck mb' adb'
mb_try_full_shift_lem_example =
    mb_try_full_shift_lem copy_bytes gap full_book bytes copy_bytes-IsMemmove gap-IsValid
      full_book-IsValid gap-IsPlaced
