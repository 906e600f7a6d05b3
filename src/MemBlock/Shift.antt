-- ===== src/MemBlock/Shift.antt =====
-- gc_src/mb.c: `mb_try_shift`, which moves an allocated piece into the free piece in front of it. The
-- memory holds the bytes of the bodies; headers and footers are the pieces. Locks that users hold
-- are in the address book.
pub mod Pieces
pub mod Relink
pub mod Valid
pub mod Place
pub mod Into
pub mod Correct
pub mod Weight
pub mod Full
use chvm.Base.{
  ℕ, ◌+◌, ◌-◌, ◌≡◌, Bool, true, false, not, ◌&&◌, Option, none, some, List, [], ◌∷◌, ltb, ◌==◌,
  if◌then◌else◌,
}
use chvm.Base.Memory.{Memory, Memmove}
use chvm.Base.Result.{Result, ok, fault, ◌>>=◌}
use chvm.AddrBook.{Vaddr, null_vaddr, AddrBook, adb_get_write_p, adb_unlock}
use chvm.AddrBook.Move.{adb_move_p}
use chvm.MemBlock.{
  Piece, MemBlock, map_padding, mp_to_map_b, find_piece, mp_size, mp_init, free_at,
  mb_add_to_size_unsafe, mb_remove_from_size_unsafe,
}

-- `mb_shift_res`
pub data ShiftRes : Type 0 where
  shift_success busy not_needed : ShiftRes

abbrev pub block_end : MemBlock → ℕ
block_end mb = mb.start + mb.cap

-- The second and the third condition of the loop: the piece is allocated, and its lock is to be had.
pub try_next :
    ℕ
    → Piece
    → AddrBook
    → Result (Option (ℕ × Piece) × AddrBook)
    → Result (Option (ℕ × Piece) × AddrBook)
try_next og_free p adb rest =
    if p.alloc
    then (adb_get_write_p adb p.vaddr false >>= λ (got, adb'). elim got [
      | none ↦ rest
      | some _ ↦ ok (some (og_free, p), adb')
    ])
    else rest

-- The loop over the list of free pieces: the first one in front of an allocated piece whose lock is
-- to be had, with that piece.
pub find_shiftable : List ℕ → MemBlock → AddrBook → Result (Option (ℕ × Piece) × AddrBook)
unfolding try_next
find_shiftable [] mb adb = ok (none, adb)
find_shiftable (og_free ∷ is) mb adb =
    let rest = find_shiftable is mb adb in
    let og_next = og_free + mp_size mb.pieces og_free in
    if ltb og_next (block_end mb)
    then elim (find_piece og_next mb.pieces) [ none ↦ fault | some p ↦ try_next og_free p adb rest ]
    else rest

-- The new free piece takes the place of the old one in the list.
unfoldable pub relink : ℕ → ℕ → List ℕ → List ℕ
relink a b [] = []
relink a b (i ∷ is) = if i == a then b ∷ is else i ∷ relink a b is

abbrev pub vaddr_or_null : Option Vaddr → Vaddr
vaddr_or_null none = null_vaddr
vaddr_or_null (some v) = v

-- The pieces and the list when the piece `p` behind the free one at `og_free` stands there instead;
-- `next` is the free piece behind the two.
pub place_pieces : MemBlock → ℕ → Piece → Vaddr → Option Piece → MemBlock
place_pieces mb og_free p vaddr next =
    let og_free_size = mp_size mb.pieces og_free in
    let new_alloc : Piece = record { addr = og_free; size = p.size; alloc = true; vaddr = vaddr } in
    let with_alloc = mp_init new_alloc mb.pieces in
    let new_free = og_free + p.size in
    elim next [
      | some n ↦
          let pieces =
            mp_init
              (record {
                addr = new_free;
                size = og_free_size + n.size;
                alloc = false;
                vaddr = null_vaddr;
              })
              with_alloc in
          let unlisted =
            mb_remove_from_size_unsafe n.addr
              (mb_remove_from_size_unsafe og_free mb.size_free_list) in
          record mb {
            pieces = pieces;
            size_free_list = mb_add_to_size_unsafe pieces new_free unlisted;
          }
      | none ↦ record mb {
        pieces =
            mp_init
              (record { addr = new_free; size = og_free_size; alloc = false; vaddr = null_vaddr })
              with_alloc;
        size_free_list = relink og_free new_free mb.size_free_list;
      }
    ]

pub shift_pieces : MemBlock → ℕ → Piece → Vaddr → MemBlock
unfolding place_pieces
shift_pieces mb og_free p vaddr =
    let og_next_next = p.addr + p.size in
    place_pieces mb og_free p vaddr
      (if ltb og_next_next (block_end mb) then free_at og_next_next mb.pieces else none)

-- What is done once the lock of `p` is held.
pub shift_into :
    Memmove
    → MemBlock
    → AddrBook
    → Memory
    → ℕ
    → Piece
    → Result (ShiftRes × MemBlock × AddrBook × Memory)
shift_into memmove mb adb mem og_free p = do
  (written, moved, adb1) ←
      adb_move_p memmove false adb p.vaddr (mp_to_map_b og_free) (p.size - map_padding) true mem
  adb2 ← adb_unlock adb1 p.vaddr
  ok (shift_success, shift_pieces mb og_free p (vaddr_or_null written), adb2, moved)

-- One free piece is left, and it is at the end of the block.
pub is_shifted : MemBlock → Bool
is_shifted mb = elim mb.size_free_list [
  | [] ↦ true
  | a ∷ is ↦ elim is [ [] ↦ not (ltb (a + mp_size mb.pieces a) (block_end mb)) | _ ∷ _ ↦ false ]
]

pub mb_try_shift :
    Memmove → MemBlock → AddrBook → Memory → Result (ShiftRes × MemBlock × AddrBook × Memory)
mb_try_shift memmove mb adb mem = if is_shifted mb then ok (not_needed, mb, adb, mem) else do
  (found, adb1) ← find_shiftable mb.size_free_list mb adb
  elim found [
    | none ↦ ok (busy, mb, adb1, mem)
    | some (og_free, p) ↦ shift_into memmove mb adb1 mem og_free p
  ]
