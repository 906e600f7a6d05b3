-- ===== src/MemBlock/Free.antt =====
-- gc_src/mb.c: a call of `mb_free`.
use chvm.Base.{
  ℕ, ◌+◌, ◌<◌, ◌≡◌, refl, inl, inr, true, false, Option, some, none, arith, ltb, if◌then◌else◌,
  Bool-cases, Option-cases,
}
use chvm.Base.Result.{ok}
use chvm.AddrTable.{unlocked}
use chvm.AddrBook.{Vaddr, AddrBook}
use chvm.AddrBook.Inv.{IsValid as IsValidBook, adb_cell}
use chvm.AddrBook.Free.{Released, adb_free_lem}
use chvm.AddrBook.Access.{adb_unlock-adb_get_read_p}
use chvm.MemBlock.{
  Piece, MemBlock, find_piece, mp_size, free_before, free_at, map_b_to_mp, mp_to_map_b,
  mb_coalesce_unsafe, mb_free,
}
use chvm.MemBlock.Neighbours.{free_before_lem, free_before-eq_some, find_piece-lt, piece_size}
use chvm.MemBlock.Take.{IsValid}
use chvm.MemBlock.Coalesce.{EndsFreeAt, StartsFreeAt, Coalesced, joined-Coalesced}

module _ (mb : MemBlock) (v : IsValid mb) (mp : ℕ) (p : Piece)
    (here : find_piece mp mb.pieces ≡ some p) (used : p.alloc ≡ true) where
  abbrev prev : Option Piece
  prev = if ltb mb.start mp then free_before mp mb.pieces else none

  abbrev next : Option Piece
  next = if ltb (mp + p.size) (mb.start + mb.cap) then free_at (mp + p.size) mb.pieces else none

  prev_lem :
      (r : Piece)
      → prev ≡ some r
      → (find_piece r.addr mb.pieces ≡ some r) × (r.addr + r.size ≡ mp) × (r.alloc ≡ false)
  prev_lem r e =
      let found : free_before mp mb.pieces ≡ some r = ground arith in
      let (there, meets, free, _, _) =
        free_before_lem mb.start mb.pieces (mb.start + mb.cap) mp r v.tiles found in
      (there, meets, free)

  next_lem :
      (n : Piece)
      → next ≡ some n
      → (find_piece (mp + p.size) mb.pieces ≡ some n) × (n.alloc ≡ false)
  next_lem n e = elim (Option-cases (find_piece (mp + p.size) mb.pieces)) [
    | inl gone ↦ absurd (ground arith)
    | inr (x, there) ↦ elim (Bool-cases x.alloc) [
      | inl taken ↦ absurd (ground arith)
      | inr free ↦ let same : x ≡ n = ground arith in rw (← same) (there, free)
    ]
  ]

  prev_all : (r : Piece) → EndsFreeAt mb mp r → prev ≡ some r
  prev_all r (there, free, ends) =
      let (lo, least) = piece_size mb.start mb.pieces (mb.start + mb.cap) r.addr r v.tiles there in
      let inside : ltb mb.start mp ≡ true = ground arith in
      rw inside
        (free_before-eq_some mb.start mb.pieces (mb.start + mb.cap) mp r v.tiles there free ends)

  next_all : (n : Piece) → StartsFreeAt mb (mp + p.size) n → next ≡ some n
  next_all n (there, free) =
      let inside : mp + p.size < mb.start + mb.cap =
        find_piece-lt mb.start mb.pieces (mb.start + mb.cap) (mp + p.size) n v.tiles there in
      ground arith

  -- `mb_coalesce_unsafe` of an allocated piece of a valid block is as `Coalesced` says: the block is valid again;
  -- one free piece has its bytes, together with those of the free piece that ends at it, if there is one, and of
  -- the free piece that starts behind it, if there is one; every other piece is as it was.
  pub mb_coalesce_unsafe_lem : Coalesced mb mp p (mb_coalesce_unsafe mb mp)
  unfolding mb_coalesce_unsafe
  mb_coalesce_unsafe_lem =
      let least = (piece_size mb.start mb.pieces (mb.start + mb.cap) mp p v.tiles here).1 in
      let size : mp_size mb.pieces mp ≡ p.size = rw here refl in
      rw size
        (joined-Coalesced mb v mp p here used least prev next prev_lem next_lem prev_all next_all)

  -- `mb_free` of a virtual address that names the body of an allocated piece of a valid block, with a valid
  -- address book in which nobody holds the address, returns: the piece is free and joined to its free neighbours as
  -- `Coalesced` says, and the address is released.
  pub mb_free_lem :
      (adb : AddrBook) (w : Vaddr)
      → IsValidBook adb
      → (adb_cell adb w).allocated ≡ true
      → (adb_cell adb w).lck ≡ unlocked
      → (adb_cell adb w).paddr ≡ mp_to_map_b mp
      → (mb' : MemBlock) × (adb' : AddrBook) × (mb_free mb adb w ≡ ok (mb', adb'))
        × Coalesced mb mp p mb'
        × Released adb w adb'
  unfolding mb_free
  mb_free_lem adb w vb live free body =
      let (adb1, get, back) = adb_unlock-adb_get_read_p adb w true vb live free in
      let (adb2, run, released) = (adb_free_lem adb w vb).2 live free in
      let piece : map_b_to_mp (adb_cell adb w).paddr ≡ mp = ground arith in
      (
        mb_coalesce_unsafe mb mp,
        adb2,
        rw (get, back, run, piece) refl,
        mb_coalesce_unsafe_lem,
        released,
      )
