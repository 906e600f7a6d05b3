-- ===== src/MemBlock/Shift/Into.antt =====
-- gc_src/mb.c: the move that `mb_try_shift` makes.
use chvm.Base.{
  ℕ, ◌+◌, ◌-◌, ◌≤◌, ◌<◌, ◌≡◌, refl, ap, ◌∙◌, ◌≢◌, ◌⊎◌, inl, inr, true, false, some, arith, ◌==◌,
  Bool-cases,
}
use chvm.Base.Memory.{Memory, Memmove, IsMemmove}
use chvm.Base.Result.{ok}
use chvm.AddrTable.{unlocked}
use chvm.AddrBook.{AddrBook, eq_adb_addr, adb_get_write_p}
use chvm.AddrBook.Inv.{IsValid as IsValidBook, adb_cell}
use chvm.AddrBook.Move.{Placed, adb_move_p_lem}
use chvm.MemBlock.{Piece, MemBlock, find_piece, mp_to_map_b, map_padding}
use chvm.MemBlock.Find.{find_piece-inside}
use chvm.MemBlock.Take.{IsValid}
use chvm.MemBlock.Neighbours.{find_piece-addr}
use chvm.MemBlock.Shift.{shift_success, shift_pieces, shift_into}
use chvm.MemBlock.Shift.Valid.{Shifted}
use chvm.MemBlock.Shift.Weight.{weight, weight-shift_pieces}
use chvm.MemBlock.Shift.Place.{IsShiftable, shift_pieces-Shifted}

-- The address book maps the virtual address in each allocated piece to its body.
pub record IsPlaced (mb : MemBlock) (adb : AddrBook) : Type 0 where
  pub live :
      (b : ℕ) (x : Piece)
      → find_piece b mb.pieces ≡ some x
      → x.alloc ≡ true
      → ((adb_cell adb x.vaddr).allocated ≡ true) × ((adb_cell adb x.vaddr).paddr ≡ mp_to_map_b b)

-- What a shift of the piece `p` did: it is nearer to the start. Each allocated piece keeps its virtual address, its size and the bytes of
-- its body, and the address book maps the address to where the body is.
pub record Done (mb : MemBlock) (adb : AddrBook) (mem : Memory) (a : ℕ) (h p : Piece)
    (mb' : MemBlock) (adb' : AddrBook) (mem' : Memory) : Type 0 where
  pub shifted : Shifted mb a h p p.vaddr mb'
  pub book : Placed adb p.vaddr (mp_to_map_b a) adb'
  pub placed : IsPlaced mb' adb'
  pub lighter : weight mb'.pieces < weight mb.pieces
  pub bytes :
      (b : ℕ) (x : Piece)
      → find_piece b mb.pieces ≡ some x
      → x.alloc ≡ true
      → (c : ℕ) × (find_piece c mb'.pieces ≡ some (record x { addr = c }))
        × ((i : ℕ) → i < x.size - map_padding → mem' (mp_to_map_b c + i) ≡ mem (mp_to_map_b b + i))

module _ (memmove : Memmove) (mm : IsMemmove memmove) (mb : MemBlock) (v : IsValid mb)
    (adb : AddrBook) (vb : IsValidBook adb) (mem : Memory) (pl : IsPlaced mb adb) where
  abbrev stop : ℕ
  stop = mb.start + mb.cap

  module _ (a : ℕ) (h p : Piece) (s : IsShiftable mb a h p) where
    p_live :
        ((adb_cell adb p.vaddr).allocated ≡ true)
        × ((adb_cell adb p.vaddr).paddr ≡ mp_to_map_b (a + h.size))
    p_live = pl.live (a + h.size) p s.used_there s.used

    abbrev pub mb_to : MemBlock
    mb_to = shift_pieces mb a p p.vaddr

    sh : Shifted mb a h p p.vaddr mb_to
    sh = shift_pieces-Shifted mb v a h p p.vaddr s

    p_addr : p.addr ≡ a + h.size
    p_addr = find_piece-addr (a + h.size) mb.pieces p s.used_there

    moved-IsPlaced :
        (adb' : AddrBook) → Placed adb p.vaddr (mp_to_map_b a) adb' → IsPlaced mb_to adb'
    moved-IsPlaced adb' b = record {
      live = λ c x found used. elim (Bool-cases (c == a)) [
        | inl at_a ↦ ground (arith, sh.moved, b.moved, p_live)
        | inr away ↦
            let (np, old) = sh.back c x (λ same. ground arith) used found in
            let (live, there) = pl.live c x old used in
            let other : eq_adb_addr x.vaddr p.vaddr ≡ false = ground (arith, p_live, p_addr) in
            ground (arith, b.others x.vaddr)
      ];
    }

    abbrev pub mem_to : Memory
    mem_to = memmove (mp_to_map_b a) (adb_cell adb p.vaddr).paddr (p.size - map_padding) mem

    -- An allocated piece that is not moved lies on one side of the two.
    apart :
        (b : ℕ) (x : Piece)
        → find_piece b mb.pieces ≡ some x
        → x.alloc ≡ true
        → b ≢ p.addr
        → (b + x.size ≤ a) ⊎ (a + h.size + p.size ≤ b)
    apart b x found used np = ground (
      arith,
      s.free_there,
      s.free,
      p_addr,
      find_piece-inside mb.start mb.pieces stop b a x v.tiles found,
      find_piece-inside mb.start mb.pieces stop a b h v.tiles s.free_there,
      find_piece-inside mb.start mb.pieces stop (a + h.size) b p v.tiles s.used_there,
    )

    bytes_lem :
        (b : ℕ) (x : Piece)
        → find_piece b mb.pieces ≡ some x
        → x.alloc ≡ true
        → (c : ℕ) × (find_piece c mb_to.pieces ≡ some (record x { addr = c }))
          × ((i : ℕ)
              → i < x.size - map_padding
              → mem_to (mp_to_map_b c + i) ≡ mem (mp_to_map_b b + i))
    bytes_lem b x found used = elim (Bool-cases (b == p.addr)) [
      | inl is_p ↦
          let b_is : b ≡ a + h.size = ground (arith, p_addr) in
          let same : p ≡ x = ground (arith, s.used_there) in
          let src : (adb_cell adb p.vaddr).paddr ≡ mp_to_map_b b = ground (arith, p_live) in
          (
            a,
            ground (arith, sh.moved),
            λ i lt.
                let short : i < p.size - map_padding = rw same lt in
                mm.copied (mp_to_map_b a) (adb_cell adb p.vaddr).paddr (p.size - map_padding) mem i
                  short
                ∙ ap (λ n. mem (n + i)) src,
          )
      | inr other ↦
          let np : b ≢ p.addr = λ same. ground arith in
          let addr = find_piece-addr b mb.pieces x found in
          (
            b,
            ground (arith, sh.others b x np used found),
            λ i lt.
                mm.kept (mp_to_map_b a) (adb_cell adb p.vaddr).paddr (p.size - map_padding) mem
                  (mp_to_map_b b + i) (ground (arith, apart b x found used np)),
          )
    ]

    -- The lock that the search took is given back after the move.
    pub shift_into_lem :
        (adb_cell adb p.vaddr).lck ≡ unlocked
        → (adb1 : AddrBook) × (adb' : AddrBook) × (adb_get_write_p adb p.vaddr false
            ≡ ok (some (adb_cell adb p.vaddr).paddr, adb1))
          × (shift_into memmove mb adb1 mem a p ≡ ok (shift_success, mb_to, adb', mem_to))
          × Done mb adb mem a h p mb_to adb' mem_to
    unfolding shift_into
    shift_into_lem free =
        let (adb1, adb2, adb3, get, move, back, placed) =
          adb_move_p_lem adb p.vaddr vb p_live.0 memmove (mp_to_map_b a) (p.size - map_padding) mem
            free in
        (
          adb1,
          adb3,
          get,
          rw (move, back) refl,
          record {
            shifted = sh;
            book = placed;
            placed = moved-IsPlaced adb3 placed;
            lighter = weight-shift_pieces mb a h p p.vaddr v s;
            bytes = bytes_lem;
          },
        )
