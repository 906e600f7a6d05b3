-- ===== src/MemBlock/Shift/Weight.antt =====
-- gc_src/mb.c: a shift moves allocated pieces towards the start of the block.
use chvm.Base.{
  ℕ, ◌+◌, ◌≤◌, ◌<◌, ◌≡◌, refl, sym, ap, ◌∙◌, inl, inr, true, false, Option, none, some, List, [],
  ◌∷◌, arith, ltb, ◌==◌, if◌then◌else◌, Bool-cases,
}
use mathlib.Core.Path.{subst}
use chvm.AddrBook.{Vaddr, null_vaddr}
use chvm.MemBlock.{free_at, Piece, MemBlock, find_piece, mp_init, mp_size, mp_min_size}
use chvm.MemBlock.Tiles.{Tiles, edge-le}
use chvm.MemBlock.Shift.{block_end, place_pieces, shift_pieces}
use chvm.MemBlock.Shift.Pieces.{past, move-pieces}
use chvm.MemBlock.Neighbours.{find_piece-addr, piece_size}
use chvm.MemBlock.Take.{IsValid}
use chvm.MemBlock.Shift.Place.{IsShiftable}

-- The sum of the addresses of the allocated pieces.
abbrev pub weight : List Piece → ℕ
weight [] = 0
weight (p ∷ ps) = if p.alloc then p.addr + weight ps else weight ps

weight-past : (e : ℕ) (ps : List Piece) → weight (past e ps) ≤ weight ps
unfolding past
weight-past e [] = omega arith
weight-past e (p ∷ ps) = ground (arith, weight-past e ps)

weight_head :
    (s : ℕ) (ps : List Piece) (e to : ℕ) (p : Piece)
    → Tiles s ps e
    → find_piece s ps ≡ some p
    → p.alloc ≡ true
    → p.addr < to
    → p.addr + weight (past to ps) ≤ weight ps
unfolding past
weight_head s [] e to p t here used lt = cc
weight_head s (y ∷ ys) e to p (at, big, t) here used lt =
    let piece : y ≡ p = ground arith in
    let addr : y.addr ≡ p.addr = ap (λ (x : Piece). x.addr) piece in
    let flag : y.alloc ≡ true = ap (λ (x : Piece). x.alloc) piece ∙ used in
    ground (arith, weight-past to ys)

module _ (h p q r : Piece) (free : h.alloc ≡ false) (used : p.alloc ≡ true)
    (q_used : q.alloc ≡ true) (r_free : r.alloc ≡ false) (q_size : mp_min_size ≤ q.size)
    (r_size : h.size ≤ r.size) (at_q : q.addr ≡ h.addr) (next : r.addr ≡ q.addr + q.size) where
  weight-move :
      (s : ℕ) (ps : List Piece) (e : ℕ)
      → Tiles s ps e
      → find_piece h.addr ps ≡ some h
      → find_piece (h.addr + h.size) ps ≡ some p
      → mp_min_size ≤ h.size
      → weight (mp_init r (mp_init q ps)) < weight ps
  unfolding mp_init past
  weight-move s [] e t at_h at_p m = cc
  weight-move s (x ∷ ps) e (at, big, t) at_h at_p m = elim (Bool-cases (x.addr == h.addr)) [
    | inl here ↦
        let piece : x ≡ h = ground arith in
        let addr : x.addr ≡ h.addr = ap (λ (x : Piece). x.addr) piece in
        let size : x.size ≡ h.size = ap (λ (x : Piece). x.size) piece in
        let flag : x.alloc ≡ false = ap (λ (x : Piece). x.alloc) piece ∙ free in
        let moved =
          move-pieces q r s (x ∷ ps) e next (omega (arith, q_size)) (at, big, t) (omega arith) in
        let there : find_piece (s + x.size) ps ≡ some p = ground arith in
        let p_at : p.addr ≡ s + x.size = find_piece-addr (s + x.size) ps p there in
        let more = weight_head (s + x.size) ps e (r.addr + r.size) p t there used (omega arith) in
        let cut : ltb x.addr (r.addr + r.size) ≡ true = ground arith in
        rw moved (rw cut (ground arith))
    | inr away ↦
        let reach = edge-le (s + x.size) ps e h.addr t (inr (ground arith)) in
        let b1 : ltb x.addr q.addr ≡ true = ground arith in
        let b2 : ltb x.addr r.addr ≡ true = ground arith in
        rw (b1, b2) (ground (arith, weight-move (s + x.size) ps e t))
  ]

module _ (mb : MemBlock) (a : ℕ) (h p : Piece) (w : Vaddr) (v : IsValid mb)
    (s : IsShiftable mb a h p) where
  weight-placed :
      (n : ℕ)
      → weight (
          mp_init
            (record { addr = a + p.size; size = h.size + n; alloc = false; vaddr = null_vaddr })
            (mp_init (record { addr = a; size = p.size; alloc = true; vaddr = w }) mb.pieces))
        < weight mb.pieces
  weight-placed n =
      let stop : ℕ = mb.start + mb.cap in
      let addr = find_piece-addr a mb.pieces h s.free_there in
      let (_, h_size) = piece_size mb.start mb.pieces stop a h v.tiles s.free_there in
      let (_, p_size) = piece_size mb.start mb.pieces stop (a + h.size) p v.tiles s.used_there in
      weight-move h p (record { addr = a; size = p.size; alloc = true; vaddr = w })
        (record { addr = a + p.size; size = h.size + n; alloc = false; vaddr = null_vaddr }) s.free
        s.used refl refl p_size (omega arith) (sym addr) refl mb.start mb.pieces stop v.tiles
        (subst (λ n. find_piece n mb.pieces ≡ some h) (sym addr) s.free_there)
        (subst (λ n. find_piece (n + h.size) mb.pieces ≡ some p) (sym addr) s.used_there) h_size

  weight-place_pieces :
      (next : Option Piece) → weight (place_pieces mb a p w next).pieces < weight mb.pieces
  unfolding place_pieces
  weight-place_pieces none =
      let size : mp_size mb.pieces a ≡ h.size + 0 = rw s.free_there (omega arith) in
      rw size (weight-placed 0)
  weight-place_pieces (some n) =
      let size : mp_size mb.pieces a ≡ h.size = rw s.free_there refl in
      rw size (weight-placed n.size)

  pub weight-shift_pieces : weight (shift_pieces mb a p w).pieces < weight mb.pieces
  unfolding shift_pieces
  weight-shift_pieces =
      weight-place_pieces
        (if ltb (p.addr + p.size) (block_end mb) then free_at (p.addr + p.size) mb.pieces else none)
