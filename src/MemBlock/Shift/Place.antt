-- ===== src/MemBlock/Shift/Place.antt =====
-- gc_src/mb.c: where `mb_try_shift` puts the piece and the list.
use chvm.Base.{
  ℕ, ◌+◌, ◌≡◌, refl, sym, ◌∙◌, ◌≢◌, ◌↔◌, ◌⊎◌, inl, inr, true, false, Option, none, some, List,
  arith, ltb, if◌then◌else◌, Bool-cases, Option-cases, In,
}
use chvm.AddrBook.{Vaddr, null_vaddr}
use chvm.MemBlock.{
  Piece, MemBlock, find_piece, size_of, mp_init, mp_size, free_at, mb_add_to_size_unsafe,
  mb_remove_from_size_unsafe,
}
use chvm.MemBlock.Find.{find_piece-inside, In-mb_add_to_size_unsafe, mb_add_to_size_unsafe-IsNodup}
use chvm.MemBlock.Order.{
  IsSorted-same, mb_add_to_size_unsafe-IsSorted, mb_remove_from_size_unsafe-IsSorted,
  relink-IsSorted,
}
use chvm.MemBlock.Take.{IsValid}
use chvm.MemBlock.Neighbours.{
  find_piece-addr, piece_size, In-mb_remove_from_size_unsafe, mb_remove_from_size_unsafe-IsNodup,
}
use chvm.MemBlock.Shift.{block_end, place_pieces, shift_pieces, relink}
use chvm.MemBlock.Shift.Relink.{In-relink, relink-IsNodup}
use chvm.MemBlock.Shift.Valid.{Shifted, list-Shifted, kept-size, new-size}

-- An allocated piece stands behind a free one.
pub record IsShiftable (mb : MemBlock) (a : ℕ) (h p : Piece) : Type 0 where
  pub free_there : find_piece a mb.pieces ≡ some h
  pub free : h.alloc ≡ false
  pub used_there : find_piece (a + h.size) mb.pieces ≡ some p
  pub used : p.alloc ≡ true

module _ (mb : MemBlock) (v : IsValid mb) where
  module _ (a : ℕ) (h p : Piece) (w : Vaddr) (s : IsShiftable mb a h p) where
    p_addr : p.addr ≡ a + h.size
    p_addr = find_piece-addr (a + h.size) mb.pieces p s.used_there

    abbrev IsNext : Option Piece → Type 0
    IsNext next =
        (n : Piece)
        → next ≡ some n
        → (find_piece (p.addr + p.size) mb.pieces ≡ some n) × (n.alloc ≡ false)

    next_lem :
        IsNext (
          if ltb (p.addr + p.size) (block_end mb)
          then free_at (p.addr + p.size) mb.pieces
          else none)
    next_lem n e = elim (Option-cases (find_piece (p.addr + p.size) mb.pieces)) [
      | inl gone ↦ absurd (ground arith)
      | inr (x, there) ↦ elim (Bool-cases x.alloc) [
        | inl taken ↦ absurd (ground arith)
        | inr free ↦ let same : x ≡ n = ground arith in rw (← same) (there, free)
      ]
    ]

    on_list : In a mb.size_free_list
    on_list = v.all_free a h s.free_there s.free

    -- No free piece starts where the new one will.
    new_off : ¬ In (a + p.size) mb.size_free_list
    new_off m =
        let (x, there, free) = v.listed (a + p.size) m in
        ground (
          arith,
          s.used,
          s.free_there,
          s.used_there,
          find_piece-inside mb.start mb.pieces (mb.start + mb.cap) a (a + p.size) h v.tiles
              s.free_there,
          find_piece-inside mb.start mb.pieces (mb.start + mb.cap) (a + h.size) (a + p.size) p
              v.tiles s.used_there,
          piece_size mb.start mb.pieces (mb.start + mb.cap) a h v.tiles s.free_there,
          piece_size mb.start mb.pieces (mb.start + mb.cap) (a + h.size) p v.tiles s.used_there,
        )

    place_pieces-Shifted :
        (next : Option Piece) → IsNext next → Shifted mb a h p w (place_pieces mb a p w next)
    unfolding place_pieces
    place_pieces-Shifted none is_next =
        let size : mp_size mb.pieces a ≡ h.size + size_of none = rw s.free_there (omega arith) in
        let relinked : (b : ℕ)
            → In b (relink a (a + p.size) mb.size_free_list) ↔ (
                (b ≡ a + p.size)
                ⊎ (b ≢ a) × ((x : Piece) → none ≡ some x → b ≢ x.addr) × In b mb.size_free_list) =
          λ b.
            let mem = In-relink a (a + p.size) b mb.size_free_list v.nodup in
            (
              λ m. elim (mem.0 m) [
                | inl (new, _) ↦ inl new
                | inr (na, on) ↦ inr (na, λ x e. cc, on)
              ],
              λ m. mem.1 (elim m [ inl new ↦ inl (new, on_list) | inr (na, _, on) ↦ inr (na, on) ]),
            ) in
        rw size (
          list-Shifted mb v a h p w s.free_there s.free s.used_there s.used none is_next
            (relink a (a + p.size) mb.size_free_list)
            (
              relinked,
              relink-IsNodup a (a + p.size) mb.size_free_list new_off v.nodup,
              relink-IsSorted mb.pieces
                  (mp_init
                    (record {
                      addr = a + p.size;
                      size = h.size + size_of none;
                      alloc = false;
                      vaddr = null_vaddr;
                    })
                    (mp_init (record { addr = a; size = p.size; alloc = true; vaddr = w })
                      mb.pieces))
                  a (a + p.size)
                  (new-size mb v a h p w s.free_there s.free s.used_there s.used none is_next
                    ∙ sym size)
                  mb.size_free_list
                  (λ b on na.
                    kept-size mb v a h p w s.free_there s.free s.used_there s.used none is_next b on
                      na (λ y e. cc))
                  v.nodup v.sorted,
            ))
    place_pieces-Shifted (some n) is_next =
        let size : mp_size mb.pieces a ≡ h.size = rw s.free_there refl in
        let less : List ℕ = mb_remove_from_size_unsafe a mb.size_free_list in
        let is : List ℕ = mb_remove_from_size_unsafe n.addr less in
        let once = mb_remove_from_size_unsafe-IsNodup a mb.size_free_list v.nodup in
        let ps : List Piece =
          mp_init
            (record {
              addr = a + p.size;
              size = h.size + n.size;
              alloc = false;
              vaddr = null_vaddr;
            })
            (mp_init (record { addr = a; size = p.size; alloc = true; vaddr = w }) mb.pieces) in
        let kept : (b : ℕ) → In b is ↔ ((b ≢ n.addr) × (b ≢ a) × In b mb.size_free_list) = λ b.
          ground (
            arith,
            In-mb_remove_from_size_unsafe n.addr b less once,
            In-mb_remove_from_size_unsafe a b mb.size_free_list v.nodup,
          ) in
        let joined : (b : ℕ)
            → In b (mb_add_to_size_unsafe ps (a + p.size) is) ↔ (
                (b ≡ a + p.size)
                ⊎ (b ≢ a) × ((x : Piece) → some n ≡ some x → b ≢ x.addr) × In b mb.size_free_list) =
          λ b.
            let mem = In-mb_add_to_size_unsafe ps (a + p.size) b is in
            (
              λ m. elim (mem.0 m) [
                | inl new ↦ inl new
                | inr old ↦
                    let (nn, na, on) = (kept b).0 old in
                    inr (na, λ x e. let same : n ≡ x = ground arith in rw (← same) nn, on)
              ],
              λ m. mem.1 (elim m [
                | inl new ↦ inl new
                | inr (na, nn, on) ↦ inr ((kept b).1 (nn n refl, na, on))
              ]),
            ) in
        let off : ¬ In (a + p.size) is = λ m. new_off ((kept (a + p.size)).0 m).2 in
        rw size (
          list-Shifted mb v a h p w s.free_there s.free s.used_there s.used (some n) is_next
            (mb_add_to_size_unsafe ps (a + p.size) is)
            (
              joined,
              mb_add_to_size_unsafe-IsNodup ps (a + p.size) is off
                  (mb_remove_from_size_unsafe-IsNodup n.addr less once),
              mb_add_to_size_unsafe-IsSorted ps (a + p.size) is (
                  IsSorted-same mb.pieces ps is
                    (λ b m.
                      let (nn, na, on) = (kept b).0 m in
                      kept-size mb v a h p w s.free_there s.free s.used_there s.used (some n)
                        is_next b on na (λ y e. let same : n ≡ y = ground arith in rw (← same) nn))
                    (mb_remove_from_size_unsafe-IsSorted mb.pieces n.addr less (
                      mb_remove_from_size_unsafe-IsSorted mb.pieces a mb.size_free_list v.sorted))),
            ))

    pub shift_pieces-Shifted : Shifted mb a h p w (shift_pieces mb a p w)
    unfolding shift_pieces
    shift_pieces-Shifted =
        place_pieces-Shifted
          (if ltb (p.addr + p.size) (block_end mb)
            then free_at (p.addr + p.size) mb.pieces
            else none)
          next_lem
