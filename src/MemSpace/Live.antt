-- ===== src/MemSpace/Live.antt =====
-- gc_src/ms.c: the addresses that a space gave out and did not take back.
use chvm.Base.{
  ℕ, ◌+◌, ◌≤◌, ◌<◌, ◌≡◌, sym, ap, ◌∙◌, ◌≢◌, inl, inr, true, false, some, ◌∷◌, ◌++◌, [], arith,
  get_or, set, length, length-set, length-append, get_or-set, get_or-concat, ◌==◌, Bool-cases,
}
use mathlib.Core.Path.{subst}
use chvm.AddrTable.{Cell, unlocked}
use chvm.AddrBook.{Vaddr, eq_adb_addr}
use chvm.AddrBook.Inv.{adb_cell}
use chvm.MemBlock.{Piece, MallocRes, find_piece, map_padding, mp_to_map_b}
use chvm.MemSpace.{MemSpace, no_block, owner_of}
use chvm.MemSpace.Given.{Given}

-- The address `w` names the body of an allocated piece of a block of `ms`, nobody holds it, the piece bears
-- the address and has room for `n` bytes, and the pointer in front of the body leads to the block.
pub record Live (ms : MemSpace) (w : Vaddr) (n : ℕ) : Type 0 where
  pub index : ℕ
  pub place : ℕ
  pub piece : Piece
  pub live_cell :
      adb_cell ms.adb w ≡ record { lck = unlocked; allocated = true; paddr = mp_to_map_b place }
  pub owner : owner_of w ms.owners ≡ some index
  pub inside : index < length ms.mb_list
  pub there : find_piece place (get_or ms.mb_list index no_block).pieces ≡ some piece
  pub used : piece.alloc ≡ true
  pub bears : piece.vaddr ≡ w
  pub room : n + map_padding ≤ piece.size

module _ (ms : MemSpace) (start n : ℕ) (r : MallocRes) (ms' : MemSpace)
    (g : Given ms start n false r ms') where
  block_at : (g.index < length ms'.mb_list) × (get_or ms'.mb_list g.index no_block ≡ g.block)
  block_at = elim g.place [
    | inl (_, lt, _, e, _) ↦
        let size = length-set ms.mb_list g.index g.block in
        subst (λ bs. (g.index < length bs) × (get_or bs g.index no_block ≡ g.block)) (sym e)
          (omega arith, ground (arith, get_or-set ms.mb_list g.index g.index g.block no_block))
    | inr (_, e1, _, e, _) ↦
        subst (λ bs. (g.index < length bs) × (get_or bs g.index no_block ≡ g.block)) (sym e)
          (
            ground (arith, length-append ms.mb_list (g.block ∷ [])),
            ground (arith, get_or-concat ms.mb_list g.block g.index no_block),
          )
  ]

  -- The address that was given is live,
  pub Given-Live : Live ms' r.vaddr n
  Given-Live =
      let (inside, here) = block_at in
      let (q, there, used, bears, room) = g.allocated.piece in
      record {
        index = g.index;
        place = g.allocated.place;
        piece = q;
        live_cell = g.cell;
        owner = g.owner;
        inside = inside;
        there = rw here there;
        used = used;
        bears = bears ∙ sym g.same_vaddr;
        room = room;
      }

  -- and was not before.
  pub Given-fresh : (w : Vaddr) (k : ℕ) → Live ms w k → eq_adb_addr w r.vaddr ≡ false
  Given-fresh w k l = elim (Bool-cases (eq_adb_addr w r.vaddr)) [
    | inl same ↦
        let e : w ≡ r.vaddr = ground arith in
        let free : (adb_cell ms.adb r.vaddr).allocated ≡ false =
          ap (λ v. (adb_cell ms.adb v).allocated) g.same_vaddr ∙ g.allocated.stored.was_free in
        let busy : (adb_cell ms.adb w).allocated ≡ true =
          ap (λ (c : Cell). c.allocated) l.live_cell in
        absurd (cc)
    | inr other ↦ other
  ]

  -- The blocks of the other addresses hold their pieces as before.
  piece-kept :
      (i a : ℕ) (p : Piece)
      → i < length ms.mb_list
      → find_piece a (get_or ms.mb_list i no_block).pieces ≡ some p
      → p.alloc ≡ true
      → (i < length ms'.mb_list) × (find_piece a (get_or ms'.mb_list i no_block).pieces ≡ some p)
  piece-kept i a p lt there used =
      let (f, found, free) = g.allocated.was_free in
      elim g.place [
        | inl (_, inside, before, e, _) ↦
            let size = length-set ms.mb_list g.index g.block in
            subst (λ bs. (i < length bs) × (find_piece a (get_or bs i no_block).pieces ≡ some p))
              (sym e)
              (
                omega arith,
                elim (Bool-cases (g.index == i)) [
                  | inl here ↦
                      let same : g.index ≡ i = ground arith in
                      let at : get_or (set ms.mb_list g.index g.block) i no_block ≡ g.block =
                        ground (arith, get_or-set ms.mb_list g.index i g.block no_block) in
                      let old : find_piece a g.before.pieces ≡ some p = rw (before, same) there in
                      let apart : a ≢ g.allocated.place = λ e. ground arith in
                      rw at (g.allocated.others a p apart old)
                  | inr away ↦
                      let at : get_or (set ms.mb_list g.index g.block) i no_block
                          ≡ get_or ms.mb_list i no_block =
                        ground (arith, get_or-set ms.mb_list g.index i g.block no_block) in
                      rw at there
                ],
              )
        | inr (_, _, _, e, _) ↦
            let at : get_or (ms.mb_list ++ g.block ∷ []) i no_block ≡ get_or ms.mb_list i no_block =
              ground (arith, get_or-concat ms.mb_list g.block i no_block) in
            subst (λ bs. (i < length bs) × (find_piece a (get_or bs i no_block).pieces ≡ some p))
              (sym e) (omega (arith, length-append ms.mb_list (g.block ∷ [])), rw at there)
      ]

  pub Given-keeps : (w : Vaddr) (k : ℕ) → Live ms w k → Live ms' w k
  Given-keeps w k l =
      let other = Given-fresh w k l in
      let (inside, there) = piece-kept l.index l.place l.piece l.inside l.there l.used in
      record {
        index = l.index;
        place = l.place;
        piece = l.piece;
        live_cell = g.others w other ∙ l.live_cell;
        owner = g.other_owners w other ∙ l.owner;
        inside = inside;
        there = there;
        used = l.used;
        bears = l.bears;
        room = l.room;
      }
