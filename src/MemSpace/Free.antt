-- ===== src/MemSpace/Free.antt =====
-- gc_src/ms.c: a call of `ms_free`.
use chvm.Base.{
  ℕ, ◌<◌, ◌≡◌, refl, sym, ap, ◌∙◌, ◌≢◌, inl, inr, true, false, some, arith, get_or, set, length,
  length-set, get_or-set, ◌==◌, Bool-cases,
}
use mathlib.Core.Path.{subst}
use chvm.Base.Result.{ok}
use chvm.AddrTable.{Cell, unlocked}
use chvm.AddrBook.{Vaddr, eq_adb_addr}
use chvm.AddrBook.Inv.{adb_cell}
use chvm.AddrBook.Access.{adb_unlock-adb_get_read_p}
use chvm.AddrBook.Free.{Released}
use chvm.MemBlock.{MemBlock, Piece, find_piece, mp_to_map_b}
use chvm.MemBlock.Take.{IsValid as IsValidBlock}
use chvm.MemBlock.Coalesce.{Coalesced}
use chvm.MemBlock.Free.{mb_free_lem}
use chvm.MemSpace.{MemSpace, no_block, owner_of, ms_free}
use chvm.MemSpace.Throw.{IsValid}
use chvm.MemSpace.Live.{Live}

-- The live address `w` was given back: it is free, every other address stands for what it did, its piece is free
-- and joined to its free neighbours, as `Coalesced` says, and all other blocks are as they were.
pub record GivenBack (ms : MemSpace) (w : Vaddr) (n : ℕ) (l : Live ms w n) (ms' : MemSpace)
    : Type 0 where
  pub released : Released ms.adb w ms'.adb
  pub freed :
      Coalesced
        (get_or ms.mb_list l.index no_block)
        l.place
        l.piece
        (get_or ms'.mb_list l.index no_block)
  pub other_blocks :
      (j : ℕ) → j ≢ l.index → get_or ms'.mb_list j no_block ≡ get_or ms.mb_list j no_block
  pub same_length : length ms'.mb_list ≡ length ms.mb_list
  pub same_cap : ms'.mb_list_cap ≡ ms.mb_list_cap
  pub same_owners : ms'.owners ≡ ms.owners

module _ (ms : MemSpace) (v : IsValid ms) (w : Vaddr) (n : ℕ) (l : Live ms w n) where
  abbrev this : MemBlock
  this = get_or ms.mb_list l.index no_block

  set-valid :
      (mb : MemBlock)
      → IsValidBlock mb
      → (j : ℕ) → j < length (set ms.mb_list l.index mb)
      → IsValidBlock (get_or (set ms.mb_list l.index mb) j no_block)
  set-valid mb vm j h = elim (Bool-cases (l.index == j)) [
    | inl here ↦
        let at : get_or (set ms.mb_list l.index mb) j no_block ≡ mb =
          ground (arith, get_or-set ms.mb_list l.index j mb no_block) in
        subst IsValidBlock (sym at) vm
    | inr other ↦
        let at : get_or (set ms.mb_list l.index mb) j no_block ≡ get_or ms.mb_list j no_block =
          ground (arith, get_or-set ms.mb_list l.index j mb no_block) in
        let size = length-set ms.mb_list l.index mb in
        let old : j < length ms.mb_list = ground (arith, size) in
        subst IsValidBlock (sym at) (v.blocks j old)
  ]

  -- A space takes a live address back.
  pub ms_free-Live :
      (ms' : MemSpace) × (ms_free ms w ≡ ok ms') × IsValid ms' × GivenBack ms w n l ms'
  unfolding ms_free
  ms_free-Live =
      let live : (adb_cell ms.adb w).allocated ≡ true =
        ap (λ (c : Cell). c.allocated) l.live_cell in
      let free : (adb_cell ms.adb w).lck ≡ unlocked = ap (λ (c : Cell). c.lck) l.live_cell in
      let body : (adb_cell ms.adb w).paddr ≡ mp_to_map_b l.place =
        ap (λ (c : Cell). c.paddr) l.live_cell in
      let (adb1, get, back) = adb_unlock-adb_get_read_p ms.adb w true v.book live free in
      let (mb, adb2, run, c, rel) =
        mb_free_lem this (v.blocks l.index l.inside) l.place l.piece l.there l.used ms.adb w v.book
          live free body in
      (
        record ms { adb = adb2; mb_list = set ms.mb_list l.index mb },
        rw (get, l.owner, back, run) refl,
        record {
          book = rel.valid;
          some_block = omega (arith, v.some_block, length-set ms.mb_list l.index mb);
          in_cap = omega (arith, v.in_cap, length-set ms.mb_list l.index mb);
          blocks = set-valid mb c.valid;
        },
        record {
          released = rel;
          freed =
              let at : get_or (set ms.mb_list l.index mb) l.index no_block ≡ mb =
                ground (arith, l.inside, get_or-set ms.mb_list l.index l.index mb no_block) in
              rw at c;
          other_blocks = λ j ne. ground (arith, get_or-set ms.mb_list l.index j mb no_block);
          same_length = length-set ms.mb_list l.index mb;
          same_cap = refl;
          same_owners = refl;
        },
      )

  -- What was given back leaves the other live addresses live.
  module _ (ms' : MemSpace) (g : GivenBack ms w n l ms') (u : Vaddr) (k : ℕ) (m : Live ms u k)
      (other : eq_adb_addr u w ≡ false) where
    -- Two addresses that are live in one block have different pieces.
    apart : m.index ≡ l.index → m.place ≢ l.place
    apart same_index same =
        let there : find_piece l.place this.pieces ≡ some m.piece =
          rw (← same, ← same_index) m.there in
        let piece : l.piece ≡ m.piece = cc (l.there) in
        let vaddr : l.piece.vaddr ≡ m.piece.vaddr = ap (λ (p : Piece). p.vaddr) piece in
        let equal : w ≡ u = sym l.bears ∙ vaddr ∙ m.bears in
        ground
          (arith, ap (λ (x : Vaddr). x.table_index) equal, ap (λ (x : Vaddr). x.cell_index) equal)

    still_there : find_piece m.place (get_or ms'.mb_list m.index no_block).pieces ≡ some m.piece
    still_there = elim (Bool-cases (m.index == l.index)) [
      | inl here ↦
          let same : m.index ≡ l.index = ground arith in
          let old : find_piece m.place this.pieces ≡ some m.piece = rw (← same) m.there in
          rw same (g.freed.others m.place m.piece (apart same) m.used old)
      | inr away ↦
          let ne : m.index ≢ l.index = (λ e. ground arith) in rw (g.other_blocks m.index ne) m.there
    ]

    pub GivenBack-keeps : Live ms' u k
    GivenBack-keeps = record {
      index = m.index;
      place = m.place;
      piece = m.piece;
      live_cell = g.released.others u other ∙ m.live_cell;
      owner = ap (λ os. owner_of u os) g.same_owners ∙ m.owner;
      inside = omega (arith, m.inside, g.same_length);
      there = still_there;
      used = m.used;
      bears = m.bears;
      room = m.room;
    }
