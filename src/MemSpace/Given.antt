-- ===== src/MemSpace/Given.antt =====
-- gc_src/ms.c: what a call of `ms_malloc_p` gives.
use chvm.Base.{
  ℕ, ◌+◌, ◌*◌, ◌/◌, ◌≤◌, ◌<◌, ◌≡◌, refl, sym, ap, ◌∙◌, ◌⊎◌, inl, inr, Bool, true, false, none, some,
  List, [], ◌∷◌, ◌++◌, arith, ltb, ◌==◌, if◌then◌else◌, get_or, set, length, length-set,
  length-append, get_or-set, get_or-concat, Bool-cases,
}
use mathlib.Core.Path.{subst}
use chvm.Base.Result.{ok}
use chvm.AddrTable.{Cell, unlocked, writing}
use chvm.AddrBook.{Vaddr, AddrBook, eq_adb_addr, null_adb_addr}
use chvm.AddrBook.Inv.{IsValid as IsValidBook, adb_cell}
use chvm.AddrBook.Release.{adb_unlock-writing}
use chvm.MemBlock.{MemBlock, MallocRes, mp_to_map_b, new_mem_block}
use chvm.MemBlock.Take.{IsValid as IsValidBlock}
use chvm.MemBlock.Malloc.{Allocated}
use chvm.MemSpace.{MemSpace, no_block, header_size, add_header, ms_interpret_malloc_res, owner_of}
use chvm.MemSpace.Throw.{IsValid, FirstHit, AllMiss, Allocated-not_null}

-- The number of throws: a third of the number of blocks, and one at least.
abbrev pub throws_of : MemSpace → ℕ
throws_of ms = if length ms.mb_list / 3 == 0 then 1 else length ms.mb_list / 3

-- The throws chose the block `i` of the space `ms` as the first that has room, and it became `mb`; or none of the
-- blocks that they chose has room, and a new block is at the end of the list, in an array that is twice
-- as large where it was full.
abbrev pub IsPlace : MemSpace → ℕ → ℕ → ℕ → MemBlock → MemBlock → List MemBlock → ℕ → Type 0
IsPlace ms start n i before mb blocks cap =
    FirstHit (throws_of ms) ms.seed ms.mb_list n i
      × (i < length ms.mb_list)
      × (before ≡ get_or ms.mb_list i no_block)
      × (blocks ≡ set ms.mb_list i mb)
      × (cap ≡ ms.mb_list_cap)
    ⊎ AllMiss (throws_of ms) ms.seed ms.mb_list n
      × (i ≡ length ms.mb_list)
      × (before ≡ new_mem_block start (if ltb ms.mb_min_bytes n then n else ms.mb_min_bytes))
      × (blocks ≡ ms.mb_list ++ mb ∷ [])
      × (cap ≡ (if length ms.mb_list == ms.mb_list_cap then 2 * ms.mb_list_cap else ms.mb_list_cap))

-- What a call for `n` bytes with the header did: one block, maybe a new one, gave a piece as `Allocated` says; the
-- address names its body, is held if asked for, and leads to the block again; no other address changed.
pub record Given (ms : MemSpace) (start n : ℕ) (hold : Bool) (r : MallocRes) (ms' : MemSpace)
    : Type 0 where
  pub index : ℕ
  pub before : MemBlock
  pub block : MemBlock
  pub res : MallocRes
  pub adb : AddrBook
  pub place : IsPlace ms start n index before block ms'.mb_list ms'.mb_list_cap
  pub allocated : Allocated before ms.adb n true res block adb
  pub same_vaddr : r.vaddr ≡ res.vaddr
  pub not_null : null_adb_addr r.vaddr ≡ false
  pub body : r.paddr ≡ (if hold then some (mp_to_map_b allocated.place + header_size) else none)
  pub cell : adb_cell ms'.adb r.vaddr ≡ record {
    lck = if hold then writing else unlocked;
    allocated = true;
    paddr = mp_to_map_b allocated.place;
  }
  pub others : (w : Vaddr) → eq_adb_addr w r.vaddr ≡ false → adb_cell ms'.adb w ≡ adb_cell ms.adb w
  pub owner : owner_of r.vaddr ms'.owners ≡ some index
  pub other_owners :
      (w : Vaddr) → eq_adb_addr w r.vaddr ≡ false → owner_of w ms'.owners ≡ owner_of w ms.owners
  pub valid : IsValid ms'

-- What `ms_interpret_malloc_res` does to a piece that is held.
interpret_lem :
    (ms : MemSpace) (i : ℕ) (res : MallocRes) (hold : Bool)
    → IsValidBook ms.adb
    → (adb_cell ms.adb res.vaddr).allocated ≡ true
    → (adb_cell ms.adb res.vaddr).lck ≡ writing
    → (adb : AddrBook) × (ms_interpret_malloc_res ms i res hold
        ≡ ok (
          record { paddr = if hold then add_header res.paddr else none; vaddr = res.vaddr },
          record ms { owners = (res.vaddr, i) ∷ ms.owners; adb = adb },
        ))
      × IsValidBook adb
      × (adb_cell adb res.vaddr
          ≡ record (adb_cell ms.adb res.vaddr) { lck = if hold then writing else unlocked })
      × ((w : Vaddr) → eq_adb_addr w res.vaddr ≡ false → adb_cell adb w ≡ adb_cell ms.adb w)
unfolding ms_interpret_malloc_res
interpret_lem ms i res true v live held = (ms.adb, refl, v, ground arith, λ w ne. refl)
interpret_lem ms i res false v live held =
    let (adb, run, u) = adb_unlock-writing ms.adb res.vaddr v live held in
    (adb, rw run refl, u.valid, u.free_now, u.others)

module _ (ms : MemSpace) (start n : ℕ) (v : IsValid ms) where
  pub place-valid :
      (i : ℕ) (before mb : MemBlock) (blocks : List MemBlock) (cap : ℕ)
      → IsPlace ms start n i before mb blocks cap
      → IsValidBlock mb
      → (0 < length blocks)
        × (length blocks ≤ cap)
        × ((j : ℕ) → j < length blocks → IsValidBlock (get_or blocks j no_block))
  place-valid i before mb blocks cap (inl (_, lt, _, e, grown)) vm =
      let size = length-set ms.mb_list i mb in
      subst
        (λ bs.
          (0 < length bs)
          × (length bs ≤ cap)
          × ((j : ℕ) → j < length bs → IsValidBlock (get_or bs j no_block)))
        (sym e)
        (
          omega (arith, v.some_block),
          omega (arith, v.in_cap),
          λ j h. elim (Bool-cases (i == j)) [
            | inl here ↦
                let at : get_or (set ms.mb_list i mb) j no_block ≡ mb =
                  ground (arith, get_or-set ms.mb_list i j mb no_block) in
                subst IsValidBlock (sym at) vm
            | inr other ↦
                let at : get_or (set ms.mb_list i mb) j no_block ≡ get_or ms.mb_list j no_block =
                  ground (arith, get_or-set ms.mb_list i j mb no_block) in
                subst IsValidBlock (sym at) (v.blocks j (omega arith))
          ],
        )
  place-valid i before mb blocks cap (inr (_, _, _, e, grown)) vm =
      let size = length-append ms.mb_list (mb ∷ []) in
      subst
        (λ bs.
          (0 < length bs)
          × (length bs ≤ cap)
          × ((j : ℕ) → j < length bs → IsValidBlock (get_or bs j no_block)))
        (sym e)
        (
          omega arith,
          ground (arith, v.in_cap, v.some_block),
          λ j h. elim (Bool-cases (length ms.mb_list == j)) [
            | inl here ↦
                let at : get_or (ms.mb_list ++ mb ∷ []) j no_block ≡ mb =
                  ground (arith, get_or-concat ms.mb_list mb j no_block) in
                subst IsValidBlock (sym at) vm
            | inr other ↦
                let at : get_or (ms.mb_list ++ mb ∷ []) j no_block ≡ get_or ms.mb_list j no_block =
                  ground (arith, get_or-concat ms.mb_list mb j no_block) in
                let inside : j < length ms.mb_list = ground (arith, size) in
                subst IsValidBlock (sym at) (v.blocks j inside)
          ],
        )

  module _ (i : ℕ) (before mb : MemBlock) (res : MallocRes) (adb : AddrBook) (hold : Bool)
      (a : Allocated before ms.adb n true res mb adb) where
    held-cell :
        ((adb_cell adb res.vaddr).allocated ≡ true) × ((adb_cell adb res.vaddr).lck ≡ writing)
    held-cell = ground (arith, a.stored.filled)

    -- What the caller gets, from the space with the block in its place.
    pub given_lem :
        (now : MemSpace) (blocks : List MemBlock) (cap : ℕ)
        → now.adb ≡ adb
        → now.owners ≡ ms.owners
        → IsPlace ms start n i before mb blocks cap
        → (r : MallocRes) × (adb' : AddrBook) × (ms_interpret_malloc_res now i res hold
            ≡ ok (r, record now { owners = (res.vaddr, i) ∷ now.owners; adb = adb' }))
          × Given ms start n hold r (record now {
            owners = (res.vaddr, i) ∷ now.owners;
            adb = adb';
            mb_list = blocks;
            mb_list_cap = cap;
          })
    given_lem now blocks cap same same_owners place =
        let vb : IsValidBook now.adb = subst IsValidBook (sym same) a.stored.valid in
        let (live, lck) =
          subst
            (λ x.
              ((adb_cell x res.vaddr).allocated ≡ true) × ((adb_cell x res.vaddr).lck ≡ writing))
            (sym same) held-cell in
        let (adb', run, valid, cell, others) = interpret_lem now i res hold vb live lck in
        let filled : adb_cell now.adb res.vaddr
            ≡ record { lck = writing; allocated = true; paddr = mp_to_map_b a.place } =
          ap (λ x. adb_cell x res.vaddr) same ∙ a.stored.filled in
        (
          record { paddr = if hold then add_header res.paddr else none; vaddr = res.vaddr },
          adb',
          run,
          record {
            index = i;
            before = before;
            block = mb;
            res = res;
            adb = adb;
            place = place;
            allocated = a;
            same_vaddr = refl;
            not_null = Allocated-not_null before ms.adb n true res mb adb a;
            body = ap (λ p. if hold then add_header p else none) a.given;
            cell =
                cell
                ∙ ap (λ (c : Cell). record c { lck = if hold then writing else unlocked }) filled;
            others = λ w ne. others w ne ∙ ap (λ x. adb_cell x w) same ∙ a.stored.others w ne;
            owner = ground arith;
            other_owners = λ w ne. ground arith;
            valid = record {
              book = valid;
              some_block = (place-valid i before mb blocks cap place a.valid).0;
              in_cap = (place-valid i before mb blocks cap place a.valid).1;
              blocks = (place-valid i before mb blocks cap place a.valid).2;
            };
          },
        )
