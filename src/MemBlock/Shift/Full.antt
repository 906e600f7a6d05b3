-- ===== src/MemBlock/Shift/Full.antt =====
-- gc_src/mb.h: `mb_try_full_shift`, which shifts while it can.
use chvm.Base.{
  ℕ, zero, suc, ◌+◌, ◌-◌, ◌<◌, ◌≡◌, refl, ◌∙◌, ◌≢◌, ◌⊎◌, inl, inr, true, some, arith, Bool-cases,
}
use chvm.Base.Memory.{Memory, Memmove, IsMemmove}
use chvm.Base.Result.{Result, ok, out_of_fuel, ◌>>=◌}
use chvm.AddrTable.{unlocked}
use chvm.AddrBook.{Vaddr, AddrBook, eq_adb_addr}
use chvm.AddrBook.Inv.{IsValid as IsValidBook, adb_cell}
use chvm.MemBlock.{Piece, MemBlock, find_piece, mp_to_map_b, map_padding}
use chvm.MemBlock.Neighbours.{find_piece-addr}
use chvm.MemBlock.Take.{IsValid}
use chvm.MemBlock.Shift.{shift_success, is_shifted, mb_try_shift}
use chvm.MemBlock.Shift.Place.{IsShiftable}
use chvm.MemBlock.Shift.Into.{IsPlaced, Done}
use chvm.MemBlock.Shift.Correct.{mb_try_shift_lem}
use chvm.MemBlock.Shift.Weight.{weight}

-- On fuel, which the weight of the pieces bounds.
pub full_shift : ℕ → Memmove → MemBlock → AddrBook → Memory → Result (MemBlock × AddrBook × Memory)
full_shift zero memmove mb adb mem = out_of_fuel
full_shift (suc fuel) memmove mb adb mem =
    mb_try_shift memmove mb adb mem >>= λ (res, mb', adb', mem'). elim res [
      | shift_success ↦ full_shift fuel memmove mb' adb' mem'
      | _ ↦ ok (mb', adb', mem')
    ]

pub mb_try_full_shift :
    Memmove → MemBlock → AddrBook → Memory → Result (MemBlock × AddrBook × Memory)
unfolding full_shift
mb_try_full_shift memmove mb adb mem = full_shift (weight mb.pieces + 1) memmove mb adb mem

-- Each allocated piece keeps its virtual address, its size and its bytes, the address book maps the
-- address to where they are, and no address is allocated, freed, locked or unlocked.
pub record Kept (mb : MemBlock) (adb : AddrBook) (mem : Memory) (mb' : MemBlock) (adb' : AddrBook)
    (mem' : Memory) : Type 0 where
  pub valid : IsValid mb'
  pub valid_book : IsValidBook adb'
  pub placed : IsPlaced mb' adb'
  pub bytes :
      (b : ℕ) (x : Piece)
      → find_piece b mb.pieces ≡ some x
      → x.alloc ≡ true
      → (c : ℕ) × (find_piece c mb'.pieces ≡ some (record x { addr = c }))
        × ((i : ℕ) → i < x.size - map_padding → mem' (mp_to_map_b c + i) ≡ mem (mp_to_map_b b + i))
  pub cells :
      (w : Vaddr)
      → ((adb_cell adb' w).allocated ≡ (adb_cell adb w).allocated)
        × ((adb_cell adb' w).lck ≡ (adb_cell adb w).lck)

-- Nothing is left to shift: one free piece at the end, or every piece behind a free one is held.
abbrev pub IsStuck : MemBlock → AddrBook → Type 0
IsStuck mb adb =
    (is_shifted mb ≡ true)
    ⊎ ((a : ℕ) (h p : Piece) → IsShiftable mb a h p → (adb_cell adb p.vaddr).lck ≢ unlocked)

Kept-refl :
    (mb : MemBlock) (adb : AddrBook) (mem : Memory)
    → IsValid mb
    → IsValidBook adb
    → IsPlaced mb adb
    → Kept mb adb mem mb adb mem
Kept-refl mb adb mem v vb pl = record {
  valid = v;
  valid_book = vb;
  placed = pl;
  bytes = λ b x found used. (b, ground (arith, find_piece-addr b mb.pieces x found), λ i lt. refl);
  cells = λ w. (refl, refl);
}

Kept-Done :
    (mb mb' mb'' : MemBlock) (adb adb' adb'' : AddrBook) (mem mem' mem'' : Memory) (a : ℕ)
    (h p : Piece)
    → Done mb adb mem a h p mb' adb' mem'
    → Kept mb' adb' mem' mb'' adb'' mem''
    → Kept mb adb mem mb'' adb'' mem''
Kept-Done mb mb' mb'' adb adb' adb'' mem mem' mem'' a h p d k = record {
  valid = k.valid;
  valid_book = k.valid_book;
  placed = k.placed;
  bytes = λ b x found used.
      let (c, at_c, same) = d.bytes b x found used in
      let (c', at_c', same') = k.bytes c (record x { addr = c }) at_c used in
      (c', at_c', λ i lt. same' i lt ∙ same i lt);
  cells = λ w.
      let (a1, l1) = k.cells w in
      elim (Bool-cases (eq_adb_addr w p.vaddr)) [
        | inl this ↦
            let moved = d.book.moved in
            let is : w ≡ p.vaddr = ground arith in rw is (ground (arith, k.cells p.vaddr))
        | inr other ↦ let same = d.book.others w other in rw (← same) (a1, l1)
      ];
}

full_shift_lem :
    (memmove : Memmove)
    → IsMemmove memmove
    → (fuel : ℕ) (mb : MemBlock) (adb : AddrBook) (mem : Memory) → IsValid mb
    → IsValidBook adb
    → IsPlaced mb adb
    → weight mb.pieces < fuel
    → (mb' : MemBlock) × (adb' : AddrBook) × (mem' : Memory) × (full_shift fuel memmove mb adb mem
        ≡ ok (mb', adb', mem'))
      × Kept mb adb mem mb' adb' mem'
      × IsStuck mb' adb'
unfolding full_shift
full_shift_lem memmove mm zero mb adb mem v vb pl lt = absurd (omega arith)
full_shift_lem memmove mm (suc fuel) mb adb mem v vb pl lt =
    elim (mb_try_shift_lem memmove mm mb v adb vb mem pl) [
      | inl (done, run) ↦ (mb, adb, mem, rw run refl, Kept-refl mb adb mem v vb pl, inl done)
      | inr (inl (_, held, run)) ↦
          (mb, adb, mem, rw run refl, Kept-refl mb adb mem v vb pl, inr held)
      | inr (inr (a, h, p, mb', adb', mem', run, s, _, d)) ↦
          let (mb'', adb'', mem'', rest, k, stuck) =
            full_shift_lem memmove mm fuel mb' adb' mem' d.shifted.valid d.book.valid d.placed
              (omega (arith, d.lighter)) in
          (
            mb'',
            adb'',
            mem'',
            rw run rest,
            Kept-Done mb mb' mb'' adb adb' adb'' mem mem' mem'' a h p d k,
            stuck,
          )
    ]

-- `mb_try_full_shift` of a valid block whose allocated pieces a valid address book maps to their bodies stops.
-- Each allocated piece has kept its virtual address, its size and its bytes, as `Kept` says, and nothing is left
-- that could be shifted: one free piece at the end, or every allocated piece behind a free one is held.
pub mb_try_full_shift_lem :
    (memmove : Memmove) (mb : MemBlock) (adb : AddrBook) (mem : Memory)
    → IsMemmove memmove
    → IsValid mb
    → IsValidBook adb
    → IsPlaced mb adb
    → (mb' : MemBlock) × (adb' : AddrBook) × (mem' : Memory) × (mb_try_full_shift memmove mb adb mem
        ≡ ok (mb', adb', mem'))
      × Kept mb adb mem mb' adb' mem'
      × IsStuck mb' adb'
unfolding mb_try_full_shift
mb_try_full_shift_lem memmove mb adb mem mm v vb pl =
    full_shift_lem memmove mm (weight mb.pieces + 1) mb adb mem v vb pl (omega arith)
