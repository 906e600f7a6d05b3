-- ===== src/MemBlock/Shift/Correct.antt =====
-- gc_src/mb.c: a call of `mb_try_shift`.
use chvm.Base.{
  ℕ, ◌+◌, ◌≤◌, ◌≡◌, refl, sym, ap, ◌∙◌, ◌≢◌, ◌⊎◌, inl, inr, true, false, Option, none, some, List,
  [], ◌∷◌, arith, ltb, ◌==◌, Bool-cases, Option-cases, In,
}
use mathlib.Core.Path.{subst}
use chvm.Base.Memory.{Memory, Memmove, IsMemmove}
use chvm.Base.Result.{Result, ok}
use chvm.AddrTable.{Lock, unlocked, reading, writing}
use chvm.AddrBook.{AddrBook, adb_get_write_p}
use chvm.AddrBook.Inv.{IsValid as IsValidBook, adb_cell}
use chvm.AddrBook.Move.{adb_get_write_p-held}
use chvm.MemBlock.{Piece, MemBlock, find_piece, mp_size}
use chvm.MemBlock.Find.{IsEdge-after}
use chvm.MemBlock.Tiles.{Tiles, Tiles-le}
use chvm.MemBlock.Take.{IsValid, IsFree}
use chvm.MemBlock.Neighbours.{piece_size}
use chvm.MemBlock.Shift.{
  shift_success, busy, not_needed, try_next, find_shiftable, shift_into, is_shifted, mb_try_shift,
}
use chvm.MemBlock.Shift.Place.{IsShiftable}
use chvm.MemBlock.Shift.Into.{IsPlaced, Done, mb_to, mem_to, shift_into_lem}

unlocked-cases : (l : Lock) → (l ≡ unlocked) ⊎ (l ≢ unlocked)
unlocked-cases unlocked = inl refl
unlocked-cases (reading n) = inr (λ e. cc)
unlocked-cases writing = inr (λ e. cc)

find_piece_within :
    (s : ℕ) (ps : List Piece) (e a : ℕ) (p : Piece)
    → Tiles s ps e
    → find_piece a ps ≡ some p
    → a + p.size ≤ e
find_piece_within s [] e a p t here = cc
find_piece_within s (h ∷ ps) e a p (at, big, t) here = elim (Bool-cases (h.addr == a)) [
  | inl found ↦
      let piece : h ≡ p = ground arith in
      let size : h.size ≡ p.size = ap (λ (x : Piece). x.size) piece in
      ground (arith, Tiles-le (s + h.size) ps e t)
  | inr later ↦ ground (arith, find_piece_within (s + h.size) ps e a p t)
]

module _ (memmove : Memmove) (mm : IsMemmove memmove) (mb : MemBlock) (v : IsValid mb)
    (adb : AddrBook) (vb : IsValidBook adb) (mem : Memory) (pl : IsPlaced mb adb) where
  abbrev stop : ℕ
  stop = mb.start + mb.cap

  -- Every allocated piece behind one of the free ones in the list is held.
  abbrev AllHeld : List ℕ → Type 0
  AllHeld is =
      (a : ℕ) (h p : Piece) → In a is → IsShiftable mb a h p → (adb_cell adb p.vaddr).lck ≢ unlocked

  abbrev Found : List ℕ → Type 0
  Found is =
      (a : ℕ) × (h : Piece) × (p : Piece) × (adb1 : AddrBook) × (find_shiftable is mb adb
        ≡ ok (some (a, p), adb1))
      × IsShiftable mb a h p
      × ((adb_cell adb p.vaddr).lck ≡ unlocked)
      × (adb_get_write_p adb p.vaddr false ≡ ok (some (adb_cell adb p.vaddr).paddr, adb1))

  past_end :
      (a : ℕ) (h p : Piece)
      → find_piece a mb.pieces ≡ some h
      → ltb (a + h.size) stop ≡ false
      → find_piece (a + h.size) mb.pieces ≢ some p
  past_end a h p at_h at_end at_p =
      let (_, wide) = piece_size mb.start mb.pieces stop (a + h.size) p v.tiles at_p in
      let within = find_piece_within mb.start mb.pieces stop (a + h.size) p v.tiles at_p in
      absurd (ground arith)

  abbrev Searched : List ℕ → Type 0
  Searched is = (find_shiftable is mb adb ≡ ok (none, adb)) × AllHeld is ⊎ Found is

  -- The loop goes on.
  further :
      (a : ℕ) (is : List ℕ)
      → find_shiftable (a ∷ is) mb adb ≡ find_shiftable is mb adb
      → ((h p : Piece) → IsShiftable mb a h p → (adb_cell adb p.vaddr).lck ≢ unlocked)
      → Searched is
      → Searched (a ∷ is)
  further a is run held (inl (none_found, all)) = inl (
    run ∙ none_found,
    λ b h p m s. elim m [
      | inl here ↦ held h p (subst (λ x. IsShiftable mb x h p) here s)
      | inr later ↦ all b h p later s
    ],
  )
  further a is run held (inr (b, h, p, adb1, found, s, free, get)) =
      inr (b, h, p, adb1, run ∙ found, s, free, get)

  try_next_lem :
      (a : ℕ) (p : Piece) (rest : Result (Option (ℕ × Piece) × AddrBook))
      → (p.alloc ≡ false → try_next a p adb rest ≡ rest)
        × (p.alloc ≡ true
            → adb_get_write_p adb p.vaddr false ≡ ok (none, adb)
            → try_next a p adb rest ≡ rest)
        × ((n : ℕ) (adb1 : AddrBook)
            → p.alloc ≡ true
            → adb_get_write_p adb p.vaddr false ≡ ok (some n, adb1)
            → try_next a p adb rest ≡ ok (some (a, p), adb1))
  unfolding try_next
  try_next_lem a p rest = (λ u. ground arith, λ u g. ground arith, λ n adb1 u g. ground arith)

  find_shiftable_lem : (is : List ℕ) → ((a : ℕ) → In a is → IsFree mb.pieces a) → Searched is
  unfolding find_shiftable
  find_shiftable_lem [] free = inl (refl, λ a h p m s. absurd m)
  find_shiftable_lem (a ∷ is) free =
      let (h, at_h, h_free) = free a (inl refl) in
      let size : mp_size mb.pieces a ≡ h.size = rw at_h refl in
      let rest : Searched is = find_shiftable_lem is (λ b m. free b (inr m)) in
      elim (Bool-cases (ltb (a + h.size) stop)) [
        | inl inside_h ↦
            let inside : ltb (a + mp_size mb.pieces a) stop ≡ true = ground arith in
            elim (Option-cases (find_piece (a + h.size) mb.pieces)) [
              | inl gone ↦
                  absurd (ground (arith, IsEdge-after mb.start mb.pieces stop a h v.tiles at_h))
              | inr (p, at_p) ↦
                  let there : find_piece (a + mp_size mb.pieces a) mb.pieces ≡ some p =
                    subst (λ n. find_piece (a + n) mb.pieces ≡ some p) (sym size) at_p in
                  elim (Bool-cases p.alloc) [
                    | inl used ↦
                        let s : IsShiftable mb a h p = record {
                          free_there = at_h;
                          free = h_free;
                          used_there = at_p;
                          used = used;
                        } in
                        elim (unlocked-cases (adb_cell adb p.vaddr).lck) [
                          | inl nobody ↦
                              let (adb1, _, get, _, _) =
                                shift_into_lem memmove mm mb v adb vb mem pl a h p s nobody in
                              inr (
                                a,
                                h,
                                p,
                                adb1,
                                rw (inside, there)
                                    ((try_next_lem a p (find_shiftable is mb adb)).2
                                      (adb_cell adb p.vaddr).paddr adb1 used get),
                                s,
                                nobody,
                                get,
                              )
                          | inr held ↦
                              let get =
                                adb_get_write_p-held adb p.vaddr vb
                                  (pl.live (a + h.size) p at_p used).0 held in
                              further a is
                                (rw (inside, there)
                                  ((try_next_lem a p (find_shiftable is mb adb)).1 used get))
                                (λ h' p' s'. ground (arith, s'.free_there, s'.used_there)) rest
                        ]
                    | inr free_too ↦
                        further a is
                          (rw (inside, there)
                            ((try_next_lem a p (find_shiftable is mb adb)).0 free_too))
                          (λ h' p' s'. ground (arith, s'.free_there, s'.used_there, s'.used)) rest
                  ]
            ]
        | inr at_end ↦
            further a is (rw (at_h, at_end) refl)
              (λ h' p' s'.
                ground (arith, s'.free_there, s'.used_there, past_end a h p' at_h at_end))
              rest
      ]

  -- `mb_try_shift` of a valid block whose allocated pieces a valid address book maps to their bodies returns. It
  -- answers "not needed" where no piece is free or the only one is at the end, "busy" where every allocated
  -- piece behind a free one is held, both without a change, and otherwise shifts such a piece as `Done` says.
  pub mb_try_shift_lem :
      ((is_shifted mb ≡ true) × (mb_try_shift memmove mb adb mem ≡ ok (not_needed, mb, adb, mem)))
      ⊎ ((is_shifted mb ≡ false)
          × ((a : ℕ) (h p : Piece) → IsShiftable mb a h p → (adb_cell adb p.vaddr).lck ≢ unlocked)
          × (mb_try_shift memmove mb adb mem ≡ ok (busy, mb, adb, mem)))
      ⊎ ((a : ℕ) × (h : Piece) × (p : Piece) × (mb' : MemBlock) × (adb' : AddrBook)
          × (mem' : Memory) × (mb_try_shift memmove mb adb mem
              ≡ ok (shift_success, mb', adb', mem'))
          × IsShiftable mb a h p
          × ((adb_cell adb p.vaddr).lck ≡ unlocked)
          × Done mb adb mem a h p mb' adb' mem')
  unfolding mb_try_shift
  mb_try_shift_lem = elim (Bool-cases (is_shifted mb)) [
    | inl done ↦ inl (done, rw done refl)
    | inr more ↦ elim (find_shiftable_lem mb.size_free_list v.listed) [
      | inl (run, held) ↦ inr (
          inl (
            more,
            λ a h p s. held a h p (v.all_free a h s.free_there s.free) s,
            rw (more, run) refl,
          ))
      | inr (a, h, p, adb1, run, s, nobody, get) ↦
          let (adb1', adb', get', into, d) =
            shift_into_lem memmove mm mb v adb vb mem pl a h p s nobody in
          let same : adb1' ≡ adb1 = cc in
          let into' =
            subst
              (λ x.
                shift_into memmove mb x mem a p
                ≡ ok (
                  shift_success,
                  mb_to memmove mm mb v adb vb mem pl a h p s,
                  adb',
                  mem_to memmove mm mb v adb vb mem pl a h p s,
                ))
              same into in
          inr (
            inr (
              a,
              h,
              p,
              mb_to memmove mm mb v adb vb mem pl a h p s,
              adb',
              mem_to memmove mm mb v adb vb mem pl a h p s,
              rw (more, run) into',
              s,
              nobody,
              d,
            ))
    ]
  ]
