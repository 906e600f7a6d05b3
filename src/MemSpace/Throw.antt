-- ===== src/MemSpace/Throw.antt =====
-- gc_src/ms.c: the throws of `ms_malloc_p`.
use chvm.Base.{
  ℕ, zero, suc, ◌%◌, ◌^◌, ◌≤◌, ◌<◌, ◌≡◌, refl, sym, ap, ◌∙◌, ◌≢◌, ◌⊎◌, inl, inr, Bool, true, false,
  Option, none, some, List, arith, ltb, get_or, set, length, set-get_or, Bool-cases,
}
use mathlib.Core.Path.{subst}
use native.Mathlib.Nat.{mod-lt}
use chvm.Base.Result.{Result, ok}
use chvm.AddrBook.{AddrBook, null_adb_addr}
use chvm.AddrBook.Inv.{IsValid as IsValidBook}
use chvm.MemBlock.{MemBlock, MallocRes, null_res, pad_num_bytes, mb_malloc_p}
use chvm.MemBlock.Take.{IsValid as IsValidBlock}
use chvm.MemBlock.Malloc.{Allocated, first_size, mb_malloc_p_lem}
use chvm.MemSpace.{MemSpace, no_block, next_seed, ms_next_rnd, throw_darts}

-- A valid address book under valid blocks, of which there is one at least, in an array that has room for them.
pub record IsValid (ms : MemSpace) : Type 0 where
  pub book : IsValidBook ms.adb
  pub some_block : 0 < length ms.mb_list
  pub in_cap : length ms.mb_list ≤ ms.mb_list_cap
  pub blocks : (i : ℕ) → i < length ms.mb_list → IsValidBlock (get_or ms.mb_list i no_block)

-- The seed from which the throw `k` takes its random number, and the block that it chooses.
abbrev pub seed_at : ℕ → ℕ → ℕ
seed_at zero seed = next_seed seed
seed_at (suc k) seed = seed_at k (next_seed seed)

abbrev pub dart_at : ℕ → ℕ → List MemBlock → ℕ
dart_at k seed blocks = ms_next_rnd (seed_at k seed) % length blocks

-- The first free piece of the block at the throw `k` is large enough for `n` bytes, or none is.
abbrev pub Hits : ℕ → ℕ → List MemBlock → ℕ → Type 0
Hits k seed blocks n = pad_num_bytes n ≤ first_size (get_or blocks (dart_at k seed blocks) no_block)

abbrev pub Misses : ℕ → ℕ → List MemBlock → ℕ → Type 0
Misses k seed blocks n =
    first_size (get_or blocks (dart_at k seed blocks) no_block) < pad_num_bytes n

-- The first of so many throws that hits chooses the block `i`.
abbrev pub FirstHit : ℕ → ℕ → List MemBlock → ℕ → ℕ → Type 0
FirstHit throws seed blocks n i =
    (k : ℕ) × (k < throws)
    × (i ≡ dart_at k seed blocks)
    × Hits k seed blocks n
    × ((j : ℕ) → j < k → Misses j seed blocks n)

abbrev pub AllMiss : ℕ → ℕ → List MemBlock → ℕ → Type 0
AllMiss throws seed blocks n = (j : ℕ) → j < throws → Misses j seed blocks n

AllMiss-suc :
    (throws seed : ℕ) (blocks : List MemBlock) (n : ℕ)
    → Misses 0 seed blocks n
    → AllMiss throws (next_seed seed) blocks n
    → AllMiss (suc throws) seed blocks n
AllMiss-suc throws seed blocks n first rest zero lt = first
AllMiss-suc throws seed blocks n first rest (suc j) lt = rest j (omega arith)

FirstHit-suc :
    (throws seed : ℕ) (blocks : List MemBlock) (n i : ℕ)
    → Misses 0 seed blocks n
    → FirstHit throws (next_seed seed) blocks n i
    → FirstHit (suc throws) seed blocks n i
FirstHit-suc throws seed blocks n i first (k, lt, at, hit, before) =
    (suc k, omega arith, at, hit, AllMiss-suc k seed blocks n first before)

-- An address that a block gave out is not the null address.
pub Allocated-not_null :
    (mb : MemBlock) (adb : AddrBook) (n : ℕ) (hold : Bool) (r : MallocRes) (mb' : MemBlock)
    (adb' : AddrBook)
    → Allocated mb adb n hold r mb' adb'
    → null_adb_addr r.vaddr ≡ false
Allocated-not_null mb adb n hold r mb' adb' a =
    ground (arith, a.stored.table_in, a.stored.valid.sound.small)

module _ (throws : ℕ) (ms : MemSpace) (n : ℕ) where
  abbrev dart_of : ℕ
  dart_of = ms_next_rnd (next_seed ms.seed) % length ms.mb_list

  abbrev tried : MemBlock → AddrBook → MemSpace
  tried mb adb = record ms {
    seed = next_seed ms.seed;
    mb_list = set ms.mb_list dart_of mb;
    adb = adb;
  }

  throw_darts-step :
      (r : MallocRes) (mb : MemBlock) (adb : AddrBook)
      → mb_malloc_p (get_or ms.mb_list dart_of no_block) ms.adb n true ≡ ok (r, mb, adb)
      → (null_adb_addr r.vaddr ≡ true
          → throw_darts (suc throws) ms n ≡ throw_darts throws (tried mb adb) n)
        × (null_adb_addr r.vaddr ≡ false
            → throw_darts (suc throws) ms n ≡ ok (some (dart_of, r), tried mb adb))
  unfolding throw_darts
  throw_darts-step r mb adb run = (λ null. rw run (ground arith), λ hit. rw run (ground arith))

-- What the throws come to: no block was tried that had room, or the first that had gave a piece.
abbrev pub Thrown : ℕ → MemSpace → ℕ → Result (Option (ℕ × MallocRes) × MemSpace) → Type 0
Thrown throws ms n run =
    ((s : ℕ) × (run ≡ ok (none, record ms { seed = s })) × AllMiss throws ms.seed ms.mb_list n)
    ⊎ ((dart : ℕ) × (res : MallocRes) × (mb : MemBlock) × (adb : AddrBook) × (s : ℕ) × (run
          ≡ ok (
            some (dart, res),
            record ms { seed = s; mb_list = set ms.mb_list dart mb; adb = adb },
          ))
        × (dart < length ms.mb_list)
        × FirstHit throws ms.seed ms.mb_list n dart
        × Allocated (get_or ms.mb_list dart no_block) ms.adb n true res mb adb)

pub throw_darts_lem :
    (throws : ℕ) (ms : MemSpace) (n : ℕ)
    → IsValid ms
    → ms.adb.book_cap < 2 ^ 62
    → n < 2 ^ 63
    → n ≢ 0
    → Thrown throws ms n (throw_darts throws ms n)
unfolding throw_darts
throw_darts_lem zero ms n v room small ne = inl (ms.seed, refl, λ j lt. absurd (omega arith))
throw_darts_lem (suc throws) ms n v room small ne =
    let s : ℕ = next_seed ms.seed in
    let dart : ℕ = ms_next_rnd s % length ms.mb_list in
    let inside : dart < length ms.mb_list = mod-lt (ms_next_rnd s) v.some_block in
    let mb : MemBlock = get_or ms.mb_list dart no_block in
    let call = mb_malloc_p_lem mb ms.adb n true (v.blocks dart inside) v.book room small in
    elim (Bool-cases (ltb (first_size mb) (pad_num_bytes n))) [
      | inl full ↦
          let run = call.0 (inr (ground arith)) in
          let same : set ms.mb_list dart mb ≡ ms.mb_list = set-get_or ms.mb_list dart no_block in
          let next : MemSpace = record ms { seed = s } in
          let rest =
            throw_darts_lem throws next n
              (record {
                book = v.book;
                some_block = v.some_block;
                in_cap = v.in_cap;
                blocks = v.blocks;
              })
              room small ne in
          let step = (throw_darts-step throws ms n null_res mb ms.adb run).0 refl in
          let back : throw_darts throws (tried throws ms n mb ms.adb) n
              ≡ throw_darts throws next n =
            ap (λ (bs : List MemBlock). throw_darts throws (record next { mb_list = bs }) n) same in
          let miss : Misses 0 ms.seed ms.mb_list n = ground arith in
          subst (Thrown (suc throws) ms n) (sym (step ∙ back)) (elim rest [
            | inl (s', run', all) ↦ inl (s', run', AllMiss-suc throws ms.seed ms.mb_list n miss all)
            | inr (d, r, mb', adb', s', run', lt, hit, a) ↦ inr (
              d,
              r,
              mb',
              adb',
              s',
              run',
              lt,
              FirstHit-suc throws ms.seed ms.mb_list n d miss hit,
              a,
            )
          ])
      | inr room_there ↦
          let (r, mb', adb', run, a) = call.1 ne (ground arith) in
          let there = Allocated-not_null mb ms.adb n true r mb' adb' a in
          inr (
            dart,
            r,
            mb',
            adb',
            s,
            (throw_darts-step throws ms n r mb' adb' run).1 there,
            inside,
            (0, omega arith, refl, ground arith, λ j lt. absurd (omega arith)),
            a,
          )
    ]
