-- ===== src/MemSpace/Malloc.antt =====
-- gc_src/ms.c: a call of `ms_malloc_p`.
use chvm.Base.{
  ℕ, ◌+◌, ◌*◌, ◌/◌, ◌%◌, ◌^◌, ◌≤◌, ◌<◌, ◌≡◌, refl, sym, ◌≢◌, inl, inr, Bool, true, false, [], ◌∷◌,
  ◌++◌, arith, ltb, ◌==◌, if◌then◌else◌, get_or, set, length,
}
use mathlib.Core.Path.{subst}
use chvm.Base.Result.{ok}
use chvm.MemBlock.{MemBlock, MallocRes, null_res, new_mem_block}
use chvm.MemBlock.Take.{new_mem_block-IsValid}
use chvm.MemBlock.Malloc.{mb_malloc_p_lem, new_mem_block_fits}
use chvm.MemSpace.{
  MemSpace, no_block, uint64_size, header_size, search_div, malloc_new, malloc_padded, ms_malloc_p,
}
use chvm.MemSpace.Throw.{IsValid, AllMiss, throw_darts_lem}
use chvm.MemSpace.Given.{throws_of, Given, given_lem}

module _ (ms : MemSpace) (start n : ℕ) (v : IsValid ms) where
  -- A new block always has room.
  malloc_new_lem :
      (s : ℕ) (hold : Bool)
      → ms.adb.book_cap < 2 ^ 62
      → ms.mb_min_bytes < 2 ^ 63
      → n < 2 ^ 63
      → n ≢ 0
      → length ms.mb_list < 2 ^ 63
      → AllMiss (throws_of ms) ms.seed ms.mb_list n
      → (r : MallocRes) × (ms' : MemSpace) × (malloc_new start (record ms { seed = s }) n hold
          ≡ ok (r, ms'))
        × Given ms start n hold r ms'
  unfolding malloc_new
  malloc_new_lem s hold room min_small small ne few missed =
      let req : ℕ = if ltb ms.mb_min_bytes n then n else ms.mb_min_bytes in
      let req_small : req < 2 ^ 63 = ground arith in
      let covers : n ≤ req = ground arith in
      let fresh : MemBlock = new_mem_block start req in
      let (r0, mb, adb, run, a) =
        (mb_malloc_p_lem fresh ms.adb n true (new_mem_block-IsValid start req req_small).0 v.book
            room small).1
          ne (new_mem_block_fits start n req covers req_small) in
      let now : MemSpace = record ms { seed = s; adb = adb } in
      let cap : ℕ =
        if length ms.mb_list == ms.mb_list_cap
        then ms.mb_list_cap * 2 % uint64_size
        else ms.mb_list_cap in
      let grown : cap
          ≡ (if length ms.mb_list == ms.mb_list_cap then 2 * ms.mb_list_cap else ms.mb_list_cap) =
        ground arith in
      let (r, adb', told, given) =
        given_lem ms start n v (length ms.mb_list) fresh mb r0 adb hold a now
          (ms.mb_list ++ mb ∷ []) cap refl refl (inr (missed, refl, refl, refl, grown)) in
      (
        r,
        record now {
          owners = (r0.vaddr, length ms.mb_list) ∷ ms.owners;
          adb = adb';
          mb_list = ms.mb_list ++ mb ∷ [];
          mb_list_cap = cap;
        },
        rw run (rw told refl),
        given,
      )

malloc_padded_lem :
    (start : ℕ) (ms : MemSpace) (n : ℕ) (hold : Bool)
    → IsValid ms
    → ms.adb.book_cap < 2 ^ 62
    → ms.mb_min_bytes < 2 ^ 63
    → n < 2 ^ 63
    → n ≢ 0
    → length ms.mb_list < 2 ^ 63
    → (r : MallocRes) × (ms' : MemSpace) × (malloc_padded start ms n hold ≡ ok (r, ms'))
      × Given ms start n hold r ms'
unfolding malloc_padded
malloc_padded_lem start ms n hold v room min_small small ne few =
    let throws : ℕ =
      if length ms.mb_list / search_div == 0 then 1 else length ms.mb_list / search_div in
    elim (throw_darts_lem throws ms n v room small ne) [
      | inl (s, run, missed) ↦
          let (r, ms', made, given) =
            malloc_new_lem ms start n v s hold room min_small small ne few missed in
          (r, ms', rw run made, given)
      | inr (dart, res, mb, adb, s, run, lt, hit, a) ↦
          let now : MemSpace = record ms {
            seed = s;
            mb_list = set ms.mb_list dart mb;
            adb = adb;
          } in
          let (r, adb', told, given) =
            given_lem ms start n v dart (get_or ms.mb_list dart no_block) mb res adb hold a now
              (set ms.mb_list dart mb) ms.mb_list_cap refl refl (inl (hit, lt, refl, refl, refl)) in
          (r, record now { owners = (res.vaddr, dart) ∷ ms.owners; adb = adb' }, rw run told, given)
    ]

-- `ms_malloc_p` of a valid space returns: for no bytes it gives the null result and changes nothing; otherwise it
-- succeeds, as `Given` says: the piece is in the first block with room among those that the random numbers choose, one
-- for each three blocks and one at least, or, where none of them has room, in a new block at the end of the
-- list, whose array grows if it is full. (The room of the book is below 2 ^ 62; the least size of a block, the request
-- with its header, and the number of blocks are below 2 ^ 63.)
pub ms_malloc_p_lem :
    (start : ℕ) (ms : MemSpace) (min_bytes : ℕ) (hold : Bool)
    → IsValid ms
    → ms.adb.book_cap < 2 ^ 62
    → ms.mb_min_bytes < 2 ^ 63
    → min_bytes + header_size < 2 ^ 63
    → length ms.mb_list < 2 ^ 63
    → (min_bytes ≡ 0 → ms_malloc_p start ms min_bytes hold ≡ ok (null_res, ms))
      × (min_bytes ≢ 0
          → (r : MallocRes) × (ms' : MemSpace) × (ms_malloc_p start ms min_bytes hold ≡ ok (r, ms'))
            × Given ms start (min_bytes + header_size) hold r ms')
unfolding ms_malloc_p
ms_malloc_p_lem start ms min_bytes hold v room min_small small few = (
  λ z. let none_asked : (min_bytes == 0) ≡ true = ground arith in rw none_asked refl,
  λ ne.
      let asked : (min_bytes == 0) ≡ false = ground arith in
      let padded : (min_bytes + header_size) % uint64_size ≡ min_bytes + header_size =
        omega arith in
      let (r, ms', run, given) =
        malloc_padded_lem start ms (min_bytes + header_size) hold v room min_small small
          (λ z. omega arith) few in
      (
        r,
        ms',
        rw asked (subst (λ k. malloc_padded start ms k hold ≡ ok (r, ms')) (sym padded) run),
        given,
      ),
)
