-- ===== src/MemBlock/Malloc.antt =====
-- gc_src/mb.c: a call of `mb_malloc_p`.
use chvm.Base.{
  ℕ, ◌+◌, ◌^◌, ◌≤◌, ◌<◌, ◌≡◌, refl, ◌≢◌, ◌⊎◌, inl, Bool, true, false, none, some, List, [], ◌∷◌,
  arith, ltb, ◌==◌, if◌then◌else◌, Bool-cases, In, inr,
}
use chvm.Base.Result.{ok}
use chvm.AddrBook.{Vaddr, AddrBook}
use chvm.AddrBook.Inv.{IsValid as IsValidBook}
use chvm.AddrBook.Put.{Stored, adb_put_p_lem}
use chvm.MemBlock.{
  new_mem_block, Piece, MemBlock, MallocRes, null_res, find_piece, mp_size, pad_num_bytes,
  mp_to_map_b, set_vaddr, take_big, mb_malloc_p, map_padding,
}
use chvm.MemBlock.Sizes.{pad_num_bytes_lem}
use chvm.MemBlock.Tiles.{set_vaddr-Tiles}
use chvm.MemBlock.Find.{IsEdge-after, find_piece-set_vaddr}
use chvm.MemBlock.Order.{IsSorted, IsSorted-same, AllUpTo-In}
use chvm.MemBlock.Take.{IsValid, Taken, take_big-Taken}

-- What a call that succeeds did: a free piece became one that is allocated, holds the virtual address and has
-- room for the bytes; the address book maps the address to its body; every other piece is as it was.
pub record Allocated (mb : MemBlock) (adb : AddrBook) (n : ℕ) (hold : Bool) (r : MallocRes)
    (mb' : MemBlock) (adb' : AddrBook) : Type 0 where
  pub valid : IsValid mb'
  pub place : ℕ
  pub was_free : (p : Piece) × (find_piece place mb.pieces ≡ some p) × (p.alloc ≡ false)
  pub piece :
      (q : Piece) × (find_piece place mb'.pieces ≡ some q)
      × (q.alloc ≡ true)
      × (q.vaddr ≡ r.vaddr)
      × (n + map_padding ≤ q.size)
  pub others :
      (b : ℕ) (x : Piece)
      → b ≢ place
      → find_piece b mb.pieces ≡ some x
      → find_piece b mb'.pieces ≡ some x
  pub stored : Stored adb (mp_to_map_b place) hold r.vaddr adb'
  pub given : r.paddr ≡ (if hold then some (mp_to_map_b place) else none)

-- A block has no room for `n` bytes when no piece is free or the largest is too small.
abbrev pub first_size : MemBlock → ℕ
first_size mb = elim mb.size_free_list [ [] ↦ 0 | a ∷ _ ↦ mp_size mb.pieces a ]

module _ (mb : MemBlock) (adb : AddrBook) (n : ℕ) (hold : Bool) (v : IsValid mb)
    (vb : IsValidBook adb) (room : adb.book_cap < 2 ^ 62) (small : n < 2 ^ 63) where
  abbrev m : ℕ
  m = pad_num_bytes n

  module _ (a : ℕ) (rest : List ℕ) (list : mb.size_free_list ≡ a ∷ rest)
      (fits : m ≤ mp_size mb.pieces a) (some_bytes : n ≢ 0) where
    big : (p : Piece) × (find_piece a mb.pieces ≡ some p) × (p.alloc ≡ false)
    big = v.listed a (rw list (inl refl))

    taken : Taken mb a m big.0 (take_big mb a rest m)
    taken =
        let (p, here, free) = big in
        take_big-Taken mb v a rest m list p here (ground arith) (pad_num_bytes_lem n small).1
          (IsEdge-after mb.start mb.pieces (mb.start + mb.cap) a p v.tiles here)

    abbrev after : Vaddr → MemBlock
    after w = record (take_big mb a rest m) { pieces = set_vaddr a w (take_big mb a rest m).pieces }

    find-after :
        (w : Vaddr) (b : ℕ)
        → find_piece b (after w).pieces ≡ (
            if a == b
            then some (record (taken.piece.0) { vaddr = w })
            else find_piece b (take_big mb a rest m).pieces)
    find-after w b =
        find_piece-set_vaddr a w (take_big mb a rest m).pieces b taken.piece.0 taken.piece.1

    after-size :
        (w : Vaddr) (b : ℕ) → mp_size (after w).pieces b ≡ mp_size (take_big mb a rest m).pieces b
    after-size w b = elim (Bool-cases (a == b)) [
      | inl here ↦
          let same : a ≡ b = ground arith in
          let new : find_piece b (after w).pieces ≡ some (record (taken.piece.0) { vaddr = w }) =
            ground (arith, find-after w b) in
          let old : find_piece b (take_big mb a rest m).pieces ≡ some taken.piece.0 =
            rw (← same) taken.piece.1 in
          rw (new, old) refl
      | inr away ↦
          let found : find_piece b (after w).pieces ≡ find_piece b (take_big mb a rest m).pieces =
            ground (arith, find-after w b) in
          rw found refl
    ]

    after-IsValid : (w : Vaddr) → IsValid (after w)
    after-IsValid w =
        let t : MemBlock = take_big mb a rest m in
        let (q, at, used, _, _) = taken.piece in
        record {
          tiles = set_vaddr-Tiles a w t.start t.pieces (t.start + t.cap) taken.valid.tiles;
          listed = λ b on.
              let (x, e, f) = taken.valid.listed b on in (x, ground (arith, find-after w b), f);
          all_free = λ b x e f. taken.valid.all_free b x (ground (arith, find-after w b)) f;
          nodup = taken.valid.nodup;
          sorted =
              IsSorted-same t.pieces (after w).pieces t.size_free_list (λ b on. after-size w b)
                taken.valid.sorted;
        }

    mb_malloc_p-big :
        (r : MallocRes) × (mb' : MemBlock) × (adb' : AddrBook) × (mb_malloc_p mb adb n hold
          ≡ ok (r, mb', adb'))
        × Allocated mb adb n hold r mb' adb'
    unfolding mb_malloc_p take_big
    mb_malloc_p-big =
        let (w, adb', run, stored, _) = adb_put_p_lem adb (mp_to_map_b a) hold vb room in
        let (q, at, used, wide, _) = taken.piece in
        let some_n : (n == 0) ≡ false = ground arith in
        let enough : ltb (mp_size mb.pieces a) m ≡ false = ground arith in
        (
          record { paddr = if hold then some (mp_to_map_b a) else none; vaddr = w },
          after w,
          adb',
          rw (some_n, list, enough, run) refl,
          record {
            valid = after-IsValid w;
            place = a;
            was_free = big;
            piece = (
              record q { vaddr = w },
              ground (arith, find-after w a),
              used,
              refl,
              omega (arith, (pad_num_bytes_lem n small).0),
            );
            others = λ b x ne e. ground (arith, find-after w b, taken.others b x);
            stored = stored;
            given = refl;
          },
        )

  mb_malloc_p-none :
      (n ≡ 0) ⊎ (first_size mb < m) → mb_malloc_p mb adb n hold ≡ ok (null_res, mb, adb)
  unfolding mb_malloc_p
  mb_malloc_p-none too_small = by_list mb.size_free_list refl
    where
      by_list :
          (is : List ℕ)
          → mb.size_free_list ≡ is
          → mb_malloc_p mb adb n hold ≡ ok (null_res, mb, adb)
      by_list [] e = rw e (ground arith)
      by_list (a ∷ rest) e = rw e (ground arith)

  -- The first free piece of a valid block is the largest.
  first_size-largest :
      (a : ℕ) (p : Piece)
      → find_piece a mb.pieces ≡ some p
      → p.alloc ≡ false
      → p.size ≤ first_size mb
  first_size-largest a p there free =
      let size : mp_size mb.pieces a ≡ p.size = rw there refl in
      let le = by_list mb.size_free_list v.sorted (v.all_free a p there free) in rw size at le
    where
      by_list :
          (is : List ℕ)
          → IsSorted mb.pieces is
          → In a is
          → mp_size mb.pieces a ≤ (elim is [ [] ↦ 0 | i ∷ _ ↦ mp_size mb.pieces i ])
      by_list [] s on = absurd on
      by_list (i ∷ is) s (inl e) = rw e (omega arith)
      by_list (i ∷ is) (all, s) (inr on) = AllUpTo-In mb.pieces (mp_size mb.pieces i) is a all on

  -- In a valid block, with a valid address book, a call of `mb_malloc_p` for `n` bytes succeeds as `Allocated`
  -- says where `n` is not 0 and the first free piece is as large as the padded size; otherwise it gives
  -- the null result and changes nothing. No free piece is larger than the first. (The room of the book is
  -- below 2 ^ 62 and `n` below 2 ^ 63.)
  pub mb_malloc_p_lem :
      ((n ≡ 0) ⊎ (first_size mb < pad_num_bytes n)
        → mb_malloc_p mb adb n hold ≡ ok (null_res, mb, adb))
      × (n ≢ 0
          → pad_num_bytes n ≤ first_size mb
          → (r : MallocRes) × (mb' : MemBlock) × (adb' : AddrBook) × (mb_malloc_p mb adb n hold
              ≡ ok (r, mb', adb'))
            × Allocated mb adb n hold r mb' adb')
      × ((a : ℕ) (p : Piece)
          → find_piece a mb.pieces ≡ some p
          → p.alloc ≡ false
          → p.size ≤ first_size mb)
  mb_malloc_p_lem =
      (mb_malloc_p-none, λ ne fits. by_list ne fits mb.size_free_list refl, first_size-largest)
    where
      by_list :
          n ≢ 0
          → pad_num_bytes n ≤ first_size mb
          → (is : List ℕ) → mb.size_free_list ≡ is
          → (r : MallocRes) × (mb' : MemBlock) × (adb' : AddrBook) × (mb_malloc_p mb adb n hold
              ≡ ok (r, mb', adb'))
            × Allocated mb adb n hold r mb' adb'
      by_list ne fits [] e = absurd (omega (arith, (pad_num_bytes_lem n small).1, rw e at fits))
      by_list ne fits (a ∷ rest) e = mb_malloc_p-big a rest e (rw e at fits) ne

-- A new block has room for what it was made for.
pub new_mem_block_fits :
    (start n k : ℕ) → n ≤ k → k < 2 ^ 63 → pad_num_bytes n ≤ first_size (new_mem_block start k)
unfolding new_mem_block
new_mem_block_fits start n k le small =
    let (room, least, even, _) = pad_num_bytes_lem k small in
    let fits = (pad_num_bytes_lem n (omega arith)).3 (pad_num_bytes k) (omega arith) least even in
    ground arith
