-- ===== src/MemBlock/Take.antt =====
-- gc_src/mb.c: the invariant of a block, `new_mem_block`, and what `mb_malloc_p` does to the pieces.
use chvm.Base.{
  ℕ, ◌+◌, ◌-◌, ◌^◌, ◌≤◌, ◌<◌, ◌≡◌, refl, ◌≢◌, ◌↔◌, ◌⊎◌, inl, inr, true, false, none, some, List, [],
  ◌∷◌, arith, ltb, ◌==◌, if◌then◌else◌, Bool-cases, In,
}
use chvm.AddrBook.{null_vaddr}
use chvm.MemBlock.{
  Piece, MemBlock, find_piece, mp_size, mp_init, mp_min_size, pad_num_bytes, new_mem_block,
  take_big, mb_add_to_size_unsafe, map_padding,
}
use chvm.MemBlock.Sizes.{pad_num_bytes_lem}
use chvm.MemBlock.Tiles.{Tiles, IsEdge, mp_init-Tiles, cut-Tiles}
use chvm.MemBlock.Order.{IsSorted, IsSorted-same, mb_add_to_size_unsafe-IsSorted}
use chvm.MemBlock.Find.{
  find_piece-mp_init_end, find_piece-inside, find_piece-mp_init, find_piece-cut, IsNodup,
  In-mb_add_to_size_unsafe, mb_add_to_size_unsafe-IsNodup,
}

abbrev pub IsFree : List Piece → ℕ → Type 0
IsFree ps a = (p : Piece) × (find_piece a ps ≡ some p) × (p.alloc ≡ false)

-- Between calls the pieces fill the block, and the list holds the free ones, each once and the largest first.
pub record IsValid (mb : MemBlock) : Type 0 where
  pub tiles : Tiles mb.start mb.pieces (mb.start + mb.cap)
  pub listed : (a : ℕ) → In a mb.size_free_list → IsFree mb.pieces a
  pub all_free :
      (a : ℕ) (p : Piece)
      → find_piece a mb.pieces ≡ some p
      → p.alloc ≡ false
      → In a mb.size_free_list
  pub nodup : IsNodup mb.size_free_list
  pub sorted : IsSorted mb.pieces mb.size_free_list

-- A new block for fewer than 2 ^ 63 bytes is valid. It is one free piece, which fills it from its start to its
-- end, stands on the list, and has room for the bytes beside the padding.
pub new_mem_block-IsValid :
    (start n : ℕ)
    → n < 2 ^ 63
    → IsValid (new_mem_block start n)
      × ((p : Piece) × ((new_mem_block start n).pieces ≡ p ∷ [])
          × (p.addr ≡ start)
          × (p.size ≡ (new_mem_block start n).cap)
          × (p.alloc ≡ false)
          × (n + map_padding ≤ p.size))
      × ((new_mem_block start n).size_free_list ≡ start ∷ [])
unfolding new_mem_block
new_mem_block-IsValid start n small =
    let piece : Piece = record {
      addr = start;
      size = pad_num_bytes n;
      alloc = false;
      vaddr = null_vaddr;
    } in
    let (room, least, _, _) = pad_num_bytes_lem n small in
    (
      record {
        tiles = (refl, least, refl);
        listed = λ a m. elim m [
          | inl here ↦ (piece, ground arith, refl)
          | inr none_there ↦ absurd none_there
        ];
        all_free = λ a p e f. ground arith;
        nodup = (λ m. m, tt);
        sorted = (tt, tt);
      },
      (piece, refl, refl, refl, refl, room),
      refl,
    )

-- What taking the piece at `a` for `m` bytes leaves.
pub record Taken (mb : MemBlock) (a m : ℕ) (p : Piece) (t : MemBlock) : Type 0 where
  pub same_start : t.start ≡ mb.start
  pub same_cap : t.cap ≡ mb.cap
  pub valid : IsValid t
  pub piece :
      (q : Piece) × (find_piece a t.pieces ≡ some q)
      × (q.alloc ≡ true)
      × (m ≤ q.size)
      × (q.size ≤ p.size)
  pub others :
      (b : ℕ) (x : Piece) → b ≢ a → find_piece b mb.pieces ≡ some x → find_piece b t.pieces ≡ some x

module _ (mb : MemBlock) (v : IsValid mb) (a : ℕ) (rest : List ℕ) (m : ℕ)
    (list : mb.size_free_list ≡ a ∷ rest) (p : Piece) (here : find_piece a mb.pieces ≡ some p)
    (fits : m ≤ p.size) (least : mp_min_size ≤ m)
    (edge : IsEdge (a + p.size) mb.pieces (mb.start + mb.cap)) where
  In-rest : (b : ℕ) → In b rest → (b ≢ a) × IsFree mb.pieces b
  In-rest b on =
      let (fresh, _) : (¬ In a rest) × IsNodup rest = rw list at v.nodup in
      let on_list : In b mb.size_free_list = rw list (inr on) in
      (λ e. fresh (rw e at on), v.listed b on_list)

  rest-IsNodup : (¬ In a rest) × IsNodup rest
  rest-IsNodup = rw list at v.nodup

  free_rest :
      (b : ℕ) (x : Piece) → find_piece b mb.pieces ≡ some x → x.alloc ≡ false → b ≢ a → In b rest
  free_rest b x e f ne =
      let on : In b (a ∷ rest) = rw list at (v.all_free b x e f) in
      elim on [ inl same ↦ absurd (ne same) | inr later ↦ later ]

  rest-IsSorted : IsSorted mb.pieces rest
  rest-IsSorted = let all : IsSorted mb.pieces (a ∷ rest) = rw list at v.sorted in all.1

  abbrev whole : Piece
  whole = record { addr = a; size = p.size; alloc = true; vaddr = null_vaddr }

  abbrev whole_block : MemBlock
  whole_block = record mb { pieces = mp_init whole mb.pieces; size_free_list = rest }

  find-whole :
      (b : ℕ)
      → find_piece b (mp_init whole mb.pieces)
        ≡ (if a == b then some whole else find_piece b mb.pieces)
  find-whole b =
      find_piece-mp_init whole mb.start mb.pieces (mb.start + mb.cap) b p v.tiles here refl

  same_size : (b : ℕ) → b ≢ a → mp_size (mp_init whole mb.pieces) b ≡ mp_size mb.pieces b
  same_size b ne =
      let found : find_piece b (mp_init whole mb.pieces) ≡ find_piece b mb.pieces =
        ground (arith, find-whole b) in
      rw found refl

  whole-Taken : Taken mb a m p whole_block
  whole-Taken = record {
    same_start = refl;
    same_cap = refl;
    valid = record {
      tiles =
          mp_init-Tiles whole mb.start mb.pieces (mb.start + mb.cap) v.tiles (omega arith)
            (ground arith) edge;
      listed = λ b on. let (ne, (x, e, f)) = In-rest b on in (x, ground (arith, find-whole b), f);
      all_free =
          λ b x e f. free_rest b x (ground (arith, find-whole b)) f (ground (arith, find-whole b));
      nodup = rest-IsNodup.1;
      sorted =
          IsSorted-same mb.pieces (mp_init whole mb.pieces) rest
            (λ b on. let (ne, _) = In-rest b on in same_size b ne) rest-IsSorted;
    };
    piece = (whole, ground (arith, find-whole a), refl, fits, omega arith);
    others = λ b x ne e. ground (arith, find-whole b);
  }

  module _ (splits : m + mp_min_size ≤ p.size) where
    abbrev big : Piece
    big = record { addr = a; size = m; alloc = true; vaddr = null_vaddr }

    abbrev new : Piece
    new = record { addr = a + m; size = p.size - m; alloc = false; vaddr = null_vaddr }

    abbrev cut_list : List ℕ
    cut_list = mb_add_to_size_unsafe (mp_init new mb.pieces) (a + m) rest

    abbrev cut_block : MemBlock
    cut_block = record mb {
      pieces = mp_init big (mp_init new mb.pieces);
      size_free_list = cut_list;
    }

    find-cut :
        (b : ℕ)
        → find_piece b cut_block.pieces
          ≡ (if a == b then some big else if a + m == b then some new else find_piece b mb.pieces)
    find-cut b =
        find_piece-cut big new mb.start mb.pieces (mb.start + mb.cap) b p v.tiles here least refl
          (omega arith)

    no_piece : find_piece (a + m) mb.pieces ≡ none
    no_piece =
        find_piece-inside mb.start mb.pieces (mb.start + mb.cap) a (a + m) p v.tiles here
          (omega arith) (omega arith)

    In-cut_list : (b : ℕ) → In b cut_list ↔ ((b ≡ a + m) ⊎ In b rest)
    In-cut_list b = In-mb_add_to_size_unsafe (mp_init new mb.pieces) (a + m) b rest

    -- The list is in order under the pieces with the new one, and the write of the first half changes none of it.
    cut-IsSorted : IsSorted cut_block.pieces cut_list
    cut-IsSorted =
        let with_new : List Piece = mp_init new mb.pieces in
        let old : IsSorted with_new rest =
          IsSorted-same mb.pieces with_new rest
            (λ b on.
              let (ne, (x, e, f)) = In-rest b on in
              let found : find_piece b with_new ≡ find_piece b mb.pieces = ground (
                arith,
                no_piece,
                find_piece-mp_init_end new mb.start mb.pieces (mb.start + mb.cap) a b p v.tiles
                    here,
              ) in
              rw found refl)
            rest-IsSorted in
        IsSorted-same with_new cut_block.pieces cut_list
          (λ b on.
            let ne : b ≢ a = (λ same. elim ((In-cut_list b).0 on) [
              | inl fresh ↦ omega arith
              | inr later ↦ (In-rest b later).0 same
            ]) in
            let found : find_piece b cut_block.pieces ≡ find_piece b with_new = ground (
              arith,
              find-cut b,
              find_piece-mp_init_end new mb.start mb.pieces (mb.start + mb.cap) a b p v.tiles here,
            ) in
            rw found refl)
          (mb_add_to_size_unsafe-IsSorted with_new (a + m) rest old)

    cut-Taken : Taken mb a m p cut_block
    cut-Taken = record {
      same_start = refl;
      same_cap = refl;
      valid = record {
        tiles =
            cut-Tiles big new mb.start mb.pieces (mb.start + mb.cap) p v.tiles here least
              (omega arith) refl (omega arith);
        listed = λ b on. elim ((In-cut_list b).0 on) [
          | inl fresh ↦ (new, ground (arith, find-cut b), refl)
          | inr old ↦
              let (ne, (x, e, f)) = In-rest b old in (x, ground (arith, find-cut b, no_piece), f)
        ];
        all_free = λ b x e f. (In-cut_list b).1 (elim (Bool-cases (a + m == b)) [
          | inl fresh ↦ inl (ground arith)
          | inr old ↦
              inr (free_rest b x (ground (arith, find-cut b)) f (ground (arith, find-cut b)))
        ]);
        nodup =
            mb_add_to_size_unsafe-IsNodup (mp_init new mb.pieces) (a + m) rest
              (λ on. let (ne, (x, e, f)) = In-rest (a + m) on in ground (arith, no_piece))
              rest-IsNodup.1;
        sorted = cut-IsSorted;
      };
      piece = (big, ground (arith, find-cut a), refl, omega arith, omega arith);
      others = λ b x ne e. ground (arith, find-cut b, no_piece);
    }

  pub take_big-Taken : Taken mb a m p (take_big mb a rest m)
  unfolding take_big
  take_big-Taken = elim (Bool-cases (ltb (p.size - m) mp_min_size)) [
    | inl small ↦ rw (here, small) whole-Taken
    | inr large ↦ rw (here, large) (cut-Taken (ground arith))
  ]
