-- ===== src/MemBlock/Shift/Valid.antt =====
-- gc_src/mb.c: the block after the pieces of a shift were written.
use chvm.Base.{
  ℕ, ◌+◌, ◌≤◌, ◌<◌, ◌≡◌, refl, sym, ◌≢◌, ◌↔◌, ◌⊎◌, inl, inr, true, false, Option, none, some, List,
  arith, ltb, ◌==◌, if◌then◌else◌, Bool-cases, Option-cases, In,
}
use chvm.AddrBook.{Vaddr, null_vaddr}
use chvm.MemBlock.{Piece, MemBlock, find_piece, size_of, mp_size, mp_init, mp_min_size}
use chvm.MemBlock.Tiles.{IsEdge}
use chvm.MemBlock.Find.{IsEdge-after, find_piece-inside, IsNodup}
use chvm.MemBlock.Order.{IsSorted}
use chvm.MemBlock.Take.{IsValid}
use chvm.MemBlock.Neighbours.{find_piece-addr, piece_size}
use chvm.MemBlock.Shift.Pieces.{move-Tiles, find_piece-move}

-- The piece `p` stands at `a` with the virtual address `w`, a free piece is behind it that is at least as
-- large as the one it moved into, and the other allocated pieces are as they were.
pub record Shifted (mb : MemBlock) (a : ℕ) (h p : Piece) (w : Vaddr) (mb' : MemBlock) : Type 0 where
  pub same_start : mb'.start ≡ mb.start
  pub same_cap : mb'.cap ≡ mb.cap
  pub valid : IsValid mb'
  pub moved : find_piece a mb'.pieces ≡ some (record p { addr = a; vaddr = w })
  pub freed :
      (q : Piece) × (find_piece (a + p.size) mb'.pieces ≡ some q)
      × (q.alloc ≡ false)
      × (h.size ≤ q.size)
  pub others :
      (b : ℕ) (x : Piece)
      → b ≢ p.addr
      → x.alloc ≡ true
      → find_piece b mb.pieces ≡ some x
      → find_piece b mb'.pieces ≡ some x
  pub back :
      (b : ℕ) (x : Piece)
      → b ≢ a
      → x.alloc ≡ true
      → find_piece b mb'.pieces ≡ some x
      → (b ≢ p.addr) × (find_piece b mb.pieces ≡ some x)

module _ (mb : MemBlock) (v : IsValid mb) (a : ℕ) (h p : Piece) (w : Vaddr)
    (at_h : find_piece a mb.pieces ≡ some h) (h_free : h.alloc ≡ false)
    (at_p : find_piece (a + h.size) mb.pieces ≡ some p) (p_used : p.alloc ≡ true) where
  abbrev stop : ℕ
  stop = mb.start + mb.cap

  abbrev q : Piece
  q = record { addr = a; size = p.size; alloc = true; vaddr = w }

  p_addr : p.addr ≡ a + h.size
  p_addr = find_piece-addr (a + h.size) mb.pieces p at_p

  sizes : (mp_min_size ≤ h.size) × (mp_min_size ≤ p.size)
  sizes = (
    (piece_size mb.start mb.pieces stop a h v.tiles at_h).1,
    (piece_size mb.start mb.pieces stop (a + h.size) p v.tiles at_p).1,
  )

  module _ (next : Option Piece)
      (is_next : (n : Piece)
        → next ≡ some n
        → (find_piece (p.addr + p.size) mb.pieces ≡ some n) × (n.alloc ≡ false)) where
    abbrev r : Piece
    r = record {
      addr = a + p.size;
      size = h.size + size_of next;
      alloc = false;
      vaddr = null_vaddr;
    }

    abbrev whole : Piece
    whole = record {
      addr = a;
      size = h.size + p.size + size_of next;
      alloc = false;
      vaddr = null_vaddr;
    }

    abbrev pieces : List Piece
    pieces = mp_init r (mp_init q mb.pieces)

    edge : IsEdge (whole.addr + whole.size) mb.pieces stop
    edge = elim (Option-cases next) [
      | inl gone ↦
          let nothing : size_of next ≡ 0 = rw gone refl in
          let meets : a + (h.size + p.size + size_of next) ≡ a + h.size + p.size =
            omega (arith, nothing) in
          rw meets (IsEdge-after mb.start mb.pieces stop (a + h.size) p v.tiles at_p)
      | inr (n, e) ↦
          let (there, _) = is_next n e in
          let size : size_of next ≡ n.size = rw e refl in
          let meets : a + (h.size + p.size + size_of next) ≡ p.addr + p.size + n.size =
            omega (arith, size, p_addr) in
          rw meets (IsEdge-after mb.start mb.pieces stop (p.addr + p.size) n v.tiles there)
    ]

    here : find_piece a mb.pieces ≢ none
    here = ground arith

    find-pieces :
        (b : ℕ)
        → find_piece b pieces ≡ (
            if a == b
            then some q
            else if a + p.size == b
            then some r
            else if ltb a b
            then (if ltb b (a + (h.size + p.size + size_of next))
                then none
                else find_piece b mb.pieces)
            else find_piece b mb.pieces)
    find-pieces b =
        find_piece-move q r whole refl refl (omega arith) sizes.1 mb.start mb.pieces stop v.tiles
          here edge (omega (arith, sizes)) b

    -- What started in the bytes is one of the pieces that took part.
    parts :
        (b : ℕ) (x : Piece)
        → find_piece b mb.pieces ≡ some x
        → a ≤ b
        → b < a + (h.size + p.size + size_of next)
        → (b ≡ a) ⊎ (b ≡ p.addr) ⊎ (b ≡ p.addr + p.size) × (next ≡ some x)
    parts b x found lo hi = elim (Bool-cases (ltb b (a + h.size))) [
      | inl first ↦ ground (arith, find_piece-inside mb.start mb.pieces stop a b h v.tiles at_h)
      | inr past_first ↦ elim (Bool-cases (ltb b (a + h.size + p.size))) [
        | inl second ↦ inr (
            inl (
              ground (
                arith,
                p_addr,
                find_piece-inside mb.start mb.pieces stop (a + h.size) b p v.tiles at_p,
              )))
        | inr third ↦ elim (Option-cases next) [
          | inl gone ↦ let nothing : size_of next ≡ 0 = rw gone refl in absurd (ground arith)
          | inr (n, e) ↦
              let (there, _) = is_next n e in
              let size : size_of next ≡ n.size = rw e refl in
              inr (
                inr (
                  ground (
                    arith,
                    p_addr,
                    find_piece-inside mb.start mb.pieces stop (p.addr + p.size) b n v.tiles there,
                  )))
        ]
      ]
    ]

    -- A piece that took no part is where it was.
    outside :
        (b : ℕ) (x : Piece)
        → find_piece b mb.pieces ≡ some x
        → b ≢ a
        → b ≢ p.addr
        → ((y : Piece) → next ≡ some y → b ≢ y.addr)
        → find_piece b pieces ≡ some x
    outside b x found na np nn = elim (Bool-cases (ltb b a)) [
      | inl before ↦ ground (arith, find-pieces b)
      | inr not_before ↦ elim (Bool-cases (ltb b (a + (h.size + p.size + size_of next)))) [
        | inl under ↦ elim (parts b x found (ground arith) (ground arith)) [
          | inl same ↦ absurd (na same)
          | inr (inl same) ↦ absurd (np same)
          | inr (inr (_, e)) ↦ absurd (nn x e (sym (find_piece-addr b mb.pieces x found)))
        ]
        | inr after ↦ ground (arith, find-pieces b, sizes)
      ]
    ]

    back_outside :
        (b : ℕ) (x : Piece)
        → find_piece b pieces ≡ some x
        → b ≢ a
        → b ≢ a + p.size
        → (find_piece b mb.pieces ≡ some x)
          × (b ≢ p.addr)
          × ((y : Piece) → next ≡ some y → b ≢ y.addr)
    back_outside b x found na nr =
        let old : find_piece b mb.pieces ≡ some x = ground (arith, find-pieces b) in
        let out : (b < a) ⊎ (a + (h.size + p.size + size_of next) ≤ b) =
          ground (arith, find-pieces b) in
        (
          old,
          ground (arith, p_addr, sizes),
          λ y e same.
              let (there, _) = is_next y e in
              let addr = find_piece-addr (p.addr + p.size) mb.pieces y there in
              let size : size_of next ≡ y.size = rw e refl in
              let (_, wide) =
                piece_size mb.start mb.pieces stop (p.addr + p.size) y v.tiles there in
              ground (arith, p_addr, sizes),
        )

    -- The sizes under the new pieces of what is on the list.
    pub kept-size :
        (b : ℕ)
        → In b mb.size_free_list
        → b ≢ a
        → ((y : Piece) → next ≡ some y → b ≢ y.addr)
        → mp_size pieces b ≡ mp_size mb.pieces b
    kept-size b on na nn =
        let (x, e, f) = v.listed b on in
        let found : find_piece b pieces ≡ some x =
          outside b x e na (λ same. ground (arith, p_addr)) nn in
        rw (found, e) refl

    pub new-size : mp_size pieces (a + p.size) ≡ h.size + size_of next
    new-size =
        let found : find_piece (a + p.size) pieces ≡ some r =
          ground (arith, find-pieces (a + p.size), sizes) in
        rw found refl

    abbrev IsList : List ℕ → Type 0
    IsList is =
        ((b : ℕ)
          → In b is ↔ (
              (b ≡ a + p.size)
              ⊎ (b ≢ a) × ((x : Piece) → next ≡ some x → b ≢ x.addr) × In b mb.size_free_list))
        × IsNodup is
        × IsSorted pieces is

    pub list-Shifted :
        (is : List ℕ)
        → IsList is
        → Shifted mb a h p w (record mb { pieces = pieces; size_free_list = is })
    list-Shifted is (mem, once, order) = record {
      same_start = refl;
      same_cap = refl;
      valid = record {
        tiles =
            move-Tiles q r whole refl refl (omega arith) sizes.1 mb.start mb.pieces stop v.tiles
              here edge (omega (arith, sizes));
        listed = λ b m. elim ((mem b).0 m) [
          | inl new ↦ (r, ground (arith, find-pieces b, sizes), refl)
          | inr (na, nn, on) ↦
              let (x, e, f) = v.listed b on in
              (x, outside b x e na (λ same. ground (arith, p_addr)) nn, f)
        ];
        all_free = λ b x e f. (mem b).1 (elim (Bool-cases (a + p.size == b)) [
          | inl new ↦ inl (ground arith)
          | inr old ↦
              let na : b ≢ a = λ same. ground (arith, find-pieces b) in
              let (found, _, nn) = back_outside b x e na (λ same. ground arith) in
              inr (na, nn, v.all_free b x found f)
        ]);
        nodup = once;
        sorted = order;
      };
      moved = ground (arith, find-pieces a);
      freed = (r, ground (arith, find-pieces (a + p.size), sizes), refl, omega arith);
      others = λ b x np used found.
          outside b x found (λ same. ground arith) np
            (λ y e same.
              ground (arith, is_next y e, find_piece-addr (p.addr + p.size) mb.pieces y));
      back = λ b x na used found.
          let nr : b ≢ a + p.size = λ same. ground (arith, find-pieces b, sizes) in
          let (old, np, _) = back_outside b x found na nr in (np, old);
    }
