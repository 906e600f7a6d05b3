-- ===== src/MemBlock/Coalesce.antt =====
-- gc_src/mb.c: `mb_coalesce_unsafe`, by which a freed piece joins its free neighbours.
use chvm.Base.{
  ℕ, ◌+◌, ◌≤◌, ◌<◌, ◌≡◌, refl, sym, ◌≢◌, ◌↔◌, ◌⊎◌, inl, inr, true, false, Option, none, some, List,
  arith, ltb, ◌==◌, if◌then◌else◌, Bool-cases, Option-cases, In,
}
use chvm.AddrBook.{null_vaddr}
use chvm.MemBlock.{
  Piece, MemBlock, find_piece, size_of, addr_or, mp_init, mp_min_size, unlist,
  mb_add_to_size_unsafe,
}
use chvm.MemBlock.Tiles.{IsEdge, mp_init-Tiles}
use chvm.MemBlock.Find.{
  IsEdge-after, find_piece-inside, IsNodup, In-mb_add_to_size_unsafe, mb_add_to_size_unsafe-IsNodup,
}
use chvm.MemBlock.Order.{IsSorted, IsSorted-same, mb_add_to_size_unsafe-IsSorted, unlist-IsSorted}
use chvm.MemBlock.Take.{IsValid}
use chvm.MemBlock.Neighbours.{
  find_piece-mp_init_over, In-unlist, unlist-IsNodup, find_piece-addr, piece_size,
}

-- A free piece that ends at `a`, and one that starts there.
abbrev pub EndsFreeAt : MemBlock → ℕ → Piece → Type 0
EndsFreeAt mb a r =
    (find_piece r.addr mb.pieces ≡ some r) × (r.alloc ≡ false) × (r.addr + r.size ≡ a)

abbrev pub StartsFreeAt : MemBlock → ℕ → Piece → Type 0
StartsFreeAt mb a n = (find_piece a mb.pieces ≡ some n) × (n.alloc ≡ false)

-- What `mb_coalesce_unsafe` of the allocated piece at `mp` does: the block is valid, and one free piece has its
-- bytes, those of the free piece that ends at it and those of the free piece that starts behind it, as
-- far as there are such; every other piece is as it was.
pub record Coalesced (mb : MemBlock) (mp : ℕ) (p : Piece) (mb' : MemBlock) : Type 0 where
  pub valid : IsValid mb'
  pub joined_piece : Piece
  pub found : find_piece joined_piece.addr mb'.pieces ≡ some joined_piece
  pub is_free : joined_piece.alloc ≡ false
  pub with_prev : (r : Piece) → EndsFreeAt mb mp r → joined_piece.addr ≡ r.addr
  pub no_prev : ((r : Piece) → ¬ EndsFreeAt mb mp r) → joined_piece.addr ≡ mp
  pub with_next :
      (n : Piece)
      → StartsFreeAt mb (mp + p.size) n
      → joined_piece.addr + joined_piece.size ≡ mp + p.size + n.size
  pub no_next :
      ((n : Piece) → ¬ StartsFreeAt mb (mp + p.size) n)
      → joined_piece.addr + joined_piece.size ≡ mp + p.size
  pub others :
      (b : ℕ) (x : Piece)
      → b ≢ mp
      → x.alloc ≡ true
      → find_piece b mb.pieces ≡ some x
      → find_piece b mb'.pieces ≡ some x
  pub other_free :
      (b : ℕ) (x : Piece)
      → StartsFreeAt mb b x
      → b + x.size ≢ mp
      → b ≢ mp + p.size
      → find_piece b mb'.pieces ≡ some x

module _ (mb : MemBlock) (v : IsValid mb) (mp : ℕ) (p : Piece)
    (here : find_piece mp mb.pieces ≡ some p) (used : p.alloc ≡ true)
    (least : mp_min_size ≤ p.size) where
  abbrev end : ℕ
  end = mb.start + mb.cap

  abbrev IsPrev : Option Piece → Type 0
  IsPrev o =
      (r : Piece)
      → o ≡ some r
      → (find_piece r.addr mb.pieces ≡ some r) × (r.addr + r.size ≡ mp) × (r.alloc ≡ false)

  abbrev IsNext : Option Piece → Type 0
  IsNext o =
      (n : Piece) → o ≡ some n → (find_piece (mp + p.size) mb.pieces ≡ some n) × (n.alloc ≡ false)

  abbrev joined : Option Piece → Option Piece → Piece
  joined prev next = record {
    addr = addr_or mp prev;
    size = p.size + size_of prev + size_of next;
    alloc = false;
    vaddr = null_vaddr;
  }

  module _ (prev next : Option Piece) (is_prev : IsPrev prev) (is_next : IsNext next) where
    abbrev q : Piece
    q = joined prev next

    bounds : (q.addr ≤ mp) × (q.addr + q.size ≡ mp + p.size + size_of next)
    bounds = elim (Option-cases prev) [
      | inl gone ↦ rw gone (omega arith, omega arith)
      | inr (r, e) ↦ let (_, before, _) = is_prev r e in rw e (omega arith, omega arith)
    ]

    q_start : find_piece q.addr mb.pieces ≢ none
    q_start = elim (Option-cases prev) [
      | inl gone ↦ rw gone (ground arith)
      | inr (r, e) ↦ let (there, _, _) = is_prev r e in rw e (ground arith)
    ]

    q-IsEdge : IsEdge (q.addr + q.size) mb.pieces end
    q-IsEdge = elim (Option-cases next) [
      | inl gone ↦
          let nothing : size_of next ≡ 0 = rw gone refl in
          let stop : q.addr + q.size ≡ mp + p.size = omega (arith, bounds.1) in
          rw stop (IsEdge-after mb.start mb.pieces end mp p v.tiles here)
      | inr (n, e) ↦
          let (there, _) = is_next n e in
          rw (bounds.1, e) (IsEdge-after mb.start mb.pieces end (mp + p.size) n v.tiles there)
    ]

    find-joined :
        (b : ℕ)
        → find_piece b (mp_init q mb.pieces) ≡ (
            if q.addr == b
            then some q
            else if ltb q.addr b
            then (if ltb b (q.addr + q.size) then none else find_piece b mb.pieces)
            else find_piece b mb.pieces)
    find-joined b =
        find_piece-mp_init_over q mb.start mb.pieces end b v.tiles (omega (arith, least)) q_start
          q-IsEdge

    -- What starts in the bytes of the joined piece is one of its parts.
    parts :
        (b : ℕ) (x : Piece)
        → find_piece b mb.pieces ≡ some x
        → q.addr ≤ b
        → b < q.addr + q.size
        → (b ≡ mp) ⊎ ((b ≡ q.addr) × (prev ≡ some x)) ⊎ ((b ≡ mp + p.size) × (next ≡ some x))
    parts b x found lo hi = elim (Bool-cases (ltb b mp)) [
      | inl low ↦ elim (Option-cases prev) [
        | inl gone ↦ let whole : q.addr ≡ mp = rw gone refl in absurd (ground arith)
        | inr (r, e) ↦
            let (there, before, _) = is_prev r e in
            let first : q.addr ≡ r.addr = rw e refl in
            inr (
              inl
                (ground (arith, find_piece-inside mb.start mb.pieces end r.addr b r v.tiles there)))
      ]
      | inr high ↦ elim (Bool-cases (ltb b (mp + p.size))) [
        | inl inner ↦
            inl (ground (arith, find_piece-inside mb.start mb.pieces end mp b p v.tiles here))
        | inr outer ↦ elim (Option-cases next) [
          | inl gone ↦
              let nothing : size_of next ≡ 0 = rw gone refl in absurd (ground (arith, bounds.1))
          | inr (n, e) ↦
              let (there, _) = is_next n e in
              let size : size_of next ≡ n.size = rw e refl in
              inr (
                inr (
                  ground (
                    arith,
                    bounds.1,
                    find_piece-inside mb.start mb.pieces end (mp + p.size) b n v.tiles there,
                  )))
        ]
      ]
    ]

    abbrev joined_list : List ℕ
    joined_list = unlist next (unlist prev mb.size_free_list)

    abbrev joined_block : MemBlock
    joined_block = record mb {
      pieces = mp_init q mb.pieces;
      size_free_list = mb_add_to_size_unsafe (mp_init q mb.pieces) q.addr joined_list;
    }

    prev-IsNodup : IsNodup (unlist prev mb.size_free_list)
    prev-IsNodup = unlist-IsNodup prev mb.size_free_list v.nodup

    In-joined_list :
        (b : ℕ)
        → In b joined_list ↔ (
            ((x : Piece) → next ≡ some x → b ≢ x.addr)
            × ((x : Piece) → prev ≡ some x → b ≢ x.addr)
            × In b mb.size_free_list)
    In-joined_list b =
        let outer = In-unlist next b (unlist prev mb.size_free_list) prev-IsNodup in
        let inner = In-unlist prev b mb.size_free_list v.nodup in
        (
          λ m. let (a, l) = outer.0 m in let (c, k) = inner.0 l in (a, c, k),
          λ m. outer.1 (m.0, inner.1 (m.1, m.2)),
        )

    -- A free piece that is not joined lies outside.
    outside :
        (b : ℕ) (x : Piece)
        → find_piece b mb.pieces ≡ some x
        → b ≢ mp
        → ((y : Piece) → prev ≡ some y → b ≢ y.addr)
        → ((y : Piece) → next ≡ some y → b ≢ y.addr)
        → find_piece b (mp_init q mb.pieces) ≡ some x
    outside b x found ne np nn = elim (Bool-cases (ltb b q.addr)) [
      | inl before ↦ ground (arith, find-joined b)
      | inr not_before ↦ elim (Bool-cases (ltb b (q.addr + q.size))) [
        | inl under ↦ elim (parts b x found (ground arith) (ground arith)) [
          | inl same ↦ absurd (ne same)
          | inr (inl (_, e)) ↦ absurd (np x e (sym (find_piece-addr b mb.pieces x found)))
          | inr (inr (_, e)) ↦ absurd (nn x e (sym (find_piece-addr b mb.pieces x found)))
        ]
        | inr past ↦ ground (arith, find-joined b, least)
      ]
    ]

    q-unlisted : ¬ In q.addr joined_list
    q-unlisted m =
        let (_, np, old) = (In-joined_list q.addr).0 m in
        elim (Option-cases prev) [
          | inl gone ↦
              let whole : q.addr ≡ mp = rw gone refl in
              let (x, e, f) = v.listed q.addr old in ground arith
          | inr (r, e) ↦ let first : q.addr ≡ r.addr = rw e refl in np r e first
        ]

    -- The list without the parts is in order under the new pieces.
    joined_list-IsSorted : IsSorted (mp_init q mb.pieces) joined_list
    joined_list-IsSorted =
        IsSorted-same mb.pieces (mp_init q mb.pieces) joined_list
          (λ b on.
            let (nn, np, old) = (In-joined_list b).0 on in
            let (x, e, f) = v.listed b old in
            let found : find_piece b (mp_init q mb.pieces) ≡ some x =
              outside b x e (λ same. ground arith) np nn in
            rw (found, e) refl)
          (unlist-IsSorted mb.pieces next (unlist prev mb.size_free_list)
            (unlist-IsSorted mb.pieces prev mb.size_free_list v.sorted))

    joined-IsValid : IsValid joined_block
    joined-IsValid = record {
      tiles =
          mp_init-Tiles q mb.start mb.pieces end v.tiles (omega (arith, least)) q_start q-IsEdge;
      listed = λ b m.
          elim ((In-mb_add_to_size_unsafe (mp_init q mb.pieces) q.addr b joined_list).0 m) [
            | inl new ↦ (q, ground (arith, find-joined b), refl)
            | inr old ↦
                let (nn, np, on) = (In-joined_list b).0 old in
                let (x, e, f) = v.listed b on in (x, outside b x e (λ same. ground arith) np nn, f)
          ];
      all_free = λ b x e f.
          (In-mb_add_to_size_unsafe (mp_init q mb.pieces) q.addr b joined_list).1
            (elim (Bool-cases (q.addr == b)) [
              | inl new ↦ inl (ground arith)
              | inr old ↦
                  let found : find_piece b mb.pieces ≡ some x = ground (arith, find-joined b) in
                  inr (
                    (In-joined_list b).1 (
                      λ y ey same. next_apart b x y old e ey same,
                      λ y ey same. prev_apart b y old ey same,
                      v.all_free b x found f,
                    ))
            ]);
      nodup =
          mb_add_to_size_unsafe-IsNodup (mp_init q mb.pieces) q.addr joined_list q-unlisted
            (unlist-IsNodup next (unlist prev mb.size_free_list) prev-IsNodup);
      sorted =
          mb_add_to_size_unsafe-IsSorted (mp_init q mb.pieces) q.addr joined_list
            joined_list-IsSorted;
    }
      where
        prev_apart : (b : ℕ) (y : Piece) → (q.addr == b) ≡ false → prev ≡ some y → b ≡ y.addr → ⊥
        prev_apart b y old ey same = let first : q.addr ≡ y.addr = rw ey refl in ground arith

        next_apart :
            (b : ℕ) (x y : Piece)
            → (q.addr == b) ≡ false
            → find_piece b (mp_init q mb.pieces) ≡ some x
            → next ≡ some y
            → b ≡ y.addr
            → ⊥
        next_apart b x y old e ey same =
            let (there, _) = is_next y ey in
            let addr = find_piece-addr (mp + p.size) mb.pieces y there in
            let size : size_of next ≡ y.size = rw ey refl in
            let (_, wide) = piece_size mb.start mb.pieces end (mp + p.size) y v.tiles there in
            ground (arith, find-joined b, bounds, least)

    pub joined-Coalesced :
        ((r : Piece) → EndsFreeAt mb mp r → prev ≡ some r)
        → ((n : Piece) → StartsFreeAt mb (mp + p.size) n → next ≡ some n)
        → Coalesced mb mp p joined_block
    joined-Coalesced all_prev all_next = record {
      valid = joined-IsValid;
      joined_piece = q;
      found = ground (arith, find-joined q.addr);
      is_free = refl;
      with_prev = λ r there. rw (all_prev r there) refl;
      no_prev = λ never. elim (Option-cases prev) [
        | inl gone ↦ rw gone refl
        | inr (r, e) ↦ let (there, ends, free) = is_prev r e in absurd (never r (there, free, ends))
      ];
      with_next = λ n there.
          let size : size_of next ≡ n.size = rw (all_next n there) refl in omega (arith, bounds.1);
      no_next = λ never. elim (Option-cases next) [
        | inl gone ↦ let size : size_of next ≡ 0 = rw gone refl in omega (arith, bounds.1)
        | inr (n, e) ↦ absurd (never n (is_next n e))
      ];
      others = λ b x ne alloc found.
          outside b x found ne (λ y e same. ground (arith, is_prev y e))
            (λ y e same. ground (arith, is_next y e, find_piece-addr (mp + p.size) mb.pieces y));
      other_free = λ b x (there, free) apart behind.
          outside b x there (λ same. ground arith) (λ y e same. ground (arith, is_prev y e))
            (λ y e same. ground (arith, is_next y e, find_piece-addr (mp + p.size) mb.pieces y));
    }
