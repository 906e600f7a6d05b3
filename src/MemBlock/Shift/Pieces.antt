-- ===== src/MemBlock/Shift/Pieces.antt =====
-- gc_src/mb.c: the pieces after a shift. It writes the piece that moved first and the free piece
-- behind it then, over pieces that lie one behind the other.
use chvm.Base.{
  ℕ, ◌+◌, ◌≤◌, ◌<◌, ◌≡◌, refl, ap, ◌≢◌, inl, inr, true, false, none, some, List, [], ◌∷◌, arith,
  ltb, ◌==◌, if◌then◌else◌, Bool-cases,
}
use chvm.MemBlock.{Piece, find_piece, mp_init, mp_min_size}
use chvm.MemBlock.Tiles.{Tiles, IsEdge, mp_init-Tiles, cut-Tiles}
use chvm.MemBlock.Find.{find_piece-cut}
use chvm.MemBlock.Neighbours.{find_piece-mp_init_over}

-- The pieces from the address `e` on.
unfoldable pub past : ℕ → List Piece → List Piece
past e [] = []
past e (p ∷ ps) = if ltb p.addr e then past e ps else p ∷ ps

mp_init-past :
    (q : Piece) (s : ℕ) (ps : List Piece) (e : ℕ)
    → Tiles s ps e
    → q.addr ≤ s
    → mp_init q ps ≡ q ∷ past (q.addr + q.size) ps
unfolding mp_init past
mp_init-past q s [] e t lo = refl
mp_init-past q s (p ∷ ps) e (at, big, t) lo =
    let left : ltb p.addr q.addr ≡ false = ground arith in
    let rest = mp_init-past q (s + p.size) ps e t (omega arith) in
    elim (Bool-cases (ltb p.addr (q.addr + q.size))) [
      | inl under ↦ rw (left, under) rest
      | inr over ↦ rw (left, over) refl
    ]

-- A piece that is written behind the bytes of one before it.
mp_init-next :
    (q : Piece) (s : ℕ) (ps : List Piece) (e : ℕ)
    → Tiles s ps e
    → mp_init q (past q.addr ps) ≡ q ∷ past (q.addr + q.size) ps
unfolding mp_init past
mp_init-next q s [] e t = refl
mp_init-next q s (p ∷ ps) e (at, big, t) = elim (Bool-cases (ltb p.addr q.addr)) [
  | inl before ↦
      let low : ltb p.addr (q.addr + q.size) ≡ true = ground arith in
      rw (before, low) (mp_init-next q (s + p.size) ps e t)
  | inr there ↦
      let whole = mp_init-past q s (p ∷ ps) e (at, big, t) (ground arith) in rw there whole
]

mp_init-behind :
    (q : Piece) (s : ℕ) (ps : List Piece) (e : ℕ)
    → Tiles s ps e
    → mp_init q (past (q.addr + q.size) ps) ≡ q ∷ past (q.addr + q.size) ps
unfolding mp_init past
mp_init-behind q s [] e t = refl
mp_init-behind q s (p ∷ ps) e (at, big, t) = elim (Bool-cases (ltb p.addr (q.addr + q.size))) [
  | inl under ↦ rw under (mp_init-behind q (s + p.size) ps e t)
  | inr over ↦ let left : ltb p.addr q.addr ≡ false = ground arith in rw (over, left, over) refl
]

-- The two writes, where no piece starts before the first.
pub move-pieces :
    (q r : Piece) (s : ℕ) (ps : List Piece) (e : ℕ)
    → r.addr ≡ q.addr + q.size
    → 0 < q.size
    → Tiles s ps e
    → q.addr ≤ s
    → mp_init r (mp_init q ps) ≡ q ∷ r ∷ past (r.addr + r.size) ps
unfolding mp_init
move-pieces q r s ps e next least t lo =
    let first : mp_init q ps ≡ q ∷ past r.addr ps = rw next (mp_init-past q s ps e t lo) in
    let t1 : ltb q.addr r.addr ≡ true = ground arith in
    rw (first, t1) (ap (◌∷◌ q) (mp_init-next r s ps e t))

module _ (q r w : Piece) (same : w.addr ≡ q.addr) (next : r.addr ≡ q.addr + q.size)
    (end : r.addr + r.size ≡ w.addr + w.size) (least : mp_min_size ≤ q.size) where
  move-head :
      (s : ℕ) (ps : List Piece) (e : ℕ)
      → Tiles s ps e
      → q.addr ≤ s
      → mp_init r (mp_init q ps) ≡ mp_init q (mp_init r (mp_init w ps))
  unfolding mp_init
  move-head s ps e t lo =
      let first : mp_init q ps ≡ q ∷ past r.addr ps = rw next (mp_init-past q s ps e t lo) in
      let whole : mp_init w ps ≡ w ∷ past (r.addr + r.size) ps =
        rw end (mp_init-past w s ps e t (omega arith)) in
      let second = mp_init-next r s ps e t in
      let second' : mp_init r (past (r.addr + r.size) ps) ≡ r ∷ past (r.addr + r.size) ps =
        mp_init-behind r s ps e t in
      let t1 : ltb q.addr r.addr ≡ true = ground arith in
      let t2 : ltb w.addr r.addr ≡ true = ground arith in
      let t3 : ltb w.addr q.addr ≡ false = ground arith in
      let t4 : ltb w.addr (q.addr + q.size) ≡ true = ground arith in
      let t5 : ltb r.addr q.addr ≡ false = ground arith in
      let t6 : ltb r.addr (q.addr + q.size) ≡ false = ground arith in
      rw (first, whole, t1, t2, second, second', t3, t4, t5, t6) refl

  -- The result is that of one free piece over all the bytes which is then cut.
  move_lem :
      (s : ℕ) (ps : List Piece) (e : ℕ)
      → Tiles s ps e
      → find_piece q.addr ps ≢ none
      → mp_init r (mp_init q ps) ≡ mp_init q (mp_init r (mp_init w ps))
  unfolding mp_init
  move_lem s [] e t here = absurd (here refl)
  move_lem s (p ∷ ps) e (at, big, t) here = elim (Bool-cases (ltb p.addr q.addr)) [
    | inl before ↦
        let later : find_piece q.addr ps ≢ none = ground arith in
        let b1 : ltb p.addr w.addr ≡ true = ground arith in
        let b2 : ltb p.addr r.addr ≡ true = ground arith in
        rw (before, b1, b2) (rw before (ap (◌∷◌ p) (move_lem (s + p.size) ps e t later)))
    | inr there ↦ let lo : q.addr ≤ s = ground arith in move-head s (p ∷ ps) e (at, big, t) lo
  ]

  module _ (s : ℕ) (ps : List Piece) (e : ℕ) (t : Tiles s ps e) (here : find_piece q.addr ps ≢ none)
      (edge : IsEdge (w.addr + w.size) ps e) (least_r : mp_min_size ≤ r.size) where
    whole-Tiles : Tiles s (mp_init w ps) e
    whole-Tiles = mp_init-Tiles w s ps e t (omega arith) (rw same here) edge

    find-whole :
        (b : ℕ)
        → find_piece b (mp_init w ps) ≡ (
            if w.addr == b
            then some w
            else if ltb w.addr b
            then (if ltb b (w.addr + w.size) then none else find_piece b ps)
            else find_piece b ps)
    find-whole b = find_piece-mp_init_over w s ps e b t (omega arith) (rw same here) edge

    at-whole : find_piece q.addr (mp_init w ps) ≡ some w
    at-whole = ground (arith, find-whole q.addr)

    pub move-Tiles : Tiles s (mp_init r (mp_init q ps)) e
    move-Tiles =
        rw (move_lem s ps e t here)
          (cut-Tiles q r s (mp_init w ps) e w whole-Tiles at-whole least least_r next (omega arith))

    -- The two new pieces, none inside of them, and the old ones around them.
    pub find_piece-move :
        (b : ℕ)
        → find_piece b (mp_init r (mp_init q ps)) ≡ (
            if q.addr == b
            then some q
            else if r.addr == b
            then some r
            else if ltb q.addr b
            then (if ltb b (w.addr + w.size) then none else find_piece b ps)
            else find_piece b ps)
    find_piece-move b =
        let cut =
          find_piece-cut q r s (mp_init w ps) e b w whole-Tiles at-whole least next (omega arith) in
        let moved : find_piece b (mp_init r (mp_init q ps))
            ≡ find_piece b (mp_init q (mp_init r (mp_init w ps))) =
          ap (find_piece b) (move_lem s ps e t here) in
        ground (arith, find-whole b)
