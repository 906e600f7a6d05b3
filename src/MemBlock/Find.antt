-- ===== src/MemBlock/Find.antt =====
-- gc_src/mb.c: which piece starts at an address after a write, and the list of free pieces.
use chvm.Base.{
  ℕ, ◌+◌, ◌≤◌, ◌<◌, ◌≡◌, refl, ap, ◌↔◌, ◌⊎◌, inl, inr, true, false, none, some, List, [], ◌∷◌,
  arith, ltb, ◌==◌, if◌then◌else◌, Bool-cases, In,
}
use chvm.MemBlock.{Piece, find_piece, mp_init, mp_min_size, set_vaddr, mb_add_to_size_unsafe}
use chvm.MemBlock.Tiles.{Tiles, IsEdge, edge-le, mp_init-past}
use chvm.AddrBook.{Vaddr}

-- No piece starts inside another one.
pub find_piece-before :
    (s : ℕ) (ps : List Piece) (e b : ℕ) → Tiles s ps e → b < s → find_piece b ps ≡ none
find_piece-before s [] e b t lt = refl
find_piece-before s (p ∷ ps) e b (at, big, t) lt =
    ground (arith, find_piece-before (s + p.size) ps e b t)

pub find_piece-inside :
    (s : ℕ) (ps : List Piece) (e a b : ℕ) (p : Piece)
    → Tiles s ps e
    → find_piece a ps ≡ some p
    → a < b
    → b < a + p.size
    → find_piece b ps ≡ none
find_piece-inside s [] e a b p t here lo hi = refl
find_piece-inside s (h ∷ ps) e a b p (at, big, t) here lo hi = elim (Bool-cases (h.addr == a)) [
  | inl found ↦
      let piece : h ≡ p = ground arith in
      let size : h.size ≡ p.size = ap (λ (x : Piece). x.size) piece in
      ground (arith, find_piece-before (s + h.size) ps e b t)
  | inr further ↦
      ground (arith, find_piece-inside (s + h.size) ps e a b p t, edge-le (s + h.size) ps e a t)
]

-- Where a piece ends another one starts, or the block ends.
pub IsEdge-after :
    (s : ℕ) (ps : List Piece) (e a : ℕ) (p : Piece)
    → Tiles s ps e
    → find_piece a ps ≡ some p
    → IsEdge (a + p.size) ps e
IsEdge-after s [] e a p t here = cc
IsEdge-after s (h ∷ []) e a p (at, big, t) here = ground arith
IsEdge-after s (h ∷ g ∷ ps) e a p (at, big, t) here = elim (Bool-cases (h.addr == a)) [
  | inl found ↦
      let piece : h ≡ p = ground arith in
      let size : h.size ≡ p.size = ap (λ (x : Piece). x.size) piece in
      let next : g.addr ≡ a + p.size = ground arith in inr (ground arith)
  | inr further ↦ ground (arith, IsEdge-after (s + h.size) (g ∷ ps) e a p t)
]

-- A write over one whole piece.
pub find_piece-mp_init :
    (q : Piece) (s : ℕ) (ps : List Piece) (e b : ℕ) (p : Piece)
    → Tiles s ps e
    → find_piece q.addr ps ≡ some p
    → q.size ≡ p.size
    → find_piece b (mp_init q ps) ≡ (if q.addr == b then some q else find_piece b ps)
unfolding mp_init
find_piece-mp_init q s [] e b p t here same = cc
find_piece-mp_init q s (h ∷ ps) e b p (at, big, t) here same =
    elim (Bool-cases (h.addr == q.addr)) [
      | inl found ↦
          let piece : h ≡ p = ground arith in
          let size : h.size ≡ p.size = ap (λ (x : Piece). x.size) piece in
          let end : s + h.size ≡ q.addr + q.size = ground arith in
          let past = mp_init-past q ps e (rw end at t) in
          let t1 : ltb h.addr q.addr ≡ false = ground arith in
          let t2 : ltb h.addr (q.addr + q.size) ≡ true = ground arith in
          rw (t1, t2, past) (ground arith)
      | inr further ↦
          let reach = edge-le (s + h.size) ps e q.addr t (inr (ground arith)) in
          let t1 : ltb h.addr q.addr ≡ true = ground arith in
          rw t1 (ground (arith, find_piece-mp_init q (s + h.size) ps e b p t))
    ]

-- The cut of a piece into two.
pub find_piece-cut :
    (big new : Piece) (s : ℕ) (ps : List Piece) (e b : ℕ) (p : Piece)
    → Tiles s ps e
    → find_piece big.addr ps ≡ some p
    → mp_min_size ≤ big.size
    → new.addr ≡ big.addr + big.size
    → big.size + new.size ≡ p.size
    → find_piece b (mp_init big (mp_init new ps))
      ≡ (if big.addr == b then some big else if new.addr == b then some new else find_piece b ps)
unfolding mp_init
find_piece-cut big new s [] e b p t here m1 next sum = cc
find_piece-cut big new s (h ∷ ps) e b p (at, least, t) here m1 next sum =
    elim (Bool-cases (h.addr == big.addr)) [
      | inl found ↦
          let piece : h ≡ p = ground arith in
          let size : h.size ≡ p.size = ap (λ (x : Piece). x.size) piece in
          let end : s + h.size ≡ new.addr + new.size = ground arith in
          let inner : mp_init new ps ≡ new ∷ ps = mp_init-past new ps e (rw end at t) in
          let t1 : ltb h.addr new.addr ≡ true = ground arith in
          let t2 : ltb h.addr big.addr ≡ false = ground arith in
          let t3 : ltb h.addr (big.addr + big.size) ≡ true = ground arith in
          let t4 : ltb new.addr big.addr ≡ false = ground arith in
          let t5 : ltb new.addr (big.addr + big.size) ≡ false = ground arith in
          rw (t1, inner, t2, t3, t4, t5) (ground arith)
      | inr further ↦
          let reach = edge-le (s + h.size) ps e big.addr t (inr (ground arith)) in
          let t1 : ltb h.addr new.addr ≡ true = ground arith in
          let t2 : ltb h.addr big.addr ≡ true = ground arith in
          rw (t1, t2) (ground (arith, find_piece-cut big new (s + h.size) ps e b p t))
    ]

pub find_piece-set_vaddr :
    (a : ℕ) (v : Vaddr) (ps : List Piece) (b : ℕ) (p : Piece)
    → find_piece a ps ≡ some p
    → find_piece b (set_vaddr a v ps)
      ≡ (if a == b then some (record p { vaddr = v }) else find_piece b ps)
unfolding set_vaddr
find_piece-set_vaddr a v [] b p here = cc
find_piece-set_vaddr a v (h ∷ ps) b p here = elim (Bool-cases (h.addr == a)) [
  | inl found ↦ let piece : h ≡ p = ground arith in rw (found, piece) (ground arith)
  | inr further ↦ rw further (ground (arith, find_piece-set_vaddr a v ps b p))
]

abbrev pub IsNodup : List ℕ → Type 0
IsNodup [] = Unit
IsNodup (i ∷ is) = (¬ In i is) × IsNodup is

-- The list gains the piece and keeps its others.
pub In-mb_add_to_size_unsafe :
    (ps : List Piece) (a b : ℕ) (is : List ℕ)
    → In b (mb_add_to_size_unsafe ps a is) ↔ ((b ≡ a) ⊎ In b is)
unfolding mb_add_to_size_unsafe
In-mb_add_to_size_unsafe ps a b [] = ground arith
In-mb_add_to_size_unsafe ps a b (i ∷ is) = ground (arith, In-mb_add_to_size_unsafe ps a b is)

pub mb_add_to_size_unsafe-IsNodup :
    (ps : List Piece) (a : ℕ) (is : List ℕ)
    → ¬ In a is
    → IsNodup is
    → IsNodup (mb_add_to_size_unsafe ps a is)
unfolding mb_add_to_size_unsafe
mb_add_to_size_unsafe-IsNodup ps a [] off n = (off, tt)
mb_add_to_size_unsafe-IsNodup ps a (i ∷ is) off (fresh, n) =
    ground (arith, In-mb_add_to_size_unsafe ps a i is, mb_add_to_size_unsafe-IsNodup ps a is)

-- A write at the end of a piece, from an address inside it.
pub find_piece-mp_init_end :
    (new : Piece) (s : ℕ) (ps : List Piece) (e a b : ℕ) (p : Piece)
    → Tiles s ps e
    → find_piece a ps ≡ some p
    → a < new.addr
    → new.addr + new.size ≡ a + p.size
    → find_piece b (mp_init new ps) ≡ (if new.addr == b then some new else find_piece b ps)
unfolding mp_init
find_piece-mp_init_end new s [] e a b p t here lo ends = cc
find_piece-mp_init_end new s (h ∷ ps) e a b p (at, least, t) here lo ends =
    elim (Bool-cases (h.addr == a)) [
      | inl found ↦
          let piece : h ≡ p = ground arith in
          let size : h.size ≡ p.size = ap (λ (x : Piece). x.size) piece in
          let end : s + h.size ≡ new.addr + new.size = ground arith in
          let inner : mp_init new ps ≡ new ∷ ps = mp_init-past new ps e (rw end at t) in
          let t1 : ltb h.addr new.addr ≡ true = ground arith in rw (t1, inner) (ground arith)
      | inr further ↦
          let reach = edge-le (s + h.size) ps e a t (inr (ground arith)) in
          let t1 : ltb h.addr new.addr ≡ true = ground arith in
          rw t1 (ground (arith, find_piece-mp_init_end new (s + h.size) ps e a b p t))
    ]
