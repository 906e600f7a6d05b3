-- ===== src/MemBlock/Neighbours.antt =====
-- gc_src/mb.c: a write over several pieces, the removal from the list of free pieces, and the free
-- neighbours of a piece.
use chvm.Base.{
  ℕ, ◌+◌, ◌≤◌, ◌<◌, ◌≡◌, refl, ◌∙◌, ap, ◌≢◌, ◌↔◌, inl, inr, false, not, ◌&&◌, Option, none, some,
  List, [], ◌∷◌, arith, ltb, ◌==◌, if◌then◌else◌, Bool-cases, In,
}
use chvm.MemBlock.{
  Piece, find_piece, mp_init, mp_min_size, free_before, unlist, mb_remove_from_size_unsafe,
}
use chvm.MemBlock.Tiles.{Tiles, IsEdge, edge-le, Tiles-le}
use chvm.MemBlock.Find.{find_piece-before, IsNodup}

find_piece-over :
    (q : Piece) (s : ℕ) (ps : List Piece) (e b : ℕ)
    → Tiles s ps e
    → q.addr ≤ s
    → s ≤ q.addr + q.size
    → mp_min_size ≤ q.size
    → IsEdge (q.addr + q.size) ps e
    → find_piece b (mp_init q ps)
      ≡ (if q.addr == b then some q else if ltb b (q.addr + q.size) then none else find_piece b ps)
unfolding mp_init
find_piece-over q s [] e b t lo hi m edge = ground arith
find_piece-over q s (h ∷ ps) e b (at, big, t) lo hi m edge =
    elim (Bool-cases (ltb h.addr (q.addr + q.size))) [
      | inl under ↦
          let left : ltb h.addr q.addr ≡ false = ground arith in
          let later : IsEdge (q.addr + q.size) ps e = ground arith in
          let reach = edge-le (s + h.size) ps e (q.addr + q.size) t later in
          let rest = find_piece-over q (s + h.size) ps e b t (omega arith) reach m later in
          rw (left, under) (ground arith)
      | inr past ↦
          let left : ltb h.addr q.addr ≡ false = ground arith in
          rw (left, past) (ground (arith, find_piece-before s (h ∷ ps) e b (at, big, t)))
    ]

-- The pieces after a write over whole pieces.
pub find_piece-mp_init_over :
    (q : Piece) (s : ℕ) (ps : List Piece) (e b : ℕ)
    → Tiles s ps e
    → mp_min_size ≤ q.size
    → find_piece q.addr ps ≢ none
    → IsEdge (q.addr + q.size) ps e
    → find_piece b (mp_init q ps) ≡ (
        if q.addr == b
        then some q
        else if ltb q.addr b
        then (if ltb b (q.addr + q.size) then none else find_piece b ps)
        else find_piece b ps)
unfolding mp_init
find_piece-mp_init_over q s [] e b t m here edge = absurd (here refl)
find_piece-mp_init_over q s (h ∷ ps) e b (at, big, t) m here edge =
    elim (Bool-cases (ltb h.addr q.addr)) [
      | inl before ↦
          let later : find_piece q.addr ps ≢ none = ground arith in
          let edge_later : IsEdge (q.addr + q.size) ps e = ground arith in
          rw before
            (ground (arith, find_piece-mp_init_over q (s + h.size) ps e b t m later edge_later))
      | inr there ↦
          let same : q.addr ≡ s =
            ground (arith, edge-le s (h ∷ ps) e q.addr (at, big, t) (inr here)) in
          let over =
            find_piece-over q s (h ∷ ps) e b (at, big, t) (omega arith) (omega arith) m edge in
          let past : b < s → find_piece b (h ∷ ps) ≡ none =
            λ lt. find_piece-before s (h ∷ ps) e b (at, big, t) lt in
          over ∙ ground arith
    ]

pub In-mb_remove_from_size_unsafe :
    (a b : ℕ) (is : List ℕ)
    → IsNodup is
    → In b (mb_remove_from_size_unsafe a is) ↔ ((b ≢ a) × In b is)
unfolding mb_remove_from_size_unsafe
In-mb_remove_from_size_unsafe a b [] n = ground arith
In-mb_remove_from_size_unsafe a b (i ∷ is) (fresh, n) = elim (Bool-cases (i == a)) [
  | inl here ↦ let same : i ≡ a = ground arith in rw here (ground arith)
  | inr away ↦ rw away (ground (arith, In-mb_remove_from_size_unsafe a b is n))
]

pub mb_remove_from_size_unsafe-IsNodup :
    (a : ℕ) (is : List ℕ) → IsNodup is → IsNodup (mb_remove_from_size_unsafe a is)
unfolding mb_remove_from_size_unsafe
mb_remove_from_size_unsafe-IsNodup a [] n = n
mb_remove_from_size_unsafe-IsNodup a (i ∷ is) (fresh, n) = elim (Bool-cases (i == a)) [
  | inl here ↦ rw here n
  | inr away ↦ rw away (
    λ on. fresh ((In-mb_remove_from_size_unsafe a i is n).0 on).1,
    mb_remove_from_size_unsafe-IsNodup a is n,
  )
]

pub free_before_lem :
    (s : ℕ) (ps : List Piece) (e a : ℕ) (p : Piece)
    → Tiles s ps e
    → free_before a ps ≡ some p
    → (find_piece p.addr ps ≡ some p)
      × (p.addr + p.size ≡ a)
      × (p.alloc ≡ false)
      × (s ≤ p.addr)
      × (mp_min_size ≤ p.size)
free_before_lem s [] e a p t f = cc
free_before_lem s (h ∷ ps) e a p (at, big, t) f =
    elim (Bool-cases ((h.addr + h.size == a) && not h.alloc)) [
      | inl here ↦
          let piece : h ≡ p = ground arith in
          let addr : h.addr ≡ p.addr = ap (λ (x : Piece). x.addr) piece in
          let size : h.size ≡ p.size = ap (λ (x : Piece). x.size) piece in
          let flag : h.alloc ≡ p.alloc = ap (λ (x : Piece). x.alloc) piece in
          (ground arith, ground arith, ground arith, ground arith, ground arith)
      | inr further ↦
          let rest : free_before a ps ≡ some p = rw further at f in
          let facts = free_before_lem (s + h.size) ps e a p t rest in ground arith
    ]

pub find_piece-addr : (b : ℕ) (ps : List Piece) (x : Piece) → find_piece b ps ≡ some x → x.addr ≡ b
find_piece-addr b [] x e = cc
find_piece-addr b (h ∷ ps) x e = ground (arith, find_piece-addr b ps x)

pub In-unlist :
    (o : Option Piece) (b : ℕ) (is : List ℕ)
    → IsNodup is
    → In b (unlist o is) ↔ (((x : Piece) → o ≡ some x → b ≢ x.addr) × In b is)
In-unlist none b is n = (λ m. (λ x e. cc, m), λ m. m.1)
In-unlist (some r) b is n =
    let on = In-mb_remove_from_size_unsafe r.addr b is n in
    (
      λ m. (λ x e. let same : r ≡ x = ground arith in rw (← same) (on.0 m).0, (on.0 m).1),
      λ m. on.1 (m.0 r refl, m.1),
    )

pub unlist-IsNodup : (o : Option Piece) (is : List ℕ) → IsNodup is → IsNodup (unlist o is)
unlist-IsNodup none is n = n
unlist-IsNodup (some r) is n = mb_remove_from_size_unsafe-IsNodup r.addr is n

pub piece_size :
    (s : ℕ) (ps : List Piece) (e a : ℕ) (y : Piece)
    → Tiles s ps e
    → find_piece a ps ≡ some y
    → (s ≤ a) × (mp_min_size ≤ y.size)
piece_size s [] e a y t f = cc
piece_size s (h ∷ ps) e a y (at, big, t) f = elim (Bool-cases (h.addr == a)) [
  | inl here ↦
      let piece : h ≡ y = ground arith in
      let size : h.size ≡ y.size = ap (λ (x : Piece). x.size) piece in (ground arith, ground arith)
  | inr further ↦ ground (arith, piece_size (s + h.size) ps e a y t)
]

-- The converse of `free_before_lem`: the free piece that ends at an address is found.
pub free_before-eq_some :
    (s : ℕ) (ps : List Piece) (e a : ℕ) (r : Piece)
    → Tiles s ps e
    → find_piece r.addr ps ≡ some r
    → r.alloc ≡ false
    → r.addr + r.size ≡ a
    → free_before a ps ≡ some r
free_before-eq_some s [] e a r t f free ends = cc
free_before-eq_some s (h ∷ ps) e a r (at, big, t) f free ends =
    elim (Bool-cases (h.addr == r.addr)) [
      | inl here ↦
          let piece : h ≡ r = ground arith in
          let size : h.size ≡ r.size = ap (λ (x : Piece). x.size) piece in
          let flag : h.alloc ≡ r.alloc = ap (λ (x : Piece). x.alloc) piece in ground arith
      | inr further ↦
          let later : find_piece r.addr ps ≡ some r = ground arith in
          let (lo, least) = piece_size (s + h.size) ps e r.addr r t later in
          let apart : (h.addr + h.size == a) ≡ false = ground arith in
          rw apart (free_before-eq_some (s + h.size) ps e a r t later free ends)
    ]

-- A piece starts before the end of the block.
pub find_piece-lt :
    (s : ℕ) (ps : List Piece) (e a : ℕ) (y : Piece)
    → Tiles s ps e
    → find_piece a ps ≡ some y
    → a < e
find_piece-lt s [] e a y t f = cc
find_piece-lt s (h ∷ ps) e a y (at, big, t) f =
    ground (arith, find_piece-lt (s + h.size) ps e a y t, Tiles-le (s + h.size) ps e t)
