-- ===== src/MemBlock/Tiles.antt =====
-- gc_src/mb.c: the pieces of a block lie one behind the other from its start to its end.
use chvm.Base.{
  ℕ, ◌+◌, ◌≤◌, ◌≡◌, refl, ap, ◌≢◌, ◌⊎◌, inl, inr, true, false, none, some, List, [], ◌∷◌, arith,
  ltb, ◌==◌, Bool-cases,
}
use chvm.MemBlock.{Piece, find_piece, mp_init, mp_min_size, set_vaddr}
use chvm.AddrBook.{Vaddr}

-- The pieces fill the addresses from `s` to `e`, and each has at least the least size.
abbrev pub Tiles : ℕ → List Piece → ℕ → Type 0
Tiles s [] e = s ≡ e
Tiles s (p ∷ ps) e = (p.addr ≡ s) × (mp_min_size ≤ p.size) × Tiles (s + p.size) ps e

-- An address where a piece starts or the block ends.
abbrev pub IsEdge : ℕ → List Piece → ℕ → Type 0
IsEdge b ps e = (b ≡ e) ⊎ (find_piece b ps ≢ none)

Tiles-from : (s s' : ℕ) (ps : List Piece) (e : ℕ) → s ≡ s' → Tiles s ps e → Tiles s' ps e
Tiles-from s s' ps e same t = rw same at t

pub Tiles-le : (s : ℕ) (ps : List Piece) (e : ℕ) → Tiles s ps e → s ≤ e
Tiles-le s [] e t = ground arith
Tiles-le s (p ∷ ps) e (at, big, t) = omega (arith, Tiles-le (s + p.size) ps e t)

pub edge-le : (s : ℕ) (ps : List Piece) (e b : ℕ) → Tiles s ps e → IsEdge b ps e → s ≤ b
edge-le s [] e b t (inl end) = ground arith
edge-le s [] e b t (inr there) = absurd (there refl)
edge-le s (p ∷ ps) e b (at, big, t) edge =
    ground (arith, edge-le (s + p.size) ps e b t, Tiles-le (s + p.size) ps e t)

-- A piece that is written over whole pieces from `q.addr` on takes their place.
mp_init-over :
    (q : Piece) (s : ℕ) (ps : List Piece) (e : ℕ)
    → Tiles s ps e
    → mp_min_size ≤ q.size
    → q.addr ≤ s
    → s ≤ q.addr + q.size
    → IsEdge (q.addr + q.size) ps e
    → Tiles q.addr (mp_init q ps) e
unfolding mp_init
mp_init-over q s [] e t m lo hi (inl end) = (refl, m, end)
mp_init-over q s [] e t m lo hi (inr there) = absurd (there refl)
mp_init-over q s (p ∷ ps) e (at, big, t) m lo hi edge =
    elim (Bool-cases (ltb p.addr (q.addr + q.size))) [
      | inl under ↦
          let left : ltb p.addr q.addr ≡ false = ground arith in
          let later : IsEdge (q.addr + q.size) ps e = ground arith in
          let rest =
            mp_init-over q (s + p.size) ps e t m (omega arith)
              (edge-le (s + p.size) ps e (q.addr + q.size) t later) later in
          rw (left, under) rest
      | inr past ↦
          let left : ltb p.addr q.addr ≡ false = ground arith in
          let end : q.addr + q.size ≡ s = ground arith in
          rw (left, past) (refl, m, (ground arith, big, rw end t))
    ]

-- `mp_init` at the start of a piece, up to an edge, leaves the pieces one behind the other.
pub mp_init-Tiles :
    (q : Piece) (s : ℕ) (ps : List Piece) (e : ℕ)
    → Tiles s ps e
    → mp_min_size ≤ q.size
    → find_piece q.addr ps ≢ none
    → IsEdge (q.addr + q.size) ps e
    → Tiles s (mp_init q ps) e
unfolding mp_init
mp_init-Tiles q s [] e t m here edge = absurd (here refl)
mp_init-Tiles q s (p ∷ ps) e (at, big, t) m here edge = elim (Bool-cases (ltb p.addr q.addr)) [
  | inl before ↦
      let later : find_piece q.addr ps ≢ none = ground arith in
      let edge_later : IsEdge (q.addr + q.size) ps e = ground arith in
      rw before (at, big, mp_init-Tiles q (s + p.size) ps e t m later edge_later)
  | inr there ↦
      let same : q.addr ≡ s = ground (arith, edge-le s (p ∷ ps) e q.addr (at, big, t) (inr here)) in
      let over = mp_init-over q s (p ∷ ps) e (at, big, t) m (omega arith) (omega arith) edge in
      Tiles-from q.addr s (mp_init q (p ∷ ps)) e same over
]

pub mp_init-past :
    (q : Piece) (ps : List Piece) (e : ℕ) → Tiles (q.addr + q.size) ps e → mp_init q ps ≡ q ∷ ps
unfolding mp_init
mp_init-past q [] e t = refl
mp_init-past q (p ∷ ps) e (at, big, t) =
    let left : ltb p.addr q.addr ≡ false = ground arith in
    let right : ltb p.addr (q.addr + q.size) ≡ false = ground arith in rw (left, right) refl

-- The cut of a piece: the second half is written first, then the first one.
pub cut-Tiles :
    (big new : Piece) (s : ℕ) (ps : List Piece) (e : ℕ) (p : Piece)
    → Tiles s ps e
    → find_piece big.addr ps ≡ some p
    → mp_min_size ≤ big.size
    → mp_min_size ≤ new.size
    → new.addr ≡ big.addr + big.size
    → big.size + new.size ≡ p.size
    → Tiles s (mp_init big (mp_init new ps)) e
unfolding mp_init
cut-Tiles big new s [] e p t here m1 m2 next sum = cc
cut-Tiles big new s (h ∷ ps) e p (at, least, t) here m1 m2 next sum =
    elim (Bool-cases (h.addr == big.addr)) [
      | inl found ↦
          let same : h.addr ≡ big.addr = ground arith in
          let piece : h ≡ p = ground arith in
          let size : h.size ≡ p.size = ap (λ (x : Piece). x.size) piece in
          let end : s + h.size ≡ new.addr + new.size = omega arith in
          let tail : Tiles (new.addr + new.size) ps e = rw end at t in
          let inner : mp_init new ps ≡ new ∷ ps = mp_init-past new ps e tail in
          let t1 : ltb h.addr new.addr ≡ true = ground arith in
          let t2 : ltb h.addr big.addr ≡ false = ground arith in
          let t3 : ltb h.addr (big.addr + big.size) ≡ true = ground arith in
          let t4 : ltb new.addr big.addr ≡ false = ground arith in
          let t5 : ltb new.addr (big.addr + big.size) ≡ false = ground arith in
          let n1 : new.addr ≡ s + big.size = omega arith in
          rw (t1, inner, t2, t3, t4, t5) (omega arith, m1, (n1, m2, rw (← n1) tail))
      | inr further ↦
          let later : find_piece big.addr ps ≡ some p = ground arith in
          let reach = edge-le (s + h.size) ps e big.addr t (inr (ground arith)) in
          let t1 : ltb h.addr new.addr ≡ true = ground arith in
          let t2 : ltb h.addr big.addr ≡ true = ground arith in
          rw (t1, t2) (at, least, cut-Tiles big new (s + h.size) ps e p t later m1 m2 next sum)
    ]

pub set_vaddr-Tiles :
    (a : ℕ) (v : Vaddr) (s : ℕ) (ps : List Piece) (e : ℕ)
    → Tiles s ps e
    → Tiles s (set_vaddr a v ps) e
unfolding set_vaddr
set_vaddr-Tiles a v s [] e t = t
set_vaddr-Tiles a v s (p ∷ ps) e (at, big, t) = elim (Bool-cases (p.addr == a)) [
  | inl here ↦ rw here (at, big, t)
  | inr there ↦ rw there (at, big, set_vaddr-Tiles a v (s + p.size) ps e t)
]
