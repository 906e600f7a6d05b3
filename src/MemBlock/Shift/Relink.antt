-- ===== src/MemBlock/Shift/Relink.antt =====
-- gc_src/mb.c: the list of free pieces after a shift.
use chvm.Base.{ℕ, ◌≡◌, ◌≢◌, ◌↔◌, ◌⊎◌, inl, inr, List, [], ◌∷◌, arith, ◌==◌, Bool-cases, In}
use chvm.MemBlock.Find.{IsNodup}
use chvm.MemBlock.Shift.{relink}

pub In-relink :
    (a b x : ℕ) (is : List ℕ)
    → IsNodup is
    → In x (relink a b is) ↔ ((x ≡ b) × In a is ⊎ (x ≢ a) × In x is)
unfolding relink
In-relink a b x [] n = ground arith
In-relink a b x (i ∷ is) (fresh, n) = elim (Bool-cases (i == a)) [
  | inl here ↦ let same : i ≡ a = ground arith in rw here (ground arith)
  | inr away ↦ rw away (ground (arith, In-relink a b x is n))
]

pub relink-IsNodup : (a b : ℕ) (is : List ℕ) → ¬ In b is → IsNodup is → IsNodup (relink a b is)
unfolding relink
relink-IsNodup a b [] off n = n
relink-IsNodup a b (i ∷ is) off (fresh, n) = elim (Bool-cases (i == a)) [
  | inl here ↦ rw here (λ m. off (inr m), n)
  | inr away ↦
      rw away
        (λ m. ground (arith, In-relink a b i is n), relink-IsNodup a b is (λ m. off (inr m)) n)
]
