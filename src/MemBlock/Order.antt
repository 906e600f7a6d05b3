-- ===== src/MemBlock/Order.antt =====
-- gc_src/mb.c: the list of free pieces is in the order of their sizes, the largest first.
use chvm.Base.{
  ℕ, ◌≤◌, ◌≡◌, refl, ◌≢◌, inl, inr, Option, none, some, List, [], ◌∷◌, arith, ltb, ◌==◌, Bool-cases,
  In,
}
use chvm.MemBlock.{Piece, mp_size, unlist, mb_add_to_size_unsafe, mb_remove_from_size_unsafe}
use chvm.MemBlock.Find.{IsNodup}
use chvm.MemBlock.Shift.{relink}

-- No piece of the list is larger.
abbrev pub AllUpTo : List Piece → ℕ → List ℕ → Type 0
AllUpTo ps k [] = Unit
AllUpTo ps k (i ∷ is) = (mp_size ps i ≤ k) × AllUpTo ps k is

abbrev pub IsSorted : List Piece → List ℕ → Type 0
IsSorted ps [] = Unit
IsSorted ps (i ∷ is) = AllUpTo ps (mp_size ps i) is × IsSorted ps is

AllUpTo-le : (ps : List Piece) (k m : ℕ) (is : List ℕ) → k ≤ m → AllUpTo ps k is → AllUpTo ps m is
AllUpTo-le ps k m [] le all = tt
AllUpTo-le ps k m (i ∷ is) le (one, all) = (omega arith, AllUpTo-le ps k m is le all)

AllUpTo-add :
    (ps : List Piece) (a k : ℕ) (is : List ℕ)
    → mp_size ps a ≤ k
    → AllUpTo ps k is
    → AllUpTo ps k (mb_add_to_size_unsafe ps a is)
unfolding mb_add_to_size_unsafe
AllUpTo-add ps a k [] le all = (le, tt)
AllUpTo-add ps a k (i ∷ is) le (one, all) = elim (Bool-cases (ltb (mp_size ps a) (mp_size ps i))) [
  | inl later ↦ rw later (one, AllUpTo-add ps a k is le all)
  | inr here ↦ rw here (le, (one, all))
]

pub mb_add_to_size_unsafe-IsSorted :
    (ps : List Piece) (a : ℕ) (is : List ℕ)
    → IsSorted ps is
    → IsSorted ps (mb_add_to_size_unsafe ps a is)
unfolding mb_add_to_size_unsafe
mb_add_to_size_unsafe-IsSorted ps a [] s = (tt, tt)
mb_add_to_size_unsafe-IsSorted ps a (i ∷ is) (all, s) =
    elim (Bool-cases (ltb (mp_size ps a) (mp_size ps i))) [
      | inl later ↦ rw later (
        AllUpTo-add ps a (mp_size ps i) is (ground arith) all,
        mb_add_to_size_unsafe-IsSorted ps a is s,
      )
      | inr here ↦
          let le : mp_size ps i ≤ mp_size ps a = ground arith in
          rw here ((le, AllUpTo-le ps (mp_size ps i) (mp_size ps a) is le all), (all, s))
    ]

AllUpTo-remove :
    (ps : List Piece) (a k : ℕ) (is : List ℕ)
    → AllUpTo ps k is
    → AllUpTo ps k (mb_remove_from_size_unsafe a is)
unfolding mb_remove_from_size_unsafe
AllUpTo-remove ps a k [] all = tt
AllUpTo-remove ps a k (i ∷ is) (one, all) = elim (Bool-cases (i == a)) [
  | inl here ↦ rw here all
  | inr away ↦ rw away (one, AllUpTo-remove ps a k is all)
]

pub mb_remove_from_size_unsafe-IsSorted :
    (ps : List Piece) (a : ℕ) (is : List ℕ)
    → IsSorted ps is
    → IsSorted ps (mb_remove_from_size_unsafe a is)
unfolding mb_remove_from_size_unsafe
mb_remove_from_size_unsafe-IsSorted ps a [] s = tt
mb_remove_from_size_unsafe-IsSorted ps a (i ∷ is) (all, s) = elim (Bool-cases (i == a)) [
  | inl here ↦ rw here s
  | inr away ↦
      rw away
        (AllUpTo-remove ps a (mp_size ps i) is all, mb_remove_from_size_unsafe-IsSorted ps a is s)
]

pub unlist-IsSorted :
    (ps : List Piece) (o : Option Piece) (is : List ℕ) → IsSorted ps is → IsSorted ps (unlist o is)
unlist-IsSorted ps none is s = s
unlist-IsSorted ps (some r) is s = mb_remove_from_size_unsafe-IsSorted ps r.addr is s

module _ (ps ps' : List Piece) where
  AllUpTo-same :
      (k : ℕ) (is : List ℕ)
      → ((b : ℕ) → In b is → mp_size ps' b ≡ mp_size ps b)
      → AllUpTo ps k is
      → AllUpTo ps' k is
  AllUpTo-same k [] same all = tt
  AllUpTo-same k (i ∷ is) same (one, all) =
      (omega (arith, same i (inl refl)), AllUpTo-same k is (λ b m. same b (inr m)) all)

  -- The order stays where the sizes stay.
  pub IsSorted-same :
      (is : List ℕ)
      → ((b : ℕ) → In b is → mp_size ps' b ≡ mp_size ps b)
      → IsSorted ps is
      → IsSorted ps' is
  IsSorted-same [] same s = tt
  IsSorted-same (i ∷ is) same (all, s) =
      let rest : (b : ℕ) → In b is → mp_size ps' b ≡ mp_size ps b = λ b m. same b (inr m) in
      (rw (same i (inl refl)) (AllUpTo-same (mp_size ps i) is rest all), IsSorted-same is rest s)

  module _ (a b : ℕ) (at : mp_size ps' b ≡ mp_size ps a) where
    AllUpTo-relink :
        (k : ℕ) (is : List ℕ)
        → ((i : ℕ) → In i is → i ≢ a → mp_size ps' i ≡ mp_size ps i)
        → ¬ In a is
        → AllUpTo ps k is
        → AllUpTo ps' k is
    AllUpTo-relink k is same off all =
        AllUpTo-same k is (λ i m. same i m (λ e. off (rw (← e) m))) all

    AllUpTo-relinked :
        (k : ℕ) (is : List ℕ)
        → ((i : ℕ) → In i is → i ≢ a → mp_size ps' i ≡ mp_size ps i)
        → IsNodup is
        → AllUpTo ps k is
        → AllUpTo ps' k (relink a b is)
    unfolding relink
    AllUpTo-relinked k [] same n all = tt
    AllUpTo-relinked k (i ∷ is) same (fresh, n) (one, all) = elim (Bool-cases (i == a)) [
      | inl here ↦
          let e : i ≡ a = ground arith in
          let off : ¬ In a is = rw (← e) fresh in
          let size : mp_size ps i ≡ mp_size ps a = rw e refl in
          rw here (omega (arith, at, size), AllUpTo-relink k is (λ j m. same j (inr m)) off all)
      | inr away ↦
          let ne : i ≢ a = λ e. ground arith in
          rw away (
            omega (arith, same i (inl refl) ne),
            AllUpTo-relinked k is (λ j m. same j (inr m)) n all,
          )
    ]

    -- A piece of the same size takes the place of another one.
    pub relink-IsSorted :
        (is : List ℕ)
        → ((i : ℕ) → In i is → i ≢ a → mp_size ps' i ≡ mp_size ps i)
        → IsNodup is
        → IsSorted ps is
        → IsSorted ps' (relink a b is)
    unfolding relink
    relink-IsSorted [] same n s = tt
    relink-IsSorted (i ∷ is) same (fresh, n) (all, s) = elim (Bool-cases (i == a)) [
      | inl here ↦
          let e : i ≡ a = ground arith in
          let off : ¬ In a is = rw (← e) fresh in
          let size : mp_size ps' b ≡ mp_size ps i = rw e at in
          rw here (
            rw size (AllUpTo-relink (mp_size ps i) is (λ j m. same j (inr m)) off all),
            IsSorted-same is (λ j m. same j (inr m) (λ ej. off (rw (← ej) m))) s,
          )
      | inr away ↦
          let ne : i ≢ a = λ e. ground arith in
          rw away (
            rw (same i (inl refl) ne)
                (AllUpTo-relinked (mp_size ps i) is (λ j m. same j (inr m)) n all),
            relink-IsSorted is (λ j m. same j (inr m)) n s,
          )
    ]

-- Nothing on the list is larger than what bounds it.
pub AllUpTo-In :
    (ps : List Piece) (k : ℕ) (is : List ℕ) (b : ℕ) → AllUpTo ps k is → In b is → mp_size ps b ≤ k
AllUpTo-In ps k [] b all on = absurd on
AllUpTo-In ps k (i ∷ is) b (one, all) (inl e) = rw e one
AllUpTo-In ps k (i ∷ is) b (one, all) (inr on) = AllUpTo-In ps k is b all on
