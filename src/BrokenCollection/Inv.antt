-- ===== src/BrokenCollection/Inv.antt =====
-- util_src/data.c: the elements that a broken collection stands for, and its invariant.
use chvm.Base.{
  ℕ, zero, suc, ◌+◌, ◌-◌, ◌≤◌, ◌<◌, ◌≡◌, refl, ◌∙◌, ap, ◌↔◌, ◌⊎◌, inl, inr, Bool, true, List, [],
  ◌∷◌, ◌++◌, arith, get_or, length, replicate, length-replicate,
}
use chvm.Base.Result.{ok, exited}
use chvm.BrokenCollection.{BrokenCollection, new_broken_collection, bc_empty}
use chvm.BrokenCollection.Flat.{base, base-lt, concat, AllSize}

module _ {A : Type 0} (blank : A) where
  -- `n` cells from `lo` on.
  abbrev pub segment : ℕ → ℕ → List A → List A
  segment zero lo cells = []
  segment (suc n) lo cells = get_or cells lo blank ∷ segment n (lo + 1) cells

  segment-shift :
      (n lo lo' : ℕ) (cells cells' : List A)
      → ((k : ℕ) → k < n → get_or cells (lo + k) blank ≡ get_or cells' (lo' + k) blank)
      → segment n lo cells ≡ segment n lo' cells'
  segment-shift zero lo lo' cells cells' same = refl
  segment-shift (suc n) lo lo' cells cells' same =
      let here : get_or cells lo blank ≡ get_or cells' lo' blank = ground (arith, same 0) in
      let rest =
        segment-shift n (lo + 1) (lo' + 1) cells cells' (λ k h. ground (arith, same (k + 1))) in
      cc

  segment-snoc :
      (n lo : ℕ) (cells : List A)
      → segment (suc n) lo cells ≡ segment n lo cells ++ get_or cells (lo + n) blank ∷ []
  segment-snoc zero lo cells = ground arith
  segment-snoc (suc n) lo cells =
      let rest = segment-snoc n (lo + 1) cells in
      let same : lo + 1 + n ≡ lo + suc n = omega arith in
      ap (◌∷◌ (get_or cells lo blank)) (rest ∙ rw same refl)

  abbrev pub cells : BrokenCollection A → List A
  cells bc = concat bc.tables

  -- The positions of the first element and behind the last one among all cells.
  abbrev pub start : BrokenCollection A → ℕ
  start bc = base bc.table_size bc.first + bc.first_start

  abbrev pub stop : BrokenCollection A → ℕ
  stop bc = base bc.table_size bc.last + bc.last_end

  -- The elements, from the front to the back.
  abbrev pub contents : BrokenCollection A → List A
  contents bc = segment (stop bc - start bc) (start bc) (cells bc)

  pub record IsValid (bc : BrokenCollection A) : Type 0 where
    pub size_pos : 0 < bc.table_size
    pub sizes : AllSize bc.table_size bc.tables
    pub last_in : bc.last < length bc.tables
    pub end_in : bc.last_end < bc.table_size
    pub start_in : bc.first_start < bc.table_size
    pub order : (bc.first < bc.last) ⊎ (bc.first ≡ bc.last) × (bc.first_start ≤ bc.last_end)

  pub start-le-stop : (bc : BrokenCollection A) → IsValid bc → start bc ≤ stop bc
  start-le-stop bc v = elim v.order [
    | inl lt ↦ omega (arith, base-lt bc.table_size bc.first bc.last lt, v.start_in)
    | inr (e, le) ↦ rw e (omega arith)
  ]

  pub bc_empty_iff :
      (bc : BrokenCollection A) → IsValid bc → (bc_empty blank bc ≡ true) ↔ (start bc ≡ stop bc)
  bc_empty_iff bc v = elim v.order [
    | inl lt ↦ ground (arith, base-lt bc.table_size bc.first bc.last lt, v.start_in)
    | inr (e, le) ↦ rw e (ground arith)
  ]

  -- The collection with one element more at its back, and with one more at its front.
  pub contents-back :
      (small big : BrokenCollection A) (x : A)
      → start small ≤ stop small
      → start big ≡ start small
      → stop big ≡ stop small + 1
      → ((k : ℕ)
          → start small ≤ k
          → k < stop small
          → get_or (cells big) k blank ≡ get_or (cells small) k blank)
      → get_or (cells big) (stop small) blank ≡ x
      → contents big ≡ contents small ++ x ∷ []
  contents-back small big x le eb es same new =
      let n : ℕ = stop small - start small in
      let size : stop big - start big ≡ suc n = omega arith in
      let last : start small + n ≡ stop small = omega arith in
      let old =
        segment-shift n (start small) (start small) (cells big) (cells small)
          (λ k h. same (start small + k) (omega arith) (omega arith)) in
      rw (size, eb) (segment-snoc n (start small) (cells big) ∙ rw (last, new, old) refl)

  pub contents-front :
      (small big : BrokenCollection A) (d : ℕ) (x : A)
      → start small ≤ stop small
      → start big + 1 ≡ start small + d
      → stop big ≡ stop small + d
      → ((k : ℕ)
          → start small ≤ k
          → k < stop small
          → get_or (cells big) (k + d) blank ≡ get_or (cells small) k blank)
      → get_or (cells big) (start big) blank ≡ x
      → contents big ≡ x ∷ contents small
  contents-front small big d x le eb es same new =
      let n : ℕ = stop small - start small in
      let size : stop big - start big ≡ suc n = omega arith in
      let old = segment-shift n (start big + 1) (start small) (cells big) (cells small) (λ k h.
        let at : start big + 1 + k ≡ start small + k + d = omega arith in
        rw at (same (start small + k) (omega arith) (omega arith))) in
      rw (size, new, old) refl

  -- A new collection is valid and empty; a cell size or a table size of zero ends the process.
  pub new_broken_collection-IsValid :
      (cs ts : ℕ) (del : Bool)
      → ((cs ≡ 0) ⊎ (ts ≡ 0) → new_broken_collection blank cs ts del ≡ exited)
        × (0 < cs
            → 0 < ts
            → (bc : BrokenCollection A) × (new_broken_collection blank cs ts del ≡ ok bc)
              × IsValid bc
              × (contents bc ≡ []))
  unfolding new_broken_collection
  new_broken_collection-IsValid cs ts del = (
    λ h. ground arith,
    λ h1 h2. (
      record {
        table_size = ts;
        delete_empty_tables = del;
        tables = replicate ts blank ∷ [];
        first = 0;
        first_start = 0;
        last = 0;
        last_end = 0;
      },
      ground arith,
      record {
        size_pos = h2;
        sizes = (length-replicate ts blank, tt);
        last_in = omega arith;
        end_in = h2;
        start_in = h2;
        order = inr (refl, omega arith);
      },
      refl,
    ),
  )
