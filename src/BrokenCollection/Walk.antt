-- ===== src/BrokenCollection/Walk.antt =====
-- util_src/data.c: `bc_foreach` and `bc_len`, a walk from the first element to the last.
use chvm.Base.{
  ℕ, zero, suc, ◌+◌, ◌-◌, ◌≤◌, ◌<◌, ◌≡◌, refl, ◌∙◌, ap, ◌⊎◌, inl, inr, false, ◌&&◌, List, [], ◌∷◌,
  arith, ◌==◌, get_or, length, Bool-cases,
}
use chvm.Base.Result.{ok}
use chvm.BrokenCollection.{BrokenCollection, cell_at, count_cells, foreach_from, bc_foreach, bc_len}
use chvm.BrokenCollection.Flat.{base, base-lt, base-suc, AllSize, get_or-concat_tables}
use chvm.BrokenCollection.Inv.{IsValid, contents, segment, start, stop, cells, start-le-stop}

-- The consumer on each element in turn.
abbrev pub fold {κ} : {A : Type 0} {C : Type κ} → (A → C → C) → List A → C → C
fold c [] ctx = ctx
fold c (x ∷ xs) ctx = fold c xs (c x ctx)

module _ {A : Type 0} (blank : A) where
  count_cells-base :
      (n : ℕ) (ts : List (List A)) → AllSize n ts → count_cells blank ts ≡ base n (length ts)
  count_cells-base n [] s = refl
  count_cells-base n (t ∷ ts) (e, s) = omega (arith, count_cells-base n ts s)

  module _ {C : Type 0} (c : A → C → C) (bc : BrokenCollection A) (v : IsValid blank bc) where
    -- The walk has not passed the end.
    abbrev IsBefore : ℕ → ℕ → Type 0
    IsBefore iter ind =
        (ind < bc.table_size) × ((iter < bc.last) ⊎ (iter ≡ bc.last) × (ind ≤ bc.last_end))

    abbrev at : ℕ → ℕ → ℕ
    at iter ind = base bc.table_size iter + ind

    foreach_from_lem :
        (n fuel iter ind : ℕ) (ctx : C)
        → IsBefore iter ind
        → at iter ind + n ≡ stop blank bc
        → n < fuel
        → foreach_from blank c bc fuel iter ind ctx
          ≡ ok (fold c (segment blank n (at iter ind) (cells blank bc)) ctx)
    unfolding foreach_from
    foreach_from_lem n zero iter ind ctx b e h = absurd (omega arith)
    foreach_from_lem zero (suc fuel) iter ind ctx (l, inl lt) e h =
        absurd (omega (arith, base-lt bc.table_size iter bc.last lt))
    foreach_from_lem zero (suc fuel) iter ind ctx (l, inr (same, le)) e h =
        let end : ind ≡ bc.last_end = ground arith in rw (same, end) (ground arith)
    foreach_from_lem (suc n) (suc fuel) iter ind ctx b e h =
        let x : A = cell_at blank bc iter ind in
        let here : x ≡ get_or (cells blank bc) (at iter ind) blank =
          get_or-concat_tables bc.table_size bc.tables iter ind blank v.sizes
            (ground (arith, v.last_in)) b.0 in
        let going : ((iter == bc.last) && (ind == bc.last_end)) ≡ false = ground arith in
        elim (Bool-cases (ind + 1 == bc.table_size)) [
          | inl edge ↦
              let next : at (iter + 1) 0 ≡ at iter ind + 1 =
                ground (arith, base-suc bc.table_size iter) in
              let rest =
                foreach_from_lem n fuel (iter + 1) 0 (c x ctx)
                  (v.size_pos, ground (arith, v.end_in)) (omega arith) (omega arith) in
              rw (going, edge, ← here, ← next) rest
          | inr inner ↦
              let next : at iter (ind + 1) ≡ at iter ind + 1 = omega arith in
              let rest =
                foreach_from_lem n fuel iter (ind + 1) (c x ctx) (ground arith, ground arith)
                  (omega arith) (omega arith) in
              rw (going, inner, ← here, ← next) rest
        ]

    -- `bc_foreach` of a valid collection ends, and hands the elements to the consumer from the front to
    -- the back, each once.
    pub bc_foreach_lem : (ctx : C) → bc_foreach blank c bc ctx ≡ ok (fold c (contents blank bc) ctx)
    unfolding bc_foreach
    bc_foreach_lem ctx =
        foreach_from_lem (stop blank bc - start blank bc) (count_cells blank bc.tables + 1) bc.first
          bc.first_start ctx (v.start_in, v.order) (omega (arith, start-le-stop blank bc v))
          (omega (
            arith,
            count_cells-base bc.table_size bc.tables v.sizes,
            base-lt bc.table_size bc.last (length bc.tables) v.last_in,
            v.end_in,
          ))

  fold-count : (xs : List A) (n : ℕ) → fold (λ _ len. len + 1) xs n ≡ n + length xs
  fold-count [] n = omega arith
  fold-count (x ∷ xs) n = omega (arith, fold-count xs (n + 1))

  -- `bc_len` of a valid collection ends with the number of its elements.
  pub bc_len_lem :
      (bc : BrokenCollection A)
      → IsValid blank bc
      → bc_len blank bc ≡ ok (length (contents blank bc))
  unfolding bc_len
  bc_len_lem bc v =
      bc_foreach_lem (λ _ len. len + 1) bc v 0
      ∙ ap ok (fold-count (contents blank bc) 0 ∙ omega arith)
