-- ===== src/BrokenCollection/Push.antt =====
-- util_src/data.c: `bc_push_back`.
use chvm.Base.{
  ℕ, ◌+◌, ◌≤◌, ◌<◌, ◌≡◌, refl, ◌∙◌, inl, inr, [], ◌∷◌, ◌++◌, arith, ltb, ◌==◌, if◌then◌else◌,
  get_or, set, length, replicate, length-replicate, length-set, length-append, Bool-cases,
}
use chvm.BrokenCollection.{BrokenCollection, set_cell, advance, bc_push_back}
use chvm.BrokenCollection.Flat.{
  base-lt, base-suc, AllSize, AllSize-at, set-AllSize, append-AllSize, length-concat,
  get_or-concat-set, concat-append,
}
use chvm.BrokenCollection.Inv.{IsValid, contents, contents-back, stop, cells, start-le-stop}

module _ {A : Type 0} (blank : A) where
  -- A write to a cell of the chain.
  pub set_cell-sizes :
      (bc : BrokenCollection A) (i j : ℕ) (x : A)
      → AllSize bc.table_size bc.tables
      → i < length bc.tables
      → AllSize bc.table_size (set_cell blank bc i j x).tables
  set_cell-sizes bc i j x s h =
      set-AllSize bc.table_size bc.tables i (set (get_or bc.tables i []) j x) s
        (length-set (get_or bc.tables i []) j x ∙ AllSize-at bc.table_size bc.tables i s h)

  module _ (bc : BrokenCollection A) (x : A) (v : IsValid blank bc) where
    abbrev placed : BrokenCollection A
    placed = record (set_cell blank bc bc.last bc.last_end x) { last_end = bc.last_end + 1 }

    cells-placed :
        (k : ℕ)
        → get_or (cells blank placed) k blank
          ≡ (if stop blank bc == k then x else get_or (cells blank bc) k blank)
    cells-placed k =
        get_or-concat-set bc.table_size bc.tables bc.last bc.last_end k x blank v.sizes v.last_in
          v.end_in

    contents-placed : contents blank placed ≡ contents blank bc ++ x ∷ []
    contents-placed =
        contents-back blank bc placed x (start-le-stop blank bc v) refl (omega arith)
          (λ k l h. ground (arith, cells-placed k)) (ground (arith, cells-placed (stop blank bc)))

    length-placed : length placed.tables ≡ length bc.tables
    length-placed = length-set bc.tables bc.last (set (get_or bc.tables bc.last []) bc.last_end x)

    sizes-placed : AllSize bc.table_size placed.tables
    sizes-placed = set_cell-sizes bc bc.last bc.last_end x v.sizes v.last_in

    advanced-IsValid : IsValid blank (advance blank placed)
    unfolding advance
    advanced-IsValid = record {
      size_pos = v.size_pos;
      sizes = elim (Bool-cases (bc.last + 1 == length placed.tables)) [
        | inl end ↦ rw end (
            append-AllSize bc.table_size placed.tables (replicate bc.table_size blank) sizes-placed
              (length-replicate bc.table_size blank))
        | inr inner ↦ rw inner sizes-placed
      ];
      last_in = ground (
        arith,
        length-append placed.tables (replicate bc.table_size blank ∷ []),
        length-placed,
        v.last_in,
      );
      end_in = v.size_pos;
      start_in = v.start_in;
      order = inl (ground (arith, v.order));
    }

    cells-advanced :
        (k : ℕ)
        → k < length (cells blank placed)
        → get_or (cells blank (advance blank placed)) k blank ≡ get_or (cells blank placed) k blank
    unfolding advance
    cells-advanced k h =
        ground (arith, concat-append placed.tables (replicate bc.table_size blank) k blank)

    inside : stop blank bc < length (cells blank placed)
    inside = omega (
      arith,
      length-concat bc.table_size placed.tables sizes-placed,
      base-lt bc.table_size bc.last (length placed.tables)
          (omega (arith, length-placed, v.last_in)),
      v.end_in,
    )

    contents-advanced :
        bc.table_size ≤ bc.last_end + 1
        → contents blank (advance blank placed) ≡ contents blank bc ++ x ∷ []
    unfolding advance
    contents-advanced full =
        contents-back blank bc (advance blank placed) x (start-le-stop blank bc v) refl
          (omega (arith, base-suc bc.table_size bc.last, v.end_in))
          (λ k l h. cells-advanced k (omega (arith, inside)) ∙ ground (arith, cells-placed k))
          (cells-advanced (stop blank bc) inside ∙ ground (arith, cells-placed (stop blank bc)))

    -- `bc_push_back` of a valid collection gives a valid one with the element behind the others.
    pub bc_push_back_lem :
        IsValid blank (bc_push_back blank bc x)
        × (contents blank (bc_push_back blank bc x) ≡ contents blank bc ++ x ∷ [])
    unfolding bc_push_back
    bc_push_back_lem = elim (Bool-cases (ltb (bc.last_end + 1) bc.table_size)) [
      | inl room ↦ rw room (
        record {
          size_pos = v.size_pos;
          sizes = sizes-placed;
          last_in = omega (arith, length-placed, v.last_in);
          end_in = ground arith;
          start_in = v.start_in;
          order = ground (arith, v.order);
        },
        contents-placed,
      )
      | inr full ↦ rw full (advanced-IsValid, contents-advanced (ground arith))
    ]
