-- ===== src/BrokenCollection/Pop.antt =====
-- util_src/data.c: `bc_pop_back`.
use chvm.Base.{
  ℕ, zero, suc, ◌+◌, ◌-◌, ◌≤◌, ◌<◌, ◌≡◌, refl, sym, ◌∙◌, ◌≢◌, ◌⊎◌, inl, inr, true, false, List, [],
  ◌∷◌, ◌++◌, arith, ◌==◌, get_or, length, Bool-cases,
}
use chvm.Base.Result.{ok, exited}
use chvm.BrokenCollection.{BrokenCollection, cell_at, bc_empty, retreat, bc_pop_back, take_tables}
use chvm.BrokenCollection.Flat.{
  base, base-suc, concat, AllSize, take-AllSize, length-take, concat-take, get_or-concat_tables,
}
use chvm.BrokenCollection.Inv.{
  IsValid, contents, contents-back, start, stop, cells, start-le-stop, bc_empty_iff, segment,
}

module _ {A : Type 0} (blank : A) where
  pub contents-empty :
      (bc : BrokenCollection A)
      → IsValid blank bc
      → (bc_empty blank bc ≡ true → contents blank bc ≡ [])
        × (contents blank bc ≡ [] → bc_empty blank bc ≡ true)
  contents-empty bc v = (
    λ e.
        let none : stop blank bc - start blank bc ≡ 0 = ground (arith, bc_empty_iff blank bc v) in
        rw none refl,
    λ e.
        (bc_empty_iff blank bc v).1
          (omega (arith, start-le-stop blank bc v, no_cells (stop blank bc - start blank bc) e)),
  )
    where
      no_cells : (n : ℕ) → segment blank n (start blank bc) (cells blank bc) ≡ [] → n ≡ 0
      no_cells zero e = refl
      no_cells (suc n) e = cc

  -- The collection that a pop at the back leaves, from the one that has its last element in the
  -- table of `last`.
  record Backed (bc b : BrokenCollection A) : Type 0 where
    size : b.table_size ≡ bc.table_size
    sizes : AllSize bc.table_size b.tables
    last_in : b.last < length b.tables
    some_end : 0 < b.last_end
    end_in : b.last_end ≤ bc.table_size
    start_in : b.first_start < bc.table_size
    order : (b.first < b.last) ⊎ (b.first ≡ b.last) × (b.first_start < b.last_end)
    same_start : start blank b ≡ start blank bc
    same_stop : stop blank b ≡ stop blank bc
    same_cells :
        (k : ℕ)
        → k < stop blank b
        → get_or (cells blank b) k blank ≡ get_or (cells blank bc) k blank

  module _ (bc b : BrokenCollection A) (v : IsValid blank bc) (w : Backed bc b) where
    abbrev popped : BrokenCollection A
    popped = record b { last_end = b.last_end - 1 }

    popped-IsValid : IsValid blank popped
    popped-IsValid = record {
      size_pos = omega (arith, v.size_pos, w.size);
      sizes = rw w.size w.sizes;
      last_in = w.last_in;
      end_in = omega (arith, w.size, w.some_end, w.end_in);
      start_in = omega (arith, w.size, w.start_in);
      order = ground (arith, w.order);
    }

    contents-popped :
        contents blank bc ≡ contents blank popped ++ cell_at blank b b.last (b.last_end - 1) ∷ []
    contents-popped =
        contents-back blank popped bc (cell_at blank b b.last (b.last_end - 1))
          (start-le-stop blank popped popped-IsValid) (sym w.same_start)
          (omega (arith, w.same_stop, w.some_end)) (λ k l h. sym (w.same_cells k (omega arith)))
          (sym (w.same_cells (stop blank popped) (omega (arith, w.some_end)))
            ∙ sym (
                get_or-concat_tables b.table_size b.tables b.last (b.last_end - 1) blank
                  (rw w.size w.sizes) w.last_in (omega (arith, w.size, w.some_end, w.end_in))))

  stay-Backed :
      (bc : BrokenCollection A)
      → IsValid blank bc
      → bc_empty blank bc ≡ false
      → bc.last_end ≢ 0
      → Backed bc bc
  stay-Backed bc v some_cell ne = record {
    size = refl;
    sizes = v.sizes;
    last_in = v.last_in;
    some_end = ground arith;
    end_in = omega (arith, v.end_in);
    start_in = v.start_in;
    order = ground (arith, v.order);
    same_start = refl;
    same_stop = refl;
    same_cells = λ k h. refl;
  }

  retreat-Backed :
      (bc : BrokenCollection A)
      → IsValid blank bc
      → bc_empty blank bc ≡ false
      → bc.last_end ≡ 0
      → (b : BrokenCollection A) × (retreat blank bc ≡ ok b) × Backed bc b
  unfolding retreat
  retreat-Backed bc v some_cell e =
      let before : bc.first < bc.last = ground (arith, v.order) in
      let next : bc.last - 1 + 1 ≡ bc.last = omega arith in
      let step : base bc.table_size bc.last ≡ bc.table_size + base bc.table_size (bc.last - 1) =
        rw next at (base-suc bc.table_size (bc.last - 1)) in
      let back : List (List A) → BrokenCollection A =
        λ ts. record bc { tables = ts; last = bc.last - 1; last_end = bc.table_size } in
      let backed : (ts : List (List A))
          → AllSize bc.table_size ts
          → bc.last - 1 < length ts
          → ((k : ℕ)
              → k < base bc.table_size bc.last
              → get_or (concat ts) k blank ≡ get_or (cells blank bc) k blank)
          → Backed bc (back ts) =
        λ ts s l c. record {
          size = refl;
          sizes = s;
          last_in = l;
          some_end = v.size_pos;
          end_in = omega arith;
          start_in = v.start_in;
          order = ground (arith, v.start_in);
          same_start = refl;
          same_stop = omega arith;
          same_cells = λ k h. c k (omega arith);
        } in
      elim (Bool-cases bc.delete_empty_tables) [
        | inl del ↦ (
          back (take_tables bc.last bc.tables),
          ground arith,
          backed (take_tables bc.last bc.tables)
              (take-AllSize bc.table_size bc.last bc.tables v.sizes)
              (omega (arith, length-take bc.last bc.tables (omega (arith, v.last_in))))
              (λ k h. concat-take bc.table_size bc.last bc.tables k blank v.sizes h),
        )
        | inr keep ↦ (
          back bc.tables,
          ground arith,
          backed bc.tables v.sizes (omega (arith, v.last_in)) (λ k h. refl),
        )
      ]

  -- `bc_pop_back` of a valid collection ends the process if it is empty; otherwise it returns the
  -- last element and leaves a valid collection of the others.
  pub bc_pop_back_lem :
      (bc : BrokenCollection A)
      → IsValid blank bc
      → (contents blank bc ≡ [] → bc_pop_back blank bc ≡ exited)
        × (contents blank bc ≢ []
            → (x : A) × (bc' : BrokenCollection A) × (bc_pop_back blank bc ≡ ok (x, bc'))
              × IsValid blank bc'
              × (contents blank bc ≡ contents blank bc' ++ x ∷ []))
  unfolding bc_pop_back
  bc_pop_back_lem bc v = elim (Bool-cases (bc_empty blank bc)) [
    | inl none ↦ (λ e. rw none refl, λ ne. absurd (ne ((contents-empty bc v).0 none)))
    | inr some_cell ↦ (
      λ e. absurd (ground (arith, (contents-empty bc v).1 e)),
      λ ne. elim (Bool-cases (bc.last_end == 0)) [
        | inl edge ↦
            let (b, run, w) = retreat-Backed bc v some_cell (ground arith) in
            (
              cell_at blank b b.last (b.last_end - 1),
              popped bc b v w,
              rw (some_cell, edge, run) refl,
              popped-IsValid bc b v w,
              contents-popped bc b v w,
            )
        | inr inner ↦
            let w = stay-Backed bc v some_cell (ground arith) in
            (
              cell_at blank bc bc.last (bc.last_end - 1),
              popped bc bc v w,
              rw (some_cell, inner) refl,
              popped-IsValid bc bc v w,
              contents-popped bc bc v w,
            )
      ],
    )
  ]
