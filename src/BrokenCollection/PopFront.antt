-- ===== src/BrokenCollection/PopFront.antt =====
-- util_src/data.c: `bc_pop_front`.
use chvm.Base.{
  ℕ, ◌+◌, ◌-◌, ◌<◌, ◌≡◌, refl, sym, ◌≢◌, inl, inr, false, [], ◌∷◌, arith, ◌==◌, get_or, length,
  Bool-cases,
}
use chvm.Base.Result.{ok, exited}
use chvm.BrokenCollection.{
  BrokenCollection, cell_at, bc_empty, leave_first, bc_pop_front, drop_tables,
}
use chvm.BrokenCollection.Flat.{
  base, base-suc, base-add, drop-AllSize, length-drop, concat-drop, get_or-concat_tables,
}
use chvm.BrokenCollection.Inv.{IsValid, contents, contents-front, start, stop, cells, start-le-stop}
use chvm.BrokenCollection.Pop.{contents-empty}

module _ {A : Type 0} (blank : A) where
  abbrev front_cell : BrokenCollection A → A
  front_cell bc = cell_at blank bc bc.first bc.first_start

  -- What a pop at the front leaves; the tables that it drops have `d` cells.
  record Shrunk (bc r : BrokenCollection A) (d : ℕ) : Type 0 where
    valid : IsValid blank r
    start_moved : start blank bc + 1 ≡ start blank r + d
    stop_moved : stop blank bc ≡ stop blank r + d
    moved : (k : ℕ) → get_or (cells blank bc) (k + d) blank ≡ get_or (cells blank r) k blank

  contents-Shrunk :
      (bc r : BrokenCollection A) (d : ℕ)
      → IsValid blank bc
      → Shrunk bc r d
      → contents blank bc ≡ front_cell bc ∷ contents blank r
  contents-Shrunk bc r d v w =
      contents-front blank r bc d (front_cell bc) (start-le-stop blank r w.valid) w.start_moved
        w.stop_moved (λ k l h. w.moved k)
        (sym (
          get_or-concat_tables bc.table_size bc.tables bc.first bc.first_start blank v.sizes
            (ground (arith, v.order, v.last_in)) v.start_in))

  stay-Shrunk :
      (bc : BrokenCollection A)
      → IsValid blank bc
      → bc_empty blank bc ≡ false
      → bc.first_start + 1 ≢ bc.table_size
      → Shrunk bc (record bc { first_start = bc.first_start + 1 }) 0
  stay-Shrunk bc v some_cell ne = record {
    valid = record {
      size_pos = v.size_pos;
      sizes = v.sizes;
      last_in = v.last_in;
      end_in = v.end_in;
      start_in = ground (arith, v.start_in);
      order = ground (arith, v.order);
    };
    start_moved = omega arith;
    stop_moved = omega arith;
    moved = λ k. ground arith;
  }

  module _ (bc : BrokenCollection A) (v : IsValid blank bc) (some_cell : bc_empty blank bc ≡ false)
      (edge : bc.first_start + 1 ≡ bc.table_size) where
    more : bc.first < bc.last
    more = ground (arith, v.order, v.end_in)

    kept-Shrunk : Shrunk bc (record bc { first = bc.first + 1; first_start = 0 }) 0
    kept-Shrunk = record {
      valid = record {
        size_pos = v.size_pos;
        sizes = v.sizes;
        last_in = v.last_in;
        end_in = v.end_in;
        start_in = v.size_pos;
        order = ground (arith, more);
      };
      start_moved = omega (arith, base-suc bc.table_size bc.first);
      stop_moved = omega arith;
      moved = λ k. ground arith;
    }

    dropped-Shrunk :
        Shrunk bc
          (record bc {
            tables = drop_tables (bc.first + 1) bc.tables;
            first = 0;
            first_start = 0;
            last = bc.last - (bc.first + 1);
          })
          (base bc.table_size (bc.first + 1))
    dropped-Shrunk =
        let gone : ℕ = bc.first + 1 in
        let left = length-drop gone bc.tables (omega (arith, more, v.last_in)) in
        let parts : bc.last - gone + gone ≡ bc.last = omega (arith, more) in
        let sum : base bc.table_size bc.last
            ≡ base bc.table_size (bc.last - gone) + base bc.table_size gone =
          rw parts at (base-add bc.table_size (bc.last - gone) gone) in
        record {
          valid = record {
            size_pos = v.size_pos;
            sizes = drop-AllSize bc.table_size gone bc.tables v.sizes;
            last_in = omega (arith, left, more, v.last_in);
            end_in = v.end_in;
            start_in = v.size_pos;
            order = ground (arith, more);
          };
          start_moved = omega (arith, base-suc bc.table_size bc.first);
          stop_moved = omega (arith, sum);
          moved = λ k.
              let swap : k + base bc.table_size gone ≡ base bc.table_size gone + k = omega arith in
              rw swap (sym (concat-drop bc.table_size gone bc.tables k blank v.sizes));
        }

    leave_first-Shrunk :
        (r : BrokenCollection A) × (d : ℕ) × (leave_first blank bc ≡ ok r) × Shrunk bc r d
    unfolding leave_first
    leave_first-Shrunk =
        let there : bc.first + 1 < length bc.tables = omega (arith, more, v.last_in) in
        elim (Bool-cases bc.delete_empty_tables) [
          | inl del ↦ (_, _, ground arith, dropped-Shrunk)
          | inr keep ↦ (_, _, ground arith, kept-Shrunk)
        ]

  -- `bc_pop_front` of a valid collection ends the process if it is empty; otherwise it returns the
  -- first element and leaves a valid collection of the others.
  pub bc_pop_front_lem :
      (bc : BrokenCollection A)
      → IsValid blank bc
      → (contents blank bc ≡ [] → bc_pop_front blank bc ≡ exited)
        × (contents blank bc ≢ []
            → (x : A) × (bc' : BrokenCollection A) × (bc_pop_front blank bc ≡ ok (x, bc'))
              × IsValid blank bc'
              × (contents blank bc ≡ x ∷ contents blank bc'))
  unfolding bc_pop_front
  bc_pop_front_lem bc v = elim (Bool-cases (bc_empty blank bc)) [
    | inl none ↦ (λ e. rw none refl, λ ne. absurd (ne ((contents-empty blank bc v).0 none)))
    | inr some_cell ↦ (
      λ e. absurd (ground (arith, (contents-empty blank bc v).1 e)),
      λ ne. elim (Bool-cases (bc.first_start + 1 == bc.table_size)) [
        | inl edge ↦
            let (r, d, run, w) = leave_first-Shrunk bc v some_cell (ground arith) in
            (front_cell bc, r, rw (some_cell, edge, run) refl, w.valid, contents-Shrunk bc r d v w)
        | inr inner ↦
            let w = stay-Shrunk bc v some_cell (ground arith) in
            (
              front_cell bc,
              record bc { first_start = bc.first_start + 1 },
              rw (some_cell, inner) refl,
              w.valid,
              contents-Shrunk bc _ 0 v w,
            )
      ],
    )
  ]
