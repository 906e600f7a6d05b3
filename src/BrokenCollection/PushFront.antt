-- ===== src/BrokenCollection/PushFront.antt =====
-- util_src/data.c: `bc_push_front`.
use chvm.Base.{
  ℕ, ◌+◌, ◌-◌, ◌≤◌, ◌<◌, ◌≡◌, refl, ◌≢◌, ◌⊎◌, inl, inr, [], ◌∷◌, arith, ◌==◌, if◌then◌else◌, get_or,
  set, length, replicate, length-replicate, length-set, get_or-append, Bool-cases,
}
use chvm.BrokenCollection.{BrokenCollection, set_cell, new_util_bc_table, back_up, bc_push_front}
use chvm.BrokenCollection.Flat.{base, base-suc, AllSize, get_or-concat-set}
use chvm.BrokenCollection.Inv.{IsValid, contents, contents-front, start, stop, cells, start-le-stop}
use chvm.BrokenCollection.Push.{set_cell-sizes}

module _ {A : Type 0} (blank : A) where
  -- The collection when `first` has a cell before the first element; a new table in front moves all
  -- positions by `d`.
  record Backed (bc b : BrokenCollection A) (d : ℕ) : Type 0 where
    size : b.table_size ≡ bc.table_size
    sizes : AllSize b.table_size b.tables
    first_in : b.first < length b.tables
    last_in : b.last < length b.tables
    end_same : b.last_end ≡ bc.last_end
    before : 0 < b.first_start
    start_in : b.first_start ≤ b.table_size
    order : (b.first < b.last) ⊎ (b.first ≡ b.last) × (b.first_start ≤ b.last_end)
    start_moved : start blank b ≡ start blank bc + d
    stop_moved : stop blank b ≡ stop blank bc + d
    moved : (k : ℕ) → get_or (cells blank b) (k + d) blank ≡ get_or (cells blank bc) k blank

  module _ (bc b : BrokenCollection A) (d : ℕ) (x : A) (v : IsValid blank bc)
      (w : Backed bc b d) where
    abbrev front : BrokenCollection A
    front =
        set_cell blank (record b { first_start = b.first_start - 1 }) b.first (b.first_start - 1) x

    front-IsValid : IsValid blank front
    front-IsValid = record {
      size_pos = omega (arith, v.size_pos, w.size);
      sizes = set_cell-sizes blank b b.first (b.first_start - 1) x w.sizes w.first_in;
      last_in = omega (
        arith,
        length-set b.tables b.first (set (get_or b.tables b.first []) (b.first_start - 1) x),
        w.last_in,
      );
      end_in = omega (arith, w.end_same, w.size, v.end_in);
      start_in = omega (arith, w.before, w.start_in);
      order = ground (arith, w.order);
    }

    cells-front :
        (k : ℕ)
        → get_or (cells blank front) k blank ≡ (
            if base b.table_size b.first + (b.first_start - 1) == k
            then x
            else get_or (cells blank b) k blank)
    cells-front k =
        get_or-concat-set b.table_size b.tables b.first (b.first_start - 1) k x blank w.sizes
          w.first_in (omega (arith, w.before, w.start_in))

    contents-front_placed : contents blank front ≡ x ∷ contents blank bc
    contents-front_placed =
        contents-front blank bc front d x (start-le-stop blank bc v)
          (omega (arith, w.before, w.start_moved)) w.stop_moved
          (λ k l h. ground (arith, cells-front (k + d), w.start_moved, w.before, w.moved k))
          (ground (arith, cells-front (start blank front)))

  stay-Backed : (bc : BrokenCollection A) → IsValid blank bc → 0 < bc.first_start → Backed bc bc 0
  stay-Backed bc v h = record {
    size = refl;
    sizes = v.sizes;
    first_in = ground (arith, v.order, v.last_in);
    last_in = v.last_in;
    end_same = refl;
    before = h;
    start_in = omega (arith, v.start_in);
    order = v.order;
    start_moved = omega arith;
    stop_moved = omega arith;
    moved = λ k. ground arith;
  }

  inner-Backed :
      (bc : BrokenCollection A)
      → IsValid blank bc
      → bc.first_start ≡ 0
      → bc.first ≢ 0
      → Backed bc (record bc { first = bc.first - 1; first_start = bc.table_size }) 0
  inner-Backed bc v h ne =
      let next : bc.first - 1 + 1 ≡ bc.first = ground arith in
      let step : base bc.table_size bc.first ≡ bc.table_size + base bc.table_size (bc.first - 1) =
        rw next at (base-suc bc.table_size (bc.first - 1)) in
      record {
        size = refl;
        sizes = v.sizes;
        first_in = ground (arith, v.order, v.last_in);
        last_in = v.last_in;
        end_same = refl;
        before = v.size_pos;
        start_in = omega arith;
        order = inl (ground (arith, v.order));
        start_moved = omega arith;
        stop_moved = omega arith;
        moved = λ k. ground arith;
      }

  new-Backed :
      (bc : BrokenCollection A)
      → IsValid blank bc
      → bc.first_start ≡ 0
      → bc.first ≡ 0
      → Backed bc
          (record bc {
            tables = new_util_bc_table blank bc.table_size ∷ bc.tables;
            first = 0;
            last = bc.last + 1;
            first_start = bc.table_size;
          })
          bc.table_size
  new-Backed bc v h e = record {
    size = refl;
    sizes = (length-replicate bc.table_size blank, v.sizes);
    first_in = omega arith;
    last_in = omega (arith, v.last_in);
    end_same = refl;
    before = v.size_pos;
    start_in = omega arith;
    order = inl (omega arith);
    start_moved = rw (e, h) (omega arith);
    stop_moved = omega (arith, base-suc bc.table_size bc.last);
    moved = λ k. ground (
      arith,
      get_or-append (replicate bc.table_size blank) (cells blank bc) (k + bc.table_size) blank,
      length-replicate bc.table_size blank,
    );
  }

  -- `bc_push_front` of a valid collection gives a valid one with the element before the others.
  pub bc_push_front_lem :
      (bc : BrokenCollection A) (x : A)
      → IsValid blank bc
      → IsValid blank (bc_push_front blank bc x)
        × (contents blank (bc_push_front blank bc x) ≡ x ∷ contents blank bc)
  unfolding bc_push_front back_up
  bc_push_front_lem bc x v = elim (Bool-cases (bc.first_start == 0)) [
    | inr stay ↦
        let w = stay-Backed bc v (ground arith) in
        rw stay (front-IsValid bc bc 0 x v w, contents-front_placed bc bc 0 x v w)
    | inl at_edge ↦ elim (Bool-cases (bc.first == 0)) [
      | inl none_before ↦
          let w = new-Backed bc v (ground arith) (ground arith) in
          rw (at_edge, none_before)
            (front-IsValid bc _ bc.table_size x v w, contents-front_placed bc _ bc.table_size x v w)
      | inr inner ↦
          let w = inner-Backed bc v (ground arith) (ground arith) in
          rw (at_edge, inner) (front-IsValid bc _ 0 x v w, contents-front_placed bc _ 0 x v w)
    ]
  ]
