-- ===== src/AddrBook/Foreach.antt =====
-- gc_src/virt.c: `adb_foreach`, table by table, with the virtual address of each cell.
use chvm.Base.{
  ℕ, zero, suc, ◌+◌, ◌≤◌, ◌<◌, ◌==◌, ◌≡◌, refl, ap, ◌∙◌, sym, ◌↔◌, ◌⊎◌, inl, inr, Bool, true, List,
  [], ◌∷◌, ◌++◌, arith, get_or, length, In, Bool-cases, length-append,
}
use mathlib.Core.Path.{subst}
use chvm.Base.Result.{Result, ok, ◌>>=◌}
use chvm.AddrTable.{AddrTable, adt_get_fill}
use chvm.AddrTable.Inv.{IsValid as IsValidTable}
use chvm.AddrTable.Access.{allocated-lt-cap}
use chvm.AddrTable.Foreach.{
  adt_foreach, CanVisit, allocated_from, visit_all, adt_foreach-visit_all, In-allocated_from,
  length-allocated-get_fill,
}
use chvm.AddrBook.{Vaddr, AddrBook, Entry, no_entry, book_len, entry_at, fill_from, adb_get_fill}
use chvm.AddrBook.Inv.{IsValid, table_at, adb_cell}
use chvm.AddrBook.Free.{allocated-lt}

abbrev pub vaddr_in : ℕ → ℕ → Vaddr
vaddr_in t c = record { table_index = t; cell_index = c }

-- `adb_foreach_adt` with the consumer of `adb_foreach`: `n` tables from the index `i` on.
pub foreach_tables : {S : Type 0} → ℕ → (Vaddr → ℕ → S → S) → Bool → AddrBook → ℕ → S → Result S
foreach_tables zero c wr b i ctx = ok ctx
foreach_tables (suc n) c wr b i ctx =
    adt_foreach (λ ind p x. c (vaddr_in i ind) p x) wr (entry_at b i).adt ctx >>= λ ctx'.
    foreach_tables n c wr b (i + 1) ctx'

pub adb_foreach : {S : Type 0} → (Vaddr → ℕ → S → S) → Bool → AddrBook → S → Result S
unfolding foreach_tables
adb_foreach c wr b ctx = foreach_tables (book_len b) c wr b 0 ctx

-- The consumer on one after the other.
pub visit_each : {S : Type 0} → (Vaddr → ℕ → S → S) → List (Vaddr × ℕ) → S → S
visit_each c [] ctx = ctx
visit_each c ((v, p) ∷ rest) ctx = visit_each c rest (c v p ctx)

tag : ℕ → List (ℕ × ℕ) → List (Vaddr × ℕ)
tag i [] = []
tag i ((ind, p) ∷ rest) = (vaddr_in i ind, p) ∷ tag i rest

-- The allocated cells of `n` tables from the index `i` on, in order.
cells_from : ℕ → AddrBook → ℕ → List (Vaddr × ℕ)
cells_from zero b i = []
cells_from (suc n) b i =
    tag i (allocated_from (table_at b i).cap (table_at b i) 0) ++ cells_from n b (i + 1)

visit_each-tag :
    {S : Type 0}
    → (c : Vaddr → ℕ → S → S) (i : ℕ) (xs : List (ℕ × ℕ)) (ys : List (Vaddr × ℕ)) (ctx : S)
    → visit_each c (tag i xs ++ ys) ctx
      ≡ visit_each c ys (visit_all (λ ind p x. c (vaddr_in i ind) p x) xs ctx)
unfolding visit_each tag visit_all
visit_each-tag c i [] ys ctx = refl
visit_each-tag c i ((ind, p) ∷ xs) ys ctx = visit_each-tag c i xs ys (c (vaddr_in i ind) p ctx)

foreach_tables_lem :
    {S : Type 0}
    → (n : ℕ) (c : Vaddr → ℕ → S → S) (wr : Bool) (b : AddrBook) (i : ℕ) (ctx : S)
    → ((v : Vaddr) → CanVisit wr (adb_cell b v).lck)
    → foreach_tables n c wr b i ctx ≡ ok (visit_each c (cells_from n b i) ctx)
unfolding foreach_tables visit_each cells_from
foreach_tables_lem zero c wr b i ctx free = refl
foreach_tables_lem (suc n) c wr b i ctx free =
    let t : AddrTable = table_at b i in
    let one =
      adt_foreach-visit_all (λ ind p x. c (vaddr_in i ind) p x) wr t ctx
        (λ j. free (vaddr_in i j)) in
    let xs = allocated_from t.cap t 0 in
    rw one (
      foreach_tables_lem n c wr b (i + 1) (visit_all (λ ind p x. c (vaddr_in i ind) p x) xs ctx)
        free
      ∙ ap ok (sym (visit_each-tag c i xs (cells_from n b (i + 1)) ctx)))

In-tag :
    (i : ℕ) (xs : List (ℕ × ℕ)) (v : Vaddr) (p : ℕ)
    → In (v, p) (tag i xs) ↔ ((v.table_index ≡ i) × In (v.cell_index, p) xs)
unfolding tag
In-tag i [] v p = ground arith
In-tag i ((ind, q) ∷ xs) v p = ground (arith, In-tag i xs v p)

In-append : {A : Type 0} → (x : A) (xs ys : List A) → In x (xs ++ ys) ↔ (In x xs ⊎ In x ys)
In-append x [] ys = ground arith
In-append x (y ∷ xs) ys = ground (arith, In-append x xs ys)

-- The loop over the table `t` meets its cell with this content.
abbrev IsHeld : AddrBook → ℕ → ℕ → ℕ → Type 0
IsHeld b t ind p = In (ind, p) (allocated_from (table_at b t).cap (table_at b t) 0)

In-cells_from :
    (n : ℕ) (b : AddrBook) (i : ℕ) (v : Vaddr) (p : ℕ)
    → In (v, p) (cells_from n b i)
      ↔ ((i ≤ v.table_index) × (v.table_index < i + n) × IsHeld b v.table_index v.cell_index p)
unfolding cells_from
In-cells_from zero b i v p = ground arith
In-cells_from (suc n) b i v p =
    let xs = allocated_from (table_at b i).cap (table_at b i) 0 in
    let split = In-append (v, p) (tag i xs) (cells_from n b (i + 1)) in
    let here = In-tag i xs v p in
    let later = In-cells_from n b (i + 1) v p in
    elim (Bool-cases (v.table_index == i)) [
      | inl this ↦
          let same : v.table_index ≡ i = ground arith in
          (
            λ m. elim (split.0 m) [
              | inl h ↦ (
                omega arith,
                omega arith,
                subst (λ t. IsHeld b t v.cell_index p) (sym same) (here.0 h).1,
              )
              | inr l ↦ absurd (omega (arith, later.0 l))
            ],
            λ m. split.1 (inl (here.1 (same, subst (λ t. IsHeld b t v.cell_index p) same m.2))),
          )
      | inr other ↦ ground arith
    ]

length-tag : (i : ℕ) (xs : List (ℕ × ℕ)) → length (tag i xs) ≡ length xs
unfolding tag
length-tag i [] = refl
length-tag i ((ind, p) ∷ xs) = ap suc (length-tag i xs)

fill_from-cells_from :
    (es : List Entry) (acc : ℕ) (b : AddrBook) (i : ℕ)
    → ((j : ℕ) → get_or es j no_entry ≡ entry_at b (i + j))
    → ((j : ℕ) → j < length es → IsValidTable (table_at b (i + j)))
    → fill_from acc es ≡ acc + length (cells_from (length es) b i)
unfolding cells_from
fill_from-cells_from [] acc b i same valid = omega arith
fill_from-cells_from (e ∷ es) acc b i same valid =
    let zero_on : i + 0 ≡ i = omega arith in
    let t : AddrTable = table_at b i in
    let first : e.adt ≡ t = ap (λ (x : Entry). x.adt) (same 0 ∙ ap (entry_at b) zero_on) in
    let v : IsValidTable t =
      subst (λ j. IsValidTable (table_at b j)) zero_on (valid 0 (omega arith)) in
    let xs = allocated_from t.cap t 0 in
    let rest =
      fill_from-cells_from es (acc + adt_get_fill e.adt) b (i + 1)
        (λ j. same (suc j) ∙ ap (entry_at b) (omega arith))
        (λ j lt.
          subst (λ k. IsValidTable (table_at b k)) (omega arith) (valid (suc j) (omega arith))) in
    let fill : adt_get_fill e.adt ≡ length xs =
      ap adt_get_fill first ∙ sym (length-allocated-get_fill t v) in
    omega (arith, length-append (tag i xs) (cells_from (length es) b (i + 1)), length-tag i xs)

-- `adb_foreach` of a valid book, under read locks or write locks that it does not wait for: there is a list of
-- cells, the same for every consumer and context, on which it calls the consumer one after the other. The list
-- holds exactly the allocated virtual addresses with what they stand for, and its length is `adb_get_fill`.
pub adb_foreach_lem :
    (b : AddrBook) (wr : Bool)
    → IsValid b
    → ((v : Vaddr) → CanVisit wr (adb_cell b v).lck)
    → (cells : List (Vaddr × ℕ)) × ((S : Type 0) (c : Vaddr → ℕ → S → S) (ctx : S)
        → adb_foreach c wr b ctx ≡ ok (visit_each c cells ctx))
      × ((v : Vaddr) (p : ℕ)
          → In (v, p) cells ↔ (((adb_cell b v).allocated ≡ true) × ((adb_cell b v).paddr ≡ p)))
      × (length cells ≡ adb_get_fill b)
unfolding adb_foreach adb_get_fill
adb_foreach_lem b wr valid free = (
  cells_from (book_len b) b 0,
  λ S c ctx. foreach_tables_lem (book_len b) c wr b 0 ctx free,
  λ v p.
      let t : AddrTable = table_at b v.table_index in
      let held = In-allocated_from t.cap t 0 v.cell_index p in
      let inside = In-cells_from (book_len b) b 0 v p in
      (
        λ m. let (_, _, h) = inside.0 m in let (_, _, a, e) = held.0 h in (a, e),
        λ (a, e).
            let lt = allocated-lt b v a in
            inside.1 (
              omega arith,
              omega arith,
              held.1 (
                omega arith,
                omega (
                  arith,
                  allocated-lt-cap t v.cell_index (valid.sound.tables v.table_index lt) a,
                ),
                a,
                e,
              ),
            ),
      ),
  let all =
        fill_from-cells_from b.book 0 b 0 (λ j. ap (entry_at b) (omega arith))
          (λ j lt.
            subst (λ k. IsValidTable (table_at b k)) (omega arith) (valid.sound.tables j lt)) in
      omega arith,
)
