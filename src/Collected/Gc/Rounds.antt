-- ===== src/Collected/Gc/Rounds.antt =====
-- The two inner loops of the black phase and the outer one: they end, and keep the invariant.
use chvm.Base.{
  ℕ, zero, suc, ◌+◌, ◌≤◌, ◌≡◌, refl, ◌∙◌, ◌≢◌, ◌⊎◌, inl, inr, List, [], ◌∷◌, arith, length,
}
use chvm.Base.Result.{ok}
use chvm.AddrBook.{Vaddr}
use chvm.Collected.Objects.{
  Status, newly_added, unvisited, in_progress, visited, Obj, Store, write, ms_count,
}
use chvm.Collected.Objects.Laws.{
  IsDistinct, write-IsDistinct, ms_count-write, count_white, count_white-write,
}
use chvm.Collected.Gc.{push_refs, transfer_one, transfer, visit_one, visit, paint_black}
use chvm.Collected.Gc.Reach.{IsClosed}
use chvm.Collected.Gc.Mark.{Inv, live, transfer_one-Inv, visit_one-Inv}

-- No object is added or lost.
pub record Keeps (s s' : Store) : Type 0 where
  pub count : ms_count s' ≡ ms_count s
  pub distinct : IsDistinct s → IsDistinct s'

Keeps-refl : (s : Store) → Keeps s s
Keeps-refl s = record { count = refl; distinct = λ d. d }

Keeps-trans : (s t u : Store) → Keeps s t → Keeps t u → Keeps s u
Keeps-trans s t u k l = record {
  count = l.count ∙ k.count;
  distinct = λ d. l.distinct (k.distinct d);
}

Keeps-write : (v : Vaddr) (o : Obj) (s : Store) → Keeps s (write v o s)
Keeps-write v o s = record { count = ms_count-write v o s; distinct = write-IsDistinct v o s }

pub is_unvisited : (c : Status) → (c ≡ unvisited) ⊎ (c ≢ unvisited)
is_unvisited unvisited = inl refl
is_unvisited newly_added = inr (λ e. cc)
is_unvisited in_progress = inr (λ e. cc)
is_unvisited visited = inr (λ e. cc)

pub is_in_progress : (c : Status) → (c ≡ in_progress) ⊎ (c ≢ in_progress)
is_in_progress in_progress = inl refl
is_in_progress newly_added = inr (λ e. cc)
is_in_progress unvisited = inr (λ e. cc)
is_in_progress visited = inr (λ e. cc)

module _ (s₀ : Store) (roots : List Vaddr) (closed : IsClosed s₀ roots) where
  transfer_one_lem :
      (v : Vaddr) (s : Store) (st vs : List Vaddr)
      → Inv s₀ roots s (v ∷ st) vs
      → (s' : Store) × (vs' : List Vaddr) × (transfer_one v s vs ≡ ok (s', vs'))
        × Inv s₀ roots s' st vs'
        × (count_white s' + length vs' ≡ count_white s + length vs)
        × Keeps s s'
  unfolding transfer_one
  transfer_one_lem v s st vs i =
      let (o, e) = live s₀ roots closed s (v ∷ st) vs v i (i.pending v (inl refl)) in
      elim (is_unvisited o.gc_status) [
        | inl white ↦
            let grey : Obj = record o { gc_status = in_progress } in
            (
              write v grey s,
              v ∷ vs,
              ground arith,
              (transfer_one-Inv s₀ roots closed v s st vs o i e).0 white,
              ground (arith, count_white-write v o grey s e),
              Keeps-write v grey s,
            )
        | inr other ↦ (
          s,
          vs,
          ground arith,
          (transfer_one-Inv s₀ roots closed v s st vs o i e).1 other,
          refl,
          Keeps-refl s,
        )
      ]

  transfer_lem :
      (st : List Vaddr) (s : Store) (vs : List Vaddr)
      → Inv s₀ roots s st vs
      → (s' : Store) × (vs' : List Vaddr) × (transfer st s vs ≡ ok (s', vs'))
        × Inv s₀ roots s' [] vs'
        × (count_white s' + length vs' ≡ count_white s + length vs)
        × Keeps s s'
  unfolding transfer
  transfer_lem [] s vs i = (s, vs, refl, i, refl, Keeps-refl s)
  transfer_lem (v ∷ st) s vs i =
      let (s1, vs1, run1, i1, n1, k1) = transfer_one_lem v s st vs i in
      let (s2, vs2, run2, i2, n2, k2) = transfer_lem st s1 vs1 i1 in
      (s2, vs2, rw run1 run2, i2, n2 ∙ n1, Keeps-trans s s1 s2 k1 k2)

  visit_one_lem :
      (v : Vaddr) (s : Store) (st vs : List Vaddr)
      → Inv s₀ roots s st (v ∷ vs)
      → (s' : Store) × (st' : List Vaddr) × (visit_one v s st ≡ ok (s', st'))
        × Inv s₀ roots s' st' vs
        × (count_white s' ≡ count_white s)
        × Keeps s s'
  unfolding visit_one
  visit_one_lem v s st vs i =
      let (o, e) = live s₀ roots closed s st (v ∷ vs) v i (i.waiting v (inl refl)) in
      elim (is_in_progress o.gc_status) [
        | inl grey ↦
            let black : Obj = record o { gc_status = visited } in
            (
              write v black s,
              push_refs o.rt st,
              ground arith,
              (visit_one-Inv s₀ roots closed v s st vs o i e).0 grey,
              ground (arith, count_white-write v o black s e),
              Keeps-write v black s,
            )
        | inr other ↦ (
          s,
          st,
          ground arith,
          (visit_one-Inv s₀ roots closed v s st vs o i e).1 other,
          refl,
          Keeps-refl s,
        )
      ]

  visit_lem :
      (vs : List Vaddr) (s : Store) (st : List Vaddr)
      → Inv s₀ roots s st vs
      → (s' : Store) × (st' : List Vaddr) × (visit vs s st ≡ ok (s', st'))
        × Inv s₀ roots s' st' []
        × (count_white s' ≡ count_white s)
        × Keeps s s'
  unfolding visit
  visit_lem [] s st i = (s, st, refl, i, refl, Keeps-refl s)
  visit_lem (v ∷ vs) s st i =
      let (s1, st1, run1, i1, n1, k1) = visit_one_lem v s st vs i in
      let (s2, st2, run2, i2, n2, k2) = visit_lem vs s1 st1 i1 in
      (s2, st2, rw run1 run2, i2, n2 ∙ n1, Keeps-trans s s1 s2 k1 k2)

  -- The rounds that are left: one finds both stacks empty.
  abbrev pub rounds : List Vaddr → Store → ℕ
  rounds [] s = 1
  rounds (_ ∷ _) s = count_white s + 2

  paint_black-stop : (fuel : ℕ) (s : Store) → paint_black (suc fuel) [] [] s ≡ ok s
  unfolding paint_black transfer visit
  paint_black-stop fuel s = refl

  -- A round that visits leaves fewer white objects, and one that does not is followed by the last.
  rounds_le :
      (vs st' : List Vaddr) (s1 s2 : Store) (fuel k : ℕ)
      → visit vs s1 [] ≡ ok (s2, st')
      → count_white s2 + length vs ≡ k
      → k + 2 ≤ suc fuel
      → rounds st' s2 ≤ fuel
  unfolding visit
  rounds_le [] [] s1 s2 fuel k run n h = omega arith
  rounds_le [] (x ∷ xs) s1 s2 fuel k run n h = cc
  rounds_le (v ∷ vs) [] s1 s2 fuel k run n h = omega arith
  rounds_le (v ∷ vs) (x ∷ xs) s1 s2 fuel k run n h = omega arith

  pub paint_black_lem :
      (fuel : ℕ) (st : List Vaddr) (s : Store)
      → Inv s₀ roots s st []
      → rounds st s ≤ fuel
      → (s' : Store) × (paint_black fuel st [] s ≡ ok s') × Inv s₀ roots s' [] [] × Keeps s s'
  unfolding paint_black
  paint_black_lem zero [] s i h = absurd (omega arith)
  paint_black_lem zero (v ∷ st) s i h = absurd (omega arith)
  paint_black_lem (suc fuel) [] s i h = (s, paint_black-stop fuel s, i, Keeps-refl s)
  paint_black_lem (suc fuel) (v ∷ st) s i h =
      let (s1, vs, run1, i1, n1, k1) = transfer_lem (v ∷ st) s [] i in
      let (s2, st', run2, i2, n2, k2) = visit_lem vs s1 [] i1 in
      let left = rounds_le vs st' s1 s2 fuel (count_white s) run2 (omega arith) (omega arith) in
      let (s3, run3, i3, k3) = paint_black_lem fuel st' s2 i2 left in
      (s3, rw (run1, run2) run3, i3, Keeps-trans s s2 s3 (Keeps-trans s s1 s2 k1 k2) k3)
