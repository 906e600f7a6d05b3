-- ===== src/Collected/Objects/Filter.antt =====
-- gc_src/ms.c: `ms_filter`, by which the collector frees what it did not mark.
use chvm.Base.{
  ℕ, ◌+◌, ◌≡◌, refl, ◌∙◌, ◌⊎◌, inl, inr, Bool, true, false, not, Option, none, some, List, [], ◌∷◌,
  arith, Bool-cases, length, In,
}
use chvm.Base.Result.{ok}
use chvm.AddrBook.{Vaddr}
use chvm.Collected.Objects.{Obj, Store, find, remove, remove_stack, free_all, ms_filter, ms_count}
use chvm.Collected.Objects.Laws.{
  IsDistinct, find-remove, remove-IsDistinct, ms_count-remove, eq_adb_addr_iff,
}

abbrev IsNodup : List Vaddr → Type 0
IsNodup [] = Unit
IsNodup (v ∷ vs) = (¬ In v vs) × IsNodup vs

-- To free a list of different addresses, all allocated, frees exactly those.
record Freed (st : List Vaddr) (s s' : Store) : Type 0 where
  distinct : IsDistinct s'
  gone : (w : Vaddr) → In w st → find w s' ≡ none
  kept : (w : Vaddr) → ¬ In w st → find w s' ≡ find w s
  count : ms_count s' + length st ≡ ms_count s

In-cases : (v : Vaddr) (vs : List Vaddr) → In v vs ⊎ (¬ In v vs)
In-cases v [] = inr (λ m. m)
In-cases v (w ∷ vs) = ground (arith, In-cases v vs, eq_adb_addr_iff v w)

free_all_lem :
    (st : List Vaddr) (s : Store) (k : ℕ)
    → IsDistinct s
    → IsNodup st
    → ((v : Vaddr) → In v st → (o : Obj) × (find v s ≡ some o))
    → (s' : Store) × (free_all st s k ≡ ok (k + length st, s')) × Freed st s s'
unfolding free_all
free_all_lem [] s k d n live = (
  s,
  ground arith,
  record { distinct = d; gone = λ w m. absurd m; kept = λ w m. refl; count = omega arith },
)
free_all_lem (v ∷ st) s k d (fresh, n) live =
    let (o, e) = live v (inl refl) in
    let (s', run, freed) =
      free_all_lem st (remove v s) (k + 1) (remove-IsDistinct v s d) n
        (λ w m. ground (arith, live w (inr m), find-remove v w s d, eq_adb_addr_iff v w)) in
    (
      s',
      ground arith,
      record {
        distinct = freed.distinct;
        gone = λ w m. elim m [
          | inl here ↦ elim (In-cases w st) [
            | inl again ↦ freed.gone w again
            | inr off ↦ freed.kept w off ∙ ground (arith, find-remove v w s d, eq_adb_addr_iff v w)
          ]
          | inr later ↦ freed.gone w later
        ];
        kept = λ w m.
            freed.kept w (λ l. m (inr l))
            ∙ ground (arith, find-remove v w s d, eq_adb_addr_iff v w);
        count = omega (arith, freed.count, ms_count-remove v o s e);
      },
    )

module _ (pred : Obj → Bool) where
  abbrev fails : Option Obj → Bool
  fails none = false
  fails (some o) = not (pred o)

  abbrev Fails : Vaddr → Store → Type 0
  Fails v s = fails (find v s) ≡ true

  In-remove_stack :
      (v : Vaddr) (s : Store) (st : List Vaddr)
      → IsDistinct s
      → (In v (remove_stack pred s st) → In v st ⊎ Fails v s)
        × (In v st ⊎ Fails v s → In v (remove_stack pred s st))
  unfolding remove_stack
  In-remove_stack v [] st d = (inl, λ m. ground arith)
  In-remove_stack v ((w, o) ∷ s) st (fresh, d) = elim (Bool-cases (pred o)) [
    | inl keep ↦ rw keep (ground (arith, In-remove_stack v s st d, eq_adb_addr_iff w v))
    | inr drop ↦ rw drop (ground (arith, In-remove_stack v s (w ∷ st) d, eq_adb_addr_iff w v))
  ]

  remove_stack-IsNodup :
      (s : Store) (st : List Vaddr)
      → IsDistinct s
      → IsNodup st
      → ((v : Vaddr) → In v st → find v s ≡ none)
      → IsNodup (remove_stack pred s st)
  unfolding remove_stack
  remove_stack-IsNodup [] st d n off = n
  remove_stack-IsNodup ((w, o) ∷ s) st (fresh, d) n off = elim (Bool-cases (pred o)) [
    | inl keep ↦ rw keep (remove_stack-IsNodup s st d n (λ v m. ground (arith, off v m)))
    | inr drop ↦ rw drop (
        remove_stack-IsNodup s (w ∷ st) d (λ m. ground (arith, off w m, eq_adb_addr_iff w w), n)
          (λ v m. ground (arith, off v, eq_adb_addr_iff w v)))
  ]

-- What `ms_filter` leaves: the objects that pass the test and no others, and the number of those
-- that it freed.
pub record Filtered (pred : Obj → Bool) (s : Store) (n : ℕ) (s' : Store) : Type 0 where
  pub distinct : IsDistinct s'
  pub passed : (v : Vaddr) (o : Obj) → find v s ≡ some o → pred o ≡ true → find v s' ≡ some o
  pub failed : (v : Vaddr) (o : Obj) → find v s ≡ some o → pred o ≡ false → find v s' ≡ none
  pub absent : (v : Vaddr) → find v s ≡ none → find v s' ≡ none
  pub count : ms_count s' + n ≡ ms_count s

-- `ms_filter` of a store in which each address stands once returns; it frees exactly the objects
-- that fail the test, gives their number, and keeps the others as they were.
pub ms_filter_lem :
    (pred : Obj → Bool) (s : Store)
    → IsDistinct s
    → (n : ℕ) × (s' : Store) × (ms_filter pred s ≡ ok (n, s')) × Filtered pred s n s'
unfolding ms_filter
ms_filter_lem pred s d =
    let st = remove_stack pred s [] in
    let on = λ (v : Vaddr). In-remove_stack pred v s [] d in
    let (s', run, freed) =
      free_all_lem st s 0 d (remove_stack-IsNodup pred s [] d tt (λ v m. absurd m))
        (λ v m. ground (arith, on v)) in
    (
      length st,
      s',
      ground arith,
      record {
        distinct = freed.distinct;
        passed = λ v o e p. freed.kept v (λ m. ground (arith, on v)) ∙ e;
        failed = λ v o e p. freed.gone v ((on v).1 (inr (ground arith)));
        absent = λ v e. freed.kept v (λ m. ground (arith, on v)) ∙ e;
        count = freed.count;
      },
    )
