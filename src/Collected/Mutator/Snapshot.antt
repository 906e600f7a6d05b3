-- ===== src/Collected/Mutator/Snapshot.antt =====
-- gc_src/cs.c: the invariant of the black phase while users run. What is reachable is measured
-- against the store and the roots that the phase started with.
use chvm.Base.{
  ◌≡◌, ◌≢◌, ◌⊎◌, inl, inr, Bool, true, false, none, some, List, [], arith, In, Option-cases,
}
use chvm.AddrBook.{Vaddr, null_adb_addr}
use chvm.Collected.Objects.{Status, newly_added, unvisited, in_progress, visited, Obj, Store, find}
use chvm.Collected.Gc.Reach.{Reach, root, step, IsClosed}
use chvm.Collected.Gc.Mark.{is_marked}

-- A status that a run never moves on from to `in_progress`.
abbrev pub is_settled : Status → Bool
is_settled c = elim c [ newly_added ↦ true | visited ↦ true | _ ↦ false ]

module _ (s₀ : Store) (rs₀ : List Vaddr) where
  abbrev pub IsHandled : Store → List Vaddr → Vaddr → Type 0
  IsHandled s st v = In v st ⊎ (is_marked (find v s) ≡ true)

  -- With `st` on the in-progress stack and `vs` on the visit stack: no object is gone, an object
  -- that was not visited has the references of the start, an object that came later is settled,
  -- one in progress waits on the visit stack, and the roots of the start and what visited objects
  -- referred to at the start are marked or wait.
  pub record IsTracked (s : Store) (st vs : List Vaddr) : Type 0 where
    pub live : (v : Vaddr) → find v s₀ ≢ none → find v s ≢ none
    pub kept :
        (v : Vaddr) (o o₀ : Obj)
        → find v s ≡ some o
        → find v s₀ ≡ some o₀
        → (o.gc_status ≡ visited) ⊎ (o.rt ≡ o₀.rt)
    pub added :
        (v : Vaddr) (o : Obj) → find v s ≡ some o → find v s₀ ≡ none → is_settled o.gc_status ≡ true
    pub early :
        (v : Vaddr) (o o₀ : Obj)
        → find v s ≡ some o
        → find v s₀ ≡ some o₀
        → o.gc_status ≡ newly_added
        → o₀.gc_status ≡ newly_added
    pub grey : (v : Vaddr) (o : Obj) → find v s ≡ some o → o.gc_status ≡ in_progress → In v vs
    pub from_roots : (v : Vaddr) → In v rs₀ → IsHandled s st v
    pub black :
        (v w : Vaddr) (o o₀ : Obj)
        → find v s ≡ some o
        → o.gc_status ≡ visited
        → find v s₀ ≡ some o₀
        → In w o₀.rt
        → null_adb_addr w ≡ false
        → IsHandled s st w
    pub pending : (v : Vaddr) → In v st → find v s ≢ none
    pub waiting : (v : Vaddr) → In v vs → find v s ≢ none

  -- An address that users may come by: one that the start reached, or one allocated since.
  abbrev pub IsSafe : Store → Vaddr → Type 0
  IsSafe s w = Reach s₀ rs₀ w ⊎ (find w s₀ ≡ none) × (find w s ≢ none)

  -- What users hold, know and root is safe, and so is what safe objects refer to.
  pub record IsConfined (s : Store) (rs known held : List Vaddr) : Type 0 where
    pub safe_known : (w : Vaddr) → In w known → IsSafe s w
    pub safe_roots : (w : Vaddr) → In w rs → IsSafe s w
    pub safe_refs :
        (v w : Vaddr) (o : Obj)
        → IsSafe s v
        → find v s ≡ some o
        → In w o.rt
        → null_adb_addr w ≡ false
        → IsSafe s w
    pub safe_held : (v : Vaddr) → In v held → IsSafe s v
    pub held_visited :
        (v : Vaddr) (o : Obj)
        → In v held
        → find v s ≡ some o
        → (o.gc_status ≡ visited) ⊎ (find v s₀ ≡ none)

  -- The black phase starts from objects that are white, or new and without references.
  pub record IsStart : Type 0 where
    pub closed : IsClosed s₀ rs₀
    pub white :
        (v : Vaddr) (o : Obj)
        → find v s₀ ≡ some o
        → (o.gc_status ≡ unvisited)
          ⊎ (o.gc_status ≡ newly_added) × ((w : Vaddr) → In w o.rt → null_adb_addr w ≡ true)

  module _ (start : IsStart) where
    -- With both stacks empty everything that the start reached is marked.
    pub marked_of_Reach :
        (s : Store) → IsTracked s [] [] → {v : Vaddr} → Reach s₀ rs₀ v → is_marked (find v s) ≡ true
    marked_of_Reach s t (root {v} m) = ground (arith, t.from_roots v)
    marked_of_Reach s t (step {v} {w} o₀ r e₀ m n) =
        let marked = marked_of_Reach s t r in
        elim (Option-cases (find v s)) [
          | inl gone ↦ absurd (ground arith)
          | inr (o, e) ↦ elim (start.white v o₀ e₀) [
            | inl white ↦ ground (arith, t.black v w o o₀, t.early v o o₀, t.grey v o)
            | inr (new, nulls) ↦ ground (arith, nulls w m)
          ]
        ]

    pub marked_of_IsSafe :
        (s : Store) → IsTracked s [] [] → (v : Vaddr) → IsSafe s v → is_marked (find v s) ≡ true
    marked_of_IsSafe s t v (inl r) = marked_of_Reach s t r
    marked_of_IsSafe s t v (inr (fresh, there)) = elim (Option-cases (find v s)) [
      | inl gone ↦ absurd (there gone)
      | inr (o, e) ↦ ground (arith, t.added v o)
    ]

  pub Reach-IsSafe :
      (s : Store) (rs known held : List Vaddr)
      → IsConfined s rs known held
      → {v : Vaddr} → Reach s rs v
      → IsSafe s v
  Reach-IsSafe s rs known held c (root {v} m) = c.safe_roots v m
  Reach-IsSafe s rs known held c (step {v} {w} o r e m n) =
      c.safe_refs v w o (Reach-IsSafe s rs known held c r) e m n
