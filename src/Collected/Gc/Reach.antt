-- ===== src/Collected/Gc/Reach.antt =====
-- What it means that an object is reachable from the roots of a collected space.
use chvm.Base.{◌≡◌, ◌⊎◌, inl, inr, false, some, List, [], ◌∷◌, arith, Bool-cases, In}
use chvm.AddrBook.{Vaddr, null_adb_addr}
use chvm.Collected.Objects.{Obj, Store, find}
use chvm.Collected.Gc.{push_refs, push_roots}

-- The paths that start at a root and follow references that are not NULL.
pub data Reach (s : Store) (roots : List Vaddr) : Vaddr → Type 0 where
  root : {v : Vaddr} → In v roots → Reach s roots v
  step :
      {v w : Vaddr} (o : Obj)
      → Reach s roots v
      → find v s ≡ some o
      → In w o.rt
      → null_adb_addr w ≡ false
      → Reach s roots w

-- Every root and every reference of an object names an object.
pub record IsClosed (s : Store) (roots : List Vaddr) : Type 0 where
  pub root_live : (v : Vaddr) → In v roots → (o : Obj) × (find v s ≡ some o)
  pub ref_live :
      (v w : Vaddr) (o : Obj)
      → find v s ≡ some o
      → In w o.rt
      → null_adb_addr w ≡ false
      → (p : Obj) × (find w s ≡ some p)

pub Reach-live :
    {s : Store} {roots : List Vaddr} {v : Vaddr}
    → IsClosed s roots
    → Reach s roots v
    → (o : Obj) × (find v s ≡ some o)
Reach-live c (root m) = c.root_live _ m
Reach-live c (step o r f m n) = c.ref_live _ _ o f m n

-- The references of an object go onto the stack, except for NULL.
pub In-push_refs :
    (v : Vaddr) (rs st : List Vaddr)
    → (In v (push_refs rs st) → In v st ⊎ In v rs × (null_adb_addr v ≡ false))
      × (In v st → In v (push_refs rs st))
      × (In v rs → null_adb_addr v ≡ false → In v (push_refs rs st))
unfolding push_refs
In-push_refs v [] st = (inl, λ m. m, λ m. absurd m)
In-push_refs v (r ∷ rs) st = elim (Bool-cases (null_adb_addr r)) [
  | inl null ↦ rw null (ground (arith, In-push_refs v rs st))
  | inr some_ref ↦ rw some_ref (ground (arith, In-push_refs v rs (r ∷ st)))
]

pub In-push_roots :
    (v : Vaddr) (rs st : List Vaddr)
    → (In v (push_roots rs st) → In v st ⊎ In v rs)
      × (In v st → In v (push_roots rs st))
      × (In v rs → In v (push_roots rs st))
unfolding push_roots
In-push_roots v [] st = (inl, λ m. m, λ m. absurd m)
In-push_roots v (r ∷ rs) st = ground (arith, In-push_roots v rs (r ∷ st))
