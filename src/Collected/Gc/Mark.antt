-- ===== src/Collected/Gc/Mark.antt =====
-- The invariant of the black phase, and that one step of either inner loop keeps it.
use chvm.Base.{
  ◌≡◌, refl, ◌≢◌, ◌⊎◌, inl, inr, Bool, true, false, Option, none, some, List, ◌∷◌, arith,
  if◌then◌else◌, Option-cases, Bool-cases, In,
}
use chvm.AddrBook.{Vaddr, eq_adb_addr, null_adb_addr}
use chvm.Collected.Objects.{newly_added, unvisited, in_progress, visited, Obj, Store, find, write}
use chvm.Collected.Objects.Laws.{find-write, eq_adb_addr_iff}
use chvm.Collected.Gc.{obj_reachable, obj_unvisit, push_refs}
use chvm.Collected.Gc.Reach.{Reach, step, IsClosed, Reach-live, In-push_refs}

-- An object that the collector has come upon.
abbrev pub is_marked : Option Obj → Bool
is_marked none = false
is_marked (some o) = obj_reachable o

-- An object without its mark.
abbrev pub whiten : Option Obj → Option Obj
whiten none = none
whiten (some o) = some (obj_unvisit o)

-- `s₀` and `roots` are what the collector found when it started.
module _ (s₀ : Store) (roots : List Vaddr) where
  abbrev pub Handled : Store → List Vaddr → Vaddr → Type 0
  Handled s st v = In v st ⊎ (is_marked (find v s) ≡ true)

  -- With `st` on the in-progress stack and `vs` on the visit stack: marks aside the objects are
  -- those of `s₀`, all that is marked or on a stack is reachable, an object in progress waits on the
  -- visit stack, and the roots and the references of visited objects are marked or wait.
  pub record Inv (s : Store) (st vs : List Vaddr) : Type 0 where
    pub same : (v : Vaddr) → whiten (find v s) ≡ whiten (find v s₀)
    pub no_new : (v : Vaddr) (o : Obj) → find v s ≡ some o → o.gc_status ≢ newly_added
    pub sound : (v : Vaddr) → is_marked (find v s) ≡ true → Reach s₀ roots v
    pub pending : (v : Vaddr) → In v st → Reach s₀ roots v
    pub waiting : (v : Vaddr) → In v vs → Reach s₀ roots v
    pub grey : (v : Vaddr) (o : Obj) → find v s ≡ some o → o.gc_status ≡ in_progress → In v vs
    pub from_roots : (v : Vaddr) → In v roots → Handled s st v
    pub black :
        (v w : Vaddr) (o : Obj)
        → find v s ≡ some o
        → o.gc_status ≡ visited
        → In w o.rt
        → null_adb_addr w ≡ false
        → Handled s st w

  module _ (closed : IsClosed s₀ roots) where
    -- What is reachable is there.
    pub live :
        (s : Store) (st vs : List Vaddr) (v : Vaddr)
        → Inv s st vs
        → Reach s₀ roots v
        → (o : Obj) × (find v s ≡ some o)
    live s st vs v i r =
        let (o, e) = Reach-live closed r in
        elim (Option-cases (find v s)) [ inl gone ↦ ground (arith, i.same v) | inr here ↦ here ]

    pub transfer_one-Inv :
        (v : Vaddr) (s : Store) (st vs : List Vaddr) (o : Obj)
        → Inv s (v ∷ st) vs
        → find v s ≡ some o
        → (o.gc_status ≡ unvisited
            → Inv (write v (record o { gc_status = in_progress }) s) st (v ∷ vs))
          × (o.gc_status ≢ unvisited → Inv s st vs)
    transfer_one-Inv v s st vs o i e = (
      λ white. record {
        same = λ w. ground (arith, after w, i.same w, eq_adb_addr_iff v w);
        no_new = λ w p f. ground (arith, after w, i.no_new w p);
        sound = λ w m. elim (Bool-cases (eq_adb_addr v w)) [
          | inl here ↦ rw (← (eq_adb_addr_iff v w).0 here) (i.pending v (inl refl))
          | inr away ↦ i.sound w (ground (arith, after w))
        ];
        pending = λ w m. i.pending w (inr m);
        waiting = λ w m. elim m [
          | inl here ↦ rw here (i.pending v (inl refl))
          | inr away ↦ i.waiting w away
        ];
        grey = λ w p f c. ground (arith, after w, i.grey w p, eq_adb_addr_iff v w);
        from_roots = λ w m. ground (arith, after w, i.from_roots w, eq_adb_addr_iff v w);
        black =
            λ u w p f c m n. ground (arith, after u, after w, i.black u w p, eq_adb_addr_iff v w);
      },
      λ marked. record {
        same = i.same;
        no_new = i.no_new;
        sound = i.sound;
        pending = λ w m. i.pending w (inr m);
        waiting = i.waiting;
        grey = i.grey;
        from_roots = λ w m. ground (arith, i.from_roots w);
        black = λ u w p f c m n. ground (arith, i.black u w p);
      },
    )
      where
        after :
            (w : Vaddr)
            → find w (write v (record o { gc_status = in_progress }) s)
              ≡ (if eq_adb_addr v w then some (record o { gc_status = in_progress }) else find w s)
        after w = find-write v w (record o { gc_status = in_progress }) o s e

    -- A reference of a reachable object is reachable.
    Reach-ref :
        (s : Store) (st vs : List Vaddr) (v w : Vaddr) (o : Obj)
        → Inv s st vs
        → Reach s₀ roots v
        → find v s ≡ some o
        → In w o.rt
        → null_adb_addr w ≡ false
        → Reach s₀ roots w
    Reach-ref s st vs v w o i r e m n =
        let (o₀, e₀) = Reach-live closed r in
        let refs : o.rt ≡ o₀.rt = ground (arith, i.same v) in step o₀ r e₀ (rw (← refs) m) n

    pub visit_one-Inv :
        (v : Vaddr) (s : Store) (st vs : List Vaddr) (o : Obj)
        → Inv s st (v ∷ vs)
        → find v s ≡ some o
        → (o.gc_status ≡ in_progress
            → Inv (write v (record o { gc_status = visited }) s) (push_refs o.rt st) vs)
          × (o.gc_status ≢ in_progress → Inv s st vs)
    visit_one-Inv v s st vs o i e = (
      λ grey. record {
        same = λ w. ground (arith, after w, i.same w, eq_adb_addr_iff v w);
        no_new = λ w p f. ground (arith, after w, i.no_new w p);
        sound = λ w m. elim (Bool-cases (eq_adb_addr v w)) [
          | inl here ↦ rw (← (eq_adb_addr_iff v w).0 here) reached
          | inr away ↦ i.sound w (ground (arith, after w))
        ];
        pending = λ w m. elim ((In-push_refs w o.rt st).0 m) [
          | inl old ↦ i.pending w old
          | inr (ref, n) ↦ Reach-ref s st (v ∷ vs) v w o i reached e ref n
        ];
        waiting = λ w m. i.waiting w (inr m);
        grey = λ w p f c. ground (arith, after w, i.grey w p, eq_adb_addr_iff v w);
        from_roots = λ w m.
            ground (arith, after w, i.from_roots w, eq_adb_addr_iff v w, In-push_refs w o.rt st);
        black = λ u w p f c m n. ground (
          arith,
          after u,
          after w,
          i.black u w p,
          eq_adb_addr_iff v w,
          eq_adb_addr_iff v u,
          In-push_refs w o.rt st,
        );
      },
      λ not_grey. record {
        same = i.same;
        no_new = i.no_new;
        sound = i.sound;
        pending = i.pending;
        waiting = λ w m. i.waiting w (inr m);
        grey = λ w p f c. ground (arith, i.grey w p);
        from_roots = i.from_roots;
        black = i.black;
      },
    )
      where
        after :
            (w : Vaddr)
            → find w (write v (record o { gc_status = visited }) s)
              ≡ (if eq_adb_addr v w then some (record o { gc_status = visited }) else find w s)
        after w = find-write v w (record o { gc_status = visited }) o s e

        reached : Reach s₀ roots v
        reached = i.waiting v (inl refl)
