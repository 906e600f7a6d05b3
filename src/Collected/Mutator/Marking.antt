-- ===== src/Collected/Mutator/Marking.antt =====
-- gc_src/cs.c: what the steps of the black phase do to the part of the invariant that the marks and
-- the stacks are in.
use chvm.Base.{
  ℕ, ◌≡◌, ◌≢◌, ◌⊎◌, inl, inr, true, false, none, some, List, ◌∷◌, arith, if◌then◌else◌, In,
  Bool-cases,
}
use chvm.AddrBook.{Vaddr, eq_adb_addr, null_adb_addr}
use chvm.Collected.Objects.{unvisited, in_progress, visited, Obj, Store, find, write}
use chvm.Collected.Objects.Laws.{find-write, eq_adb_addr_iff}
use chvm.Collected.Gc.{push_refs}
use chvm.Collected.Gc.Reach.{In-push_refs}
use chvm.Collected.Gc.Mark.{is_marked}
use chvm.Collected.Mutator.{set_ref, new_obj}
use chvm.Collected.Mutator.Snapshot.{IsTracked}

module _ (s₀ : Store) (rs₀ : List Vaddr) where
  -- An object that is marked may leave the in-progress stack, and one that is not in progress the
  -- visit stack.
  pub pop_in_progress-IsTracked :
      (s : Store) (v : Vaddr) (st vs : List Vaddr)
      → IsTracked s₀ rs₀ s (v ∷ st) vs
      → is_marked (find v s) ≡ true
      → IsTracked s₀ rs₀ s st vs
  pop_in_progress-IsTracked s v st vs t m = record {
    live = t.live;
    kept = t.kept;
    added = t.added;
    early = t.early;
    grey = t.grey;
    from_roots = λ w r. ground (arith, t.from_roots w);
    black = λ u w o o₀ e c e₀ r n. ground (arith, t.black u w o o₀);
    pending = λ w r. t.pending w (inr r);
    waiting = t.waiting;
  }

  pub pop_visit-IsTracked :
      (s : Store) (v : Vaddr) (st vs : List Vaddr) (o : Obj)
      → IsTracked s₀ rs₀ s st (v ∷ vs)
      → find v s ≡ some o
      → o.gc_status ≢ in_progress
      → IsTracked s₀ rs₀ s st vs
  pop_visit-IsTracked s v st vs o t e c = record {
    live = t.live;
    kept = t.kept;
    added = t.added;
    early = t.early;
    grey = λ w p f d. ground (arith, t.grey w p);
    from_roots = t.from_roots;
    black = t.black;
    pending = t.pending;
    waiting = λ w r. t.waiting w (inr r);
  }

  module _ (s : Store) (v : Vaddr) (st vs : List Vaddr) (o : Obj) (t : IsTracked s₀ rs₀ s st vs)
      (e : find v s ≡ some o) where
    abbrev after : Obj → Store
    after p = write v p s

    find-after :
        (p : Obj) (w : Vaddr) → find w (after p) ≡ (if eq_adb_addr v w then some p else find w s)
    find-after p w = find-write v w p o s e

    -- A white object goes to the visit stack.
    pub greyen-IsTracked :
        o.gc_status ≡ unvisited
        → IsTracked s₀ rs₀ (write v (record o { gc_status = in_progress }) s) st (v ∷ vs)
    greyen-IsTracked c =
        let p : Obj = record o { gc_status = in_progress } in
        record {
          live = λ w l. ground (arith, find-after p w, t.live w);
          kept = λ w q o₀ f f₀.
              ground (arith, find-after p w, t.kept w q o₀, t.kept w o o₀, eq_adb_addr_iff v w);
          added = λ w q f f₀.
              ground (arith, find-after p w, t.added w q, t.added w o, eq_adb_addr_iff v w);
          early =
              λ w q o₀ f f₀ d. ground (arith, find-after p w, t.early w q o₀, eq_adb_addr_iff v w);
          grey = λ w q f d. ground (arith, find-after p w, t.grey w q, eq_adb_addr_iff v w);
          from_roots = λ w r. ground (arith, find-after p w, t.from_roots w, eq_adb_addr_iff v w);
          black = λ u w q o₀ f d f₀ r n. ground (
            arith,
            find-after p u,
            find-after p w,
            t.black u w q o₀,
            eq_adb_addr_iff v w,
            eq_adb_addr_iff v u,
          );
          pending = λ w r. ground (arith, find-after p w, t.pending w);
          waiting = λ w r. ground (arith, find-after p w, t.waiting w, eq_adb_addr_iff v w);
        }

    -- A visit: the references go to the in-progress stack. What they name is there.
    pub blacken-IsTracked :
        ((w : Vaddr) → In w o.rt → null_adb_addr w ≡ false → find w s ≢ none)
        → IsTracked s₀ rs₀ (write v (record o { gc_status = visited }) s) (push_refs o.rt st) vs
    blacken-IsTracked refs =
        let p : Obj = record o { gc_status = visited } in
        record {
          live = λ w l. ground (arith, find-after p w, t.live w);
          kept = λ w q o₀ f f₀. ground (arith, find-after p w, t.kept w q o₀, eq_adb_addr_iff v w);
          added = λ w q f f₀. ground (arith, find-after p w, t.added w q, eq_adb_addr_iff v w);
          early =
              λ w q o₀ f f₀ d. ground (arith, find-after p w, t.early w q o₀, eq_adb_addr_iff v w);
          grey = λ w q f d. ground (arith, find-after p w, t.grey w q, eq_adb_addr_iff v w);
          from_roots = λ w r.
              ground (
                arith,
                find-after p w,
                t.from_roots w,
                eq_adb_addr_iff v w,
                In-push_refs w o.rt st,
              );
          black = λ u w q o₀ f d f₀ r n. elim (Bool-cases (eq_adb_addr v u)) [
            | inl same ↦
                let here : v ≡ u = (eq_adb_addr_iff v u).0 same in
                let seen : find u s ≡ some o = rw (← here) e in
                elim (t.kept u o o₀ seen f₀) [
                  | inl old ↦ elim (t.black u w o o₀ seen old f₀ r n) [
                    | inl stacked ↦ inl ((In-push_refs w o.rt st).1 stacked)
                    | inr marked ↦ inr (ground (arith, find-after p w))
                  ]
                  | inr refs_kept ↦ inl ((In-push_refs w o.rt st).2 (rw refs_kept r) n)
                ]
            | inr other ↦
                ground
                  (arith, find-after p u, find-after p w, t.black u w q o₀, In-push_refs w o.rt st)
          ];
          pending = λ w r. elim ((In-push_refs w o.rt st).0 r) [
            | inl old ↦ ground (arith, find-after p w, t.pending w)
            | inr (ref, n) ↦ ground (arith, find-after p w, refs w)
          ];
          waiting = λ w r. ground (arith, find-after p w, t.waiting w);
        }

    -- A store into an object that was visited, or that came later.
    pub set_ref-IsTracked :
        (i : ℕ) (x : Vaddr)
        → (o.gc_status ≡ visited) ⊎ (find v s₀ ≡ none)
        → IsTracked s₀ rs₀ (write v (set_ref o i x) s) st vs
    set_ref-IsTracked i x open_to_write =
        let p : Obj = set_ref o i x in
        record {
          live = λ w l. ground (arith, find-after p w, t.live w);
          kept = λ w q o₀ f f₀. ground (arith, find-after p w, t.kept w q o₀, eq_adb_addr_iff v w);
          added = λ w q f f₀.
              ground (arith, find-after p w, t.added w q, t.added w o, eq_adb_addr_iff v w);
          early = λ w q o₀ f f₀ d.
              ground (arith, find-after p w, t.early w q o₀, t.early w o o₀, eq_adb_addr_iff v w);
          grey = λ w q f d.
              ground (arith, find-after p w, t.grey w q, t.grey w o, eq_adb_addr_iff v w);
          from_roots = λ w r. ground (arith, find-after p w, t.from_roots w, eq_adb_addr_iff v w);
          black = λ u w q o₀ f d f₀ r n. ground (
            arith,
            find-after p u,
            find-after p w,
            t.black u w q o₀,
            t.black u w o o₀,
            eq_adb_addr_iff v w,
            eq_adb_addr_iff v u,
          );
          pending = λ w r. ground (arith, find-after p w, t.pending w);
          waiting = λ w r. ground (arith, find-after p w, t.waiting w);
        }

  -- An allocation at an address that was free.
  pub alloc-IsTracked :
      (s : Store) (v : Vaddr) (st vs : List Vaddr) (rt_len : ℕ) (da : List ℕ)
      → IsTracked s₀ rs₀ s st vs
      → find v s ≡ none
      → IsTracked s₀ rs₀ ((v, new_obj rt_len da) ∷ s) st vs
  alloc-IsTracked s v st vs rt_len da t e = record {
    live = λ w l. ground (arith, t.live w);
    kept = λ w q o₀ f f₀. ground (arith, t.kept w q o₀, t.live w, eq_adb_addr_iff v w);
    added = λ w q f f₀. ground (arith, t.added w q);
    early = λ w q o₀ f f₀ d. ground (arith, t.early w q o₀, t.live w, eq_adb_addr_iff v w);
    grey = λ w q f d. ground (arith, t.grey w q);
    from_roots = λ w r. ground (arith, t.from_roots w, eq_adb_addr_iff v w);
    black = λ u w q o₀ f d f₀ r n. ground (arith, t.black u w q o₀, eq_adb_addr_iff v w);
    pending = λ w r. ground (arith, t.pending w);
    waiting = λ w r. ground (arith, t.waiting w);
  }
