-- ===== src/Collected/Mutator/Access.antt =====
-- gc_src/cs.c: what the steps of the black phase do to the part of the invariant that the users and
-- the roots are in.
use chvm.Base.{
  ℕ, zero, suc, ◌≡◌, sym, ◌≢◌, ◌⊎◌, inl, inr, Bool, true, false, none, some, List, [], ◌∷◌, arith,
  if◌then◌else◌, In, Bool-cases, Option-cases, set, replicate,
}
use mathlib.Core.Path.{subst}
use chvm.AddrBook.{Vaddr, eq_adb_addr, null_vaddr, null_adb_addr}
use chvm.Collected.Objects.{Status, visited, Obj, Store, find, write}
use chvm.Collected.Objects.Laws.{find-write, eq_adb_addr_iff}
use chvm.Collected.Gc.Reach.{IsClosed}
use chvm.Collected.Mutator.{release, set_ref, new_obj}
use chvm.Collected.Mutator.Snapshot.{IsConfined, IsSafe}

pub In-release : (v w : Vaddr) (vs : List Vaddr) → In w (release v vs) → In w vs
In-release v w [] m = m
In-release v w (u ∷ vs) m = ground (arith, In-release v w vs)

-- A store changes at most one reference.
In-set : (rt : List Vaddr) (i : ℕ) (x w : Vaddr) → In w (set rt i x) → (w ≡ x) ⊎ In w rt
In-set [] i x w m = inr m
In-set (r ∷ rt) zero x w m = ground arith
In-set (r ∷ rt) (suc i) x w m = ground (arith, In-set rt i x w)

In-replicate : (n : ℕ) (x w : Vaddr) → In w (replicate n x) → w ≡ x
In-replicate zero x w m = absurd m
In-replicate (suc n) x w m = ground (arith, In-replicate n x w)

module _ (s₀ : Store) (rs₀ : List Vaddr) where
  -- Safety is kept while objects stay.
  IsSafe-mono :
      (s s' : Store) (w : Vaddr)
      → (find w s ≢ none → find w s' ≢ none)
      → IsSafe s₀ rs₀ s w
      → IsSafe s₀ rs₀ s' w
  IsSafe-mono s s' w stay (inl r) = inl r
  IsSafe-mono s s' w stay (inr (fresh, there)) = inr (fresh, stay there)

  module _ (s : Store) (rs known held : List Vaddr) (c : IsConfined s₀ rs₀ s rs known held) where
    -- What a user knows, holds or roots changes.
    pub users-IsConfined :
        (rs' known' held' : List Vaddr)
        → ((w : Vaddr) → In w known' → IsSafe s₀ rs₀ s w)
        → ((w : Vaddr) → In w rs' → IsSafe s₀ rs₀ s w)
        → ((v : Vaddr) → In v held' → IsSafe s₀ rs₀ s v)
        → ((v : Vaddr) (o : Obj)
            → In v held'
            → find v s ≡ some o
            → (o.gc_status ≡ visited) ⊎ (find v s₀ ≡ none))
        → IsConfined s₀ rs₀ s rs' known' held'
    users-IsConfined rs' known' held' k r h hv = record {
      safe_known = k;
      safe_roots = r;
      safe_refs = c.safe_refs;
      safe_held = h;
      held_visited = hv;
    }

    -- An object is rewritten, with references of which each is null, safe, or one of before.
    pub write-IsConfined :
        (v : Vaddr) (o p : Obj)
        → find v s ≡ some o
        → ((w : Vaddr)
            → IsSafe s₀ rs₀ s v
            → In w p.rt
            → null_adb_addr w ≡ false
            → IsSafe s₀ rs₀ s w)
        → (In v held → (o.gc_status ≡ visited → p.gc_status ≡ visited))
        → IsConfined s₀ rs₀ (write v p s) rs known held
    write-IsConfined v o p e refs status = record {
      safe_known = λ w m. moved w (c.safe_known w m);
      safe_roots = λ w m. moved w (c.safe_roots w m);
      safe_refs = λ u w q safe f r n. elim (Bool-cases (eq_adb_addr v u)) [
        | inl same ↦
            let here : v ≡ u = (eq_adb_addr_iff v u).0 same in
            let new : q ≡ p = ground (arith, after u) in
            moved w (refs w (rw here (back u safe)) (rw (← new) r) n)
        | inr other ↦ moved w (c.safe_refs u w q (back u safe) (ground (arith, after u)) r n)
      ];
      safe_held = λ u m. moved u (c.safe_held u m);
      held_visited = λ u q m f.
          ground (arith, after u, c.held_visited u q m, c.held_visited u o m, eq_adb_addr_iff v u);
    }
      where
        after : (w : Vaddr) → find w (write v p s) ≡ (if eq_adb_addr v w then some p else find w s)
        after w = find-write v w p o s e

        moved : (w : Vaddr) → IsSafe s₀ rs₀ s w → IsSafe s₀ rs₀ (write v p s) w
        moved w = IsSafe-mono s (write v p s) w (λ l. ground (arith, after w))

        back : (w : Vaddr) → IsSafe s₀ rs₀ (write v p s) w → IsSafe s₀ rs₀ s w
        back w = IsSafe-mono (write v p s) s w (λ l. ground (arith, after w, eq_adb_addr_iff v w))

    -- A visit, and the move to the visit stack, change the status only.
    pub status-IsConfined :
        (v : Vaddr) (o : Obj) (d : Status)
        → find v s ≡ some o
        → (¬ In v held) ⊎ (d ≡ visited)
        → IsConfined s₀ rs₀ (write v (record o { gc_status = d }) s) rs known held
    status-IsConfined v o d e ok_status =
        write-IsConfined v o (record o { gc_status = d }) e
          (λ w safe r n. c.safe_refs v w o safe e r n)
          (λ m old. elim ok_status [ inl off ↦ absurd (off m) | inr new ↦ new ])

    pub set_ref-IsConfined :
        (v : Vaddr) (o : Obj) (i : ℕ) (x : Vaddr)
        → find v s ≡ some o
        → (null_adb_addr x ≡ true) ⊎ In x known
        → IsConfined s₀ rs₀ (write v (set_ref o i x) s) rs known held
    set_ref-IsConfined v o i x e okay =
        write-IsConfined v o (set_ref o i x) e
          (λ w safe r n. elim (In-set o.rt i x w r) [
            | inl new ↦ elim okay [
              | inl null ↦ ground arith
              | inr user ↦ rw new (c.safe_known x user)
            ]
            | inr old ↦ c.safe_refs v w o safe e old n
          ])
          (λ m old. old)

    pub alloc-IsConfined :
        IsClosed s₀ rs₀
        → (v : Vaddr) (rt_len : ℕ) (da : List ℕ) (hold : Bool)
        → ((w : Vaddr) → find w s₀ ≢ none → find w s ≢ none)
        → find v s ≡ none
        → IsConfined s₀ rs₀
            ((v, new_obj rt_len da) ∷ s)
            rs
            (v ∷ known)
            (if hold then v ∷ held else held)
    alloc-IsConfined closed v rt_len da hold live e = record {
      safe_known = λ w m. elim m [
        | inl new ↦ subst (IsSafe s₀ rs₀ ((v, new_obj rt_len da) ∷ s)) (sym new) safe
        | inr old ↦ moved w (c.safe_known w old)
      ];
      safe_roots = λ w m. moved w (c.safe_roots w m);
      safe_refs = λ u w q ok_u f r n. elim (Bool-cases (eq_adb_addr v u)) [
        | inl same ↦
            let made : q ≡ new_obj rt_len da = ground arith in
            let null : w ≡ null_vaddr = In-replicate rt_len null_vaddr w (rw made at r) in
            ground arith
        | inr other ↦ moved w (c.safe_refs u w q (back u other ok_u) (ground arith) r n)
      ];
      safe_held = λ u m. elim (Bool-cases hold) [
        | inl keep ↦ elim (rw keep at m) [
          | inl new ↦ subst (IsSafe s₀ rs₀ ((v, new_obj rt_len da) ∷ s)) (sym new) safe
          | inr old ↦ moved u (c.safe_held u old)
        ]
        | inr drop ↦ moved u (c.safe_held u (rw drop at m))
      ];
      held_visited = λ u q m f. elim (Bool-cases (eq_adb_addr v u)) [
        | inl same ↦ let here : v ≡ u = (eq_adb_addr_iff v u).0 same in inr (rw (← here) fresh)
        | inr other ↦ elim (Bool-cases hold) [
          | inl keep ↦ elim (rw keep at m) [
            | inl new ↦ ground (arith, eq_adb_addr_iff v u)
            | inr old ↦ c.held_visited u q old (ground arith)
          ]
          | inr drop ↦ c.held_visited u q (rw drop at m) (ground arith)
        ]
      ];
    }
      where
        fresh : find v s₀ ≡ none
        fresh = elim (Option-cases (find v s₀)) [
          | inl gone ↦ gone
          | inr (o₀, there) ↦ absurd (live v (ground arith) e)
        ]

        safe : IsSafe s₀ rs₀ ((v, new_obj rt_len da) ∷ s) v
        safe = inr (fresh, ground (arith, eq_adb_addr_iff v v))

        moved : (w : Vaddr) → IsSafe s₀ rs₀ s w → IsSafe s₀ rs₀ ((v, new_obj rt_len da) ∷ s) w
        moved w = IsSafe-mono s ((v, new_obj rt_len da) ∷ s) w (λ l. ground arith)

        back :
            (w : Vaddr)
            → eq_adb_addr v w ≡ false
            → IsSafe s₀ rs₀ ((v, new_obj rt_len da) ∷ s) w
            → IsSafe s₀ rs₀ s w
        back w other = IsSafe-mono ((v, new_obj rt_len da) ∷ s) s w (λ l. ground arith)
