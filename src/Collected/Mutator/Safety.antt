-- ===== src/Collected/Mutator/Safety.antt =====
-- gc_src/cs.c: what holds after any interleaving of the black phase with user threads.
use chvm.Base.{
  ℕ, ◌≡◌, sym, ◌≢◌, ◌⊎◌, inl, inr, Bool, true, none, some, List, [], ◌∷◌, arith, if◌then◌else◌, In,
  Option-cases,
}
use mathlib.Core.Path.{subst}
use chvm.Base.Result.{ok}
use chvm.AddrBook.{Vaddr, null_adb_addr}
use chvm.Collected.RootSet.{RootSet, roots}
use chvm.Collected.RootSet.Roots.{In-roots-cs_root, In-roots-cs_deroot}
use chvm.Collected.Objects.{Obj, Store, find, write, ms_filter}
use chvm.Collected.Objects.Laws.{IsDistinct, write-IsDistinct, eq_adb_addr_iff}
use chvm.Collected.Objects.Filter.{ms_filter_lem}
use chvm.Collected.Gc.{obj_reachable}
use chvm.Collected.Gc.Reach.{Reach, root}
use chvm.Collected.Gc.Mark.{is_marked}
use chvm.Collected.Mutator.{
  Shared, Step, Steps, take, look, lock, unlock, store, read, get_root, deroot, alloc, here, next,
  cs_malloc_p, release, set_ref,
}
use chvm.Collected.Mutator.Snapshot.{IsTracked, IsSafe, IsStart, marked_of_IsSafe, Reach-IsSafe}
use chvm.Collected.Mutator.Marking.{set_ref-IsTracked, alloc-IsTracked}
use chvm.Collected.Mutator.Access.{
  In-release, users-IsConfined, set_ref-IsConfined, alloc-IsConfined,
}
use chvm.Collected.Mutator.Moves.{
  IsSound, StaysMarked, After, take-After, look-After, lock-After, find-some, is_marked-write,
}

module _ (s₀ : Store) (rs₀ : List Vaddr) (start : IsStart s₀ rs₀) where
  -- A user comes by an address, or the roots change; the objects stay.
  users-After :
      (x : Shared) (rs : RootSet) (known held : List Vaddr)
      → IsSound s₀ rs₀ x
      → ((w : Vaddr) → In w known → IsSafe s₀ rs₀ x.cs.ms w)
      → ((w : Vaddr) → In w (roots rs) → IsSafe s₀ rs₀ x.cs.ms w)
      → ((v : Vaddr) → In v held → In v x.held)
      → After s₀ rs₀ start x
          (record { cs = record x.cs { root_set = rs }; held = held; known = known })
  users-After x rs known held i k r h = (
    record {
      tracked = i.tracked;
      confined =
          users-IsConfined s₀ rs₀ x.cs.ms (roots x.cs.root_set) x.known x.held i.confined (roots rs)
            known held k r (λ v m. i.confined.safe_held v (h v m))
            (λ v o m f. i.confined.held_visited v o (h v m) f);
      phase = i.phase;
      distinct = i.distinct;
    },
    λ v m. m,
  )

  store-After :
      (x : Shared) (v w : Vaddr) (o : Obj) (n : ℕ)
      → IsSound s₀ rs₀ x
      → In v x.held
      → find v x.cs.ms ≡ some o
      → (null_adb_addr w ≡ true) ⊎ In w x.known
      → After s₀ rs₀ start x
          (record x { cs = record x.cs { ms = write v (set_ref o n w) x.cs.ms } })
  store-After x v w o n i m e okay = (
    record {
      tracked =
          set_ref-IsTracked s₀ rs₀ x.cs.ms v x.cs.in_progress_stack x.cs.visit_stack o i.tracked e n
            w (i.confined.held_visited v o m e);
      confined =
          set_ref-IsConfined s₀ rs₀ x.cs.ms (roots x.cs.root_set) x.known x.held i.confined v o n w
            e okay;
      phase = i.phase;
      distinct = write-IsDistinct v (set_ref o n w) x.cs.ms i.distinct;
    },
    λ u k. is_marked-write v u o (set_ref o n w) x.cs.ms e (λ a. a) k,
  )

  alloc-After :
      (x : Shared) (v : Vaddr) (rt_len : ℕ) (da : List ℕ) (hold : Bool)
      → IsSound s₀ rs₀ x
      → find v x.cs.ms ≡ none
      → After s₀ rs₀ start x (record x {
        cs = cs_malloc_p x.cs v rt_len da;
        held = if hold then v ∷ x.held else x.held;
        known = v ∷ x.known;
      })
  unfolding cs_malloc_p
  alloc-After x v rt_len da hold i e = (
    record {
      tracked =
          alloc-IsTracked s₀ rs₀ x.cs.ms v x.cs.in_progress_stack x.cs.visit_stack rt_len da
            i.tracked e;
      confined =
          alloc-IsConfined s₀ rs₀ x.cs.ms (roots x.cs.root_set) x.known x.held i.confined
            start.closed v rt_len da hold i.tracked.live e;
      phase = i.phase;
      distinct = (e, i.distinct);
    },
    λ u m. ground (arith, eq_adb_addr_iff v u),
  )

  pub Step-After : {x y : Shared} → Step x y → IsSound s₀ rs₀ x → After s₀ rs₀ start x y
  Step-After (take x v st ms vs top off run) i = take-After s₀ rs₀ start x v st ms vs i top off run
  Step-After (look x v vs ms st top off run) i = look-After s₀ rs₀ start x v vs ms st i top run
  Step-After (lock x v cs user off run) i = lock-After s₀ rs₀ start x v cs i user run
  Step-After (unlock x v m) i =
      users-After x x.cs.root_set x.known (release v x.held) i i.confined.safe_known
        i.confined.safe_roots (λ w k. In-release v w x.held k)
  Step-After (store x v w o n m e okay) i = store-After x v w o n i m e okay
  Step-After (read x v w o user e m n) i =
      users-After x x.cs.root_set (w ∷ x.known) x.held i
        (λ u k. elim k [
          | inl same ↦
              subst (IsSafe s₀ rs₀ x.cs.ms) (sym same)
                (i.confined.safe_refs v w o (i.confined.safe_known v user) e m n)
          | inr old ↦ i.confined.safe_known u old
        ])
        i.confined.safe_roots (λ u k. k)
  Step-After (get_root x w m) i =
      users-After x x.cs.root_set (w ∷ x.known) x.held i
        (λ u k. elim k [
          | inl same ↦ subst (IsSafe s₀ rs₀ x.cs.ms) (sym same) (i.confined.safe_roots w m)
          | inr old ↦ i.confined.safe_known u old
        ])
        i.confined.safe_roots (λ u k. k)
  Step-After (Step.root x w id rs user run) i =
      users-After x rs x.known x.held i i.confined.safe_known
        (λ u k. elim (In-roots-cs_root x.cs.root_set rs w u id run k) [
          | inl same ↦ subst (IsSafe s₀ rs₀ x.cs.ms) (sym same) (i.confined.safe_known w user)
          | inr old ↦ i.confined.safe_roots u old
        ])
        (λ u k. k)
  Step-After (deroot x id c rs run) i =
      users-After x rs x.known x.held i i.confined.safe_known
        (λ u k. i.confined.safe_roots u (In-roots-cs_deroot x.cs.root_set rs u id c run k))
        (λ u k. k)
  Step-After (alloc x v rt_len da hold e) i = alloc-After x v rt_len da hold i e

  pub Steps-After : {x y : Shared} → Steps x y → IsSound s₀ rs₀ x → After s₀ rs₀ start x y
  Steps-After here i = (i, λ v m. m)
  Steps-After (next r st) i =
      let (j, m1) = Steps-After r i in let (k, m2) = Step-After st j in (k, λ v m. m2 v (m1 v m))

-- How the black phase starts: nobody holds an object for writing, what users know is reachable, the
-- objects are white, or new and without references, and the roots are on the in-progress stack.
pub record IsBlackStart (x : Shared) : Type 0 where
  pub start : IsStart x.cs.ms (roots x.cs.root_set)
  pub flag : x.cs.paint_black_in_progress ≡ true
  pub nobody : x.held ≡ []
  pub users : (w : Vaddr) → In w x.known → Reach x.cs.ms (roots x.cs.root_set) w
  pub stacked : (w : Vaddr) → In w (roots x.cs.root_set) → In w x.cs.in_progress_stack
  pub stack_live : (w : Vaddr) → In w x.cs.in_progress_stack → find w x.cs.ms ≢ none
  pub no_visits : x.cs.visit_stack ≡ []
  pub distinct : IsDistinct x.cs.ms

pub IsBlackStart-IsSound : (x : Shared) → IsBlackStart x → IsSound x.cs.ms (roots x.cs.root_set) x
IsBlackStart-IsSound x b = record {
  tracked = record {
    live = λ v l. l;
    kept = λ v o o₀ e e₀. ground arith;
    added = λ v o e n. ground arith;
    early = λ v o o₀ e e₀ c. ground arith;
    grey = λ v o e c. ground (arith, b.start.white v o);
    from_roots = λ v m. inl (b.stacked v m);
    black = λ v w o o₀ e c e₀ m n. absurd (ground (arith, b.start.white v o));
    pending = b.stack_live;
    waiting = λ v m. absurd (rw b.no_visits at m);
  };
  confined = record {
    safe_known = λ w m. inl (b.users w m);
    safe_roots = λ w m. inl (root m);
    safe_refs = λ v w o safe e m n. elim safe [
      | inl r ↦ inl (Reach.step o r e m n)
      | inr (gone, there) ↦ absurd (there gone)
    ];
    safe_held = λ v m. absurd (rw b.nobody at m);
    held_visited = λ v o m e. absurd (rw b.nobody at m);
  };
  phase = b.flag;
  distinct = b.distinct;
}

marked_later :
    (x y z : Shared) (v : Vaddr)
    → IsBlackStart x
    → IsSound x.cs.ms (roots x.cs.root_set) y
    → y.cs.in_progress_stack ≡ []
    → y.cs.visit_stack ≡ []
    → IsSound x.cs.ms (roots x.cs.root_set) z
    → StaysMarked x.cs.ms (roots x.cs.root_set) y.cs.ms z.cs.ms
    → IsSafe x.cs.ms (roots x.cs.root_set) z.cs.ms v
    → is_marked (find v z.cs.ms) ≡ true
marked_later x y z v b i e1 e2 j stays (inl r) =
    let t : IsTracked x.cs.ms (roots x.cs.root_set) y.cs.ms [] [] = simp (e1, e2) at i.tracked in
    stays v (marked_of_IsSafe x.cs.ms (roots x.cs.root_set) b.start y.cs.ms t v (inl r))
marked_later x y z v b i e1 e2 j stays (inr (fresh, there)) =
    let (o, e) = find-some v z.cs.ms there in ground (arith, j.tracked.added v o)

-- Take any interleaving of the black phase with users from its start to a state in which both stacks
-- are empty, and any further one from there. Then every object that the roots reach is marked, and a
-- sweep (`ms_filter`) keeps it as it is.
pub ms_filter-Steps :
    (x y z : Shared)
    → IsBlackStart x
    → Steps x y
    → y.cs.in_progress_stack ≡ []
    → y.cs.visit_stack ≡ []
    → Steps y z
    → (n : ℕ) × (s : Store) × (ms_filter obj_reachable z.cs.ms ≡ ok (n, s))
      × ((v : Vaddr)
          → Reach z.cs.ms (roots z.cs.root_set) v
          → (o : Obj) × (find v z.cs.ms ≡ some o) × (find v s ≡ some o))
ms_filter-Steps x y z b run e1 e2 more =
    let s₀ : Store = x.cs.ms in
    let rs₀ : List Vaddr = roots x.cs.root_set in
    let (i, _) = Steps-After s₀ rs₀ b.start run (IsBlackStart-IsSound x b) in
    let (j, stays) = Steps-After s₀ rs₀ b.start more i in
    let (n, s, swept, f) = ms_filter_lem obj_reachable z.cs.ms j.distinct in
    (
      n,
      s,
      swept,
      λ v r.
          let safe =
            Reach-IsSafe s₀ rs₀ z.cs.ms (roots z.cs.root_set) z.known z.held j.confined r in
          let marked = marked_later x y z v b i e1 e2 j stays safe in
          elim (Option-cases (find v z.cs.ms)) [
            | inl gone ↦ absurd (ground arith)
            | inr (o, e) ↦ (o, e, f.passed v o e (ground arith))
          ],
    )
