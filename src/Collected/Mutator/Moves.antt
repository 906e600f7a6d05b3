-- ===== src/Collected/Mutator/Moves.antt =====
-- gc_src/cs.c: the steps of the collector and the write barrier keep the invariant of the black phase.
use chvm.Base.{
  ◌≡◌, refl, sym, ◌≢◌, ◌⊎◌, inl, inr, true, false, none, some, List, ◌∷◌, arith, In, Bool-cases,
  Option-cases,
}
use chvm.Base.Result.{ok}
use mathlib.Core.Path.{subst}
use chvm.AddrBook.{Vaddr, null_adb_addr}
use chvm.Collected.RootSet.{roots}
use chvm.Collected.Objects.Laws.{IsDistinct, write-IsDistinct, find-write, eq_adb_addr_iff}
use chvm.Collected.Objects.{unvisited, in_progress, visited, Obj, Store, find, write}
use chvm.Collected.Gc.{CollectedSpace, push_refs, transfer_one, visit_one}
use chvm.Collected.Gc.Reach.{Reach-live}
use chvm.Collected.Gc.Mark.{is_marked}
use chvm.Collected.Gc.Rounds.{is_unvisited, is_in_progress}
use chvm.Collected.Mutator.{Shared, cs_get_write, is_visited}
use chvm.Collected.Mutator.Snapshot.{IsTracked, IsConfined, IsSafe, IsStart}
use chvm.Collected.Mutator.Marking.{
  pop_in_progress-IsTracked, pop_visit-IsTracked, greyen-IsTracked, blacken-IsTracked,
}
use chvm.Collected.Mutator.Access.{users-IsConfined, status-IsConfined}

transfer_one-cases :
    (v : Vaddr) (s s' : Store) (vs vs' : List Vaddr) (o : Obj)
    → find v s ≡ some o
    → transfer_one v s vs ≡ ok (s', vs')
    → ((o.gc_status ≡ unvisited)
        × (s' ≡ write v (record o { gc_status = in_progress }) s)
        × (vs' ≡ v ∷ vs))
      ⊎ ((o.gc_status ≢ unvisited) × (s' ≡ s) × (vs' ≡ vs))
unfolding transfer_one
transfer_one-cases v s s' vs vs' o e run = elim (is_unvisited o.gc_status) [
  | inl white ↦ inl (white, ground arith, ground arith)
  | inr other ↦ inr (other, ground arith, ground arith)
]

visit_one-cases :
    (v : Vaddr) (s s' : Store) (st st' : List Vaddr) (o : Obj)
    → find v s ≡ some o
    → visit_one v s st ≡ ok (s', st')
    → ((o.gc_status ≡ in_progress)
        × (s' ≡ write v (record o { gc_status = visited }) s)
        × (st' ≡ push_refs o.rt st))
      ⊎ ((o.gc_status ≢ in_progress) × (s' ≡ s) × (st' ≡ st))
unfolding visit_one
visit_one-cases v s s' st st' o e run = elim (is_in_progress o.gc_status) [
  | inl grey ↦ inl (grey, ground arith, ground arith)
  | inr other ↦ inr (other, ground arith, ground arith)
]

-- The object that a user gets to write was visited, or is visited now.
cs_get_write-cases :
    (cs cs' : CollectedSpace) (v : Vaddr) (o : Obj)
    → cs.paint_black_in_progress ≡ true
    → find v cs.ms ≡ some o
    → cs_get_write cs v ≡ ok cs'
    → ((o.gc_status ≡ visited) × (cs' ≡ cs))
      ⊎ (cs' ≡ record cs {
        ms = write v (record o { gc_status = visited }) cs.ms;
        in_progress_stack = push_refs o.rt cs.in_progress_stack;
      })
unfolding cs_get_write
cs_get_write-cases cs cs' v o black e run = elim (Bool-cases (is_visited o.gc_status)) [
  | inl done ↦ inl (ground arith, ground arith)
  | inr new ↦ inr (ground arith)
]

pub find-some : (v : Vaddr) (s : Store) → find v s ≢ none → (o : Obj) × (find v s ≡ some o)
find-some v s there = elim (Option-cases (find v s)) [
  | inl gone ↦ absurd (there gone)
  | inr here_it ↦ here_it
]

pub is_marked-write :
    (v w : Vaddr) (o p : Obj) (s : Store)
    → find v s ≡ some o
    → (is_marked (some o) ≡ true → is_marked (some p) ≡ true)
    → is_marked (find w s) ≡ true
    → is_marked (find w (write v p s)) ≡ true
is_marked-write v w o p s e stays m = ground (arith, find-write v w p o s e, eq_adb_addr_iff v w)

module _ (s₀ : Store) (rs₀ : List Vaddr) where
  -- The invariant of the black phase.
  pub record IsSound (x : Shared) : Type 0 where
    pub tracked : IsTracked s₀ rs₀ x.cs.ms x.cs.in_progress_stack x.cs.visit_stack
    pub confined : IsConfined s₀ rs₀ x.cs.ms (roots x.cs.root_set) x.known x.held
    pub phase : x.cs.paint_black_in_progress ≡ true
    pub distinct : IsDistinct x.cs.ms

  -- No step takes a mark away, or an object.
  abbrev pub StaysMarked : Store → Store → Type 0
  StaysMarked s s' = (v : Vaddr) → is_marked (find v s) ≡ true → is_marked (find v s') ≡ true

  module _ (start : IsStart s₀ rs₀) where
    abbrev pub After : Shared → Shared → Type 0
    After x y = IsSound y × StaysMarked x.cs.ms y.cs.ms

    pub take-After :
        (x : Shared) (v : Vaddr) (st : List Vaddr) (ms : Store) (vs : List Vaddr)
        → IsSound x
        → x.cs.in_progress_stack ≡ v ∷ st
        → ¬ In v x.held
        → transfer_one v x.cs.ms x.cs.visit_stack ≡ ok (ms, vs)
        → After x
            (record x { cs = record x.cs { ms = ms; in_progress_stack = st; visit_stack = vs } })
    take-After x v st ms vs i top off run =
        let s : Store = x.cs.ms in
        let t : IsTracked s₀ rs₀ s (v ∷ st) x.cs.visit_stack = simp top at i.tracked in
        let (o, e) = find-some v s (t.pending v (inl refl)) in
        elim (transfer_one-cases v s ms x.cs.visit_stack vs o e run) [
          | inl (white, new_ms, new_vs) ↦
              rw (new_ms, new_vs)
                (
                  record {
                    tracked =
                        pop_in_progress-IsTracked s₀ rs₀ _ v st _
                          (greyen-IsTracked s₀ rs₀ s v (v ∷ st) x.cs.visit_stack o t e white)
                          (ground (
                            arith,
                            find-write v v (record o { gc_status = in_progress }) o s e,
                            eq_adb_addr_iff v v,
                          ));
                    confined =
                        status-IsConfined s₀ rs₀ s (roots x.cs.root_set) x.known x.held i.confined v
                          o in_progress e (inl off);
                    phase = i.phase;
                    distinct =
                        write-IsDistinct v (record o { gc_status = in_progress }) s i.distinct;
                  },
                  λ w m.
                      is_marked-write v w o (record o { gc_status = in_progress }) s e (λ a. refl)
                        m,
                )
          | inr (marked, new_ms, new_vs) ↦
              rw (new_ms, new_vs)
                (
                  record {
                    tracked =
                        pop_in_progress-IsTracked s₀ rs₀ s v st x.cs.visit_stack t (ground arith);
                    confined = i.confined;
                    phase = i.phase;
                    distinct = i.distinct;
                  },
                  λ w m. m,
                )
        ]

    pub safe_ref_live :
        (x : Shared) (v w : Vaddr) (o : Obj)
        → IsSound x
        → IsSafe s₀ rs₀ x.cs.ms v
        → find v x.cs.ms ≡ some o
        → In w o.rt
        → null_adb_addr w ≡ false
        → find w x.cs.ms ≢ none
    safe_ref_live x v w o i safe e m n = elim (i.confined.safe_refs v w o safe e m n) [
      | inl r ↦ let (o₀, e₀) = Reach-live start.closed r in i.tracked.live w (ground arith)
      | inr (_, there) ↦ there
    ]

    grey_ref_live :
        (x : Shared) (v w : Vaddr) (o : Obj)
        → IsSound x
        → o.gc_status ≡ in_progress
        → find v x.cs.ms ≡ some o
        → In w o.rt
        → null_adb_addr w ≡ false
        → find w x.cs.ms ≢ none
    grey_ref_live x v w o i grey e m n = elim (Option-cases (find v s₀)) [
      | inl new ↦ absurd (ground (arith, i.tracked.added v o))
      | inr (o₀, e₀) ↦ elim (i.tracked.kept v o o₀ e e₀) [
        | inl done ↦ absurd (ground arith)
        | inr refs ↦
            let (p, there) = start.closed.ref_live v w o₀ e₀ (rw (← refs) m) n in
            i.tracked.live w (ground arith)
      ]
    ]

    pub look-After :
        (x : Shared) (v : Vaddr) (vs : List Vaddr) (ms : Store) (st : List Vaddr)
        → IsSound x
        → x.cs.visit_stack ≡ v ∷ vs
        → visit_one v x.cs.ms x.cs.in_progress_stack ≡ ok (ms, st)
        → After x
            (record x { cs = record x.cs { ms = ms; in_progress_stack = st; visit_stack = vs } })
    look-After x v vs ms st i top run =
        let s : Store = x.cs.ms in
        let t : IsTracked s₀ rs₀ s x.cs.in_progress_stack (v ∷ vs) = simp top at i.tracked in
        let (o, e) = find-some v s (t.waiting v (inl refl)) in
        elim (visit_one-cases v s ms x.cs.in_progress_stack st o e run) [
          | inl (grey, new_ms, new_st) ↦
              let black : Obj = record o { gc_status = visited } in
              rw (new_ms, new_st)
                (
                  record {
                    tracked =
                        pop_visit-IsTracked s₀ rs₀ (write v black s) v
                          (push_refs o.rt x.cs.in_progress_stack) vs black
                          (blacken-IsTracked s₀ rs₀ s v x.cs.in_progress_stack (v ∷ vs) o t e
                            (λ w m n. grey_ref_live x v w o i grey e m n))
                          (ground (arith, find-write v v black o s e, eq_adb_addr_iff v v))
                          (λ c. cc);
                    confined =
                        status-IsConfined s₀ rs₀ s (roots x.cs.root_set) x.known x.held i.confined v
                          o visited e (inr refl);
                    phase = i.phase;
                    distinct = write-IsDistinct v black s i.distinct;
                  },
                  λ w m. is_marked-write v w o black s e (λ a. refl) m,
                )
          | inr (other, new_ms, new_st) ↦
              rw (new_ms, new_st)
                (
                  record {
                    tracked = pop_visit-IsTracked s₀ rs₀ s v x.cs.in_progress_stack vs o t e other;
                    confined = i.confined;
                    phase = i.phase;
                    distinct = i.distinct;
                  },
                  λ w m. m,
                )
        ]

    pub lock-After :
        (x : Shared) (v : Vaddr) (cs : CollectedSpace)
        → IsSound x
        → In v x.known
        → cs_get_write x.cs v ≡ ok cs
        → After x (record x { cs = cs; held = v ∷ x.held })
    lock-After x v cs i user run =
        let s : Store = x.cs.ms in
        let safe = i.confined.safe_known v user in
        let there : find v s ≢ none = elim safe [
          | inl r ↦ let (o₀, e₀) = Reach-live start.closed r in i.tracked.live v (ground arith)
          | inr (_, l) ↦ l
        ] in
        let (o, e) = find-some v s there in
        let black : Obj = record o { gc_status = visited } in
        elim (cs_get_write-cases x.cs cs v o i.phase e run) [
          | inl (done, same) ↦ rw same (
            record {
              tracked = i.tracked;
              confined = hold x v s i.confined safe (λ p f. inl (ground arith));
              phase = i.phase;
              distinct = i.distinct;
            },
            λ w m. m,
          )
          | inr new ↦ rw new (
            record {
              tracked =
                  blacken-IsTracked s₀ rs₀ s v x.cs.in_progress_stack x.cs.visit_stack o i.tracked e
                    (λ w m n. safe_ref_live x v w o i safe e m n);
              confined =
                  hold x v (write v black s)
                    (status-IsConfined s₀ rs₀ s (roots x.cs.root_set) x.known x.held i.confined v o
                      visited e (inr refl))
                    (status_safe x v o i safe e)
                    (λ p f. inl (ground (arith, find-write v v black o s e, eq_adb_addr_iff v v)));
              phase = i.phase;
              distinct = write-IsDistinct v black s i.distinct;
            },
            λ w m. is_marked-write v w o black s e (λ a. refl) m,
          )
        ]
      where
        hold :
            (x : Shared) (v : Vaddr) (s : Store)
            → IsConfined s₀ rs₀ s (roots x.cs.root_set) x.known x.held
            → IsSafe s₀ rs₀ s v
            → ((p : Obj) → find v s ≡ some p → (p.gc_status ≡ visited) ⊎ (find v s₀ ≡ none))
            → IsConfined s₀ rs₀ s (roots x.cs.root_set) x.known (v ∷ x.held)
        hold x v s c safe black =
            users-IsConfined s₀ rs₀ s (roots x.cs.root_set) x.known x.held c (roots x.cs.root_set)
              x.known (v ∷ x.held) c.safe_known c.safe_roots
              (λ u m. elim m [
                | inl same ↦ subst (IsSafe s₀ rs₀ s) (sym same) safe
                | inr old ↦ c.safe_held u old
              ])
              (λ u p m f. elim m [
                | inl same ↦ ground (arith, black p)
                | inr old ↦ c.held_visited u p old f
              ])

        status_safe :
            (x : Shared) (v : Vaddr) (o : Obj)
            → IsSound x
            → IsSafe s₀ rs₀ x.cs.ms v
            → find v x.cs.ms ≡ some o
            → IsSafe s₀ rs₀ (write v (record o { gc_status = visited }) x.cs.ms) v
        status_safe x v o i (inl r) e = inl r
        status_safe x v o i (inr (fresh, there)) e = inr (
          fresh,
          ground (
            arith,
            find-write v v (record o { gc_status = visited }) o x.cs.ms e,
            eq_adb_addr_iff v v,
          ),
        )
