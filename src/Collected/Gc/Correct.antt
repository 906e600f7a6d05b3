-- ===== src/Collected/Gc/Correct.antt =====
-- gc_src/cs.c: a run of `cs_collect_garbage` frees exactly what the roots do not reach.
use chvm.Base.{
  ℕ, ◌+◌, ◌≤◌, ◌≡◌, refl, ◌∙◌, inl, inr, true, false, none, some, List, [], ◌∷◌, arith,
  Option-cases, Bool-cases, In,
}
use chvm.Base.Result.{ok}
use chvm.AddrBook.{Vaddr}
use chvm.Collected.RootSet.{roots}
use chvm.Collected.Objects.{visited, Obj, Store, find, ms_count, ms_foreach}
use chvm.Collected.Objects.Laws.{
  IsDistinct, find-ms_foreach, ms_foreach-IsDistinct, ms_count-ms_foreach, count_white-le,
}
use chvm.Collected.Objects.Filter.{Filtered, ms_filter_lem}
use chvm.Collected.Gc.{
  CollectedSpace, obj_unvisit, obj_reachable, push_roots, mark, cs_collect_garbage,
}
use chvm.Collected.Gc.Reach.{Reach, root, step, IsClosed, Reach-live, In-push_roots}
use chvm.Collected.Gc.Mark.{Inv, is_marked, live}
use chvm.Collected.Gc.Rounds.{Keeps, rounds, paint_black_lem}

module _ (s₀ : Store) (rs : List Vaddr) (closed : IsClosed s₀ rs) where
  abbrev white : Store
  white = ms_foreach obj_unvisit s₀

  white-Inv : Inv s₀ rs white (push_roots rs []) []
  white-Inv = record {
    same = λ v. ground (arith, find-ms_foreach obj_unvisit v s₀);
    no_new = λ v o e. ground (arith, find-ms_foreach obj_unvisit v s₀);
    sound = λ v m. absurd (ground (arith, find-ms_foreach obj_unvisit v s₀));
    pending = λ v m. root (ground (arith, In-push_roots v rs []));
    waiting = λ v m. absurd m;
    grey = λ v o e c. ground (arith, find-ms_foreach obj_unvisit v s₀);
    from_roots = λ v m. inl (ground (arith, In-push_roots v rs []));
    black = λ v w o e c m n. absurd (ground (arith, find-ms_foreach obj_unvisit v s₀));
  }

  module _ (s : Store) (i : Inv s₀ rs s [] []) where
    -- With both stacks empty what is marked is visited.
    visited_of_marked :
        (v : Vaddr) (o : Obj)
        → find v s ≡ some o
        → is_marked (find v s) ≡ true
        → o.gc_status ≡ visited
    visited_of_marked v o e m = ground (arith, i.grey v o, i.no_new v o)

    marked_of_Reach : {v : Vaddr} → Reach s₀ rs v → is_marked (find v s) ≡ true
    marked_of_Reach (root {v} m) = ground (arith, i.from_roots v)
    marked_of_Reach (step {v} {w} o₀ r e₀ m n) =
        let marked = marked_of_Reach r in
        let (o, e) = live s₀ rs closed s [] [] v i r in
        let refs : o₀.rt ≡ o.rt = ground (arith, i.same v) in
        let black = i.black v w o e (visited_of_marked v o e marked) (rw (← refs) m) n in
        ground arith

-- `mark` ends, and marks what the roots reach and nothing else.
mark_lem :
    (s : Store) (rs : List Vaddr)
    → IsClosed s rs
    → (s' : Store) × (mark rs [] [] s ≡ ok s') × Inv s rs s' [] [] × Keeps s s'
unfolding mark
mark_lem s rs closed =
    let (s', run, i, k) =
      paint_black_lem s rs closed (ms_count s + 2) (push_roots rs []) (white s rs closed)
        (white-Inv s rs closed) (enough (push_roots rs [])) in
    (
      s',
      run,
      i,
      record {
        count = k.count ∙ ms_count-ms_foreach obj_unvisit s;
        distinct = λ d. k.distinct (ms_foreach-IsDistinct obj_unvisit s d);
      },
    )
  where
    enough : (st : List Vaddr) → rounds s rs closed st (white s rs closed) ≤ ms_count s + 2
    enough [] = omega arith
    enough (v ∷ st) =
        omega (arith, count_white-le (white s rs closed), ms_count-ms_foreach obj_unvisit s)

-- Between two runs: addresses stand once, no root or reference dangles, the stacks are empty.
pub record IsValid (cs : CollectedSpace) : Type 0 where
  pub distinct : IsDistinct cs.ms
  pub closed : IsClosed cs.ms (roots cs.root_set)
  pub drained : cs.in_progress_stack ≡ []
  pub no_visits : cs.visit_stack ≡ []

abbrev visit_done : Obj → Obj
visit_done o = record o { gc_status = visited }

-- What one run has done to `cs` when it gives `n` and `cs'`.
pub record Collected (cs : CollectedSpace) (n : ℕ) (cs' : CollectedSpace) : Type 0 where
  -- A reachable object keeps its references and its data.
  pub kept :
      (v : Vaddr) (o : Obj)
      → Reach cs.ms (roots cs.root_set) v
      → find v cs.ms ≡ some o
      → find v cs'.ms ≡ some (visit_done o)
  -- Any other address is free.
  pub freed : (v : Vaddr) → ¬ Reach cs.ms (roots cs.root_set) v → find v cs'.ms ≡ none
  pub count : ms_count cs'.ms + n ≡ ms_count cs.ms
  pub same_roots : cs'.root_set ≡ cs.root_set
  pub same_worker : cs'.gc_worker_stat ≡ cs.gc_worker_stat
  pub finished : (cs'.gc_in_progress ≡ false) × (cs'.paint_black_in_progress ≡ false)
  pub valid : IsValid cs'

module _ (s s1 s2 : Store) (rs : List Vaddr) (n : ℕ) (closed : IsClosed s rs)
    (i : Inv s rs s1 [] []) (f : Filtered obj_reachable s1 n s2) where
  survivor :
      (v : Vaddr) (o : Obj) → Reach s rs v → find v s ≡ some o → find v s2 ≡ some (visit_done o)
  survivor v o r e =
      let (p, here) = live s rs closed s1 [] [] v i r in
      let black =
        visited_of_marked s rs closed s1 i v p here (marked_of_Reach s rs closed s1 i r) in
      let same : p ≡ visit_done o = ground (arith, i.same v) in ground (arith, f.passed v p)

  Reach-of_survivor : (v : Vaddr) (p : Obj) → find v s2 ≡ some p → Reach s rs v
  Reach-of_survivor v p e = elim (Option-cases (find v s1)) [
    | inl none_here ↦ ground (arith, f.absent v none_here)
    | inr (q, here) ↦ elim (Bool-cases (obj_reachable q)) [
      | inl marked ↦ i.sound v (rw here marked)
      | inr white_left ↦ ground (arith, f.failed v q here white_left)
    ]
  ]

  garbage : (v : Vaddr) → ¬ Reach s rs v → find v s2 ≡ none
  garbage v off = elim (Option-cases (find v s2)) [
    | inl gone ↦ gone
    | inr (p, here) ↦ absurd (off (Reach-of_survivor v p here))
  ]

  swept-IsClosed : IsClosed s2 rs
  swept-IsClosed = record {
    root_live = λ v m. let (o, e) = closed.root_live v m in (visit_done o, survivor v o (root m) e);
    ref_live = λ v w p e m nn.
        let r = Reach-of_survivor v p e in
        let (o, here) = Reach-live closed r in
        let refs : p.rt ≡ o.rt = ground (arith, survivor v o r here) in
        let ref : In w o.rt = rw (← refs) m in
        let (q, there) = closed.ref_live v w o here ref nn in
        (visit_done q, survivor w q (step o r here ref nn) there);
  }

-- With no other thread at work a run from a valid space ends; it frees the objects that no path from the roots
-- reaches, counts them, keeps all others, and leaves a space in which the same holds again. It
-- gives 0 and changes nothing where another run is in progress.
pub cs_collect_garbage_lem :
    (cs : CollectedSpace)
    → IsValid cs
    → (n : ℕ) × (cs' : CollectedSpace) × (cs_collect_garbage cs ≡ ok (n, cs'))
      × (cs.gc_in_progress ≡ true → (n ≡ 0) × (cs' ≡ cs))
      × (cs.gc_in_progress ≡ false → Collected cs n cs')
unfolding cs_collect_garbage
cs_collect_garbage_lem cs valid = elim (Bool-cases cs.gc_in_progress) [
  | inl busy ↦ (0, cs, rw busy refl, λ e. (refl, refl), λ e. cc)
  | inr idle ↦
      let rs = roots cs.root_set in
      let (s1, run1, i, k) = mark_lem cs.ms rs valid.closed in
      let (n, s2, run2, f) = ms_filter_lem obj_reachable s1 (k.distinct valid.distinct) in
      let cs' : CollectedSpace = record cs {
        ms = s2;
        gc_in_progress = false;
        paint_black_in_progress = false;
        in_progress_stack = [];
        visit_stack = [];
      } in
      (
        n,
        cs',
        rw (idle, valid.drained, valid.no_visits, run1, run2) refl,
        λ e. cc,
        λ e. record {
          kept = survivor cs.ms s1 s2 rs n valid.closed i f;
          freed = garbage cs.ms s1 s2 rs n valid.closed i f;
          count = f.count ∙ k.count;
          same_roots = refl;
          same_worker = refl;
          finished = (refl, refl);
          valid = record {
            distinct = f.distinct;
            closed = swept-IsClosed cs.ms s1 s2 rs n valid.closed i f;
            drained = refl;
            no_visits = refl;
          };
        },
      )
]
