-- ===== src/Collected/Worker.antt =====
-- gc_src/cs.c: the worker thread of the collector, `cs_start_gc` and `cs_stop_gc`. The status is read
-- and written under its lock, so a step stands for what one hold of the lock does; threads that are
-- at the same place of the code are counted. The creation of a thread succeeds or ends the process.
use chvm.Base.{ℕ, suc, ◌+◌, ◌≤◌, ◌≡◌, refl, ◌⊎◌, inl, inr, Bool, true, false, arith}
use chvm.Collected.Gc.{WorkerStatus, on, starting, stopping, off}

-- `pre` callers of `cs_start_gc` are before the creation of the thread and `post` behind it; `looping`
-- workers are in their loop, and `leaving` ones have left it.
pub record Threads : Type 0 where
  pub stat : WorkerStatus
  pub pre : ℕ
  pub post : ℕ
  pub looping : ℕ
  pub leaving : ℕ

-- The guard of `cs_start_gc`: its answer and the status that it leaves.
unfoldable pub start_guard : WorkerStatus → ℕ × WorkerStatus
start_guard s = elim s [
  | off ↦ (0, starting)
  | on ↦ (1, on)
  | starting ↦ (1, starting)
  | stopping ↦ (1, stopping)
]

-- The guard of `cs_stop_gc`.
unfoldable pub stop_guard : WorkerStatus → ℕ × WorkerStatus
stop_guard s = elim s [
  | on ↦ (0, stopping)
  | off ↦ (1, off)
  | starting ↦ (1, starting)
  | stopping ↦ (1, stopping)
]

-- What the worker reads at the end of a turn of its loop.
pub is_stopping : WorkerStatus → Bool
is_stopping s = elim s [ stopping ↦ true | _ ↦ false ]

-- No thread.
abbrev pub at_rest : Threads
at_rest = record { stat = off; pre = 0; post = 0; looping = 0; leaving = 0 }

pub data Move : Threads → Threads → Type 0 where
  start :
      (t : Threads) (s : WorkerStatus)
      → start_guard t.stat ≡ (0, s)
      → Move t (record t { stat = s; pre = suc t.pre })
  start_refused :
      (t : Threads) (s : WorkerStatus)
      → start_guard t.stat ≡ (1, s)
      → Move t (record t { stat = s })
  create :
      (t : Threads) (n : ℕ)
      → t.pre ≡ suc n
      → Move t (record t { pre = n; post = suc t.post; looping = suc t.looping })
  started : (t : Threads) (n : ℕ) → t.post ≡ suc n → Move t (record t { stat = on; post = n })
  stop :
      (t : Threads) (s : WorkerStatus) → stop_guard t.stat ≡ (0, s) → Move t (record t { stat = s })
  stop_refused :
      (t : Threads) (s : WorkerStatus) → stop_guard t.stat ≡ (1, s) → Move t (record t { stat = s })
  turn : (t : Threads) (n : ℕ) → t.looping ≡ suc n → is_stopping t.stat ≡ false → Move t t
  leave :
      (t : Threads) (n : ℕ)
      → t.looping ≡ suc n
      → is_stopping t.stat ≡ true
      → Move t (record t { looping = n; leaving = suc t.leaving })
  finish : (t : Threads) (n : ℕ) → t.leaving ≡ suc n → Move t (record t { stat = off; leaving = n })

-- Any order of moves.
pub data Moves (t : Threads) : Threads → Type 0 where
  none_yet : Moves t t
  then_one : {u w : Threads} → Moves t u → Move u w → Moves t w

-- What the status says of the threads.
pub IsOrderly : Threads → Type 0
IsOrderly t = elim t.stat [
  | off ↦ (t.pre ≡ 0) × (t.post ≡ 0) × (t.looping ≡ 0) × (t.leaving ≡ 0)
  | starting ↦ (t.leaving ≡ 0) × (t.post ≡ t.looping) × (t.pre + t.looping ≡ 1)
  | on ↦ (t.pre ≡ 0) × (t.post ≡ 0) × (t.looping ≡ 1) × (t.leaving ≡ 0)
  | stopping ↦ (t.pre ≡ 0) × (t.post ≡ 0) × (t.looping + t.leaving ≡ 1)
]

Move-IsOrderly : {t u : Threads} → Move t u → IsOrderly t → IsOrderly u
unfolding IsOrderly start_guard stop_guard is_stopping
Move-IsOrderly (start t s g) i = ground (arith, t.stat)
Move-IsOrderly (start_refused t s g) i = ground arith
Move-IsOrderly (create t n e) i = ground arith
Move-IsOrderly (started t n e) i = ground arith
Move-IsOrderly (stop t s g) i = ground arith
Move-IsOrderly (stop_refused t s g) i = ground arith
Move-IsOrderly (turn t n e g) i = i
Move-IsOrderly (leave t n e g) i = ground arith
Move-IsOrderly (finish t n e) i = ground arith

Moves-IsOrderly : {t u : Threads} → Moves t u → IsOrderly t → IsOrderly u
Moves-IsOrderly none_yet i = i
Moves-IsOrderly (then_one run move) i = Move-IsOrderly move (Moves-IsOrderly run i)

-- Where the worker is when it is told to stop, it gets to its end.
stops :
    (t : Threads)
    → IsOrderly t
    → t.stat ≡ stopping
    → (u : Threads) × Moves t u × (u.stat ≡ off) × (u.looping + u.leaving ≡ 0)
unfolding IsOrderly is_stopping
stops t i s =
    let one : (t.looping ≡ 1) × (t.leaving ≡ 0) ⊎ (t.looping ≡ 0) × (t.leaving ≡ 1) =
      ground arith in
    let told : is_stopping t.stat ≡ true = rw s refl in
    elim one [
      | inl (l, e) ↦
          let u : Threads = record t { looping = 0; leaving = suc t.leaving } in
          (
            record u { stat = off; leaving = t.leaving },
            then_one (then_one none_yet (leave t 0 l told)) (finish u t.leaving refl),
            refl,
            omega arith,
          )
      | inr (l, e) ↦ (
        record t { stat = off; leaving = 0 },
        then_one none_yet (finish t 0 e),
        refl,
        omega arith,
      )
    ]

-- In whatever order user threads call `cs_start_gc` and `cs_stop_gc`, from the state with no worker: at most one
-- worker runs; `cs_start_gc` gets past its guard only when no start is under way and no worker is left; the
-- guard of `cs_stop_gc` lets a caller pass only when exactly one worker is in its loop; and a worker that was
-- told to stop can get to its end, where the status is off.
pub worker_of_Moves :
    (t : Threads)
    → Moves at_rest t
    → (t.looping + t.leaving ≤ 1)
      × ((s : WorkerStatus)
          → start_guard t.stat ≡ (0, s)
          → t.pre + t.post + t.looping + t.leaving ≡ 0)
      × ((s : WorkerStatus) → stop_guard t.stat ≡ (0, s) → (t.looping ≡ 1) × (t.leaving ≡ 0))
      × (t.stat ≡ stopping
          → (u : Threads) × Moves t u × (u.stat ≡ off) × (u.looping + u.leaving ≡ 0))
unfolding IsOrderly start_guard stop_guard
worker_of_Moves t run =
    let i : IsOrderly t = Moves-IsOrderly run (refl, refl, refl, refl) in
    (
      ground (arith, i, t.stat),
      λ s g. ground (arith, i, t.stat),
      λ s g. ground (arith, i, t.stat),
      λ s. stops t i s,
    )
