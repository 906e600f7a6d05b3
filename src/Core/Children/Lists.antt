-- ===== src/Core/Children/Lists.antt =====
-- core_src/sys.c: what the calls do to the list of children.
use chvm.Base.{
  ℕ, zero, suc, ◌+◌, ◌-◌, ◌≤◌, ◌<◌, ◌≡◌, refl, sym, ap, ◌≢◌, ◌↔◌, ◌⊎◌, inl, inr, true, some, List,
  [], ◌∷◌, ◌++◌, arith, ltb, ◌==◌, if◌then◌else◌, get_or, set, length, In, Bool-cases,
}
use chvm.Core.Children.{ChildList, shift_left, take, cl_remove, index_of, forget_child}

-- The list without the first `pid`.
abbrev pub without : ℕ → List ℕ → List ℕ
without pid [] = []
without pid (p ∷ ps) = if p == pid then ps else p ∷ without pid ps

abbrev pub IsOnce : List ℕ → Type 0
IsOnce [] = Unit
IsOnce (p ∷ ps) = (¬ In p ps) × IsOnce ps

shift_left-tail : (n j x : ℕ) (xs : List ℕ) → shift_left n (suc j) (x ∷ xs) ≡ x ∷ shift_left n j xs
unfolding shift_left
shift_left-tail zero j x xs = refl
shift_left-tail (suc n) j x xs =
    let at : suc j + 1 ≡ suc (j + 1) = omega arith in
    rw at (shift_left-tail n (j + 1) x (set xs j (get_or xs (j + 1) 0)))

shift_all : (x : ℕ) (xs : List ℕ) → take (length xs) (shift_left (length xs) 0 (x ∷ xs)) ≡ xs
unfolding shift_left take
shift_all x [] = refl
shift_all x (y ∷ ys) =
    let one : 0 + 1 ≡ 1 = omega arith in
    let tail : shift_left (length ys) 1 (y ∷ y ∷ ys) ≡ y ∷ shift_left (length ys) 0 (y ∷ ys) =
      shift_left-tail (length ys) 0 y (y ∷ ys) in
    rw tail (ap (◌∷◌ y) (shift_all y ys))

shift-without :
    (pid m : ℕ) (buf : List ℕ)
    → length buf ≡ suc m
    → index_of pid buf < length buf
    → take m (shift_left (m - index_of pid buf) (index_of pid buf) buf) ≡ without pid buf
unfolding index_of take
shift-without pid m [] size lt = absurd (omega arith)
shift-without pid m (p ∷ ps) size lt = elim (Bool-cases (p == pid)) [
  | inl here ↦
      let whole : m ≡ length ps = omega arith in
      let all : m - 0 ≡ length ps = omega arith in rw (here, all, whole) (shift_all p ps)
  | inr other ↦ rw other (later (λ k. shift-without pid k ps) m size (rw other at lt))
]
  where
    later :
        ((k : ℕ)
          → length ps ≡ suc k
          → index_of pid ps < length ps
          → take k (shift_left (k - index_of pid ps) (index_of pid ps) ps) ≡ without pid ps)
        → (m : ℕ) → length (p ∷ ps) ≡ suc m
        → suc (index_of pid ps) < length (p ∷ ps)
        → take m (shift_left (m - suc (index_of pid ps)) (suc (index_of pid ps)) (p ∷ ps))
          ≡ p ∷ without pid ps
    later ih zero size' lt' = absurd (omega arith)
    later ih (suc m) size' lt' =
        let rounds : suc m - suc (index_of pid ps) ≡ m - index_of pid ps = omega arith in
        let tail = shift_left-tail (m - index_of pid ps) (index_of pid ps) p ps in
        rw (rounds, tail) (ap (◌∷◌ p) (ih m (omega arith) (omega arith)))

index_of_lem :
    (pid : ℕ) (buf : List ℕ)
    → (index_of pid buf ≤ length buf) × (index_of pid buf ≡ length buf → without pid buf ≡ buf)
unfolding index_of
index_of_lem pid [] = (omega arith, λ e. refl)
index_of_lem pid (p ∷ ps) = elim (Bool-cases (p == pid)) [
  | inl here ↦ rw here (omega arith, λ e. absurd (omega arith))
  | inr other ↦
      rw other (
        let (le, same) = index_of_lem pid ps in (omega arith, λ e. ap (◌∷◌ p) (same (omega arith))))
]

-- What `safe_waitpid` does to the list.
pub forget_child_lem :
    (pid : ℕ) (cl : ChildList)
    → forget_child pid (some cl) ≡ some (record cl { buf = without pid cl.buf })
unfolding forget_child cl_remove
forget_child_lem pid cl =
    let (le, absent) = index_of_lem pid cl.buf in
    elim (Bool-cases (index_of pid cl.buf == length cl.buf)) [
      | inl missing ↦
          let same = absent (ground arith) in
          rw missing (ap (λ (x : List ℕ). some (record cl { buf = x })) (sym same))
      | inr there ↦
          let lt : index_of pid cl.buf < length cl.buf = ground arith in
          let inside : ltb (index_of pid cl.buf) (length cl.buf) ≡ true = ground arith in
          let gone = shift-without pid (length cl.buf - 1) cl.buf (omega arith) lt in
          rw (there, inside) (ap (λ (x : List ℕ). some (record cl { buf = x })) gone)
    ]

pub In-without :
    (pid p : ℕ) (xs : List ℕ) → IsOnce xs → In p (without pid xs) ↔ ((p ≢ pid) × In p xs)
In-without pid p [] o = ground arith
In-without pid p (x ∷ xs) (fresh, o) = elim (Bool-cases (x == pid)) [
  | inl here ↦ let same : x ≡ pid = ground arith in rw here (ground arith)
  | inr other ↦ rw other (ground (arith, In-without pid p xs o))
]

pub without-IsOnce : (pid : ℕ) (xs : List ℕ) → IsOnce xs → IsOnce (without pid xs)
without-IsOnce pid [] o = o
without-IsOnce pid (x ∷ xs) (fresh, o) = elim (Bool-cases (x == pid)) [
  | inl here ↦ rw here o
  | inr other ↦ rw other (λ m. fresh ((In-without pid x xs o).0 m).1, without-IsOnce pid xs o)
]

pub In-end : (p x : ℕ) (xs : List ℕ) → In p (xs ++ x ∷ []) ↔ (In p xs ⊎ (p ≡ x))
In-end p x [] = ground arith
In-end p x (y ∷ xs) = ground (arith, In-end p x xs)

pub end-IsOnce : (x : ℕ) (xs : List ℕ) → ¬ In x xs → IsOnce xs → IsOnce (xs ++ x ∷ [])
end-IsOnce x [] off o = (λ m. m, tt)
end-IsOnce x (y ∷ xs) off (fresh, o) =
    (λ m. ground (arith, In-end y x xs), end-IsOnce x xs (λ m. off (inr m)) o)
