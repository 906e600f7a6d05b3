-- ===== src/BrokenCollection/Flat.antt =====
-- The cells of the chain of tables of util_src/data.c one behind the other.
use chvm.Base.{
  ℕ, zero, suc, ◌+◌, ◌-◌, ◌≤◌, ◌<◌, ◌≡◌, refl, List, [], ◌∷◌, ◌++◌, arith, ◌==◌, if◌then◌else◌,
  get_or, set, length, length-set, get_or-set, get_or-append, length-append,
}
use chvm.BrokenCollection.{take_tables, drop_tables}

-- The number of cells in `n` tables of `ts` cells.
abbrev pub base : ℕ → ℕ → ℕ
base ts zero = 0
base ts (suc n) = ts + base ts n

pub base-suc : (ts i : ℕ) → base ts (i + 1) ≡ ts + base ts i
base-suc ts i = let e : i + 1 ≡ suc i = omega arith in rw e refl

pub base-add : (ts i j : ℕ) → base ts (i + j) ≡ base ts i + base ts j
base-add ts zero j = ground arith
base-add ts (suc i) j =
    let e : suc i + j ≡ suc (i + j) = omega arith in rw e (omega (arith, base-add ts i j))

pub base-lt : (ts i k : ℕ) → i < k → base ts i + ts ≤ base ts k
base-lt ts i zero h = absurd (omega arith)
base-lt ts zero (suc k) h = omega arith
base-lt ts (suc i) (suc k) h = omega (arith, base-lt ts i k (omega arith))

module _ {A : Type 0} where
  abbrev pub concat : List (List A) → List A
  concat [] = []
  concat (t ∷ ts) = t ++ concat ts

  abbrev pub AllSize : ℕ → List (List A) → Type 0
  AllSize n [] = Unit
  AllSize n (t ∷ ts) = (length t ≡ n) × AllSize n ts

  pub AllSize-at :
      (n : ℕ) (ts : List (List A)) (i : ℕ)
      → AllSize n ts
      → i < length ts
      → length (get_or ts i []) ≡ n
  AllSize-at n [] i s h = absurd (omega arith)
  AllSize-at n (t ∷ ts) zero (e, s) h = e
  AllSize-at n (t ∷ ts) (suc i) (e, s) h = AllSize-at n ts i s (omega arith)

  pub set-AllSize :
      (n : ℕ) (ts : List (List A)) (i : ℕ) (t : List A)
      → AllSize n ts
      → length t ≡ n
      → AllSize n (set ts i t)
  set-AllSize n [] i t s e = tt
  set-AllSize n (u ∷ ts) zero t (_, s) e = (e, s)
  set-AllSize n (u ∷ ts) (suc i) t (d, s) e = (d, set-AllSize n ts i t s e)

  pub append-AllSize :
      (n : ℕ) (ts : List (List A)) (t : List A)
      → AllSize n ts
      → length t ≡ n
      → AllSize n (ts ++ t ∷ [])
  append-AllSize n [] t s e = (e, tt)
  append-AllSize n (u ∷ ts) t (d, s) e = (d, append-AllSize n ts t s e)

  pub take-AllSize : (n k : ℕ) (ts : List (List A)) → AllSize n ts → AllSize n (take_tables k ts)
  take-AllSize n zero ts s = tt
  take-AllSize n (suc k) [] s = tt
  take-AllSize n (suc k) (t ∷ ts) (e, s) = (e, take-AllSize n k ts s)

  pub drop-AllSize : (n k : ℕ) (ts : List (List A)) → AllSize n ts → AllSize n (drop_tables k ts)
  drop-AllSize n zero ts s = s
  drop-AllSize n (suc k) [] s = tt
  drop-AllSize n (suc k) (t ∷ ts) (e, s) = drop-AllSize n k ts s

  pub length-concat :
      (n : ℕ) (ts : List (List A)) → AllSize n ts → length (concat ts) ≡ base n (length ts)
  length-concat n [] s = refl
  length-concat n (t ∷ ts) (e, s) = omega (arith, length-append t (concat ts), length-concat n ts s)

  -- Cell `j` of table `i` is cell `base n i + j` of all.
  pub get_or-concat_tables :
      (n : ℕ) (ts : List (List A)) (i j : ℕ) (d : A)
      → AllSize n ts
      → i < length ts
      → j < n
      → get_or (get_or ts i []) j d ≡ get_or (concat ts) (base n i + j) d
  get_or-concat_tables n [] i j d s h l = absurd (omega arith)
  get_or-concat_tables n (t ∷ ts) zero j d (e, s) h l =
      ground (arith, get_or-append t (concat ts) j d)
  get_or-concat_tables n (t ∷ ts) (suc i) j d (e, s) h l =
      ground
        (arith, get_or-append t (concat ts) (n + base n i + j) d, get_or-concat_tables n ts i j d s)

  -- A write changes one cell of all.
  pub get_or-concat-set :
      (n : ℕ) (ts : List (List A)) (i j k : ℕ) (x d : A)
      → AllSize n ts
      → i < length ts
      → j < n
      → get_or (concat (set ts i (set (get_or ts i []) j x))) k d
        ≡ (if base n i + j == k then x else get_or (concat ts) k d)
  get_or-concat-set n [] i j k x d s h l = absurd (omega arith)
  get_or-concat-set n (t ∷ ts) zero j k x d (e, s) h l = ground (
    arith,
    get_or-append t (concat ts) k d,
    get_or-append (set t j x) (concat ts) k d,
    length-set t j x,
    get_or-set t j k x d,
  )
  get_or-concat-set n (t ∷ ts) (suc i) j k x d (e, s) h l = ground (
    arith,
    get_or-append t (concat ts) k d,
    get_or-append t (concat (set ts i (set (get_or ts i []) j x))) k d,
    get_or-concat-set n ts i j (k - n) x d s,
  )

  pub concat-append :
      (ts : List (List A)) (t : List A) (k : ℕ) (d : A)
      → k < length (concat ts)
      → get_or (concat (ts ++ t ∷ [])) k d ≡ get_or (concat ts) k d
  concat-append [] t k d h = absurd (omega arith)
  concat-append (u ∷ ts) t k d h = ground (
    arith,
    get_or-append u (concat ts) k d,
    get_or-append u (concat (ts ++ t ∷ [])) k d,
    length-append u (concat ts),
    concat-append ts t (k - length u) d,
  )

  pub concat-take :
      (n m : ℕ) (ts : List (List A)) (k : ℕ) (d : A)
      → AllSize n ts
      → k < base n m
      → get_or (concat (take_tables m ts)) k d ≡ get_or (concat ts) k d
  concat-take n zero ts k d s h = absurd (omega arith)
  concat-take n (suc m) [] k d s h = refl
  concat-take n (suc m) (t ∷ ts) k d (e, s) h = ground (
    arith,
    get_or-append t (concat ts) k d,
    get_or-append t (concat (take_tables m ts)) k d,
    concat-take n m ts (k - n) d s,
  )

  pub concat-drop :
      (n m : ℕ) (ts : List (List A)) (k : ℕ) (d : A)
      → AllSize n ts
      → get_or (concat (drop_tables m ts)) k d ≡ get_or (concat ts) (base n m + k) d
  concat-drop n zero ts k d s = ground arith
  concat-drop n (suc m) [] k d s = refl
  concat-drop n (suc m) (t ∷ ts) k d (e, s) =
      ground (arith, get_or-append t (concat ts) (n + base n m + k) d, concat-drop n m ts k d s)

  pub length-take : (m : ℕ) (ts : List (List A)) → m ≤ length ts → length (take_tables m ts) ≡ m
  length-take zero ts h = refl
  length-take (suc m) [] h = absurd (omega arith)
  length-take (suc m) (t ∷ ts) h = omega (arith, length-take m ts (omega arith))

  pub length-drop :
      (m : ℕ) (ts : List (List A)) → m ≤ length ts → length (drop_tables m ts) + m ≡ length ts
  length-drop zero ts h = omega arith
  length-drop (suc m) [] h = absurd (omega arith)
  length-drop (suc m) (t ∷ ts) h = omega (arith, length-drop m ts (omega arith))
