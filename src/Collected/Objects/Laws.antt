-- ===== src/Collected/Objects/Laws.antt =====
-- What a write, a pass over all objects and a removal do to a look-up.
use chvm.Base.{
  ℕ, ◌+◌, ◌≤◌, ◌≡◌, refl, ◌↔◌, inl, inr, true, none, some, [], ◌∷◌, arith, if◌then◌else◌,
  Bool-cases,
}
use chvm.AddrBook.{Vaddr, eq_adb_addr}
use chvm.Collected.Objects.{Obj, Store, find, write, remove, ms_foreach, ms_count, unvisited}

pub eq_adb_addr_iff : (v w : Vaddr) → (eq_adb_addr v w ≡ true) ↔ (v ≡ w)
eq_adb_addr_iff v w = ground arith

-- Each address stands once.
abbrev pub IsDistinct : Store → Type 0
IsDistinct [] = Unit
IsDistinct ((v, o) ∷ s) = (find v s ≡ none) × IsDistinct s

pub find-write :
    (v w : Vaddr) (o p : Obj) (s : Store)
    → find v s ≡ some p
    → find w (write v o s) ≡ (if eq_adb_addr v w then some o else find w s)
unfolding write
find-write v w o p [] h = cc
find-write v w o p ((u, q) ∷ s) h =
    ground
      (arith, find-write v w o p s, eq_adb_addr_iff u v, eq_adb_addr_iff v w, eq_adb_addr_iff u w)

pub find-write-none :
    (v w : Vaddr) (o : Obj) (s : Store) → (find w (write v o s) ≡ none) ↔ (find w s ≡ none)
unfolding write
find-write-none v w o [] = (λ h. h, λ h. h)
find-write-none v w o ((u, q) ∷ s) = ground (arith, find-write-none v w o s)

pub write-IsDistinct : (v : Vaddr) (o : Obj) (s : Store) → IsDistinct s → IsDistinct (write v o s)
unfolding write
write-IsDistinct v o [] d = d
write-IsDistinct v o ((u, q) ∷ s) (fresh, d) = elim (Bool-cases (eq_adb_addr u v)) [
  | inl here ↦ rw here (fresh, d)
  | inr there ↦ rw there ((find-write-none v u o s).1 fresh, write-IsDistinct v o s d)
]

pub find-ms_foreach :
    (f : Obj → Obj) (v : Vaddr) (s : Store)
    → find v (ms_foreach f s) ≡ elim (find v s) [ none ↦ none | some o ↦ some (f o) ]
unfolding ms_foreach
find-ms_foreach f v [] = refl
find-ms_foreach f v ((u, q) ∷ s) = ground (arith, find-ms_foreach f v s)

pub ms_foreach-IsDistinct : (f : Obj → Obj) (s : Store) → IsDistinct s → IsDistinct (ms_foreach f s)
unfolding ms_foreach
ms_foreach-IsDistinct f [] d = d
ms_foreach-IsDistinct f ((u, q) ∷ s) (fresh, d) =
    (ground (arith, find-ms_foreach f u s), ms_foreach-IsDistinct f s d)

pub find-remove :
    (v w : Vaddr) (s : Store)
    → IsDistinct s
    → find w (remove v s) ≡ (if eq_adb_addr v w then none else find w s)
unfolding remove
find-remove v w [] d = ground arith
find-remove v w ((u, q) ∷ s) (fresh, d) =
    ground
      (arith, find-remove v w s d, eq_adb_addr_iff u v, eq_adb_addr_iff v w, eq_adb_addr_iff u w)

pub remove-IsDistinct : (v : Vaddr) (s : Store) → IsDistinct s → IsDistinct (remove v s)
unfolding remove
remove-IsDistinct v [] d = d
remove-IsDistinct v ((u, q) ∷ s) (fresh, d) = elim (Bool-cases (eq_adb_addr u v)) [
  | inl here ↦ rw here d
  | inr there ↦ rw there (ground (arith, find-remove v u s d), remove-IsDistinct v s d)
]

pub ms_count-remove :
    (v : Vaddr) (o : Obj) (s : Store) → find v s ≡ some o → ms_count (remove v s) + 1 ≡ ms_count s
unfolding remove ms_count
ms_count-remove v o [] h = cc
ms_count-remove v o ((u, q) ∷ s) h = ground (arith, ms_count-remove v o s)

pub ms_count-write : (v : Vaddr) (o : Obj) (s : Store) → ms_count (write v o s) ≡ ms_count s
unfolding write ms_count
ms_count-write v o [] = refl
ms_count-write v o ((u, q) ∷ s) = ground (arith, ms_count-write v o s)

pub ms_count-ms_foreach : (f : Obj → Obj) (s : Store) → ms_count (ms_foreach f s) ≡ ms_count s
unfolding ms_foreach ms_count
ms_count-ms_foreach f [] = refl
ms_count-ms_foreach f ((u, q) ∷ s) = omega (arith, ms_count-ms_foreach f s)

abbrev pub is_white : Obj → ℕ
is_white o = elim o.gc_status [ unvisited ↦ 1 | _ ↦ 0 ]

-- The objects that the collector has not come upon.
abbrev pub count_white : Store → ℕ
count_white [] = 0
count_white ((v, o) ∷ s) = is_white o + count_white s

pub count_white-write :
    (v : Vaddr) (o p : Obj) (s : Store)
    → find v s ≡ some o
    → count_white (write v p s) + is_white o ≡ count_white s + is_white p
unfolding write
count_white-write v o p [] h = cc
count_white-write v o p ((w, q) ∷ s) h = ground (arith, count_white-write v o p s)

pub count_white-le : (s : Store) → count_white s ≤ ms_count s
unfolding ms_count
count_white-le [] = omega arith
count_white-le ((v, o) ∷ s) = ground (arith, count_white-le s)
