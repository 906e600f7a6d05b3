-- ===== src/Collected/RootSet/Inv.antt =====
-- The invariant of the root set: the free list runs through all the unused entries, each once, and
-- ends.
use chvm.Base.{
  ℕ, zero, suc, ◌+◌, ◌-◌, ◌*◌, ◌%◌, ◌^◌, ◌≤◌, ◌<◌, ◌≡◌, refl, ap, ◌≢◌, inl, inr, List, [], ◌∷◌,
  ◌++◌, arith, ◌==◌, Bool-cases, length, get_or, set, length-append, get_or-set, get_or-append, In,
}
use mathlib.Core.List.{append_assoc}
use chvm.AddrBook.{null_vaddr, uint64_max}
use chvm.Collected.RootSet.{
  Entry, next_free, allocated, RootSet, entry_at, new_root_set, new_entries, resize,
}

abbrev pub read : List Entry → ℕ → Entry
read es i = get_or es i (allocated null_vaddr)

-- From `h` the entries lead through the indices of the list, each once, and then nowhere.
abbrev pub Chain : List Entry → ℕ → List ℕ → Type 0
Chain es h [] = h ≡ uint64_max
Chain es h (i ∷ is) =
    (h ≡ i) × (i < uint64_max) × (¬ In i is) × ((n : ℕ) × (read es i ≡ next_free n) × Chain es n is)

pub record IsValid (rs : RootSet) : Type 0 where
  pub size : length rs.root_set ≡ rs.root_set_cap
  pub cap_pos : 0 < rs.root_set_cap
  pub small : rs.root_set_cap ≤ uint64_max
  pub chain : List ℕ
  pub linked : Chain rs.root_set rs.free_head chain
  pub listed : (i n : ℕ) → entry_at rs i ≡ next_free n → In i chain

-- A write at an index that is not on the chain leaves the chain.
pub Chain-set :
    (es : List Entry) (h : ℕ) (is : List ℕ) (i : ℕ) (e : Entry)
    → i < length es
    → ¬ In i is
    → Chain es h is
    → Chain (set es i e) h is
Chain-set es h [] i e lt out c = c
Chain-set es h (j ∷ js) i e lt out (hd, small, fresh, (n, r, c)) = (
  hd,
  small,
  fresh,
  (
    n,
    ground (arith, get_or-set es i j e (allocated null_vaddr)),
    Chain-set es n js i e lt (λ m. out (inr m)) c,
  ),
)

pub free-lt : (es : List Entry) (i n : ℕ) → read es i ≡ next_free n → i < length es
free-lt [] i n h = cc
free-lt (e ∷ es) zero n h = omega arith
free-lt (e ∷ es) (suc i) n h = omega (arith, free-lt es i n h)

-- What stands on a chain is free.
pub free_of_Chain :
    (es : List Entry) (h : ℕ) (is : List ℕ) (i : ℕ)
    → Chain es h is
    → In i is
    → (n : ℕ) × (read es i ≡ next_free n)
free_of_Chain es h [] i c m = absurd m
free_of_Chain es h (j ∷ js) i (hd, small, fresh, (n, r, c)) (inl e) = (n, rw e r)
free_of_Chain es h (j ∷ js) i (hd, small, fresh, (n, r, c)) (inr m) = free_of_Chain es n js i c m

pub new_root_set-IsValid : IsValid new_root_set
unfolding new_root_set
new_root_set-IsValid = record {
  size = refl;
  cap_pos = omega arith;
  small = omega arith;
  chain = 0 ∷ [];
  linked = (refl, omega arith, λ m. m, (uint64_max, refl, refl));
  listed = λ i n. only i n;
}
  where
    only : (i n : ℕ) → read (next_free uint64_max ∷ []) i ≡ next_free n → In i (0 ∷ [])
    only zero n h = inl refl
    only (suc i) n h = cc

-- The indices `i`, …, `i + n`.
abbrev indices : ℕ → ℕ → List ℕ
indices zero i = i ∷ []
indices (suc n) i = i ∷ indices n (i + 1)

In-indices :
    (n i j : ℕ)
    → (In j (indices n i) → (i ≤ j) × (j ≤ i + n)) × (i ≤ j → j ≤ i + n → In j (indices n i))
In-indices zero i j = (λ m. ground arith, λ a b. inl (omega arith))
In-indices (suc n) i j = (
  λ m. ground (arith, (In-indices n (i + 1) j).0),
  λ a b. elim (Bool-cases (j == i)) [
    | inl e ↦ inl (ground arith)
    | inr ne ↦ inr ((In-indices n (i + 1) j).1 (ground arith) (omega arith))
  ],
)

length-new_entries : (n i : ℕ) → length (new_entries n i) ≡ suc n
unfolding new_entries
length-new_entries zero i = refl
length-new_entries (suc n) i = ap suc (length-new_entries n (i + 1))

-- The new entries, behind whatever stands in front of them, are one chain.
Chain-new_entries :
    (n : ℕ) (ps : List Entry)
    → length ps + n < uint64_max
    → Chain (ps ++ new_entries n (length ps)) (length ps) (indices n (length ps))
unfolding new_entries
Chain-new_entries zero ps lt = (
  refl,
  omega arith,
  λ m. m,
  (
    uint64_max,
    ground (arith, get_or-append ps (next_free uint64_max ∷ []) (length ps) (allocated null_vaddr)),
    refl,
  ),
)
Chain-new_entries (suc n) ps lt =
    let i : ℕ = length ps in
    let next : Entry = next_free (i + 1) in
    let rest =
      Chain-new_entries n (ps ++ next ∷ []) (omega (arith, length-append ps (next ∷ []))) in
    let len : length (ps ++ next ∷ []) ≡ i + 1 = omega (arith, length-append ps (next ∷ [])) in
    (
      refl,
      omega arith,
      λ m. omega (arith, (In-indices n (i + 1) i).0 m),
      (
        i + 1,
        ground (arith, get_or-append ps (next ∷ new_entries n (i + 1)) i (allocated null_vaddr)),
        rw append_assoc at (rw len at rest),
      ),
    )

Chain-null : (es : List Entry) (h : ℕ) (is : List ℕ) → Chain es h is → h ≡ uint64_max → is ≡ []
Chain-null es h [] c e = refl
Chain-null es h (j ∷ js) (hd, small, fresh, rest) e = absurd (omega arith)

pub free_head-null :
    (rs : RootSet)
    → IsValid rs
    → rs.free_head ≡ uint64_max
    → (i n : ℕ) → entry_at rs i ≢ next_free n
free_head-null rs v e i n h =
    rw (Chain-null rs.root_set rs.free_head v.chain v.linked e) at (v.listed i n h)

-- A resize of a valid root set with no free entry and room below 2 ^ 63 doubles it: the old entries stay, and the new ones are
-- the free list.
pub resize-IsValid :
    (rs : RootSet)
    → IsValid rs
    → rs.root_set_cap < 2 ^ 63
    → rs.free_head ≡ uint64_max
    → IsValid (resize rs)
      × ((resize rs).free_head ≡ rs.root_set_cap)
      × ((resize rs).root_set_cap ≡ rs.root_set_cap * 2)
      × ((i : ℕ) → i < rs.root_set_cap → entry_at (resize rs) i ≡ entry_at rs i)
      × ((i : ℕ)
          → rs.root_set_cap ≤ i
          → i < rs.root_set_cap * 2
          → (n : ℕ) × (entry_at (resize rs) i ≡ next_free n))
unfolding resize
resize-IsValid rs v small none_free =
    let cap : ℕ = rs.root_set_cap in
    let n : ℕ = rs.root_set_cap * 2 % 2 ^ 64 - 1 - rs.root_set_cap in
    let sum : cap + n + 1 ≡ cap * 2 = omega arith in
    let linked = rw v.size at (Chain-new_entries n rs.root_set (omega (arith, v.size))) in
    (
      record {
        size = omega (
          arith,
          length-append rs.root_set (new_entries n cap),
          length-new_entries n cap,
          v.size,
        );
        cap_pos = omega arith;
        small = omega arith;
        chain = indices n cap;
        linked = linked;
        listed = λ i m h.
            (In-indices n cap i).1
              (ground (
                arith,
                v.size,
                free_head-null rs v none_free i m,
                get_or-append rs.root_set (new_entries n cap) i (allocated null_vaddr),
              ))
              (omega (
                arith,
                free-lt (rs.root_set ++ new_entries n cap) i m h,
                length-append rs.root_set (new_entries n cap),
                length-new_entries n cap,
                v.size,
              ));
      },
      refl,
      omega arith,
      λ i lt.
          ground
            (arith, v.size, get_or-append rs.root_set (new_entries n cap) i (allocated null_vaddr)),
      λ i ge lt.
          free_of_Chain (rs.root_set ++ new_entries n cap) cap (indices n cap) i linked
            ((In-indices n cap i).1 ge (omega arith)),
    )
