-- ===== src/Collected/RootSet/Roots.antt =====
-- gc_src/cs.c: which addresses the collector finds in the root set after a call.
use chvm.Base.{
  ℕ, zero, suc, ◌+◌, ◌-◌, ◌*◌, ◌%◌, ◌^◌, ◌≡◌, refl, ◌⊎◌, inl, inr, List, [], ◌∷◌, ◌++◌, arith, ltb,
  ◌==◌, Bool-cases, In, set,
}
use chvm.Base.Result.{ok}
use chvm.AddrBook.{Vaddr, uint64_max}
use chvm.Collected.RootSet.{
  Entry, next_free, allocated, RootSet, StatusCode, entry_at, new_entries, resize, pop_free,
  cs_root, cs_deroot, roots_from, roots,
}

In-roots_from-set :
    (es : List Entry) (i : ℕ) (v u : Vaddr)
    → In u (roots_from (set es i (allocated v)))
    → (u ≡ v) ⊎ In u (roots_from es)
unfolding roots_from
In-roots_from-set [] i v u m = inr m
In-roots_from-set (next_free n ∷ es) zero v u m = m
In-roots_from-set (allocated w ∷ es) zero v u m = ground arith
In-roots_from-set (next_free n ∷ es) (suc i) v u m = In-roots_from-set es i v u m
In-roots_from-set (allocated w ∷ es) (suc i) v u m = ground (arith, In-roots_from-set es i v u)

In-roots_from-clear :
    (es : List Entry) (i n : ℕ) (u : Vaddr)
    → In u (roots_from (set es i (next_free n)))
    → In u (roots_from es)
unfolding roots_from
In-roots_from-clear [] i n u m = m
In-roots_from-clear (next_free k ∷ es) zero n u m = m
In-roots_from-clear (allocated w ∷ es) zero n u m = inr m
In-roots_from-clear (next_free k ∷ es) (suc i) n u m = In-roots_from-clear es i n u m
In-roots_from-clear (allocated w ∷ es) (suc i) n u m = ground (arith, In-roots_from-clear es i n u)

In-roots_from-new_entries : (n i : ℕ) (u : Vaddr) → ¬ In u (roots_from (new_entries n i))
unfolding roots_from new_entries
In-roots_from-new_entries zero i u m = m
In-roots_from-new_entries (suc n) i u m = In-roots_from-new_entries n (i + 1) u m

In-roots_from-append :
    (es fs : List Entry) (u : Vaddr)
    → In u (roots_from (es ++ fs))
    → In u (roots_from es) ⊎ In u (roots_from fs)
unfolding roots_from
In-roots_from-append [] fs u m = inr m
In-roots_from-append (next_free n ∷ es) fs u m = In-roots_from-append es fs u m
In-roots_from-append (allocated w ∷ es) fs u m = ground (arith, In-roots_from-append es fs u)

In-roots-resize : (rs : RootSet) (u : Vaddr) → In u (roots (resize rs)) → In u (roots rs)
unfolding resize
In-roots-resize rs u m =
    let n : ℕ = rs.root_set_cap * 2 % 2 ^ 64 - 1 - rs.root_set_cap in
    elim (In-roots_from-append rs.root_set (new_entries n rs.root_set_cap) u m) [
      | inl old ↦ old
      | inr fresh ↦ absurd (In-roots_from-new_entries n rs.root_set_cap u fresh)
    ]

In-roots-pop_free :
    (rs rs' : RootSet) (v u : Vaddr) (id : ℕ) (e : Entry)
    → entry_at rs rs.free_head ≡ e
    → pop_free rs v ≡ ok (id, rs')
    → In u (roots rs')
    → (u ≡ v) ⊎ In u (roots rs)
unfolding pop_free
In-roots-pop_free rs rs' v u id (next_free n) e run m =
    let made : rs'
        ≡ record rs { free_head = n; root_set = set rs.root_set rs.free_head (allocated v) } =
      ground arith in
    In-roots_from-set rs.root_set rs.free_head v u (rw made at m)
In-roots-pop_free rs rs' v u id (allocated w) e run m = ground arith

-- After `cs_root` the roots are those of before, and the address.
pub In-roots-cs_root :
    (rs rs' : RootSet) (v u : Vaddr) (id : ℕ)
    → cs_root rs v ≡ ok (id, rs')
    → In u (roots rs')
    → (u ≡ v) ⊎ In u (roots rs)
unfolding cs_root
In-roots-cs_root rs rs' v u id run m = elim (Bool-cases (rs.free_head == uint64_max)) [
  | inl full ↦ elim (In-roots-pop_free (resize rs) rs' v u id _ refl (rw full at run) m) [
    | inl new ↦ inl new
    | inr old ↦ inr (In-roots-resize rs u old)
  ]
  | inr free ↦ In-roots-pop_free rs rs' v u id _ refl (rw free at run) m
]

In-roots-cs_deroot_entry :
    (rs rs' : RootSet) (u : Vaddr) (id : ℕ) (c : StatusCode) (e : Entry)
    → entry_at rs id ≡ e
    → cs_deroot rs id ≡ (c, rs')
    → In u (roots rs')
    → In u (roots rs)
unfolding cs_deroot
In-roots-cs_deroot_entry rs rs' u id c (next_free n) e run m = ground arith
In-roots-cs_deroot_entry rs rs' u id c (allocated w) e run m =
    elim (Bool-cases (ltb id rs.root_set_cap)) [
      | inl lt ↦
          let made : rs' ≡ record rs {
            free_head = id;
            root_set = set rs.root_set id (next_free rs.free_head);
          } =
            ground arith in
          In-roots_from-clear rs.root_set id rs.free_head u (rw made at m)
      | inr ge ↦ ground arith
    ]

-- After `cs_deroot` there is no new root.
pub In-roots-cs_deroot :
    (rs rs' : RootSet) (u : Vaddr) (id : ℕ) (c : StatusCode)
    → cs_deroot rs id ≡ (c, rs')
    → In u (roots rs')
    → In u (roots rs)
In-roots-cs_deroot rs rs' u id c run m =
    In-roots-cs_deroot_entry rs rs' u id c (entry_at rs id) refl run m
