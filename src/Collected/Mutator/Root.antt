-- ===== src/Collected/Mutator/Root.antt =====
-- gc_src/cs.c: `cs_malloc_root`, by which a user gets an object that the collector keeps.
use chvm.Base.{
  ℕ, zero, suc, ◌^◌, ◌<◌, ◌≡◌, refl, sym, inl, inr, true, false, none, some, List, [], ◌∷◌, arith,
  length, In, get_or, replicate, Bool-cases,
}
use mathlib.Core.Path.{subst}
use chvm.Base.Result.{ok}
use chvm.AddrBook.{Vaddr, null_vaddr, eq_adb_addr, null_adb_addr}
use chvm.Collected.RootSet.{Entry, next_free, allocated, roots, roots_from}
use chvm.Collected.RootSet.Inv.{IsValid as IsValidRoots}
use chvm.Collected.RootSet.Calls.{IsRoot-iff, Rooted, cs_root_lem}
use chvm.Collected.RootSet.Roots.{In-roots-cs_root}
use chvm.Collected.Objects.{Obj, Store, find}
use chvm.Collected.Objects.Laws.{eq_adb_addr_iff}
use chvm.Collected.Gc.{CollectedSpace}
use chvm.Collected.Gc.Reach.{Reach, root, IsClosed}
use chvm.Collected.Mutator.{new_obj, cs_malloc_p, cs_malloc_root}

In-roots_from :
    (es : List Entry) (i : ℕ) (d : Entry) (w : Vaddr)
    → i < length es
    → get_or es i d ≡ allocated w
    → In w (roots_from es)
unfolding roots_from
In-roots_from [] i d w lt e = absurd (omega arith)
In-roots_from (x ∷ es) zero d w lt e = rw e (inl refl)
In-roots_from (next_free m ∷ es) (suc i) d w lt e = In-roots_from es i d w (omega arith) e
In-roots_from (allocated u ∷ es) (suc i) d w lt e = inr (In-roots_from es i d w (omega arith) e)

In-replicate : (n : ℕ) (v w : Vaddr) → In w (replicate n v) → w ≡ v
In-replicate zero v w m = absurd m
In-replicate (suc n) v w (inl e) = e
In-replicate (suc n) v w (inr m) = In-replicate n v w m

-- `cs_malloc_root` at an address that names no object, with a valid set of fewer than 2 ^ 63 roots, returns: the
-- address is a root under the id that it answers, and reaches a new object that refers to nothing; every other
-- object and root stays, and if roots and references named objects before, they do so now.
pub cs_malloc_root_lem :
    (cs : CollectedSpace) (v : Vaddr) (rt_len : ℕ) (da : List ℕ)
    → IsValidRoots cs.root_set
    → cs.root_set.root_set_cap < 2 ^ 63
    → find v cs.ms ≡ none
    → (id : ℕ) × (cs' : CollectedSpace) × (cs_malloc_root cs v rt_len da ≡ ok (id, cs'))
      × Rooted cs.root_set v id cs'.root_set
      × Reach cs'.ms (roots cs'.root_set) v
      × (find v cs'.ms ≡ some (new_obj rt_len da))
      × ((w : Vaddr) → In w (new_obj rt_len da).rt → null_adb_addr w ≡ true)
      × ((w : Vaddr) → eq_adb_addr v w ≡ false → find w cs'.ms ≡ find w cs.ms)
      × (IsClosed cs.ms (roots cs.root_set) → IsClosed cs'.ms (roots cs'.root_set))
unfolding cs_malloc_root cs_malloc_p
cs_malloc_root_lem cs v rt_len da valid small fresh =
    let (id, rs, run, rooted, _) = cs_root_lem cs.root_set v valid small in
    let o : Obj = new_obj rt_len da in
    let listed = (IsRoot-iff rs id v).0 rooted.now_root in
    let s : Store = (v, o) ∷ cs.ms in
    let refs : (w : Vaddr) → In w o.rt → null_adb_addr w ≡ true =
      λ w m. let none_ref = In-replicate rt_len null_vaddr w m in rw none_ref refl in
    let self : find v s ≡ some o = ground (arith, eq_adb_addr_iff v v) in
    let old : (w : Vaddr) → eq_adb_addr v w ≡ false → find w s ≡ find w cs.ms =
      λ w ne. rw ne refl in
    let still : (w : Vaddr) (p : Obj) → find w cs.ms ≡ some p → (q : Obj) × (find w s ≡ some q) =
      λ w p e. elim (Bool-cases (eq_adb_addr v w)) [
        | inl same ↦ (o, rw same refl)
        | inr other ↦ (p, rw other e)
      ] in
    (
      id,
      record cs { ms = s; root_set = rs },
      rw run refl,
      rooted,
      root (
          In-roots_from rs.root_set id (allocated null_vaddr) v
            (omega (arith, listed.0, rooted.valid.size)) listed.1),
      self,
      refs,
      old,
      λ c. record {
        root_live = λ w m. elim (In-roots-cs_root cs.root_set rs v w id run m) [
          | inl new ↦ (o, subst (λ x. find x s ≡ some o) (sym new) self)
          | inr before ↦ let (p, e) = c.root_live w before in still w p e
        ];
        ref_live = λ u w p e m nn. elim (Bool-cases (eq_adb_addr v u)) [
          | inl same ↦
              let is_new : o ≡ p = ground arith in
              let null = refs w (subst (λ (x : Obj). In w x.rt) (sym is_new) m) in
              absurd (ground arith)
          | inr other ↦ let (q, f) = c.ref_live u w p (ground arith) m nn in still w q f
        ];
      },
    )
