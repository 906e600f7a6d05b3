-- ===== src/Collected/RootSet/Calls.antt =====
-- gc_src/cs.c: `cs_root`, `cs_deroot` and `cs_get_root_vaddr` together.
use chvm.Base.{
  ℕ, ◌*◌, ◌^◌, ◌<◌, ◌≡◌, refl, ◌≢◌, ◌↔◌, ◌⊎◌, inl, inr, List, [], ◌∷◌, arith, ltb, ◌==◌,
  if◌then◌else◌, Bool-cases, length, set, length-set, get_or-set, In,
}
use chvm.Base.Result.{ok}
use chvm.AddrBook.{Vaddr, null_vaddr, uint64_max}
use chvm.Collected.RootSet.{
  Entry, next_free, allocated, RootSet, success, id_out_of_bounds, id_not_allocated, entry_at,
  pop_free, resize, cs_root, cs_deroot, cs_get_root_vaddr,
}
use chvm.Collected.RootSet.Inv.{
  read, Chain, IsValid, Chain-set, free-lt, free_of_Chain, free_head-null, resize-IsValid,
}

-- The root that an index names, as a client sees it.
abbrev pub IsRoot : RootSet → ℕ → Vaddr → Type 0
IsRoot rs id w = cs_get_root_vaddr rs id ≡ (success, w)

pub IsRoot-iff :
    (rs : RootSet) (id : ℕ) (w : Vaddr)
    → IsRoot rs id w ↔ ((id < rs.root_set_cap) × (entry_at rs id ≡ allocated w))
unfolding cs_get_root_vaddr
IsRoot-iff rs id w = ground arith

-- What rooting an address does: it is the root of an index that named none, and every other index
-- names what it named before.
pub record Rooted (rs : RootSet) (w : Vaddr) (id : ℕ) (rs' : RootSet) : Type 0 where
  pub valid : IsValid rs'
  pub was_free : (u : Vaddr) → ¬ IsRoot rs id u
  pub now_root : IsRoot rs' id w
  pub others : (j : ℕ) (u : Vaddr) → j ≢ id → IsRoot rs' j u ↔ IsRoot rs j u

-- A chain that does not start nowhere starts at its head.
Chain-cons :
    (es : List Entry) (h : ℕ) (is : List ℕ)
    → Chain es h is
    → h ≢ uint64_max
    → (n : ℕ) × (js : List ℕ) × (is ≡ h ∷ js)
      × (¬ In h js)
      × (read es h ≡ next_free n)
      × Chain es n js
Chain-cons es h [] c ne = absurd (ne c)
Chain-cons es h (j ∷ js) (hd, small, fresh, (n, r, c)) ne = (n, js, rw hd, rw hd fresh, rw hd r, c)

pop_free_lem :
    (rs : RootSet) (w : Vaddr)
    → IsValid rs
    → rs.free_head ≢ uint64_max
    → (rs' : RootSet) × (pop_free rs w ≡ ok (rs.free_head, rs'))
      × Rooted rs w rs.free_head rs'
      × (rs'.root_set_cap ≡ rs.root_set_cap)
unfolding pop_free
pop_free_lem rs w v ne =
    let (n, js, is, fresh, r, c) = Chain-cons rs.root_set rs.free_head v.chain v.linked ne in
    let h : ℕ = rs.free_head in
    let lt : h < length rs.root_set = free-lt rs.root_set h n r in
    let free_before : (i m : ℕ)
        → read (set rs.root_set h (allocated w)) i ≡ next_free m
        → (read rs.root_set i ≡ next_free m) × (i ≢ h) =
      λ i m e. ground (arith, get_or-set rs.root_set h i (allocated w) (allocated null_vaddr)) in
    let rs' : RootSet = record rs { free_head = n; root_set = set rs.root_set h (allocated w) } in
    (
      rs',
      ground arith,
      record {
        valid = record {
          size = rw length-set v.size;
          cap_pos = v.cap_pos;
          small = v.small;
          chain = js;
          linked = Chain-set rs.root_set n js h (allocated w) lt fresh c;
          listed = λ i m e.
              let (old, apart) = free_before i m e in
              elim (rw is at (v.listed i m old)) [ inl here ↦ absurd (apart here) | inr on ↦ on ];
        };
        was_free = λ u root. ground (arith, IsRoot-iff rs h u);
        now_root = ground (
          arith,
          IsRoot-iff rs' h w,
          get_or-set rs.root_set h h (allocated w) (allocated null_vaddr),
          v.size,
        );
        others = λ j u other. ground (
          arith,
          IsRoot-iff rs' j u,
          IsRoot-iff rs j u,
          get_or-set rs.root_set h j (allocated w) (allocated null_vaddr),
        );
      },
      refl,
    )

all_used :
    (rs : RootSet)
    → IsValid rs
    → rs.free_head ≡ uint64_max
    → (i : ℕ) → i < rs.root_set_cap
    → (u : Vaddr) × IsRoot rs i u
all_used rs v e i lt = used (entry_at rs i) refl
  where
    used : (x : Entry) → entry_at rs i ≡ x → (u : Vaddr) × IsRoot rs i u
    used (next_free n) r = absurd (free_head-null rs v e i n r)
    used (allocated u) r = (u, (IsRoot-iff rs i u).1 (lt, r))

-- A resize adds entries that are not in use.
IsRoot-resize :
    (rs : RootSet)
    → IsValid rs
    → rs.root_set_cap < 2 ^ 63
    → rs.free_head ≡ uint64_max
    → (i : ℕ) (u : Vaddr) → IsRoot (resize rs) i u ↔ IsRoot rs i u
IsRoot-resize rs v small e i u =
    let (_, _, cap, old, new) = resize-IsValid rs v small e in
    elim (Bool-cases (ltb i rs.root_set_cap)) [
      | inl lt ↦ ground (arith, IsRoot-iff (resize rs) i u, IsRoot-iff rs i u, old i)
      | inr ge ↦ ground (arith, IsRoot-iff (resize rs) i u, IsRoot-iff rs i u, new i)
    ]

-- `cs_root` of a valid root set of room below 2 ^ 63 returns, and the address is the root of an index that named none;
-- every other index names what it named. The set grows only when every entry is in use.
pub cs_root_lem :
    (rs : RootSet) (w : Vaddr)
    → IsValid rs
    → rs.root_set_cap < 2 ^ 63
    → (id : ℕ) × (rs' : RootSet) × (cs_root rs w ≡ ok (id, rs'))
      × Rooted rs w id rs'
      × ((rs'.root_set_cap ≡ rs.root_set_cap)
          ⊎ (rs'.root_set_cap ≡ rs.root_set_cap * 2)
            × ((i : ℕ) → i < rs.root_set_cap → (u : Vaddr) × IsRoot rs i u))
unfolding cs_root
cs_root_lem rs w v small = elim (Bool-cases (rs.free_head == uint64_max)) [
  | inl full ↦
      let e : rs.free_head ≡ uint64_max = ground arith in
      let (v1, head, cap, _, _) = resize-IsValid rs v small e in
      let grown = IsRoot-resize rs v small e in
      let (rs', run, rooted, same) = pop_free_lem (resize rs) w v1 (omega arith) in
      (
        (resize rs).free_head,
        rs',
        rw full run,
        record {
          valid = rooted.valid;
          was_free = λ u root. rooted.was_free u ((grown (resize rs).free_head u).1 root);
          now_root = rooted.now_root;
          others = λ j u ne. (
            λ r. (grown j u).0 ((rooted.others j u ne).0 r),
            λ r. (rooted.others j u ne).1 ((grown j u).1 r),
          );
        },
        inr (omega arith, λ i lt. all_used rs v e i lt),
      )
  | inr free ↦
      let (rs', run, rooted, same) = pop_free_lem rs w v (ground arith) in
      (rs.free_head, rs', rw free run, rooted, inl same)
]

cs_deroot-root :
    (rs : RootSet) (id : ℕ) (w : Vaddr)
    → IsRoot rs id w
    → cs_deroot rs id ≡ (
      success,
      record rs { free_head = id; root_set = set rs.root_set id (next_free rs.free_head) },
    )
unfolding cs_deroot
cs_deroot-root rs id w root = ground (arith, IsRoot-iff rs id w)

module _ (rs : RootSet) (id : ℕ) (w : Vaddr) (v : IsValid rs) (root : IsRoot rs id w) where
  abbrev derooted : RootSet
  derooted = record rs { free_head = id; root_set = set rs.root_set id (next_free rs.free_head) }

  there : (id < rs.root_set_cap) × (entry_at rs id ≡ allocated w)
  there = (IsRoot-iff rs id w).0 root

  inside : id < length rs.root_set
  inside = omega (arith, there, v.size)

  off_chain : ¬ In id v.chain
  off_chain m =
      let (n, r) = free_of_Chain rs.root_set rs.free_head v.chain id v.linked m in cc there.1

  entry_at-derooted :
      (j : ℕ) → entry_at derooted j ≡ (if id == j then next_free rs.free_head else entry_at rs j)
  entry_at-derooted j =
      get_or-set rs.root_set id j (next_free rs.free_head) (allocated null_vaddr) inside

  derooted-IsValid : IsValid derooted
  derooted-IsValid = record {
    size = rw length-set v.size;
    cap_pos = v.cap_pos;
    small = v.small;
    chain = id ∷ v.chain;
    linked = (
      refl,
      omega (arith, there, v.small),
      off_chain,
      (
        rs.free_head,
        ground (arith, entry_at-derooted id),
        Chain-set rs.root_set rs.free_head v.chain id (next_free rs.free_head) inside off_chain
            v.linked,
      ),
    );
    listed = λ i n e. elim (Bool-cases (id == i)) [
      | inl here ↦ inl (ground arith)
      | inr away ↦ inr (v.listed i n (ground (arith, entry_at-derooted i)))
    ];
  }

  gone : cs_get_root_vaddr derooted id ≡ (id_not_allocated, null_vaddr)
  unfolding cs_get_root_vaddr
  gone = ground (arith, entry_at-derooted id, there)

  others : (j : ℕ) (u : Vaddr) → j ≢ id → IsRoot derooted j u ↔ IsRoot rs j u
  others j u ne = ground (arith, IsRoot-iff derooted j u, IsRoot-iff rs j u, entry_at-derooted j)

cs_deroot-refused :
    (rs : RootSet) (id : ℕ) (e : Entry)
    → entry_at rs id ≡ e
    → ((w : Vaddr) → ¬ IsRoot rs id w)
    → cs_deroot rs id ≡ (if ltb id rs.root_set_cap then id_not_allocated else id_out_of_bounds, rs)
unfolding cs_deroot
cs_deroot-refused rs id (next_free n) e none_there = ground arith
cs_deroot-refused rs id (allocated w) e none_there =
    ground (arith, IsRoot-iff rs id w, none_there w)

-- `cs_deroot` of a valid root set, on all its branches: an index that names a root names none afterwards, and may be
-- given out again, while every other index names what it named; any other index is refused with
-- the code for its case, and nothing changes.
pub cs_deroot_lem :
    (rs : RootSet) (id : ℕ)
    → IsValid rs
    → ((w : Vaddr)
        → IsRoot rs id w
        → (rs' : RootSet) × (cs_deroot rs id ≡ (success, rs'))
          × IsValid rs'
          × (rs'.free_head ≡ id)
          × (cs_get_root_vaddr rs' id ≡ (id_not_allocated, null_vaddr))
          × ((j : ℕ) (u : Vaddr) → j ≢ id → IsRoot rs' j u ↔ IsRoot rs j u))
      × (((w : Vaddr) → ¬ IsRoot rs id w)
          → cs_deroot rs id
            ≡ (if ltb id rs.root_set_cap then id_not_allocated else id_out_of_bounds, rs))
cs_deroot_lem rs id v = (
  λ w root. (
    derooted rs id w v root,
    cs_deroot-root rs id w root,
    derooted-IsValid rs id w v root,
    refl,
    gone rs id w v root,
    others rs id w v root,
  ),
  cs_deroot-refused rs id (entry_at rs id) refl,
)
