-- ===== src/Collected/RootSet.antt =====
-- gc_src/cs.c: the root set, a growing array whose unused entries are a linked list through their
-- own indices. Its lock is taken and given back inside each call.
pub mod Inv
pub mod Calls
pub mod Roots
use chvm.Base.{
  ℕ, zero, suc, ◌+◌, ◌-◌, ◌*◌, ◌%◌, ◌^◌, Bool, true, false, List, [], ◌∷◌, ◌++◌, ltb, ◌==◌,
  if◌then◌else◌, get_or, set,
}
use chvm.Base.Result.{Result, ok, fault, ◌>>=◌, ◌>>◌}
use chvm.AddrBook.{Vaddr, null_vaddr, uint64_max}

-- `root_set_entry`: the union is read by the flag `allocated`.
pub data Entry : Type 0 where
  next_free : ℕ → Entry
  allocated : Vaddr → Entry

-- The root set's fields of `collected_space_struct`.
pub record RootSet : Type 0 where
  pub root_set_cap : ℕ
  pub free_head : ℕ
  pub root_set : List Entry

-- `cs_root_status_code`
pub data StatusCode : Type 0 where
  success id_out_of_bounds id_not_allocated : StatusCode

abbrev pub entry_at : RootSet → ℕ → Entry
entry_at rs i = get_or rs.root_set i (allocated null_vaddr)

-- What `new_collected_space_seed` sets up.
pub new_root_set : RootSet
new_root_set = record { root_set_cap = 1; free_head = 0; root_set = next_free uint64_max ∷ [] }

-- The entries that a resize adds from index `i` on: `n` that lead on, and one that leads nowhere.
unfoldable pub new_entries : ℕ → ℕ → List Entry
new_entries zero i = next_free uint64_max ∷ []
new_entries (suc n) i = next_free (i + 1) ∷ new_entries n (i + 1)

unfoldable pub resize : RootSet → RootSet
resize rs =
    let cap = rs.root_set_cap * 2 % 2 ^ 64 in
    record {
      root_set_cap = cap;
      free_head = rs.root_set_cap;
      root_set = rs.root_set ++ new_entries (cap - 1 - rs.root_set_cap) rs.root_set_cap;
    }

-- The pop of the head of the free list, and the store of the root. To read `next_free` of an
-- allocated entry would read bytes of an address.
unfoldable pub pop_free : RootSet → Vaddr → Result (ℕ × RootSet)
pop_free rs v = elim (entry_at rs rs.free_head) [
  | next_free next ↦ ok (
    rs.free_head,
    record rs { free_head = next; root_set = set rs.root_set rs.free_head (allocated v) },
  )
  | allocated w ↦ fault
]

unfoldable pub cs_root : RootSet → Vaddr → Result (ℕ × RootSet)
cs_root rs v = pop_free (if rs.free_head == uint64_max then resize rs else rs) v

pub cs_deroot : RootSet → ℕ → StatusCode × RootSet
cs_deroot rs id =
    if ltb id rs.root_set_cap
    then elim (entry_at rs id) [
      | next_free n ↦ (id_not_allocated, rs)
      | allocated v ↦ (
        success,
        record rs { free_head = id; root_set = set rs.root_set id (next_free rs.free_head) },
      )
    ]
    else (id_out_of_bounds, rs)

pub cs_get_root_vaddr : RootSet → ℕ → StatusCode × Vaddr
cs_get_root_vaddr rs id =
    if ltb id rs.root_set_cap
    then elim (entry_at rs id) [
      | next_free n ↦ (id_not_allocated, null_vaddr)
      | allocated v ↦ (success, v)
    ]
    else (id_out_of_bounds, null_vaddr)

-- The addresses in the root set, in the order in which the collector pushes them.
unfoldable pub roots_from : List Entry → List Vaddr
roots_from [] = []
roots_from (next_free n ∷ es) = roots_from es
roots_from (allocated v ∷ es) = v ∷ roots_from es

abbrev pub roots : RootSet → List Vaddr
roots rs = roots_from rs.root_set
