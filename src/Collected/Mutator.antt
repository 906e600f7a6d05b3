-- ===== src/Collected/Mutator.antt =====
-- gc_src/cs.c: what user threads do to a collected space, also while its collector is in the black
-- phase. An allocation takes the address that the memory space gives it as an argument.
pub mod Snapshot
pub mod Marking
pub mod Access
pub mod Moves
pub mod Safety
pub mod Progress
pub mod Root
use chvm.Base.{
  ℕ, suc, ◌+◌, ◌≡◌, ◌⊎◌, Bool, true, false, List, [], ◌∷◌, if◌then◌else◌, In, get_or, set,
  replicate, Option, some, none,
}
use chvm.Base.Result.{Result, ok, ◌>>=◌}
use chvm.AddrBook.{Vaddr, eq_adb_addr, null_vaddr, null_adb_addr}
use chvm.Collected.RootSet.{RootSet, StatusCode, cs_root, cs_deroot, roots}
use chvm.Collected.Objects.{Status, newly_added, visited, Obj, Store, find, write, ms_get_write}
use chvm.Collected.Gc.{CollectedSpace, cs_visit_obj, transfer_one, visit_one}

abbrev pub is_visited : Status → Bool
is_visited s = elim s [ visited ↦ true | _ ↦ false ]

-- `cs_get_write`, the write barrier: a thread that wants to write an object during the black phase
-- visits it first. The second test of the code, of the pointer itself against 0, never holds.
unfoldable pub cs_get_write : CollectedSpace → Vaddr → Result CollectedSpace
cs_get_write cs v = ms_get_write cs.ms v >>= λ o.
    if is_visited o.gc_status
    then ok cs
    else if cs.paint_black_in_progress
    then (let (ms, st) = cs_visit_obj v o cs.ms cs.in_progress_stack in
        ok (record cs { ms = ms; in_progress_stack = st }))
    else ok cs

-- The object that `cs_malloc_p` sets up; its data array holds what the memory held.
abbrev pub new_obj : ℕ → List ℕ → Obj
new_obj rt_len da = record { gc_status = newly_added; rt = replicate rt_len null_vaddr; da = da }

pub cs_malloc_p : CollectedSpace → Vaddr → ℕ → List ℕ → CollectedSpace
cs_malloc_p cs v rt_len da = record cs { ms = (v, new_obj rt_len da) ∷ cs.ms }

-- The lock is held until the object is a root.
pub cs_malloc_root : CollectedSpace → Vaddr → ℕ → List ℕ → Result (ℕ × CollectedSpace)
unfolding cs_malloc_p
cs_malloc_root cs v rt_len da =
    let made = cs_malloc_p cs v rt_len da in
    cs_root made.root_set v >>= λ (id, rs). ok (id, record made { root_set = rs })

-- A collected space with its user threads: the objects that they hold for writing, and the
-- addresses that they have come by.
pub record Shared : Type 0 where
  pub cs : CollectedSpace
  pub held : List Vaddr
  pub known : List Vaddr

abbrev pub release : Vaddr → List Vaddr → List Vaddr
release v [] = []
release v (w ∷ ws) = if eq_adb_addr v w then ws else w ∷ release v ws

-- The store of a reference through the pointer that `cs_get_write` gave.
abbrev pub set_ref : Obj → ℕ → Vaddr → Obj
set_ref o i w = record o { rt = set o.rt i w }

-- One step of the black phase. The collector pops one of its stacks, and waits where the object is
-- held. Users lock, write and unlock objects, read references, change the roots, and allocate.
pub data Step : Shared → Shared → Type 0 where
  take :
      (x : Shared) (v : Vaddr) (st : List Vaddr) (ms : Store) (vs : List Vaddr)
      → x.cs.in_progress_stack ≡ v ∷ st
      → ¬ In v x.held
      → transfer_one v x.cs.ms x.cs.visit_stack ≡ ok (ms, vs)
      → Step x (record x { cs = record x.cs { ms = ms; in_progress_stack = st; visit_stack = vs } })
  look :
      (x : Shared) (v : Vaddr) (vs : List Vaddr) (ms : Store) (st : List Vaddr)
      → x.cs.visit_stack ≡ v ∷ vs
      → ¬ In v x.held
      → visit_one v x.cs.ms x.cs.in_progress_stack ≡ ok (ms, st)
      → Step x (record x { cs = record x.cs { ms = ms; in_progress_stack = st; visit_stack = vs } })
  lock :
      (x : Shared) (v : Vaddr) (cs : CollectedSpace)
      → In v x.known
      → ¬ In v x.held
      → cs_get_write x.cs v ≡ ok cs
      → Step x (record x { cs = cs; held = v ∷ x.held })
  unlock : (x : Shared) (v : Vaddr) → In v x.held → Step x (record x { held = release v x.held })
  store :
      (x : Shared) (v w : Vaddr) (o : Obj) (i : ℕ)
      → In v x.held
      → find v x.cs.ms ≡ some o
      → (null_adb_addr w ≡ true) ⊎ In w x.known
      → Step x (record x { cs = record x.cs { ms = write v (set_ref o i w) x.cs.ms } })
  read :
      (x : Shared) (v w : Vaddr) (o : Obj)
      → In v x.known
      → find v x.cs.ms ≡ some o
      → In w o.rt
      → null_adb_addr w ≡ false
      → Step x (record x { known = w ∷ x.known })
  get_root :
      (x : Shared) (w : Vaddr)
      → In w (roots x.cs.root_set)
      → Step x (record x { known = w ∷ x.known })
  root :
      (x : Shared) (w : Vaddr) (id : ℕ) (rs : RootSet)
      → In w x.known
      → cs_root x.cs.root_set w ≡ ok (id, rs)
      → Step x (record x { cs = record x.cs { root_set = rs } })
  deroot :
      (x : Shared) (id : ℕ) (c : StatusCode) (rs : RootSet)
      → cs_deroot x.cs.root_set id ≡ (c, rs)
      → Step x (record x { cs = record x.cs { root_set = rs } })
  alloc :
      (x : Shared) (v : Vaddr) (rt_len : ℕ) (da : List ℕ) (hold : Bool)
      → find v x.cs.ms ≡ none
      → Step x (record x {
        cs = cs_malloc_p x.cs v rt_len da;
        held = if hold then v ∷ x.held else x.held;
        known = v ∷ x.known;
      })

-- Any interleaving.
pub data Steps (x : Shared) : Shared → Type 0 where
  here : Steps x x
  next : {y z : Shared} → Steps x y → Step y z → Steps x z
