-- ===== src/MemSpace.antt =====
-- gc_src/ms.c, the memory space: a growing list of memory blocks over one address book. The pointer
-- to its block, which each piece holds in front of its body, is an index into the list, by virtual
-- address. The lock of the list is taken and given back around each access.
pub mod Throw
pub mod Given
pub mod Live
pub mod Malloc
pub mod Free
pub mod Calls
mod Tests
use chvm.Base.{
  ℕ, zero, suc, ◌+◌, ◌-◌, ◌*◌, ◌/◌, ◌%◌, ◌^◌, Bool, true, false, Option, none, some, List, [], ◌∷◌,
  ◌++◌, ltb, ◌==◌, if◌then◌else◌, get_or, set, length,
}
use chvm.Base.Result.{Result, ok, fault, ◌>>=◌}
use chvm.AddrBook.{
  Vaddr, AddrBook, eq_adb_addr, null_adb_addr, new_addr_book, adb_get_read_p, adb_unlock,
}
use chvm.MemBlock.{MemBlock, MallocRes, null_res, new_mem_block, mb_malloc_p, mb_free}

-- `mem_space`
pub record MemSpace : Type 0 where
  pub adb : AddrBook
  pub mb_min_bytes : ℕ
  pub seed : ℕ
  pub mb_list_cap : ℕ
  pub mb_list : List MemBlock
  pub owners : List (Vaddr × ℕ)

abbrev pub no_block : MemBlock
no_block = record { start = 0; cap = 0; pieces = []; size_free_list = [] }

-- What `new_mem_space_seed` returns: NULL, a space whose address book is NULL, which no call can use, or a space.
pub data NewSpace : Type 0 where
  null_space without_book : NewSpace
  made : MemSpace → NewSpace

-- `start` is the address that malloc gives the first block.
pub new_mem_space_seed : ℕ → ℕ → ℕ → ℕ → NewSpace
new_mem_space_seed start seed adb_t_cap mb_m_bytes =
    if mb_m_bytes == 0 then null_space else elim (new_addr_book adb_t_cap) [
      | none ↦ without_book
      | some adb ↦ made (record {
        adb = adb;
        mb_min_bytes = mb_m_bytes;
        seed = seed;
        mb_list_cap = 2;
        mb_list = new_mem_block start mb_m_bytes ∷ [];
        owners = [];
      })
    ]

abbrev pub uint64_size : ℕ
uint64_size = 2 ^ 64

-- The next seed, and the number that it gives.
pub next_seed : ℕ → ℕ
next_seed seed = let s = (seed + 1) % uint64_size in if s == 0 then 1 else s

pub ms_next_rnd : ℕ → ℕ
ms_next_rnd curr_seed =
    let a = curr_seed * 15485863 % uint64_size in
    let b = curr_seed * 2038074743 % uint64_size in (a * a * a + b * b) % uint64_size

-- `sizeof(mem_space_malloc_header)`
abbrev pub header_size : ℕ
header_size = 8

abbrev pub add_header : Option ℕ → Option ℕ
add_header none = none
add_header (some p) = some (p + header_size)

-- `ms_interpret_malloc_res` of a piece that is held: the block `i` is written in front of its body.
pub ms_interpret_malloc_res : MemSpace → ℕ → MallocRes → Bool → Result (MallocRes × MemSpace)
ms_interpret_malloc_res ms i res hold =
    let owned : MemSpace = record ms { owners = (res.vaddr, i) ∷ ms.owners } in
    if hold
    then ok (record res { paddr = add_header res.paddr }, owned)
    else (adb_unlock owned.adb res.vaddr >>= λ adb.
        ok (record res { paddr = none }, record owned { adb = adb }))

abbrev pub search_div : ℕ
search_div = 3

-- The loop of the throws. Each tries the block that the next random number chooses.
pub throw_darts : ℕ → MemSpace → ℕ → Result (Option (ℕ × MallocRes) × MemSpace)
throw_darts zero ms padded_bytes = ok (none, ms)
throw_darts (suc throws) ms padded_bytes =
    let s = next_seed ms.seed in
    let dart = ms_next_rnd s % length ms.mb_list in
    mb_malloc_p (get_or ms.mb_list dart no_block) ms.adb padded_bytes true >>= λ (res, mb, adb).
    let tried : MemSpace = record ms { seed = s; mb_list = set ms.mb_list dart mb; adb = adb } in
    elim (null_adb_addr res.vaddr) [
      | true ↦ throw_darts throws tried padded_bytes
      | false ↦ ok (some (dart, res), tried)
    ]

-- A new block that the request fits in, at the end of the list; `start` is the address that malloc
-- gives it.
pub malloc_new : ℕ → MemSpace → ℕ → Bool → Result (MallocRes × MemSpace)
unfolding ms_interpret_malloc_res
malloc_new start ms padded_bytes hold =
    let req_bytes = if ltb ms.mb_min_bytes padded_bytes then padded_bytes else ms.mb_min_bytes in
    mb_malloc_p (new_mem_block start req_bytes) ms.adb padded_bytes true >>= λ (res, mb, adb).
    ms_interpret_malloc_res (record ms { adb = adb }) (length ms.mb_list) res hold
    >>= λ (res', ms'). ok (
      res',
      record ms' {
        mb_list_cap =
            if length ms.mb_list == ms.mb_list_cap
            then ms.mb_list_cap * 2 % uint64_size
            else ms.mb_list_cap;
        mb_list = ms.mb_list ++ mb ∷ [];
      },
    )

-- `ms_malloc_p` after the test for no bytes.
pub malloc_padded : ℕ → MemSpace → ℕ → Bool → Result (MallocRes × MemSpace)
unfolding throw_darts ms_interpret_malloc_res malloc_new
malloc_padded start ms padded_bytes hold =
    let len = length ms.mb_list in
    let num_throws = if len / search_div == 0 then 1 else len / search_div in
    throw_darts num_throws ms padded_bytes >>= λ (found, ms'). elim found [
      | some (dart, res) ↦ ms_interpret_malloc_res ms' dart res hold
      | none ↦ malloc_new start ms' padded_bytes hold
    ]

pub ms_malloc_p : ℕ → MemSpace → ℕ → Bool → Result (MallocRes × MemSpace)
unfolding malloc_padded
ms_malloc_p start ms min_bytes hold =
    if min_bytes == 0
    then ok (null_res, ms)
    else malloc_padded start ms ((min_bytes + header_size) % uint64_size) hold

abbrev pub owner_of : Vaddr → List (Vaddr × ℕ) → Option ℕ
owner_of v [] = none
owner_of v ((w, i) ∷ os) = if eq_adb_addr w v then some i else owner_of v os

-- `ms_free`: the block is read from in front of the body.
pub ms_free : MemSpace → Vaddr → Result MemSpace
ms_free ms v = adb_get_read_p ms.adb v true >>= λ (_, held). elim (owner_of v ms.owners) [
  | none ↦ fault
  | some i ↦ adb_unlock held v >>= λ adb.
      mb_free (get_or ms.mb_list i no_block) adb v >>= λ (mb, adb').
      ok (record ms { adb = adb'; mb_list = set ms.mb_list i mb })
]
