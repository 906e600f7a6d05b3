-- ===== src/MemSpace/Tests.antt =====
-- Runs of the memory space of gc_src/ms.c.
use chvm.Base.{ℕ, zero, suc, ◌+◌, ◌<◌, ◌≡◌, ◌≢◌, false, [], ◌∷◌, arith, get_or, In, refl}
use chvm.Base.Result.{ok}
use chvm.AddrBook.{adb_null_index, Vaddr, new_addr_book}
use chvm.AddrBook.Inv.{fresh_book-IsValid}
use chvm.MemBlock.{MallocRes, null_res, new_mem_block}
use chvm.MemBlock.Take.{IsValid as IsValidBlock, new_mem_block-IsValid}
use chvm.MemSpace.{MemSpace, no_block, header_size, made, new_mem_space_seed, ms_malloc_p, ms_free}
use chvm.MemSpace.Throw.{IsValid}
use chvm.MemSpace.Given.{Given}
use chvm.MemSpace.Malloc.{ms_malloc_p_lem}
use chvm.MemSpace.Live.{Live}
use chvm.MemSpace.Free.{GivenBack}
use chvm.MemSpace.Calls.{Calls, seeded, malloc_call, ms_free-Calls}

-- One empty block of 101 bytes.
abbrev space : MemSpace
space = record {
  adb = record { table_cap = 4; free_list = adb_null_index; book_cap = 1; book = [] };
  mb_min_bytes = 101;
  seed = 7;
  mb_list_cap = 2;
  mb_list = new_mem_block 1000 101 ∷ [];
  owners = [];
}

space-IsValid : IsValid space
space-IsValid = record {
  book = fresh_book-IsValid 4 (omega arith);
  some_block = omega arith;
  in_cap = omega arith;
  blocks = blocks;
}
  where
    blocks : (i : ℕ) → i < 1 → IsValidBlock (get_or space.mb_list i no_block)
    blocks zero lt = (new_mem_block-IsValid 1000 101 (omega arith)).0
    blocks (suc i) lt = absurd (omega arith)

abbrev two_hundred : ℕ
two_hundred = 200

-- The block has no room for 200 bytes, so there is a new one.
ms_malloc_p_lem_example :
    (two_hundred ≡ 0 → ms_malloc_p 5000 space two_hundred false ≡ ok (null_res, space))
    × (two_hundred ≢ 0
        → (r : MallocRes) × (ms' : MemSpace) × (ms_malloc_p 5000 space two_hundred false
            ≡ ok (r, ms'))
          × Given space 5000 (two_hundred + header_size) false r ms')
ms_malloc_p_lem_example =
    ms_malloc_p_lem 5000 space two_hundred false space-IsValid (omega arith) (omega arith)
      (omega arith) (omega arith)

space-made : new_mem_space_seed 1000 7 4 101 ≡ made space
unfolding new_mem_space_seed new_addr_book
space-made = refl

abbrev one_given :
    (r : MallocRes) × (ms' : MemSpace) × (ms_malloc_p 5000 space two_hundred false ≡ ok (r, ms'))
    × Given space 5000 (two_hundred + header_size) false r ms'
one_given =
    (ms_malloc_p_lem 5000 space two_hundred false space-IsValid (omega arith) (omega arith)
        (omega arith) (omega arith)).1
      (λ e. omega arith)

-- One address is out, in the new block.
one_given-Calls : Calls one_given.1 ((one_given.0.vaddr, two_hundred) ∷ [])
one_given-Calls =
    malloc_call space one_given.1 [] 5000 two_hundred one_given.0
      (seeded space 1000 7 4 101 (omega arith) space-made) (omega arith) (omega arith) (omega arith)
      (omega arith) (λ e. omega arith) one_given.2

ms_free-Calls_example :
    IsValid one_given.1
    × ((w : Vaddr) (n : ℕ)
        → In {A = Vaddr × ℕ} (w, n) ((one_given.0.vaddr, two_hundred) ∷ [])
        → (l : Live one_given.1 w (n + header_size)) × (ms' : MemSpace) × (ms_free one_given.1 w
            ≡ ok ms')
          × IsValid ms'
          × GivenBack one_given.1 w (n + header_size) l ms')
ms_free-Calls_example =
    ms_free-Calls one_given.1 ((one_given.0.vaddr, two_hundred) ∷ []) one_given-Calls
