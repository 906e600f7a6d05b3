-- ===== src/MemBlock.antt =====
-- gc_src/mb.c, the memory block: one run of bytes cut into pieces that are free or allocated. The
-- memory is given by the pieces in the order of their addresses: each stands for the header and the
-- footer with its size and its flag, and for the virtual address in the header of an allocated one.
-- The doubly linked list of free pieces is the list of their addresses. The lock of the block is
-- taken and given back inside each call.
pub mod Sizes
pub mod Tiles
pub mod Find
pub mod Order
pub mod Take
pub mod Malloc
pub mod Neighbours
pub mod Coalesce
pub mod Free
pub mod Shift
mod Tests
use chvm.Base.{
  ℕ, zero, suc, ◌+◌, ◌-◌, ◌*◌, ◌%◌, ◌^◌, Bool, true, false, not, ◌&&◌, Option, none, some, List, [],
  ◌∷◌, ltb, ◌==◌, if◌then◌else◌,
}
use chvm.Base.Result.{Result, ok, fault, ◌>>=◌}
use chvm.AddrBook.{Vaddr, null_vaddr, AddrBook, adb_put_p, adb_get_read_p, adb_unlock, adb_free}

-- `mem_piece` and what stands in it.
pub record Piece : Type 0 where
  pub addr : ℕ
  pub size : ℕ
  pub alloc : Bool
  pub vaddr : Vaddr

-- `mem_block_header`; `start` is the address of the first piece, `size_free_list` the addresses of
-- the free pieces in the order of the list.
pub record MemBlock : Type 0 where
  pub start : ℕ
  pub cap : ℕ
  pub pieces : List Piece
  pub size_free_list : List ℕ

-- `malloc_res`; NULL is `none`.
pub record MallocRes : Type 0 where
  pub paddr : Option ℕ
  pub vaddr : Vaddr

abbrev pub mp_padding : ℕ
mp_padding = 16

abbrev pub mfp_padding : ℕ
mfp_padding = mp_padding + 16

abbrev pub map_padding : ℕ
map_padding = mp_padding + 16

abbrev pub mp_min_size : ℕ
mp_min_size = mfp_padding + 2

abbrev pub uint64_size : ℕ
uint64_size = 2 ^ 64

pub round_num_bytes : ℕ → ℕ
round_num_bytes n = if n % 2 == 0 then n else (n + 1) % uint64_size

pub pad_num_bytes : ℕ → ℕ
unfolding round_num_bytes
pad_num_bytes n =
    let map_size = (round_num_bytes n + map_padding) % uint64_size in
    if ltb map_size mp_min_size then mp_min_size else map_size

-- From a piece to the body that a client sees: past the size and the virtual address.
abbrev pub mp_to_map_b : ℕ → ℕ
mp_to_map_b a = a + 24

abbrev pub map_b_to_mp : ℕ → ℕ
map_b_to_mp b = b - 24

abbrev pub find_piece : ℕ → List Piece → Option Piece
find_piece a [] = none
find_piece a (p ∷ ps) = if p.addr == a then some p else find_piece a ps

abbrev pub size_of : Option Piece → ℕ
size_of none = 0
size_of (some p) = p.size

-- The size that is read at an address.
abbrev pub mp_size : List Piece → ℕ → ℕ
mp_size ps a = size_of (find_piece a ps)

-- `mp_init`: the bytes of the piece `q` are one piece from now on. A piece that starts in them is
-- one no more.
pub mp_init : Piece → List Piece → List Piece
mp_init q [] = q ∷ []
mp_init q (p ∷ ps) =
    let rest = mp_init q ps in
    if ltb p.addr q.addr
    then p ∷ rest
    else if ltb p.addr (q.addr + q.size)
    then rest
    else q ∷ p ∷ ps

pub new_mem_block : ℕ → ℕ → MemBlock
new_mem_block start min_bytes =
    let padded_cap = pad_num_bytes min_bytes in
    record {
      start = start;
      cap = padded_cap;
      pieces = record { addr = start; size = padded_cap; alloc = false; vaddr = null_vaddr } ∷ [];
      size_free_list = start ∷ [];
    }

pub mb_free_space : MemBlock → ℕ
mb_free_space mb = elim mb.size_free_list [ [] ↦ 0 | big ∷ _ ↦ mp_size mb.pieces big - map_padding ]

pub mb_remove_from_size_unsafe : ℕ → List ℕ → List ℕ
mb_remove_from_size_unsafe a [] = []
mb_remove_from_size_unsafe a (i ∷ is) = if i == a then is else i ∷ mb_remove_from_size_unsafe a is

-- The piece at `a` goes before the first one that is not larger.
pub mb_add_to_size_unsafe : List Piece → ℕ → List ℕ → List ℕ
mb_add_to_size_unsafe ps a [] = a ∷ []
mb_add_to_size_unsafe ps a (iter ∷ is) =
    if ltb (mp_size ps a) (mp_size ps iter)
    then iter ∷ mb_add_to_size_unsafe ps a is
    else a ∷ iter ∷ is

-- The free piece that ends at `a`, which the footer before `a` leads to.
abbrev pub free_before : ℕ → List Piece → Option Piece
free_before a [] = none
free_before a (p ∷ ps) = if (p.addr + p.size == a) && not p.alloc then some p else free_before a ps

abbrev pub free_at : ℕ → List Piece → Option Piece
free_at a ps = elim (find_piece a ps) [ none ↦ none | some p ↦ if p.alloc then none else some p ]

-- The free piece is taken out of the list, if there is one.
abbrev pub unlist : Option Piece → List ℕ → List ℕ
unlist none is = is
unlist (some p) is = mb_remove_from_size_unsafe p.addr is

abbrev pub addr_or : ℕ → Option Piece → ℕ
addr_or a none = a
addr_or a (some p) = p.addr

pub mb_coalesce_unsafe : MemBlock → ℕ → MemBlock
mb_coalesce_unsafe mb mp =
    let prev = if ltb mb.start mp then free_before mp mb.pieces else none in
    let size = mp_size mb.pieces mp in
    let next =
      if ltb (mp + size) (mb.start + mb.cap) then free_at (mp + size) mb.pieces else none in
    let new_free = addr_or mp prev in
    let new_size = size + size_of prev + size_of next in
    let pieces =
      mp_init (record { addr = new_free; size = new_size; alloc = false; vaddr = null_vaddr })
        mb.pieces in
    record mb {
      pieces = pieces;
      size_free_list =
          mb_add_to_size_unsafe pieces new_free (unlist next (unlist prev mb.size_free_list));
    }

pub mb_free : MemBlock → AddrBook → Vaddr → Result (MemBlock × AddrBook)
mb_free mb adb v = do
  (paddr, adb1) ← adb_get_read_p adb v true
  adb2 ← adb_unlock adb1 v
  adb3 ← adb_free adb2 v
  elim paddr [ none ↦ fault | some p ↦ ok (mb_coalesce_unsafe mb (map_b_to_mp p), adb3) ]

abbrev pub null_res : MallocRes
null_res = record { paddr = none; vaddr = null_vaddr }

-- The cut of the largest free piece, at `big`, for an allocated piece of `min_size` bytes; `rest` is
-- the list without it.
pub take_big : MemBlock → ℕ → List ℕ → ℕ → MemBlock
take_big mb big rest min_size =
    let big_size = mp_size mb.pieces big in
    let cut_size = big_size - min_size in
    if ltb cut_size mp_min_size
    then record mb {
      pieces =
          mp_init (record { addr = big; size = big_size; alloc = true; vaddr = null_vaddr })
            mb.pieces;
      size_free_list = rest;
    }
    else (let with_new =
          mp_init
            (record { addr = big + min_size; size = cut_size; alloc = false; vaddr = null_vaddr })
            mb.pieces in
        record mb {
          pieces =
              mp_init (record { addr = big; size = min_size; alloc = true; vaddr = null_vaddr })
                with_new;
          size_free_list = mb_add_to_size_unsafe with_new (big + min_size) rest;
        })

-- The write of the virtual address into the header of the piece at `a`.
pub set_vaddr : ℕ → Vaddr → List Piece → List Piece
set_vaddr a v [] = []
set_vaddr a v (p ∷ ps) = if p.addr == a then record p { vaddr = v } ∷ ps else p ∷ set_vaddr a v ps

pub mb_malloc_p : MemBlock → AddrBook → ℕ → Bool → Result (MallocRes × MemBlock × AddrBook)
mb_malloc_p mb adb min_bytes hold =
    let min_size = pad_num_bytes min_bytes in
    if min_bytes == 0 then ok (null_res, mb, adb) else elim mb.size_free_list [
      | [] ↦ ok (null_res, mb, adb)
      | big ∷ rest ↦
          if ltb (mp_size mb.pieces big) min_size
          then ok (null_res, mb, adb)
          else (let taken = take_big mb big rest min_size in
              adb_put_p adb (mp_to_map_b big) hold >>= λ (v, adb'). ok (
                record { paddr = if hold then some (mp_to_map_b big) else none; vaddr = v },
                record taken { pieces = set_vaddr big v taken.pieces },
                adb',
              ))
    ]

pub mb_count : List Piece → ℕ
mb_count [] = 0
mb_count (p ∷ ps) = if p.alloc then suc (mb_count ps) else mb_count ps
