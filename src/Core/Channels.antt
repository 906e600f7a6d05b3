-- ===== src/Core/Channels.antt =====
-- core_src/mem.c: the memory channels, which count what was allocated and not freed. The answers of
-- malloc and realloc are arguments; a piece is known by the address that the caller got, with the
-- channel that stands in the byte in front of it.
pub mod Count
use chvm.Base.{
  ℕ, zero, suc, ◌+◌, ◌-◌, ◌%◌, ◌^◌, Bool, true, false, Option, none, some, List, [], ◌∷◌, ltb, ◌==◌,
  if◌then◌else◌, get_or, set, length,
}
use chvm.Base.Result.{Result, ok, exited, fault, ◌>>=◌}

abbrev pub uint64_size : ℕ
uint64_size = 2 ^ 64

-- `mem_chnls` of the core state, and the pieces that are live.
pub record Heap : Type 0 where
  pub mem_chnls : List ℕ
  pub pieces : List (ℕ × ℕ)

abbrev pub chnl_of : ℕ → List (ℕ × ℕ) → Option ℕ
chnl_of ptr [] = none
chnl_of ptr ((p, chnl) ∷ ps) = if p == ptr then some chnl else chnl_of ptr ps

unfoldable pub drop_piece : ℕ → List (ℕ × ℕ) → List (ℕ × ℕ)
drop_piece ptr [] = []
drop_piece ptr ((p, chnl) ∷ ps) = if p == ptr then ps else (p, chnl) ∷ drop_piece ptr ps

-- A channel past the end of the array is an access out of bounds.
unfoldable pub try_safe_malloc : Option ℕ → ℕ → Heap → Result (Option ℕ × Heap)
try_safe_malloc none chnl h = ok (none, h)
try_safe_malloc (some raw_ptr) chnl h =
    if ltb chnl (length h.mem_chnls)
    then ok (
      some (raw_ptr + 1),
      record {
        mem_chnls = set h.mem_chnls chnl ((get_or h.mem_chnls chnl 0 + 1) % uint64_size);
        pieces = (raw_ptr + 1, chnl) ∷ h.pieces;
      },
    )
    else fault

unfoldable pub safe_malloc : Option ℕ → ℕ → Heap → Result (ℕ × Heap)
unfolding try_safe_malloc
safe_malloc answer chnl h =
    try_safe_malloc answer chnl h >>= λ (ptr, h'). elim ptr [ some p ↦ ok (p, h') | none ↦ exited ]

-- The byte of the channel goes along with the contents.
pub try_safe_realloc : Option ℕ → ℕ → Heap → Result (Option ℕ × Heap)
try_safe_realloc answer ptr h = elim (chnl_of ptr h.pieces) [
  | none ↦ fault
  | some chnl ↦ elim answer [
    | none ↦ ok (none, h)
    | some new_raw_ptr ↦ ok (
      some (new_raw_ptr + 1),
      record h { pieces = (new_raw_ptr + 1, chnl) ∷ drop_piece ptr h.pieces },
    )
  ]
]

pub safe_realloc : Option ℕ → ℕ → Heap → Result (ℕ × Heap)
unfolding try_safe_realloc
safe_realloc answer ptr h = try_safe_realloc answer ptr h >>= λ (new_ptr, h'). elim new_ptr [
  | some p ↦ ok (p, h')
  | none ↦ exited
]

unfoldable pub safe_free : ℕ → Heap → Result Heap
safe_free ptr h = elim (chnl_of ptr h.pieces) [
  | none ↦ fault
  | some chnl ↦
      if ltb chnl (length h.mem_chnls)
      then ok (record {
        mem_chnls =
            set h.mem_chnls chnl ((get_or h.mem_chnls chnl 0 + (uint64_size - 1)) % uint64_size);
        pieces = drop_piece ptr h.pieces;
      })
      else fault
]

-- The loop of `check_memory_leaks` over the channels, from `lb` on.
pub leaks_from : ℕ → List ℕ → Bool
leaks_from lb [] = false
leaks_from zero (n ∷ ns) = if n == 0 then leaks_from zero ns else true
leaks_from (suc lb) (n ∷ ns) = leaks_from lb ns

pub check_memory_leaks : ℕ → Heap → Bool
unfolding leaks_from
check_memory_leaks lb h = leaks_from lb h.mem_chnls
