-- ===== src/MemSpace/Calls.antt =====
-- gc_src/ms.c: any order of calls of `ms_malloc_p` and `ms_free` on a new space.
use chvm.Base.{
  ℕ, zero, suc, ◌+◌, ◌^◌, ◌<◌, ◌≡◌, sym, ◌≢◌, inl, inr, false, List, [], ◌∷◌, arith, get_or, length,
  if◌then◌else◌, Bool-cases, In,
}
use mathlib.Core.Path.{subst}
use chvm.Base.Result.{ok}
use chvm.AddrBook.{Vaddr, eq_adb_addr}
use chvm.AddrBook.Inv.{new_addr_book-IsValid}
use chvm.MemBlock.{MallocRes, new_mem_block}
use chvm.MemBlock.Take.{IsValid as IsValidBlock, new_mem_block-IsValid}
use chvm.MemSpace.{MemSpace, no_block, header_size, made, new_mem_space_seed, ms_malloc_p, ms_free}
use chvm.MemSpace.Throw.{IsValid}
use chvm.MemSpace.Live.{Live, Given-Live, Given-fresh, Given-keeps}
use chvm.MemSpace.Malloc.{ms_malloc_p_lem}
use chvm.MemSpace.Free.{GivenBack, ms_free-Live, GivenBack-keeps}

-- The list without the address.
abbrev pub without : Vaddr → List (Vaddr × ℕ) → List (Vaddr × ℕ)
without w [] = []
without w ((u, k) ∷ us) = if eq_adb_addr u w then us else (u, k) ∷ without w us

-- Calls on a new space, with the addresses that are out, and the number of bytes that each was asked for.
pub data Calls : MemSpace → List (Vaddr × ℕ) → Type 0 where
  seeded :
      (ms : MemSpace) (start seed adb_t_cap mb_m_bytes : ℕ)
      → mb_m_bytes < 2 ^ 63
      → new_mem_space_seed start seed adb_t_cap mb_m_bytes ≡ made ms
      → Calls ms []
  malloc_call :
      (ms ms' : MemSpace) (out : List (Vaddr × ℕ)) (start n : ℕ) (r : MallocRes)
      → Calls ms out
      → ms.adb.book_cap < 2 ^ 62
      → ms.mb_min_bytes < 2 ^ 63
      → n + header_size < 2 ^ 63
      → length ms.mb_list < 2 ^ 63
      → n ≢ 0
      → ms_malloc_p start ms n false ≡ ok (r, ms')
      → Calls ms' ((r.vaddr, n) ∷ out)
  free_call :
      (ms ms' : MemSpace) (out : List (Vaddr × ℕ)) (w : Vaddr) (n : ℕ)
      → Calls ms out
      → In (w, n) out
      → ms_free ms w ≡ ok ms'
      → Calls ms' (without w out)

abbrev IsNew : Vaddr → List (Vaddr × ℕ) → Type 0
IsNew w [] = Unit
IsNew w ((u, k) ∷ us) = (eq_adb_addr u w ≡ false) × IsNew w us

abbrev AllLive : MemSpace → List (Vaddr × ℕ) → Type 0
AllLive ms [] = Unit
AllLive ms ((w, n) ∷ us) = Live ms w (n + header_size) × IsNew w us × AllLive ms us

Live-In :
    (ms : MemSpace) (out : List (Vaddr × ℕ)) (w : Vaddr) (n : ℕ)
    → AllLive ms out
    → In (w, n) out
    → Live ms w (n + header_size)
Live-In ms [] w n all on = absurd on
Live-In ms ((u, k) ∷ us) w n (l, _, all) (inl e) =
    subst (λ (p : Vaddr × ℕ). Live ms p.0 (p.1 + header_size)) (sym e) l
Live-In ms ((u, k) ∷ us) w n (l, _, all) (inr on) = Live-In ms us w n all on

module _ (ms ms' : MemSpace) where
  -- A step that keeps each address that is live.
  keep_all :
      (w : Vaddr) (out : List (Vaddr × ℕ))
      → ((u : Vaddr) (k : ℕ) → Live ms u k → eq_adb_addr u w ≡ false → Live ms' u k)
      → IsNew w out
      → AllLive ms out
      → AllLive ms' out
  keep_all w [] keeps new all = tt
  keep_all w ((u, k) ∷ us) keeps (ne, new) (l, fresh, all) =
      (keeps u (k + header_size) l ne, fresh, keep_all w us keeps new all)

  IsNew-without : (v w : Vaddr) (out : List (Vaddr × ℕ)) → IsNew v out → IsNew v (without w out)
  IsNew-without v w [] new = tt
  IsNew-without v w ((u, k) ∷ us) (ne, new) = elim (Bool-cases (eq_adb_addr u w)) [
    | inl here ↦ rw here new
    | inr away ↦ rw away (ne, IsNew-without v w us new)
  ]

  keep_rest :
      (w : Vaddr) (out : List (Vaddr × ℕ))
      → ((u : Vaddr) (k : ℕ) → Live ms u k → eq_adb_addr u w ≡ false → Live ms' u k)
      → AllLive ms out
      → AllLive ms' (without w out)
  keep_rest w [] keeps all = tt
  keep_rest w ((u, k) ∷ us) keeps (l, fresh, all) = elim (Bool-cases (eq_adb_addr u w)) [
    | inl here ↦
        let same : u ≡ w = ground arith in
        rw here (keep_all w us keeps (subst (λ x. IsNew x us) same fresh) all)
    | inr away ↦
        rw away
          (keeps u (k + header_size) l away, IsNew-without u w us fresh, keep_rest w us keeps all)
  ]

-- An address that no live one equals is not on the list.
IsNew-of :
    (ms : MemSpace) (w : Vaddr) (out : List (Vaddr × ℕ))
    → ((u : Vaddr) (k : ℕ) → Live ms u k → eq_adb_addr u w ≡ false)
    → AllLive ms out
    → IsNew w out
IsNew-of ms w [] fresh all = tt
IsNew-of ms w ((u, k) ∷ us) fresh (l, _, all) =
    (fresh u (k + header_size) l, IsNew-of ms w us fresh all)

seeded-IsValid :
    (ms : MemSpace) (start seed adb_t_cap mb_m_bytes : ℕ)
    → mb_m_bytes < 2 ^ 63
    → new_mem_space_seed start seed adb_t_cap mb_m_bytes ≡ made ms
    → IsValid ms
unfolding new_mem_space_seed
seeded-IsValid ms start seed zero n small e =
    let (no_book, _) = new_addr_book-IsValid zero in absurd (ground arith)
seeded-IsValid ms start seed (suc c) n small e =
    let (_, with_book) = new_addr_book-IsValid (suc c) in
    let (adb, made_book, valid, _, _) = with_book (omega arith) in
    let seeded_space : MemSpace = record {
      adb = adb;
      mb_min_bytes = n;
      seed = seed;
      mb_list_cap = 2;
      mb_list = new_mem_block start n ∷ [];
      owners = [];
    } in
    let same : seeded_space ≡ ms = ground arith in
    subst IsValid same (record {
      book = valid;
      some_block = omega arith;
      in_cap = omega arith;
      blocks = first_block;
    })
  where
    first_block : (i : ℕ) → i < 1 → IsValidBlock (get_or (new_mem_block start n ∷ []) i no_block)
    first_block zero lt = (new_mem_block-IsValid start n small).0
    first_block (suc i) lt = absurd (omega arith)

Calls-AllLive :
    (ms : MemSpace) (out : List (Vaddr × ℕ)) → Calls ms out → IsValid ms × AllLive ms out
Calls-AllLive ms out (seeded ms₀ start seed cap n small e) =
    (seeded-IsValid ms₀ start seed cap n small e, tt)
Calls-AllLive ms out (malloc_call ms₀ ms' out₀ start n r run room min_small small few ne e) =
    let (v, all) = Calls-AllLive ms₀ out₀ run in
    let (r', ms'', e', g) = (ms_malloc_p_lem start ms₀ n false v room min_small small few).1 ne in
    let same_res : r' ≡ r = cc in
    let same : ms'' ≡ ms' = cc in
    let m : ℕ = n + header_size in
    let now : IsValid ms'' × AllLive ms'' ((r'.vaddr, n) ∷ out₀) = (
      g.valid,
      (
        Given-Live ms₀ start m r' ms'' g,
        IsNew-of ms₀ r'.vaddr out₀ (Given-fresh ms₀ start m r' ms'' g) all,
        keep_all ms₀ ms'' r'.vaddr out₀ (λ u k l _. Given-keeps ms₀ start m r' ms'' g u k l)
            (IsNew-of ms₀ r'.vaddr out₀ (Given-fresh ms₀ start m r' ms'' g) all) all,
      ),
    ) in
    subst (λ x. IsValid x × AllLive x ((r.vaddr, n) ∷ out₀)) same
      (subst (λ (x : MallocRes). IsValid ms'' × AllLive ms'' ((x.vaddr, n) ∷ out₀)) same_res now)
Calls-AllLive ms out (free_call ms₀ ms' out₀ w n run on e) =
    let (v, all) = Calls-AllLive ms₀ out₀ run in
    let l = Live-In ms₀ out₀ w n all on in
    let (ms'', e', v', g) = ms_free-Live ms₀ v w (n + header_size) l in
    let same : ms'' ≡ ms' = cc in
    subst (λ x. IsValid x × AllLive x (without w out₀)) same
      (
        v',
        keep_rest ms₀ ms'' w out₀
            (λ u k m other. GivenBack-keeps ms₀ v w (n + header_size) l ms'' g u k m other) all,
      )

-- After any calls of `ms_malloc_p` without hold and of `ms_free` on a new space, in any order, the space is valid,
-- and each address that was given out and not taken back is live, as `Live` says: its piece has room for
-- the bytes that were asked for and for the header. `ms_free` of it returns a valid space, to which it is given
-- back as `GivenBack` says. (A block of the space has a least size below 2 ^ 63, and `ms_malloc_p` is called under the
-- bounds of its theorem.)
pub ms_free-Calls :
    (ms : MemSpace) (out : List (Vaddr × ℕ))
    → Calls ms out
    → IsValid ms
      × ((w : Vaddr) (n : ℕ)
          → In (w, n) out
          → (l : Live ms w (n + header_size)) × (ms' : MemSpace) × (ms_free ms w ≡ ok ms')
            × IsValid ms'
            × GivenBack ms w (n + header_size) l ms')
ms_free-Calls ms out run =
    let (v, all) = Calls-AllLive ms out run in
    (
      v,
      λ w n on.
          let l = Live-In ms out w n all on in
          let (ms', freed, valid, back) = ms_free-Live ms v w (n + header_size) l in
          (l, ms', freed, valid, back),
    )
