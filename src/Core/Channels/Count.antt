-- ===== src/Core/Channels/Count.antt =====
-- core_src/mem.c: the counters say how many pieces are live.
use chvm.Base.{
  ℕ, zero, suc, ◌+◌, ◌-◌, ◌%◌, ◌≤◌, ◌<◌, ◌≡◌, refl, sym, ap, ◌∙◌, ◌≢◌, ◌↔◌, ◌⊎◌, inl, inr, true,
  Option, none, some, List, [], ◌∷◌, arith, ltb, ◌==◌, if◌then◌else◌, get_or, set, length, In,
  replicate, get_or-replicate, get_or_past, get_or-set, length-set, Bool-cases, Option-cases,
}
use mathlib.Core.Path.{subst}
use chvm.Base.Result.{ok}
use chvm.Core.Channels.{
  Heap, uint64_size, chnl_of, drop_piece, try_safe_malloc, try_safe_realloc, safe_malloc,
  safe_realloc, safe_free, leaks_from, check_memory_leaks,
}

-- The live pieces of a channel.
abbrev pub count : ℕ → List (ℕ × ℕ) → ℕ
count c [] = 0
count c ((p, chnl) ∷ ps) = if chnl == c then suc (count c ps) else count c ps

-- Each counter is the number of live pieces of its channel, up to the wrap of the counter.
pub record IsCounted (h : Heap) : Type 0 where
  pub counted :
      (c : ℕ) → c < length h.mem_chnls → get_or h.mem_chnls c 0 ≡ count c h.pieces % uint64_size
  pub in_range : (p c : ℕ) → In (p, c) h.pieces → c < length h.mem_chnls

-- Calls in any order, whatever malloc and realloc answer.
pub data Calls (h : Heap) : Heap → Type 0 where
  no_call : Calls h h
  malloc_call :
      {g k : Heap} (answer : Option ℕ) (chnl ptr : ℕ)
      → Calls h g
      → safe_malloc answer chnl g ≡ ok (ptr, k)
      → Calls h k
  realloc_call :
      {g k : Heap} (answer : Option ℕ) (ptr new_ptr : ℕ)
      → Calls h g
      → safe_realloc answer ptr g ≡ ok (new_ptr, k)
      → Calls h k
  free_call : {g k : Heap} (ptr : ℕ) → Calls h g → safe_free ptr g ≡ ok k → Calls h k

count-drop_piece :
    (ptr c chnl : ℕ) (ps : List (ℕ × ℕ))
    → chnl_of ptr ps ≡ some chnl
    → count c ps
      ≡ (if chnl == c then suc (count c (drop_piece ptr ps)) else count c (drop_piece ptr ps))
unfolding drop_piece
count-drop_piece ptr c chnl [] e = cc
count-drop_piece ptr c chnl ((p, d) ∷ ps) e = elim (Bool-cases (p == ptr)) [
  | inl here ↦ ground arith
  | inr further ↦ ground (arith, count-drop_piece ptr c chnl ps)
]

In-drop_piece : (ptr p c : ℕ) (ps : List (ℕ × ℕ)) → In (p, c) (drop_piece ptr ps) → In (p, c) ps
unfolding drop_piece
In-drop_piece ptr p c [] m = m
In-drop_piece ptr p c ((q, d) ∷ ps) m = elim (Bool-cases (q == ptr)) [
  | inl here ↦ inr (rw here at m)
  | inr further ↦ ground (arith, In-drop_piece ptr p c ps)
]

In-chnl_of : (ptr c : ℕ) (ps : List (ℕ × ℕ)) → chnl_of ptr ps ≡ some c → In (ptr, c) ps
In-chnl_of ptr c [] e = cc
In-chnl_of ptr c ((q, d) ∷ ps) e = ground (arith, In-chnl_of ptr c ps)

module _ (g : Heap) (i : IsCounted g) where
  abbrev added : ℕ → ℕ → Heap
  added ptr chnl = record {
    mem_chnls = set g.mem_chnls chnl ((get_or g.mem_chnls chnl 0 + 1) % uint64_size);
    pieces = (ptr, chnl) ∷ g.pieces;
  }

  added-IsCounted : (ptr chnl : ℕ) → chnl < length g.mem_chnls → IsCounted (added ptr chnl)
  added-IsCounted ptr chnl lt =
      let size = length-set g.mem_chnls chnl ((get_or g.mem_chnls chnl 0 + 1) % uint64_size) in
      record {
        counted = λ c h.
            let at =
              get_or-set g.mem_chnls chnl c ((get_or g.mem_chnls chnl 0 + 1) % uint64_size) 0 lt in
            elim (Bool-cases (chnl == c)) [
              | inl here ↦
                  let same : chnl ≡ c = ground arith in
                  let old : get_or g.mem_chnls chnl 0 ≡ count c g.pieces % uint64_size =
                    ground (arith, i.counted c) in
                  let new : (count c g.pieces % uint64_size + 1) % uint64_size
                      ≡ suc (count c g.pieces) % uint64_size =
                    omega arith in
                  ground arith
              | inr other ↦ ground (arith, i.counted c)
            ];
        in_range = λ p c m. ground (arith, i.in_range p c);
      }

  abbrev freed : ℕ → ℕ → Heap
  freed ptr chnl = record {
    mem_chnls =
        set g.mem_chnls chnl ((get_or g.mem_chnls chnl 0 + (uint64_size - 1)) % uint64_size);
    pieces = drop_piece ptr g.pieces;
  }

  freed-IsCounted : (ptr chnl : ℕ) → chnl_of ptr g.pieces ≡ some chnl → IsCounted (freed ptr chnl)
  freed-IsCounted ptr chnl e =
      let lt = i.in_range ptr chnl (In-chnl_of ptr chnl g.pieces e) in
      let v : ℕ = (get_or g.mem_chnls chnl 0 + (uint64_size - 1)) % uint64_size in
      let size = length-set g.mem_chnls chnl v in
      record {
        counted = λ c h.
            let at = get_or-set g.mem_chnls chnl c v 0 lt in
            let less = count-drop_piece ptr c chnl g.pieces e in
            elim (Bool-cases (chnl == c)) [
              | inl here ↦
                  let same : chnl ≡ c = ground arith in
                  let old : get_or g.mem_chnls chnl 0 ≡ count c g.pieces % uint64_size =
                    ground (arith, i.counted c) in
                  let one : count c g.pieces ≡ suc (count c (drop_piece ptr g.pieces)) =
                    ground arith in
                  let new : (count c g.pieces % uint64_size + (uint64_size - 1)) % uint64_size
                      ≡ count c (drop_piece ptr g.pieces) % uint64_size =
                    omega arith in
                  ground arith
              | inr other ↦ ground (arith, i.counted c)
            ];
        in_range = λ p c m. omega (arith, i.in_range p c (In-drop_piece ptr p c g.pieces m));
      }

  abbrev replaced : ℕ → ℕ → ℕ → Heap
  replaced ptr new_ptr chnl = record g { pieces = (new_ptr, chnl) ∷ drop_piece ptr g.pieces }

  replaced-IsCounted :
      (ptr new_ptr chnl : ℕ)
      → chnl_of ptr g.pieces ≡ some chnl
      → IsCounted (replaced ptr new_ptr chnl)
  replaced-IsCounted ptr new_ptr chnl e = record {
    counted = λ c h. ground (arith, count-drop_piece ptr c chnl g.pieces e, i.counted c h);
    in_range = λ p c m. elim m [
      | inl new ↦ ground (arith, i.in_range ptr chnl (In-chnl_of ptr chnl g.pieces e))
      | inr old ↦ i.in_range p c (In-drop_piece ptr p c g.pieces old)
    ];
  }

  malloc-IsCounted :
      (answer : Option ℕ) (chnl ptr : ℕ) (k : Heap)
      → safe_malloc answer chnl g ≡ ok (ptr, k)
      → IsCounted k
  unfolding safe_malloc try_safe_malloc
  malloc-IsCounted none chnl ptr k run = cc
  malloc-IsCounted (some raw) chnl ptr k run = elim (Bool-cases (ltb chnl (length g.mem_chnls))) [
    | inl inside ↦
        let same : added (raw + 1) chnl ≡ k = ground arith in
        subst IsCounted same (added-IsCounted (raw + 1) chnl (ground arith))
    | inr past ↦ absurd (ground arith)
  ]

  free-IsCounted : (ptr : ℕ) (k : Heap) → safe_free ptr g ≡ ok k → IsCounted k
  unfolding safe_free
  free-IsCounted ptr k run = elim (Option-cases (chnl_of ptr g.pieces)) [
    | inl gone ↦ absurd (ground arith)
    | inr (chnl, e) ↦
        let lt = i.in_range ptr chnl (In-chnl_of ptr chnl g.pieces e) in
        let same : freed ptr chnl ≡ k = ground arith in
        subst IsCounted same (freed-IsCounted ptr chnl e)
  ]

  realloc-IsCounted :
      (answer : Option ℕ) (ptr new_ptr : ℕ) (k : Heap)
      → safe_realloc answer ptr g ≡ ok (new_ptr, k)
      → IsCounted k
  unfolding safe_realloc try_safe_realloc
  realloc-IsCounted answer ptr new_ptr k run = elim (Option-cases (chnl_of ptr g.pieces)) [
    | inl gone ↦ absurd (ground arith)
    | inr (chnl, e) ↦ elim (Option-cases answer) [
      | inl full ↦ absurd (ground arith)
      | inr (raw, got) ↦
          let same : replaced ptr (raw + 1) chnl ≡ k = ground arith in
          subst IsCounted same (replaced-IsCounted ptr (raw + 1) chnl e)
    ]
  ]

Calls-IsCounted : (h k : Heap) → IsCounted h → Calls h k → IsCounted k
Calls-IsCounted h k i no_call = i
Calls-IsCounted h k i (malloc_call {g = g} answer chnl ptr run e) =
    malloc-IsCounted g (Calls-IsCounted h g i run) answer chnl ptr k e
Calls-IsCounted h k i (realloc_call {g = g} answer ptr new_ptr run e) =
    realloc-IsCounted g (Calls-IsCounted h g i run) answer ptr new_ptr k e
Calls-IsCounted h k i (free_call {g = g} ptr run e) =
    free-IsCounted g (Calls-IsCounted h g i run) ptr k e

abbrev HasLeak : ℕ → List ℕ → Type 0
HasLeak lb ns = (c : ℕ) × (lb ≤ c) × (get_or ns c 0 ≢ 0)

HasLeak-tail :
    (lb n : ℕ) (ns : List ℕ) → (n ≡ 0) ⊎ (0 < lb) → HasLeak lb (n ∷ ns) → HasLeak (lb - 1) ns
HasLeak-tail lb n ns skip (zero, le, ne) = absurd (ground arith)
HasLeak-tail lb n ns skip (suc c, le, ne) = (c, omega arith, ne)

leaks_from_lem : (lb : ℕ) (ns : List ℕ) → (leaks_from lb ns ≡ true) ↔ HasLeak lb ns
unfolding leaks_from
leaks_from_lem lb [] = (λ e. cc, λ (c, _, ne). absurd (ne refl))
leaks_from_lem zero (n ∷ ns) = elim (Bool-cases (n == 0)) [
  | inl none_here ↦ (
    λ e.
        let rest : leaks_from zero ns ≡ true = rw none_here at e in
        let (c, le, ne) = (leaks_from_lem zero ns).0 rest in (suc c, omega arith, ne),
    λ l. rw none_here ((leaks_from_lem zero ns).1 (HasLeak-tail 0 n ns (inl (ground arith)) l)),
  )
  | inr here ↦ (λ e. (0, omega arith, λ z. ground arith), λ l. rw here refl)
]
leaks_from_lem (suc lb) (n ∷ ns) = (
  λ e. let (c, le, ne) = (leaks_from_lem lb ns).0 e in (suc c, omega arith, ne),
  λ l.
      let tail : HasLeak (suc lb - 1) ns = HasLeak-tail (suc lb) n ns (inr (omega arith)) l in
      (leaks_from_lem lb ns).1 (rw pred_suc at tail),
)
  where
    pred_suc : suc lb - 1 ≡ lb
    pred_suc = omega arith

count_le_length : (c : ℕ) (ps : List (ℕ × ℕ)) → count c ps ≤ length ps
count_le_length c [] = omega arith
count_le_length c ((p, d) ∷ ps) = ground (arith, count_le_length c ps)

count_pos_iff : (c : ℕ) (ps : List (ℕ × ℕ)) → (count c ps ≢ 0) ↔ ((p : ℕ) × In (p, c) ps)
count_pos_iff c [] = (λ ne. absurd (ne refl), λ (p, m). absurd m)
count_pos_iff c ((q, d) ∷ ps) = elim (Bool-cases (d == c)) [
  | inl here ↦ (
    λ ne. let same : d ≡ c = ground arith in (q, inl (ap (λ n. (q, n)) (sym same))),
    λ m z. ground arith,
  )
  | inr other ↦ (
    λ ne.
        let more : count c ps ≢ 0 = ground arith in
        let (p, m) = (count_pos_iff c ps).0 more in (p, inr m),
    λ (p, m).
        let more : In (p, c) ps = ground arith in
        let ne = (count_pos_iff c ps).1 (p, more) in ground arith,
  )
]

-- The channels after `init_core_state`, were their counters set to 0.
abbrev pub fresh : ℕ → Heap
fresh nmcs = record { mem_chnls = replicate nmcs 0; pieces = [] }

fresh-IsCounted : (n : ℕ) → IsCounted (fresh n)
fresh-IsCounted n = record { counted = λ c h. get_or-replicate n c 0; in_range = λ p c m. absurd m }

-- Start with the counters of the channels at 0 and call `safe_malloc`, `safe_realloc` and `safe_free` in any order,
-- whatever malloc and realloc answer, as long as fewer than 2 ^ 64 pieces are live. Then the counter of each
-- channel is the number of its live pieces, and `check_memory_leaks` answers true exactly when a live piece is in
-- a channel from `lb` on.
pub check_memory_leaks_lem :
    (nmcs lb : ℕ) (h : Heap)
    → Calls (fresh nmcs) h
    → length h.pieces < uint64_size
    → ((c : ℕ) → c < length h.mem_chnls → get_or h.mem_chnls c 0 ≡ count c h.pieces)
      × ((check_memory_leaks lb h ≡ true) ↔ ((p : ℕ) × (c : ℕ) × In (p, c) h.pieces × (lb ≤ c)))
unfolding check_memory_leaks
check_memory_leaks_lem nmcs lb h run few =
    let i = Calls-IsCounted (fresh nmcs) h (fresh-IsCounted nmcs) run in
    let exact : (c : ℕ) → c < length h.mem_chnls → get_or h.mem_chnls c 0 ≡ count c h.pieces =
      λ c lt. omega (arith, i.counted c lt, count_le_length c h.pieces) in
    (
      exact,
      (
        λ e.
            let (c, le, ne) = (leaks_from_lem lb h.mem_chnls).0 e in
            let lt : c < length h.mem_chnls = ground (arith, get_or_past h.mem_chnls c 0) in
            let (p, m) = (count_pos_iff c h.pieces).0 (λ z. ne (exact c lt ∙ z)) in (p, c, m, le),
        λ (p, c, m, le).
            let lt = i.in_range p c m in
            (leaks_from_lem lb h.mem_chnls).1
              (c, le, λ z. (count_pos_iff c h.pieces).1 (p, m) (omega (arith, exact c lt))),
      ),
    )
