-- ===== src/AddrBook/Links.antt =====
-- The doubly linked list of the tables that have a free cell: what pushing, unlinking and changing
-- a table do to the links.
use chvm.Base.{
  ℕ, zero, suc, ◌+◌, ◌≤◌, ◌<◌, ◌≡◌, refl, ◌≢◌, ◌↔◌, true, false, inl, inr, List, arith, ◌==◌,
  if◌then◌else◌, length, get_or, length-set, get_or-set, ◌∷◌, [], ◌++◌, get_or-concat, Bool-cases,
}
use chvm.AddrTable.{AddrTable}
use chvm.AddrBook.{
  AddrBook, Entry, entry_at, set_entry, no_entry, adb_null_index, book_len, set_adt, set_prev,
  unsafe_adb_push_free_list, unlink, bypass_next, bypass_prev,
}

abbrev pub Listed : AddrBook → ℕ → Type 0
Listed b i = (entry_at b i).in_free_list ≡ true

-- The links are those of one list without a cycle: the neighbours point at one another, an entry
-- with no predecessor is the head, and a number falls from the head on.
pub record IsLinked (b : AddrBook) : Type 0 where
  pub rank : ℕ → ℕ
  pub bound : ℕ
  pub ranked : (i : ℕ) → Listed b i → rank i < bound
  pub falls :
      (i : ℕ)
      → Listed b i
      → (entry_at b i).prev ≢ adb_null_index
      → rank i < rank (entry_at b i).prev
  pub next_link :
      (i : ℕ)
      → Listed b i
      → (entry_at b i).next ≢ adb_null_index
      → Listed b (entry_at b i).next × ((entry_at b (entry_at b i).next).prev ≡ i)
  pub prev_link :
      (i : ℕ)
      → Listed b i
      → (entry_at b i).prev ≢ adb_null_index
      → Listed b (entry_at b i).prev × ((entry_at b (entry_at b i).prev).next ≡ i)
  pub first : (i : ℕ) → Listed b i → (entry_at b i).prev ≡ adb_null_index → b.free_list ≡ i
  pub head :
      b.free_list ≢ adb_null_index
      → Listed b b.free_list × ((entry_at b b.free_list).prev ≡ adb_null_index)

pub Listed-lt : (b : AddrBook) (i : ℕ) → Listed b i → i < book_len b
Listed-lt b i h = below b.book i h
  where
    below : (es : List Entry) (i : ℕ) → (get_or es i no_entry).in_free_list ≡ true → i < length es
    below [] i h = cc
    below (e ∷ es) zero h = omega arith
    below (e ∷ es) (suc i) h = omega (arith, below es i h)

pub entry_at-set :
    (b : AddrBook) (i j : ℕ) (e : Entry)
    → i < book_len b
    → entry_at (set_entry b i e) j ≡ (if i == j then e else entry_at b j)
entry_at-set b i j e h = get_or-set b.book i j e no_entry h

-- Some entry is in the list only if the list has a head: going back from it ends at the head.
pub free_list-ne-null :
    (b : AddrBook) (i : ℕ)
    → book_len b ≤ adb_null_index
    → IsLinked b
    → Listed b i
    → b.free_list ≢ adb_null_index
free_list-ne-null b i small l h = back l.bound i (omega arith) h
  where
    back : (n i : ℕ) → l.bound ≤ n + l.rank i → Listed b i → b.free_list ≢ adb_null_index
    back zero i m h = absurd (omega (arith, l.ranked i h))
    back (suc n) i m h = elim (Bool-cases ((entry_at b i).prev == adb_null_index)) [
      | inl front ↦ omega (arith, Listed-lt b i h, l.first i h (ground arith))
      | inr behind ↦
          let ne : (entry_at b i).prev ≢ adb_null_index = ground arith in
          back n (entry_at b i).prev (omega (arith, l.falls i h ne)) (l.prev_link i h ne).0
    ]

-- The entries after a push: the new head, its successor, and the rest.
abbrev pub pushed : AddrBook → ℕ → Entry
pushed b i = record (entry_at b i) {
  prev = adb_null_index;
  next = b.free_list;
  in_free_list = true;
}

module _ (b : AddrBook) (i : ℕ) (small : book_len b ≤ adb_null_index) (l : IsLinked b)
    (inside : i < book_len b) (off : (entry_at b i).in_free_list ≡ false) where
  abbrev f : ℕ
  f = b.free_list

  pub entry_at-push :
      (j : ℕ)
      → entry_at (unsafe_adb_push_free_list b i) j ≡ (
          if i == j
          then pushed b i
          else if b.free_list == adb_null_index
          then entry_at b j
          else if b.free_list == j
          then record (entry_at b j) { prev = i }
          else entry_at b j)
  unfolding unsafe_adb_push_free_list
  entry_at-push j = elim (Bool-cases (b.free_list == adb_null_index)) [
    | inl none_yet ↦ rw none_yet (entry_at-set b i j (pushed b i) inside)
    | inr some_head ↦ rw some_head (
        ground (
          arith,
          l.head,
          Listed-lt b f,
          entry_at-set b f i (record (entry_at b f) { prev = i }),
          entry_at-set b f j (record (entry_at b f) { prev = i }),
          entry_at-set (set_prev b f i) i j (record (entry_at (set_prev b f i) i) {
            prev = adb_null_index;
            next = f;
            in_free_list = true;
          }),
          length-set b.book f (record (entry_at b f) { prev = i }),
        ))
  ]

  free_list-push : (unsafe_adb_push_free_list b i).free_list ≡ i
  unfolding unsafe_adb_push_free_list
  free_list-push = refl

  pub push-IsLinked : IsLinked (unsafe_adb_push_free_list b i)
  push-IsLinked = record {
    rank = λ j. if i == j then l.bound else l.rank j;
    bound = suc l.bound;
    ranked = λ j h. ground (arith, entry_at-push j, l.ranked j);
    falls = λ j h ne. ground (arith, entry_at-push j, l.falls j, l.ranked j);
    next_link = λ j h ne. ground (
      arith,
      entry_at-push j,
      entry_at-push (entry_at (unsafe_adb_push_free_list b i) j).next,
      l.head,
      l.next_link j,
      Listed-lt b j,
    );
    prev_link = λ j h ne. ground (
      arith,
      entry_at-push j,
      entry_at-push (entry_at b j).prev,
      entry_at-push i,
      l.head,
      l.prev_link j,
      l.first j,
    );
    first = λ j h e. ground (arith, entry_at-push j, l.first j, free_list-push, Listed-lt b j);
    head = λ ne. ground (arith, entry_at-push i, free_list-push);
  }

entry_at-bypass_next :
    (b : AddrBook) (e : Entry) (j : ℕ)
    → (e.prev ≢ adb_null_index → e.prev < book_len b)
    → entry_at (bypass_next b e) j ≡ (
        if e.prev == adb_null_index
        then entry_at b j
        else if e.prev == j
        then record (entry_at b j) { next = e.next }
        else entry_at b j)
unfolding bypass_next
entry_at-bypass_next b e j h =
    ground (arith, entry_at-set b e.prev j (record (entry_at b e.prev) { next = e.next }))

entry_at-bypass_prev :
    (b : AddrBook) (e : Entry) (j : ℕ)
    → (e.next ≢ adb_null_index → e.next < book_len b)
    → entry_at (bypass_prev b e) j ≡ (
        if e.next == adb_null_index
        then entry_at b j
        else if e.next == j
        then record (entry_at b j) { prev = e.prev }
        else entry_at b j)
unfolding bypass_prev
entry_at-bypass_prev b e j h =
    ground (arith, entry_at-set b e.next j (record (entry_at b e.next) { prev = e.prev }))

pub book_len-bypass_next : (b : AddrBook) (e : Entry) → book_len (bypass_next b e) ≡ book_len b
unfolding bypass_next
book_len-bypass_next b e =
    ground (arith, length-set b.book e.prev (record (entry_at b e.prev) { next = e.next }))

pub book_len-bypass_prev : (b : AddrBook) (e : Entry) → book_len (bypass_prev b e) ≡ book_len b
unfolding bypass_prev
book_len-bypass_prev b e =
    ground (arith, length-set b.book e.next (record (entry_at b e.next) { prev = e.prev }))

-- The entries after `unlink b i`: `i` is out of the list, and its neighbours point at one another.
module _ (b : AddrBook) (i : ℕ) (small : book_len b ≤ adb_null_index) (l : IsLinked b)
    (on : Listed b i) where
  abbrev n : ℕ
  n = (entry_at b i).next

  abbrev p : ℕ
  p = (entry_at b i).prev

  abbrev unlinked : ℕ → Entry
  unlinked j =
      let before =
        if p == adb_null_index
        then entry_at b j
        else if p == j
        then record (entry_at b j) { next = n }
        else entry_at b j in
      if n == adb_null_index then before else if n == j then record before { prev = p } else before

  abbrev middle : AddrBook
  middle = bypass_prev (bypass_next b (entry_at b i)) (entry_at b i)

  entry_at-middle : (j : ℕ) → entry_at middle j ≡ unlinked j
  entry_at-middle j = ground (
    arith,
    entry_at-bypass_next b (entry_at b i) j,
    entry_at-bypass_prev (bypass_next b (entry_at b i)) (entry_at b i) j,
    book_len-bypass_next b (entry_at b i),
    l.next_link i,
    l.prev_link i,
    Listed-lt b n,
    Listed-lt b p,
  )

  pub entry_at-unlink :
      (j : ℕ)
      → entry_at (unlink b i) j ≡ (
          if i == j
          then record (unlinked i) {
            prev = adb_null_index;
            next = adb_null_index;
            in_free_list = false;
          }
          else unlinked j)
  unfolding unlink
  entry_at-unlink j = ground (
    arith,
    entry_at-middle j,
    entry_at-middle i,
    Listed-lt b i,
    book_len-bypass_next b (entry_at b i),
    book_len-bypass_prev (bypass_next b (entry_at b i)) (entry_at b i),
    entry_at-set middle i j (record (entry_at middle i) {
      prev = adb_null_index;
      next = adb_null_index;
      in_free_list = false;
    }),
  )

  pub free_list-unlink : (unlink b i).free_list ≡ (if p == adb_null_index then n else b.free_list)
  unfolding unlink bypass_next bypass_prev
  free_list-unlink = ground arith

  pub adt-unlink : (j : ℕ) → (entry_at (unlink b i) j).adt ≡ (entry_at b j).adt
  adt-unlink j = ground (arith, entry_at-unlink j)

  pub Listed-unlink : (j : ℕ) → Listed (unlink b i) j ↔ (Listed b j × (j ≢ i))
  Listed-unlink j = ground (arith, entry_at-unlink j)

  pub unlink-IsLinked : IsLinked (unlink b i)
  unlink-IsLinked = record {
    rank = l.rank;
    bound = l.bound;
    ranked = λ j h. ground (arith, Listed-unlink j, l.ranked j);
    falls = λ j h ne. ground (
      arith,
      Listed-unlink j,
      entry_at-unlink j,
      l.falls j,
      l.falls i,
      l.next_link i,
      l.prev_link j,
      Listed-lt b i,
      Listed-lt b j,
    );
    next_link = λ j h ne.
        let m : ℕ = (entry_at (unlink b i) j).next in
        ground (
          arith,
          Listed-unlink j,
          entry_at-unlink j,
          Listed-unlink m,
          entry_at-unlink m,
          l.next_link j,
          l.next_link i,
          l.prev_link i,
          Listed-lt b j,
          l.falls n,
          l.falls i,
        );
    prev_link = λ j h ne.
        let m : ℕ = (entry_at (unlink b i) j).prev in
        ground (
          arith,
          Listed-unlink j,
          entry_at-unlink j,
          Listed-unlink m,
          entry_at-unlink m,
          l.prev_link j,
          l.prev_link i,
          l.next_link i,
          Listed-lt b j,
          l.falls n,
          l.falls i,
        );
    first = λ j h e. ground (
      arith,
      Listed-unlink j,
      entry_at-unlink j,
      free_list-unlink,
      l.first j,
      l.next_link i,
      l.prev_link j,
      l.first i,
    );
    head = λ ne. ground (
      arith,
      entry_at-unlink (unlink b i).free_list,
      free_list-unlink,
      l.head,
      l.next_link i,
      l.prev_link i,
      l.falls n,
      Listed-lt b i,
    );
  }

-- To change a table leaves the links alone.
module _ (b : AddrBook) (i : ℕ) (t : AddrTable) (inside : i < book_len b) where
  pub entry_at-set_adt :
      (j : ℕ)
      → entry_at (set_adt b i t) j
        ≡ (if i == j then record (entry_at b j) { adt = t } else entry_at b j)
  entry_at-set_adt j = ground (arith, entry_at-set b i j (record (entry_at b i) { adt = t }))

  pub set_adt-IsLinked : IsLinked b → IsLinked (set_adt b i t)
  set_adt-IsLinked l = record {
    rank = l.rank;
    bound = l.bound;
    ranked = λ j h. ground (arith, entry_at-set_adt j, l.ranked j);
    falls = λ j h ne. ground (arith, entry_at-set_adt j, l.falls j);
    next_link = λ j h ne.
        ground (arith, entry_at-set_adt j, entry_at-set_adt (entry_at b j).next, l.next_link j);
    prev_link = λ j h ne.
        ground (arith, entry_at-set_adt j, entry_at-set_adt (entry_at b j).prev, l.prev_link j);
    first = λ j h e. ground (arith, entry_at-set_adt j, l.first j);
    head = λ ne. ground (arith, entry_at-set_adt b.free_list, l.head);
  }

-- A new entry at the end that is not in the list leaves the links alone.
module _ (b : AddrBook) (e : Entry) (cap : ℕ) (off : e.in_free_list ≡ false) where
  abbrev pub grown : AddrBook
  grown = record b { book_cap = cap; book = b.book ++ e ∷ [] }

  pub entry_at-grown : (j : ℕ) → entry_at grown j ≡ (if book_len b == j then e else entry_at b j)
  entry_at-grown j = get_or-concat b.book e j no_entry

  pub grown-IsLinked : IsLinked b → IsLinked grown
  grown-IsLinked l = record {
    rank = l.rank;
    bound = l.bound;
    ranked = λ j h. ground (arith, entry_at-grown j, l.ranked j);
    falls = λ j h ne. ground (arith, entry_at-grown j, l.falls j);
    next_link = λ j h ne. ground (
      arith,
      entry_at-grown j,
      entry_at-grown (entry_at b j).next,
      l.next_link j,
      Listed-lt b (entry_at b j).next,
    );
    prev_link = λ j h ne. ground (
      arith,
      entry_at-grown j,
      entry_at-grown (entry_at b j).prev,
      l.prev_link j,
      Listed-lt b (entry_at b j).prev,
    );
    first = λ j h e. ground (arith, entry_at-grown j, l.first j);
    head = λ ne. ground (arith, entry_at-grown b.free_list, l.head, Listed-lt b b.free_list);
  }
