-- ===== src/Page/Alloc.antt =====
-- alloc_pages and free_pages of kernel/page.c against the map of pages.
use dmaos.Base.{
  ℕ, zero, suc, ◌+◌, ◌≤◌, ◌<◌, ◌≡◌, refl, ◌≢◌, inl, inr, Bool-cases, Option-cases, ltb, leb, ◌==◌,
  Bool, true, false, ◌&&◌, none, some, arith, subst, sym, sub32,
}
use native.Mathlib.Decide.{dec_lt}
use dmaos.Machine.{Kernel, ok, panic}
use dmaos.Machine.Consts.{num_pages}
use dmaos.Page.{
  run_free, first_run, mark_pages, alloc_pages, free_pages, page_addr, taken, page_index,
}

-- The `n` pages from page `i` on are free.
abbrev pub IsFree : (ℕ → Bool) → ℕ → ℕ → Type 0
IsFree table i n = (j : ℕ) → i ≤ j → j < i + n → table j ≡ false

run_free→IsFree : (table : ℕ → Bool) (i n : ℕ) → run_free table i n ≡ true → IsFree table i n
unfolding run_free
run_free→IsFree table i zero h j p q = absurd (omega arith)
run_free→IsFree table i (suc n) h j p q = elim (Bool-cases (i == j)) [
  | inl e ↦ ground arith
  | inr ne ↦
      ground (arith, run_free→IsFree table (i + 1) n (ground arith) j (ground arith) (omega arith))
]

IsFree→run_free : (table : ℕ → Bool) (i n : ℕ) → IsFree table i n → run_free table i n ≡ true
unfolding run_free
IsFree→run_free table i zero h = refl
IsFree→run_free table i (suc n) h = ground (
  arith,
  h i (omega arith) (omega arith),
  IsFree→run_free table (i + 1) n (λ j p q. h j (omega arith) (omega arith)),
)

first_run-some :
    (table : ℕ → Bool) (n rounds i r : ℕ)
    → first_run table n rounds i ≡ some r
    → (i ≤ r)
      × (r < i + rounds)
      × (run_free table r n ≡ true)
      × ((j : ℕ) → i ≤ j → j < r → run_free table j n ≡ false)
unfolding first_run
first_run-some table n zero i r h = cc
first_run-some table n (suc rounds) i r h = elim (Bool-cases (run_free table i n)) [
  | inl e ↦
      let r' : i ≡ r = ground arith in
      (
        omega arith,
        omega arith,
        subst (λ x. run_free table x n ≡ true) r' e,
        λ j p q. absurd (omega arith),
      )
  | inr e ↦
      let ih = first_run-some table n rounds (i + 1) r (ground arith) in
      (
        omega arith,
        omega arith,
        ih.2,
        λ j p q. elim (Bool-cases (i == j)) [
          | inl s ↦ let s' : i ≡ j = ground arith in subst (λ x. run_free table x n ≡ false) s' e
          | inr s ↦ ih.3 j (ground arith) q
        ],
      )
]

first_run-ne-none :
    (table : ℕ → Bool) (n rounds i j : ℕ)
    → i ≤ j
    → j < i + rounds
    → run_free table j n ≡ true
    → first_run table n rounds i ≢ none
unfolding first_run
first_run-ne-none table n zero i j p q h = absurd (omega arith)
first_run-ne-none table n (suc rounds) i j p q h = elim (dec_lt i j) [
  | yes lt ↦
      ground (arith, first_run-ne-none table n rounds (i + 1) j (omega arith) (omega arith) h)
  | no ge ↦
      let e : j ≡ i = omega arith in
      let free : run_free table i n ≡ true = subst (λ x. run_free table x n ≡ true) e h in
      rw free (λ x. cc)
]

abbrev unmarked : ℕ → ℕ → Kernel → Kernel
unmarked i n k = record k { page_allocated = mark_pages k.page_allocated i n false }

free_pages-page_addr :
    (free_ram i n : ℕ) (k : Kernel)
    → 0 < n
    → i + n ≤ num_pages
    → free_pages free_ram (page_addr free_ram i) n k ≡ ok tt (unmarked i n k)
unfolding free_pages
free_pages-page_addr free_ram i n k pos_n le =
    let e : page_index free_ram (page_addr free_ram i) ≡ i = omega arith in rw e (ground arith)

mark_pages_back :
    (table : ℕ → Bool) (i n : ℕ)
    → IsFree table i n
    → (j : ℕ) → mark_pages (mark_pages table i n true) i n false j ≡ table j
unfolding mark_pages
mark_pages_back table i n free j = elim (Bool-cases (leb i j && ltb j (i + n))) [
  | inl e ↦ rw e (sym (free j (ground arith) (ground arith)))
  | inr e ↦ rw e
]

module _ (free_ram n : ℕ) (k : Kernel) where
  -- What `alloc_pages` returns is the lowest place with `n` free pages. It marks these, and no
  -- others, as allocated and fills them with zeros; nothing else of the kernel's state changes. The
  -- pages lie in the managed memory. `n` must be at most the number of pages.
  pub alloc_pages-first :
      {paddr : ℕ} {k' : Kernel}
      → n ≤ num_pages
      → alloc_pages free_ram n k ≡ ok paddr k'
      → (i : ℕ) × (paddr ≡ page_addr free_ram i)
        × IsFree k.page_allocated i n
        × ((j : ℕ) → j < i → ¬ IsFree k.page_allocated j n)
        × (k' ≡ taken free_ram i n k)
        × (i + n ≤ num_pages)
  unfolding alloc_pages
  alloc_pages-first le h =
      elim (Option-cases (first_run k.page_allocated n (sub32 num_pages n + 1) 0)) [
        | inl e ↦ ground arith
        | inr (i, e) ↦
            let f = first_run-some k.page_allocated n (sub32 num_pages n + 1) 0 i e in
            (
              i,
              ground arith,
              run_free→IsFree k.page_allocated i n f.2,
              λ j p q.
                  ground (arith, f.3 j (omega arith) p, IsFree→run_free k.page_allocated j n q),
              ground arith,
              omega arith,
            )
      ]

  -- `alloc_pages` does not PANIC while `n` free pages lie side by side in the managed memory.
  pub alloc_pages-succeeds :
      (i : ℕ) → i + n ≤ num_pages → IsFree k.page_allocated i n → alloc_pages free_ram n k ≢ panic
  unfolding alloc_pages
  alloc_pages-succeeds i h f = ground (
    arith,
    first_run-ne-none k.page_allocated n (sub32 num_pages n + 1) 0 i (omega arith) (omega arith)
        (IsFree→run_free k.page_allocated i n f),
  )

  -- `free_pages` of what `alloc_pages` has just given out succeeds and makes the map of pages what it
  -- was before, for at least one page and at most all of them.
  pub free_pages-alloc_pages :
      {paddr : ℕ} {k' : Kernel}
      → 0 < n
      → n ≤ num_pages
      → alloc_pages free_ram n k ≡ ok paddr k'
      → (k'' : Kernel) × (free_pages free_ram paddr n k' ≡ ok tt k'')
        × ((j : ℕ) → k''.page_allocated j ≡ k.page_allocated j)
  free_pages-alloc_pages pos_n small h =
      let (i, at, free, _, eq, inside) = alloc_pages-first small h in
      (
        unmarked i n (taken free_ram i n k),
        rw (at, eq) (free_pages-page_addr free_ram i n (taken free_ram i n k) pos_n inside),
        mark_pages_back k.page_allocated i n free,
      )
