-- ===== src/Page.antt =====
-- The page allocator: alloc_pages and free_pages of kernel/page.c.
-- `free_ram` is the linker's `__free_ram`; kernel/kernel.ld puts 64 MB behind it. Physical memory is
-- its words by their byte addresses.
pub mod Alloc
use dmaos.Base.{
  ℕ, zero, suc, ◌+◌, ◌-◌, ◌*◌, ◌/◌, ltb, leb, if◌then◌else◌, Bool, true, false, not, ◌&&◌, ◌||◌,
  Option, none, some, sub32, add32,
}
use dmaos.Machine.{Kernel, M, pure, stop, modify}
use dmaos.Machine.Consts.{page_size, num_pages}

-- Whether the `n` pages from page `i` on are free.
unfoldable pub run_free : (ℕ → Bool) → ℕ → ℕ → Bool
run_free table i zero = true
run_free table i (suc n) = not (table i) && run_free table (i + 1) n

-- The first of the `rounds` places from `i` on with `n` free pages.
unfoldable pub first_run : (ℕ → Bool) → ℕ → ℕ → ℕ → Option ℕ
first_run table n zero i = none
first_run table n (suc rounds) i =
    let rest = first_run table n rounds (i + 1) in if run_free table i n then some i else rest

-- `page_allocated[i .. i + n - 1] = value`.
unfoldable pub mark_pages : (ℕ → Bool) → ℕ → ℕ → Bool → ℕ → Bool
mark_pages table i n value j = if leb i j && ltb j (i + n) then value else table j

-- `memset(paddr, 0, size)`.
abbrev pub zero_words : (ℕ → ℕ) → ℕ → ℕ → ℕ → ℕ
zero_words words paddr size a = if leb paddr a && ltb a (paddr + size) then 0 else words a

module _ (free_ram : ℕ) where
  abbrev pub free_ram_end : ℕ
  free_ram_end = free_ram + num_pages * page_size

  abbrev pub page_addr : ℕ → ℕ
  page_addr i = free_ram + i * page_size

  abbrev pub taken : ℕ → ℕ → Kernel → Kernel
  taken i n k = record k {
    page_allocated = mark_pages k.page_allocated i n true;
    words = zero_words k.words (page_addr i) (n * page_size);
  }

  -- `for (i = 0; i <= NUM_PAGES - n; i++)`, the bound in `uint32_t`.
  unfoldable pub alloc_pages : ℕ → M ℕ
  alloc_pages n k = elim (first_run k.page_allocated n (sub32 num_pages n + 1) 0) [
    | none ↦ stop k
    | some i ↦ pure (page_addr i) (taken i n k)
  ]

  abbrev pub page_index : ℕ → ℕ
  page_index paddr = (paddr - free_ram) / page_size

  unfoldable pub free_pages : ℕ → ℕ → M (Unit {0})
  free_pages paddr n k =
      if ltb paddr free_ram || leb free_ram_end paddr
      then stop k
      else if ltb num_pages (add32 (page_index paddr) n)
      then stop k
      else modify
          (λ k. record k {
            page_allocated = mark_pages k.page_allocated (page_index paddr) n false;
          })
          k
