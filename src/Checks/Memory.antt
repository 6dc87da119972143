-- ===== src/Checks/Memory.antt =====
-- The pages, page tables and user memory of kernel/page.c and kernel/kernel.c, run on a small machine.
use dmaos.Base.{ℕ, ◌+◌, ◌==◌, ◌≡◌, refl, true}
use dmaos.Machine.{Kernel, ok, panic}
use dmaos.Base.{◌*◌, ◌/◌, ◌≤◌, ◌<◌, ◌≢◌, arith}
use dmaos.Machine.Consts.{num_pages, page_size}
use dmaos.Page.{alloc_pages, free_pages, first_run, run_free, page_addr, taken}
use dmaos.Page.Alloc.{IsFree, alloc_pages-first, alloc_pages-succeeds, free_pages-alloc_pages}
use dmaos.PageTable.{
  entry_has, slot, vpn1, page_v, second_level, leaf, entry_addr, map_page, ensure_table,
}
use dmaos.PageTable.Map.{IsRam, IsTable, Apart, map_page-leaf}
use dmaos.Checks.{state_of, machine}

-- The memory that the linker leaves, and a machine with its first page taken for a page table.
abbrev ram : ℕ
ram = 0x80400000

abbrev with_table : Kernel
with_table = record machine { page_allocated = λ i. i == 0 }

alloc_pages-first_example :
    (i : ℕ) × (page_addr ram 1 ≡ page_addr ram i)
    × IsFree with_table.page_allocated i 3
    × ((j : ℕ) → j < i → ¬ IsFree with_table.page_allocated j 3)
    × (state_of with_table (alloc_pages ram 3 with_table) ≡ taken ram i 3 with_table)
    × (i + 3 ≤ num_pages)
unfolding alloc_pages first_run run_free
alloc_pages-first_example = alloc_pages-first ram 3 with_table (omega arith) refl

clear_from_1 : IsFree with_table.page_allocated 1 3
clear_from_1 j p q = ground arith

alloc_pages-succeeds_example : alloc_pages ram 3 with_table ≢ panic
alloc_pages-succeeds_example = alloc_pages-succeeds ram 3 with_table 1 (omega arith) clear_from_1

free_pages-alloc_pages_example :
    (k'' : Kernel) × (free_pages ram (page_addr ram 1) 3 (taken ram 1 3 with_table) ≡ ok tt k'')
    × ((j : ℕ) → k''.page_allocated j ≡ with_table.page_allocated j)
unfolding alloc_pages first_run run_free
free_pages-alloc_pages_example =
    free_pages-alloc_pages ram 3 with_table (omega arith) (omega arith) refl

ram-IsRam : IsRam ram
ram-IsRam = record { aligned = refl; below = omega arith }

first_page-IsTable : IsTable ram with_table ram
first_page-IsTable = record { index = 0; at = refl; held = refl }

no_entry :
    entry_has (with_table.words (slot ram (vpn1 0x1000000))) page_v ≡ true
    → Apart (second_level with_table.words ram 0x1000000) ram
no_entry h = absurd (ground arith)

abbrev mapped : Kernel
unfolding map_page ensure_table alloc_pages first_run run_free
mapped = state_of with_table (map_page ram ram 0x1000000 (ram + 8192) 22 with_table)

map_page-leaf_example :
    (entry_has (mapped.words (slot ram (vpn1 0x1000000))) page_v ≡ true)
    × (leaf mapped.words ram 0x1000000 ≡ (ram + 8192) / page_size * 1024 + 22 / 2 * 2 + 1)
    × (entry_addr (leaf mapped.words ram 0x1000000) ≡ ram + 8192)
unfolding map_page ensure_table alloc_pages first_run run_free
map_page-leaf_example =
    map_page-leaf ram ram 0x1000000 ram-IsRam (ram + 8192) 22 with_table first_page-IsTable no_entry
      (omega arith) (omega arith) refl
