-- ===== src/UserMem.antt =====
-- The memory of a user program as the kernel sees it: the checks of pointers that programs pass in,
-- and sbrk, of kernel/kernel.c. `t1` is the first-level table that is in force.
pub mod Valid
use dmaos.Base.{
  ℕ, zero, suc, ◌+◌, ◌-◌, ◌*◌, ◌/◌, ◌%◌, ◌^◌, ltb, leb, ◌==◌, if◌then◌else◌, Bool, true, false, not,
  ◌&&◌, ◌||◌, bit_or, add32, ℤ, pos, negsuc, pattern32,
}
use dmaos.Machine.{Kernel, M, pure, ◌>>=◌, ◌>>◌, get_state, modify}
use dmaos.Machine.Consts.{page_size, minus_one}
use dmaos.Page.{alloc_pages, free_pages}
use dmaos.PageTable.{
  page_v, page_r, page_w, page_u, vpn1, entry_has, entry_addr, slot, set_word, leaf, leaf_slot,
  map_page,
}
use dmaos.Fd.{current, set_process}

-- `addr & ~(PAGE_SIZE - 1)`.
abbrev pub page_floor : ℕ → ℕ
page_floor addr = addr / page_size * page_size

-- `(addr + PAGE_SIZE - 1) & ~(PAGE_SIZE - 1)`.
abbrev pub page_ceil : ℕ → ℕ
page_ceil addr = page_floor (add32 addr (page_size - 1))

abbrev pub user_top : ℕ
user_top = 0x80000000

-- The page of `va` is mapped for user programs, and for writing if `write`.
unfoldable pub page_ok : (ℕ → ℕ) → ℕ → Bool → ℕ → Bool
page_ok words t1 write va =
    entry_has (words (slot t1 (vpn1 va))) page_v
    && (entry_has (leaf words t1 va) page_v
        && (entry_has (leaf words t1 va) page_u
            && (not write || entry_has (leaf words t1 va) page_w)))

-- `for (va = page_start; va < page_end; va += PAGE_SIZE)`.
unfoldable pub pages_ok : (ℕ → ℕ) → ℕ → Bool → ℕ → ℕ → Bool
pages_ok words t1 write zero va = true
pages_ok words t1 write (suc rounds) va =
    page_ok words t1 write va && pages_ok words t1 write rounds (va + page_size)

unfoldable pub validate_user_buffer : (ℕ → ℕ) → ℕ → Bool → ℕ → ℕ → Bool
validate_user_buffer words t1 write start len =
    let end = add32 start len in
    if ltb end start
    then false
    else if ltb user_top end
    then false
    else pages_ok words t1 write ((page_ceil end - page_floor start) / page_size) (page_floor start)

unfoldable pub validate_user_write_buffer : (ℕ → ℕ) → ℕ → ℕ → ℕ → Bool
validate_user_write_buffer words t1 addr len = validate_user_buffer words t1 true addr len

unfoldable pub validate_user_read_buffer : (ℕ → ℕ) → ℕ → ℕ → ℕ → Bool
validate_user_read_buffer words t1 addr len = validate_user_buffer words t1 false addr len

-- The byte that a load from the virtual address finds, little-endian in its word.
abbrev pub user_byte : (ℕ → ℕ) → ℕ → ℕ → ℕ
user_byte words t1 va =
    let paddr = entry_addr (leaf words t1 va) + va % page_size in
    words (paddr / 4 * 4) / 256 ^ (paddr % 4) % 256

-- The loop of `validate_user_string`; `rounds` is what is left below `user_top`.
unfoldable pub string_ok : (ℕ → ℕ) → ℕ → ℕ → ℕ → Bool
string_ok words t1 zero va = false
string_ok words t1 (suc rounds) va =
    let rest = string_ok words t1 rounds (va + 1) in
    if va % page_size == 0 && not (page_ok words t1 false va)
    then false
    else if user_byte words t1 va == 0
    then true
    else rest

unfoldable pub validate_user_string : (ℕ → ℕ) → ℕ → ℕ → Bool
validate_user_string words t1 str =
    if leb user_top str
    then false
    else if page_ok words t1 false (page_floor str)
    then string_ok words t1 (user_top - str) str
    else false

abbrev pub set_heap_end : ℕ → ℕ → Kernel → Kernel
set_heap_end p brk k = set_process p (record (k.procs p) { heap_end = brk }) k

module _ (free_ram : ℕ) where
  -- Unmaps and frees the pages from `va` on.
  unfoldable pub sbrk_shrink : ℕ → ℕ → ℕ → M (Unit {0})
  sbrk_shrink t1 zero va = pure tt
  sbrk_shrink t1 (suc rounds) va = do
    k ← get_state
    let entry = leaf k.words t1 va
    let unmap = do
      free_pages free_ram (entry_addr entry) 1
      modify (set_word (leaf_slot k.words t1 va) 0)
    if entry_has (k.words (slot t1 (vpn1 va))) page_v && entry_has entry page_v
        then unmap
        else pure tt
    sbrk_shrink t1 rounds (va + page_size)

  unfoldable pub sbrk_grow : ℕ → ℕ → ℕ → M (Unit {0})
  sbrk_grow t1 zero va = pure tt
  sbrk_grow t1 (suc rounds) va = do
    page ← alloc_pages free_ram 1
    map_page free_ram t1 va page (bit_or (bit_or page_u page_r) page_w)
    sbrk_grow t1 rounds (va + page_size)

  -- SYSCALL_SBRK: the old break, or -1. `alloc_pages` does not return 0.
  unfoldable pub sbrk : ℤ → M ℤ
  sbrk increment = do
    p ← current
    k ← get_state
    let proc = k.procs p
    let old_brk = proc.heap_end
    let new_brk = add32 old_brk (pattern32 increment)
    let shrink = do
      sbrk_shrink proc.page_table ((page_ceil old_brk - page_ceil new_brk) / page_size)
          (page_ceil new_brk)
      modify (set_heap_end p new_brk)
      pure (pos old_brk)
    let grow = do
      sbrk_grow proc.page_table ((page_ceil new_brk - page_ceil old_brk) / page_size)
          (page_ceil old_brk)
      modify (set_heap_end p new_brk)
      pure (pos old_brk)
    elim increment [
      | negsuc _ ↦
          if ltb new_brk proc.heap_start || ltb old_brk new_brk then pure minus_one else shrink
      | pos zero ↦ pure (pos old_brk)
      | pos (suc _) ↦ if ltb new_brk old_brk || leb user_top new_brk then pure minus_one else grow
    ]
