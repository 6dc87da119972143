-- ===== src/PageTable.antt =====
-- The page tables of SV32, two levels of 1024 words each: map_page of kernel/page.c and the walks
-- of kernel/kernel.c and kernel/process.c. A table is the byte address of its first word.
pub mod Map
use dmaos.Base.{
  ℕ, zero, suc, ◌+◌, ◌*◌, ◌/◌, ◌%◌, ◌^◌, ltb, leb, ◌==◌, if◌then◌else◌, Bool, not, ◌&&◌, bit_and,
  bit_or, upd,
}
use dmaos.Machine.{Kernel, M, pure, stop, ◌>>=◌, ◌>>◌, get_state, modify}
use dmaos.Machine.Consts.{page_size}
use dmaos.Page.{alloc_pages, free_pages, free_ram_end}

-- `enum PageFlags`.
abbrev pub page_v : ℕ
page_v = 1

abbrev pub page_r : ℕ
page_r = 2

abbrev pub page_w : ℕ
page_w = 4

abbrev pub page_x : ℕ
page_x = 8

abbrev pub page_u : ℕ
page_u = 16

-- `(vaddr >> 22) & 0x3ff` and `(vaddr >> 12) & 0x3ff`.
abbrev pub vpn1 : ℕ → ℕ
vpn1 va = va / 2 ^ 22 % 1024

abbrev pub vpn0 : ℕ → ℕ
vpn0 va = va / 2 ^ 12 % 1024

-- `(entry & flag) != 0`.
abbrev pub entry_has : ℕ → ℕ → Bool
entry_has entry flag = not (bit_and entry flag == 0)

-- `(entry >> 10) * PAGE_SIZE`: where an entry points.
abbrev pub entry_addr : ℕ → ℕ
entry_addr entry = entry / 2 ^ 10 * page_size % 2 ^ 32

-- `PAGE_TABLE_TO_INDEX(paddr) << 10`.
abbrev pub entry_of : ℕ → ℕ
entry_of paddr = paddr / page_size * 2 ^ 10 % 2 ^ 32

-- Word `i` of a table.
abbrev pub slot : ℕ → ℕ → ℕ
slot table i = table + 4 * i

abbrev pub set_word : ℕ → ℕ → Kernel → Kernel
set_word a v k = record k { words = upd k.words a v }

-- The second-level table of an address, and the entry of its page.
abbrev pub second_level : (ℕ → ℕ) → ℕ → ℕ → ℕ
second_level words t1 va = entry_addr (words (slot t1 (vpn1 va)))

abbrev pub leaf_slot : (ℕ → ℕ) → ℕ → ℕ → ℕ
leaf_slot words t1 va = slot (second_level words t1 va) (vpn0 va)

abbrev pub leaf : (ℕ → ℕ) → ℕ → ℕ → ℕ
leaf words t1 va = words (leaf_slot words t1 va)

-- A word with its byte `j` replaced.
abbrev pub with_byte : ℕ → ℕ → ℕ → ℕ
with_byte word j b = word / 256 ^ (j + 1) * 256 ^ (j + 1) + b % 256 * 256 ^ j + word % 256 ^ j

-- `*(char *)paddr = b`.
abbrev pub set_byte : ℕ → ℕ → Kernel → Kernel
set_byte paddr b k = let at = paddr / 4 * 4 in set_word at (with_byte (k.words at) (paddr % 4) b) k

abbrev pub write_leaf : ℕ → ℕ → ℕ → ℕ → Kernel → Kernel
write_leaf t1 vaddr paddr flags k =
    set_word (leaf_slot k.words t1 vaddr) (bit_or (bit_or (entry_of paddr) flags) page_v) k

module _ (free_ram : ℕ) where
  -- The second-level table of `vaddr`, made if there is none.
  unfoldable pub ensure_table : ℕ → ℕ → M (Unit {0})
  ensure_table t1 vaddr = do
    k ← get_state
    let make = do
      pt_paddr ← alloc_pages free_ram 1
      modify (set_word (slot t1 (vpn1 vaddr)) (bit_or (entry_of pt_paddr) page_v))
    if entry_has (k.words (slot t1 (vpn1 vaddr))) page_v then pure tt else make

  unfoldable pub map_page : ℕ → ℕ → ℕ → ℕ → M (Unit {0})
  map_page t1 vaddr paddr flags =
      let map = do ensure_table t1 vaddr; modify (write_leaf t1 vaddr paddr flags)
      in if not (vaddr % page_size == 0)
        then stop
        else if not (paddr % page_size == 0)
        then stop
        else map

  -- One page of `free_process_pages`: freed if it is mapped and lies in the managed memory.
  unfoldable pub free_leaf : ℕ → M (Unit {0})
  free_leaf entry =
      let page = entry_addr entry in
      if entry_has entry page_v && (leb free_ram page && ltb page (free_ram_end free_ram))
      then free_pages free_ram page 1
      else pure tt

  unfoldable pub free_leaves : ℕ → ℕ → ℕ → M (Unit {0})
  free_leaves t0 zero vpn = pure tt
  free_leaves t0 (suc rounds) vpn = do
    k ← get_state
    free_leaf (k.words (slot t0 vpn))
    free_leaves t0 rounds (vpn + 1)

  -- The loop over the first level: the pages of the lower half, and every second-level table.
  unfoldable pub free_tables : ℕ → ℕ → ℕ → M (Unit {0})
  free_tables t1 zero vpn = pure tt
  free_tables t1 (suc rounds) vpn = do
    k ← get_state
    let entry = k.words (slot t1 vpn)
    let drop_table = do
      if ltb vpn 512 then free_leaves (entry_addr entry) 1024 0 else pure tt
      free_pages free_ram (entry_addr entry) 1
    if entry_has entry page_v then drop_table else pure tt
    free_tables t1 rounds (vpn + 1)
