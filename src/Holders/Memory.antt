-- ===== src/Holders/Memory.antt =====
-- The references behind sbrk of kernel/kernel.c, and page allocation that leaves both tables alone.
use dmaos.Base.{
  ℕ, zero, suc, ◌<◌, ◌≡◌, ◌==◌, ◌||◌, refl, sym, ap, ◌∙◌, Option, none, some, arith, ℤ, pos, negsuc,
  ltb, leb, not, ◌%◌, add32, pattern32,
}
use dmaos.Machine.{Kernel, Process, ok, modify, panic}
use dmaos.Machine.Consts.{procs_max, page_size}
use dmaos.Machine.Post.{Post, returned, bind, either}
use dmaos.Inode.Cache.{one, count}
use dmaos.Inode.Uses.{Held, Keeps, keeps, keeping, pure-Keeps, stop-Keeps, if-Keeps, bind-Keeps}
use dmaos.Tables.{Leaves, leaving, pure-Leaves, stop-Leaves, if-Leaves, bind-Leaves, SameTables}
use dmaos.Page.{alloc_pages, free_pages, taken, page_addr}
use dmaos.PageTable.{
  free_tables, free_leaves, free_leaf, set_word, ensure_table, map_page, write_leaf,
}
use dmaos.UserMem.{sbrk, sbrk_shrink, sbrk_grow, user_top}
use dmaos.Fd.{set_process}
use dmaos.Holders.{IsSound, set_process-IsSound, sound}
use dmaos.Holders.Fd.{current-IsSound}

-- A change of a process that leaves its directory and its descriptors.
pub same_process :
    {c : Held} (p : ℕ) (v : Process) (k : Kernel)
    → p < procs_max
    → v.cwd ≡ (k.procs p).cwd
    → v.ofile ≡ (k.procs p).ofile
    → IsSound c k
    → IsSound c (set_process p v k)
same_process p v k lt cwd ofile s =
    set_process-IsSound p v lt (λ i. let x = ap (λ o. one o i) cwd in omega arith)
      (λ fd f l e. s.opened p fd f lt l (sym (ap (λ t. t fd) ofile) ∙ e)) s

pub set_word-Leaves : (a w : ℕ) → Leaves (modify (set_word a w))
set_word-Leaves a w = record { same = λ k r k' h. ground arith }

pub set_word-Keeps : (a w : ℕ) → Keeps (modify (set_word a w))
set_word-Keeps a w = keeps (λ k r k' i h. ground arith)

write_leaf-Leaves : (t va pa flags : ℕ) → Leaves (modify (write_leaf t va pa flags))
write_leaf-Leaves t va pa flags = record { same = λ k r k' h. ground arith }

write_leaf-Keeps : (t va pa flags : ℕ) → Keeps (modify (write_leaf t va pa flags))
write_leaf-Keeps t va pa flags = keeps (λ k r k' i h. ground arith)

module _ (free_ram : ℕ) where
  pub free_pages-Leaves : (a n : ℕ) → Leaves (free_pages free_ram a n)
  unfolding free_pages
  free_pages-Leaves a n = record { same = λ k r k' h. ground arith }

  pub free_pages-Keeps : (a n : ℕ) → Keeps (free_pages free_ram a n)
  unfolding free_pages
  free_pages-Keeps a n = keeps (λ k r k' i h. ground arith)

  free_leaves-Leaves : (t rounds vpn : ℕ) → Leaves (free_leaves free_ram t rounds vpn)
  unfolding free_leaves free_leaf
  free_leaves-Leaves t zero vpn = pure-Leaves _
  free_leaves-Leaves t (suc rounds) vpn =
      search (leaving, free_pages-Leaves, free_leaves-Leaves t rounds) depth 20

  free_leaves-Keeps : (t rounds vpn : ℕ) → Keeps (free_leaves free_ram t rounds vpn)
  unfolding free_leaves free_leaf
  free_leaves-Keeps t zero vpn = pure-Keeps _
  free_leaves-Keeps t (suc rounds) vpn =
      search (keeping, free_pages-Keeps, free_leaves-Keeps t rounds) depth 20

  pub free_tables-Leaves : (t rounds vpn : ℕ) → Leaves (free_tables free_ram t rounds vpn)
  unfolding free_tables
  free_tables-Leaves t zero vpn = pure-Leaves _
  free_tables-Leaves t (suc rounds) vpn =
      search (leaving, free_pages-Leaves, free_leaves-Leaves, free_tables-Leaves t rounds) depth 20

  pub free_tables-Keeps : (t rounds vpn : ℕ) → Keeps (free_tables free_ram t rounds vpn)
  unfolding free_tables
  free_tables-Keeps t zero vpn = pure-Keeps _
  free_tables-Keeps t (suc rounds) vpn =
      search (keeping, free_pages-Keeps, free_leaves-Keeps, free_tables-Keeps t rounds) depth 20

  alloc_pages-same :
      (n : ℕ) (k : Kernel) (o : Option ℕ) {r : ℕ} {k' : Kernel}
      → elim o [ none ↦ panic | some i ↦ ok (page_addr free_ram i) (taken free_ram i n k) ]
        ≡ ok r k'
      → SameTables k k' × ((i : ℕ) → count k' i ≡ count k i)
  alloc_pages-same n k none h = cc
  alloc_pages-same n k (some i) h = (ground arith, λ j. ground arith)

  pub alloc_pages-Leaves : (n : ℕ) → Leaves (alloc_pages free_ram n)
  unfolding alloc_pages
  alloc_pages-Leaves n = record { same = λ k r k' h. (alloc_pages-same n k _ h).0 }

  pub alloc_pages-Keeps : (n : ℕ) → Keeps (alloc_pages free_ram n)
  unfolding alloc_pages
  alloc_pages-Keeps n = keeps (λ k r k' i h. (alloc_pages-same n k _ h).1 i)

  ensure_table-Leaves : (t va : ℕ) → Leaves (ensure_table free_ram t va)
  unfolding ensure_table
  ensure_table-Leaves t va = search (leaving, alloc_pages-Leaves, set_word-Leaves) depth 20

  ensure_table-Keeps : (t va : ℕ) → Keeps (ensure_table free_ram t va)
  unfolding ensure_table
  ensure_table-Keeps t va = search (keeping, alloc_pages-Keeps, set_word-Keeps) depth 20

  pub map_page-Leaves : (t va pa flags : ℕ) → Leaves (map_page free_ram t va pa flags)
  unfolding map_page
  map_page-Leaves t va pa flags = if-Leaves (not (va % page_size == 0)) stop-Leaves (
      if-Leaves (not (pa % page_size == 0)) stop-Leaves
        (bind-Leaves (ensure_table-Leaves t va) (λ _. write_leaf-Leaves t va pa flags)))

  pub map_page-Keeps : (t va pa flags : ℕ) → Keeps (map_page free_ram t va pa flags)
  unfolding map_page
  map_page-Keeps t va pa flags = if-Keeps (not (va % page_size == 0)) stop-Keeps (
      if-Keeps (not (pa % page_size == 0)) stop-Keeps
        (bind-Keeps (ensure_table-Keeps t va) (λ _. write_leaf-Keeps t va pa flags)))

  sbrk_shrink-Leaves : (t rounds va : ℕ) → Leaves (sbrk_shrink free_ram t rounds va)
  unfolding sbrk_shrink
  sbrk_shrink-Leaves t zero va = pure-Leaves _
  sbrk_shrink-Leaves t (suc rounds) va =
      search (leaving, free_pages-Leaves, set_word-Leaves, sbrk_shrink-Leaves t rounds) depth 20

  sbrk_shrink-Keeps : (t rounds va : ℕ) → Keeps (sbrk_shrink free_ram t rounds va)
  unfolding sbrk_shrink
  sbrk_shrink-Keeps t zero va = pure-Keeps _
  sbrk_shrink-Keeps t (suc rounds) va =
      search (keeping, free_pages-Keeps, set_word-Keeps, sbrk_shrink-Keeps t rounds) depth 20

  sbrk_grow-Leaves : (t rounds va : ℕ) → Leaves (sbrk_grow free_ram t rounds va)
  unfolding sbrk_grow
  sbrk_grow-Leaves t zero va = pure-Leaves _
  sbrk_grow-Leaves t (suc rounds) va =
      search (leaving, alloc_pages-Leaves, map_page-Leaves, sbrk_grow-Leaves t rounds) depth 20

  sbrk_grow-Keeps : (t rounds va : ℕ) → Keeps (sbrk_grow free_ram t rounds va)
  unfolding sbrk_grow
  sbrk_grow-Keeps t zero va = pure-Keeps _
  sbrk_grow-Keeps t (suc rounds) va =
      search (keeping, alloc_pages-Keeps, map_page-Keeps, sbrk_grow-Keeps t rounds) depth 20

  pub sbrk-IsSound :
      {c : Held} (increment : ℤ) (k : Kernel)
      → IsSound c k
      → Post (λ _ k'. IsSound c k') (sbrk free_ram increment k)
  unfolding sbrk
  sbrk-IsSound (negsuc n) k s = bind (current-IsSound k s) (λ p k' (s', lp, _).
      let v = k'.procs p in
      let new_brk = add32 v.heap_end (pattern32 (negsuc n)) in
      either (ltb new_brk v.heap_start || ltb v.heap_end new_brk) _ _ (returned s') (
        bind
          (sound ((sbrk_shrink-Keeps v.page_table _ _).all _) (sbrk_shrink-Leaves v.page_table _ _)
            s')
          (λ _ k2 s2. returned (same_process p _ k2 lp refl refl s2))))
  sbrk-IsSound (pos zero) k s = bind (current-IsSound k s) (λ p k' (s', lp, _). returned s')
  sbrk-IsSound (pos (suc n)) k s = bind (current-IsSound k s) (λ p k' (s', lp, _).
      let v = k'.procs p in
      let new_brk = add32 v.heap_end (pattern32 (pos (suc n))) in
      either (ltb new_brk v.heap_end || leb user_top new_brk) _ _ (returned s') (
        bind
          (sound ((sbrk_grow-Keeps v.page_table _ _).all _) (sbrk_grow-Leaves v.page_table _ _) s')
          (λ _ k2 s2. returned (same_process p _ k2 lp refl refl s2))))
