-- ===== src/Tables/Content.antt =====
-- bmap, bmap_alloc, readi, writei and itrunc of kernel/fs.c touch neither table.
use dmaos.Base.{ℕ, zero, suc, Option, none, some, Bytes}
use dmaos.Tables.{leaving, Leaves, pure-Leaves, stop-Leaves, ilock-Leaves, iupdate-Leaves}
use dmaos.Bitmap.{balloc, bfree, take_block}
use dmaos.Bmap.{table_entry, bmap, addr_alloc, entry_alloc, bmap_alloc}
use dmaos.Content.{
  readi, readi_loop, writei, writei_loop, free_entry, free_addr, free_double, free_file_block,
  itrunc_loop, itrunc,
}

take_block-Leaves :
    (dev start : ℕ) (buf : Bytes) (b : Option ℕ) → Leaves (take_block dev start buf b)
unfolding take_block
take_block-Leaves dev start buf none = stop-Leaves
take_block-Leaves dev start buf (some b) = search leaving

balloc-Leaves : (dev : ℕ) → Leaves (balloc dev)
unfolding balloc
balloc-Leaves dev = search (leaving, take_block-Leaves)

bfree-Leaves : (dev b : ℕ) → Leaves (bfree dev b)
unfolding bfree
bfree-Leaves dev b = search leaving

table_entry-Leaves : (dev t i : ℕ) → Leaves (table_entry dev t i)
unfolding table_entry
table_entry-Leaves dev t i = search leaving

pub bmap-Leaves : (ip bn : ℕ) → Leaves (bmap ip bn)
unfolding bmap
bmap-Leaves ip bn = search (leaving, table_entry-Leaves) depth 20

addr_alloc-Leaves : (ip i : ℕ) → Leaves (addr_alloc ip i)
unfolding addr_alloc
addr_alloc-Leaves ip i = search (leaving, balloc-Leaves, iupdate-Leaves) depth 20

entry_alloc-Leaves : (dev t i : ℕ) → Leaves (entry_alloc dev t i)
unfolding entry_alloc
entry_alloc-Leaves dev t i = search (leaving, balloc-Leaves) depth 20

pub bmap_alloc-Leaves : (ip bn : ℕ) → Leaves (bmap_alloc ip bn)
unfolding bmap_alloc
bmap_alloc-Leaves ip bn = search (leaving, addr_alloc-Leaves, entry_alloc-Leaves) depth 20

readi_loop-Leaves :
    (rounds ip : ℕ) (dst : Bytes) (tot offset left : ℕ)
    → Leaves (readi_loop rounds ip dst tot offset left)
unfolding readi_loop
readi_loop-Leaves zero ip dst tot offset left = pure-Leaves _
readi_loop-Leaves (suc rounds) ip dst tot offset left =
    search (leaving, bmap-Leaves, readi_loop-Leaves rounds) depth 20

pub readi-Leaves : (ip : Option ℕ) (dst : Bytes) (offset n : ℕ) → Leaves (readi ip dst offset n)
unfolding readi
readi-Leaves none dst offset n = pure-Leaves _
readi-Leaves (some ip) dst offset n = search (leaving, ilock-Leaves, readi_loop-Leaves) depth 20

writei_loop-Leaves :
    (rounds ip : ℕ) (src : Bytes) (tot offset left : ℕ)
    → Leaves (writei_loop rounds ip src tot offset left)
unfolding writei_loop
writei_loop-Leaves zero ip src tot offset left = pure-Leaves _
writei_loop-Leaves (suc rounds) ip src tot offset left =
    search (leaving, bmap_alloc-Leaves, writei_loop-Leaves rounds) depth 20

pub writei-Leaves : (ip : Option ℕ) (src : Bytes) (offset n : ℕ) → Leaves (writei ip src offset n)
unfolding writei
writei-Leaves none src offset n = pure-Leaves _
writei-Leaves (some ip) src offset n =
    search (leaving, ilock-Leaves, iupdate-Leaves, writei_loop-Leaves, iupdate-Leaves) depth 30

free_entry-Leaves : (dev t i : ℕ) → Leaves (free_entry dev t i)
unfolding free_entry
free_entry-Leaves dev t i = search (leaving, bfree-Leaves) depth 20

free_addr-Leaves : (ip i : ℕ) → Leaves (free_addr ip i)
unfolding free_addr
free_addr-Leaves ip i = search (leaving, bfree-Leaves) depth 20

free_double-Leaves : (dev root dfbn : ℕ) → Leaves (free_double dev root dfbn)
unfolding free_double
free_double-Leaves dev root dfbn = search (leaving, free_entry-Leaves, bfree-Leaves) depth 20

free_file_block-Leaves : (ip bn : ℕ) → Leaves (free_file_block ip bn)
unfolding free_file_block
free_file_block-Leaves ip bn =
    search (leaving, free_addr-Leaves, free_entry-Leaves, free_double-Leaves) depth 20

itrunc_loop-Leaves : (ip rounds bn : ℕ) → Leaves (itrunc_loop ip rounds bn)
unfolding itrunc_loop
itrunc_loop-Leaves ip zero bn = pure-Leaves _
itrunc_loop-Leaves ip (suc rounds) bn =
    search (leaving, free_file_block-Leaves, itrunc_loop-Leaves ip rounds) depth 20

pub itrunc-Leaves : (ip : Option ℕ) (size : ℕ) → Leaves (itrunc ip size)
unfolding itrunc
itrunc-Leaves none size = ilock-Leaves none
itrunc-Leaves (some ip) size =
    search
      (leaving, ilock-Leaves, iupdate-Leaves, itrunc_loop-Leaves, free_addr-Leaves, iupdate-Leaves)
      depth 30
