-- ===== src/Content/Uses.antt =====
-- The references of bmap, bmap_alloc, readi, writei and itrunc of kernel/fs.c.
use dmaos.Base.{ℕ, zero, suc, refl, Option, none, some, Bytes}
use dmaos.Inode.Uses.{
  keeping, pure-Keeps, stop-Keeps, Keeps, update_inode-Keeps, ilock-Keeps, iupdate-Keeps,
}
use dmaos.Inode.{update_inode}
use dmaos.Bitmap.{balloc, bfree, take_block}
use dmaos.Bmap.{table_entry, bmap, addr_alloc, entry_alloc, bmap_alloc, set_addr}
use dmaos.Content.{
  readi, readi_loop, writei, writei_loop, set_size, free_entry, free_addr, free_double,
  free_file_block, itrunc_loop, itrunc,
}

take_block-Keeps : (dev start : ℕ) (buf : Bytes) (b : Option ℕ) → Keeps (take_block dev start buf b)
unfolding take_block
take_block-Keeps dev start buf none = stop-Keeps
take_block-Keeps dev start buf (some b) = search keeping

balloc-Keeps : (dev : ℕ) → Keeps (balloc dev)
unfolding balloc
balloc-Keeps dev = search (keeping, take_block-Keeps)

bfree-Keeps : (dev b : ℕ) → Keeps (bfree dev b)
unfolding bfree
bfree-Keeps dev b = search keeping

table_entry-Keeps : (dev t i : ℕ) → Keeps (table_entry dev t i)
unfolding table_entry
table_entry-Keeps dev t i = search keeping

pub bmap-Keeps : (ip bn : ℕ) → Keeps (bmap ip bn)
unfolding bmap
bmap-Keeps ip bn = search (keeping, table_entry-Keeps) depth 20

-- The fields that these functions write are not the count.
pub set_addr-Keeps : (ip i addr : ℕ) → Keeps (update_inode ip (λ m. set_addr m i addr))
set_addr-Keeps ip i addr = update_inode-Keeps ip _ (λ m. refl)

pub set_size-Keeps : (ip size : ℕ) → Keeps (update_inode ip (λ m. set_size m size))
set_size-Keeps ip size = update_inode-Keeps ip _ (λ m. refl)

addr_alloc-Keeps : (ip i : ℕ) → Keeps (addr_alloc ip i)
unfolding addr_alloc
addr_alloc-Keeps ip i = search (keeping, balloc-Keeps, iupdate-Keeps, set_addr-Keeps) depth 20

entry_alloc-Keeps : (dev t i : ℕ) → Keeps (entry_alloc dev t i)
unfolding entry_alloc
entry_alloc-Keeps dev t i = search (keeping, balloc-Keeps) depth 20

pub bmap_alloc-Keeps : (ip bn : ℕ) → Keeps (bmap_alloc ip bn)
unfolding bmap_alloc
bmap_alloc-Keeps ip bn = search (keeping, addr_alloc-Keeps, entry_alloc-Keeps) depth 20

readi_loop-Keeps :
    (rounds ip : ℕ) (dst : Bytes) (tot offset left : ℕ)
    → Keeps (readi_loop rounds ip dst tot offset left)
unfolding readi_loop
readi_loop-Keeps zero ip dst tot offset left = pure-Keeps _
readi_loop-Keeps (suc rounds) ip dst tot offset left =
    search (keeping, bmap-Keeps, readi_loop-Keeps rounds) depth 20

pub readi-Keeps : (ip : Option ℕ) (dst : Bytes) (offset n : ℕ) → Keeps (readi ip dst offset n)
unfolding readi
readi-Keeps none dst offset n = pure-Keeps _
readi-Keeps (some ip) dst offset n = search (keeping, readi_loop-Keeps) depth 20

writei_loop-Keeps :
    (rounds ip : ℕ) (src : Bytes) (tot offset left : ℕ)
    → Keeps (writei_loop rounds ip src tot offset left)
unfolding writei_loop
writei_loop-Keeps zero ip src tot offset left = pure-Keeps _
writei_loop-Keeps (suc rounds) ip src tot offset left =
    search (keeping, bmap_alloc-Keeps, writei_loop-Keeps rounds) depth 20

pub writei-Keeps : (ip : Option ℕ) (src : Bytes) (offset n : ℕ) → Keeps (writei ip src offset n)
unfolding writei
writei-Keeps none src offset n = pure-Keeps _
writei-Keeps (some ip) src offset n =
    search (keeping, writei_loop-Keeps, set_size-Keeps, iupdate-Keeps) depth 30

free_entry-Keeps : (dev t i : ℕ) → Keeps (free_entry dev t i)
unfolding free_entry
free_entry-Keeps dev t i = search (keeping, bfree-Keeps) depth 20

free_addr-Keeps : (ip i : ℕ) → Keeps (free_addr ip i)
unfolding free_addr
free_addr-Keeps ip i = search (keeping, bfree-Keeps, set_addr-Keeps) depth 20

free_double-Keeps : (dev root dfbn : ℕ) → Keeps (free_double dev root dfbn)
unfolding free_double
free_double-Keeps dev root dfbn = search (keeping, free_entry-Keeps, bfree-Keeps) depth 20

free_file_block-Keeps : (ip bn : ℕ) → Keeps (free_file_block ip bn)
unfolding free_file_block
free_file_block-Keeps ip bn =
    search (keeping, free_addr-Keeps, free_entry-Keeps, free_double-Keeps) depth 20

itrunc_loop-Keeps : (ip rounds bn : ℕ) → Keeps (itrunc_loop ip rounds bn)
unfolding itrunc_loop
itrunc_loop-Keeps ip zero bn = pure-Keeps _
itrunc_loop-Keeps ip (suc rounds) bn =
    search (keeping, free_file_block-Keeps, itrunc_loop-Keeps ip rounds) depth 20

pub itrunc-Keeps : (ip : Option ℕ) (size : ℕ) → Keeps (itrunc ip size)
unfolding itrunc
itrunc-Keeps none size = ilock-Keeps none
itrunc-Keeps (some ip) size =
    search (keeping, itrunc_loop-Keeps, free_addr-Keeps, set_size-Keeps, iupdate-Keeps) depth 30
