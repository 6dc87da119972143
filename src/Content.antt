-- ===== src/Content.antt =====
-- The bytes of a file: readi, writei and itrunc of kernel/fs.c.
pub mod Uses
use dmaos.Base.{
  ℕ, zero, suc, ◌+◌, ◌-◌, ◌*◌, ◌/◌, ◌%◌, ltb, leb, ◌==◌, if◌then◌else◌, Bool, true, ◌||◌, ◌&&◌,
  Option, none, some, Bytes, get32, put32, add32, copy_bytes, ℤ, pos, min,
}
use dmaos.Machine.{Inode, M, pure, ◌>>=◌, ◌>>◌, modify}
use dmaos.Machine.Consts.{bsize, ndirect, nindirect, maxfile, ft_unused, minus_one}
use dmaos.Block.{read_block, write_block}
use dmaos.Bitmap.{bfree}
use dmaos.Inode.{update_inode, inode_of, set_inode, ilock, iupdate}
use dmaos.Bmap.{bmap, bmap_alloc, set_addr}

-- The bytes that one round of either loop moves: to the end of the block, or of the request.
abbrev pub chunk : ℕ → ℕ → ℕ
chunk offset left = min (bsize - offset % bsize) left

-- The rounds that suffice for `n` bytes: all but the first and the last move a whole block.
abbrev pub rounds_for : ℕ → ℕ
rounds_for n = n / bsize + 2

-- `left` is `n - tot`.
unfoldable pub readi_loop : ℕ → ℕ → Bytes → ℕ → ℕ → ℕ → M Bytes
readi_loop zero ip dst tot offset left = pure dst
readi_loop (suc rounds) ip dst tot offset left =
    let m = chunk offset left in
    let round = do
      block ← bmap ip (offset / bsize)
      n ← inode_of ip
      buf ← read_block n.dev block
      readi_loop rounds ip (copy_bytes dst tot buf (offset % bsize) m) (tot + m) (offset + m)
          (left - m)
    in if left == 0 then pure dst else round

-- The result, and the destination's bytes afterwards.
unfoldable pub readi : Option ℕ → Bytes → ℕ → ℕ → M (ℤ × Bytes)
readi none dst offset n = pure (minus_one, dst)
readi (some ip) dst offset n = do
  ilock (some ip)
  i ← inode_of ip
  let size = i.dinode.size
  let n' = if ltb size (offset + n) then size - offset else n
  if i.dinode.type == ft_unused
      then pure (minus_one, dst)
      else if ltb size offset || ltb (add32 offset n) offset
      then pure (minus_one, dst)
      else (do dst ← readi_loop (rounds_for n') ip dst 0 offset n'; pure (pos n', dst))

unfoldable pub writei_loop : ℕ → ℕ → Bytes → ℕ → ℕ → ℕ → M (Unit {0})
writei_loop zero ip src tot offset left = pure tt
writei_loop (suc rounds) ip src tot offset left =
    let m = chunk offset left in
    let round = do
      block ← bmap_alloc ip (offset / bsize)
      n ← inode_of ip
      buf ← read_block n.dev block
      write_block n.dev block (copy_bytes buf (offset % bsize) src tot m)
      writei_loop rounds ip src (tot + m) (offset + m) (left - m)
    in if left == 0 then pure tt else round

abbrev pub set_size : Inode → ℕ → Inode
set_size n size = record n { dinode = record (n.dinode) { size = size } }

-- After the loop `offset` stands at the end of the bytes written.
unfoldable pub writei : Option ℕ → Bytes → ℕ → ℕ → M ℤ
writei none src offset n = pure minus_one
writei (some ip) src offset n = do
  ilock (some ip)
  i ← inode_of ip
  let grow = do
    j ← inode_of ip
    let extend = do update_inode ip (λ j. set_size j (offset + n)); iupdate ip
    if ltb 0 n && ltb j.dinode.size (offset + n) then extend else pure tt
  if ltb i.dinode.size offset || ltb (add32 offset n) offset
      then pure minus_one
      else if ltb (maxfile * bsize) (offset + n)
      then pure minus_one
      else (do writei_loop (rounds_for n) ip src 0 offset n; grow; pure (pos n))

-- Frees the block of a table's entry `i` and clears the entry; returns the table's new bytes.
unfoldable pub free_entry : ℕ → ℕ → ℕ → M Bytes
free_entry dev table i = do
  indirect ← read_block dev table
  let free = do
    bfree dev (get32 indirect (4 * i))
    write_block dev table (put32 indirect (4 * i) 0)
    pure (put32 indirect (4 * i) 0)
  if get32 indirect (4 * i) == 0 then pure indirect else free

-- Frees the block of `addrs[i]` and clears the entry.
unfoldable pub free_addr : ℕ → ℕ → M (Unit {0})
free_addr ip i = do
  n ← inode_of ip
  let free = do bfree n.dev (n.dinode.addrs i); update_inode ip (λ m. set_addr m i 0)
  if n.dinode.addrs i == 0 then pure tt else free

-- Whether the entries of a table from `i` on are all zero.
unfoldable pub table_empty : Bytes → ℕ → ℕ → Bool
table_empty table zero i = true
table_empty table (suc rounds) i = get32 table (4 * i) == 0 && table_empty table rounds (i + 1)

-- A block behind the double-indirect root; its table goes too, when nothing is left in it.
unfoldable pub free_double : ℕ → ℕ → ℕ → M (Unit {0})
free_double dev root dfbn = do
  dindirect ← read_block dev root
  let table = get32 dindirect (4 * (dfbn / nindirect))
  let free = do
    indirect ← free_entry dev table (dfbn % nindirect)
    let drop_table = do
      bfree dev table
      write_block dev root (put32 dindirect (4 * (dfbn / nindirect)) 0)
    if table_empty indirect nindirect 0 then drop_table else pure tt
  if table == 0 then pure tt else free

-- The body of the loop of `itrunc`.
unfoldable pub free_file_block : ℕ → ℕ → M (Unit {0})
free_file_block ip bn = do
  n ← inode_of ip
  let table = n.dinode.addrs ndirect
  let root = n.dinode.addrs (ndirect + 1)
  if ltb bn ndirect
      then free_addr ip bn
      else if ltb (bn - ndirect) nindirect
      then if table == 0 then pure tt else (free_entry n.dev table (bn - ndirect) >> pure tt)
      else if root == 0
      then pure tt
      else free_double n.dev root (bn - ndirect - nindirect)

unfoldable pub itrunc_loop : ℕ → ℕ → ℕ → M (Unit {0})
itrunc_loop ip zero bn = pure tt
itrunc_loop ip (suc rounds) bn = do free_file_block ip bn; itrunc_loop ip rounds (bn + 1)

-- `(size + BSIZE - 1) / BSIZE`.
abbrev pub blocks_of : ℕ → ℕ
blocks_of size = add32 size (bsize - 1) / bsize

unfoldable pub itrunc : Option ℕ → ℕ → M (Unit {0})
itrunc none new_size = ilock none
itrunc (some ip) new_size = do
  ilock (some ip)
  n ← inode_of ip
  let old_blocks = blocks_of n.dinode.size
  let new_blocks = blocks_of new_size
  let release = do
    itrunc_loop ip (old_blocks - new_blocks) new_blocks
    if leb new_blocks ndirect then free_addr ip ndirect else pure tt
    if leb new_blocks (ndirect + nindirect) then free_addr ip (ndirect + 1) else pure tt
  let shrink = do
    if ltb new_blocks old_blocks then release else pure tt
    update_inode ip (λ m. set_size m new_size)
    iupdate ip
  if leb n.dinode.size new_size then pure tt else shrink
