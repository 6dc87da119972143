-- ===== src/Bmap.antt =====
-- From a file's block number to the disk's: bmap and bmap_alloc of kernel/fs.c.
use dmaos.Base.{ℕ, ◌+◌, ◌-◌, ◌*◌, ◌/◌, ◌%◌, ltb, ◌==◌, if◌then◌else◌, get32, put32, upd}
use dmaos.Machine.{Inode, M, pure, stop, ◌>>=◌, ◌>>◌}
use dmaos.Machine.Consts.{ndirect, nindirect, ndindirect}
use dmaos.Block.{read_block, write_block}
use dmaos.Bitmap.{balloc}
use dmaos.Inode.{update_inode, inode_of, iupdate}

-- Entry `i` of a table of block numbers. PANIC if there is none.
unfoldable pub table_entry : ℕ → ℕ → ℕ → M ℕ
table_entry dev table i = do
  indirect ← read_block dev table
  if get32 indirect (4 * i) == 0 then stop else pure (get32 indirect (4 * i))

-- `ip` is not NULL here: `readi` has checked it.
unfoldable pub bmap : ℕ → ℕ → M ℕ
bmap ip bn = do
  n ← inode_of ip
  let addrs = n.dinode.addrs
  if ltb bn ndirect
      then if addrs bn == 0 then stop else pure (addrs bn)
      else if ltb (bn - ndirect) nindirect
      then if addrs ndirect == 0 then stop else table_entry n.dev (addrs ndirect) (bn - ndirect)
      else if ltb (bn - ndirect - nindirect) ndindirect
      then if addrs (ndirect + 1) == 0 then stop else (do
        table ← table_entry n.dev (addrs (ndirect + 1)) ((bn - ndirect - nindirect) / nindirect)
        table_entry n.dev table ((bn - ndirect - nindirect) % nindirect))
      else stop

abbrev pub set_addr : Inode → ℕ → ℕ → Inode
set_addr n i addr = record n { dinode = record (n.dinode) { addrs = upd n.dinode.addrs i addr } }

-- The block of `addrs[i]`, allocated and recorded if there is none.
unfoldable pub addr_alloc : ℕ → ℕ → M ℕ
addr_alloc ip i = do
  n ← inode_of ip
  let fill = do addr ← balloc n.dev; update_inode ip (λ m. set_addr m i addr); iupdate ip; pure addr
  if n.dinode.addrs i == 0 then fill else pure (n.dinode.addrs i)

-- The block of a table's entry `i`, allocated and recorded if there is none.
unfoldable pub entry_alloc : ℕ → ℕ → ℕ → M ℕ
entry_alloc dev table i = do
  indirect ← read_block dev table
  let fill = do addr ← balloc dev; write_block dev table (put32 indirect (4 * i) addr); pure addr
  if get32 indirect (4 * i) == 0 then fill else pure (get32 indirect (4 * i))

unfoldable pub bmap_alloc : ℕ → ℕ → M ℕ
bmap_alloc ip bn = do
  n ← inode_of ip
  if ltb bn ndirect
      then addr_alloc ip bn
      else if ltb (bn - ndirect) nindirect
      then (do table ← addr_alloc ip ndirect; entry_alloc n.dev table (bn - ndirect))
      else if ltb (bn - ndirect - nindirect) ndindirect
      then (do
        root ← addr_alloc ip (ndirect + 1)
        table ← entry_alloc n.dev root ((bn - ndirect - nindirect) / nindirect)
        entry_alloc n.dev table ((bn - ndirect - nindirect) % nindirect))
      else stop
